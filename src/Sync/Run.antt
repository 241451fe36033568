-- ===== src/Sync/Run.antt =====
-- internal/backup/sync.go and mirror.go: the pass over the jobs. The actions are logged, and what the outside answers to an action may depend on all that were taken before.
use git_backup.Base.{
  Bytes, Bool, List, Option, [], false, leb, length, min, none, some, suc, true, zero, ℕ, ◌++◌,
  ◌||◌, ◌∷◌, if◌then◌else◌,
}
use git_backup.Base.Int.{ℤ}
use git_backup.Base.Result.{Result, err, ok}
use git_backup.Config.Settings.{Credential, Repository}
use git_backup.Paths.Archive.{build_archive_object_key}
use git_backup.Paths.Keys.{
  build_nested_snippet_prefix, build_provider_repository_prefix,
  build_repository_metadata_object_key, build_snippet_resource_prefix,
}
use git_backup.Paths.Parser.{ParseError, PathInfo, parse_repository_path}
use git_backup.Paths.Url.{Url}
use git_backup.Sync.Plan.{Discovered, GitCredential, kind_gist, kind_repository, kind_snippet}
use git_backup.Text.Trim.{is_blank}

pub data Action : Type 0 where
  list_repositories : Repository → Action
  sync_bare_repository : Bytes → Bytes → Option GitCredential → Bool → Bool → Action
  upload_archive : Bytes → Bytes → Action
  upload_text : Bytes → Bytes → Action
  sync_metadata : Repository → Discovered → Bytes → Action
  delete_mirror : Bytes → Action

abbrev pub ActionLog : Type 0
ActionLog = List Action

-- `repositoryMetadataDocument`
pub record RepositoryMetadataDocument : Type 0 where
  pub mode : Bytes
  pub repository_url : Bytes
  pub updated_at_unix_seconds : ℤ

-- What is outside: the context, the forge, Git and the storage, the clock, the JSON encoder, and SHA-256 in hexadecimal digits. `in_flight` is the scheduling of the goroutines.
pub record Outside (E : Type 0) : Type 0 where
  pub ctx_err : ActionLog → Option E
  pub resolve_provider : Bytes → Option E
  pub list_answer : ActionLog → Repository → Credential → Result E (List Discovered)
  pub answer : ActionLog → Action → Option E
  pub is_inaccessible : E → Bool
  pub unix_time : ActionLog → ℤ
  pub marshal_indent : RepositoryMetadataDocument → Result E Bytes
  pub directory_name : Bytes → Bytes
  pub url_error : ParseError → E
  pub in_flight : ActionLog → ℕ

-- `expected` are the mirror directories of this run, and the counters those of the current job.
pub record Progress : Type 0 where
  pub log : ActionLog
  pub expected : List Bytes
  pub synced : ℕ
  pub skipped_inaccessible : ℕ

-- The new state and the error, if any.
abbrev pub OutcomeOf : Type 0 → Type 0
OutcomeOf E = Progress × Option E

module _ {E : Type 0} (o : Outside E) where
  abbrev pub act : Action → Progress → OutcomeOf E
  act action p = (record p { log = p.log ++ action ∷ [] }, o.answer p.log action)

  -- Go on where there was no error.
  abbrev pub carry_on : OutcomeOf E → (Progress → OutcomeOf E) → OutcomeOf E
  carry_on (p, none) next = next p
  carry_on (p, some e) next = (p, some e)

  abbrev pub expect : Bytes → Progress → Progress
  expect prefix p = record p { expected = o.directory_name prefix ∷ p.expected }

  -- The mirror of a repository that is not cached.
  abbrev pub drop_mirror : Bool → Bytes → Progress → OutcomeOf E
  drop_mirror true prefix p = (p, none)
  drop_mirror false prefix p =
      (record p { log = p.log ++ delete_mirror (o.directory_name prefix) ∷ [] }, none)

  abbrev pub upload_document : Bytes → Result E Bytes → Progress → OutcomeOf E
  upload_document prefix (err e) p = (p, some e)
  upload_document prefix (ok document) p =
      act (upload_text (build_repository_metadata_object_key prefix) document) p

  abbrev pub document_of : Bytes → Bytes → ℤ → RepositoryMetadataDocument
  document_of mode url now = record {
    mode = mode;
    repository_url = url;
    updated_at_unix_seconds = now;
  }

  -- What follows the upload of the archive, and what follows the mirroring.
  abbrev pub describe : Bytes → Bytes → Bytes → Bool → ℤ → Progress → OutcomeOf E
  describe mode url prefix cache now p =
      carry_on (upload_document prefix (o.marshal_indent (document_of mode url now)) p)
        (drop_mirror cache prefix)

  abbrev pub archive : Bytes → Bytes → Bytes → Bool → Progress → OutcomeOf E
  archive mode url prefix cache p =
      let now = o.unix_time p.log in
      let key = build_archive_object_key prefix now in
      carry_on (act (upload_archive (o.directory_name prefix) key) p)
        (describe mode url prefix cache now)

  unfoldable pub sync_repository_snapshot :
      Bytes → Bytes → Bytes → Bool → Bool → Option GitCredential → Progress → OutcomeOf E
  unfolding build_archive_object_key build_repository_metadata_object_key
  sync_repository_snapshot mode url prefix cache lfs credential p =
      carry_on (act (sync_bare_repository url (o.directory_name prefix) credential cache lfs) p)
        (archive mode url prefix cache)

module _ (wide : Bytes → Bytes) (parse : Bytes → Option Url) where
  abbrev pub provider_prefix_or : Bytes → Bytes → Result ParseError PathInfo → Bytes
  provider_prefix_or provider identifier (err e) =
      build_snippet_resource_prefix wide provider identifier
  provider_prefix_or provider identifier (ok info) =
      build_provider_repository_prefix wide provider info

  abbrev pub nested_prefix_or : Bytes → Bytes → Result ParseError PathInfo → Bytes
  nested_prefix_or provider identifier (err e) =
      build_snippet_resource_prefix wide provider identifier
  nested_prefix_or provider identifier (ok info) =
      build_nested_snippet_prefix wide (build_provider_repository_prefix wide provider info)
        identifier

  unfoldable pub resolve_provider_prefix : Bytes → Discovered → Bytes
  unfolding is_blank parse_repository_path build_snippet_resource_prefix
      build_provider_repository_prefix build_nested_snippet_prefix
  resolve_provider_prefix provider d = elim d.kind [
    | kind_gist ↦ build_snippet_resource_prefix wide provider d.identifier
    | kind_snippet ↦
        if is_blank d.parent_url
        then build_snippet_resource_prefix wide provider d.identifier
        else nested_prefix_or provider d.identifier (parse_repository_path wide parse d.parent_url)
    | kind_repository ↦
        provider_prefix_or provider d.identifier (parse_repository_path wide parse d.clone_url)
  ]

-- The fan-out of `forEachParallel`. Items that run at the same time are run whole, one after the other; `in_flight` bounds those that were started when another one failed, or the context ended, and that end as well.
module _ {E A : Type 0} (o : Outside E) (each : A → Progress → OutcomeOf E) where
  abbrev pub one_by_one : List A → Progress → OutcomeOf E
  one_by_one [] p = (p, none)
  one_by_one (item ∷ items) p = elim (o.ctx_err p.log) [
    | some e ↦ (p, some e)
    | none ↦ carry_on o (each item p) (one_by_one items)
  ]

  -- The items that were already started; their errors come too late.
  abbrev pub drain : ℕ → List A → Progress → Progress
  drain zero items p = p
  drain (suc n) [] p = p
  drain (suc n) (item ∷ items) p = drain n items (each item p).0

  abbrev pub drain_after : ℕ → List A → E → Progress → OutcomeOf E
  drain_after concurrency items e p = (drain (min (o.in_flight p.log) concurrency) items p, some e)

  abbrev pub after_one : ℕ → List A → (Progress → OutcomeOf E) → OutcomeOf E → OutcomeOf E
  after_one concurrency items next (p, none) = next p
  after_one concurrency items next (p, some e) = drain_after concurrency items e p

  abbrev pub at_once : ℕ → List A → Progress → OutcomeOf E
  at_once concurrency [] p = (p, o.ctx_err p.log)
  at_once concurrency (item ∷ items) p = elim (o.ctx_err p.log) [
    | some e ↦ drain_after concurrency (item ∷ items) e p
    | none ↦ after_one concurrency items (at_once concurrency items) (each item p)
  ]

  unfoldable pub for_each_parallel : ℕ → List A → Progress → OutcomeOf E
  for_each_parallel concurrency items p =
      if leb concurrency 1 || leb (length items) 1
      then one_by_one items p
      else at_once concurrency items p
