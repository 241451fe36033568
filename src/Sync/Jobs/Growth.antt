-- ===== src/Sync/Jobs/Growth.antt =====
-- internal/backup/sync.go: during a pass the log and the set of expected mirrors only grow.
use git_backup.Base.{
  Bytes, Bool, Bool-cases, List, Option, Option-cases, [], ap, append-nil, append_assoc, arith,
  contains, false, inl, inr, leb, length, min, none, refl, some, suc, sym, text_eq_refl, true, zero,
  ℕ, ◌++◌, ◌||◌, ◌∙◌, ◌∷◌, ◌≡◌,
}
use git_backup.Base.Int.{ℤ}
use git_backup.Base.Result.{Result, err, ok}
use git_backup.Paths.Archive.{build_archive_object_key}
use git_backup.Paths.Keys.{build_repository_metadata_object_key}
use git_backup.Sync.Plan.{GitCredential}
use git_backup.Sync.Run.{
  Action, OutcomeOf, Outside, Progress, act, after_one, at_once, carry_on, delete_mirror, drain,
  drop_mirror, expect, for_each_parallel, one_by_one, sync_repository_snapshot, upload_document,
  upload_text, ActionLog, archive, describe, document_of, sync_bare_repository, upload_archive,
}

-- Later in the pass.
pub record Grows (p q : Progress) : Type 0 where
  pub more : ActionLog
  pub logged : p.log ++ more ≡ q.log
  pub keeps : (name : Bytes) → contains name p.expected ≡ true → contains name q.expected ≡ true

pub Grows-refl : (p : Progress) → Grows p p
Grows-refl p = record { more = []; logged = append-nil p.log; keeps = λ name h. h }

pub Grows-trans : {p q r : Progress} → Grows p q → Grows q r → Grows p r
Grows-trans {p} f g = record {
  more = f.more ++ g.more;
  logged = sym (append_assoc p.log f.more g.more) ∙ ap (λ l. l ++ g.more) f.logged ∙ g.logged;
  keeps = λ name h. g.keeps name (f.keeps name h);
}

module _ {E : Type 0} (o : Outside E) where
  pub act-Grows : (action : Action) (p : Progress) → Grows p (act o action p).0
  act-Grows action p = record { more = action ∷ []; logged = refl; keeps = λ name h. h }

  pub expect-Grows : (prefix : Bytes) (p : Progress) → Grows p (expect o prefix p)
  expect-Grows prefix p = record {
    more = [];
    logged = append-nil p.log;
    keeps = λ name h. ground (arith, h);
  }

  -- The prefix that was announced last is expected.
  pub expect_lem :
      (prefix : Bytes) (p : Progress)
      → contains (o.directory_name prefix) (expect o prefix p).expected ≡ true
  expect_lem prefix p = rw (text_eq_refl (o.directory_name prefix)) refl

  pub carry_on-Grows :
      (p : Progress) (r : OutcomeOf E) (next : Progress → OutcomeOf E)
      → Grows p r.0
      → ((q : Progress) → Grows q (next q).0)
      → Grows p (carry_on o r next).0
  carry_on-Grows p (q, none) next g h = Grows-trans g (h q)
  carry_on-Grows p (q, some e) next g h = g

  drop_mirror-Grows :
      (cache : Bool) (prefix : Bytes) (p : Progress) → Grows p (drop_mirror o cache prefix p).0
  drop_mirror-Grows true prefix p = Grows-refl p
  drop_mirror-Grows false prefix p = record {
    more = delete_mirror (o.directory_name prefix) ∷ [];
    logged = refl;
    keeps = λ name h. h;
  }

  upload_document-Grows :
      (prefix : Bytes) (r : Result E Bytes) (p : Progress)
      → Grows p (upload_document o prefix r p).0
  upload_document-Grows prefix (err e) p = Grows-refl p
  upload_document-Grows prefix (ok document) p =
      act-Grows (upload_text (build_repository_metadata_object_key prefix) document) p

  describe-Grows :
      (mode url prefix : Bytes) (cache : Bool) (now : ℤ) (p : Progress)
      → Grows p (describe o mode url prefix cache now p).0
  describe-Grows mode url prefix cache now p =
      let document = o.marshal_indent (document_of o mode url now) in
      carry_on-Grows p (upload_document o prefix document p) (drop_mirror o cache prefix)
        (upload_document-Grows prefix document p) (drop_mirror-Grows cache prefix)

  archive-Grows :
      (mode url prefix : Bytes) (cache : Bool) (p : Progress)
      → Grows p (archive o mode url prefix cache p).0
  archive-Grows mode url prefix cache p =
      let now = o.unix_time p.log in
      let action = upload_archive (o.directory_name prefix) (build_archive_object_key prefix now) in
      carry_on-Grows p (act o action p) (describe o mode url prefix cache now) (act-Grows action p)
        (describe-Grows mode url prefix cache now)

  pub snapshot-Grows :
      (mode url prefix : Bytes) (cache lfs : Bool) (credential : Option GitCredential)
      (p : Progress)
      → Grows p (sync_repository_snapshot o mode url prefix cache lfs credential p).0
  unfolding sync_repository_snapshot
  snapshot-Grows mode url prefix cache lfs credential p =
      let action = sync_bare_repository url (o.directory_name prefix) credential cache lfs in
      carry_on-Grows p (act o action p) (archive o mode url prefix cache) (act-Grows action p)
        (archive-Grows mode url prefix cache)

  -- The archive comes behind the request to Git.
  pub snapshot-act :
      (mode url prefix : Bytes) (cache lfs : Bool) (credential : Option GitCredential)
      (p : Progress)
      → Grows
          (act o (sync_bare_repository url (o.directory_name prefix) credential cache lfs) p).0
          (sync_repository_snapshot o mode url prefix cache lfs credential p).0
  unfolding sync_repository_snapshot
  snapshot-act mode url prefix cache lfs credential p =
      let r = act o (sync_bare_repository url (o.directory_name prefix) credential cache lfs) p in
      carry_on-Grows r.0 r (archive o mode url prefix cache) (Grows-refl r.0)
        (archive-Grows mode url prefix cache)

-- A fan-out whose items only grow the pass.
module _ {E A : Type 0} (o : Outside E) (each : A → Progress → OutcomeOf E)
    (grows : (item : A) (p : Progress) → Grows p (each item p).0) where
  pub one_by_one-Grows : (items : List A) (p : Progress) → Grows p (one_by_one o each items p).0
  one_by_one-Grows [] p = Grows-refl p
  one_by_one-Grows (item ∷ items) p = elim (Option-cases (o.ctx_err p.log)) [
    | inr (e, ended) ↦ rw (one_by_one, ended) (Grows-refl p)
    | inl live ↦
        rw (one_by_one, live)
          (carry_on-Grows o p (each item p) (one_by_one o each items) (grows item p)
            (one_by_one-Grows items))
  ]

  drain-Grows : (n : ℕ) (items : List A) (p : Progress) → Grows p (drain o each n items p)
  drain-Grows zero items p = Grows-refl p
  drain-Grows (suc n) [] p = Grows-refl p
  drain-Grows (suc n) (item ∷ items) p =
      Grows-trans (grows item p) (drain-Grows n items (each item p).0)

  after_one-Grows :
      (concurrency : ℕ) (items : List A) (next : Progress → OutcomeOf E)
      → ((q : Progress) → Grows q (next q).0)
      → (p : Progress) (r : OutcomeOf E) → Grows p r.0
      → Grows p (after_one o each concurrency items next r).0
  after_one-Grows concurrency items next h p (q, none) g = Grows-trans g (h q)
  after_one-Grows concurrency items next h p (q, some e) g =
      Grows-trans g (drain-Grows (min (o.in_flight q.log) concurrency) items q)

  pub at_once-Grows :
      (concurrency : ℕ) (items : List A) (p : Progress)
      → Grows p (at_once o each concurrency items p).0
  at_once-Grows concurrency [] p = Grows-refl p
  at_once-Grows concurrency (item ∷ items) p = elim (Option-cases (o.ctx_err p.log)) [
    | inr (e, ended) ↦
        rw (at_once, ended) (drain-Grows (min (o.in_flight p.log) concurrency) (item ∷ items) p)
    | inl live ↦
        rw (at_once, live)
          (after_one-Grows concurrency items (at_once o each concurrency items)
            (at_once-Grows concurrency items) p (each item p) (grows item p))
  ]

  pub for_each_parallel-Grows :
      (concurrency : ℕ) (items : List A) (p : Progress)
      → Grows p (for_each_parallel o each concurrency items p).0
  unfolding for_each_parallel
  for_each_parallel-Grows concurrency items p =
      elim (Bool-cases (leb concurrency 1 || leb (length items) 1)) [
        | inl one ↦ rw one (one_by_one-Grows items p)
        | inr more ↦ rw more (at_once-Grows concurrency items p)
      ]
