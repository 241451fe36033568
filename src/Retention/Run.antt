-- ===== src/Retention/Run.antt =====
-- `apply` and `Run`: one retention pass. `list` and `delete` are the object storage; `none` of
-- `delete` is success.
pub mod Safety
pub mod Limits
pub mod Listed
pub mod Ending
use git_backup.Base.{
  Bytes, List, Option, [], length, none, select, some, ℕ, ◌++◌, ◌∷◌, Bool, suc, ◌==◌,
}
use git_backup.Base.Int.{pos, pos_part, ℤ}
use git_backup.Base.Result.{Result, err, ok}
use git_backup.Paths.Keys.{repositories_prefix, snippets_prefix}
use git_backup.Retention.Group.{
  Classified, Instant, Snapshot, classify, emptied_repositories, expired_keys,
}
use git_backup.Retention.Orphan.{is_reclaimable_orphan, reclaimable_collection_prefixes}

-- The expired keys, the orphans, and how many repositories are emptied.
pub record Plan : Type 0 where
  pub expired : List Bytes
  pub orphans : List Bytes
  pub emptied : List Bytes

-- `keysToDelete`
abbrev pub keys_to_delete : Plan → List Bytes
keys_to_delete p = p.expired ++ p.orphans

abbrev pub no_groups : Classified
no_groups = record { groups = []; non_archive = [] }

-- What a pass did: the one call of `DeleteObjects`, if it was made, and what it returned.
pub record Outcome (E : Type 0) : Type 0 where
  pub deleted : Option (List Bytes)
  pub result : Result E (ℕ × ℕ × ℕ)

abbrev pub counts : Plan → ℕ × ℕ × ℕ
counts p = (length p.expired, length p.orphans, length p.emptied)

abbrev pub finish : {E : Type 0} → Plan → List Bytes → Option E → Outcome E
finish p keys none = record { deleted = some keys; result = ok (counts p) }
finish p keys (some e) = record { deleted = some keys; result = err e }

abbrev pub submit : {E : Type 0} → (List Bytes → Option E) → Plan → List Bytes → Outcome E
submit delete p [] = record { deleted = none; result = ok (counts p) }
submit delete p (key ∷ keys) = finish p (key ∷ keys) (delete (key ∷ keys))

module _ (sort : List Snapshot → List Snapshot) where
  unfoldable pub plan : Instant → ℕ → List Bytes → List Bytes → Plan
  plan cutoff minimum repository_keys snippet_keys =
      let c = classify snippet_keys (classify repository_keys no_groups) in
      let emptied = emptied_repositories sort cutoff minimum c.groups in
      record {
        expired = expired_keys sort cutoff minimum c.groups;
        orphans =
            select
              (λ key. is_reclaimable_orphan key emptied (reclaimable_collection_prefixes emptied))
              c.non_archive;
        emptied = emptied;
      }

  module _ {E : Type 0} (list : Bytes → Result E (List Bytes))
      (delete : List Bytes → Option E) where
    abbrev pub listed : Instant → ℕ → Result E (List Bytes) → Result E (List Bytes) → Outcome E
    listed cutoff minimum (err e) second = record { deleted = none; result = err e }
    listed cutoff minimum (ok keys) (err e) = record { deleted = none; result = err e }
    listed cutoff minimum (ok keys) (ok more) =
        let p = plan cutoff minimum keys more in submit delete p (keys_to_delete p)

    unfoldable pub apply : Instant → ℕ → Outcome E
    apply cutoff minimum = listed cutoff minimum (list repositories_prefix) (list snippets_prefix)

-- The object storage of one run.
pub record Storage (E : Type 0) : Type 0 where
  pub list_object_keys : Bytes → Result E (List Bytes)
  pub delete_objects : List Bytes → Option E

pub record RetentionService : Type 0 where
  pub retention_minimum_zero_warning_shown : Bool

pub data RunResult (E : Type 0) : Type 0 where
  disabled : RunResult E
  no_storage : E → RunResult E
  applied : Outcome E → RunResult E

-- `cutoff_of days` is the instant that many days before now.
module _ {E : Type 0} (sort : List Snapshot → List Snapshot) (cutoff_of : ℕ → Instant) where
  abbrev with_storage : ℕ → ℕ → Result E (Storage E) → RunResult E
  with_storage days minimum (err e) = no_storage e
  with_storage days minimum (ok s) =
      applied (apply sort s.list_object_keys s.delete_objects (cutoff_of days) minimum)

  unfoldable pub run :
      RetentionService → ℤ → ℤ → Result E (Storage E) → RetentionService × RunResult E
  run s (pos (suc days)) retention_minimum storage =
      let minimum = pos_part retention_minimum in
      (
        record s { retention_minimum_zero_warning_shown = minimum == 0 },
        with_storage (suc days) minimum storage,
      )
  run s retention_days retention_minimum storage = (s, disabled)
