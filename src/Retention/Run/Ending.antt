-- ===== src/Retention/Run/Ending.antt =====
-- How a pass ends, by the answers of the object storage.
use mathlib.Core.List.{cons-ne-nil}
use git_backup.Base.{
  Bytes, List, Option, [], none, refl, some, sym, ℕ, ◌∙◌, ◌∷◌, ◌≡◌, ◌≢◌, length, ◌++◌,
}
use git_backup.Base.Result.{Result, err, ok}
use git_backup.Paths.Keys.{repositories_prefix, snippets_prefix}
use git_backup.Retention.Group.{Instant, Snapshot}
use git_backup.Retention.Group.Order.{IsSorting}
use git_backup.Retention.Run.{
  apply, Outcome, Plan, counts, finish, keys_to_delete, listed, plan, submit,
}
use git_backup.Retention.Run.Listed.{WereListed, plan-WereListed}

-- The result by the storage's answer to the deletion.
abbrev pub result_of : {E A : Type 0} → A → Option E → Result E A
result_of n none = ok n
result_of n (some e) = err e

-- The planned pass, or the error of the first listing that fails.
abbrev pub planned :
    {E : Type 0}
    → (List Bytes → List Bytes → Plan)
    → Result E (List Bytes)
    → Result E (List Bytes)
    → Result E Plan
planned make (err e) second = err e
planned make (ok keys) (err e) = err e
planned make (ok keys) (ok more) = ok (make keys more)

-- A pass that could not be planned deletes nothing and returns the error. A planned one deletes its
-- keys in one call, none if it has no keys, and returns the counts or the error of that call.
abbrev pub EndsAs : {E : Type 0} → (List Bytes → Option E) → Outcome E → Result E Plan → Type 0
EndsAs delete o (err e) = (o.deleted ≡ none) × (o.result ≡ err e)
EndsAs delete o (ok p) =
    let counted : ℕ × ℕ × ℕ = (length p.expired, length p.orphans, length p.emptied) in
    (p.expired ++ p.orphans ≡ [] → (o.deleted ≡ none) × (o.result ≡ ok counted))
    × (p.expired ++ p.orphans ≢ []
        → (o.deleted ≡ some (p.expired ++ p.orphans))
          × (o.result ≡ result_of counted (delete (p.expired ++ p.orphans))))

submit-EndsAs :
    {E : Type 0} (delete : List Bytes → Option E) (p : Plan) (keys : List Bytes)
    → keys_to_delete p ≡ keys
    → EndsAs delete (submit delete p keys) (ok p)
submit-EndsAs {E} delete p [] e = (λ h. (refl, refl), λ h. absurd (h e))
submit-EndsAs {E} delete p (key ∷ keys) e =
    (λ h. absurd (cons-ne-nil key keys (sym e ∙ h)), λ h. rw e (called (delete (key ∷ keys))))
  where
    called :
        (o : Option E)
        → ((finish p (key ∷ keys) o).deleted ≡ some (key ∷ keys))
          × ((finish p (key ∷ keys) o).result ≡ result_of (counts p) o)
    called none = (refl, refl)
    called (some x) = (refl, refl)

-- Where a pass has deleted keys, both listings were answered, and each of the keys was in one of them.
abbrev pub DeletesListed :
    {E : Type 0} → Result E (List Bytes) → Result E (List Bytes) → Option (List Bytes) → Type 0
DeletesListed a b none = Unit
DeletesListed a b (some deleted) =
    (keys : List Bytes) × (more : List Bytes) × (a ≡ ok keys)
    × (b ≡ ok more)
    × WereListed keys more deleted

submit-DeletesListed :
    {E : Type 0} (delete : List Bytes → Option E) (p : Plan) (keys more deleted : List Bytes)
    → WereListed keys more deleted
    → DeletesListed {E = E} (ok keys) (ok more) (submit delete p deleted).deleted
submit-DeletesListed delete p keys more [] h = tt
submit-DeletesListed {E} delete p keys more (key ∷ deleted) h = called (delete (key ∷ deleted))
  where
    called :
        (o : Option E)
        → DeletesListed {E = E} (ok keys) (ok more) (finish p (key ∷ deleted) o).deleted
    called none = (keys, more, refl, refl, h)
    called (some e) = (keys, more, refl, refl, h)

-- Whatever the storage answers, a failed listing deletes nothing and returns its error; otherwise one call deletes exactly the expired keys and the orphans, each of which was in one of the two listings, no call is made if there are none, and the counts or the error of the call are returned, if `sort` is a sorting function.
pub apply-EndsAs :
    {E : Type 0} (sort : List Snapshot → List Snapshot) (law : IsSorting sort)
    (list : Bytes → Result E (List Bytes)) (delete : List Bytes → Option E) (cutoff : Instant)
    (minimum : ℕ)
    → EndsAs delete
        (apply sort list delete cutoff minimum)
        (planned (plan sort cutoff minimum) (list repositories_prefix) (list snippets_prefix))
      × DeletesListed
          (list repositories_prefix)
          (list snippets_prefix)
          (apply sort list delete cutoff minimum).deleted
unfolding apply
apply-EndsAs {E} sort law list delete cutoff minimum =
    by_answers (list repositories_prefix) (list snippets_prefix)
  where
    by_answers :
        (a b : Result E (List Bytes))
        → EndsAs delete
            (listed sort list delete cutoff minimum a b)
            (planned (plan sort cutoff minimum) a b)
          × DeletesListed a b (listed sort list delete cutoff minimum a b).deleted
    by_answers (err e) b = ((refl, refl), tt)
    by_answers (ok keys) (err e) = ((refl, refl), tt)
    by_answers (ok keys) (ok more) =
        let p = plan sort cutoff minimum keys more in
        (
          submit-EndsAs delete p (keys_to_delete p) refl,
          submit-DeletesListed delete p keys more (keys_to_delete p)
              (plan-WereListed sort law cutoff minimum keys more),
        )
