-- ===== src/Sync/Jobs/Visits.antt =====
-- internal/backup/sync.go: a fan-out without an error has met each item.
use git_backup.Base.{
  All, Bool-cases, List, Option-cases, [], inl, inr, leb, length, none, some, ℕ, ◌||◌, ◌∷◌, ◌≡◌,
  refl, subst, sym,
}
use git_backup.Sync.Jobs.Growth.{Grows, at_once-Grows, one_by_one-Grows}
use git_backup.Sync.Run.{
  OutcomeOf, Outside, Progress, after_one, at_once, carry_on, for_each_parallel, one_by_one,
}

-- `Q` holds of an item once it has been met, and stays.
module _ {E A : Type 0} (o : Outside E) (each : A → Progress → OutcomeOf E)
    (grows : (item : A) (p : Progress) → Grows p (each item p).0) (Q : A → Progress → Type 0)
    (met : (item : A) (p : Progress) → Q item (each item p).0)
    (stays : (item : A) (p q : Progress) → Grows p q → Q item p → Q item q) where
  abbrev AllMet : List A → OutcomeOf E → Type 0
  AllMet items r = r.1 ≡ none → All (λ item. Q item r.0) items

  carry_on-AllMet :
      (item : A) (items : List A) (next : Progress → OutcomeOf E)
      → ((q : Progress) → Grows q (next q).0)
      → ((q : Progress) → AllMet items (next q))
      → (r : OutcomeOf E) → Q item r.0
      → AllMet (item ∷ items) (carry_on o r next)
  carry_on-AllMet item items next g h (q, some e) here fine = absurd (cc)
  carry_on-AllMet item items next g h (q, none) here fine =
      (stays item q (next q).0 (g q) here, h q fine)

  one_by_one_live :
      (item : A) (items : List A) (p : Progress)
      → o.ctx_err p.log ≡ none
      → one_by_one o each (item ∷ items) p ≡ carry_on o (each item p) (one_by_one o each items)
  one_by_one_live item items p live = rw (one_by_one, live) refl

  at_once_live :
      (concurrency : ℕ) (item : A) (items : List A) (p : Progress)
      → o.ctx_err p.log ≡ none
      → at_once o each concurrency (item ∷ items) p
        ≡ after_one o each concurrency items (at_once o each concurrency items) (each item p)
  at_once_live concurrency item items p live = rw (at_once, live) refl

  one_by_one-AllMet : (items : List A) (p : Progress) → AllMet items (one_by_one o each items p)
  one_by_one-AllMet [] p = λ fine. tt
  one_by_one-AllMet (item ∷ items) p = elim (Option-cases (o.ctx_err p.log)) [
    | inr (e, ended) ↦ rw (one_by_one, ended) (λ fine. absurd (cc))
    | inl live ↦ subst (AllMet (item ∷ items)) (sym (one_by_one_live item items p live)) (
        carry_on-AllMet item items (one_by_one o each items) (one_by_one-Grows o each grows items)
          (one_by_one-AllMet items) (each item p) (met item p))
  ]

  after_one-AllMet :
      (concurrency : ℕ) (item : A) (items : List A) (next : Progress → OutcomeOf E)
      → ((q : Progress) → Grows q (next q).0)
      → ((q : Progress) → AllMet items (next q))
      → (r : OutcomeOf E) → Q item r.0
      → AllMet (item ∷ items) (after_one o each concurrency items next r)
  after_one-AllMet concurrency item items next g h (q, some e) here fine = absurd (cc)
  after_one-AllMet concurrency item items next g h (q, none) here fine =
      (stays item q (next q).0 (g q) here, h q fine)

  at_once-AllMet :
      (concurrency : ℕ) (items : List A) (p : Progress)
      → AllMet items (at_once o each concurrency items p)
  at_once-AllMet concurrency [] p = λ fine. tt
  at_once-AllMet concurrency (item ∷ items) p = elim (Option-cases (o.ctx_err p.log)) [
    | inr (e, ended) ↦ rw (at_once, ended) (λ fine. absurd (cc))
    | inl live ↦ subst (AllMet (item ∷ items)) (sym (at_once_live concurrency item items p live)) (
        after_one-AllMet concurrency item items (at_once o each concurrency items)
          (at_once-Grows o each grows concurrency items) (at_once-AllMet concurrency items)
          (each item p) (met item p))
  ]

  pub for_each_parallel-AllMet :
      (concurrency : ℕ) (items : List A) (p : Progress)
      → (for_each_parallel o each concurrency items p).1 ≡ none
      → All (λ item. Q item (for_each_parallel o each concurrency items p).0) items
  unfolding for_each_parallel
  for_each_parallel-AllMet concurrency items p =
      elim (Bool-cases (leb concurrency 1 || leb (length items) 1)) [
        | inl one ↦ rw one (one_by_one-AllMet items p)
        | inr more ↦ rw more (at_once-AllMet concurrency items p)
      ]
