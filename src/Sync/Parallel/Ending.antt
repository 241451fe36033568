-- ===== src/Sync/Parallel/Ending.antt =====
-- internal/backup/sync.go: without a cancellation `forEachParallel` comes to its end, in every order of steps.
use git_backup.Base.{
  Bool-cases, List, Option-cases, [], ap, arith, false, inl, inr, length, ltb, ltb→lt, none, refl,
  suc, zero, ℕ, ◌*◌, ◌+◌, ◌<◌, ◌∷◌, ◌≡◌, ◌≤◌, ◌⊎◌, Bool, Option, append-nil, some, sym, true, ◌++◌,
  ◌==◌, ◌∙◌, ◌≢◌,
}
use git_backup.Sync.Parallel.{
  Phase, Pool, Step, acquire, at_head, cancel, finish_item, head_cancelled, head_done, head_failed,
  head_next, join_all, release, returned, select_cancelled, selecting, spawn, spawning, waiting,
  Steps, fail_with, keep_error, start, stay, then,
}
use git_backup.Sync.Parallel.Counting.{
  IsTight, about_to_start, Steps-IsCounted, start-IsCounted, IsTight-of_live,
}

-- How much of a round is left.
abbrev pub left_of : Phase → ℕ
left_of at_head = 4
left_of selecting = 3
left_of spawning = 2
left_of waiting = 1
left_of returned = 0

Phase-cases :
    (p : Phase)
    → (p ≡ at_head) ⊎ ((p ≡ selecting) ⊎ ((p ≡ spawning) ⊎ ((p ≡ waiting) ⊎ (p ≡ returned))))
Phase-cases at_head = inl refl
Phase-cases selecting = inr (inl refl)
Phase-cases spawning = inr (inr (inl refl))
Phase-cases waiting = inr (inr (inr (inl refl)))
Phase-cases returned = inr (inr (inr (inr refl)))

number-cases : (n : ℕ) → (n ≡ 0) ⊎ ((m : ℕ) × (n ≡ suc m))
number-cases zero = inl refl
number-cases (suc n) = inr (n, refl)

-- The loop has taken an item that it has not started yet.
abbrev needs_item : Phase → Bool
needs_item selecting = true
needs_item spawning = true
needs_item _ = false

-- The loop is over.
abbrev is_over : Phase → Bool
is_over waiting = true
is_over returned = true
is_over _ = false

module _ {E : Type 0} where
  kept_error : (o : Option E) (e : E) → keep_error o e ≢ none
  kept_error none e h = cc
  kept_error (some f) e h = cc

  no_error_before : (o r : Option E) → fail_with o r ≡ none → o ≡ none
  no_error_before none r h = refl
  no_error_before (some f) none h = h
  no_error_before (some f) (some e) h = h

module _ {A E : Type 0} where
  abbrev pub work_left : Pool A E → ℕ
  work_left s = 5 * length s.pending + left_of s.phase + 2 * s.running + s.releasing

module _ {A E : Type 0} (concurrency : ℕ) (ctx_err : E) where
  Step-work_left :
      {s t : Pool A E}
      → Step concurrency ctx_err s t
      → s.cancelled ≡ false
      → t.cancelled ≡ false
      → work_left t < work_left s
  Step-work_left cancel h k = absurd (cc)
  Step-work_left (head_done a e) h k = ground arith
  Step-work_left (head_cancelled a e c) h k = absurd (cc)
  Step-work_left (head_failed f a e c i) h k = ground arith
  Step-work_left (head_next a e c i) h k = ground arith
  Step-work_left (acquire a c) h k = ground arith
  Step-work_left (select_cancelled a c) h k = absurd (cc)
  Step-work_left (spawn {s = s} x xs a e) h k = ground (arith, ap length e)
  Step-work_left (finish_item m r e) h k = ground arith
  Step-work_left (release m n e f) h k = ground arith
  Step-work_left (join_all a e f) h k = ground arith

  -- A step that the pool can take without a cancellation.
  abbrev pub CanStep : Pool A E → Type 0
  CanStep s = (t : Pool A E) × Step concurrency ctx_err s t × (t.cancelled ≡ false)

  List-cases : (xs : List A) → (xs ≡ []) ⊎ ((x : A) × (ys : List A) × (xs ≡ x ∷ ys))
  List-cases [] = inl refl
  List-cases (x ∷ xs) = inr (x, xs, refl)

  -- A goroutine that is still there can go on.
  goroutine-CanStep :
      (s : Pool A E) → IsTight s → s.cancelled ≡ false → 1 ≤ s.running + s.releasing → CanStep s
  goroutine-CanStep s tight live some_left = elim (number-cases s.running) [
    | inr (m, e) ↦ (_, finish_item m none e, live)
    | inl none_run ↦ elim (number-cases s.releasing) [
      | inl none_wait ↦ absurd (omega (arith, none_run, none_wait, some_left))
      | inr (m, e) ↦ elim (number-cases s.slots) [
        | inl no_token ↦ absurd (omega (arith, tight, no_token, e))
        | inr (k, f) ↦ (_, release m k e f, live)
      ]
    ]
  ]

  head-CanStep : (s : Pool A E) → s.phase ≡ at_head → s.cancelled ≡ false → CanStep s
  head-CanStep s at live = elim (List-cases s.pending) [
    | inl done ↦ (_, head_done at done, live)
    | inr (x, xs, more) ↦ elim (Option-cases s.first_err) [
      | inl fine ↦ (_, head_next at (λ e. cc) live fine, live)
      | inr (e, wrong) ↦ (_, head_failed e at (λ e. cc) live wrong, live)
    ]
  ]

  select-CanStep :
      (s : Pool A E)
      → 1 ≤ concurrency
      → s.phase ≡ selecting
      → IsTight s
      → s.cancelled ≡ false
      → CanStep s
  select-CanStep s positive at tight live = elim (Bool-cases (ltb s.slots concurrency)) [
    | inl free ↦ (_, acquire at (ltb→lt s.slots concurrency free), live)
    | inr full ↦
        let enough : concurrency ≤ s.slots = ground arith in
        goroutine-CanStep s tight live (ground (arith, ap about_to_start at))
  ]

  abbrev IsPlaced : Pool A E → Type 0
  IsPlaced s =
      (needs_item s.phase ≡ true → s.pending ≢ [])
      × (is_over s.phase ≡ true → s.first_err ≡ none → s.pending ≡ [])

  Step-IsPlaced : {s t : Pool A E} → Step concurrency ctx_err s t → IsPlaced s → IsPlaced t
  Step-IsPlaced cancel p = p
  Step-IsPlaced (head_done a e) p = (λ h. absurd (cc), λ h g. e)
  Step-IsPlaced (head_cancelled {s = s} a e c) p =
      (λ h. absurd (cc), λ h g. absurd (kept_error s.first_err ctx_err g))
  Step-IsPlaced (head_failed f a e c i) p = (λ h. absurd (cc), λ h g. absurd (cc))
  Step-IsPlaced (head_next a e c i) p = (λ h. e, λ h g. absurd (cc))
  Step-IsPlaced (acquire a c) p = (λ h. p.0 (ap needs_item a), λ h g. absurd (cc))
  Step-IsPlaced (select_cancelled a c) p = (λ h. p.0 (ap needs_item a), λ h g. absurd (cc))
  Step-IsPlaced (spawn x xs a e) p = (λ h. absurd (cc), λ h g. absurd (cc))
  Step-IsPlaced (finish_item {s = s} m r e) p =
      (p.0, λ h g. p.1 h (no_error_before s.first_err r g))
  Step-IsPlaced (release m n e f) p = p
  Step-IsPlaced (join_all a e f) p = (λ h. absurd (cc), λ h g. p.1 (ap is_over a) g)

  Steps-IsPlaced : {s t : Pool A E} → Steps concurrency ctx_err s t → IsPlaced s → IsPlaced t
  Steps-IsPlaced stay p = p
  Steps-IsPlaced (then step steps) p = Steps-IsPlaced steps (Step-IsPlaced step p)

  spawn-CanStep : (s : Pool A E) → s.phase ≡ spawning → IsPlaced s → s.cancelled ≡ false → CanStep s
  spawn-CanStep s at placed live = elim (List-cases s.pending) [
    | inl nothing_left ↦ absurd (placed.0 (ap needs_item at) nothing_left)
    | inr (x, xs, e) ↦ (_, spawn x xs at e, live)
  ]

  wait-CanStep : (s : Pool A E) → s.phase ≡ waiting → IsTight s → s.cancelled ≡ false → CanStep s
  wait-CanStep s at tight live = elim (Bool-cases (s.running + s.releasing == 0)) [
    | inl all ↦ (_, join_all at (ground arith) (ground arith), live)
    | inr some_left ↦ goroutine-CanStep s tight live (ground arith)
  ]

  any-CanStep :
      (s : Pool A E)
      → 1 ≤ concurrency
      → IsTight s
      → IsPlaced s
      → s.cancelled ≡ false
      → (s.phase ≡ returned) ⊎ CanStep s
  any-CanStep s positive tight placed live = elim (Phase-cases s.phase) [
    | inl at ↦ inr (head-CanStep s at live)
    | inr (inl at) ↦ inr (select-CanStep s positive at tight live)
    | inr (inr (inl at)) ↦ inr (spawn-CanStep s at placed live)
    | inr (inr (inr (inl at))) ↦ inr (wait-CanStep s at tight live)
    | inr (inr (inr (inr at))) ↦ inl at
  ]

  -- With at least one slot and as long as nothing is cancelled, each step lowers a measure, and there is a step until the call returns; where it returns with no error, each item has been started.
  pub Steps-end :
      (items : List A) {s : Pool A E}
      → 1 ≤ concurrency
      → Steps concurrency ctx_err (start items) s
      → s.cancelled ≡ false
      → ((t : Pool A E)
          → Step concurrency ctx_err s t
          → t.cancelled ≡ false
          → work_left t < work_left s)
        × ((s.phase ≡ returned) ⊎ CanStep s)
        × (s.phase ≡ returned → s.first_err ≡ none → s.started ≡ items)
  Steps-end items {s} positive steps live =
      let (same, bounded, either) =
        Steps-IsCounted concurrency ctx_err steps (start-IsCounted concurrency ctx_err items) in
      let tight = IsTight-of_live concurrency ctx_err s either live in
      let placed = Steps-IsPlaced steps (λ h. absurd (cc), λ h g. absurd (cc)) in
      (
        λ t step still. Step-work_left step live still,
        any-CanStep s positive tight placed live,
        λ at fine.
            sym (append-nil s.started)
            ∙ ap (λ r. s.started ++ r) (sym (placed.1 (ap is_over at) fine))
            ∙ same,
      )
