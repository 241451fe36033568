-- ===== src/Sync/Parallel/Counting.antt =====
-- internal/backup/sync.go: how many goroutines `forEachParallel` has at once, and which items they got.
use git_backup.Base.{
  List, arith, refl, suc, true, ℕ, ◌++◌, ◌+◌, ◌≡◌, ◌≢◌, ◌≤◌, ◌⊎◌, [], ap, append_assoc, false, inl,
  inr, sym, ◌∙◌, ◌∷◌,
}
use git_backup.Sync.Parallel.{
  Phase, Pool, Step, cancel, returned, selecting, spawning, acquire, finish_item, head_cancelled,
  head_done, head_failed, head_next, join_all, release, select_cancelled, spawn, Steps, start, stay,
  then,
}

-- Behind the select one goroutine is about to start.
abbrev pub about_to_start : Phase → ℕ
about_to_start spawning = 1
about_to_start _ = 0

module _ {A E : Type 0} where
  abbrev pub in_flight : Pool A E → ℕ
  in_flight s = s.running + s.releasing + about_to_start s.phase

  -- Each goroutine has its token.
  abbrev pub IsTight : Pool A E → Type 0
  IsTight s = in_flight s ≡ s.slots

  -- One goroutine has no token, after a cancellation in the select.
  abbrev pub IsOver : Pool A E → Type 0
  IsOver s =
      (in_flight s ≡ suc s.slots)
      × (s.cancelled ≡ true)
      × (s.phase ≢ selecting)
      × (s.phase ≢ returned)

  abbrev pub IsCounted : ℕ → List A → Pool A E → Type 0
  IsCounted concurrency items s =
      (s.started ++ s.pending ≡ items) × (s.slots ≤ concurrency) × (IsTight s ⊎ IsOver s)

module _ {A E : Type 0} (concurrency : ℕ) (ctx_err : E) where
  pub Step-IsOver : {s t : Pool A E} → Step concurrency ctx_err s t → IsOver s → IsOver t
  Step-IsOver cancel (n, c, p, q) = (n, refl, p, q)
  Step-IsOver (head_done h e) (n, c, p, q) = (ground arith, c, cc, cc)
  Step-IsOver (head_cancelled h e k) (n, c, p, q) = (ground arith, c, cc, cc)
  Step-IsOver (head_failed f h e k i) (n, c, p, q) = (ground arith, c, cc, cc)
  Step-IsOver (head_next h e k i) (n, c, p, q) = absurd (cc)
  Step-IsOver (acquire h k) (n, c, p, q) = absurd (p h)
  Step-IsOver (select_cancelled h k) (n, c, p, q) = absurd (p h)
  Step-IsOver (spawn x xs h e) (n, c, p, q) = (ground arith, c, cc, cc)
  Step-IsOver (finish_item m r e) (n, c, p, q) = (ground arith, c, p, q)
  Step-IsOver (release m k e f) (n, c, p, q) = (ground arith, c, p, q)
  Step-IsOver (join_all h e f) (n, c, p, q) = absurd (ground arith)

  Step-IsTight : {s t : Pool A E} → Step concurrency ctx_err s t → IsTight s → IsTight t ⊎ IsOver t
  Step-IsTight cancel n = inl n
  Step-IsTight (head_done h e) n = inl (ground arith)
  Step-IsTight (head_cancelled h e k) n = inl (ground arith)
  Step-IsTight (head_failed f h e k i) n = inl (ground arith)
  Step-IsTight (head_next h e k i) n = inl (ground arith)
  Step-IsTight (acquire h k) n = inl (ground arith)
  Step-IsTight (select_cancelled h k) n = inr (ground arith, k, cc, cc)
  Step-IsTight (spawn x xs h e) n = inl (ground arith)
  Step-IsTight (finish_item m r e) n = inl (ground arith)
  Step-IsTight (release m k e f) n = inl (ground arith)
  Step-IsTight (join_all h e f) n = inl (ground arith)

  Step-either :
      {s t : Pool A E} → Step concurrency ctx_err s t → IsTight s ⊎ IsOver s → IsTight t ⊎ IsOver t
  Step-either step (inl n) = Step-IsTight step n
  Step-either step (inr o) = inr (Step-IsOver step o)

  Step-slots :
      {s t : Pool A E}
      → Step concurrency ctx_err s t
      → s.slots ≤ concurrency
      → t.slots ≤ concurrency
  Step-slots cancel n = n
  Step-slots (head_done h e) n = n
  Step-slots (head_cancelled h e k) n = n
  Step-slots (head_failed f h e k i) n = n
  Step-slots (head_next h e k i) n = n
  Step-slots (acquire h k) n = k
  Step-slots (select_cancelled h k) n = n
  Step-slots (spawn x xs h e) n = n
  Step-slots (finish_item m r e) n = n
  Step-slots (release m k e f) n = omega (arith, f, n)
  Step-slots (join_all h e f) n = n

  Step-items :
      {s t : Pool A E}
      → Step concurrency ctx_err s t
      → t.started ++ t.pending ≡ s.started ++ s.pending
  Step-items cancel = refl
  Step-items (head_done h e) = refl
  Step-items (head_cancelled h e k) = refl
  Step-items (head_failed f h e k i) = refl
  Step-items (head_next h e k i) = refl
  Step-items (acquire h k) = refl
  Step-items (select_cancelled h k) = refl
  Step-items (spawn {s = s} x xs h e) =
      append_assoc s.started (x ∷ []) xs ∙ ap (λ r. s.started ++ r) (sym e)
  Step-items (finish_item m r e) = refl
  Step-items (release m k e f) = refl
  Step-items (join_all h e f) = refl

  pub Steps-IsCounted :
      {s t : Pool A E} {items : List A}
      → Steps concurrency ctx_err s t
      → IsCounted concurrency items s
      → IsCounted concurrency items t
  Steps-IsCounted stay h = h
  Steps-IsCounted (then step steps) (same, bounded, either) =
      Steps-IsCounted steps
        (Step-items step ∙ same, Step-slots step bounded, Step-either step either)

  pub start-IsCounted : (items : List A) → IsCounted concurrency items (start {E = E} items)
  start-IsCounted items = (refl, omega arith, inl (omega arith))

  pub IsTight-of_live : (s : Pool A E) → IsTight s ⊎ IsOver s → s.cancelled ≡ false → IsTight s
  IsTight-of_live s (inl n) h = n
  IsTight-of_live s (inr (n, c, p, q)) h = absurd (cc)

  -- In every order of steps the started items are the first ones of the list, each once and in their order, and there are never more goroutines than slots, but for one more once the context is cancelled.
  pub Steps-bounded :
      (items : List A) {s : Pool A E}
      → Steps concurrency ctx_err (start items) s
      → (s.started ++ s.pending ≡ items)
        × (s.running + s.releasing ≤ suc concurrency)
        × (s.cancelled ≡ false → s.running + s.releasing ≤ concurrency)
  Steps-bounded items {s} steps =
      let (same, bounded, either) = Steps-IsCounted steps (start-IsCounted items) in
      (same, most either bounded, λ live. least (IsTight-of_live s either live) bounded)
    where
      most :
          IsTight s ⊎ IsOver s → s.slots ≤ concurrency → s.running + s.releasing ≤ suc concurrency
      most (inl n) b = omega (arith, n, b)
      most (inr o) b = omega (arith, o.0, b)

      least : IsTight s → s.slots ≤ concurrency → s.running + s.releasing ≤ concurrency
      least n b = omega (arith, n, b)
