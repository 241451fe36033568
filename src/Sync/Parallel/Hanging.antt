-- ===== src/Sync/Parallel/Hanging.antt =====
-- internal/backup/sync.go: a cancellation that arrives in the select of `forEachParallel` starts a goroutine with no token, whose receive then blocks.
use git_backup.Base.{List, [], arith, none, refl, some, true, ℕ, ◌∷◌, ◌≡◌, ◌≢◌, ◌≤◌}
use git_backup.Sync.Parallel.{
  Pool, Steps, at_head, cancel, finish_item, head_cancelled, head_done, head_next, returned,
  select_cancelled, spawn, start, stay, then, waiting,
}
use git_backup.Sync.Parallel.Counting.{IsOver, Step-IsOver}

module _ {A E : Type 0} (concurrency : ℕ) (ctx_err : E) where
  pub IsOver-never_returns :
      {s t : Pool A E} → Steps concurrency ctx_err s t → IsOver s → t.phase ≢ returned
  IsOver-never_returns stay (n, c, p, q) = q
  IsOver-never_returns (then step steps) o =
      IsOver-never_returns steps (Step-IsOver concurrency ctx_err step o)

  abbrev blocked : A → List A → Pool A E
  blocked item items = record {
    phase = waiting;
    pending = items;
    started = item ∷ [];
    slots = 0;
    running = 0;
    releasing = 1;
    first_err = some ctx_err;
    cancelled = true;
  }

  abbrev spawned : A → List A → Pool A E
  spawned item items = record {
    phase = at_head;
    pending = items;
    started = item ∷ [];
    slots = 0;
    running = 1;
    releasing = 0;
    first_err = some ctx_err;
    cancelled = true;
  }

  finishes :
      (item : A) (items : List A)
      → Steps concurrency ctx_err (spawned item items) (blocked item items)
  finishes item [] = then (head_done refl refl) (then (finish_item 0 none refl) stay)
  finishes item (next ∷ items) =
      then (head_cancelled refl (cc) refl) (then (finish_item 0 none refl) stay)

  -- With more than one slot and more than one item, for which the call starts goroutines, it reaches from its start a state in which no item runs any more, and from which no steps let it return.
  pub cancellation_hangs :
      (item other : A) (items : List A)
      → 2 ≤ concurrency
      → (s : Pool A E) × Steps concurrency ctx_err (start (item ∷ other ∷ items)) s
        × (s.running ≡ 0)
        × ((t : Pool A E) → Steps concurrency ctx_err s t → t.phase ≢ returned)
  cancellation_hangs item other items several = (
    blocked item (other ∷ items),
    then (head_next refl (cc) refl refl) (
        then cancel (
          then (select_cancelled refl refl)
            (then (spawn item (other ∷ items) refl refl) (finishes item (other ∷ items))))),
    refl,
    λ t steps. IsOver-never_returns steps (omega arith, refl, cc, cc),
  )
