-- ===== src/Sync/Parallel.antt =====
-- internal/backup/sync.go: `forEachParallel` with more than one slot, as the steps of its loop and its goroutines in any order.
pub mod Counting
pub mod Hanging
pub mod Ending
use git_backup.Base.{
  Bytes, Bool, List, Option, [], false, none, some, suc, true, ℕ, ◌++◌, ◌<◌, ◌∷◌, ◌≡◌, ◌≢◌,
}

-- Where the loop stands: at its head, in the select, behind it, in `wg.Wait`, or behind that.
pub data Phase : Type 0 where
  at_head : Phase
  selecting : Phase
  spawning : Phase
  waiting : Phase
  returned : Phase

-- `slots` counts the tokens in the channel, `running` the goroutines in `fn`, and `releasing` those at their deferred receive.
pub record Pool (A : Type 0) (E : Type 0) : Type 0 where
  pub phase : Phase
  pub pending : List A
  pub started : List A
  pub slots : ℕ
  pub running : ℕ
  pub releasing : ℕ
  pub first_err : Option E
  pub cancelled : Bool

module _ {E : Type 0} where
  abbrev pub keep_error : Option E → E → Option E
  keep_error none e = some e
  keep_error (some first) e = some first

  -- `fail`, once for each error of `fn`.
  abbrev pub fail_with : Option E → Option E → Option E
  fail_with first none = first
  fail_with first (some e) = keep_error first e

module _ {A E : Type 0} where
  abbrev pub start : List A → Pool A E
  start items = record {
    phase = at_head;
    pending = items;
    started = [];
    slots = 0;
    running = 0;
    releasing = 0;
    first_err = none;
    cancelled = false;
  }

-- The steps; `ctx_err` is the context's error once it is cancelled.
pub data Step {A E : Type 0} (concurrency : ℕ) (ctx_err : E) : Pool A E → Pool A E → Type 0 where
  cancel : {s : Pool A E} → Step concurrency ctx_err s (record s { cancelled = true })
  head_done :
      {s : Pool A E}
      → s.phase ≡ at_head
      → s.pending ≡ []
      → Step concurrency ctx_err s (record s { phase = waiting })
  head_cancelled :
      {s : Pool A E}
      → s.phase ≡ at_head
      → s.pending ≢ []
      → s.cancelled ≡ true
      → Step concurrency ctx_err s
          (record s { phase = waiting; first_err = keep_error s.first_err ctx_err })
  head_failed :
      {s : Pool A E} (e : E)
      → s.phase ≡ at_head
      → s.pending ≢ []
      → s.cancelled ≡ false
      → s.first_err ≡ some e
      → Step concurrency ctx_err s (record s { phase = waiting })
  head_next :
      {s : Pool A E}
      → s.phase ≡ at_head
      → s.pending ≢ []
      → s.cancelled ≡ false
      → s.first_err ≡ none
      → Step concurrency ctx_err s (record s { phase = selecting })
  acquire :
      {s : Pool A E}
      → s.phase ≡ selecting
      → s.slots < concurrency
      → Step concurrency ctx_err s (record s { phase = spawning; slots = suc s.slots })
  select_cancelled :
      {s : Pool A E}
      → s.phase ≡ selecting
      → s.cancelled ≡ true
      → Step concurrency ctx_err s
          (record s { phase = spawning; first_err = keep_error s.first_err ctx_err })
  spawn :
      {s : Pool A E} (item : A) (items : List A)
      → s.phase ≡ spawning
      → s.pending ≡ item ∷ items
      → Step concurrency ctx_err s (record s {
        phase = at_head;
        pending = items;
        started = s.started ++ item ∷ [];
        running = suc s.running;
      })
  finish_item :
      {s : Pool A E} (n : ℕ) (result : Option E)
      → s.running ≡ suc n
      → Step concurrency ctx_err s (record s {
        running = n;
        releasing = suc s.releasing;
        first_err = fail_with s.first_err result;
      })
  release :
      {s : Pool A E} (n m : ℕ)
      → s.releasing ≡ suc n
      → s.slots ≡ suc m
      → Step concurrency ctx_err s (record s { releasing = n; slots = m })
  join_all :
      {s : Pool A E}
      → s.phase ≡ waiting
      → s.running ≡ 0
      → s.releasing ≡ 0
      → Step concurrency ctx_err s (record s { phase = returned })

pub data Steps {A E : Type 0} (concurrency : ℕ) (ctx_err : E) : Pool A E → Pool A E → Type 0 where
  stay : {s : Pool A E} → Steps concurrency ctx_err s s
  then :
      {s t u : Pool A E}
      → Step concurrency ctx_err s t
      → Steps concurrency ctx_err t u
      → Steps concurrency ctx_err s u
