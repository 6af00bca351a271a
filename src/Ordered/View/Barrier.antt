-- ===== src/Ordered/View/Barrier.antt =====
-- waitBarrier (ordered.go): a query waits until the view has applied the stream's tip. The query looks at the
-- view, takes its current channel, and sleeps until that channel is closed, the view is done or the context
-- ends. A channel is told by the view's generation, which each broadcast replaces.
pub mod Passes
pub mod Caught
use natsstore.Base.{
  ℕ, ◌==◌, Bool, true, false, Option, none, some, List, [], ◌∷◌, leb, if◌then◌else◌,
}
use natsstore.Base.Outcome.{Result, ok, err}
use natsstore.Ordered.Errors.{OrderedError, context_done, store_closed}
use natsstore.Ordered.Store.{NoValue}
use natsstore.Ordered.View.{View}

-- What a sleeping query may meet, in order: the view as it is at a later moment, the view as it is when its
-- goroutine has ended, the end of the query's context.
pub data Moment : Type 0 where
  shows stopped : View → Moment
  context_ended : ℕ → Moment

-- The checks under the lock: done, or wait on.
abbrev pub barrier_now : ℕ → View → Option (Result OrderedError NoValue)
barrier_now target v = elim v.fatal [
  | some e ↦ some (err e)
  | none ↦ if leb target v.watermark then some (ok tt) else none
]

-- Why the view stopped, or that it was closed.
abbrev pub stop_reason : View → Result OrderedError NoValue
stop_reason v = elim v.fatal [ some e ↦ err e | none ↦ err (store_closed v.namespace) ]

abbrev pub or_else :
    Option (Result OrderedError NoValue)
    → Option (Result OrderedError NoValue)
    → Option (Result OrderedError NoValue)
or_else (some r) rest = some r
or_else none rest = rest

-- The select over the channel of a generation, with the rest of the loop: a view of the same generation has not
-- closed the channel, so the query sleeps on. `none`: it still waits.
unfoldable pub sleep : ℕ → ℕ → List Moment → Option (Result OrderedError NoValue)
sleep target generation [] = none
sleep target generation (shows v ∷ moments) =
    let asleep = sleep target generation moments in
    let woken = sleep target v.generation moments in
    if v.generation == generation then asleep else or_else (barrier_now target v) woken
sleep target generation (stopped v ∷ moments) = some (stop_reason v)
sleep target generation (context_ended c ∷ moments) = some (err (context_done c))

-- `ended`: the error of a context that ended before the call.
unfoldable pub wait_barrier :
    ℕ → Option ℕ → View → List Moment → Option (Result OrderedError NoValue)
unfolding sleep
wait_barrier target (some c) v moments = some (err (context_done c))
wait_barrier target none v moments =
    or_else (barrier_now target v) (sleep target v.generation moments)
