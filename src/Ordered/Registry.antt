-- ===== src/Ordered/Registry.antt =====
-- The view registry of orderedStore (ordered.go): acquireView, readyView, evictRepairableFatal and Close. The
-- calls that wait may change the registry, as the other goroutines do meanwhile; views are handles `H`.
pub mod Ready
use natsstore.Base.{
  ℕ, zero, suc, ◌+◌, Bool, true, false, not, Option, none, some, List, [], ◌∷◌, ◌++◌, if◌then◌else◌,
}
use natsstore.Base.Bytes.{Bytes, bytes_Eq}
use natsstore.Base.Dict.{Dict, find, put, remove}
use natsstore.Base.Outcome.{
  Result, ok, err, then_try, Op, pure, fail, lift, with_outcome, ◌>>=◌, ◌>>◌,
}
use natsstore.Ordered.Errors.{context_done, OrderedError, store_closed, is_stream_config}
use natsstore.Ordered.Libraries.{Storage}
use natsstore.Ordered.Codec.{ordered_stream_name, ordered_subject_filter}
use natsstore.Ordered.View.{View}
use natsstore.Ordered.View.Barrier.{Moment, wait_barrier}
use natsstore.Ordered.Store.{OrderedStreamSpec, NoValue}

-- The part of orderedStore behind its mutex that the queries share; `tip_reads` is the counter of stats.
pub record Registry (W H : Type 0) : Type 0 where
  pub closed : Bool
  pub views : Dict Bytes H
  pub tip_reads : ℕ
  pub world : W

-- A view as its store sees it: `view_of` reads it, and `moments` is what a query meets while it waits for the
-- view's barrier, with the error that its context has before the wait and the one that ends it.
pub record ViewCalls (W H : Type 0) : Type 0 where
  pub start : Bytes → OrderedStreamSpec → W → H × W
  pub same : H → H → Bool
  pub stream_of : H → Bytes
  pub view_of : H → W → View
  pub stream_tip : Bytes → Op (Registry W H) OrderedError ℕ
  pub ended : W → Option ℕ
  pub moments : H → W → List Moment × W
  pub at_last : W → ℕ
  pub await_done : H → Op (Registry W H) OrderedError NoValue
  pub cancel : H → W → W
  pub stop : H → Op (Registry W H) OrderedError NoValue

pub data Retired : Type 0 where
  not_retired retired superseded : Retired

unfoldable pub ordered_namespace_spec : Storage → Bytes → Result OrderedError OrderedStreamSpec
ordered_namespace_spec storage ns = then_try (ordered_stream_name storage ns) λ stream.
    then_try (ordered_subject_filter storage ns)
      λ filter. ok (record { stream = stream; subject_filter = filter })

module _ (storage : Storage) {W H : Type 0} (calls : ViewCalls W H) where
  abbrev pub start_view : Bytes → OrderedStreamSpec → Op (Registry W H) OrderedError (H × Bool)
  start_view ns spec s =
      let (view, w) = calls.start ns spec s.world in
      (ok (view, true), record s { views = put ns view s.views; world = w })

  -- With whether this call created the view.
  abbrev pub find_or_start : Bytes → OrderedStreamSpec → Op (Registry W H) OrderedError (H × Bool)
  find_or_start ns spec s =
      if s.closed then (err (store_closed ns), s) else elim (find ns s.views) [
        | some view ↦ (ok (view, false), s)
        | none ↦ start_view ns spec s
      ]

  unfoldable pub acquire_view : Bytes → Op (Registry W H) OrderedError (H × Bool)
  unfolding find put
  acquire_view ns = lift (ordered_namespace_spec storage ns) >>= find_or_start ns

  abbrev pub is_current : Bytes → H → Registry W H → Bool
  is_current ns view s = elim (find ns s.views) [ none ↦ false | some v ↦ calls.same v view ]

  abbrev pub drop_view : Bytes → H → Op (Registry W H) OrderedError Retired
  drop_view ns view s =
      if is_current ns view s
      then (ok retired, record s { views = remove ns s.views })
      else (ok superseded, s)

  unfoldable pub evict_repairable_fatal :
      Bytes → H → OrderedError → Op (Registry W H) OrderedError Retired
  unfolding find remove
  evict_repairable_fatal ns view e =
      if not (is_stream_config e)
      then pure not_retired
      else calls.await_done view >> drop_view ns view

  abbrev pub count_tip_read : Op (Registry W H) OrderedError NoValue
  count_tip_read s = (ok tt, record s { tip_reads = s.tip_reads + 1 })

  abbrev pub settle_wait :
      Bytes → H → Result OrderedError NoValue → Op (Registry W H) OrderedError H
  settle_wait ns view (ok _) = pure view
  settle_wait ns view (err e) = evict_repairable_fatal ns view e >> fail e

  -- view.waitBarrier on the view as it is now. A query that would still wait is ended by its context.
  unfoldable pub wait_for : H → ℕ → Op (Registry W H) OrderedError NoValue
  unfolding wait_barrier
  wait_for view tip s =
      let (moments, w) = calls.moments view s.world in
      let waited : Option (Result OrderedError NoValue) =
        wait_barrier tip (calls.ended s.world) (calls.view_of view s.world) moments in
      (
        elim waited [ none ↦ err (context_done (calls.at_last w)) | some r ↦ r ],
        record s { world = w },
      )

  -- The tip is read before the wait.
  unfoldable pub await_tip : Bytes → H → Op (Registry W H) OrderedError H
  unfolding evict_repairable_fatal wait_for
  await_tip ns view =
      count_tip_read
      >> (calls.stream_tip (calls.stream_of view) >>= λ tip.
          with_outcome (wait_for view tip) (settle_wait ns view))

  abbrev pub by_retirement :
      OrderedError → Op (Registry W H) OrderedError H → Retired → Op (Registry W H) OrderedError H
  by_retirement fatal again not_retired = fail fatal
  by_retirement fatal again retired = again
  by_retirement fatal again superseded = again

  -- A view that was found with an error: retired and acquired again while restarts are left.
  abbrev pub replace_view :
      Bytes
      → (Bytes → H × Bool → Op (Registry W H) OrderedError H)
      → H
      → OrderedError
      → Op (Registry W H) OrderedError H
  replace_view ns restart view fatal =
      evict_repairable_fatal ns view fatal >>= by_retirement fatal (acquire_view ns >>= restart ns)

  -- On the restarts left: `maxRetiredViewRestarts` is one.
  unfoldable pub ready_acquired_view : ℕ → Bytes → H × Bool → Op (Registry W H) OrderedError H
  unfolding acquire_view await_tip evict_repairable_fatal
  ready_acquired_view zero ns (view, created) s = elim (calls.view_of view s.world).fatal [
    | some fatal ↦ (err fatal, s)
    | none ↦ await_tip ns view s
  ]
  ready_acquired_view (suc left) ns (view, created) s = elim (calls.view_of view s.world).fatal [
    | some fatal ↦
        if created then (err fatal, s) else replace_view ns (ready_acquired_view left) view fatal s
    | none ↦ await_tip ns view s
  ]

  unfoldable pub ready_view : Bytes → Op (Registry W H) OrderedError H
  unfolding acquire_view ready_acquired_view
  ready_view ns = acquire_view ns >>= ready_acquired_view 1 ns

  abbrev pub cancel_all : List (Bytes × H) → W → W
  cancel_all [] w = w
  cancel_all ((ns, view) ∷ views) w = cancel_all views (calls.cancel view w)

  -- The errors are collected; every view is stopped.
  unfoldable pub stop_all : List (Bytes × H) → Registry W H → List OrderedError × Registry W H
  stop_all [] s = ([], s)
  stop_all ((ns, view) ∷ views) s =
      let (r, s') = calls.stop view s in
      let (errors, s'') = stop_all views s' in (elim r [ ok _ ↦ errors | err e ↦ e ∷ errors ], s'')

  -- No error is an empty list, as errors.Join has it.
  unfoldable pub close : Registry W H → List OrderedError × Registry W H
  unfolding stop_all
  close s =
      if s.closed
      then ([], s)
      else stop_all s.views
          (record s { closed = true; views = []; world = cancel_all s.views s.world })
