-- ===== src/Ordered/Registry/Ready.antt =====
-- A query reads a view only behind the barrier of its own call.
use natsstore.Base.{
  some, ap, ◌∙◌, ℕ, zero, suc, ◌+◌, ◌≡◌, refl, Bool, Bool-cases, Option-cases, inl, inr,
}
use natsstore.Base.Bytes.{Bytes}
use natsstore.Base.Outcome.{Result, ok, err, Op, ◌>>=◌, Result-cases}
use natsstore.Base.Runs.{YieldsIn, bind-YieldsIn, fail-YieldsIn}
use natsstore.Ordered.Errors.{OrderedError}
use natsstore.Ordered.Libraries.{Storage}
use natsstore.Ordered.Registry.{
  Registry, ViewCalls, Retired, not_retired, retired, superseded, acquire_view,
  evict_repairable_fatal, settle_wait, wait_for, await_tip, by_retirement, ready_acquired_view,
  ready_view,
}
use natsstore.Ordered.View.{View}
use natsstore.Ordered.View.Barrier.{wait_barrier}
use natsstore.Ordered.View.Barrier.Caught.{SomeCaught, views_of, wait_barrier-SomeCaught}

module _ (storage : Storage) {W H : Type 0} (calls : ViewCalls W H) where
  -- The tip of the view's stream was read, and behind that the query looked at the view and found it live and
  -- caught up with the tip. The call ended with the state behind the wait.
  pub record Ready (view : H) (after : Registry W H) : Type 0 where
    pub asked_in : Registry W H
    pub tip : ℕ
    pub behind : Registry W H
    pub asked : calls.stream_tip (calls.stream_of view) asked_in ≡ (ok tip, behind)
    pub caught :
        SomeCaught tip
          (views_of (calls.view_of view behind.world) (calls.moments view behind.world).0)
    pub last : after ≡ record behind { world = (calls.moments view behind.world).1 }

  wait_for-SomeCaught :
      (view : H) (tip : ℕ) (s : Registry W H)
      → (wait_for storage calls view tip s).0 ≡ ok tt
      → SomeCaught tip (views_of (calls.view_of view s.world) (calls.moments view s.world).0)
  unfolding wait_for
  wait_for-SomeCaught view tip s h =
      let v : View = calls.view_of view s.world in
      let moments = (calls.moments view s.world).0 in
      elim (Option-cases (wait_barrier tip (calls.ended s.world) v moments)) [
        | inl e ↦ cc (rw (wait_for, e) at h)
        | inr (r, e) ↦
            let passed : r ≡ ok tt = rw (wait_for, e) at h in
            wait_barrier-SomeCaught tip (calls.ended s.world) v moments (e ∙ ap some passed)
      ]

  wait_for-after :
      (view : H) (tip : ℕ) (s : Registry W H)
      → (wait_for storage calls view tip s).1 ≡ record s { world = (calls.moments view s.world).1 }
  unfolding wait_for
  wait_for-after view tip s = refl

  settle_wait-ok :
      (ns : Bytes) (view got : H) (outcome : Result OrderedError Unit) (s : Registry W H)
      → (settle_wait storage calls ns view outcome s).0 ≡ ok got
      → (outcome ≡ ok tt) × (view ≡ got) × ((settle_wait storage calls ns view outcome s).1 ≡ s)
  unfolding evict_repairable_fatal
  settle_wait-ok ns view got (ok tt) s h = (refl, cc h, refl)
  settle_wait-ok ns view got (err e) s h =
      elim (Result-cases (evict_repairable_fatal storage calls ns view e s).0) [
        | inl (r, f) ↦ cc (rw (settle_wait, f) at h)
        | inr (x, f) ↦ cc (rw (settle_wait, f) at h)
      ]

  await_tip-YieldsIn : (ns : Bytes) (view : H) → YieldsIn Ready (await_tip storage calls ns view)
  unfolding await_tip
  await_tip-YieldsIn ns view s got h =
      let counted : Registry W H = record s { tip_reads = s.tip_reads + 1 } in
      let tip_of = calls.stream_tip (calls.stream_of view) counted in
      elim (Result-cases tip_of.0) [
        | inr (x, e) ↦ cc (rw (await_tip, e) at h)
        | inl (tip, e) ↦
            let behind : Registry W H = tip_of.1 in
            let outcome = wait_for storage calls view tip behind in
            let (waited, same, last) =
              settle_wait-ok ns view got (outcome.0) (outcome.1) (rw (await_tip, e) at h) in
            let ready : Ready view (outcome.1) = record {
              asked_in = counted;
              tip = tip;
              behind = behind;
              asked = λ i. (e i, behind);
              caught = wait_for-SomeCaught view tip behind waited;
              last = wait_for-after view tip behind;
            } in
            rw (await_tip, e, last, ← same) ready
      ]

  by_retirement-YieldsIn :
      (fatal : OrderedError) (again : Op (Registry W H) OrderedError H)
      → YieldsIn Ready again
      → (outcome : Retired) → YieldsIn Ready (by_retirement storage calls fatal again outcome)
  by_retirement-YieldsIn fatal again more not_retired = fail-YieldsIn Ready fatal
  by_retirement-YieldsIn fatal again more retired = more
  by_retirement-YieldsIn fatal again more superseded = more

  ready_acquired_view-YieldsIn :
      (left : ℕ) (ns : Bytes) (found : H × Bool)
      → YieldsIn Ready (ready_acquired_view storage calls left ns found)
  unfolding ready_acquired_view
  ready_acquired_view-YieldsIn zero ns (view, created) s got h =
      elim (Option-cases ((calls.view_of view s.world).fatal)) [
        | inl e ↦
            rw (ready_acquired_view, e)
              (await_tip-YieldsIn ns view s got (rw (ready_acquired_view, e) at h))
        | inr (fatal, e) ↦ cc (rw (ready_acquired_view, e) at h)
      ]
  ready_acquired_view-YieldsIn (suc left) ns (view, created) s got h =
      let again : Op (Registry W H) OrderedError H =
        acquire_view storage calls ns >>= ready_acquired_view storage calls left ns in
      let more : YieldsIn Ready again =
        bind-YieldsIn Ready (acquire_view storage calls ns)
          (ready_acquired_view storage calls left ns)
          (λ found. ready_acquired_view-YieldsIn left ns found) in
      elim (Option-cases ((calls.view_of view s.world).fatal)) [
        | inl e ↦
            rw (ready_acquired_view, e)
              (await_tip-YieldsIn ns view s got (rw (ready_acquired_view, e) at h))
        | inr (fatal, e) ↦ elim (Bool-cases created) [
          | inl c ↦ cc (rw (ready_acquired_view, e, c) at h)
          | inr c ↦
              rw (ready_acquired_view, e, c)
                (bind-YieldsIn Ready (evict_repairable_fatal storage calls ns view fatal)
                  (by_retirement storage calls fatal again)
                  (by_retirement-YieldsIn fatal again more) s got
                  (rw (ready_acquired_view, e, c) at h))
        ]
      ]

  -- When readyView returns a view, the tip of the view's stream was read, and behind that a look at
  -- the view found it without an error and with a watermark at that tip or behind it; the call ended with
  -- the state behind that wait.
  pub ready_view-Ready :
      (ns : Bytes) (s : Registry W H) (view : H)
      → (ready_view storage calls ns s).0 ≡ ok view
      → Ready view (ready_view storage calls ns s).1
  unfolding ready_view
  ready_view-Ready ns s view h =
      bind-YieldsIn Ready (acquire_view storage calls ns) (ready_acquired_view storage calls 1 ns)
        (λ found. ready_acquired_view-YieldsIn 1 ns found) s view h
