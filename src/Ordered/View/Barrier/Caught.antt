-- ===== src/Ordered/View/Barrier/Caught.antt =====
-- A view catches up with its barrier: a query that sleeps on the view's channel is woken by what it waits for,
-- and returns once the tip was applied or the view has failed.
use natsstore.Base.{
  sym, Option, ◌==◌, ℕ, ◌≤◌, ◌≡◌, ◌≢◌, ◌⊎◌, refl, ◌∙◌, Bool, true, false, none, some, List, [], ◌∷◌,
  ◌++◌, leb, leb→le, if◌then◌else◌, arith, Bool-cases, Option-cases, inl, inr,
}
use natsstore.Base.Bytes.{bytes_Eq}
use natsstore.Base.Outcome.{Result, ok, err}
use mathlib.Core.Path.{subst}
use natsstore.Ordered.Record.{identity_Eq}
use natsstore.Ordered.Libraries.{Storage, Encodings}
use natsstore.Ordered.Errors.{OrderedError}
use natsstore.Ordered.Store.{NoValue}
use natsstore.Ordered.View.{View, apply_message}
use natsstore.Ordered.View.Invariant.Messages.{Message}
use natsstore.Ordered.View.Barrier.{
  Moment, shows, stopped, context_ended, barrier_now, stop_reason, sleep, wait_barrier,
}
use natsstore.Ordered.View.Barrier.Passes.{apply_message-Passes}

module _ (storage : Storage) (enc : Encodings) where
  abbrev pub deliver : List Message → View → View
  deliver [] v = v
  deliver (m ∷ ms) v = deliver ms (apply_message storage enc m.subject m.seq m.payload v)

  -- The deliveries between two moments, and the moments.
  abbrev pub deliver_all : List (List Message) → View → View
  deliver_all [] v = v
  deliver_all (ms ∷ rest) v = deliver_all rest (deliver ms v)

  abbrev pub moments_of : List (List Message) → View → List Moment
  moments_of [] v = []
  moments_of (ms ∷ rest) v = shows (deliver ms v) ∷ moments_of rest (deliver ms v)

abbrev pub carries : ℕ → List Message → Bool
carries target [] = false
carries target (m ∷ ms) = let rest = carries target ms in if leb target m.seq then true else rest

abbrev pub carries_any : ℕ → List (List Message) → Bool
carries_any target [] = false
carries_any target (ms ∷ rest) =
    let more = carries_any target rest in if carries target ms then true else more

-- A wait for the target would end now.
abbrev Done : ℕ → View → Type 0
Done target v = (r : Result OrderedError NoValue) × (barrier_now target v ≡ some r)

-- How a view changes as messages are applied.
record Moves (v w : View) : Type 0 where
  turns : v.generation ≤ w.generation
  silent : w.generation ≡ v.generation → (w.watermark ≡ v.watermark) × (w.fatal ≡ v.fatal)
  rises : v.watermark ≤ w.watermark
  keeps : (e : OrderedError) → v.fatal ≡ some e → w.fatal ≡ some e

Moves-trans : (u v w : View) → Moves u v → Moves v w → Moves u w
Moves-trans u v w a b = record {
  turns = omega (arith, a.turns, b.turns);
  silent = λ h.
      let second : w.generation ≡ v.generation = omega (arith, h, a.turns, b.turns) in
      let first : v.generation ≡ u.generation = omega (arith, h, a.turns, b.turns) in
      ((b.silent second).0 ∙ (a.silent first).0, (b.silent second).1 ∙ (a.silent first).1);
  rises = omega (arith, a.rises, b.rises);
  keeps = λ e h. b.keeps e (a.keeps e h);
}

-- What a query that waited may return, on a view that ended up with this error or none.
abbrev pub Returned : Option OrderedError → Option (Result OrderedError NoValue) → Type 0
Returned fatal r =
    (r ≡ some (ok tt)) ⊎ ((e : OrderedError) × ((fatal ≡ some e) × (r ≡ some (err e))))

module _ (storage : Storage) (enc : Encodings) (target : ℕ) where
  barrier_now-eq :
      (v w : View)
      → w.watermark ≡ v.watermark
      → w.fatal ≡ v.fatal
      → barrier_now target w ≡ barrier_now target v
  barrier_now-eq v w level error i = elim (error i) [
    | some e ↦ some (err e)
    | none ↦ if leb target (level i) then some (ok tt) else none
  ]

  Done-failed : (v : View) (e : OrderedError) → v.fatal ≡ some e → Done target v
  Done-failed v e h = (err e, rw (barrier_now, h) refl)

  Done-reached : (v : View) → target ≤ v.watermark → Done target v
  Done-reached v le = elim (Option-cases v.fatal) [
    | inr (e, f) ↦ Done-failed v e f
    | inl f ↦ (ok tt, ground (arith, f, le))
  ]

  Done-Returned :
      (v w : View) (r : Result OrderedError NoValue)
      → barrier_now target v ≡ some r
      → Moves v w
      → Returned w.fatal (some r)
  Done-Returned v w r h m = elim (Option-cases v.fatal) [
    | inr (e, f) ↦ inr (e, (m.keeps e f, sym h ∙ rw (barrier_now, f) refl))
    | inl f ↦ inl (ground (arith, f, h))
  ]

  Done-Moves : (v w : View) → Moves v w → Done target v → Done target w
  Done-Moves v w m (r, h) = elim (Option-cases v.fatal) [
    | inr (e, f) ↦ Done-failed w e (m.keeps e f)
    | inl f ↦
        let le : target ≤ v.watermark = ground (arith, f, h) in
        Done-reached w (omega (arith, le, m.rises))
  ]

  message-Moves :
      (m : Message) (v : View) → Moves v (apply_message storage enc m.subject m.seq m.payload v)
  message-Moves m v =
      let p = apply_message-Passes storage enc m v in
      record { turns = p.turns; silent = p.silent; rises = p.rises; keeps = p.keeps }

  deliver-Moves : (ms : List Message) (v : View) → Moves v (deliver storage enc ms v)
  deliver-Moves [] v = record {
    turns = omega arith;
    silent = λ _. (refl, refl);
    rises = omega arith;
    keeps = λ e h. h;
  }
  deliver-Moves (m ∷ ms) v =
      let next : View = apply_message storage enc m.subject m.seq m.payload v in
      Moves-trans v next (deliver storage enc ms next) (message-Moves m v) (deliver-Moves ms next)

  deliver_all-Moves :
      (rest : List (List Message)) (v : View) → Moves v (deliver_all storage enc rest v)
  deliver_all-Moves [] v = deliver-Moves [] v
  deliver_all-Moves (ms ∷ rest) v =
      let next : View = deliver storage enc ms v in
      Moves-trans v next (deliver_all storage enc rest next) (deliver-Moves ms v)
        (deliver_all-Moves rest next)

  message-Done :
      (m : Message) (v : View)
      → leb target m.seq ≡ true
      → Done target (apply_message storage enc m.subject m.seq m.payload v)
  message-Done m v behind =
      let p = apply_message-Passes storage enc m v in
      let next : View = apply_message storage enc m.subject m.seq m.payload v in
      elim (Option-cases next.fatal) [
        | inr (e, f) ↦ Done-failed next e f
        | inl f ↦ Done-reached next (omega (arith, p.reaches f, leb→le target m.seq behind))
      ]

  deliver-Done :
      (ms : List Message) (v : View)
      → carries target ms ≡ true
      → Done target (deliver storage enc ms v)
  deliver-Done [] v h = cc h
  deliver-Done (m ∷ ms) v h =
      let next : View = apply_message storage enc m.subject m.seq m.payload v in
      elim (Bool-cases (leb target m.seq)) [
        | inl e ↦
            Done-Moves next (deliver storage enc ms next) (deliver-Moves ms next)
              (message-Done m v e)
        | inr e ↦ deliver-Done ms next (rw e at h)
      ]

  deliver_all-Done :
      (rest : List (List Message)) (v : View)
      → carries_any target rest ≡ true
      → Done target (deliver_all storage enc rest v)
  deliver_all-Done [] v h = cc h
  deliver_all-Done (ms ∷ rest) v h =
      let next : View = deliver storage enc ms v in
      elim (Bool-cases (carries target ms)) [
        | inl e ↦
            Done-Moves next (deliver_all storage enc rest next) (deliver_all-Moves rest next)
              (deliver-Done ms v e)
        | inr e ↦ deliver_all-Done rest next (rw e at h)
      ]

  -- A query that sleeps on the channel of the view's own generation, since the barrier was not reached.
  sleep-Returned :
      (rest : List (List Message)) (v : View) (later : List Moment)
      → barrier_now target v ≡ none
      → Done target (deliver_all storage enc rest v)
      → Returned
          (deliver_all storage enc rest v).fatal
          (sleep target v.generation (moments_of storage enc rest v ++ later))
  unfolding sleep
  sleep-Returned [] v later pending (r, h) = cc (pending, h)
  sleep-Returned (ms ∷ rest) v later pending done =
      let next : View = deliver storage enc ms v in
      elim (Bool-cases (next.generation == v.generation)) [
        | inl e ↦
            let same : next.generation ≡ v.generation = ground (arith, e) in
            let (level, error) = (deliver-Moves ms v).silent same in
            let still = barrier_now-eq v next level error ∙ pending in
            rw (sleep, e)
              (subst
                (λ g.
                  Returned (deliver_all storage enc rest next).fatal
                    (sleep target g (moments_of storage enc rest next ++ later)))
                same (sleep-Returned rest next later still done))
        | inr e ↦ elim (Option-cases (barrier_now target next)) [
          | inl f ↦ rw (sleep, e, f) (sleep-Returned rest next later f done)
          | inr (r, f) ↦
              rw (sleep, e, f)
                (Done-Returned next (deliver_all storage enc rest next) r f
                  (deliver_all-Moves rest next))
        ]
      ]

  -- A query whose context has not ended, on a view to which a message at or behind its target is then applied,
  -- returns: without an error, or with the error that the view ends up with. The channel that it sleeps on
  -- is closed in time, whatever other messages are applied, however they are grouped between the moments at
  -- which the query may run, and whatever happens later.
  pub wait_barrier_caught_up :
      (rest : List (List Message)) (v : View) (later : List Moment)
      → carries_any target rest ≡ true
      → Returned
          (deliver_all storage enc rest v).fatal
          (wait_barrier target none v (moments_of storage enc rest v ++ later))
  unfolding wait_barrier
  wait_barrier_caught_up rest v later carried = elim (Option-cases (barrier_now target v)) [
    | inl f ↦ rw (wait_barrier, f) (sleep-Returned rest v later f (deliver_all-Done rest v carried))
    | inr (r, f) ↦
        rw (wait_barrier, f)
          (Done-Returned v (deliver_all storage enc rest v) r f (deliver_all-Moves rest v))
  ]

-- The views that a sleeping query looks at when it is woken, and all that it looks at.
abbrev pub woken_by : ℕ → List Moment → List View
woken_by generation [] = []
woken_by generation (shows v ∷ moments) =
    let asleep = woken_by generation moments in
    let woken = woken_by v.generation moments in
    if v.generation == generation then asleep else v ∷ woken
woken_by generation (stopped v ∷ moments) = []
woken_by generation (context_ended c ∷ moments) = []

abbrev pub views_of : View → List Moment → List View
views_of v moments = v ∷ woken_by v.generation moments

-- One of the views has no error and a watermark at the target or behind it.
abbrev pub SomeCaught : ℕ → List View → Type 0
SomeCaught target [] = ⊥
SomeCaught target (v ∷ views) =
    ((v.fatal ≡ none) × (target ≤ v.watermark)) ⊎ SomeCaught target views

module _ (target : ℕ) where
  barrier_now-caught :
      (v : View) → barrier_now target v ≡ some (ok tt) → (v.fatal ≡ none) × (target ≤ v.watermark)
  barrier_now-caught v h = ground (arith, h)

  stop_reason-not_ok : (v : View) → stop_reason v ≢ ok tt
  stop_reason-not_ok v h = elim (Option-cases v.fatal) [
    | inl e ↦ cc (rw (stop_reason, e) at h)
    | inr (x, e) ↦ cc (rw (stop_reason, e) at h)
  ]

  sleep-SomeCaught :
      (generation : ℕ) (moments : List Moment)
      → sleep target generation moments ≡ some (ok tt)
      → SomeCaught target (woken_by generation moments)
  unfolding sleep
  sleep-SomeCaught generation [] h = cc h
  sleep-SomeCaught generation (shows v ∷ moments) h =
      elim (Bool-cases (v.generation == generation)) [
        | inl e ↦ rw e (sleep-SomeCaught generation moments (rw (sleep, e) at h))
        | inr e ↦ rw e (elim (Option-cases (barrier_now target v)) [
          | inl f ↦ inr (sleep-SomeCaught v.generation moments (rw (sleep, e, f) at h))
          | inr (r, f) ↦ inl (barrier_now-caught v (f ∙ rw (sleep, e, f) at h))
        ])
      ]
  sleep-SomeCaught generation (stopped v ∷ moments) h =
      let stop : some (stop_reason v) ≡ some (ok tt) = h in absurd (stop_reason-not_ok v (cc stop))
  sleep-SomeCaught generation (context_ended c ∷ moments) h = cc h

  -- A query is let through its barrier only if one of the views that it looked at had no error and a
  -- watermark at the target or behind it.
  pub wait_barrier-SomeCaught :
      (ended : Option ℕ) (v : View) (moments : List Moment)
      → wait_barrier target ended v moments ≡ some (ok tt)
      → SomeCaught target (views_of v moments)
  unfolding wait_barrier
  wait_barrier-SomeCaught (some c) v moments h = cc h
  wait_barrier-SomeCaught none v moments h = elim (Option-cases (barrier_now target v)) [
    | inl f ↦ inr (sleep-SomeCaught v.generation moments (rw (wait_barrier, f) at h))
    | inr (r, f) ↦ inl (barrier_now-caught v (f ∙ rw (wait_barrier, f) at h))
  ]
