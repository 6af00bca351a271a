-- ===== src/Ordered/History/Lawful.antt =====
-- What a seam promises of one server that other clients write too, and what holds of a run of an operation
-- beside them.
use natsstore.Base.{
  ℕ, ◌≡◌, ◌≢◌, List, [], ◌∷◌, none, some, refl, inl, inr, Bool-cases, ◌==◌, false, if◌then◌else◌,
}
use natsstore.Base.Bytes.{Bytes}
use natsstore.Base.Outcome.{
  Result, ok, Op, pure, fail, lift, ◌>>=◌, Result-cases, then_try, then_try-eq-ok,
}
use natsstore.Ordered.Record.{OrderedRecord}
use natsstore.Ordered.Errors.{OrderedError}
use natsstore.Ordered.Libraries.{Storage, Encodings}
use natsstore.Ordered.Codec.{decode_ordered_record}
use natsstore.Ordered.Store.{
  OrderedStreamSpec, OrderedMsg, OrderedSeam, OrderedStore, NoValue, Found, read_record, outside,
}
use natsstore.Ordered.History.{Log, Holds, Steps, start, Steps-trans}

module _ (storage : Storage) (enc : Encodings) {W : Type 0} (log : Log W) where
  abbrev pub Runs : W → W → Type 0
  Runs v w = Steps storage enc log v w

  -- Messages that were sent were committed between other commits, or were not committed and the call failed.
  pub data Sent (v : W) (msgs : List OrderedMsg) (result : Result OrderedError NoValue) (w : W)
      : Type 0 where
    committed :
        (before after : W)
        → Runs v before
        → log.Commits before msgs after
        → Runs after w
        → Sent v msgs result w
    not_committed : result ≢ ok tt → Runs v w → Sent v msgs result w

  -- During a call other clients may commit. A read answers with the head of its subject at some moment of
  -- the call.
  pub record Lawful (seam : OrderedSeam W) : Type 0 where
    pub ensures : (spec : OrderedStreamSpec) (w : W) → Runs w (seam.ensure_stream spec w).1
    pub awaits : (key : Bytes) (w : W) → Runs w (seam.await_token key w).1
    pub waits : (n : ℕ) (w : W) → Runs w (seam.wait_before_retry n w).1
    pub reads :
        (spec : OrderedStreamSpec) (subject : Bytes) (w : W)
        → Runs w (seam.last_msg_for_subject spec subject w).1
    pub reads_head :
        (spec : OrderedStreamSpec) (subject : Bytes) (w : W) (head : ℕ × Bytes)
        → (seam.last_msg_for_subject spec subject w).0 ≡ ok head
        → (u : W) × Runs w u
          × Runs u (seam.last_msg_for_subject spec subject w).1
          × (log.head u subject ≡ head)
    pub publishes :
        (stream : Bytes) (m : OrderedMsg) (w : W)
        → Sent w (m ∷ []) (seam.publish stream m w).0 (seam.publish stream m w).1
    pub publishes_batch :
        (stream : Bytes) (msgs : List OrderedMsg) (w : W)
        → Sent w msgs (seam.publish_batch stream msgs w).0 (seam.publish_batch stream msgs w).1

  -- From a world with `P` an operation only makes steps, and what it returns has `Q`.
  abbrev pub Triple :
      {A : Type 0} → (W → Type 0) → Op (OrderedStore W) OrderedError A → (A → W → Type 0) → Type 0
  Triple {A} P m Q =
      (s : OrderedStore W)
      → P s.world
      → Runs s.world (m s).1.world × ((a : A) → (m s).0 ≡ ok a → Q a (m s).1.world)

  module _ {A : Type 0} (P : W → Type 0) (Q : A → W → Type 0) where
    pub pure-Triple : (a : A) → ((w : W) → P w → Q a w) → Triple P (pure a) Q
    pure-Triple a q s p = (start, λ b h. let e : a ≡ b = cc in rw (← e) (q s.world p))

    pub fail-Triple : (e : OrderedError) → Triple P (fail e) Q
    fail-Triple e s p = (start, λ b h. cc h)

    pub lift-Triple :
        (r : Result OrderedError A)
        → ((a : A) (w : W) → r ≡ ok a → P w → Q a w)
        → Triple P (lift r) Q
    lift-Triple r q s p = (start, λ a h. q a s.world h p)

  pub bind-Triple :
      {A B : Type 0} (P : W → Type 0) (Q : A → W → Type 0) (R : B → W → Type 0)
      (m : Op (OrderedStore W) OrderedError A) (k : A → Op (OrderedStore W) OrderedError B)
      → Triple P m Q
      → ((a : A) → Triple (Q a) (k a) R)
      → Triple P (m >>= k) R
  bind-Triple P Q R m k first then_rest s p =
      let (runs, post) = first s p in
      elim (Result-cases (m s).0) [
        | inl (a, e) ↦
            let (more, last) = then_rest a (m s).1 (post a e) in
            rw (◌>>=◌, e) (Steps-trans storage enc log s.world runs more, last)
        | inr (x, e) ↦ rw (◌>>=◌, e) (runs, λ b h. cc h)
      ]

  -- The moment at which a subject held a record under a sequence, in a run since `v`.
  pub record ReadAt (v : W) (subject : Bytes) (rec : OrderedRecord) (seq : ℕ) (w : W) : Type 0 where
    pub moment : W
    pub since : Runs v moment
    pub until : Runs moment w
    pub held : Holds storage enc log moment subject rec
    pub under : (log.head moment subject).0 ≡ seq

  -- At some moment of the run a subject held the record.
  pub record Stored (v : W) (subject : Bytes) (rec : OrderedRecord) (w : W) : Type 0 where
    pub moment : W
    pub since : Runs v moment
    pub until : Runs moment w
    pub held : Holds storage enc log moment subject rec

  pub Stored-since :
      (v w x : W) (subject : Bytes) (rec : OrderedRecord)
      → Runs v w
      → Stored w subject rec x
      → Stored v subject rec x
  Stored-since v w x subject rec before s = record {
    moment = s.moment;
    since = Steps-trans storage enc log v before (s.since);
    until = s.until;
    held = s.held;
  }

  pub ReadAt-Stored :
      (v w : W) (subject : Bytes) (rec : OrderedRecord) (seq : ℕ)
      → ReadAt v subject rec seq w
      → Stored v subject rec w
  ReadAt-Stored v w subject rec seq r = record {
    moment = r.moment;
    since = r.since;
    until = r.until;
    held = r.held;
  }

  at_moment :
      (v u w : W) (subject : Bytes) (rec : OrderedRecord) (seq : ℕ) (text : Bytes)
      → Runs v u
      → Runs u w
      → log.head u subject ≡ (seq, text)
      → (seq == 0) ≡ false
      → decode_ordered_record storage enc subject text ≡ ok rec
      → ReadAt v subject rec seq w
  at_moment v u w subject rec seq text before after at present decoded = record {
    moment = u;
    since = before;
    until = after;
    held = record { present = rw at (λ z. cc (rw z at present)); decoded = rw at decoded };
    under = rw at refl;
  }

  abbrev pub FoundAt : W → Bytes → Found → W → Type 0
  FoundAt v subject none w = Runs v w
  FoundAt v subject (some (rec, seq)) w = Runs v w × ReadAt v subject rec seq w

  pub FoundAt-Runs :
      (v w : W) (subject : Bytes) (found : Found) → FoundAt v subject found w → Runs v w
  FoundAt-Runs v w subject none h = h
  FoundAt-Runs v w subject (some (rec, seq)) h = h.0

  module _ (seam : OrderedSeam W) (lawful : Lawful seam) where
    abbrev pub HeadAt : W → Bytes → ℕ × Bytes → W → Type 0
    HeadAt v subject head w =
        Runs v w × ((u : W) × Runs v u × Runs u w × (log.head u subject ≡ head))

    pub last_msg-Triple :
        (v : W) (spec : OrderedStreamSpec) (subject : Bytes)
        → Triple (Runs v) (outside (seam.last_msg_for_subject spec subject)) (HeadAt v subject)
    last_msg-Triple v spec subject s p = (
      lawful.reads spec subject s.world,
      λ head h.
          let (u, before, after, at) = lawful.reads_head spec subject s.world head h in
          (
            Steps-trans storage enc log v p (lawful.reads spec subject s.world),
            (u, Steps-trans storage enc log v p before, after, at),
          ),
    )

    pub read_record-Triple :
        (v : W) (spec : OrderedStreamSpec) (subject : Bytes)
        → Triple (Runs v) (read_record storage enc seam spec subject) (FoundAt v subject)
    unfolding read_record
    read_record-Triple v spec subject =
        bind-Triple (Runs v) (HeadAt v subject) (FoundAt v subject)
          (outside (seam.last_msg_for_subject spec subject)) rest (last_msg-Triple v spec subject)
          by_head
      where
        rest : ℕ × Bytes → Op (OrderedStore W) OrderedError Found
        rest (seq, text) =
            if seq == 0
            then pure none
            else lift (
                then_try (decode_ordered_record storage enc subject text) (λ r. ok (some (r, seq))))

        by_head :
            (head : ℕ × Bytes) → Triple (HeadAt v subject head) (rest head) (FoundAt v subject)
        by_head (seq, text) = elim (Bool-cases (seq == 0)) [
          | inl e ↦
              rw e
                (pure-Triple (HeadAt v subject (seq, text)) (FoundAt v subject) none (λ w h. h.0))
          | inr e ↦ rw e (
              lift-Triple (HeadAt v subject (seq, text)) (FoundAt v subject)
                (then_try (decode_ordered_record storage enc subject text)
                  (λ r. ok (some (r, seq))))
                (λ found w h (runs, (u, before, after, at)).
                  let (rec, decoded, same) =
                    then_try-eq-ok (decode_ordered_record storage enc subject text)
                      (λ r. ok (some (r, seq))) found h in
                  let found_it : some (rec, seq) ≡ found = cc same in
                  rw (← found_it)
                    (runs, at_moment v u w subject rec seq text before after at e decoded)))
        ]
