-- ===== src/Ordered/Codec/Families.antt =====
-- The subjects inside a namespace's stream (ordered_codec.go): which family each belongs to, and that they
-- do not overlap.
use natsstore.Base.{
  ℕ, ◌≡◌, ◌≢◌, refl, true, false, Option, some, [], ◌∷◌, ◌++◌, All, ◌==◌, arith, sym, ◌∙◌, ap,
}
use mathlib.Core.List.{append_assoc}
use natsstore.Base.Bytes.{Bytes, bytes, bytes_eq, cut_prefix-append}
use natsstore.Base.Outcome.{ok}
use natsstore.Subject.{encode_stream}
use natsstore.Subject.Stream.{encode_stream-is_token, encode_stream_injective}
use natsstore.Ordered.Record.{OrderedId}
use natsstore.Ordered.Libraries.{Storage, Encodings}
use natsstore.Ordered.Codec.{
  cut, counter_family, record_family, family_of_token, ordered_namespace_prefix,
  ordered_counter_subject, ordered_record_subject, ordered_identity_token, classify_ordered_subject,
}

cut-token :
    (t rest : Bytes)
    → All (λ c. (c ≢ b'.') × (c ≢ b'/')) t
    → cut b'.' (t ++ (b'.' ∷ rest)) ≡ some (t, rest)
unfolding cut
cut-token [] rest h = refl
cut-token (c ∷ t) rest h = ground (arith, cut-token t rest)

-- A subject behind a namespace's prefix, with the token of its family.
abbrev subject_in : Bytes → ℕ → Bytes → Bytes
subject_in ns family rest = (bytes "OI." ++ encode_stream ns) ++ (b'.' ∷ family ∷ b'.' ∷ rest)

split :
    (ns rest : Bytes) → cut b'.' (encode_stream ns ++ (b'.' ∷ rest)) ≡ some (encode_stream ns, rest)
split ns rest = cut-token (encode_stream ns) rest (encode_stream-is_token ns)

pair_injective :
    (s t : Bytes) (f g : ℕ) (rest more : Bytes)
    → ◌≡◌ {A = Option (Bytes × Bytes)} (some (s, f ∷ b'.' ∷ rest)) (some (t, g ∷ b'.' ∷ more))
    → (s ≡ t) × (f ≡ g) × (rest ≡ more)
pair_injective s t f g rest more h = (cc, cc, cc)

subject_in_injective :
    (ns other : Bytes) (f g : ℕ) (rest more : Bytes)
    → subject_in ns f rest ≡ subject_in other g more
    → (ns ≡ other) × (f ≡ g) × (rest ≡ more)
subject_in_injective ns other f g rest more h =
    let e : encode_stream ns ++ (b'.' ∷ f ∷ b'.' ∷ rest)
        ≡ encode_stream other ++ (b'.' ∷ g ∷ b'.' ∷ more) =
      cc h in
    let (token, family, same) =
      pair_injective (encode_stream ns) (encode_stream other) f g rest more
        (sym (split ns (f ∷ b'.' ∷ rest)) ∙ (ap (cut b'.') e ∙ split other (g ∷ b'.' ∷ more))) in
    (encode_stream_injective ns other token, family, same)

module _ (storage : Storage) where
  counter-subject_in :
      (ns scope subject : Bytes)
      → ordered_counter_subject storage ns scope ≡ ok subject
      → subject ≡ subject_in ns b'c' (encode_stream scope)
  unfolding ordered_counter_subject ordered_namespace_prefix
  counter-subject_in ns scope subject h = ground (arith, h)

  record-subject_in :
      (enc : Encodings) (id : OrderedId) (subject : Bytes)
      → ordered_record_subject storage enc id ≡ ok subject
      → subject
        ≡ subject_in id.namespace b'r' (
            encode_stream id.ordering_scope ++ (bytes "." ++ ordered_identity_token storage enc id))
  unfolding ordered_record_subject ordered_namespace_prefix
  record-subject_in enc id subject h = ground (arith, h)

  -- Two order scopes have one counter subject only if they are one scope of one namespace.
  pub ordered_counter_subject_injective :
      (ns other scope another subject : Bytes)
      → ordered_counter_subject storage ns scope ≡ ok subject
      → ordered_counter_subject storage other another ≡ ok subject
      → (ns ≡ other) × (scope ≡ another)
  ordered_counter_subject_injective ns other scope another subject h k =
      let e : subject_in ns b'c' (encode_stream scope)
          ≡ subject_in other b'c' (encode_stream another) =
        sym (counter-subject_in ns scope subject h) ∙ counter-subject_in other another subject k in
      let (same, _, rest) =
        subject_in_injective ns other b'c' b'c' (encode_stream scope) (encode_stream another) e in
      (same, encode_stream_injective scope another rest)

  -- No record is stored under the subject of a counter, in whatever namespaces they are.
  pub counter-ne-record_subject :
      (enc : Encodings) (ns scope : Bytes) (id : OrderedId) (counter record_at : Bytes)
      → ordered_counter_subject storage ns scope ≡ ok counter
      → ordered_record_subject storage enc id ≡ ok record_at
      → counter ≢ record_at
  counter-ne-record_subject enc ns scope id counter record_at h k same =
      let token : Bytes =
        encode_stream id.ordering_scope ++ (bytes "." ++ ordered_identity_token storage enc id) in
      let e : subject_in ns b'c' (encode_stream scope) ≡ subject_in id.namespace b'r' token =
        sym (counter-subject_in ns scope counter h)
        ∙ (same ∙ record-subject_in enc id record_at k) in
      let (_, family, _) =
        subject_in_injective ns id.namespace b'c' b'r' (encode_stream scope) token e in
      omega (arith, family)

  counter-valid :
      (ns scope subject : Bytes)
      → ordered_counter_subject storage ns scope ≡ ok subject
      → storage.validate_name ns ≡ true
  unfolding ordered_counter_subject ordered_namespace_prefix
  counter-valid ns scope subject h = ground (arith, h)

  record-valid :
      (enc : Encodings) (id : OrderedId) (subject : Bytes)
      → ordered_record_subject storage enc id ≡ ok subject
      → storage.validate_name id.namespace ≡ true
  unfolding ordered_record_subject ordered_namespace_prefix
  record-valid enc id subject h = ground (arith, h)

  classify-subject_in :
      (ns rest : Bytes) (family : ℕ)
      → storage.validate_name ns ≡ true
      → (family == b'.') ≡ false
      → classify_ordered_subject storage ns (subject_in ns family rest)
        ≡ ok (family_of_token (family ∷ []))
  unfolding classify_ordered_subject ordered_namespace_prefix cut
  classify-subject_in ns rest family valid plain =
      let prefix : Bytes = bytes "OI." ++ encode_stream ns in
      let e : subject_in ns family rest ≡ (prefix ++ bytes ".") ++ (family ∷ b'.' ∷ rest) =
        sym (append_assoc prefix (bytes ".") (family ∷ b'.' ∷ rest)) in
      rw (e, classify_ordered_subject, ordered_namespace_prefix, valid)
        (ground (arith, cut_prefix-append (prefix ++ bytes ".") (family ∷ b'.' ∷ rest)))

  -- Under a valid namespace, its counter subjects and its record subjects are classified as what they are.
  pub classify-ordered_counter_subject :
      (ns scope subject : Bytes)
      → ordered_counter_subject storage ns scope ≡ ok subject
      → classify_ordered_subject storage ns subject ≡ ok counter_family
  unfolding bytes_eq
  classify-ordered_counter_subject ns scope subject h =
      rw (counter-subject_in ns scope subject h)
        (classify-subject_in ns (encode_stream scope) b'c' (counter-valid ns scope subject h) refl)

  classify-ordered_record_subject :
      (enc : Encodings) (id : OrderedId) (subject : Bytes)
      → ordered_record_subject storage enc id ≡ ok subject
      → classify_ordered_subject storage id.namespace subject ≡ ok record_family
  unfolding bytes_eq
  classify-ordered_record_subject enc id subject h = rw (record-subject_in enc id subject h) (
      classify-subject_in id.namespace
        (encode_stream id.ordering_scope ++ (bytes "." ++ ordered_identity_token storage enc id))
        b'r' (record-valid enc id subject h) refl)
