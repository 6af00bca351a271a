-- ===== src/Subject/Dots.antt =====
-- Subjects: the dot escape and the slash remap undo one another on names, whose grammar has no '%'.
use natsstore.Base.{
  ℕ, ◌≡◌, ◌≢◌, refl, Bool, true, [], ◌∷◌, All, ◌==◌, if◌then◌else◌, arith, Bool-cases, inl, inr, ap,
  sym, ◌∙◌,
}
use natsstore.Base.Bytes.{Bytes, bytes, bytes_eq_iff, bytes_eq_refl, replace_all}
use natsstore.Base.Outcome.{ok}
use natsstore.Subject.{subject_dot_escape, encode_subject, subject_for_name, name_from_subject}

-- Replacement of one byte by another.
swap_byte : ℕ → ℕ → Bytes → Bytes
swap_byte a b [] = []
swap_byte a b (c ∷ s) = (if a == c then b else c) ∷ swap_byte a b s

replace_all-byte : (a b : ℕ) (s : Bytes) → replace_all s (a ∷ []) (b ∷ []) ≡ swap_byte a b s
unfolding replace_all swap_byte
replace_all-byte a b [] = refl
replace_all-byte a b (c ∷ s) = ground (arith, replace_all-byte a b s)

-- The dot escape, byte by byte.
escape_dots : Bytes → Bytes
escape_dots [] = []
escape_dots (c ∷ s) = if c == b'.' then b'%' ∷ b'2' ∷ b'E' ∷ escape_dots s else c ∷ escape_dots s

replace_all-dots : (s : Bytes) → replace_all s (bytes ".") subject_dot_escape ≡ escape_dots s
unfolding replace_all escape_dots
replace_all-dots [] = refl
replace_all-dots (c ∷ s) = ground (arith, replace_all-dots s)

-- With the dots gone, '/' to '.' and back changes nothing.
swap_back : (s : Bytes) → swap_byte b'.' b'/' (swap_byte b'/' b'.' (escape_dots s)) ≡ escape_dots s
unfolding swap_byte escape_dots
swap_back [] = refl
swap_back (c ∷ s) = ground (arith, swap_back s)

unescape_dots :
    (s : Bytes)
    → All (λ c. c ≢ b'%') s
    → replace_all (escape_dots s) subject_dot_escape (bytes ".") ≡ s
unfolding replace_all escape_dots
unescape_dots [] a = refl
unescape_dots (c ∷ s) a = ground (arith, a.0, unescape_dots s a.1)

-- What nameFromSubject undoes, in its two steps.
decode-encode_subject :
    (name : Bytes)
    → All (λ c. c ≢ b'%') name
    → replace_all
        (replace_all (encode_subject name) (bytes ".") (bytes "/"))
        subject_dot_escape
        (bytes ".")
      ≡ name
unfolding encode_subject
decode-encode_subject name a =
    simp (replace_all-byte, replace_all-dots, swap_back) (unescape_dots name a)

-- Two names without '%' have one subject only if they are the same name.
pub encode_subject_injective :
    (a b : Bytes)
    → All (λ c. c ≢ b'%') a
    → All (λ c. c ≢ b'%') b
    → encode_subject a ≡ encode_subject b
    → a ≡ b
encode_subject_injective a b p q h =
    sym (decode-encode_subject a p)
    ∙ ap (λ s. replace_all (replace_all s (bytes ".") (bytes "/")) subject_dot_escape (bytes ".")) h
    ∙ decode-encode_subject b q

module _ (validate_name : Bytes → Bool) where
  -- What nameFromSubject accepts is the encoding of the name that it returns.
  pub subject_for_name-name_from_subject :
      (name subject : Bytes)
      → name_from_subject validate_name subject ≡ ok name
      → subject_for_name validate_name name ≡ ok subject
  unfolding name_from_subject subject_for_name
  subject_for_name-name_from_subject name subject h = ground (
    arith,
    bytes_eq_iff
        (encode_subject (
          replace_all (replace_all subject (bytes ".") (bytes "/")) subject_dot_escape (bytes ".")))
        subject,
  )

  module _ (grammar : (n : Bytes) → validate_name n ≡ true → All (λ c. c ≢ b'%') n) where
    -- Where no valid name has a '%', a subject that subjectForName emits for a name is read back as that name
    -- by nameFromSubject.
    pub name_from_subject-subject_for_name :
        (name subject : Bytes)
        → subject_for_name validate_name name ≡ ok subject
        → name_from_subject validate_name subject ≡ ok name
    unfolding name_from_subject subject_for_name
    name_from_subject-subject_for_name name subject h = elim (Bool-cases (validate_name name)) [
      | inl v ↦
          ground (
            arith,
            decode-encode_subject name (grammar name v),
            bytes_eq_refl (encode_subject name),
          )
      | inr v ↦ ground arith
    ]
