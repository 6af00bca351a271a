-- ===== src/Tests.antt =====
-- Test data: a permissive storage contract, encodings that know one record and one position, and a
-- backend that answers the same each time. The witnesses of the theorems are in the modules below.
mod Views
mod Writes
mod Codecs
mod Stores
mod Searches
mod Servers
mod Histories
mod Seams
mod Readers
mod Barriers
mod Registries
use natsstore.Base.{
  ℕ, ◌≡◌, refl, Bool, true, false, ◌&&◌, Option, none, some, List, [], ◌∷◌, ◌==◌, if◌then◌else◌,
  Bool-cases, inl, inr, ap, sym, ◌∙◌, arith,
}
use natsstore.Base.Bytes.{Bytes, bytes, bytes_eq, bytes_eq_iff}
use natsstore.Base.Int.{pos, eqb_ℤ, eqb_ℤ_iff}
use natsstore.Base.Outcome.{ok, err}
use natsstore.Ordered.Record.{OrderedRecord, OrderedId, OrderedIdentity, ordered_record_equal}
use natsstore.Ordered.Libraries.{Storage, Encodings, OrderedPayload, CursorPayload}
use natsstore.Ordered.Codec.{payload_of, record_of}
use natsstore.Ordered.Store.Allocated.{ordered_record_equal-eq}

abbrev pub storage : Storage
storage = record {
  validate_name = λ n. true;
  validate_ordered_id = λ id. true;
  validate_ordered_value = λ v. true;
  validate_due = λ d. true;
  validate_ordered_record = λ r. true;
  validate_ordered_limit = λ n. true;
  not_due = 0;
  due_at = 1;
  ranked_cursor_kind = bytes "r";
  due_cursor_kind = bytes "d";
}

abbrev pub some_id : OrderedId
some_id = record { namespace = bytes "n"; ordering_scope = bytes "s"; stable_key = bytes "k" }

abbrev pub some_record : OrderedRecord
some_record = record {
  id = some_id;
  ranking_scope = bytes "q";
  revision = 3;
  order = 7;
  due = record { state = 1; unix_millis = pos 5 };
  rank = record { ranked = true; value = pos 2 };
  value = bytes "v";
  deleted = false;
}

abbrev pub some_position : CursorPayload
some_position = record {
  kind = bytes "r";
  namespace = bytes "n";
  ranking_scope = bytes "q";
  rank = pos 2;
  due_bound = pos 0;
  due_at = pos 0;
  stable_key = bytes "k";
  ordering_scope = bytes "s";
}

unfoldable pub is_some_payload : OrderedPayload → Bool
is_some_payload p = p.version == 1 && ordered_record_equal (record_of p) some_record

unfoldable pub is_some_position : CursorPayload → Bool
is_some_position p =
    bytes_eq p.kind (bytes "r")
    && (bytes_eq p.namespace (bytes "n")
        && (bytes_eq p.ranking_scope (bytes "q")
            && (eqb_ℤ p.rank (pos 2)
                && (eqb_ℤ p.due_bound (pos 0)
                    && (eqb_ℤ p.due_at (pos 0)
                        && (bytes_eq p.stable_key (bytes "k")
                            && bytes_eq p.ordering_scope (bytes "s")))))))

abbrev pub enc : Encodings
enc = record {
  sha256 = λ b. bytes "h";
  base64_encode = λ b. b;
  base64_decode = λ b. some b;
  marshal_record = λ p. if is_some_payload p then some (bytes "R") else none;
  decode_record_json =
      λ b. if bytes_eq b (bytes "R") then some (payload_of some_record, false) else none;
  marshal_cursor = λ p. if is_some_position p then some (bytes "C") else none;
  decode_cursor_json = λ b. if bytes_eq b (bytes "C") then some (some_position, false) else none;
}

pub payload_eq : (p : OrderedPayload) → is_some_payload p ≡ true → p ≡ payload_of some_record
unfolding is_some_payload
payload_eq p h =
    let version : p.version ≡ 1 = ground (arith, h) in
    let same : record_of p ≡ some_record =
      ordered_record_equal-eq (record_of p) some_record (ground (arith, h)) in
    let whole : p ≡ payload_of (record_of p) =
      ap (λ n. record (payload_of (record_of p)) { version = n }) version in
    whole ∙ ap payload_of same

pub position_eq : (p : CursorPayload) → is_some_position p ≡ true → p ≡ some_position
unfolding is_some_position
position_eq p h = ground (
  arith,
  bytes_eq_iff p.kind (bytes "r"),
  bytes_eq_iff p.namespace (bytes "n"),
  bytes_eq_iff p.ranking_scope (bytes "q"),
  eqb_ℤ_iff p.rank (pos 2),
  eqb_ℤ_iff p.due_bound (pos 0),
  eqb_ℤ_iff p.due_at (pos 0),
  bytes_eq_iff p.stable_key (bytes "k"),
  bytes_eq_iff p.ordering_scope (bytes "s"),
)

pub record_json :
    (p : OrderedPayload) (text : Bytes)
    → enc.marshal_record p ≡ some text
    → enc.decode_record_json text ≡ some (p, false)
unfolding bytes_eq
record_json p text h = elim (Bool-cases (is_some_payload p)) [
  | inr e ↦ cc (rw e at h)
  | inl e ↦
      let q : bytes "R" ≡ text = cc (rw e at h) in
      rw (← q) (ap (λ x. some (x, false)) (sym (payload_eq p e)))
]

pub position_json :
    (p : CursorPayload) (text : Bytes)
    → enc.marshal_cursor p ≡ some text
    → enc.decode_cursor_json text ≡ some (p, false)
unfolding bytes_eq
position_json p text h = elim (Bool-cases (is_some_position p)) [
  | inr e ↦ cc (rw e at h)
  | inl e ↦
      let q : bytes "C" ≡ text = cc (rw e at h) in
      rw (← q) (ap (λ x. some (x, false)) (sym (position_eq p e)))
]
