-- ===== src/History/Wire.antt =====
-- The protobuf field walk of src/history/wire.rs: varints, fields by number, and what the protocol
-- rules read of a manifest and of a message.
pub mod RoundTrip
pub mod Walk
pub mod Encode
mod Examples
use construct_core.Prelude.{
  ℕ, zero, suc, ◌+◌, ◌*◌, ◌/◌, ◌%◌, ◌^◌, bit_and, bit_or, ltb, leb, ◌==◌, if◌then◌else◌, Bool, true,
  false, ◌&&◌, ◌||◌, Option, none, some, List, [], ◌∷◌, length, get_elem?, slice, Result, ok, err,
  ◌>>=◌, ◌>>◌, ok_or, fail_if,
}
use construct_core.History.{HistoryFailure, malformed}

-- One field as it appears on the wire.
pub data Value : Type 0 where
  varint : (value : ℕ) → Value
  fixed64 : Value
  bytes : (content : List ℕ) → Value
  fixed32 : Value

-- Round `i` of the reader, with `byte` at hand; `rest` is the next round, from the new value.
unfoldable pub read_varint_byte :
    ℕ
    → ℕ
    → ℕ
    → ℕ
    → (ℕ → Result HistoryFailure (Option (ℕ × ℕ)))
    → Result HistoryFailure (Option (ℕ × ℕ))
read_varint_byte i value pos byte rest =
    let value' = bit_or value (bit_and byte 0x7f * 2 ^ (7 * i) % 2 ^ 64) in
    if i == 9 && ltb 1 byte
    then err malformed
    else if bit_and byte 0x80 == 0
    then ok (some (value', pos + (i + 1)))
    else rest value'

-- `for i in 0..10`, with the rounds that are left.
unfoldable pub read_varint_loop : ℕ → ℕ → ℕ → List ℕ → ℕ → Result HistoryFailure (Option (ℕ × ℕ))
read_varint_loop zero i value buf pos = err malformed
read_varint_loop (suc rounds) i value buf pos = elim (get_elem? buf (pos + i)) [
  | none ↦ ok none
  | some byte ↦
      read_varint_byte i value pos byte λ value'. read_varint_loop rounds (i + 1) value' buf pos
]

-- The varint at `pos` and the place behind it; `none` when the buffer ends first.
unfoldable pub read_varint : List ℕ → ℕ → Result HistoryFailure (Option (ℕ × ℕ))
read_varint buf pos = read_varint_loop 10 0 0 buf pos

-- `read_varint(..)?.ok_or(Malformed)?`.
unfoldable pub need_varint : List ℕ → ℕ → Result HistoryFailure (ℕ × ℕ)
need_varint buf pos = do read ← read_varint buf pos; ok_or read malformed

-- The place `n` bytes ahead; the sum has to fit a `usize`, and the buffer.
unfoldable pub skip : List ℕ → ℕ → ℕ → Result HistoryFailure ℕ
skip buf pos n = do
  fail_if (leb (2 ^ 64) (pos + n)) malformed
  fail_if (ltb (length buf) (pos + n)) malformed
  ok (pos + n)

-- The value of a field, by its wire type.
unfoldable pub field_value : List ℕ → ℕ → ℕ → Result HistoryFailure (Value × ℕ)
field_value buf wire_type pos =
    if wire_type == 0
    then (do read ← need_varint buf pos; ok (varint read.0, read.1))
    else if wire_type == 1
    then (do stop ← skip buf pos 8; ok (fixed64, stop))
    else if wire_type == 2
    then (do
      read ← need_varint buf pos
      stop ← skip buf read.1 read.0
      ok (bytes (slice buf read.1 stop), stop))
    else if wire_type == 5
    then (do stop ← skip buf pos 4; ok (fixed32, stop))
    else err malformed

-- The field at `pos`: its number, its value, and the place behind it.
unfoldable pub field : List ℕ → ℕ → Result HistoryFailure ((ℕ × Value) × ℕ)
field buf pos = do
  key ← need_varint buf pos
  fail_if (leb (2 ^ 32) (key.0 / 2 ^ 3)) malformed
  fail_if (key.0 / 2 ^ 3 == 0) malformed
  read ← field_value buf (bit_and key.0 7) key.1
  ok ((key.0 / 2 ^ 3, read.0), read.1)

-- `for field in fields(buf) { state = visit(state, field?)? }` from `pos`. A field takes a byte at
-- least, so as many rounds as bytes are enough.
unfoldable pub each_field {ℓ} :
    {S : Type ℓ}
    → (S → ℕ × Value → Result HistoryFailure S)
    → ℕ
    → List ℕ
    → ℕ
    → S
    → Result HistoryFailure S
each_field visit zero buf pos state = ok state
each_field visit (suc rounds) buf pos state = if leb (length buf) pos then ok state else (do
  read ← field buf pos
  state' ← visit state read.0
  each_field visit rounds buf read.1 state')

unfoldable pub fields {ℓ} :
    {S : Type ℓ} → (S → ℕ × Value → Result HistoryFailure S) → List ℕ → S → Result HistoryFailure S
fields visit buf state = each_field visit (length buf) buf 0 state

unfoldable pub well_formed : List ℕ → Result HistoryFailure (Unit {0})
well_formed buf = fields (λ state read. ok tt) buf tt

pub record ManifestFields : Type 0 where
  pub format_version : ℕ
  pub snapshot_id : List ℕ
  pub user_id : List ℕ
  pub phase : ℕ

abbrev pub default_manifest : ManifestFields
default_manifest = record { format_version = 0; snapshot_id = []; user_id = []; phase = 0 }

unfoldable pub as_varint : Value → Result HistoryFailure ℕ
as_varint (varint v) = ok v
as_varint value = err malformed

unfoldable pub as_bytes : Value → Result HistoryFailure (List ℕ)
as_bytes (bytes b) = ok b
as_bytes value = err malformed

-- A later field takes the place of an earlier one; a known number with another wire type is an
-- error.
unfoldable pub manifest_field : ManifestFields → ℕ × Value → Result HistoryFailure ManifestFields
manifest_field m (number, value) =
    if number == 1
    then (do v ← as_varint value; ok (record m { format_version = v }))
    else if number == 2
    then (do b ← as_bytes value; ok (record m { snapshot_id = b }))
    else if number == 3
    then (do b ← as_bytes value; ok (record m { user_id = b }))
    else if number == 13
    then (do v ← as_varint value; ok (record m { phase = v }))
    else ok m

unfoldable pub manifest : List ℕ → Result HistoryFailure ManifestFields
manifest buf = fields manifest_field buf default_manifest

-- What a message record's body says about how to treat the record.
pub data Body : Type 0 where
  known : Body
  unknown : Body
  unset : Body

unfoldable pub is_bytes : Value → Bool
is_bytes (bytes content) = true
is_bytes value = false

-- The loop of `message_body`: whether a known body and whether an unknown field was seen.
unfoldable pub body_field : Bool × Bool → ℕ × Value → Result HistoryFailure (Bool × Bool)
body_field (seen_known, seen_unknown) (number, value) =
    if number == 6 || number == 15 || number == 16
    then (if is_bytes value then ok (true, seen_unknown) else err malformed)
    else if leb 1 number && leb number 16
    then ok (seen_known, seen_unknown)
    else ok (seen_known, true)

unfoldable pub body_of : Bool × Bool → Body
body_of (true, _) = known
body_of (false, true) = unknown
body_of (false, false) = unset

unfoldable pub message_body : List ℕ → Result HistoryFailure Body
message_body buf = do seen ← fields body_field buf (false, false); ok (body_of seen)

-- A key byte: field number and wire type, in eight bits.
unfoldable pub tag : ℕ → ℕ → ℕ
tag number wire_type = bit_or (number * 2 ^ 3 % 2 ^ 8) wire_type

-- The loop of the writer. A `u64` has ten groups of seven bits at most.
unfoldable pub write_varint_loop : ℕ → ℕ → List ℕ
write_varint_loop zero value = value % 2 ^ 8 ∷ []
write_varint_loop (suc rounds) value =
    let rest = write_varint_loop rounds (value / 2 ^ 7) in
    if leb 0x80 value then bit_or (value % 2 ^ 8) 0x80 ∷ rest else value % 2 ^ 8 ∷ []

unfoldable pub write_varint : ℕ → List ℕ
write_varint value = write_varint_loop 9 value
