-- ===== src/History/Wire/Encode.antt =====
-- A reference encoder of messages, whose fields `fields` of src/history/wire.rs reads back.
use construct_core.Prelude.{
  subst, append_assoc, ℕ, zero, suc, ◌≤◌, ◌<◌, ◌+◌, ◌*◌, ◌/◌, ◌^◌, bit_and, leb, ◌==◌, le→ltb,
  lt→leb, Bool-cases, ◌≡◌, refl, ap, ◌∙◌, inl, inr, false, List, [], ◌∷◌, ◌++◌, arith, length, All,
  length-append, At, At-start, At-length, At-slice, At-advance, Result, ok, ◌>>=◌, >>=-cong,
}
use construct_core.Prelude.Words.{mask_three}
use construct_core.History.{HistoryFailure}
use construct_core.History.Wire.{
  Value, varint, bytes, need_varint, skip, field_value, field, each_field, fields, write_varint,
  write_varint_loop,
}
use construct_core.History.Wire.RoundTrip.{read_varint-write_varint}
use construct_core.History.Wire.Walk.{each_field-fuel, each_field-step, each_field_past}

pub data Field : Type 0 where
  int_field : (number value : ℕ) → Field
  text_field : (number : ℕ) (text : List ℕ) → Field

-- A number that a key holds, and a content that a length holds.
abbrev pub IsField : Field → Type 0
IsField (int_field number value) = (0 < number) × (number < 2 ^ 32) × (value < 2 ^ 64)
IsField (text_field number text) = (0 < number) × (number < 2 ^ 32) × (length text < 2 ^ 64)

unfoldable pub encode_field : Field → List ℕ
encode_field (int_field number value) = write_varint (number * 8 + 0) ++ write_varint value
encode_field (text_field number text) =
    write_varint (number * 8 + 2) ++ (write_varint (length text) ++ text)

unfoldable pub encode : List Field → List ℕ
encode [] = []
encode (f ∷ fs) = encode_field f ++ encode fs

unfoldable pub seen : Field → ℕ × Value
seen (int_field number value) = (number, varint value)
seen (text_field number text) = (number, bytes text)

need-write :
    (v pos : ℕ) (buf rest : List ℕ)
    → v < 2 ^ 64
    → At buf pos (write_varint v ++ rest)
    → need_varint buf pos ≡ ok (v, pos + length (write_varint v))
unfolding need_varint
need-write v pos buf rest h a = rw (read_varint-write_varint v pos buf rest h a) refl

skip-within :
    (buf : List ℕ) (pos n : ℕ)
    → pos + n ≤ length buf
    → length buf < 2 ^ 64
    → skip buf pos n ≡ ok (pos + n)
unfolding skip
skip-within buf pos n h small =
    rw (lt→leb (2 ^ 64) (pos + n) (omega arith), le→ltb (length buf) (pos + n) h) refl

-- The key is split into number and wire type.
field-key :
    (number wire_type pos : ℕ) (buf rest : List ℕ)
    → 0 < number
    → number < 2 ^ 32
    → wire_type < 8
    → At buf pos (write_varint (number * 8 + wire_type) ++ rest)
    → field buf pos ≡ (
        field_value buf wire_type (pos + length (write_varint (number * 8 + wire_type))) >>= λ read.
        ok ((number, read.0), read.1))
unfolding field
field-key number wire_type pos buf rest positive small narrow a =
    let key = number * 8 + wire_type in
    let e : key / 8 ≡ number = omega arith in
    let f : bit_and key 7 ≡ wire_type = mask_three key ∙ omega arith in
    rw
      (
        need-write key pos buf rest (omega arith) a,
        f,
        e,
        lt→leb (2 ^ 32) number small,
        ≢zero number positive,
      )
      refl
  where
    ≢zero : (n : ℕ) → 0 < n → (n == 0) ≡ false
    ≢zero n h = ground arith

-- The bytes of a part of what stands ahead.
pub At-part :
    {buf : List ℕ} {pos : ℕ} (xs ys rest : List ℕ)
    → At buf pos (xs ++ ys ++ rest)
    → At buf pos (xs ++ (ys ++ rest))
At-part {buf} {pos} xs ys rest a = subst (λ zs. At buf pos zs) (append_assoc xs ys rest) a

pub At-behind :
    {buf : List ℕ} {pos : ℕ} (xs rest : List ℕ)
    → At buf pos (xs ++ rest)
    → At buf (pos + length xs) rest
At-behind xs rest a = At-advance (length xs) xs rest a refl

pub field-encode_field :
    (f : Field) (pos : ℕ) (buf rest : List ℕ)
    → IsField f
    → length buf < 2 ^ 64
    → At buf pos (encode_field f ++ rest)
    → field buf pos ≡ ok (seen f, pos + length (encode_field f))
unfolding encode_field seen field_value
field-encode_field (int_field number value) pos buf rest (positive, small, fits) sized a =
    let key = write_varint (number * 8 + 0) in
    let written = write_varint value in
    let a' = At-part key written rest a in
    let behind = At-behind key (written ++ rest) a' in
    let e : pos + length key + length written ≡ pos + length (key ++ written) =
      omega (arith, length-append key written) in
    field-key number 0 pos buf _ positive small (omega arith) a'
    ∙ rw (need-write value (pos + length key) buf rest fits behind)
        (ap (λ k. ok ((number, varint value), k)) e)
field-encode_field (text_field number text) pos buf rest (positive, small, fits) sized a =
    let key = write_varint (number * 8 + 2) in
    let len = write_varint (length text) in
    let a' = At-part key (len ++ text) rest a in
    let behind = At-part len text rest (At-behind key (len ++ text ++ rest) a') in
    let p = pos + length key + length len in
    let last = At-behind len (text ++ rest) behind in
    let room = At-length last in
    let e : p + length text ≡ pos + length (key ++ (len ++ text)) =
      omega (arith, length-append key (len ++ text), length-append len text) in
    field-key number 2 pos buf _ positive small (omega arith) a'
    ∙ rw
        (
          need-write (length text) (pos + length key) buf (text ++ rest) fits behind,
          skip-within buf p (length text) (omega (arith, room, length-append text rest)) sized,
          At-slice (length text) text rest last refl,
        )
        (ap (λ k. ok ((number, bytes text), k)) e)

-- A field takes a byte at least.
write_varint_loop-positive : (rounds v : ℕ) → 0 < length (write_varint_loop rounds v)
unfolding write_varint_loop
write_varint_loop-positive zero v = omega arith
write_varint_loop-positive (suc rounds) v = elim (Bool-cases (leb 0x80 v)) [
  | inl e ↦ rw e (omega arith)
  | inr e ↦ rw e (omega arith)
]

encode_field-positive : (f : Field) → 0 < length (encode_field f)
unfolding encode_field write_varint
encode_field-positive (int_field number value) = omega (
  arith,
  write_varint_loop-positive 9 (number * 8 + 0),
  length-append (write_varint (number * 8 + 0)) (write_varint value),
)
encode_field-positive (text_field number text) = omega (
  arith,
  write_varint_loop-positive 9 (number * 8 + 2),
  length-append (write_varint (number * 8 + 2)) (write_varint (length text) ++ text),
)

-- What a visitor makes of the fields, one after the other.
unfoldable pub visit_all {ℓ} :
    {S : Type ℓ}
    → (S → ℕ × Value → Result HistoryFailure S)
    → List Field
    → S
    → Result HistoryFailure S
visit_all visit [] s = ok s
visit_all visit (f ∷ fs) s = visit s (seen f) >>= λ s'. visit_all visit fs s'

module _ {ℓ} {S : Type ℓ} (visit : S → ℕ × Value → Result HistoryFailure S) where
  each_field-encode :
      (fs : List Field) (fuel pos : ℕ) (buf : List ℕ) (s : S)
      → All IsField fs
      → length buf < 2 ^ 64
      → length buf ≤ pos + fuel
      → At buf pos (encode fs)
      → each_field visit fuel buf pos s ≡ visit_all visit fs s
  unfolding encode visit_all
  each_field-encode [] fuel pos buf s valid sized enough a =
      each_field_past visit fuel buf pos s (omega (arith, At-length a))
  each_field-encode (f ∷ fs) fuel pos buf s (v, valid) sized enough a =
      let stop = pos + length (encode_field f) in
      let e = field-encode_field f pos buf (encode fs) v sized a in
      let room = At-length a in
      let here : pos < length buf =
        omega (arith, room, encode_field-positive f, length-append (encode_field f) (encode fs)) in
      each_field-fuel visit fuel (suc fuel) buf pos s enough (omega arith)
      ∙ each_field-step visit fuel buf pos s here
      ∙ rw e (
          >>=-cong (visit s (seen f)) _ _ (λ s' _.
            each_field-encode fs fuel stop buf s' valid sized (omega arith)
              (At-behind (encode_field f) (encode fs) a)))

  -- The walk over an encoded message of less than 2 ^ 64 bytes visits exactly its fields, in their
  -- order, for any visitor.
  pub fields-encode :
      (fs : List Field) (s : S)
      → All IsField fs
      → length (encode fs) < 2 ^ 64
      → fields visit (encode fs) s ≡ visit_all visit fs s
  unfolding fields
  fields-encode fs s valid sized =
      each_field-encode fs (length (encode fs)) 0 (encode fs) s valid sized (omega arith)
        (At-start (encode fs))
