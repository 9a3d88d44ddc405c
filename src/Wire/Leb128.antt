-- ===== src/Wire/Leb128.antt =====
-- `write_leb128` and `read_leb128` of src/wire_payload.rs.
pub mod RoundTrip
pub mod Canonical
use construct_core.Prelude.{
  ℕ, zero, suc, ◌+◌, ◌*◌, ◌/◌, ◌%◌, ◌^◌, bit_and, bit_or, ltb, ◌==◌, if◌then◌else◌, ◌&&◌, none,
  some, List, [], ◌∷◌, length, get_elem?, Result, ok, err,
}
use construct_core.Wire.{WirePayloadError, too_short, non_canonical_key_index}

-- The loop of the writer. A `u32` has five groups of seven bits at most, so five rounds are enough.
unfoldable pub write_leb128_loop : ℕ → ℕ → List ℕ
write_leb128_loop zero value = []
write_leb128_loop (suc rounds) value =
    let byte = bit_and value 0x7f in
    let rest = write_leb128_loop rounds (value / 2 ^ 7) in
    if value / 2 ^ 7 == 0 then byte ∷ [] else bit_or byte 0x80 ∷ rest

-- What it pushes onto the buffer.
unfoldable pub write_leb128 : ℕ → List ℕ
write_leb128 value = write_leb128_loop 5 value

-- Round `i` of the reader, with `byte` at hand; `rest` is the next round, from the new value.
unfoldable pub read_leb128_byte :
    ℕ → ℕ → ℕ → ℕ → (ℕ → Result WirePayloadError (ℕ × ℕ)) → Result WirePayloadError (ℕ × ℕ)
read_leb128_byte i value cursor byte rest =
    let group = bit_and byte 0x7f in
    let value' = bit_or value (group * 2 ^ (7 * i) % 2 ^ 32) in
    if i == 4 && ltb 0x0f group
    then err non_canonical_key_index
    else if bit_and byte 0x80 == 0
    then (if ltb 0 i && byte == 0
        then err non_canonical_key_index
        else ok (value', cursor + (i + 1)))
    else rest value'

-- `for i in 0..5`, with the rounds that are left; it returns the value and the cursor behind it.
unfoldable pub read_leb128_loop : ℕ → ℕ → ℕ → List ℕ → ℕ → Result WirePayloadError (ℕ × ℕ)
read_leb128_loop zero i value bytes cursor = err non_canonical_key_index
read_leb128_loop (suc rounds) i value bytes cursor = elim (get_elem? bytes (cursor + i)) [
  | none ↦ err (too_short (length bytes))
  | some byte ↦
      read_leb128_byte i value cursor byte
        λ value'. read_leb128_loop rounds (i + 1) value' bytes cursor
]

unfoldable pub read_leb128 : List ℕ → ℕ → Result WirePayloadError (ℕ × ℕ)
read_leb128 bytes cursor = read_leb128_loop 5 0 0 bytes cursor
