-- ===== src/History/Wire/RoundTrip.antt =====
-- `read_varint` of src/history/wire.rs reads back what `write_varint` wrote.
use construct_core.Prelude.{
  subst, dec_lt, ℕ, zero, suc, ◌≤◌, ◌<◌, ◌+◌, ◌*◌, ◌/◌, ◌%◌, ◌^◌, bit_or, le→leb, ◌≡◌, refl, ap,
  ap₂, ◌∙◌, Option, some, List, [], ◌∷◌, ◌++◌, arith, length, get_elem?, At, At-advance, At-get,
  Result, ok,
}
use native.Mathlib.Nat.{mod-eq_of_lt}
use construct_core.Prelude.Bits.{bit_or-byte_set, bit_and-byte_top}
use construct_core.Prelude.Words.{bit_and-low_seven, bit_or-shifted}
use construct_core.Wire.Leb128.RoundTrip.{next_place, split_group}
use construct_core.History.{HistoryFailure}
use construct_core.History.Wire.{
  read_varint_byte, read_varint_loop, read_varint, write_varint_loop, write_varint,
}

-- One round of the writer, in plain arithmetic.
pub write_varint_loop-last : (rounds v : ℕ) → v < 128 → write_varint_loop rounds v ≡ v ∷ []
unfolding write_varint_loop
write_varint_loop-last zero v h = let e : v % 256 ≡ v = omega arith in ap (λ (b : ℕ). b ∷ []) e
write_varint_loop-last (suc rounds) v h = let e : v % 256 ≡ v = omega arith in ground (arith, e)

continued : (v : ℕ) → bit_or (v % 256) 0x80 ≡ v % 128 + 128
continued v =
    let e : v % 256 % 128 ≡ v % 128 = omega arith in
    bit_or-byte_set (v % 256) (omega arith) ∙ ap (λ (t : ℕ). t + 128) e

pub write_varint_loop-more :
    (rounds v : ℕ)
    → 128 ≤ v
    → write_varint_loop (suc rounds) v ≡ (v % 128 + 128) ∷ write_varint_loop rounds (v / 128)
unfolding write_varint_loop
write_varint_loop-more rounds v h =
    rw (le→leb 128 v h) (ap (λ (b : ℕ). b ∷ write_varint_loop rounds (v / 128)) (continued v))

-- Round `i` of the reader at a last byte, and at a byte that is followed by more.
module _ (i value pos : ℕ) (rest : ℕ → Result HistoryFailure (Option (ℕ × ℕ)))
    (fits : value < 2 ^ (7 * i)) where
  read_varint_byte-last :
      (v : ℕ)
      → v < 128
      → v * 2 ^ (7 * i) < 2 ^ 64
      → (i ≡ 9 → v ≤ 1)
      → read_varint_byte i value pos v rest ≡ ok (some (value + v * 2 ^ (7 * i), pos + (i + 1)))
  unfolding read_varint_byte
  read_varint_byte-last v small word top =
      let p = 2 ^ (7 * i) in
      let joined : bit_or value (v * p % 2 ^ 64) ≡ value + v * p =
        ap (bit_or value) (mod-eq_of_lt word) ∙ bit_or-shifted (7 * i) value v fits in
      let e : v % 128 ≡ v = omega arith in
      ground (arith, bit_and-low_seven v, e, bit_and-byte_top v, joined)

  read_varint_byte-more :
      (g : ℕ)
      → g < 128
      → g * 2 ^ (7 * i) < 2 ^ 64
      → i < 9
      → read_varint_byte i value pos (g + 128) rest ≡ rest (value + g * 2 ^ (7 * i))
  unfolding read_varint_byte
  read_varint_byte-more g small word early =
      let p = 2 ^ (7 * i) in
      let joined : bit_or value (g * p % 2 ^ 64) ≡ value + g * p =
        ap (bit_or value) (mod-eq_of_lt word) ∙ bit_or-shifted (7 * i) value g fits in
      let e : (g + 128) % 128 ≡ g = omega arith in
      ground (arith, bit_and-low_seven (g + 128), e, bit_and-byte_top (g + 128), joined)

read_varint_loop-at :
    (rounds i value pos byte : ℕ) (buf : List ℕ)
    → get_elem? buf (pos + i) ≡ some byte
    → read_varint_loop (suc rounds) i value buf pos
      ≡ read_varint_byte i value pos byte (λ value'. read_varint_loop rounds (i + 1) value' buf pos)
unfolding read_varint_loop
read_varint_loop-at rounds i value pos byte buf h = rw (h, read_varint_loop)

group_bounds :
    (value g v p : ℕ)
    → value < p
    → g < 128
    → v * p < 2 ^ 64
    → g ≤ v
    → (value + g * p < 128 * p) × (g * p < 2 ^ 64)
group_bounds value g v p h k l m = grind arith

-- The last group, where it stands.
read-write_last :
    (rounds i value pos v : ℕ) (buf rest : List ℕ)
    → value < 2 ^ (7 * i)
    → v * 2 ^ (7 * i) < 2 ^ 64
    → v < 128
    → At buf (pos + i) (write_varint_loop rounds v ++ rest)
    → read_varint_loop (suc rounds) i value buf pos
      ≡ ok (some (value + v * 2 ^ (7 * i), pos + i + length (write_varint_loop rounds v)))
read-write_last rounds i value pos v buf rest fits word small a =
    let e = write_varint_loop-last rounds v small in
    let top : i ≡ 9 → v ≤ 1 = λ j. omega (arith, ap (λ (t : ℕ). v * 2 ^ (7 * t)) j) in
    read_varint_loop-at rounds i value pos v buf (At-get (rw e at a))
    ∙ read_varint_byte-last i value pos _ fits v small word top
    ∙ ap (λ k. ok (some (value + v * 2 ^ (7 * i), k))) (omega (arith, ap length e))

-- The groups that begin at round `i` are read onto what is there.
read-write_loop :
    (rounds i value pos v : ℕ) (buf rest : List ℕ)
    → i + rounds ≡ 9
    → value < 2 ^ (7 * i)
    → v * 2 ^ (7 * i) < 2 ^ 64
    → At buf (pos + i) (write_varint_loop rounds v ++ rest)
    → read_varint_loop (suc rounds) i value buf pos
      ≡ ok (some (value + v * 2 ^ (7 * i), pos + i + length (write_varint_loop rounds v)))
read-write_loop zero i value pos v buf rest count fits word a =
    let e : i ≡ 9 = omega arith in
    let small : v < 128 = omega (arith, ap (λ (t : ℕ). v * 2 ^ (7 * t)) e) in
    read-write_last zero i value pos v buf rest fits word small a
read-write_loop (suc rounds) i value pos v buf rest count fits word a = elim (dec_lt v 128) [
  | yes small ↦ read-write_last (suc rounds) i value pos v buf rest fits word small a
  | no big ↦
      let g = v % 128 in
      let p = 2 ^ (7 * i) in
      let e = write_varint_loop-more rounds v (omega arith) in
      let bounds = group_bounds value g v p fits (omega arith) word (omega arith) in
      let here = rw e at a in
      let moved = At-advance 1 ((g + 128) ∷ []) _ here refl in
      let place = ap (λ (t : ℕ). v / 128 * t) (next_place i) in
      let there : pos + i + 1 ≡ pos + (i + 1) = omega arith in
      read_varint_loop-at (suc rounds) i value pos (g + 128) buf (At-get here)
      ∙ read_varint_byte-more i value pos _ fits g (omega arith) bounds.1 (omega arith)
      ∙ read-write_loop rounds (i + 1) (value + g * p) pos (v / 128) buf rest (omega arith)
          (omega (arith, next_place i, bounds.0)) (omega (arith, place, split_group v p))
          (subst (λ k. At buf k (write_varint_loop rounds (v / 128) ++ rest)) there moved)
      ∙ ap₂ (λ m k. ok (some (m, k))) (omega (arith, split_group v p, place))
          (omega (arith, ap length e))
]

-- Every `u64` that the writer put before any other bytes is read back, and the position then stands
-- behind what was written.
pub read_varint-write_varint :
    (v pos : ℕ) (buf rest : List ℕ)
    → v < 2 ^ 64
    → At buf pos (write_varint v ++ rest)
    → read_varint buf pos ≡ ok (some (v, pos + length (write_varint v)))
unfolding read_varint write_varint
read_varint-write_varint v pos buf rest h a =
    let e : pos ≡ pos + 0 = omega arith in
    read-write_loop 9 0 0 pos v buf rest refl (omega arith) (omega arith)
      (subst (λ k. At buf k (write_varint_loop 9 v ++ rest)) e a)
    ∙ ap₂ (λ m k. ok (some (m, k))) (omega arith) (omega arith)
