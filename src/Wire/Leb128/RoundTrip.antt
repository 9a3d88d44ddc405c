-- ===== src/Wire/Leb128/RoundTrip.antt =====
-- `read_leb128` reads back what `write_leb128` wrote.
use construct_core.Prelude.{
  subst, dec_lt, ℕ, zero, suc, ◌≤◌, ◌<◌, ◌+◌, ◌*◌, ◌/◌, ◌%◌, ◌^◌, bit_or, ◌≡◌, refl, ap, ap₂, ◌∙◌,
  ◌≢◌, some, List, [], ◌∷◌, ◌++◌, arith, length, get_elem?, At, At-advance, At-get, Result, ok,
}
use native.Mathlib.Numerals.{towards_suc}
use native.Mathlib.Nat.{div-add-mod, mod-eq_of_lt}
use construct_core.Prelude.Bits.{bit_or-byte_top, bit_and-byte_top}
use construct_core.Prelude.Words.{bit_and-low_seven, bit_or-shifted}
use construct_core.Wire.Leb128.{
  WirePayloadError, write_leb128_loop, write_leb128, read_leb128_byte, read_leb128_loop,
  read_leb128,
}

-- One round of the writer, in plain arithmetic.
pub write_leb128_loop-last : (rounds v : ℕ) → v < 128 → write_leb128_loop (suc rounds) v ≡ v ∷ []
unfolding write_leb128_loop
write_leb128_loop-last rounds v h =
    let e : v / 128 ≡ 0 = omega arith in ground (arith, bit_and-low_seven v, e)

pub write_leb128_loop-more :
    (rounds v : ℕ)
    → 128 ≤ v
    → write_leb128_loop (suc rounds) v ≡ (v % 128 + 128) ∷ write_leb128_loop rounds (v / 128)
unfolding write_leb128_loop
write_leb128_loop-more rounds v h =
    let e : v / 128 ≢ 0 = omega arith in
    ground (arith, bit_and-low_seven v, e, bit_or-byte_top (v % 128))

-- Round `i` of the reader at a last byte, and at a byte that is followed by more.
module _ (i value cursor : ℕ) (rest : ℕ → Result WirePayloadError (ℕ × ℕ))
    (fits : value < 2 ^ (7 * i)) where
  pub read_leb128_byte-last :
      (v : ℕ)
      → v < 128
      → v * 2 ^ (7 * i) < 2 ^ 32
      → (i ≡ 4 → v ≤ 15)
      → (0 < i → 0 < v)
      → read_leb128_byte i value cursor v rest ≡ ok (value + v * 2 ^ (7 * i), cursor + (i + 1))
  unfolding read_leb128_byte
  read_leb128_byte-last v small word top pos =
      let p = 2 ^ (7 * i) in
      let joined : bit_or value (v * p % 2 ^ 32) ≡ value + v * p =
        ap (bit_or value) (mod-eq_of_lt word) ∙ bit_or-shifted (7 * i) value v fits in
      let e : v % 128 ≡ v = omega arith in
      ground (arith, bit_and-low_seven v, e, bit_and-byte_top v, joined)

  pub read_leb128_byte-more :
      (g : ℕ)
      → g < 128
      → g * 2 ^ (7 * i) < 2 ^ 32
      → (i ≡ 4 → g ≤ 15)
      → read_leb128_byte i value cursor (g + 128) rest ≡ rest (value + g * 2 ^ (7 * i))
  unfolding read_leb128_byte
  read_leb128_byte-more g small word top =
      let p = 2 ^ (7 * i) in
      let joined : bit_or value (g * p % 2 ^ 32) ≡ value + g * p =
        ap (bit_or value) (mod-eq_of_lt word) ∙ bit_or-shifted (7 * i) value g fits in
      let e : (g + 128) % 128 ≡ g = omega arith in
      ground (arith, bit_and-low_seven (g + 128), e, bit_and-byte_top (g + 128), joined)

read_leb128_loop-at :
    (rounds i value cursor byte : ℕ) (bytes : List ℕ)
    → get_elem? bytes (cursor + i) ≡ some byte
    → read_leb128_loop (suc rounds) i value bytes cursor
      ≡ read_leb128_byte i value cursor byte
          (λ value'. read_leb128_loop rounds (i + 1) value' bytes cursor)
unfolding read_leb128_loop
read_leb128_loop-at rounds i value cursor byte bytes h = rw (h, read_leb128_loop)

-- The place value of the next group, and the number split at it.
pub next_place : (i : ℕ) → 2 ^ (7 * (i + 1)) ≡ 128 * 2 ^ (7 * i)
next_place i =
    let e : 7 * (i + 1) ≡ 7 * i + 7 = omega arith in
    ap (λ k. 2 ^ k) e ∙ simp towards_suc (omega arith)

pub split_group : (v p : ℕ) → v * p ≡ v % 128 * p + v / 128 * (128 * p)
split_group v p = omega (arith, ap (λ (t : ℕ). t * p) (div-add-mod v 128))

group_bounds :
    (value g v p : ℕ)
    → value < p
    → g < 128
    → v * p < 2 ^ 32
    → g ≤ v
    → (value + g * p < 128 * p) × (g * p < 2 ^ 32)
group_bounds value g v p h k l m = grind arith

-- `w` groups that begin at round `i` are read onto what is there.
read-write_loop :
    (rounds i value cursor v : ℕ) (bytes rest : List ℕ)
    → i + rounds ≡ 5
    → value < 2 ^ (7 * i)
    → v * 2 ^ (7 * i) < 2 ^ 32
    → (0 < i → 0 < v)
    → At bytes (cursor + i) (write_leb128_loop rounds v ++ rest)
    → read_leb128_loop rounds i value bytes cursor
      ≡ ok (value + v * 2 ^ (7 * i), cursor + i + length (write_leb128_loop rounds v))
read-write_loop zero i value cursor v bytes rest count fits word pos a =
    let e : i ≡ 5 = omega arith in
    absurd (omega (arith, pos (omega arith), ap (λ (t : ℕ). v * 2 ^ (7 * t)) e))
read-write_loop (suc rounds) i value cursor v bytes rest count fits word pos a =
    elim (dec_lt v 128) [
      | yes small ↦
          let e = write_leb128_loop-last rounds v small in
          let top : i ≡ 4 → v ≤ 15 = λ j. omega (arith, ap (λ (t : ℕ). v * 2 ^ (7 * t)) j) in
          read_leb128_loop-at rounds i value cursor v bytes (At-get (rw e at a))
          ∙ read_leb128_byte-last i value cursor _ fits v small word top pos
          ∙ ap (λ k. ok (value + v * 2 ^ (7 * i), k)) (omega (arith, ap length e))
      | no big ↦
          let g = v % 128 in
          let p = 2 ^ (7 * i) in
          let e = write_leb128_loop-more rounds v (omega arith) in
          let bounds = group_bounds value g v p fits (omega arith) word (omega arith) in
          let top : i ≡ 4 → g ≤ 15 =
            λ j. omega (arith, ap (λ (t : ℕ). g * 2 ^ (7 * t)) j, bounds.1) in
          let here = rw e at a in
          let moved = At-advance 1 ((g + 128) ∷ []) _ here refl in
          let place = ap (λ (t : ℕ). v / 128 * t) (next_place i) in
          let there : cursor + i + 1 ≡ cursor + (i + 1) = omega arith in
          read_leb128_loop-at rounds i value cursor (g + 128) bytes (At-get here)
          ∙ read_leb128_byte-more i value cursor _ fits g (omega arith) bounds.1 top
          ∙ read-write_loop rounds (i + 1) (value + g * p) cursor (v / 128) bytes rest (omega arith)
              (omega (arith, next_place i, bounds.0)) (omega (arith, place, split_group v p))
              (λ _. omega arith)
              (subst (λ k. At bytes k (write_leb128_loop rounds (v / 128) ++ rest)) there moved)
          ∙ ap₂ (λ m k. ok (m, k)) (omega (arith, split_group v p, place))
              (omega (arith, ap length e))
    ]

-- Every `u32` that the writer put before any other bytes is read back, and the cursor then stands
-- behind what was written.
pub read_leb128-write_leb128 :
    (v cursor : ℕ) (bytes rest : List ℕ)
    → v < 2 ^ 32
    → At bytes cursor (write_leb128 v ++ rest)
    → read_leb128 bytes cursor ≡ ok (v, cursor + length (write_leb128 v))
unfolding read_leb128 write_leb128
read_leb128-write_leb128 v cursor bytes rest h a =
    let e : cursor ≡ cursor + 0 = omega arith in
    read-write_loop 5 0 0 cursor v bytes rest refl (omega arith) (omega arith)
      (λ z. absurd (omega arith)) (subst (λ k. At bytes k (write_leb128_loop 5 v ++ rest)) e a)
    ∙ ap₂ (λ m k. ok (m, k)) (omega arith) (omega arith)
