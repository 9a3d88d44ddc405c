-- ===== src/Wire/Leb128/Canonical.antt =====
-- `read_leb128` accepts the writer's bytes and no others.
use construct_core.Prelude.{
  subst, ℕ, zero, suc, ◌≤◌, ◌<◌, ◌+◌, ◌*◌, ◌/◌, ◌%◌, ◌^◌, bit_or, Option-cases, ◌≡◌, refl, ap, ap₂,
  ◌∙◌, ◌⊎◌, inl, inr, some, List, [], ◌∷◌, ◌++◌, arith, length, get_elem?, drop, All, IsByte,
  Result, ok,
}
use mathlib.Core.Option.{some-injective}
use native.Mathlib.Nat.{mod-eq_of_lt}
use construct_core.Prelude.Bits.{bit_and-byte_top}
use construct_core.Prelude.Words.{bit_and-low_seven, bit_or-shifted}
use construct_core.Wire.{WirePayloadError}
use construct_core.Wire.Leb128.{
  write_leb128_loop, write_leb128, read_leb128_byte, read_leb128_loop, read_leb128,
}
use construct_core.Wire.Leb128.RoundTrip.{
  write_leb128_loop-last, write_leb128_loop-more, next_place,
}

-- A group of an accepted byte fits the word.
place_bound : (i g : ℕ) → i ≤ 4 → g < 128 → (i ≡ 4 → g ≤ 15) → g * 2 ^ (7 * i) < 2 ^ 32
place_bound zero g h k top = omega arith
place_bound (suc zero) g h k top = omega arith
place_bound (suc (suc zero)) g h k top = omega arith
place_bound (suc (suc (suc zero))) g h k top = omega arith
place_bound (suc (suc (suc (suc zero)))) g h k top = omega (arith, top refl)
place_bound (suc (suc (suc (suc (suc i))))) g h k top = absurd (omega arith)

place_join :
    (i g w : ℕ)
    → i ≤ 4
    → g < 128
    → (i ≡ 4 → g ≤ 15)
    → w * 2 ^ (7 * (i + 1)) < 2 ^ 32
    → (g + 128 * w) * 2 ^ (7 * i) < 2 ^ 32
place_join zero g w h k top m = omega arith
place_join (suc zero) g w h k top m = omega arith
place_join (suc (suc zero)) g w h k top m = omega arith
place_join (suc (suc (suc zero))) g w h k top m = omega arith
place_join (suc (suc (suc (suc zero)))) g w h k top m = omega (arith, top refl)
place_join (suc (suc (suc (suc (suc i))))) g w h k top m = absurd (omega arith)

-- What an accepted byte was: the last one, or one that is followed by more.
module _ (i value cursor byte v end : ℕ) (rest : ℕ → Result WirePayloadError (ℕ × ℕ))
    (is_byte : byte < 256) (read : read_leb128_byte i value cursor byte rest ≡ ok (v, end)) where
  accepted_byte :
      (i ≡ 4 → byte % 128 ≤ 15)
      × (((byte < 128)
            × (0 < i → 0 < byte)
            × (end ≡ cursor + (i + 1))
            × (v ≡ bit_or value (byte % 128 * 2 ^ (7 * i) % 2 ^ 32)))
          ⊎ ((128 ≤ byte)
              × (rest (bit_or value (byte % 128 * 2 ^ (7 * i) % 2 ^ 32)) ≡ ok (v, end))))
  unfolding read_leb128_byte
  accepted_byte = ground (arith, bit_and-low_seven byte, bit_and-byte_top byte)

group_room : (value g p : ℕ) → value < p → g < 128 → value + g * p < 128 * p
group_room value g p h k = grind arith

-- A read from round `i` on took the writer's bytes for some number `w`, which it put onto `value`.
abbrev Took : (rounds i value cursor v end : ℕ) (bytes : List ℕ) → Type 0
Took rounds i value cursor v end bytes =
    (w : ℕ) × (v ≡ value + w * 2 ^ (7 * i))
    × (w * 2 ^ (7 * i) < 2 ^ 32)
    × (0 < i → 0 < w)
    × (end ≡ cursor + i + length (write_leb128_loop rounds w))
    × (drop (cursor + i) bytes ≡ write_leb128_loop rounds w ++ drop end bytes)

read_leb128_loop-some :
    (rounds i value cursor v end : ℕ) (bytes : List ℕ)
    → read_leb128_loop (suc rounds) i value bytes cursor ≡ ok (v, end)
    → (byte : ℕ) × (get_elem? bytes (cursor + i) ≡ some byte)
      × (read_leb128_byte i value cursor byte
            (λ value'. read_leb128_loop rounds (i + 1) value' bytes cursor)
          ≡ ok (v, end))
unfolding read_leb128_loop
read_leb128_loop-some rounds i value cursor v end bytes h =
    elim (Option-cases (get_elem? bytes (cursor + i))) [
      | inl e ↦ let bad = rw (e, read_leb128_loop) at h in cc
      | inr (byte, e) ↦ (byte, e, rw (e, read_leb128_loop) at h)
    ]

pub drop-get_elem? :
    (n b : ℕ) (xs : List ℕ) → get_elem? xs n ≡ some b → drop n xs ≡ b ∷ drop (suc n) xs
drop-get_elem? n b [] h = cc
drop-get_elem? zero b (x ∷ xs) h = ground arith
drop-get_elem? (suc n) b (x ∷ xs) h = drop-get_elem? n b xs h

pub All-get_elem? :
    (P : ℕ → Type 0) (n b : ℕ) (xs : List ℕ) → All P xs → get_elem? xs n ≡ some b → P b
All-get_elem? P n b [] a h = cc
All-get_elem? P zero b (x ∷ xs) (p, a) h = subst P (some-injective x b h) p
All-get_elem? P (suc n) b (x ∷ xs) (p, a) h = All-get_elem? P n b xs a h

read_leb128_loop-Took :
    (rounds i value cursor v end : ℕ) (bytes : List ℕ)
    → i + rounds ≡ 5
    → value < 2 ^ (7 * i)
    → All IsByte bytes
    → read_leb128_loop rounds i value bytes cursor ≡ ok (v, end)
    → Took rounds i value cursor v end bytes
read_leb128_loop-Took zero i value cursor v end bytes count fits all h =
    unfold read_leb128_loop in cc
read_leb128_loop-Took (suc rounds) i value cursor v end bytes count fits all h =
    let (byte, found, read) = read_leb128_loop-some rounds i value cursor v end bytes h in
    let small : byte < 256 = All-get_elem? IsByte (cursor + i) byte bytes all found in
    let (top, kind) = accepted_byte i value cursor byte v end _ small read in
    let g = byte % 128 in
    let p = 2 ^ (7 * i) in
    let word = place_bound i g (omega arith) (omega arith) top in
    let joined : bit_or value (g * p % 2 ^ 32) ≡ value + g * p =
      ap (bit_or value) (mod-eq_of_lt word) ∙ bit_or-shifted (7 * i) value g fits in
    let here = drop-get_elem? (cursor + i) byte bytes found in
    elim kind [
      | inl (low, pos, stop, sum) ↦
          let e = write_leb128_loop-last rounds byte low in
          let same : g ≡ byte = omega arith in
          let after : suc (cursor + i) ≡ end = omega arith in
          (
            byte,
            sum ∙ joined ∙ ap (λ t. value + t * p) same,
            subst (λ t. t * p < 2 ^ 32) same word,
            pos,
            omega (arith, ap length e),
            rw e (here ∙ ap (λ k. byte ∷ drop k bytes) after),
          )
      | inr (high, rest) ↦
          let (w, sum, fits', pos, stop, took) =
            read_leb128_loop-Took rounds (i + 1) (value + g * p) cursor v end bytes (omega arith)
              (omega (arith, next_place i, group_room value g p fits (omega arith))) all
              (rw joined at rest) in
          let pos' = pos (omega arith) in
          let e = write_leb128_loop-more rounds (g + 128 * w) (omega arith) in
          let low_eq : (g + 128 * w) % 128 + 128 ≡ byte = omega arith in
          let high_eq : (g + 128 * w) / 128 ≡ w = omega arith in
          let after : suc (cursor + i) ≡ cursor + (i + 1) = omega arith in
          let e' = e ∙ ap₂ (λ b t. b ∷ write_leb128_loop rounds t) low_eq high_eq in
          (
            g + 128 * w,
            omega (arith, sum, ap (λ (t : ℕ). w * t) (next_place i)),
            place_join i g w (omega arith) (omega arith) top fits',
            λ _. omega arith,
            omega (arith, ap length e'),
            rw e' (here ∙ ap (◌∷◌ byte) (ap (λ k. drop k bytes) after ∙ took)),
          )
    ]

-- Over bytes, an accepted number is a `u32`, and the bytes that were read are exactly those that
-- the writer puts for it: no second encoding of a number is accepted.
pub read_leb128_canonical :
    (bytes : List ℕ) (cursor v end : ℕ)
    → All IsByte bytes
    → read_leb128 bytes cursor ≡ ok (v, end)
    → (v < 2 ^ 32)
      × (end ≡ cursor + length (write_leb128 v))
      × (drop cursor bytes ≡ write_leb128 v ++ drop end bytes)
unfolding read_leb128 write_leb128
read_leb128_canonical bytes cursor v end all h =
    let (w, sum, fits, pos, stop, took) =
      read_leb128_loop-Took 5 0 0 cursor v end bytes refl (omega arith) all h in
    let same : w ≡ v = omega arith in
    let start : cursor ≡ cursor + 0 = omega arith in
    (
      omega arith,
      omega (arith, ap (λ t. length (write_leb128_loop 5 t)) same),
      ap (λ k. drop k bytes) start ∙ took ∙ ap (λ t. write_leb128_loop 5 t ++ drop end bytes) same,
    )
