-- ===== src/KeyTransparency/Split.antt =====
-- The split point of the tree: the largest power of two below the size.
use construct_core.Prelude.{
  ℕ, zero, suc, ◌≤◌, ◌<◌, ◌-◌, ◌*◌, ◌/◌, ◌^◌, le→ltb, ◌≡◌, refl, ap, ◌∙◌, arith,
}
use native.Mathlib.Nat.{pow-suc, one-le-pow}
use construct_core.KeyTransparency.{bit_length, leading_zeros, split}

bit_length-zero : (width : ℕ) → bit_length width 0 ≡ 0
unfolding bit_length
bit_length-zero zero = refl
bit_length-zero (suc width) = refl

bit_length-suc : (width n : ℕ) → 0 < n → bit_length (suc width) n ≡ suc (bit_length width (n / 2))
unfolding bit_length
bit_length-suc width n h = ground arith

pub bit_length_bounds :
    (width n : ℕ)
    → n < 2 ^ width
    → 0 < n
    → (b : ℕ) × (bit_length width n ≡ suc b) × (b < width) × (2 ^ b ≤ n) × (n < 2 ^ suc b)
unfolding bit_length
bit_length_bounds zero n h k = absurd (omega arith)
bit_length_bounds (suc width) zero h k = elim k [ ]
bit_length_bounds (suc width) (suc zero) h k =
    (0, ap suc (bit_length-zero width), omega arith, omega arith, omega arith)
bit_length_bounds (suc width) (suc (suc n)) h k =
    let (b, e, lt, low, high) =
      bit_length_bounds width (suc (suc n) / 2) (omega (arith, pow-suc 2 width)) (omega arith) in
    (
      suc b,
      bit_length-suc width (suc (suc n)) (omega arith) ∙ ap suc e,
      omega arith,
      omega (arith, pow-suc 2 b),
      omega (arith, pow-suc 2 (suc b)),
    )

-- For every size from 2 up to 2 ^ 64, `split` is a power of two below the size, and at least half
-- of it; its exponent fits the word.
pub split_bounds :
    (n : ℕ)
    → 2 ≤ n
    → n ≤ 2 ^ 64
    → (d : ℕ) × (split n ≡ 2 ^ d) × (d < 64) × (2 ^ d < n) × (n ≤ 2 * 2 ^ d)
unfolding split leading_zeros
split_bounds n h k =
    let (b, e, lt, low, high) = bit_length_bounds 64 (n - 1) (omega arith) (omega arith) in
    let exponent : 64 - 1 - (64 - bit_length 64 (n - 1)) ≡ b = omega arith in
    (b, rw (le→ltb n 2 h) (ap (λ t. 2 ^ t) exponent), lt, omega arith, omega (arith, pow-suc 2 b))

-- The two sides of a split are not empty, and shorter than the whole.
pub split_sides : (n : ℕ) → 2 ≤ n → n ≤ 2 ^ 64 → (0 < split n) × (split n < n)
split_sides n h k =
    let (d, e, lt, low, high) = split_bounds n h k in omega (arith, one-le-pow d 2 (omega arith))
