-- ===== src/Prelude/Words.antt =====
-- Bit operations on words of any width, as arithmetic.
use Prim.Native.Nat.{
  ℕ, zero, suc, ◌+◌, ◌-◌, ◌*◌, ◌/◌, ◌%◌, ◌^◌, ◌≤◌, ◌<◌, min, max, bit_and, bit_or, digits,
  bit_and-bitwise, bit_or-bitwise,
}
use mathlib.Core.Path.{◌≡◌, refl, sym, ap, ap₂, ◌∙◌}
use native.Mathlib.Nat.{pow-suc, pow-succ', le_refl, div-div-eq-div-mul, mul_assoc}
use native.Mathlib.Omega.{arith}

-- Spare rounds of the digit recursion change nothing.
module _ (tail : ℕ → ℕ) (op : ℕ → ℕ → ℕ) where
  digits_spare : (k a b : ℕ) → a ≤ k → digits tail op (suc k) a b ≡ digits tail op k a b
  digits_spare zero zero b h = refl
  digits_spare zero (suc a) b h = absurd (omega arith)
  digits_spare (suc k) zero b h = refl
  digits_spare (suc k) (suc a) b h =
      ap (λ t. t * 2 + op (suc a % 2) (b % 2)) (digits_spare k (suc a / 2) (b / 2) (omega arith))

  digits_enough : (k d a b : ℕ) → a ≤ k → digits tail op (k + d) a b ≡ digits tail op k a b
  digits_enough k zero a b h = ap (λ n. digits tail op n a b) (omega arith)
  digits_enough k (suc d) a b h =
      let e : k + suc d ≡ suc (k + d) = omega arith in
      ap (λ n. digits tail op n a b) e
      ∙ digits_spare (k + d) a b (omega arith)
      ∙ digits_enough k d a b h

  digits_halve :
      (a b : ℕ)
      → digits tail op (suc a) (suc a) b
        ≡ digits tail op (suc a / 2) (suc a / 2) (b / 2) * 2 + op (suc a % 2) (b % 2)
  digits_halve a b =
      let half = suc a / 2 in
      let e : a ≡ half + (a - half) = omega arith in
      ap (λ t. t * 2 + op (suc a % 2) (b % 2))
        (ap (λ n. digits tail op n half (b / 2)) e
          ∙ digits_enough half (a - half) half (b / 2) (omega arith))

pub bit_or-halve : (a b : ℕ) → bit_or a b ≡ bit_or (a / 2) (b / 2) * 2 + max (a % 2) (b % 2)
bit_or-halve zero b = omega (arith, bit_or-bitwise 0 b, bit_or-bitwise 0 (b / 2))
bit_or-halve (suc a) b =
    bit_or-bitwise (suc a) b
    ∙ digits_halve (λ y. y) max a b
    ∙ ap (λ t. t * 2 + max (suc a % 2) (b % 2)) (sym (bit_or-bitwise (suc a / 2) (b / 2)))

pub bit_and-halve : (a b : ℕ) → bit_and a b ≡ bit_and (a / 2) (b / 2) * 2 + min (a % 2) (b % 2)
bit_and-halve zero b = omega (arith, bit_and-bitwise 0 b, bit_and-bitwise 0 (b / 2))
bit_and-halve (suc a) b =
    bit_and-bitwise (suc a) b
    ∙ digits_halve (λ y. 0) min a b
    ∙ ap (λ t. t * 2 + min (suc a % 2) (b % 2)) (sym (bit_and-bitwise (suc a / 2) (b / 2)))

-- A field shifted past the other's width is joined to it by `|` as by `+`.
pub bit_or-shifted : (s v g : ℕ) → v < 2 ^ s → bit_or v (g * 2 ^ s) ≡ v + g * 2 ^ s
bit_or-shifted zero zero g h = omega (arith, bit_or-bitwise 0 (g * 2 ^ 0))
bit_or-shifted zero (suc v) g h = absurd (omega arith)
bit_or-shifted (suc s) v g h =
    let e : g * 2 ^ suc s ≡ 2 * (g * 2 ^ s) = omega (arith, ap (λ (t : ℕ). g * t) (pow-suc 2 s)) in
    omega (
      arith,
      e,
      bit_or-halve v (g * 2 ^ suc s),
      ap (λ (t : ℕ). bit_or (v / 2) t) (halves g s e),
      bit_or-shifted s (v / 2) g (omega (arith, pow-suc 2 s)),
    )
  where
    halves : (g s : ℕ) → g * 2 ^ suc s ≡ 2 * (g * 2 ^ s) → g * 2 ^ suc s / 2 ≡ g * 2 ^ s
    halves g s e = omega (arith, e)

bit_and-zero : (k a : ℕ) → a ≤ k → bit_and a 0 ≡ 0
bit_and-zero k zero h = bit_and-bitwise 0 0
bit_and-zero zero (suc a) h = absurd (omega arith)
bit_and-zero (suc k) (suc a) h =
    omega (arith, bit_and-halve (suc a) 0, bit_and-zero k (suc a / 2) (omega arith))

-- A mask of low bits, one bit wider.
bit_and-mask :
    (m n x : ℕ)
    → bit_and (x / 2) m ≡ x / 2 % n
    → 0 < n
    → bit_and x (2 * m + 1) ≡ x % 2 + x / 2 % n * 2
bit_and-mask m n x h pos =
    let half : (2 * m + 1) / 2 ≡ m = omega arith in
    let odd : (2 * m + 1) % 2 ≡ 1 = omega arith in
    bit_and-halve x (2 * m + 1)
    ∙ ap₂ (λ a b. bit_and (x / 2) a * 2 + min (x % 2) b) half odd
    ∙ omega (arith, h)

mask_one : (x : ℕ) → bit_and x 1 ≡ x % 2
mask_one x =
    bit_and-mask 0 1 x (bit_and-zero _ (x / 2) (le_refl _) ∙ omega arith) (omega arith)
    ∙ omega arith

mask_two : (x : ℕ) → bit_and x 3 ≡ x % 4
mask_two x = bit_and-mask 1 2 x (mask_one (x / 2)) (omega arith) ∙ omega arith

pub mask_three : (x : ℕ) → bit_and x 7 ≡ x % 8
mask_three x = bit_and-mask 3 4 x (mask_two (x / 2)) (omega arith) ∙ omega arith

mask_four : (x : ℕ) → bit_and x 15 ≡ x % 16
mask_four x = bit_and-mask 7 8 x (mask_three (x / 2)) (omega arith) ∙ omega arith

mask_five : (x : ℕ) → bit_and x 31 ≡ x % 32
mask_five x = bit_and-mask 15 16 x (mask_four (x / 2)) (omega arith) ∙ omega arith

mask_six : (x : ℕ) → bit_and x 63 ≡ x % 64
mask_six x = bit_and-mask 31 32 x (mask_five (x / 2)) (omega arith) ∙ omega arith

-- `x & 0x7f`.
pub bit_and-low_seven : (x : ℕ) → bit_and x 0x7f ≡ x % 128
bit_and-low_seven x = bit_and-mask 63 64 x (mask_six (x / 2)) (omega arith) ∙ omega arith

pub pow_pos : (j : ℕ) → 0 < 2 ^ j
pow_pos zero = omega arith
pow_pos (suc j) = omega (arith, pow-suc 2 j, pow_pos j)

bit_and-double : (m x : ℕ) → bit_and x (2 * m) ≡ bit_and (x / 2) m * 2
bit_and-double m x =
    let half : 2 * m / 2 ≡ m = omega arith in
    let even : 2 * m % 2 ≡ 0 = omega arith in
    bit_and-halve x (2 * m)
    ∙ ap₂ (λ a b. bit_and (x / 2) a * 2 + min (x % 2) b) half even
    ∙ omega arith

bit_and-all : (j y : ℕ) → y < 2 ^ j → bit_and y (2 ^ j - 1) ≡ y
bit_and-all zero y h =
    let e : y ≡ 0 = omega arith in ap (λ a. bit_and a (2 ^ 0 - 1)) e ∙ bit_and-bitwise 0 0 ∙ sym e
bit_and-all (suc j) y h =
    let m = 2 ^ j - 1 in
    let pos : 0 < 2 ^ j = pow_pos j in
    let e : 2 ^ suc j - 1 ≡ 2 * m + 1 = omega (arith, pow-suc 2 j) in
    let half : (2 * m + 1) / 2 ≡ m = omega arith in
    let odd : (2 * m + 1) % 2 ≡ 1 = omega arith in
    ap (bit_and y) e
    ∙ bit_and-halve y (2 * m + 1)
    ∙ ap₂ (λ a b. bit_and (y / 2) a * 2 + min (y % 2) b) half odd
    ∙ omega (arith, bit_and-all j (y / 2) (omega (arith, pow-suc 2 j)))

-- `x & !(2^k - 1)`: the low `k` bits of a word of `k + j` bits are cleared.
pub bit_and-clear :
    (k j x : ℕ) → x < 2 ^ (k + j) → bit_and x (2 ^ (k + j) - 2 ^ k) ≡ x / 2 ^ k * 2 ^ k
bit_and-clear zero j x h =
    let e : 2 ^ (0 + j) - 2 ^ 0 ≡ 2 ^ j - 1 = ap (λ n. 2 ^ n - 1) (omega arith) in
    ap (bit_and x) e ∙ bit_and-all j x (omega (arith, h, ap (λ n. 2 ^ n) (shift j))) ∙ omega arith
  where
    shift : (j : ℕ) → 0 + j ≡ j
    shift j = omega arith
bit_and-clear (suc k) j x h =
    let w : suc k + j ≡ suc (k + j) = omega arith in
    let top : 2 ^ (suc k + j) ≡ 2 ^ (k + j) * 2 = ap (λ n. 2 ^ n) w ∙ pow-suc 2 (k + j) in
    let m = 2 ^ (k + j) - 2 ^ k in
    let e : 2 ^ (suc k + j) - 2 ^ suc k ≡ 2 * m = omega (arith, top, pow-suc 2 k) in
    let quotient : x / 2 / 2 ^ k ≡ x / 2 ^ suc k =
      div-div-eq-div-mul x 2 (2 ^ k) ∙ ap (λ n. x / n) (sym (pow-succ' 2 k)) in
    let regroup : x / 2 ^ suc k * 2 ^ k * 2 ≡ x / 2 ^ suc k * 2 ^ suc k =
      mul_assoc (x / 2 ^ suc k) (2 ^ k) 2 ∙ ap (λ (t : ℕ). x / 2 ^ suc k * t) (sym (pow-suc 2 k)) in
    ap (bit_and x) e
    ∙ bit_and-double m x
    ∙ ap (λ (t : ℕ). t * 2)
        (bit_and-clear k j (x / 2) (omega (arith, top)) ∙ ap (λ (t : ℕ). t * 2 ^ k) quotient)
    ∙ regroup
