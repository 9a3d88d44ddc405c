-- ===== src/Prelude/Bits.antt =====
-- Bit operations on one byte, from tables checked by evaluation.
use Prim.Native.Nat.{ℕ, ◌+◌, ◌*◌, ◌/◌, ◌%◌, ◌<◌, bit_and, bit_or, bit_xor}
use mathlib.Core.Path.{◌≡◌, refl, sym, ap₂, ◌∙◌}
use mathlib.Core.Bool.{Bool, true, not, ◌&&◌, ◌||◌}
use native.Mathlib.Omega.{arith}
use construct_core.Prelude.Tests.{ltb, ◌==◌, all_below, all_below_sound}

-- A table over two bytes, at the number `a * 256 + b`.
abbrev pair_test : (ℕ → ℕ → Bool) → ℕ → Bool
pair_test p n = p (n / 256) (n % 256)

pairs_sound :
    (p : ℕ → ℕ → Bool)
    → all_below 65536 (pair_test p) ≡ true
    → (a b : ℕ) → a < 256
    → b < 256
    → p a b ≡ true
pairs_sound p h a b ha hb =
    let low : (a * 256 + b) % 256 ≡ b = omega arith in
    let high : (a * 256 + b) / 256 ≡ a = omega arith in
    ap₂ p (sym high) (sym low) ∙ all_below_sound 65536 (pair_test p) (a * 256 + b) h (omega arith)

or_test : ℕ → ℕ → Bool
or_test a b = ltb (bit_or a b) 256 && (not (bit_or a b == 0) || (a == 0 && b == 0))

or_table : all_below 65536 (pair_test or_test) ≡ true
unfolding all_below or_test
or_table = refl

pub bit_or-IsByte : (a b : ℕ) → a < 256 → b < 256 → bit_or a b < 256
unfolding or_test
bit_or-IsByte a b ha hb = ground (arith, pairs_sound or_test or_table a b ha hb)

pub bit_or-eq_zero : (a b : ℕ) → a < 256 → b < 256 → bit_or a b ≡ 0 → (a ≡ 0) × (b ≡ 0)
unfolding or_test
bit_or-eq_zero a b ha hb h = ground (arith, pairs_sound or_test or_table a b ha hb)

xor_test : ℕ → ℕ → Bool
xor_test a b = ltb (bit_xor a b) 256 && (not (bit_xor a b == 0) || a == b)

xor_table : all_below 65536 (pair_test xor_test) ≡ true
unfolding all_below xor_test
xor_table = refl

pub bit_xor-IsByte : (a b : ℕ) → a < 256 → b < 256 → bit_xor a b < 256
unfolding xor_test
bit_xor-IsByte a b ha hb = ground (arith, pairs_sound xor_test xor_table a b ha hb)

pub bit_xor-eq_zero : (a b : ℕ) → a < 256 → b < 256 → bit_xor a b ≡ 0 → a ≡ b
unfolding xor_test
bit_xor-eq_zero a b ha hb h = ground (arith, pairs_sound xor_test xor_table a b ha hb)

self_table : all_below 256 (λ a. bit_xor a a == 0) ≡ true
unfolding all_below
self_table = refl

pub bit_xor_self : (a : ℕ) → a < 256 → bit_xor a a ≡ 0
bit_xor_self a h = ground (arith, all_below_sound 256 (λ a. bit_xor a a == 0) a self_table h)

-- The top bit of a byte.
top_test : ℕ → Bool
top_test b = (bit_and b 0x80 == b / 128 * 128) && bit_or (b % 128) 0x80 == b % 128 + 128

top_table : all_below 256 top_test ≡ true
unfolding all_below top_test
top_table = refl

pub bit_and-byte_top : (b : ℕ) → b < 256 → bit_and b 0x80 ≡ b / 128 * 128
unfolding top_test
bit_and-byte_top b h = ground (arith, all_below_sound 256 top_test b top_table h)

pub bit_or-byte_top : (g : ℕ) → g < 128 → bit_or g 0x80 ≡ g + 128
unfolding top_test
bit_or-byte_top g h =
    let e : g % 128 ≡ g = omega arith in ground (arith, all_below_sound 256 top_test g top_table, e)

set_test : ℕ → Bool
set_test b = bit_or b 0x80 == b % 128 + 128

set_table : all_below 256 set_test ≡ true
unfolding all_below set_test
set_table = refl

pub bit_or-byte_set : (b : ℕ) → b < 256 → bit_or b 0x80 ≡ b % 128 + 128
unfolding set_test
bit_or-byte_set b h = ground (arith, all_below_sound 256 set_test b set_table h)
