-- ===== src/Media/Padme.antt =====
-- The padded size of a blob in src/media.rs: how much is added, and the bounds of the result.
use construct_core.Prelude.{
  subst, dec_lt, ℕ, zero, suc, ◌≤◌, ◌<◌, ◌+◌, ◌-◌, ◌*◌, ◌/◌, ◌%◌, ◌^◌, bit_and, ltb, leb, ltb→lt,
  le→ltb, Bool-cases, all_below, all_below_sound, ◌≡◌, refl, sym, ap, ap₂, ◌∙◌, ◌⊎◌, inl, inr, Bool,
  true, ◌&&◌, arith, ok, err,
}
use native.Mathlib.Nat.{pow-suc, pow-le-pow_right, div-add-mod', mod-lt, mod-eq_of_lt}
use construct_core.Prelude.Words.{bit_and-clear, pow_pos}
use construct_core.KeyTransparency.{bit_length}
use construct_core.KeyTransparency.Split.{bit_length_bounds}
use construct_core.Media.{
  too_large, round_up, exponent, significant, padme, clamp, blob_len, max_plaintext_len,
  media_min_blob_len, media_max_blob_len, v1_overhead,
}

-- Rounding up to a multiple of a power of two.
round_up-bounds :
    (len shift : ℕ)
    → shift < 63
    → len < 2 ^ 63
    → (len ≤ round_up len shift) × (round_up len shift + 1 ≤ len + 2 ^ shift)
unfolding round_up
round_up-bounds len shift h small =
    let p = 2 ^ shift in
    let fits : p ≤ 2 ^ 62 = pow-le-pow_right (omega arith) {i = shift} {j = 62} (omega arith) in
    let pos = pow_pos shift in
    let word : p % 2 ^ 64 ≡ p = mod-eq_of_lt (omega (arith, fits)) in
    let n = len + (p - 1) in
    let sum : n % 2 ^ 64 ≡ n = mod-eq_of_lt (omega (arith, fits, pos)) in
    let inverted : 2 ^ 64 - 1 - (p - 1) ≡ 2 ^ 64 - p = omega (arith, pos) in
    let width : shift + (64 - shift) ≡ 64 = omega arith in
    let wide = ap (λ (k : ℕ). 2 ^ k) width in
    let cleared : bit_and n (2 ^ 64 - p) ≡ n / p * p =
      ap (λ k. bit_and n (k - p)) (sym wide)
      ∙ bit_and-clear shift (64 - shift) n (omega (arith, wide, fits, pos)) in
    let e : round_up len shift ≡ n / p * p = rw word (ap₂ bit_and sum inverted ∙ cleared) in
    let split = div-add-mod' n p in
    let rest = mod-lt n pos in
    (omega (arith, e, split, rest, pos), omega (arith, e, split, rest, pos))

-- The exponent and the number of significant bits of a length from 2 ^ 8 up.
exponent-bounds :
    (len : ℕ)
    → 0 < len
    → len < 2 ^ 63
    → (exponent len < 63) × (2 ^ exponent len ≤ len) × (len < 2 ^ suc (exponent len))
unfolding exponent
exponent-bounds len h small =
    let (b, e, lt, low, high) = bit_length_bounds 64 len (omega arith) h in
    let same : b ≡ 63 - (64 - bit_length 64 len) = omega (arith, e, lt) in
    let below : b < 63 = below_63 b len low small in
    (
      omega (arith, same, below),
      subst (λ (k : ℕ). 2 ^ k ≤ len) same low,
      subst (λ (k : ℕ). len < 2 ^ suc k) same high,
    )
  where
    below_63 : (b len : ℕ) → 2 ^ b ≤ len → len < 2 ^ 63 → b < 63
    below_63 b len low small = elim (dec_lt b 63) [
      | yes h ↦ h
      | no h ↦ absurd (
          omega (
            arith,
            low,
            small,
            pow-le-pow_right {n = 2} (omega arith) {i = 63} {j = b} (omega arith),
          ))
    ]

-- From 8 up, four bits are significant at least, and never more than there are.
significant-bounds : (e : ℕ) → 8 ≤ e → e < 63 → (4 ≤ significant e) × (significant e ≤ e)
unfolding significant
significant-bounds e low high =
    let (b, same, lt, under, over) = bit_length_bounds 32 e (omega arith) (omega arith) in
    (omega (arith, same, lt, three b e low over), omega (arith, same, lt, self b e under))
  where
    three : (b e : ℕ) → 8 ≤ e → e < 2 ^ suc b → 3 ≤ b
    three zero e low over = absurd (omega arith)
    three (suc zero) e low over = absurd (omega arith)
    three (suc (suc zero)) e low over = absurd (omega arith)
    three (suc (suc (suc b))) e low over = omega arith

    grows : (b : ℕ) → suc b ≤ 2 ^ b
    grows zero = omega arith
    grows (suc b) = omega (arith, grows b, pow-suc 2 b)

    self : (b e : ℕ) → 2 ^ b ≤ e → suc b ≤ e
    self b e under = omega (arith, under, grows b)

-- Every length below 256, one by one.
small_test : ℕ → Bool
small_test len = leb len (padme len) && leb (100 * (padme len - len)) (12 * len)

small_table : all_below 256 small_test ≡ true
unfolding all_below small_test padme round_up exponent significant bit_length
small_table = refl

small_bounds : (len : ℕ) → len < 256 → (len ≤ padme len) × (100 * (padme len - len) ≤ 12 * len)
unfolding small_test
small_bounds len h = ground (arith, all_below_sound 256 small_test len small_table h)

-- From 256 up, at most one part in sixteen is added.
large_bounds :
    (len : ℕ) → 256 ≤ len → len < 2 ^ 63 → (len ≤ padme len) × (100 * (padme len - len) ≤ 12 * len)
unfolding padme
large_bounds len low high =
    let e = exponent len in
    let s = significant e in
    let (small, under, over) = exponent-bounds len (omega arith) high in
    let eight : 8 ≤ e = at_least e len low over in
    let (four, within) = significant-bounds e eight small in
    let k = e - s in
    let (up, added) = round_up-bounds len k (omega (arith, small)) high in
    let part : 16 * 2 ^ k ≤ len = omega (
      arith,
      sixteen k,
      under,
      pow-le-pow_right {n = 2} (omega arith) {i = k + 4} {j = e} (omega (arith, four, within)),
    ) in
    rw (le→ltb len 2 (omega arith)) (up, bounded len (round_up len k) (2 ^ k) part added)
  where
    sixteen : (k : ℕ) → 2 ^ (k + 4) ≡ 16 * 2 ^ k
    sixteen k =
        let a : k + 4 ≡ suc (suc (suc (suc k))) = omega arith in
        omega (
          arith,
          ap (λ (n : ℕ). 2 ^ n) a,
          pow-suc 2 k,
          pow-suc 2 (suc k),
          pow-suc 2 (suc (suc k)),
          pow-suc 2 (suc (suc (suc k))),
        )

    at_least : (e len : ℕ) → 256 ≤ len → len < 2 ^ suc e → 8 ≤ e
    at_least e len low over = elim (dec_lt e 8) [
      | no h ↦ omega arith
      | yes h ↦ absurd (
          omega (
            arith,
            low,
            over,
            pow-le-pow_right {n = 2} (omega arith) {i = suc e} {j = 8} (omega arith),
          ))
    ]

    bounded : (len r p : ℕ) → 16 * p ≤ len → r + 1 ≤ len + p → 100 * (r - len) ≤ 12 * len
    bounded len r p part added = omega (arith, part, added)

-- A length below 2 ^ 63 is never padded to less, and by 12 % at most.
pub padme-bounds :
    (len : ℕ) → len < 2 ^ 63 → (len ≤ padme len) × (100 * (padme len - len) ≤ 12 * len)
padme-bounds len h = elim (dec_lt len 256) [
  | yes small ↦ small_bounds len small
  | no large ↦ large_bounds len (omega arith) h
]

clamp-bounds :
    (value low high raw : ℕ)
    → low ≤ high
    → raw ≤ value
    → raw ≤ high
    → (raw ≤ clamp value low high) × (low ≤ clamp value low high) × (clamp value low high ≤ high)
unfolding clamp
clamp-bounds value low high raw h k l = ground arith

-- A file that is not too large has a blob that holds the file and what is around it, and is neither
-- below the least nor above the largest blob; a larger file is refused.
pub blob_len-bounds :
    (n : ℕ)
    → ((total : ℕ) × (blob_len n ≡ ok total)
        × (n + v1_overhead ≤ total)
        × (media_min_blob_len ≤ total)
        × (total ≤ media_max_blob_len))
      ⊎ ((max_plaintext_len < n) × (blob_len n ≡ err (too_large n)))
unfolding blob_len
blob_len-bounds n = elim (Bool-cases (ltb max_plaintext_len n)) [
  | inl e ↦ inr (ltb→lt max_plaintext_len n e, rw e refl)
  | inr e ↦
      let small : n ≤ max_plaintext_len = ground arith in
      let (up, _) = padme-bounds (n + v1_overhead) (omega (arith, small)) in
      let (a, b, c) =
        clamp-bounds (padme (n + v1_overhead)) media_min_blob_len media_max_blob_len
          (n + v1_overhead) (omega arith) up (omega (arith, small)) in
      inl (_, rw e refl, a, b, c)
]
