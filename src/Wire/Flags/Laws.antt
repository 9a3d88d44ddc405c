-- ===== src/Wire/Flags/Laws.antt =====
-- What the flag bits do: each can be read back, and stripping them leaves the suite.
use construct_core.Prelude.{
  ℕ, ◌≤◌, ◌<◌, ◌+◌, ◌-◌, ◌*◌, ◌/◌, ◌%◌, bit_and, bit_or, ◌==◌, ==_iff, all_below, all_below_sound,
  ◌≡◌, refl, sym, ap, ap₂, ◌∙◌, ◌⊎◌, inl, inr, Bool, true, false, ◌&&◌, arith,
}
use construct_core.Wire.Flags.{
  identity_proof_flag, kem_identity_flag, ad_v4_flag, wire_suite, pqxdh_v2_flag, has_flag, set_flag,
  strip_flags,
}

-- The operations on a `u16`, as arithmetic; each is a table over the whole word.
strip_test : ℕ → Bool
strip_test w = strip_flags w == w % 256 + w / 4096 * 4096

strip_table : all_below 65536 strip_test ≡ true
unfolding all_below strip_test
strip_table = refl

strip_flags_lem : (w : ℕ) → w < 65536 → strip_flags w ≡ w % 256 + w / 4096 * 4096
unfolding strip_test
strip_flags_lem w h = (==_iff _ _).0 (all_below_sound 65536 strip_test w strip_table h)

-- A flag of the place value `p`: `&` reads it and `|` sets it.
abbrev flag_test : ℕ → ℕ → Bool
flag_test p w = (bit_and w p == w / p % 2 * p) && (bit_or w p == w + (1 - w / p % 2) * p)

flags_test : ℕ → Bool
flags_test w =
    flag_test pqxdh_v2_flag w
    && (flag_test kem_identity_flag w
        && (flag_test identity_proof_flag w && flag_test ad_v4_flag w))

flags_table : all_below 65536 flags_test ≡ true
unfolding all_below flags_test
flags_table = refl

abbrev Flag : ℕ → ℕ → Type 0
Flag p w = (bit_and w p ≡ w / p % 2 * p) × (bit_or w p ≡ w + (1 - w / p % 2) * p)

flags_lem :
    (w : ℕ)
    → w < 65536
    → Flag pqxdh_v2_flag w
      × (Flag kem_identity_flag w × (Flag identity_proof_flag w × Flag ad_v4_flag w))
unfolding flags_test
flags_lem w h = ground (arith, all_below_sound 65536 flags_test w flags_table h)

abbrev place : Bool → ℕ → ℕ
place true p = p
place false p = 0

place_cases : (b : Bool) (p : ℕ) → (place b p ≡ 0) ⊎ (place b p ≡ p)
place_cases true p = inr refl
place_cases false p = inl refl

set_flag-place : (b : Bool) (p w : ℕ) → Flag p w → w / p % 2 ≡ 0 → set_flag b p w ≡ w + place b p
set_flag-place true p w f h = omega (arith, f.1, ap (λ (t : ℕ). (1 - t) * p) h)
set_flag-place false p w f h = omega arith

has_flag-place :
    (p w : ℕ) → 0 < p → Flag p w → (b : Bool) → w / p % 2 * p ≡ place b p → has_flag w p ≡ b
has_flag-place p w pos f true h = ground (arith, f.0)
has_flag-place p w pos f false h = ground (arith, f.0)

-- A wire suite as a sum of its places.
wire_suite-places :
    (s : ℕ) (a b c d : Bool)
    → s < 65536
    → s / 256 % 16 ≡ 0
    → wire_suite s a b c d ≡ s + place a 2048 + place b 256 + place c 512 + place d 1024
unfolding wire_suite
wire_suite-places s a b c d h k =
    let a0 = place_cases a 2048 in
    let b0 = place_cases b 256 in
    let c0 = place_cases c 512 in
    let d0 = place_cases d 1024 in
    let s1 = s + place a 2048 in
    let s2 = s1 + place b 256 in
    let s3 = s2 + place c 512 in
    let e1 = set_flag-place a 2048 s (flags_lem s h).1.1.1 (omega arith) in
    let e2 = set_flag-place b 256 s1 (flags_lem s1 (omega arith)).0 (omega arith) in
    let e3 = set_flag-place c 512 s2 (flags_lem s2 (omega arith)).1.0 (omega arith) in
    let e4 = set_flag-place d 1024 s3 (flags_lem s3 (omega arith)).1.1.0 (omega arith) in
    ap (λ w. set_flag d 1024 (set_flag c 512 (set_flag b 256 w))) e1
    ∙ ap (λ w. set_flag d 1024 (set_flag c 512 w)) e2
    ∙ ap (λ w. set_flag d 1024 w) e3
    ∙ e4

bit : Bool → ℕ
bit true = 1
bit false = 0

bit_bound : (b : Bool) → bit b ≤ 1
unfolding bit
bit_bound true = omega arith
bit_bound false = omega arith

place-bit : (b : Bool) (p : ℕ) → place b p ≡ bit b * p
unfolding bit
place-bit true p = omega arith
place-bit false p = omega arith

-- The digits of a suite id, read off the sum of its places.
module _ (low high a b c d w : ℕ)
    (form : w ≡ low + b * 256 + c * 512 + d * 1024 + a * 2048 + high * 4096)
    (small : low < 256) where
  digit_b : b ≤ 1 → w / 256 % 2 ≡ b
  digit_b h =
      let e : w / 256 ≡ b + 2 * (c + d * 2 + a * 4 + high * 8) = omega arith in omega (arith, e)

  digit_c : b ≤ 1 → c ≤ 1 → w / 512 % 2 ≡ c
  digit_c h k = let e : w / 512 ≡ c + 2 * (d + a * 2 + high * 4) = omega arith in omega (arith, e)

  digit_d : b ≤ 1 → c ≤ 1 → d ≤ 1 → w / 1024 % 2 ≡ d
  digit_d h k l = let e : w / 1024 ≡ d + 2 * (a + high * 2) = omega arith in omega (arith, e)

  digit_a : b ≤ 1 → c ≤ 1 → d ≤ 1 → a ≤ 1 → w / 2048 % 2 ≡ a
  digit_a h k l m = let e : w / 2048 ≡ a + 2 * high = omega arith in omega (arith, e)

  low_part : w % 256 ≡ low
  low_part =
      let e : w ≡ low + 256 * (b + c * 2 + d * 4 + a * 8 + high * 16) = omega arith in
      omega (arith, e)

  high_part : b ≤ 1 → c ≤ 1 → d ≤ 1 → a ≤ 1 → w / 4096 ≡ high
  high_part h k l m = omega arith

digits :
    (low high a b c d w : ℕ)
    → w ≡ low + b * 256 + c * 512 + d * 1024 + a * 2048 + high * 4096
    → low < 256
    → high < 16
    → a ≤ 1
    → b ≤ 1
    → c ≤ 1
    → d ≤ 1
    → (w < 65536)
      × ((w / 2048 % 2 ≡ a)
          × ((w / 256 % 2 ≡ b)
              × ((w / 512 % 2 ≡ c)
                  × ((w / 1024 % 2 ≡ d) × (w % 256 + w / 4096 * 4096 ≡ low + high * 4096)))))
digits low high a b c d w form small narrow ha hb hc hd = (
  omega arith,
  (
    digit_a low high a b c d w form small hb hc hd ha,
    (
      digit_b low high a b c d w form small hb,
      (
        digit_c low high a b c d w form small hb hc,
        (
          digit_d low high a b c d w form small hb hc hd,
          ap₂ (λ x y. x + y * 4096) (low_part low high a b c d w form small)
              (high_part low high a b c d w form small hb hc hd ha),
        ),
      ),
    ),
  ),
)

-- What the reader gets back from the writer's suite id, whatever the caller's suite was.
pub record FlagsRead (suite w : ℕ) (ad_v4 pqxdh identity proof : Bool) : Type 0 where
  pub small : w < 65536
  pub ad : has_flag w ad_v4_flag ≡ ad_v4
  pub handshake : has_flag w pqxdh_v2_flag ≡ pqxdh
  pub key : has_flag w kem_identity_flag ≡ identity
  pub answer : has_flag w identity_proof_flag ≡ proof
  pub stripped : strip_flags w ≡ strip_flags suite

-- From a `u16` suite and whatever is present, the wire's suite id has 16 bits, reads each of the four
-- flags back as it was set, and gives the stripped suite when its flags are stripped.
pub wire_suite-FlagsRead :
    (suite : ℕ) (a b c d : Bool)
    → suite < 65536
    → FlagsRead suite (wire_suite (strip_flags suite) a b c d) a b c d
wire_suite-FlagsRead suite a b c d h =
    let s = strip_flags suite in
    let w = wire_suite s a b c d in
    let low : s ≡ suite % 256 + suite / 4096 * 4096 = strip_flags_lem suite h in
    let sum = wire_suite-places s a b c d (omega (arith, low)) (omega (arith, low)) in
    let form : w
        ≡ suite % 256
          + bit b * 256
          + bit c * 512
          + bit d * 1024
          + bit a * 2048
          + suite / 4096 * 4096 =
      omega
        (arith, sum, low, place-bit a 2048, place-bit b 256, place-bit c 512, place-bit d 1024) in
    let p =
      digits (suite % 256) (suite / 4096) (bit a) (bit b) (bit c) (bit d) w form (omega arith)
        (omega arith) (bit_bound a) (bit_bound b) (bit_bound c) (bit_bound d) in
    let f = flags_lem w p.0 in
    record {
      small = p.0;
      ad =
          has_flag-place 2048 w (omega arith) f.1.1.1 a
            (ap (λ (t : ℕ). t * 2048) p.1.0 ∙ sym (place-bit a 2048));
      handshake =
          has_flag-place 256 w (omega arith) f.0 b
            (ap (λ (t : ℕ). t * 256) p.1.1.0 ∙ sym (place-bit b 256));
      key =
          has_flag-place 512 w (omega arith) f.1.0 c
            (ap (λ (t : ℕ). t * 512) p.1.1.1.0 ∙ sym (place-bit c 512));
      answer =
          has_flag-place 1024 w (omega arith) f.1.1.0 d
            (ap (λ (t : ℕ). t * 1024) p.1.1.1.1.0 ∙ sym (place-bit d 1024));
      stripped = strip_flags_lem w p.0 ∙ p.1.1.1.1.1 ∙ sym low;
    }
