-- ===== src/Padding/RoundTrip.antt =====
-- What the padding promises: whole blocks, and a reader that undoes exactly what a writer did.
use native.Mathlib.Nat.{div-add-mod, mod-lt, mul_comm}
use construct_core.Prelude.{
  ℕ, zero, suc, ◌≤◌, ◌<◌, ◌+◌, ◌-◌, ◌*◌, ◌/◌, ◌%◌, bit_or, bit_xor, ltb, Bool-cases, Option-cases,
  ◌≡◌, refl, sym, ap, ap₂, ◌∙◌, inl, inr, some, List, [], ◌∷◌, ◌++◌, arith, length, take, drop,
  replicate, All, length-append, length-replicate, length-drop, take-append-drop, take-append_left,
  drop-append_left, All-drop, IsByte, ok,
}
use construct_core.Prelude.Bits.{
  bit_or-IsByte, bit_or-eq_zero, bit_xor-IsByte, bit_xor-eq_zero, bit_xor_self,
}
use construct_core.Padding.{
  pad_message, unpad_message, check_padding, diff_loop, last, max_message_size, max_block_size,
}

last-append-replicate : (xs : List ℕ) (n b : ℕ) → last (xs ++ replicate (suc n) b) ≡ some b
last-append-replicate [] zero b = refl
last-append-replicate [] (suc n) b = last-append-replicate [] n b
last-append-replicate (x ∷ []) n b = last-append-replicate [] n b
last-append-replicate (x ∷ y ∷ xs) n b = last-append-replicate (y ∷ xs) n b

-- The loop stays at 0 over the expected byte.
diff_loop-replicate : (b n : ℕ) → b < 256 → diff_loop b 0 (replicate n b) ≡ 0
unfolding diff_loop
diff_loop-replicate b zero h = refl
diff_loop-replicate b (suc n) h =
    ap (λ d. diff_loop b (bit_or 0 d) (replicate n b)) (bit_xor_self b h)
    ∙ diff_loop-replicate b n h

-- And a loop that ends at 0 saw nothing else.
diff_loop-eq_zero :
    (b d : ℕ) (xs : List ℕ)
    → b < 256
    → d < 256
    → All IsByte xs
    → diff_loop b d xs ≡ 0
    → (d ≡ 0) × (xs ≡ replicate (length xs) b)
unfolding diff_loop
diff_loop-eq_zero b d [] hb hd hx e = (e, refl)
diff_loop-eq_zero b d (x ∷ xs) hb hd (h, hx) e =
    let next = bit_xor-IsByte x b h hb in
    let (zero_next, rest) =
      diff_loop-eq_zero b (bit_or d (bit_xor x b)) xs hb (bit_or-IsByte d _ hd next) hx e in
    let (zero_d, zero_x) = bit_or-eq_zero d (bit_xor x b) hd next zero_next in
    (zero_d, cc (rest, bit_xor-eq_zero x b h hb zero_x))

-- The padding of a message of `len` bytes is between one byte and one block, and completes a block.
padding_size :
    (len block : ℕ)
    → 0 < block
    → (0 < (len / block + 1) * block - len)
      × ((len / block + 1) * block - len ≤ block)
      × (len + ((len / block + 1) * block - len) ≡ (len / block + 1) * block)
padding_size len block h =
    omega (arith, div-add-mod len block, mod-lt len h, mul_comm block (len / block))

-- How many bytes of padding a message of `len` bytes takes.
abbrev padding_len : ℕ → ℕ → ℕ
padding_len len block = (len / block + 1) * block - len

pad_message-eq_ok :
    (plaintext : List ℕ) (block : ℕ)
    → 0 < block
    → block ≤ max_block_size
    → length plaintext ≤ max_message_size
    → let n = padding_len (length plaintext) block in
      pad_message plaintext block ≡ ok (plaintext ++ replicate n n)
unfolding pad_message
pad_message-eq_ok plaintext block h k l =
    let n = padding_len (length plaintext) block in
    let small : n % 256 ≡ n = omega (arith, padding_size (length plaintext) block h) in
    ground (arith, small)

-- A message that is padded at all meets the limits.
pad_message_limits :
    (plaintext padded : List ℕ) (block : ℕ)
    → pad_message plaintext block ≡ ok padded
    → (0 < block) × (block ≤ max_block_size) × (length plaintext ≤ max_message_size)
unfolding pad_message
pad_message_limits plaintext padded block h = ground arith

-- Within the limits (a block of 1 to 255 bytes, a message of at most 65536), padding a message
-- appends `n` bytes of the value `n`, where `n` is at least 1 and at most the block size, and the
-- result is a whole number of blocks.
pub pad_message_shape :
    (plaintext : List ℕ) (block : ℕ)
    → 0 < block
    → block ≤ max_block_size
    → length plaintext ≤ max_message_size
    → (n blocks : ℕ) × (0 < n)
      × (n ≤ block)
      × (pad_message plaintext block ≡ ok (plaintext ++ replicate n n))
      × (length (plaintext ++ replicate n n) ≡ blocks * block)
pad_message_shape plaintext block h k l =
    let n = padding_len (length plaintext) block in
    let (pos, fits, whole) = padding_size (length plaintext) block h in
    (
      n,
      length plaintext / block + 1,
      pos,
      fits,
      pad_message-eq_ok plaintext block h k l,
      length-append plaintext (replicate n n)
          ∙ ap (◌+◌ (length plaintext)) (length-replicate n n)
          ∙ whole,
    )

-- `unpad_message` reads padding of the right shape off whatever stands before it.
pub unpad_message-replicate :
    (plaintext : List ℕ) (n : ℕ)
    → 0 < n
    → n ≤ 255
    → unpad_message (plaintext ++ replicate n n) ≡ ok plaintext
unfolding unpad_message check_padding
unpad_message-replicate plaintext zero h k = absurd (omega arith)
unpad_message-replicate plaintext (suc n) h k =
    let m = suc n in
    let padded = plaintext ++ replicate m m in
    let size : length padded - m ≡ length plaintext =
      omega (arith, length-append plaintext (replicate m m), length-replicate m m) in
    let small : m % 256 ≡ m = omega arith in
    rw (last-append-replicate plaintext n m, unpad_message)
      (ground (
        arith,
        length-append plaintext (replicate m m),
        length-replicate m m,
        size,
        small,
        drop-append_left (length plaintext) plaintext (replicate m m) refl,
        take-append_left (length plaintext) plaintext (replicate m m) refl,
        diff_loop-replicate m m,
      ))

-- Whatever `pad_message` returns, `unpad_message` reads back to the message.
pub unpad_message-pad_message :
    (plaintext padded : List ℕ) (block : ℕ)
    → pad_message plaintext block ≡ ok padded
    → unpad_message padded ≡ ok plaintext
unpad_message-pad_message plaintext padded block h =
    let (pos, small, fits) = pad_message_limits plaintext padded block h in
    let (n, blocks, npos, nle, same, whole) = pad_message_shape plaintext block pos small fits in
    let known : padded ≡ plaintext ++ replicate n n = cc (same, h) in
    ap unpad_message known ∙ unpad_message-replicate plaintext n npos (omega arith)

check_padding_conditions :
    (padded plaintext : List ℕ) (n : ℕ)
    → check_padding padded n ≡ ok plaintext
    → (0 < n)
      × (n ≤ 255)
      × (n ≤ length padded)
      × (diff_loop n 0 (drop (length padded - n) padded) ≡ 0)
      × (take (length padded - n) padded ≡ plaintext)
unfolding check_padding
check_padding_conditions padded plaintext n h = elim (Bool-cases (ltb 255 n)) [
  | inl big ↦ ground arith
  | inr fits ↦ let small : n % 256 ≡ n = ground arith in ground (arith, small)
]

check_padding-eq_ok :
    (padded plaintext : List ℕ) (n : ℕ)
    → All IsByte padded
    → check_padding padded n ≡ ok plaintext
    → (0 < n) × (n ≤ 255) × (padded ≡ plaintext ++ replicate n n)
check_padding-eq_ok padded plaintext n hb h =
    let (pos, small, fits, same, front) = check_padding_conditions padded plaintext n h in
    let start = length padded - n in
    let tail_eq =
      (diff_loop-eq_zero n 0 (drop start padded) (omega arith) (omega arith)
        (All-drop IsByte start padded hb) same).1 in
    let size : length (drop start padded) ≡ n = omega (arith, length-drop start padded) in
    (
      pos,
      small,
      sym (take-append-drop start padded) ∙ ap₂ ◌++◌ front (tail_eq ∙ ap (λ k. replicate k n) size),
    )

-- On bytes, `unpad_message` accepts exactly what the writer could have written: some number `n`
-- from 1 to 255 of bytes of the value `n`, behind the message that it returns.
pub unpad_message_sound :
    (padded plaintext : List ℕ)
    → All IsByte padded
    → unpad_message padded ≡ ok plaintext
    → (n : ℕ) × (0 < n) × (n ≤ 255) × (padded ≡ plaintext ++ replicate n n)
unfolding unpad_message
unpad_message_sound padded plaintext hb h = elim (Option-cases (last padded)) [
  | inl empty ↦ let e = rw (empty, unpad_message) at h in cc
  | inr (n, e) ↦
      let (pos, small, same) =
        check_padding-eq_ok padded plaintext n hb (rw (e, unpad_message) at h) in
      (n, pos, small, same)
]
