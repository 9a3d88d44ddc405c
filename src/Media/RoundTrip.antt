-- ===== src/Media/RoundTrip.antt =====
-- `open_media` of src/media.rs gives the file that `seal_with` of the same file sealed.
use construct_core.Prelude.{
  subst, append_assoc, ℕ, zero, suc, ◌≤◌, ◌<◌, ◌+◌, ◌-◌, ◌^◌, ◌==◌, le→ltb, lt→leb, ==_iff, ◌≡◌,
  refl, sym, ap, ◌∙◌, inl, inr, true, Option, some, List, ◌++◌, arith, length, take, drop,
  replicate, length-append, length-replicate, take-append_left, drop-append_left, slice, At-start,
  At-slice, At-advance, ok, ok-injective,
}
use construct_core.Knst.{to_be_bytes, from_be_bytes}
use construct_core.Knst.RoundTrip.{from_be_bytes-to_be_bytes}
use construct_core.Media.{
  SealedMedia, blob_len, all_zero, unpad, padded_text, sealed_blob, seal_with, open_either,
  open_media, v1_ad, v1_overhead,
}
use construct_core.Media.Padme.{blob_len-bounds}

all_zero-replicate : (n : ℕ) → all_zero (replicate n 0) ≡ true
unfolding all_zero
all_zero-replicate zero = refl
all_zero-replicate (suc n) = all_zero-replicate n

take-append_both :
    (n : ℕ) (xs ys zs : List ℕ)
    → length xs + length ys ≡ n
    → (take n (xs ++ (ys ++ zs)) ≡ xs ++ ys) × (drop n (xs ++ (ys ++ zs)) ≡ zs)
take-append_both n xs ys zs h =
    let sized : length (xs ++ ys) ≡ n = omega (arith, length-append xs ys) in
    (
      ap (take n) (sym (append_assoc xs ys zs)) ∙ take-append_left n (xs ++ ys) zs sized,
      ap (drop n) (sym (append_assoc xs ys zs)) ∙ drop-append_left n (xs ++ ys) zs sized,
    )

-- The padding of a file that a `u64` counts is taken off again.
unpad-padded_text :
    (total : ℕ) (plaintext : List ℕ)
    → length plaintext < 2 ^ 32
    → unpad (padded_text total plaintext) ≡ ok plaintext
unfolding unpad padded_text
unpad-padded_text total plaintext small =
    let n = length plaintext in
    let head = to_be_bytes 8 n in
    let zeros : List ℕ = replicate (total - 16 - (12 + 8 + n)) 0 in
    let stop : from_be_bytes (take 8 (head ++ (plaintext ++ zeros))) + 8 ≡ n + 8 =
      ap (λ t. from_be_bytes t + 8) (take-append_left 8 head (plaintext ++ zeros) refl)
      ∙ ap (λ (k : ℕ). k + 8) (from_be_bytes-to_be_bytes 8 n (omega arith)) in
    let (front, back) = take-append_both (n + 8) head plaintext zeros (omega arith) in
    let size : length (head ++ (plaintext ++ zeros)) ≡ 8 + (n + length zeros) =
      omega (arith, length-append plaintext zeros) in
    rw
      (
        stop,
        le→ltb (length (head ++ (plaintext ++ zeros))) 8 (omega (arith, size)),
        lt→leb (2 ^ 64) (n + 8) (omega arith),
        le→ltb (length (head ++ (plaintext ++ zeros))) (n + 8) (omega (arith, size)),
        back,
        all_zero-replicate (total - 16 - (12 + 8 + n)),
        front,
        drop-append_left 8 head plaintext refl,
      )
      refl

length-padded_text :
    (total : ℕ) (plaintext : List ℕ)
    → length plaintext + v1_overhead ≤ total
    → length (padded_text total plaintext) + 28 ≡ total
unfolding padded_text
length-padded_text total plaintext h =
    let zeros : List ℕ = replicate (total - 16 - (12 + 8 + length plaintext)) 0 in
    let a = length-append plaintext zeros in
    let b = length-replicate {A = ℕ} (total - 16 - (12 + 8 + length plaintext)) 0 in
    omega (arith, h, a, b)

module _ (encrypt : List ℕ → List ℕ → List ℕ → List ℕ → List ℕ × List ℕ)
    (decrypt : List ℕ → List ℕ → List ℕ → List ℕ → List ℕ → Option (List ℕ))
    (sizes : (key nonce ad text : List ℕ)
      → (length (encrypt key nonce ad text).0 ≡ length text)
        × (length (encrypt key nonce ad text).1 ≡ 16))
    (round : (key nonce ad text : List ℕ)
      → decrypt key nonce ad (encrypt key nonce ad text).0 (encrypt key nonce ad text).1
        ≡ some text) where
  open_media-sealed_blob :
      (key nonce plaintext : List ℕ) (total : ℕ)
      → length key ≡ 32
      → length nonce ≡ 12
      → length plaintext < 2 ^ 32
      → length plaintext + v1_overhead ≤ total
      → (open_media encrypt decrypt key (sealed_blob encrypt decrypt key nonce total plaintext)
          ≡ ok plaintext)
        × (length (sealed_blob encrypt decrypt key nonce total plaintext) ≡ total)
  unfolding open_media sealed_blob open_either
  open_media-sealed_blob key nonce plaintext total sized nonced small room =
      let text = padded_text total plaintext in
      let made = encrypt key nonce v1_ad text in
      let blob = nonce ++ (made.0 ++ made.1) in
      let (s0, s1) = sizes key nonce v1_ad text in
      let len : length blob ≡ total = omega (
        arith,
        s0,
        s1,
        nonced,
        length-append nonce (made.0 ++ made.1),
        length-append made.0 made.1,
        length-padded_text total plaintext room,
      ) in
      let behind = At-advance 12 nonce (made.0 ++ made.1) (At-start blob) nonced in
      let n = length made.0 in
      let stop : 12 + n ≡ length blob - 16 =
        omega (arith, len, s0, length-padded_text total plaintext room) in
      let body : slice blob 12 (length blob - 16) ≡ made.0 =
        ap (slice blob 12) (sym stop) ∙ At-slice n made.0 made.1 behind refl in
      let tag : drop (length blob - 16) blob ≡ made.1 =
        ap (λ k. drop k blob) (sym stop) ∙ (At-advance n made.0 made.1 behind refl).ahead in
      let keyed : (length key == 32) ≡ true = (==_iff (length key) 32).1 sized in
      (
        rw
            (
              keyed,
              le→ltb (length blob) 28 (omega (arith, len, room)),
              take-append_left 12 nonce (made.0 ++ made.1) nonced,
              body,
              tag,
              round key nonce v1_ad text,
              unpad-padded_text total plaintext small,
            )
            refl,
        len,
      )

  -- A file that is sealed under a key and a nonce of the right lengths opens under the key to the
  -- file, and its blob is as long as announced.
  pub open_media-seal_with :
      (digest : List ℕ → List ℕ) (key nonce plaintext : List ℕ) (sealed : SealedMedia)
      → length key ≡ 32
      → length nonce ≡ 12
      → seal_with encrypt decrypt digest key nonce plaintext ≡ ok sealed
      → (open_media encrypt decrypt sealed.key sealed.blob ≡ ok plaintext)
        × (blob_len (length plaintext) ≡ ok (length sealed.blob))
  unfolding seal_with
  open_media-seal_with digest key nonce plaintext sealed sized nonced h =
      elim (blob_len-bounds (length plaintext)) [
        | inr (large, e) ↦ let k = rw e at h in cc
        | inl (total, e, room, low, high) ↦
            let same = ok-injective (rw e at h) in
            let (opened, len) =
              open_media-sealed_blob key nonce plaintext total sized nonced
                (omega (arith, room, high)) room in
            subst
              (λ (q : SealedMedia).
                (open_media encrypt decrypt q.key q.blob ≡ ok plaintext)
                × (blob_len (length plaintext) ≡ ok (length q.blob)))
              same (opened, e ∙ ap (λ (k : ℕ). ok k) (sym len))
      ]
