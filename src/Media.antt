-- ===== src/Media.antt =====
-- Media blobs (src/media.rs): the padded size, sealing under a given key and nonce, and opening.
-- AES-256-GCM and SHA-256 are parameters.
pub mod Padme
pub mod RoundTrip
mod Examples
use construct_core.Prelude.{
  ℕ, ◌+◌, ◌-◌, ◌%◌, ◌^◌, bit_and, ltb, leb, ◌==◌, if◌then◌else◌, Bool, true, not, ◌&&◌, ◌||◌,
  Option, none, some, List, [], ◌∷◌, ◌++◌, length, take, drop, replicate, slice, Result, ok, ◌>>=◌,
  ◌>>◌, ok_or, fail_if,
}
use construct_core.KeyTransparency.{bit_length}
use construct_core.Knst.{to_be_bytes, from_be_bytes}

abbrev pub media_key_len : ℕ
media_key_len = 32

abbrev pub nonce_len : ℕ
nonce_len = 12

abbrev pub tag_len : ℕ
tag_len = 16

abbrev pub len_prefix : ℕ
len_prefix = 8

-- "konstruct-media-v1".
abbrev pub v1_ad : List ℕ
v1_ad =
    107 ∷ 111 ∷ 110 ∷ 115 ∷ 116 ∷ 114 ∷ 117 ∷ 99 ∷ 116 ∷ 45 ∷ 109 ∷ 101 ∷ 100 ∷ 105 ∷ 97 ∷ 45 ∷ 118
    ∷ 49 ∷ []

abbrev pub media_max_blob_len : ℕ
media_max_blob_len = 100000000

abbrev pub media_min_blob_len : ℕ
media_min_blob_len = 4096

abbrev pub v1_overhead : ℕ
v1_overhead = nonce_len + tag_len + len_prefix

pub data MediaError : Type 0 where
  too_large : (len : ℕ) → MediaError
  invalid_key : (len : ℕ) → MediaError
  unauthenticated : MediaError
  malformed_padding : MediaError

pub record SealedMedia : Type 0 where
  pub key : List ℕ
  pub blob : List ℕ
  pub sha256 : List ℕ

abbrev pub max_plaintext_len : ℕ
max_plaintext_len = media_max_blob_len - v1_overhead

-- `(len + mask) & !mask` on 64 bits, for a mask of the low `shift` bits.
unfoldable pub round_up : ℕ → ℕ → ℕ
round_up len shift =
    let mask = 2 ^ shift % 2 ^ 64 - 1 in bit_and ((len + mask) % 2 ^ 64) (2 ^ 64 - 1 - mask)

-- ⌊log₂ len⌋, and ⌊log₂ e⌋ + 1.
unfoldable pub exponent : ℕ → ℕ
exponent len = 63 - (64 - bit_length 64 len)

unfoldable pub significant : ℕ → ℕ
significant e = 32 - (32 - bit_length 32 e)

unfoldable pub padme : ℕ → ℕ
padme len = if ltb len 2 then len else round_up len (exponent len - significant (exponent len))

-- `clamp(low, high)`.
unfoldable pub clamp : ℕ → ℕ → ℕ → ℕ
clamp value low high = if ltb value low then low else if ltb high value then high else value

unfoldable pub blob_len : ℕ → Result MediaError ℕ
blob_len plaintext_len =
    fail_if (ltb max_plaintext_len plaintext_len) (too_large plaintext_len)
    >> ok (clamp (padme (plaintext_len + v1_overhead)) media_min_blob_len media_max_blob_len)

unfoldable pub all_zero : List ℕ → Bool
all_zero [] = true
all_zero (b ∷ bs) = b == 0 && all_zero bs

unfoldable pub unpad : List ℕ → Result MediaError (List ℕ)
unpad padded =
    let stop = from_be_bytes (take len_prefix padded) + len_prefix in
    fail_if (ltb (length padded) len_prefix) malformed_padding
    >> (fail_if (leb (2 ^ 64) stop || ltb (length padded) stop) malformed_padding
        >> (fail_if (not (all_zero (drop stop padded))) malformed_padding
            >> ok (drop len_prefix (take stop padded))))

-- The text that is encrypted: length, file and zeros, up to the tag.
unfoldable pub padded_text : ℕ → List ℕ → List ℕ
padded_text total plaintext =
    to_be_bytes 8 (length plaintext)
    ++ (plaintext ++ replicate (total - tag_len - (nonce_len + len_prefix + length plaintext)) 0)

-- `encrypt_in_place_detached` of a key, a nonce, associated data and a text, and back.
module _ (encrypt : List ℕ → List ℕ → List ℕ → List ℕ → List ℕ × List ℕ)
    (decrypt : List ℕ → List ℕ → List ℕ → List ℕ → List ℕ → Option (List ℕ)) where
  unfoldable pub sealed_blob : List ℕ → List ℕ → ℕ → List ℕ → List ℕ
  sealed_blob key nonce total plaintext =
      let made = encrypt key nonce v1_ad (padded_text total plaintext) in
      nonce ++ (made.0 ++ made.1)

  unfoldable pub seal_with :
      (List ℕ → List ℕ) → List ℕ → List ℕ → List ℕ → Result MediaError SealedMedia
  seal_with digest key nonce plaintext = blob_len (length plaintext) >>= λ total.
      let blob = sealed_blob key nonce total plaintext in
      ok (record { key = key; blob = blob; sha256 = digest blob })

  -- First as a blob of version 1, then as a legacy one.
  unfoldable pub open_either :
      List ℕ → List ℕ → List ℕ → List ℕ → Option (List ℕ) → Result MediaError (List ℕ)
  open_either key nonce body tag (some padded) = unpad padded
  open_either key nonce body tag none = ok_or (decrypt key nonce [] body tag) unauthenticated

  unfoldable pub open_media : List ℕ → List ℕ → Result MediaError (List ℕ)
  open_media key blob =
      let nonce = take nonce_len blob in
      let tag = drop (length blob - tag_len) blob in
      let body = slice blob nonce_len (length blob - tag_len) in
      fail_if (not (length key == media_key_len)) (invalid_key (length key))
      >> (fail_if (ltb (length blob) (nonce_len + tag_len)) unauthenticated
          >> open_either key nonce body tag (decrypt key nonce v1_ad body tag))
