-- ===== src/Media/Examples.antt =====
-- Sizes and a blob of src/media.rs at concrete inputs.
use construct_core.Prelude.{
  ℕ, ◌≤◌, ◌<◌, ◌+◌, ◌≡◌, refl, ◌⊎◌, Option, some, List, [], ◌∷◌, length, replicate, ok, err,
}
use construct_core.Media.{
  padme, round_up, exponent, significant, blob_len, clamp, SealedMedia, sealed_blob, seal_with,
  open_media, too_large, max_plaintext_len, v1_overhead, media_min_blob_len, media_max_blob_len,
}
use construct_core.Media.Padme.{blob_len-bounds}
use construct_core.Media.RoundTrip.{open_media-seal_with}
use construct_core.KeyTransparency.{bit_length}

nine : padme 9 ≡ 10
unfolding padme round_up exponent significant bit_length
nine = refl

million : padme 1000001 ≡ 1015808
unfolding padme round_up exponent significant bit_length
million = refl

blob_len-bounds_example :
    ((total : ℕ) × (blob_len 5000 ≡ ok total)
      × (5000 + v1_overhead ≤ total)
      × (media_min_blob_len ≤ total)
      × (total ≤ media_max_blob_len))
    ⊎ ((max_plaintext_len < 5000) × (blob_len 5000 ≡ err (too_large 5000)))
blob_len-bounds_example = blob_len-bounds 5000

abbrev toy_encrypt : List ℕ → List ℕ → List ℕ → List ℕ → List ℕ × List ℕ
toy_encrypt key nonce ad text = (text, replicate 16 1)

abbrev toy_decrypt : List ℕ → List ℕ → List ℕ → List ℕ → List ℕ → Option (List ℕ)
toy_decrypt key nonce ad body tag = some body

abbrev digest : List ℕ → List ℕ
digest blob = []

abbrev sealed : SealedMedia
sealed = record {
  key = replicate 32 7;
  blob = sealed_blob toy_encrypt toy_decrypt (replicate 32 7) (replicate 12 9) 4096 (1 ∷ 2 ∷ []);
  sha256 = [];
}

seals :
    seal_with toy_encrypt toy_decrypt digest (replicate 32 7) (replicate 12 9) (1 ∷ 2 ∷ [])
    ≡ ok sealed
unfolding seal_with blob_len clamp padme round_up exponent significant bit_length
seals = refl

open_media-seal_with_example :
    (open_media toy_encrypt toy_decrypt sealed.key sealed.blob ≡ ok (1 ∷ 2 ∷ []))
    × (blob_len 2 ≡ ok (length sealed.blob))
open_media-seal_with_example =
    open_media-seal_with toy_encrypt toy_decrypt (λ key nonce ad text. (refl, refl))
      (λ key nonce ad text. refl) digest (replicate 32 7) (replicate 12 9) (1 ∷ 2 ∷ []) sealed refl
      refl seals
