-- ===== src/History/Channel/Examples.antt =====
-- A chunk of src/history/channel.rs under a cipher that changes nothing.
use mathlib.Core.Option.{some-injective}
use construct_core.Prelude.{
  ℕ, ◌≡◌, refl, sym, ap, some, List, [], ◌∷◌, ◌++◌, arith, length, take, drop, replicate, ok, err,
}
use construct_core.History.{chunk_open_failed}
use construct_core.History.Channel.{
  Aead, ChunkCipher, seal, seal_next, sealed_chunk, next_index, nonce, aad, open_chunk, sealed_len,
}
use construct_core.History.Channel.Laws.{open_chunk-seal, open_chunk-moved}

abbrev plain : Aead
plain = record {
  encrypt = λ n ad text. some (text, replicate 16 0);
  decrypt = λ n ad ciphertext tag. some ciphertext;
}

abbrev stream : ChunkCipher
stream = record { cipher = plain; snapshot_id = 1 ∷ []; user_id = 2 ∷ []; index = 0 }

abbrev next : ChunkCipher
next = record { cipher = plain; snapshot_id = 1 ∷ []; user_id = 2 ∷ []; index = 1 }

abbrev after_next : ChunkCipher
after_next = record { cipher = plain; snapshot_id = 1 ∷ []; user_id = 2 ∷ []; index = 2 }

sizes :
    (n ad text ciphertext tag : List ℕ)
    → stream.cipher.encrypt n ad text ≡ some (ciphertext, tag)
    → (length ciphertext ≡ length text) × (length tag ≡ 16)
sizes n ad text ciphertext tag h =
    let e = some-injective (text, replicate 16 0) (ciphertext, tag) h in
    (ap (λ q. length q.0) (sym e), ap (λ q. length q.1) (sym e))

round :
    (n ad text ciphertext tag : List ℕ)
    → stream.cipher.encrypt n ad text ≡ some (ciphertext, tag)
    → stream.cipher.decrypt n ad ciphertext tag ≡ some text
round n ad text ciphertext tag h =
    ap (λ q. some q.0) (sym (some-injective (text, replicate 16 0) (ciphertext, tag) h))

-- The length 31, the nonce, three bytes and the tag.
abbrev chunk : List ℕ
chunk = 31 ∷ 0 ∷ 0 ∷ 0 ∷ (replicate 12 0 ++ (7 ∷ 8 ∷ 9 ∷ replicate 16 0))

seals : seal stream (7 ∷ 8 ∷ 9 ∷ []) ≡ (next, ok chunk)
unfolding seal seal_next sealed_chunk next_index nonce aad
seals = refl

open_chunk-seal_example :
    (sealed_len (take 4 chunk) ≡ ok (some (length (drop 4 chunk))))
    × (open_chunk stream (drop 4 chunk) ≡ (next, ok (7 ∷ 8 ∷ 9 ∷ [])))
open_chunk-seal_example = open_chunk-seal stream sizes round next (7 ∷ 8 ∷ 9 ∷ []) chunk seals

open_chunk-moved_example : open_chunk next (drop 4 chunk) ≡ (after_next, err chunk_open_failed)
open_chunk-moved_example =
    open_chunk-moved stream sizes next next (7 ∷ 8 ∷ 9 ∷ []) chunk seals
      (λ e. absurd (omega (arith, e))) (omega arith)
