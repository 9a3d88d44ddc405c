-- ===== src/History/Channel.antt =====
-- The sealed chunks of src/history/channel.rs: `ChunkCipher` and `sealed_len`. The AEAD under the
-- stream's key is a parameter: what it makes of a nonce, associated data and a text, and back.
pub mod Laws
mod Examples
use construct_core.Prelude.{
  ℕ, ◌+◌, ◌-◌, ◌^◌, ltb, leb, ◌==◌, if◌then◌else◌, not, ◌&&◌, ◌||◌, Option, none, some, List, ◌++◌,
  length, take, drop, replicate, to_le_bytes, from_le_bytes, slice, Result, ok, err, ◌>>◌, bytes_eq,
  ok_or, fail_if,
}
use construct_core.History.{HistoryFailure, malformed, chunk_open_failed}

abbrev pub chunk_plaintext : ℕ
chunk_plaintext = 65536

abbrev pub nonce_len : ℕ
nonce_len = 12

abbrev pub tag_len : ℕ
tag_len = 16

abbrev pub max_sealed_chunk : ℕ
max_sealed_chunk = 65564

unfoldable pub aad : List ℕ → List ℕ → ℕ → List ℕ
aad snapshot_id user_id index = snapshot_id ++ (user_id ++ to_le_bytes 4 index)

unfoldable pub nonce : ℕ → List ℕ
nonce index = to_le_bytes 4 index ++ replicate 8 0

-- `encrypt_in_place_detached` and `decrypt_in_place_detached` of the AEAD, with the ciphertext and
-- the tag apart.
pub record Aead : Type 0 where
  pub encrypt : List ℕ → List ℕ → List ℕ → Option (List ℕ × List ℕ)
  pub decrypt : List ℕ → List ℕ → List ℕ → List ℕ → Option (List ℕ)

pub record ChunkCipher : Type 0 where
  pub cipher : Aead
  pub snapshot_id : List ℕ
  pub user_id : List ℕ
  pub index : ℕ

unfoldable pub new_cipher : Aead → List ℕ → List ℕ → ChunkCipher
new_cipher cipher snapshot_id user_id = record {
  cipher = cipher;
  snapshot_id = snapshot_id;
  user_id = user_id;
  index = 0;
}

-- The index, and the cipher that has used it.
unfoldable pub next_index : ChunkCipher → Result HistoryFailure (ℕ × ChunkCipher)
next_index c =
    fail_if (leb (2 ^ 32) (c.index + 1)) malformed >> ok (c.index, record c { index = c.index + 1 })

-- A call leaves the cipher, with the index it used spent, and its result.
unfoldable pub sealed_chunk :
    ℕ → List ℕ → Result HistoryFailure (List ℕ × List ℕ) → Result HistoryFailure (List ℕ)
sealed_chunk index plaintext (err f) = err f
sealed_chunk index plaintext (ok (ciphertext, tag)) =
    ok (
      to_le_bytes 4 (nonce_len + length plaintext + tag_len)
      ++ (nonce index ++ (ciphertext ++ tag)))

unfoldable pub seal_next :
    ChunkCipher
    → List ℕ
    → Result HistoryFailure (ℕ × ChunkCipher)
    → ChunkCipher × Result HistoryFailure (List ℕ)
seal_next c plaintext (err f) = (c, err f)
seal_next c plaintext (ok (index, c')) = (
  c',
  sealed_chunk index plaintext (
      ok_or (c.cipher.encrypt (nonce index) (aad c.snapshot_id c.user_id index) plaintext)
        malformed),
)

-- `seal`: the bytes that it appends.
unfoldable pub seal : ChunkCipher → List ℕ → ChunkCipher × Result HistoryFailure (List ℕ)
seal c plaintext =
    if length plaintext == 0 || ltb chunk_plaintext (length plaintext)
    then (c, err malformed)
    else seal_next c plaintext (next_index c)

unfoldable pub open_at : ChunkCipher → ℕ → List ℕ → Result HistoryFailure (List ℕ)
open_at c index sealed =
    let tag_at = length sealed - tag_len in
    fail_if (not (bytes_eq (take nonce_len sealed) (nonce index))) chunk_open_failed
    >> ok_or
        (c.cipher.decrypt (nonce index) (aad c.snapshot_id c.user_id index)
          (slice sealed nonce_len tag_at) (drop tag_at sealed))
        chunk_open_failed

unfoldable pub open_next :
    ChunkCipher
    → List ℕ
    → Result HistoryFailure (ℕ × ChunkCipher)
    → ChunkCipher × Result HistoryFailure (List ℕ)
open_next c sealed (err f) = (c, err f)
open_next c sealed (ok (index, c')) = (c', open_at c index sealed)

-- `open`, of what followed the length.
unfoldable pub open_chunk : ChunkCipher → List ℕ → ChunkCipher × Result HistoryFailure (List ℕ)
open_chunk c sealed =
    if ltb (length sealed) (nonce_len + tag_len + 1) || ltb max_sealed_chunk (length sealed)
    then (c, err malformed)
    else open_next c sealed (next_index c)

-- The length that a chunk's prefix announces; `none` at the end of the stream.
unfoldable pub sealed_len : List ℕ → Result HistoryFailure (Option ℕ)
sealed_len prefix =
    let len = from_le_bytes prefix in
    if len == 0
    then ok none
    else fail_if (not (leb (nonce_len + tag_len + 1) len && leb len max_sealed_chunk)) malformed
      >> ok (some len)
