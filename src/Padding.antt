-- ===== src/Padding.antt =====
-- src/traffic_protection/padding.rs: messages padded to whole blocks, PKCS#7 style.
-- A length is a number and a buffer the list of its bytes; `usize` does not wrap here, since a
-- message has at most 65536 bytes and a block at most 255.
pub mod RoundTrip
mod Examples
use construct_core.Prelude.{
  ℕ, ◌+◌, ◌-◌, ◌*◌, ◌/◌, ◌%◌, bit_or, bit_xor, ltb, ◌==◌, if◌then◌else◌, ◌||◌, Option, none, some,
  List, [], ◌∷◌, ◌++◌, length, take, drop, replicate, Result, ok, err, ◌>>=◌, ◌>>◌, fail_if,
}

abbrev pub default_block_size : ℕ
default_block_size = 255

abbrev pub max_block_size : ℕ
max_block_size = 255

abbrev pub max_message_size : ℕ
max_message_size = 65536

pub data PaddingError : Type 0 where
  message_too_large : ℕ → ℕ → PaddingError
  invalid_padding : PaddingError
  empty_message : PaddingError
  invalid_block_size : ℕ → PaddingError

pub pad_message : List ℕ → ℕ → Result PaddingError (List ℕ)
pad_message plaintext block_size = do
  fail_if (block_size == 0 || ltb max_block_size block_size) (invalid_block_size block_size)
  fail_if (ltb max_message_size (length plaintext))
      (message_too_large (length plaintext) max_message_size)
  let blocks = length plaintext / block_size + 1
  let padded_len = blocks * block_size
  let padding_len = padded_len - length plaintext
  let padding_byte = padding_len % 256
  ok (plaintext ++ replicate padding_len padding_byte)

pub pad_message_default : List ℕ → Result PaddingError (List ℕ)
pad_message_default plaintext = pad_message plaintext default_block_size

-- `padded.last()`.
abbrev pub last : List ℕ → Option ℕ
last [] = none
last (x ∷ []) = some x
last (x ∷ y ∷ xs) = last (y ∷ xs)

-- The loop that gathers the differences from the expected byte.
pub diff_loop : ℕ → ℕ → List ℕ → ℕ
diff_loop expected diff [] = diff
diff_loop expected diff (byte ∷ bytes) =
    diff_loop expected (bit_or diff (bit_xor byte expected)) bytes

check_padding : List ℕ → ℕ → Result PaddingError (List ℕ)
check_padding padded padding_len = do
  fail_if (padding_len == 0 || ltb (length padded) padding_len || ltb 255 padding_len)
      invalid_padding
  let start = length padded - padding_len
  let expected_byte = padding_len % 256
  let diff = diff_loop expected_byte 0 (drop start padded)
  if diff == 0 then ok (take start padded) else err invalid_padding

pub unpad_message : List ℕ → Result PaddingError (List ℕ)
unpad_message padded = elim (last padded) [
  | none ↦ err empty_message
  | some padding_len ↦ check_padding padded padding_len
]
