-- ===== src/Padding/Examples.antt =====
-- Concrete runs of the padding, and its theorems at concrete inputs.
use construct_core.Prelude.{
  ℕ, ◌≤◌, ◌<◌, ◌*◌, ◌≡◌, refl, [], ◌∷◌, ◌++◌, arith, length, replicate, ok, err,
}
use construct_core.Padding.{
  pad_message, unpad_message, check_padding, diff_loop, invalid_block_size, invalid_padding,
}
use construct_core.Padding.RoundTrip.{
  pad_message_shape, unpad_message-pad_message, unpad_message_sound,
}

pad_hello : pad_message (72 ∷ 105 ∷ []) 4 ≡ ok (72 ∷ 105 ∷ 2 ∷ 2 ∷ [])
unfolding pad_message
pad_hello = refl

pad_256 : pad_message [] 256 ≡ err (invalid_block_size 256)
unfolding pad_message
pad_256 = refl

unpad_hello : unpad_message (72 ∷ 105 ∷ 2 ∷ 2 ∷ []) ≡ ok (72 ∷ 105 ∷ [])
unfolding unpad_message check_padding diff_loop
unpad_hello = refl

unpad_corrupt : unpad_message (72 ∷ 105 ∷ 3 ∷ 2 ∷ []) ≡ err invalid_padding
unfolding unpad_message check_padding diff_loop
unpad_corrupt = refl

pad_message_shape_example :
    (n blocks : ℕ) × (0 < n)
    × (n ≤ 4)
    × (pad_message (72 ∷ 105 ∷ []) 4 ≡ ok ((72 ∷ 105 ∷ []) ++ replicate n n))
    × (length ((72 ∷ 105 ∷ []) ++ replicate n n) ≡ blocks * 4)
pad_message_shape_example =
    pad_message_shape (72 ∷ 105 ∷ []) 4 (omega arith) (omega arith) (omega arith)

unpad_message-pad_message_example : unpad_message (72 ∷ 105 ∷ 2 ∷ 2 ∷ []) ≡ ok (72 ∷ 105 ∷ [])
unpad_message-pad_message_example =
    unpad_message-pad_message (72 ∷ 105 ∷ []) (72 ∷ 105 ∷ 2 ∷ 2 ∷ []) 4 pad_hello

unpad_message_sound_example :
    (n : ℕ) × (0 < n) × (n ≤ 255) × (72 ∷ 105 ∷ 2 ∷ 2 ∷ [] ≡ (72 ∷ 105 ∷ []) ++ replicate n n)
unpad_message_sound_example =
    unpad_message_sound (72 ∷ 105 ∷ 2 ∷ 2 ∷ []) (72 ∷ 105 ∷ []) (omega arith) unpad_hello
