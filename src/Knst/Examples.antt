-- ===== src/Knst/Examples.antt =====
-- A small body in frames, and the theorems about them.
use construct_core.Prelude.{
  ℕ, ◌≤◌, ◌≡◌, refl, true, some, List, [], ◌∷◌, map, arith, length, replicate,
}
use construct_core.Knst.{
  Frame, frame_whole, parse, control_frame, encode_chunks, frames_from, max_chunks,
  is_silent_control,
}
use construct_core.Knst.RoundTrip.{IsFrame, written, parse-frame, control_frame-frame_whole}
use construct_core.Knst.Chunks.{Chunks, joined, encode_chunks-frames}

abbrev id : List ℕ
id = replicate 16 7

abbrev sample : Frame
sample = record {
  content_type = 12;
  message_id = id;
  chunk_index = 0;
  total_chunks = 1;
  plaintext_length = 2;
  payload = 5 ∷ 6 ∷ [];
}

sample-IsFrame : IsFrame sample
sample-IsFrame = record { id = refl; index = omega arith; total = omega arith; size = omega arith }

parse-frame_example : parse (written sample) ≡ some sample
parse-frame_example = parse-frame sample sample-IsFrame

whole_lem : frame_whole (5 ∷ 6 ∷ []) 12 id ≡ some (written sample)
unfolding frame_whole
whole_lem = refl

control_frame-frame_whole_example : control_frame (written sample) ≡ some (12, 5 ∷ 6 ∷ [])
control_frame-frame_whole_example =
    control_frame-frame_whole (5 ∷ 6 ∷ []) id (written sample) 12 refl whole_lem

chunks_lem : encode_chunks (5 ∷ 6 ∷ []) 12 id ≡ some (written sample ∷ [])
unfolding encode_chunks frames_from
chunks_lem = refl

encode_chunks-frames_example :
    (fs : List Frame) × (map parse (written sample ∷ []) ≡ map some fs)
    × (length fs ≤ max_chunks)
    × Chunks (5 ∷ 6 ∷ []) 12 id (length fs) 0 fs
    × (joined fs ≡ 5 ∷ 6 ∷ [])
encode_chunks-frames_example =
    encode_chunks-frames (5 ∷ 6 ∷ []) id 12 (written sample ∷ []) refl chunks_lem

silent : is_silent_control 27 ≡ true
unfolding is_silent_control
silent = refl
