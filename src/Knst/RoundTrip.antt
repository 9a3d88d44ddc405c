-- ===== src/Knst/RoundTrip.antt =====
-- Frames are read back as they were written, and the chunks of a body join to it.
use construct_core.Prelude.{
  ℕ, ◌<◌, ◌^◌, ltb, ltb→lt, le→ltb, le→leb, Bool-cases, ◌≡◌, refl, sym, ap, ◌∙◌, inl, inr, false,
  some, List, [], ◌∷◌, ◌++◌, arith, length, take, to_le_bytes, from_le_bytes,
  from_le_bytes-to_le_bytes, At-start, At-slice, At-advance,
}
use mathlib.Core.Option
use mathlib.Core.List.{reverse-reverse}
use mathlib.Core.Option.{some-injective}
use construct_core.Knst.{
  magic, version, to_be_bytes, from_be_bytes, Frame, read_frame, parse, control_body, frame,
  frame_whole, control_frame,
}

pub from_be_bytes-to_be_bytes : (k v : ℕ) → v < 256 ^ k → from_be_bytes (to_be_bytes k v) ≡ v
from_be_bytes-to_be_bytes k v h =
    ap from_le_bytes (reverse-reverse (to_le_bytes k v)) ∙ from_le_bytes-to_le_bytes k v h

-- The fields of a frame in the ranges of their types.
pub record IsFrame (f : Frame) : Type 0 where
  pub id : length f.message_id ≡ 16
  pub index : f.chunk_index < 2 ^ 16
  pub total : f.total_chunks < 2 ^ 16
  pub size : f.plaintext_length < 2 ^ 32

abbrev pub written : Frame → List ℕ
written f =
    frame f.payload f.content_type f.message_id f.chunk_index f.total_chunks f.plaintext_length

-- `parse` reads every frame whose fields are in range back from what `frame` writes for them.
pub parse-frame : (f : Frame) → IsFrame f → parse (written f) ≡ some f
unfolding parse frame
parse-frame f w =
    let bytes = written f in
    let a6 = At-advance 6 (magic ++ (version ∷ f.content_type ∷ [])) _ (At-start bytes) refl in
    let a22 = At-advance 16 f.message_id _ a6 w.id in
    let a24 = At-advance 2 (to_be_bytes 2 f.chunk_index) _ a22 refl in
    let a26 = At-advance 2 (to_be_bytes 2 f.total_chunks) _ a24 refl in
    let a30 = At-advance 4 (to_be_bytes 4 f.plaintext_length) f.payload a26 refl in
    let long : ltb (length bytes) 30 ≡ false = le→ltb (length bytes) 30 a30.within in
    let same : read_frame bytes ≡ f = λ i. record {
      content_type = f.content_type;
      message_id = At-slice 16 f.message_id _ a6 w.id i;
      chunk_index =
          (ap from_be_bytes (At-slice 2 (to_be_bytes 2 f.chunk_index) _ a22 refl)
              ∙ from_be_bytes-to_be_bytes 2 f.chunk_index w.index)
            i;
      total_chunks =
          (ap from_be_bytes (At-slice 2 (to_be_bytes 2 f.total_chunks) _ a24 refl)
              ∙ from_be_bytes-to_be_bytes 2 f.total_chunks w.total)
            i;
      plaintext_length =
          (ap from_be_bytes (At-slice 4 (to_be_bytes 4 f.plaintext_length) f.payload a26 refl)
              ∙ from_be_bytes-to_be_bytes 4 f.plaintext_length w.size)
            i;
      payload = a30.ahead i;
    } in
    rw long (ap some same)

take_all : (xs : List ℕ) → take (length xs) xs ≡ xs
take_all [] = refl
take_all (x ∷ xs) = ap (λ ys. x ∷ ys) (take_all xs)

-- The control frame of any body, with an id of 16 bytes, is read back to its type and its body.
pub control_frame-frame_whole :
    (body id bytes : List ℕ) (content_type : ℕ)
    → length id ≡ 16
    → frame_whole body content_type id ≡ some bytes
    → control_frame bytes ≡ some (content_type, body)
unfolding frame_whole control_frame control_body
control_frame-frame_whole body id bytes content_type sized h =
    let f : Frame = record {
      content_type = content_type;
      message_id = id;
      chunk_index = 0;
      total_chunks = 1;
      plaintext_length = length body;
      payload = body;
    } in
    elim (Bool-cases (ltb (length body) (2 ^ 32))) [
      | inl e ↦
          let k = rw e at h in
          let small : length body < 2 ^ 32 = ltb→lt (length body) (2 ^ 32) e in
          let valid : IsFrame f = record {
            id = sized;
            index = omega arith;
            total = omega arith;
            size = small;
          } in
          let made : bytes ≡ written f = some-injective _ _ (sym k) in
          let read : parse bytes ≡ some f = ap parse made ∙ parse-frame f valid in
          let full : control_body f ≡ some body =
            rw (le→leb (length body) (length body) (omega arith)) (ap some (take_all body)) in
          rw (read, control_frame) (ap (Option.map (λ b. (content_type, b))) full)
      | inr e ↦ let k = rw e at h in cc
    ]
