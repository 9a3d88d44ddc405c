-- ===== src/Knst/Chunks.antt =====
-- The chunks of a body: they parse, are numbered, and join to the body.
use construct_core.Prelude.{
  subst, ℕ, zero, suc, ◌≤◌, ◌<◌, ◌+◌, ◌-◌, ◌*◌, ◌%◌, ◌^◌, min, ltb, if◌then◌else◌, ◌≡◌, refl, sym,
  ap, ap₂, ◌∙◌, not, none, some, List, [], ◌∷◌, ◌++◌, map, arith, length, take, drop, length-take,
  length-drop, take-append-drop, drop-drop, slice,
}
use construct_core.Knst.{
  chunk_payload_size, max_chunks, Frame, parse, frame, frames_from, chunks_of, encode_chunks,
}
use construct_core.Knst.RoundTrip.{IsFrame, parse-frame}

take_nothing : (k : ℕ) → take k (drop 1 (k ∷ [])) ≡ []
take_nothing zero = refl
take_nothing (suc k) = refl

take-min : (n : ℕ) (xs : List ℕ) → take (min n (length xs)) xs ≡ take n xs
take-min zero xs = let e : min 0 (length xs) ≡ 0 = omega arith in ap (λ k. take k xs) e
take-min (suc n) [] = take_nothing (min (suc n) 0)
take-min (suc n) (x ∷ xs) =
    let e : min (suc n) (suc (length xs)) ≡ suc (min n (length xs)) = omega arith in
    ap (λ k. take k (x ∷ xs)) e ∙ ap (λ ys. x ∷ ys) (take-min n xs)

-- A window of a body that is cut at its end.
window : (s n : ℕ) (xs : List ℕ) → slice xs s (min (s + n) (length xs)) ≡ take n (drop s xs)
window s n xs =
    let e : min (s + n) (length xs) - s ≡ min n (length (drop s xs)) =
      omega (arith, length-drop s xs) in
    ap (λ k. take k (drop s xs)) e ∙ take-min n (drop s xs)

drop_end : (n : ℕ) (xs : List ℕ) → length xs ≤ n → drop n xs ≡ []
drop_end zero [] h = refl
drop_end zero (x ∷ xs) h = absurd (omega arith)
drop_end (suc n) [] h = refl
drop_end (suc n) (x ∷ xs) h = drop_end n xs (omega arith)

abbrev pub joined : List Frame → List ℕ
joined [] = []
joined (f ∷ fs) = f.payload ++ joined fs

module _ (body : List ℕ) (content_type : ℕ) (id : List ℕ) (total : ℕ) where
  -- The frames of a message, numbered from `i` on.
  abbrev pub Chunks : ℕ → List Frame → Type 0
  Chunks i [] = Unit
  Chunks i (f ∷ fs) =
      (f.content_type ≡ content_type)
      × (f.message_id ≡ id)
      × (f.chunk_index ≡ i)
      × (f.total_chunks ≡ total)
      × (f.plaintext_length ≡ length body)
      × (length f.payload ≤ chunk_payload_size)
      × Chunks (i + 1) fs

  piece : ℕ → Frame
  piece i = record {
    content_type = content_type;
    message_id = id;
    chunk_index = i;
    total_chunks = total;
    plaintext_length = length body;
    payload = take chunk_payload_size (drop (i * chunk_payload_size) body);
  }

  pieces : ℕ → ℕ → List Frame
  pieces i zero = []
  pieces i (suc count) = piece i ∷ pieces (i + 1) count

  length-pieces : (i count : ℕ) → length (pieces i count) ≡ count
  unfolding pieces
  length-pieces i zero = refl
  length-pieces i (suc count) = ap suc (length-pieces (i + 1) count)

  pieces-Chunks : (i count : ℕ) → Chunks i (pieces i count)
  unfolding pieces piece
  pieces-Chunks i zero = tt
  pieces-Chunks i (suc count) =
      let at = drop (i * chunk_payload_size) body in
      (
        refl,
        refl,
        refl,
        refl,
        refl,
        omega (arith, length-take chunk_payload_size at),
        pieces-Chunks (i + 1) count,
      )

  joined-pieces :
      (i count : ℕ)
      → length body ≤ (i + count) * chunk_payload_size
      → joined (pieces i count) ≡ drop (i * chunk_payload_size) body
  unfolding pieces piece
  joined-pieces i zero h = sym (drop_end (i * chunk_payload_size) body (omega arith))
  joined-pieces i (suc count) h =
      let at = i * chunk_payload_size in
      let e : (i + 1) * chunk_payload_size ≡ at + chunk_payload_size = omega arith in
      ap (λ xs. take chunk_payload_size (drop at body) ++ xs)
        (joined-pieces (i + 1) count (omega arith)
          ∙ ap (λ k. drop k body) e
          ∙ sym (drop-drop at chunk_payload_size body))
      ∙ take-append-drop chunk_payload_size (drop at body)

  module _ (sized : length id ≡ 16) (few : total < 2 ^ 16) (short : length body < 2 ^ 32) where
    parse-frames_from :
        (i count : ℕ)
        → i + count ≤ 2 ^ 16
        → map parse (frames_from body content_type id total i count) ≡ map some (pieces i count)
    unfolding frames_from pieces piece
    parse-frames_from i zero h = refl
    parse-frames_from i (suc count) h =
        let valid : IsFrame (piece i) = record {
          id = sized;
          index = omega arith;
          total = few;
          size = short;
        } in
        let at = i * chunk_payload_size in
        let same : i % 2 ^ 16 ≡ i = omega arith in
        let head : parse (
              frame (slice body at (min (at + chunk_payload_size) (length body))) content_type id
                (i % 2 ^ 16) total (length body))
            ≡ some (piece i) =
          ap₂ (λ p k. parse (frame p content_type id k total (length body)))
            (window at chunk_payload_size body) same
          ∙ parse-frame (piece i) valid in
        ap₂ ◌∷◌ head (parse-frames_from (i + 1) count (omega arith))

-- The tests that `encode_chunks` makes on the way to its result.
guards :
    (total n : ℕ) (made frames : List (List ℕ))
    → (if ltb max_chunks total
        then none
        else if not (ltb n (2 ^ 32))
        then none
        else if not (ltb total (2 ^ 16))
        then none
        else some made)
      ≡ some frames
    → (total ≤ max_chunks) × (n < 2 ^ 32) × (total < 2 ^ 16) × (frames ≡ made)
guards total n made frames h = ground arith

-- Whatever frames `encode_chunks` returns for a body and an id of 16 bytes: there are 256 at most,
-- each parses, the parsed frames have the type, the id and the body's length, are numbered from 0 on
-- and name their count, carry 3770 bytes at most, and their payloads join to the body.
pub encode_chunks-frames :
    (body id : List ℕ) (content_type : ℕ) (frames : List (List ℕ))
    → length id ≡ 16
    → encode_chunks body content_type id ≡ some frames
    → (fs : List Frame) × (map parse frames ≡ map some fs)
      × (length fs ≤ max_chunks)
      × Chunks body content_type id (length fs) 0 fs
      × (joined fs ≡ body)
unfolding encode_chunks
encode_chunks-frames body id content_type frames sized h =
    let total = chunks_of (length body) in
    let (few, short, narrow, made) = guards total (length body) _ frames h in
    let fs = pieces body content_type id total 0 total in
    let count = length-pieces body content_type id total 0 total in
    (
      fs,
      ap (map parse) made
          ∙ parse-frames_from body content_type id total sized narrow short 0 total (omega arith),
      omega (arith, count),
      subst (λ n. Chunks body content_type id n 0 fs) (sym count)
          (pieces-Chunks body content_type id total 0 total),
      joined-pieces body content_type id total 0 total (omega arith),
    )
