-- ===== src/Knst.antt =====
-- src/knst.rs: the frame that every message body is put in before it is encrypted.
-- A message id is the list of its 16 bytes. The hexadecimal form of an id is not modelled.
pub mod RoundTrip
pub mod Chunks
mod Examples
use construct_core.Prelude.{
  ℕ, zero, suc, ◌+◌, ◌-◌, ◌*◌, ◌/◌, ◌%◌, ◌^◌, min, max, ltb, leb, ◌==◌, if◌then◌else◌, Bool, false,
  not, ◌&&◌, ◌||◌, Option, none, some, List, [], ◌∷◌, ◌++◌, map, length, get_or, take, drop,
  to_le_bytes, from_le_bytes, slice, bytes_eq,
}
use mathlib.Core.Option
use mathlib.Core.List.{reverse}

abbrev pub magic : List ℕ
magic = 0x4B ∷ 0x4E ∷ 0x53 ∷ 0x54 ∷ []

abbrev pub version : ℕ
version = 0x01

abbrev pub header_len : ℕ
header_len = 30

abbrev pub chunk_payload_size : ℕ
chunk_payload_size = 3770

abbrev pub max_chunks : ℕ
max_chunks = 256

abbrev pub silent_control_types : List ℕ
silent_control_types = 12 ∷ 13 ∷ 14 ∷ 25 ∷ 26 ∷ 27 ∷ 29 ∷ 30 ∷ []

pub is_silent_control : ℕ → Bool
is_silent_control content_type = one_of silent_control_types
  where
    one_of : List ℕ → Bool
    one_of [] = false
    one_of (t ∷ ts) = t == content_type || one_of ts

abbrev pub to_be_bytes : ℕ → ℕ → List ℕ
to_be_bytes k v = reverse (to_le_bytes k v)

abbrev pub from_be_bytes : List ℕ → ℕ
from_be_bytes bytes = from_le_bytes (reverse bytes)

pub record Frame : Type 0 where
  pub content_type : ℕ
  pub message_id : List ℕ
  pub chunk_index : ℕ
  pub total_chunks : ℕ
  pub plaintext_length : ℕ
  pub payload : List ℕ

-- The frame that `Frame::parse` builds once its tests have passed.
abbrev pub read_frame : List ℕ → Frame
read_frame bytes = record {
  content_type = get_or bytes 5 0;
  message_id = slice bytes 6 22;
  chunk_index = from_be_bytes (slice bytes 22 24);
  total_chunks = from_be_bytes (slice bytes 24 26);
  plaintext_length = from_be_bytes (slice bytes 26 30);
  payload = drop header_len bytes;
}

pub parse : List ℕ → Option Frame
parse bytes =
    if ltb (length bytes) header_len
      || not (bytes_eq (take 4 bytes) magic)
      || not (get_or bytes 4 0 == version)
    then none
    else some (read_frame bytes)

pub control_body : Frame → Option (List ℕ)
control_body frame =
    if frame.total_chunks == 1 && leb frame.plaintext_length (length frame.payload)
    then some (take frame.plaintext_length frame.payload)
    else none

pub frame :
    (body : List ℕ) (content_type : ℕ) (message_id : List ℕ)
    → (chunk_index total_chunks plaintext_length : ℕ) → List ℕ
frame body content_type message_id chunk_index total_chunks plaintext_length =
    magic
    ++ (version
        ∷ content_type
        ∷ (message_id
            ++ (to_be_bytes 2 chunk_index
                ++ (to_be_bytes 2 total_chunks ++ (to_be_bytes 4 plaintext_length ++ body)))))

pub frame_whole : List ℕ → ℕ → List ℕ → Option (List ℕ)
frame_whole body content_type message_id =
    if ltb (length body) (2 ^ 32)
    then some (frame body content_type message_id 0 1 (length body))
    else none

-- The frames from chunk `i` on, `count` of them: the map over `0..total`.
pub frames_from : List ℕ → ℕ → List ℕ → (total i count : ℕ) → List (List ℕ)
frames_from body content_type message_id total i zero = []
frames_from body content_type message_id total i (suc count) =
    let start = i * chunk_payload_size in
    let end = min (start + chunk_payload_size) (length body) in
    frame (slice body start end) content_type message_id (i % 2 ^ 16) total (length body)
    ∷ frames_from body content_type message_id total (i + 1) count

-- `body.len().div_ceil(CHUNK_PAYLOAD_SIZE).max(1)`.
abbrev pub chunks_of : ℕ → ℕ
chunks_of n = max ((n + (chunk_payload_size - 1)) / chunk_payload_size) 1

pub encode_chunks : List ℕ → ℕ → List ℕ → Option (List (List ℕ))
encode_chunks body content_type message_id =
    let total = chunks_of (length body) in
    let frames = frames_from body content_type message_id total 0 total in
    if ltb max_chunks total
    then none
    else if not (ltb (length body) (2 ^ 32))
    then none
    else if not (ltb total (2 ^ 16))
    then none
    else some frames

pub control_frame : List ℕ → Option (ℕ × List ℕ)
control_frame plaintext = elim (parse plaintext) [
  | none ↦ none
  | some frame ↦ Option.map (λ body. (frame.content_type, body)) (control_body frame)
]
