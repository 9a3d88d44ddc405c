-- ===== src/History/Writer.antt =====
-- The writer of a CTH1 stream: `Writer` of src/history/cth1.rs. An operation returns the writer it
-- leaves, also when it refuses, and the bytes it appended. A string is its bytes.
use construct_core.Prelude.{
  ℕ, ◌+◌, ◌-◌, ◌%◌, ◌^◌, ltb, leb, ◌==◌, if◌then◌else◌, Bool, true, false, not, ◌&&◌, ◌||◌, List,
  [], ◌∷◌, ◌++◌, length, to_le_bytes, Result, ok, err, ◌>>=◌, ◌>>◌, fail_if,
}
use construct_core.History.{
  max_record_bytes, end_type, manifest_type, message_type, call_type, media_blob_type,
  HistoryFailure, malformed, record_order,
}
use construct_core.History.Wire.{
  manifest, message_body, Body, well_formed, tag, write_varint, unset,
}
use construct_core.History.Order.{Order, default_order, check}

abbrev pub cth1_magic : List ℕ
cth1_magic = 67 ∷ 84 ∷ 72 ∷ 49 ∷ []

abbrev pub cth1_version : ℕ
cth1_version = 1

abbrev pub media_head_cap : ℕ
media_head_cap = 4096

pub record Writer : Type 0 where
  pub order : Order
  pub started : Bool
  pub ended : Bool
  pub media_remaining : ℕ

abbrev pub new_writer : Writer
new_writer = record { order = default_order; started = false; ended = false; media_remaining = 0 }

-- The preamble, on the first call only; every call that writes marks the writer as started.
unfoldable pub preamble : Writer → List ℕ
preamble w = if w.started then [] else cth1_magic ++ cth1_version ∷ []

unfoldable pub ready : Writer → Result HistoryFailure (Unit {0})
ready w = fail_if (w.ended || ltb 0 w.media_remaining) record_order

unfoldable pub is_unset : Body → Bool
is_unset unset = true
is_unset body = false

-- The judgement of a record's bytes: the phase of the stream from there on.
unfoldable pub judge_written : Order → ℕ → List ℕ → Result HistoryFailure Order
judge_written o ty proto =
    if ty == manifest_type
    then (do
      m ← manifest proto
      fail_if (not (m.format_version == 1) || not (leb 1 m.phase && leb m.phase 3)) malformed
      ok (record o { phase = m.phase % 2 ^ 8 }))
    else if ty == message_type
    then (do body ← message_body proto; fail_if (is_unset body) malformed; ok o)
    else well_formed proto >> ok o

-- The guards of `record` and its order check.
unfoldable pub admit_record : Writer → ℕ → List ℕ → Result HistoryFailure Order
admit_record w ty proto = do
  ready w
  fail_if (not (leb manifest_type ty && leb ty call_type)) malformed
  fail_if (ltb max_record_bytes (length proto)) malformed
  check w.order ty

unfoldable pub framed_record : ℕ → List ℕ → List ℕ
framed_record ty proto = ty ∷ (to_le_bytes 8 (length proto) ++ proto)

-- What the order check let through is judged; a refusal after the check leaves the new order.
unfoldable pub write_judged :
    Writer → ℕ → List ℕ → Result HistoryFailure Order → Writer × Result HistoryFailure (List ℕ)
write_judged w ty proto (err f) = (w, err f)
write_judged w ty proto (ok order) =
    (record w { order = order; started = true }, ok (preamble w ++ framed_record ty proto))

unfoldable pub write_admitted :
    Writer → ℕ → List ℕ → Result HistoryFailure Order → Writer × Result HistoryFailure (List ℕ)
write_admitted w ty proto (err f) = (w, err f)
write_admitted w ty proto (ok order) =
    write_judged (record w { order = order }) ty proto (judge_written order ty proto)

unfoldable pub write_record : Writer → ℕ → List ℕ → Writer × Result HistoryFailure (List ℕ)
write_record w ty proto = write_admitted w ty proto (admit_record w ty proto)

unfoldable pub head_string : ℕ → List ℕ → List ℕ
head_string number text = tag number 2 ∷ (write_varint (length text) ++ text)

unfoldable pub is_empty : List ℕ → Bool
is_empty [] = true
is_empty (b ∷ bs) = false

-- An empty type and an empty blob have no field.
unfoldable pub type_field : List ℕ → List ℕ
type_field mime_type = if is_empty mime_type then [] else head_string 2 mime_type

unfoldable pub blob_field : ℕ → List ℕ
blob_field byte_len = if ltb 0 byte_len then tag 3 2 ∷ write_varint byte_len else []

-- The fields of a media blob ahead of its bytes.
unfoldable pub media_head_bytes : List ℕ → List ℕ → ℕ → List ℕ
media_head_bytes media_id mime_type byte_len =
    head_string 1 media_id ++ (type_field mime_type ++ blob_field byte_len)

-- The guards of `begin_media` and its order check.
unfoldable pub admit_media : Writer → List ℕ → List ℕ → ℕ → Result HistoryFailure Order
admit_media w media_id head byte_len = do
  ready w
  fail_if (is_empty media_id) malformed
  fail_if (ltb media_head_cap (length head)) malformed
  fail_if (ltb max_record_bytes ((length head + byte_len) % 2 ^ 64)) malformed
  check w.order media_blob_type

unfoldable pub media_admitted :
    Writer → List ℕ → ℕ → Result HistoryFailure Order → Writer × Result HistoryFailure (List ℕ)
media_admitted w head byte_len (err f) = (w, err f)
media_admitted w head byte_len (ok order) = (
  record w { order = order; started = true; media_remaining = byte_len },
  ok (preamble w ++ media_blob_type ∷ (to_le_bytes 8 ((length head + byte_len) % 2 ^ 64) ++ head)),
)

unfoldable pub begin_media : Writer → List ℕ → List ℕ → ℕ → Writer × Result HistoryFailure (List ℕ)
begin_media w media_id mime_type byte_len =
    let head = media_head_bytes media_id mime_type byte_len in
    media_admitted w head byte_len (admit_media w media_id head byte_len)

unfoldable pub media_bytes : Writer → List ℕ → Writer × Result HistoryFailure (List ℕ)
media_bytes w piece =
    if ltb w.media_remaining (length piece)
    then (w, err malformed)
    else (record w { media_remaining = w.media_remaining - length piece }, ok piece)

unfoldable pub end_admitted :
    Writer → Result HistoryFailure Order → Writer × Result HistoryFailure (List ℕ)
end_admitted w (err f) = (w, err f)
end_admitted w (ok order) =
    (record w { order = order; started = true; ended = true }, ok (preamble w ++ end_type ∷ []))

unfoldable pub write_end : Writer → Writer × Result HistoryFailure (List ℕ)
write_end w = end_admitted w (ready w >> check w.order end_type)
