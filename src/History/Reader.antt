-- ===== src/History/Reader.antt =====
-- The incremental reader of a CTH1 stream: `Reader` of src/history/cth1.rs. A step returns the
-- reader, the data that is left and the events it appended.
pub mod Payload
pub mod Steps
pub mod Progress
pub mod Runs
pub mod Records
pub mod Media
pub mod Streams
pub mod Transfer
pub mod Failure
mod Examples
use construct_core.Prelude.{
  ℕ, zero, suc, ◌+◌, ◌-◌, ◌*◌, ◌%◌, ◌^◌, min, ltb, leb, ◌==◌, if◌then◌else◌, Bool, false, not, ◌&&◌,
  Option, none, some, List, [], ◌∷◌, ◌++◌, length, get_or, take, drop, from_le_bytes, Result, ok,
  err, ◌>>=◌, ◌>>◌, bytes_eq, fail_if,
}
use mathlib.Core.Option
use construct_core.History.{
  max_record_bytes, end_type, manifest_type, message_type, call_type, media_blob_type,
  HistoryFailure, malformed, truncated, unknown_version, envelope_manifest_mismatch,
}
use construct_core.History.Wire.{manifest, message_body, Body, well_formed, known, unknown, unset}
use construct_core.History.Order.{Order, default_order, check}
use construct_core.History.Writer.{cth1_magic, cth1_version, media_head_cap, is_empty}
use construct_core.History.MediaHead.{media_head, MediaHead}

pub data Event : Type 0 where
  transcript : (record_type : ℕ) (proto : List ℕ) → Event
  skipped : (record_type : ℕ) → Event
  media_start : (media_id mime_type : List ℕ) (byte_len : ℕ) → Event
  media_piece : (piece : List ℕ) → Event
  media_end : Event
  stream_end : Event

pub record Envelope : Type 0 where
  pub snapshot_id : List ℕ
  pub user_id : List ℕ

pub data State : Type 0 where
  at_preamble : State
  at_header : State
  in_record : (record_type remaining : ℕ) → State
  in_discard : (record_type remaining : ℕ) → State
  in_media_head : (payload_len : ℕ) → State
  in_media_blob : (remaining : ℕ) → State
  done : State
  failed : (why : HistoryFailure) → State

pub record Reader : Type 0 where
  pub state : State
  pub buf : List ℕ
  pub order : Order
  pub envelope : Option Envelope

unfoldable pub new_reader : Option Envelope → Reader
new_reader envelope = record {
  state = at_preamble;
  buf = [];
  order = default_order;
  envelope = envelope;
}

abbrev pub preamble_len : ℕ
preamble_len = 5

abbrev pub record_header_len : ℕ
record_header_len = 9

-- `fill`: the buffer grows to `len` bytes at most, and the data behind is left.
unfoldable pub filled : List ℕ → List ℕ → ℕ → List ℕ
filled buf data' len = buf ++ take (len - length buf) data'

unfoldable pub unfilled : List ℕ → List ℕ → ℕ → List ℕ
unfilled buf data' len = drop (len - length buf) data'

-- The manifest has to name the envelope's snapshot and account, if there is an envelope.
unfoldable pub mismatch : Option Envelope → List ℕ → List ℕ → Bool
mismatch none snapshot_id user_id = false
mismatch (some e) snapshot_id user_id =
    not (bytes_eq snapshot_id e.snapshot_id && bytes_eq user_id e.user_id)

unfoldable pub judge_manifest : Reader → List ℕ → Result HistoryFailure (Reader × List Event)
judge_manifest r proto = do
  m ← manifest proto
  fail_if (not (m.format_version == 1)) unknown_version
  fail_if (not (leb 1 m.phase && leb m.phase 3)) malformed
  fail_if (mismatch r.envelope m.snapshot_id m.user_id) envelope_manifest_mismatch
  ok (
    record r { order = record r.order { phase = m.phase % 2 ^ 8 } },
    transcript manifest_type proto ∷ [],
  )

unfoldable pub judge_body : Reader → List ℕ → Body → Result HistoryFailure (Reader × List Event)
judge_body r proto known = ok (r, transcript message_type proto ∷ [])
judge_body r proto unknown = ok (r, skipped message_type ∷ [])
judge_body r proto unset = err malformed

-- `record`: a complete transcript record is judged and emitted.
unfoldable pub judge : Reader → ℕ → List ℕ → Result HistoryFailure (Reader × List Event)
judge r ty proto =
    if ty == manifest_type
    then judge_manifest r proto
    else if ty == message_type
    then (do body ← message_body proto; judge_body r proto body)
    else well_formed proto >> ok (r, transcript ty proto ∷ [])

unfoldable pub complete_empty : Reader → State → Result HistoryFailure (Reader × List Event)
complete_empty r (in_record ty remaining) = judge (record r { state = at_header }) ty []
complete_empty r (in_discard ty remaining) = ok (record r { state = at_header }, skipped ty ∷ [])
complete_empty r (in_media_head payload_len) = err malformed
complete_empty r other = ok (r, [])

pub record Turn : Type 0 where
  pub reader : Reader
  pub left : List ℕ
  pub events : List Event

abbrev pub turn : Reader → List ℕ → List Event → Turn
turn r left events = record { reader = r; left = left; events = events }

abbrev pub Stepped : Type 0
Stepped = Result HistoryFailure Turn

-- What is left of the data goes with the result.
unfoldable pub leaving : List ℕ → Result HistoryFailure (Reader × List Event) → Stepped
leaving data' (err f) = err f
leaving data' (ok (r, events)) = ok (turn r data' events)

unfoldable pub step_preamble : Reader → List ℕ → Stepped
step_preamble r data' =
    let buf' = filled r.buf data' preamble_len in
    let left = unfilled r.buf data' preamble_len in
    if not (length buf' == preamble_len)
    then ok (turn (record r { buf = buf' }) left [])
    else fail_if (not (bytes_eq (take 4 buf') cth1_magic)) malformed
      >> (fail_if (not (get_or buf' 4 0 == cth1_version)) unknown_version
          >> ok (turn (record r { buf = []; state = at_header }) left []))

-- The state that a record's header opens.
unfoldable pub open_record : Reader → ℕ → ℕ → Result HistoryFailure Reader
open_record r ty len =
    if leb manifest_type ty && leb ty call_type
    then (do order ← check r.order ty; ok (record r { order = order; state = in_record ty len }))
    else if ty == media_blob_type
    then (do order ← check r.order ty; ok (record r { order = order; state = in_media_head len }))
    else ok (record r { state = in_discard ty len })

-- A zero-length payload completes at once.
unfoldable pub begin_record : Reader → ℕ → ℕ → Result HistoryFailure (Reader × List Event)
begin_record r ty len = do
  fail_if (ltb max_record_bytes len) malformed
  opened ← open_record r ty len
  if len == 0 then complete_empty opened opened.state else ok (opened, [])

unfoldable pub step_header : Reader → List ℕ → Stepped
step_header r data' =
    if is_empty r.buf && get_or data' 0 1 == end_type
    then (do
      order ← check r.order end_type
      ok (turn (record r { order = order; state = done }) (drop 1 data') (stream_end ∷ [])))
    else let buf' = filled r.buf data' record_header_len in
      let left = unfilled r.buf data' record_header_len in
      if not (length buf' == record_header_len)
      then ok (turn (record r { buf = buf' }) left [])
      else leaving left
          (begin_record (record r { buf = [] }) (get_or buf' 0 0) (from_le_bytes (drop 1 buf')))

-- `take` and `drop` stop at the end of the data, as `take_len` does.
unfoldable pub step_record : Reader → ℕ → ℕ → List ℕ → Stepped
step_record r ty remaining data' =
    let buf' = r.buf ++ take remaining data' in
    if ltb (length data') remaining
    then ok (turn (record r { buf = buf'; state = in_record ty (remaining - length data') }) [] [])
    else leaving (drop remaining data') (judge (record r { buf = []; state = at_header }) ty buf')

unfoldable pub step_discard : Reader → ℕ → ℕ → List ℕ → Stepped
step_discard r ty remaining data' =
    if ltb (length data') remaining
    then ok (turn (record r { state = in_discard ty (remaining - length data') }) [] [])
    else ok (turn (record r { state = at_header }) (drop remaining data') (skipped ty ∷ []))

unfoldable pub step_blob : Reader → ℕ → List ℕ → Stepped
step_blob r remaining data' =
    if ltb (length data') remaining
    then ok (
        turn (record r { state = in_media_blob (remaining - length data') }) []
          (media_piece data' ∷ []))
    else ok (
        turn (record r { state = at_header }) (drop remaining data')
          (media_piece (take remaining data') ∷ media_end ∷ []))

-- A head that is complete: the data behind it is the blob's.
unfoldable pub head_done : Reader → List ℕ → MediaHead → Stepped
head_done r data' head =
    let left = drop (head.consumed - length r.buf) data' in
    let start = media_start head.media_id head.mime_type head.blob_len in
    if head.blob_len == 0
    then ok (turn (record r { buf = []; state = at_header }) left (start ∷ media_end ∷ []))
    else ok (turn (record r { buf = []; state = in_media_blob head.blob_len }) left (start ∷ []))

unfoldable pub step_media_head : Reader → ℕ → List ℕ → Stepped
step_media_head r payload_len data' =
    let want = min payload_len media_head_cap in
    let buf' = filled r.buf data' want in
    media_head buf' payload_len >>= λ found. elim found [
      | none ↦
          if leb want (length buf')
          then err malformed
          else ok (turn (record r { buf = buf' }) (unfilled r.buf data' want) [])
      | some head ↦ head_done r data' head
    ]

unfoldable pub step : Reader → State → List ℕ → Stepped
step r at_preamble data' = step_preamble r data'
step r at_header data' = step_header r data'
step r (in_record ty remaining) data' = step_record r ty remaining data'
step r (in_discard ty remaining) data' = step_discard r ty remaining data'
step r (in_media_head payload_len) data' = step_media_head r payload_len data'
step r (in_media_blob remaining) data' = step_blob r remaining data'
step r done data' = err malformed
step r (failed f) data' = err f

-- What a push leaves: the reader, the events it appended, and whether it failed.
pub record Pushed : Type 0 where
  pub reader : Reader
  pub events : List Event
  pub outcome : Result HistoryFailure (Unit {0})

unfoldable pub after : List Event → Pushed → Pushed
after events p = record p { events = events ++ p.events }

-- A failure is kept as the state. What the failing step did to the order is never read again.
unfoldable pub fail_with : Reader → HistoryFailure → Pushed
fail_with r f = record {
  reader = record r { state = failed f; buf = [] };
  events = [];
  outcome = err f;
}

-- `while !data.is_empty()`, on fuel: `none` when it runs out.
unfoldable pub push_loop : ℕ → Reader → List ℕ → Option Pushed
push_loop fuel r [] = some (record { reader = r; events = []; outcome = ok tt })
push_loop zero r (b ∷ bs) = none
push_loop (suc fuel) r (b ∷ bs) = elim (step r r.state (b ∷ bs)) [
  | err f ↦ some (fail_with r f)
  | ok t ↦ Option.map (after t.events) (push_loop fuel t.reader t.left)
]

-- A step takes a byte at least, or leaves a media head, so this is fuel enough.
unfoldable pub push_running : Reader → State → List ℕ → Option Pushed
push_running r (failed f) data' = some (record { reader = r; events = []; outcome = err f })
push_running r state data' = push_loop (2 * length data' + 1) r data'

unfoldable pub push : Reader → List ℕ → Option Pushed
push r data' = push_running r r.state data'

-- The stream is over: anything short of a complete end is truncated.
unfoldable pub finish : Reader → State → Reader × Result HistoryFailure (Unit {0})
finish r done = (r, ok tt)
finish r (failed f) = (r, err f)
finish r other = (record r { state = failed truncated }, err truncated)
