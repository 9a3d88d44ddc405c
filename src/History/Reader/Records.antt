-- ===== src/History/Reader/Records.antt =====
-- The reader of src/history/cth1.rs takes the preamble and the records that its writer frames.
use construct_core.Prelude.{
  ℕ, ◌≤◌, ◌<◌, ◌^◌, leb, ◌==◌, if◌then◌else◌, le→ltb, pos→==_zero, ◌≡◌, refl, ap, ◌∙◌, true, false,
  Option, List, [], ◌∷◌, ◌++◌, arith, length, length-append, take-append_left, drop-append_left,
  to_le_bytes, from_le_bytes-to_le_bytes, ok,
}
use construct_core.History.{max_record_bytes, call_type, manifest_type, end_type}
use construct_core.History.Order.{Order, check}
use construct_core.History.Writer.{cth1_magic, cth1_version, is_empty, framed_record}
use construct_core.History.Reader.{
  at_preamble, Event, State, Reader, Envelope, turn, at_header, in_record, step, filled, unfilled,
  step_preamble, step_header, step_record, begin_record, open_record, complete_empty, leaving,
  judge,
}
use construct_core.History.Reader.Runs.{go, Takes}

-- The reader between two records.
abbrev pub reading : Order → Option Envelope → Reader
reading o envelope = record { state = at_header; buf = []; order = o; envelope = envelope }

-- The reader before the preamble.
abbrev pub waiting : Order → Option Envelope → Reader
waiting o envelope = record { state = at_preamble; buf = []; order = o; envelope = envelope }

pub Takes-preamble :
    (o : Order) (envelope : Option Envelope)
    → Takes (waiting o envelope) (cth1_magic ++ cth1_version ∷ []) (reading o envelope) []
unfolding step step_preamble filled unfilled
Takes-preamble o envelope rest last more run = go (turn _ rest []) refl run

-- A header opens its record; the payload is `rest`.
pub step_header-begin :
    (o : Order) (envelope : Option Envelope) (ty len : ℕ) (rest : List ℕ)
    → (ty == end_type) ≡ false
    → len < 256 ^ 8
    → step (reading o envelope) at_header (ty ∷ (to_le_bytes 8 len ++ rest))
      ≡ leaving rest (begin_record (reading o envelope) ty len)
unfolding step step_header filled unfilled is_empty
step_header-begin o envelope ty len rest e small =
    rw (e, from_le_bytes-to_le_bytes 8 len small) refl

ty≢end : (ty : ℕ) → leb manifest_type ty ≡ true → (ty == end_type) ≡ false
ty≢end ty h = ground arith

-- The state of a reader within a record's payload.
abbrev pub inside : State → Order → Option Envelope → Reader
inside s o envelope = record { state = s; buf = []; order = o; envelope = envelope }

module _ (o o1 o' : Order) (envelope : Option Envelope) (ty : ℕ) (events : List Event)
    (low : leb manifest_type ty ≡ true) (high : leb ty call_type ≡ true)
    (checked : check o ty ≡ ok o1) where
  begin_record-inside :
      (len : ℕ)
      → len ≤ max_record_bytes
      → begin_record (reading o envelope) ty len ≡ (
          if len == 0
          then complete_empty (inside (in_record ty len) o1 envelope) (in_record ty len)
          else ok (inside (in_record ty len) o1 envelope, []))
  unfolding begin_record open_record
  begin_record-inside len small = rw (le→ltb max_record_bytes len small, low, high, checked) refl

  step-empty :
      (rest : List ℕ)
      → judge (reading o1 envelope) ty [] ≡ ok (reading o' envelope, events)
      → step (reading o envelope) at_header (framed_record ty [] ++ rest)
        ≡ ok (turn (reading o' envelope) rest events)
  unfolding framed_record complete_empty leaving
  step-empty rest judged =
      step_header-begin o envelope ty 0 rest (ty≢end ty low) (omega arith)
      ∙ ap (leaving rest) (begin_record-inside 0 (omega arith) ∙ judged)

  step-record :
      (proto rest : List ℕ)
      → judge (reading o1 envelope) ty proto ≡ ok (reading o' envelope, events)
      → step
          (inside (in_record ty (length proto)) o1 envelope)
          (in_record ty (length proto))
          (proto ++ rest)
        ≡ ok (turn (reading o' envelope) rest events)
  unfolding step step_record leaving
  step-record proto rest judged =
      rw
        (
          le→ltb (length (proto ++ rest)) (length proto) (omega (arith, length-append proto rest)),
          take-append_left (length proto) proto rest refl,
          drop-append_left (length proto) proto rest refl,
          judged,
        )
        refl

  pub Takes-record :
      (proto : List ℕ)
      → length proto ≤ max_record_bytes
      → judge (reading o1 envelope) ty proto ≡ ok (reading o' envelope, events)
      → Takes (reading o envelope) (framed_record ty proto) (reading o' envelope) events
  unfolding framed_record leaving
  Takes-record [] small judged rest last more run =
      go (turn (reading o' envelope) rest events) (step-empty rest judged) run
  Takes-record (b ∷ bs) small judged rest last more run =
      let len = length (b ∷ bs) in
      go (turn (inside (in_record ty len) o1 envelope) ((b ∷ bs) ++ rest) [])
        (step_header-begin o envelope ty len ((b ∷ bs) ++ rest) (ty≢end ty low) (omega arith)
          ∙ ap (leaving ((b ∷ bs) ++ rest)) (begin_record-inside len small)
          ∙ rw (pos→==_zero len (omega arith)) refl)
        (go (turn (reading o' envelope) rest events) (step-record (b ∷ bs) rest judged) run)
