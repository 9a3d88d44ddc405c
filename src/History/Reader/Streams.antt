-- ===== src/History/Reader/Streams.antt =====
-- A whole stream of src/history/cth1.rs: what its writer made of a script of records, and what the
-- reader makes of the stream.
use construct_core.Prelude.{
  ℕ, ◌<◌, ◌+◌, ◌%◌, ◌^◌, leb, ◌==◌, if◌then◌else◌, Bool-cases, ◌≡◌, refl, sym, ap, ap₂, ◌∙◌, inl,
  inr, true, false, not, ◌&&◌, ◌||◌, Option, List, [], ◌∷◌, ◌++◌, arith, length, Result, ok, err,
  ◌>>=◌, ◌>>◌, >>=-eq-ok, ok-injective, fail_if-ok, fail_if,
}
use construct_core.History.{manifest_type, message_type, HistoryFailure, malformed}
use construct_core.History.Wire.{
  manifest, ManifestFields, message_body, Body, known, unknown, unset, well_formed,
}
use construct_core.History.Order.{Order}
use construct_core.History.Writer.{
  Writer, new_writer, is_unset, judge_written, write_record, media_head_bytes, begin_media,
  media_bytes, write_end,
}
use construct_core.History.MediaHead.{is_utf8}
use construct_core.History.Reader.{
  Event, transcript, skipped, stream_end, Envelope, judge, judge_manifest, judge_body, mismatch,
}
use construct_core.History.Reader.Records.{reading}
use construct_core.History.Reader.Media.{media_events}

-- A script: transcript records, and media blobs given whole.
pub data Item : Type 0 where
  record_item : (ty : ℕ) (proto : List ℕ) → Item
  media_item : (media_id mime_type blob : List ℕ) → Item

-- One call after the other; the bytes follow one another.
abbrev pub Written : Type 0
Written = Writer × Result HistoryFailure (List ℕ)

unfoldable pub appended : List ℕ → Written → Written
appended front (w, err f) = (w, err f)
appended front (w, ok bytes) = (w, ok (front ++ bytes))

unfoldable pub and_then : Written → (Writer → Written) → Written
and_then (w, err f) next = (w, err f)
and_then (w, ok bytes) next = appended bytes (next w)

unfoldable pub write_item : Writer → Item → Written
write_item w (record_item ty proto) = write_record w ty proto
write_item w (media_item media_id mime_type blob) =
    and_then (begin_media w media_id mime_type (length blob)) λ w'. media_bytes w' blob

unfoldable pub write_items : Writer → List Item → Written
write_items w [] = (w, ok [])
write_items w (item ∷ items) = and_then (write_item w item) λ w'. write_items w' items

unfoldable pub write_stream : List Item → Written
write_stream items = and_then (write_items new_writer items) write_end

-- What the reader says of a record and of a script.
unfoldable pub record_events : ℕ → List ℕ → List Event
record_events ty proto =
    if ty == message_type
    then elim (message_body proto) [ ok unknown ↦ skipped ty ∷ [] | _ ↦ transcript ty proto ∷ [] ]
    else transcript ty proto ∷ []

unfoldable pub item_events : Item → List Event
item_events (record_item ty proto) = record_events ty proto
item_events (media_item media_id mime_type blob) = media_events media_id mime_type blob

unfoldable pub script_events : List Item → List Event
script_events [] = stream_end ∷ []
script_events (item ∷ items) = item_events item ++ script_events items

-- The strings of a media blob are strings, and a `u64` counts its record; a manifest names the
-- snapshot and the account of the envelope.
abbrev pub IsItem : Option Envelope → Item → Type 0
IsItem envelope (record_item ty proto) =
    (m : ManifestFields)
    → ty ≡ manifest_type
    → manifest proto ≡ ok m
    → mismatch envelope m.snapshot_id m.user_id ≡ false
IsItem envelope (media_item media_id mime_type blob) =
    (is_utf8 media_id ≡ true)
    × (is_utf8 mime_type ≡ true)
    × (length (media_head_bytes media_id mime_type (length blob)) + length blob < 2 ^ 64)

-- What a body makes of a message.
unfoldable body_events : ℕ → List ℕ → Body → List Event
body_events ty proto unknown = skipped ty ∷ []
body_events ty proto body = transcript ty proto ∷ []

judge-body :
    (o o' : Order) (envelope : Option Envelope) (proto : List ℕ) (body : Body)
    → (fail_if (is_unset body) malformed >> ok o) ≡ ok o'
    → judge_body (reading o envelope) proto body
      ≡ ok (reading o' envelope, body_events message_type proto body)
unfolding judge_body body_events is_unset
judge-body o o' envelope proto known h =
    ap (λ q. ok (reading q envelope, transcript message_type proto ∷ [])) (ok-injective h)
judge-body o o' envelope proto unknown h =
    ap (λ q. ok (reading q envelope, skipped message_type ∷ [])) (ok-injective h)
judge-body o o' envelope proto unset h = cc

record_events-message :
    (ty : ℕ) (proto : List ℕ) (body : Body)
    → (ty == message_type) ≡ true
    → message_body proto ≡ ok body
    → record_events ty proto ≡ body_events message_type proto body
unfolding record_events body_events
record_events-message ty proto known e h =
    let f : ty ≡ message_type = ground arith in rw (e, h, f) refl
record_events-message ty proto unknown e h =
    let f : ty ≡ message_type = ground arith in rw (e, h, f) refl
record_events-message ty proto unset e h =
    let f : ty ≡ message_type = ground arith in rw (e, h, f) refl

record_events-other :
    (ty : ℕ) (proto : List ℕ)
    → (ty == message_type) ≡ false
    → transcript ty proto ∷ [] ≡ record_events ty proto
unfolding record_events
record_events-other ty proto e = rw e refl

-- A message, with its body at hand.
judge_message :
    (o o' : Order) (envelope : Option Envelope) (ty : ℕ) (proto : List ℕ) (body : Body)
    → (ty == message_type) ≡ true
    → message_body proto ≡ ok body
    → (fail_if (is_unset body) malformed >> ok o) ≡ ok o'
    → (message_body proto >>= λ b. judge_body (reading o envelope) proto b)
      ≡ ok (reading o' envelope, record_events ty proto)
judge_message o o' envelope ty proto body g f h =
    ap (λ r. r >>= λ b. judge_body (reading o envelope) proto b) f
    ∙ judge-body o o' envelope proto body h
    ∙ ap (λ es. ok (reading o' envelope, es)) (sym (record_events-message ty proto body g f))

-- The manifest, with its fields at hand.
judge_named :
    (o o' : Order) (envelope : Option Envelope) (ty : ℕ) (proto : List ℕ) (m : ManifestFields)
    → (ty == manifest_type) ≡ true
    → manifest proto ≡ ok m
    → mismatch envelope m.snapshot_id m.user_id ≡ false
    → (fail_if (not (m.format_version == 1) || not (leb 1 m.phase && leb m.phase 3)) malformed
        >> ok (record o { phase = m.phase % 2 ^ 8 }))
      ≡ ok o'
    → judge_manifest (reading o envelope) proto ≡ ok (reading o' envelope, record_events ty proto)
unfolding judge_manifest
judge_named o o' envelope ty proto m e f named h =
    let (g, h2) =
      fail_if-ok (not (m.format_version == 1) || not (leb 1 m.phase && leb m.phase 3)) malformed _
        o' h in
    let at : ty ≡ manifest_type = ground arith in
    let version : (m.format_version == 1) ≡ true = ground arith in
    let phases : (leb 1 m.phase && leb m.phase 3) ≡ true = ground arith in
    let other : (ty == message_type) ≡ false = ground arith in
    rw (f, version, phases, named)
      (ap₂ (λ q (es : List Event). ok (reading q envelope, es)) (ok-injective h2)
        (ap (λ k. transcript k proto ∷ []) (sym at) ∙ record_events-other ty proto other))

-- The reader judges a record as the writer did.
pub judge-judge_written :
    (o o' : Order) (envelope : Option Envelope) (ty : ℕ) (proto : List ℕ)
    → judge_written o ty proto ≡ ok o'
    → IsItem envelope (record_item ty proto)
    → judge (reading o envelope) ty proto ≡ ok (reading o' envelope, record_events ty proto)
unfolding judge judge_written
judge-judge_written o o' envelope ty proto h named = elim (Bool-cases (ty == manifest_type)) [
  | inl e ↦
      let (m, f, h1) = >>=-eq-ok (manifest proto) _ (rw e at h) in
      let at : ty ≡ manifest_type = ground arith in
      rw e (judge_named o o' envelope ty proto m e f (named m at f) h1)
  | inr e ↦ elim (Bool-cases (ty == message_type)) [
    | inl g ↦
        let (body, f, h1) = >>=-eq-ok (message_body proto) _ (rw (e, g) at h) in
        rw (e, g) (judge_message o o' envelope ty proto body g f h1)
    | inr g ↦
        let (_, f, h1) = >>=-eq-ok (well_formed proto) _ (rw (e, g) at h) in
        rw (e, g, f)
          (ap₂ (λ q (es : List Event). ok (reading q envelope, es)) (ok-injective h1)
            (record_events-other ty proto g))
  ]
]
