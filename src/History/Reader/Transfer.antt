-- ===== src/History/Reader/Transfer.antt =====
-- The reader of src/history/cth1.rs takes every stream that the writer of the same file completes.
use construct_core.Prelude.{
  subst, append_assoc, ℕ, ◌≤◌, ◌+◌, ◌-◌, ◌%◌, ◌^◌, ltb, leb, le→ltb, ◌≡◌, refl, sym, ap, ◌∙◌, inl,
  inr, Bool, true, false, not, ◌&&◌, Option, some, List, [], ◌∷◌, ◌++◌, arith, length, All,
  to_le_bytes, ok, err, ◌>>◌, >>=-eq-ok, ok-injective, fail_if-ok, Result-cases,
}
use construct_core.History.{
  end_type, call_type, media_blob_type, manifest_type, max_record_bytes, HistoryFailure, malformed,
}
use construct_core.History.Order.{Order, default_order, check}
use construct_core.History.Writer.{
  Writer, new_writer, preamble, ready, is_empty, judge_written, admit_record, framed_record,
  write_judged, write_admitted, write_record, media_head_bytes, media_head_cap, admit_media,
  media_admitted, begin_media, media_bytes, end_admitted, write_end,
}
use construct_core.History.MediaHead.{no_text}
use construct_core.History.Reader.{
  Event, stream_end, Reader, Envelope, turn, new_reader, done, step, step_header, finish, push,
}
use construct_core.History.Reader.Runs.{Runs, stop, go, Takes, Takes-append, Runs-push}
use construct_core.History.Reader.Records.{reading, waiting, Takes-preamble, Takes-record}
use construct_core.History.Reader.Media.{media_events, Takes-media}
use construct_core.History.Reader.Streams.{
  Item, record_item, media_item, Written, appended, and_then, write_item, write_items, write_stream,
  record_events, item_events, script_events, IsItem, judge-judge_written,
}

-- The reader that has read what the writer wrote.
abbrev following : Bool → Order → Option Envelope → Reader
following false o envelope = waiting o envelope
following true o envelope = reading o envelope

Takes-nothing : (r : Reader) → Takes r [] r []
Takes-nothing r rest last more run = run

Takes-start :
    (started : Bool) (w : Writer) (envelope : Option Envelope)
    → w.started ≡ started
    → Takes (following started w.order envelope) (preamble w) (reading w.order envelope) []
unfolding preamble
Takes-start false w envelope e = rw e (Takes-preamble w.order envelope)
Takes-start true w envelope e = rw e (Takes-nothing (reading w.order envelope))

-- A call that wrote `out` took the reader along.
record Followed (envelope : Option Envelope) (w w' : Writer) (out : List ℕ) (events : List Event)
    : Type 0 where
  takes :
      Takes
        (following w.started w.order envelope)
        out
        (following w'.started w'.order envelope)
        events
  owed : w'.media_remaining ≡ 0

failed_call :
    {w w' : Writer} {f : HistoryFailure} {out : List ℕ} {P : Type 0}
    → ◌≡◌ {A = Written} (w, err f) (w', ok out)
    → P
failed_call h = let k = ap (λ q. q.1) h in cc

settle :
    {envelope : Option Envelope} {w w1 w' : Writer} {made out : List ℕ} {events : List Event}
    → ◌≡◌ {A = Written} (w1, ok made) (w', ok out)
    → Followed envelope w w1 made events
    → Followed envelope w w' out events
settle {envelope} {w} {w1} {w'} {made} {out} {events} h f =
    subst (λ (q : Writer). Followed envelope w q out events) (ap (λ q. q.0) h)
      (subst (λ b. Followed envelope w w1 b events) (ok-injective (ap (λ q. q.1) h)) f)

-- The preamble, if it is due, and what stands behind it.
behind_preamble :
    (envelope : Option Envelope) (w : Writer) (o : Order) (body : List ℕ) (events : List Event)
    → Takes (reading w.order envelope) body (reading o envelope) events
    → Takes (following w.started w.order envelope) (preamble w ++ body) (reading o envelope) events
behind_preamble envelope w o body events f =
    Takes-append (following w.started w.order envelope) (reading w.order envelope)
      (reading o envelope) (preamble w) body [] events (Takes-start w.started w envelope refl) f

record-Followed :
    (envelope : Option Envelope) (w w' : Writer) (ty : ℕ) (proto out : List ℕ)
    → w.media_remaining ≡ 0
    → IsItem envelope (record_item ty proto)
    → write_record w ty proto ≡ (w', ok out)
    → Followed envelope w w' out (record_events ty proto)
unfolding write_record write_admitted write_judged admit_record preamble
record-Followed envelope w w' ty proto out clear named h =
    elim (Result-cases (admit_record w ty proto)) [
      | inr (f, e) ↦ let k = rw (e, write_admitted) at h in failed_call k
      | inl (o1, e) ↦
          let k = rw (e, write_admitted) at h in
          elim (Result-cases (judge_written o1 ty proto)) [
            | inr (f, g) ↦ let l = rw (g, write_judged) at k in failed_call l
            | inl (o2, g) ↦
                let l = rw (g, write_judged) at k in
                let (_, _, e1) = >>=-eq-ok (ready w) _ e in
                let (range, e2) =
                  fail_if-ok (not (leb manifest_type ty && leb ty call_type)) malformed _ o1 e1 in
                let (sized, checked) =
                  fail_if-ok (ltb max_record_bytes (length proto)) malformed _ o1 e2 in
                let low : leb manifest_type ty ≡ true = ground arith in
                let high : leb ty call_type ≡ true = ground arith in
                settle l record {
                  takes =
                      behind_preamble envelope w o2 (framed_record ty proto)
                        (record_events ty proto)
                        (Takes-record w.order o1 o2 envelope ty (record_events ty proto) low high
                          checked proto (ground arith)
                          (judge-judge_written o1 o2 envelope ty proto g named));
                  owed = clear;
                }
          ]
    ]

media_bytes-whole :
    (w : Writer) (blob : List ℕ)
    → w.media_remaining ≡ length blob
    → media_bytes w blob ≡ (record w { media_remaining = 0 }, ok blob)
unfolding media_bytes
media_bytes-whole w blob e =
    let left : w.media_remaining - length blob ≡ 0 = omega (arith, e) in
    rw (le→ltb w.media_remaining (length blob) (omega (arith, e)))
      (λ i. (record w { media_remaining = left i }, ok blob))

not_empty : (text : List ℕ) → is_empty text ≡ false → no_text text ≡ false
unfolding is_empty no_text
not_empty [] h = h
not_empty (b ∷ bs) h = refl

not_above : (a b : ℕ) → ltb a b ≡ false → b ≤ a
not_above a b h = ground arith

bounded :
    (n : ℕ) → n % 2 ^ 64 ≡ n → ltb max_record_bytes (n % 2 ^ 64) ≡ false → n ≤ max_record_bytes
bounded n e h = ground (arith, ap (ltb max_record_bytes) (sym e))

-- `begin_media`, and the whole blob after it.
media-Followed :
    (envelope : Option Envelope) (w w' : Writer) (media_id mime_type blob out : List ℕ)
    → w.media_remaining ≡ 0
    → IsItem envelope (media_item media_id mime_type blob)
    → and_then (begin_media w media_id mime_type (length blob)) (λ v. media_bytes v blob)
      ≡ (w', ok out)
    → Followed envelope w w' out (media_events media_id mime_type blob)
unfolding begin_media media_admitted admit_media and_then appended preamble
media-Followed envelope w w' media_id mime_type blob out clear (valid, valid', word) h =
    let head = media_head_bytes media_id mime_type (length blob) in
    elim (Result-cases (admit_media w media_id head (length blob))) [
      | inr (f, e) ↦ let k = rw (e, media_admitted, and_then) at h in failed_call k
      | inl (o1, e) ↦
          let n = length head + length blob in
          let exact : n % 2 ^ 64 ≡ n = omega (arith, word) in
          let w1 : Writer = record w {
            order = o1;
            started = true;
            media_remaining = length blob;
          } in
          let begun = preamble w ++ media_blob_type ∷ (to_le_bytes 8 (n % 2 ^ 64) ++ head) in
          let began : begin_media w media_id mime_type (length blob) ≡ (w1, ok begun) =
            ap (media_admitted w head (length blob)) e in
          let l =
            sym (
              ap (λ (q : Written). and_then q (λ v. media_bytes v blob)) began
              ∙ ap (appended begun) (media_bytes-whole w1 blob refl))
            ∙ h in
          let (_, _, e1) = >>=-eq-ok (ready w) _ e in
          let (some_id, e2) = fail_if-ok (is_empty media_id) malformed _ o1 e1 in
          let (short, e3) = fail_if-ok (ltb media_head_cap (length head)) malformed _ o1 e2 in
          let (small, checked) =
            fail_if-ok (ltb max_record_bytes ((length head + length blob) % 2 ^ 64)) malformed _ o1
              e3 in
          let body = media_blob_type ∷ (to_le_bytes 8 n ++ head ++ blob) in
          let regroup : preamble w ++ body ≡ begun ++ blob =
            sym (append_assoc (preamble w) (media_blob_type ∷ (to_le_bytes 8 n ++ head)) blob)
            ∙ ap (λ k. preamble w ++ media_blob_type ∷ (to_le_bytes 8 k ++ head) ++ blob)
                (sym exact) in
          settle l record {
            takes =
                subst
                  (λ xs.
                    Takes (following w.started w.order envelope) xs (reading o1 envelope)
                      (media_events media_id mime_type blob))
                  regroup
                  (behind_preamble envelope w o1 body (media_events media_id mime_type blob) (
                    Takes-media w.order o1 envelope media_id mime_type blob checked
                      (not_empty media_id some_id) valid valid' (not_above _ _ short)
                      (bounded n exact small)));
            owed = refl;
          }
    ]

-- An item of a script, and then a whole script.
item-Followed :
    (envelope : Option Envelope) (w w' : Writer) (item : Item) (out : List ℕ)
    → w.media_remaining ≡ 0
    → IsItem envelope item
    → write_item w item ≡ (w', ok out)
    → Followed envelope w w' out (item_events item)
unfolding write_item item_events
item-Followed envelope w w' (record_item ty proto) out clear valid h =
    record-Followed envelope w w' ty proto out clear valid h
item-Followed envelope w w' (media_item media_id mime_type blob) out clear valid h =
    media-Followed envelope w w' media_id mime_type blob out clear valid h

appended-wrote :
    (front : List ℕ) (made : Written) {w' : Writer} {out : List ℕ}
    → appended front made ≡ (w', ok out)
    → (back : List ℕ) × (made ≡ (w', ok back)) × (front ++ back ≡ out)
unfolding appended
appended-wrote front (w2, err f) h = failed_call h
appended-wrote front (w2, ok back) h =
    (back, ap (λ (q : Writer). (q, ok back)) (ap (λ q. q.0) h), ok-injective (ap (λ q. q.1) h))

-- A chain of calls that wrote is a call that wrote, and its rest.
and_then-wrote :
    (first : Written) (next : Writer → Written) {w' : Writer} {out : List ℕ}
    → and_then first next ≡ (w', ok out)
    → (w1 : Writer) × (front : List ℕ) × (back : List ℕ) × (first ≡ (w1, ok front))
      × (next w1 ≡ (w', ok back))
      × (front ++ back ≡ out)
unfolding and_then
and_then-wrote (w1, err f) next h = failed_call h
and_then-wrote (w1, ok front) next h =
    let (back, e, k) = appended-wrote front (next w1) h in (w1, front, back, refl, e, k)

-- The reader in the end.
abbrev pub finished : Order → Option Envelope → Reader
finished o envelope = record { state = done; buf = []; order = o; envelope = envelope }

-- The end of the stream.
end_taken :
    (envelope : Option Envelope) (w w' : Writer) (out : List ℕ)
    → write_end w ≡ (w', ok out)
    → Runs (following w.started w.order envelope) out (finished w'.order envelope) (stream_end ∷ [])
unfolding write_end end_admitted step step_header is_empty
end_taken envelope w w' out h = elim (Result-cases (ready w >> check w.order end_type)) [
  | inr (f, e) ↦ let k = rw (e, end_admitted) at h in failed_call k
  | inl (o1, e) ↦
      let k = rw (e, end_admitted) at h in
      let (_, _, checked) = >>=-eq-ok (ready w) _ e in
      let made = ok-injective (ap (λ q. q.1) k) in
      let same = ap (λ q. q.0.order) k in
      subst
        (λ xs.
          Runs (following w.started w.order envelope) xs (finished w'.order envelope)
            (stream_end ∷ []))
        made
        (subst
          (λ o.
            Runs (following w.started w.order envelope) (preamble w ++ end_type ∷ [])
              (finished o envelope) (stream_end ∷ []))
          same
          (Takes-start w.started w envelope refl (end_type ∷ []) (finished o1 envelope)
            (stream_end ∷ [])
            (go (turn (finished o1 envelope) [] (stream_end ∷ [])) (rw checked refl) stop)))
]

script_taken :
    (envelope : Option Envelope) (items : List Item) (w w1 w' : Writer) (out last : List ℕ)
    → w.media_remaining ≡ 0
    → All (IsItem envelope) items
    → write_items w items ≡ (w1, ok out)
    → write_end w1 ≡ (w', ok last)
    → Runs
        (following w.started w.order envelope)
        (out ++ last)
        (finished w'.order envelope)
        (script_events items)
unfolding write_items script_events
script_taken envelope [] w w1 w' out last clear valid h ended =
    let e = ok-injective (ap (λ q. q.1) h) in
    let s = ap (λ q. q.0) h in
    subst
      (λ xs.
        Runs (following w.started w.order envelope) (xs ++ last) (finished w'.order envelope)
          (stream_end ∷ []))
      e (end_taken envelope w w' last (ap write_end s ∙ ended))
script_taken envelope (item ∷ items) w w1 w' out last clear (v, valid) h ended =
    let (w2, front, back, e, k, same) = and_then-wrote (write_item w item) _ h in
    let f = item-Followed envelope w w2 item front clear v e in
    let more = script_taken envelope items w2 w1 w' back last f.owed valid k ended in
    subst
      (λ xs.
        Runs (following w.started w.order envelope) xs (finished w'.order envelope)
          (item_events item ++ script_events items))
      (sym (append_assoc front back last) ∙ ap (λ xs. xs ++ last) same)
      (f.takes (back ++ last) (finished w'.order envelope) (script_events items) more)

-- Every stream that the writer completes, of any script of records and of media blobs given whole,
-- is accepted by the reader in one push, whatever envelope the script's manifests agree with. The
-- events are those of the script, in its order, and the stream is then complete.
pub push-write_stream :
    (envelope : Option Envelope) (items : List Item) (w : Writer) (stream : List ℕ)
    → All (IsItem envelope) items
    → write_stream items ≡ (w, ok stream)
    → (push (new_reader envelope) stream
        ≡ some (record {
          reader = finished w.order envelope;
          events = script_events items;
          outcome = ok tt;
        }))
      × (finish (finished w.order envelope) done ≡ (finished w.order envelope, ok tt))
unfolding write_stream new_reader finish
push-write_stream envelope items w stream valid h =
    let (w1, front, back, e, k, same) = and_then-wrote (write_items new_writer items) write_end h in
    let run = script_taken envelope items new_writer w1 w front back refl valid e k in
    (
      Runs-push (waiting default_order envelope) (finished w.order envelope) stream
          (script_events items)
          (subst
            (λ xs.
              Runs (waiting default_order envelope) xs (finished w.order envelope)
                (script_events items))
            same run)
          (omega arith) (λ f e'. cc),
      refl,
    )
