-- ===== src/History/Reader/Media.antt =====
-- The reader of src/history/cth1.rs takes a media record as its writer frames it.
use construct_core.Prelude.{
  subst, append_assoc, ℕ, ◌≤◌, ◌<◌, ◌+◌, ◌-◌, min, ◌==◌, if◌then◌else◌, le→ltb, pos→==_zero, ◌≡◌,
  refl, sym, ap, ◌∙◌, true, false, Option, List, [], ◌∷◌, ◌++◌, arith, length, take, drop,
  length-append, take-append_left, drop-append_left, take-append_past, to_le_bytes, ok,
}
use construct_core.History.{max_record_bytes, media_blob_type}
use construct_core.History.Order.{Order, check}
use construct_core.History.Writer.{head_string, media_head_bytes, media_head_cap}
use construct_core.History.MediaHead.{MediaHead, is_utf8, no_text, head_of}
use construct_core.History.MediaHead.RoundTrip.{media_head-media_head_bytes}
use construct_core.History.Reader.{
  leaving, Turn, Event, media_start, media_piece, media_end, Reader, Envelope, turn, at_header,
  in_media_head, in_media_blob, step, filled, step_blob, step_media_head, head_done, begin_record,
  open_record,
}
use construct_core.History.Reader.Runs.{Takes, Runs, go}
use construct_core.History.Reader.Records.{step_header-begin, reading, inside}

-- A blob comes in one piece, if it has any bytes.
unfoldable pub pieces : List ℕ → List Event
pieces [] = media_end ∷ []
pieces (b ∷ bs) = media_piece (b ∷ bs) ∷ media_end ∷ []

unfoldable pub media_events : List ℕ → List ℕ → List ℕ → List Event
media_events media_id mime_type blob = media_start media_id mime_type (length blob) ∷ pieces blob

filled_past :
    (xs ys : List ℕ) (n : ℕ)
    → length xs ≤ n
    → filled [] (xs ++ ys) n ≡ xs ++ take (n - length xs) ys
unfolding filled
filled_past xs ys n h =
    let e : n - 0 ≡ n = omega arith in ap (λ k. take k (xs ++ ys)) e ∙ take-append_past n xs ys h

-- The head is done: the data stands at the blob.
head_done-left :
    (r : Reader) (front rest : List ℕ) (head : MediaHead)
    → r.buf ≡ []
    → head.consumed ≡ length front
    → head_done r (front ++ rest) head ≡ (
        if head.blob_len == 0
        then ok (
            turn
              (record r { buf = []; state = at_header })
              rest
              (media_start head.media_id head.mime_type head.blob_len ∷ media_end ∷ []))
        else ok (
            turn
              (record r { buf = []; state = in_media_blob head.blob_len })
              rest
              (media_start head.media_id head.mime_type head.blob_len ∷ [])))
unfolding head_done
head_done-left r front rest head clear e =
    let at : head.consumed - length r.buf ≡ length front = omega (arith, e, ap length clear) in
    let left =
      ap (λ k. drop k (front ++ rest)) at ∙ drop-append_left (length front) front rest refl in
    rw left refl

step_blob-whole :
    (r : Reader) (blob rest : List ℕ)
    → step_blob r (length blob) (blob ++ rest)
      ≡ ok (turn (record r { state = at_header }) rest (media_piece blob ∷ media_end ∷ []))
unfolding step_blob
step_blob-whole r blob rest =
    rw
      (
        le→ltb (length (blob ++ rest)) (length blob) (omega (arith, length-append blob rest)),
        take-append_left (length blob) blob rest refl,
        drop-append_left (length blob) blob rest refl,
      )
      refl

module _ (o o1 : Order) (envelope : Option Envelope) (media_id mime_type blob : List ℕ)
    (checked : check o media_blob_type ≡ ok o1) (named : no_text media_id ≡ false)
    (valid : is_utf8 media_id ≡ true) (valid' : is_utf8 mime_type ≡ true)
    (short : length (media_head_bytes media_id mime_type (length blob)) ≤ media_head_cap)
    (small : length (media_head_bytes media_id mime_type (length blob)) + length blob
      ≤ max_record_bytes) where
  abbrev head : List ℕ
  head = media_head_bytes media_id mime_type (length blob)

  abbrev payload_len : ℕ
  payload_len = length head + length blob

  begin_record-media :
      0 < payload_len
      → begin_record (reading o envelope) media_blob_type payload_len
        ≡ ok (inside (in_media_head payload_len) o1 envelope, [])
  unfolding begin_record open_record
  begin_record-media positive =
      rw (le→ltb max_record_bytes payload_len small, checked, pos→==_zero payload_len positive) refl

  step-head :
      (rest : List ℕ)
      → step
          (inside (in_media_head payload_len) o1 envelope)
          (in_media_head payload_len)
          (head ++ (blob ++ rest))
        ≡ head_done
            (inside (in_media_head payload_len) o1 envelope)
            (head ++ (blob ++ rest))
            (record {
              media_id = media_id;
              mime_type = mime_type;
              blob_len = length blob;
              consumed = length head;
            })
  unfolding step step_media_head head_of
  step-head rest =
      let want = min payload_len media_head_cap in
      rw
        (
          filled_past head (blob ++ rest) want (omega arith),
          media_head-media_head_bytes media_id mime_type (take (want - length head) (blob ++ rest))
              (length blob) named valid valid' (omega arith),
        )
        refl

  take_blob :
      (b : ℕ) (bs rest : List ℕ) (last : Reader) (more : List Event)
      → Runs (reading o1 envelope) rest last more
      → Runs
          (inside (in_media_blob (length (b ∷ bs))) o1 envelope)
          (b ∷ (bs ++ rest))
          last
          (media_piece (b ∷ bs) ∷ media_end ∷ more)
  unfolding step
  take_blob b bs rest last more run =
      go (turn (reading o1 envelope) rest (media_piece (b ∷ bs) ∷ media_end ∷ []))
        (step_blob-whole _ (b ∷ bs) rest) run

  -- What is left when the head is done.
  abbrev Entered : List ℕ → Reader → List Event → Type 0
  Entered rest last more =
      (t : Turn) × (head_done (inside (in_media_head payload_len) o1 envelope)
          (head ++ (blob ++ rest))
          (record {
            media_id = media_id;
            mime_type = mime_type;
            blob_len = length blob;
            consumed = length head;
          })
        ≡ ok t)
      × (events : List Event) × Runs t.reader t.left last events
      × (t.events ++ events ≡ media_events media_id mime_type blob ++ more)

  take_media :
      (rest : List ℕ) (last : Reader) (more : List Event)
      → Entered rest last more
      → Runs
          (reading o envelope)
          (media_blob_type ∷ (to_le_bytes 8 payload_len ++ (head ++ (blob ++ rest))))
          last
          (media_events media_id mime_type blob ++ more)
  unfolding media_head_bytes head_string leaving
  take_media rest last more (t, e, events, run, same) =
      let sized : 0 < payload_len = omega (arith, length-append (head_string 1 media_id) _) in
      go (turn (inside (in_media_head payload_len) o1 envelope) (head ++ (blob ++ rest)) [])
        (step_header-begin o envelope media_blob_type payload_len (head ++ (blob ++ rest)) refl
            (omega arith)
          ∙ ap (leaving (head ++ (blob ++ rest))) (begin_record-media sized))
        (subst
          (λ es.
            Runs (inside (in_media_head payload_len) o1 envelope) (head ++ (blob ++ rest)) last es)
          same (go t (step-head rest ∙ e) run))

-- Behind the head stands the blob, in one piece.
enter :
    (o o1 : Order) (envelope : Option Envelope) (media_id mime_type blob : List ℕ)
    (checked : check o media_blob_type ≡ ok o1) (named : no_text media_id ≡ false)
    (valid : is_utf8 media_id ≡ true) (valid' : is_utf8 mime_type ≡ true)
    (short : length (media_head_bytes media_id mime_type (length blob)) ≤ media_head_cap)
    (small : length (media_head_bytes media_id mime_type (length blob)) + length blob
      ≤ max_record_bytes)
    (rest : List ℕ) (last : Reader) (more : List Event)
    → Runs (reading o1 envelope) rest last more
    → Entered o o1 envelope media_id mime_type blob checked named valid valid' short small rest last
        more
unfolding media_events pieces
enter o o1 envelope media_id mime_type [] checked named valid valid' short small rest last more
      run =
    (_, head_done-left _ _ rest _ refl refl, more, run, refl)
enter o o1 envelope media_id mime_type (b ∷ bs) checked named valid valid' short small rest last
      more run =
    (
      turn (inside (in_media_blob (length (b ∷ bs))) o1 envelope) ((b ∷ bs) ++ rest)
          (media_start media_id mime_type (length (b ∷ bs)) ∷ []),
      head_done-left _ _ ((b ∷ bs) ++ rest) _ refl refl
          ∙ rw (pos→==_zero (length (b ∷ bs)) (omega arith)) refl,
      _,
      take_blob o o1 envelope media_id mime_type (b ∷ bs) checked named valid valid' short small b
          bs rest last more run,
      refl,
    )

-- The reader takes a media record that the writer began and whose blob followed whole.
pub Takes-media :
    (o o1 : Order) (envelope : Option Envelope) (media_id mime_type blob : List ℕ)
    → check o media_blob_type ≡ ok o1
    → no_text media_id ≡ false
    → is_utf8 media_id ≡ true
    → is_utf8 mime_type ≡ true
    → length (media_head_bytes media_id mime_type (length blob)) ≤ media_head_cap
    → length (media_head_bytes media_id mime_type (length blob)) + length blob ≤ max_record_bytes
    → Takes
        (reading o envelope)
        (media_blob_type
          ∷ (to_le_bytes 8
                (length (media_head_bytes media_id mime_type (length blob)) + length blob)
              ++ media_head_bytes media_id mime_type (length blob)
              ++ blob))
        (reading o1 envelope)
        (media_events media_id mime_type blob)
Takes-media o o1 envelope media_id mime_type blob checked named valid valid' short small rest last
      more run =
    let front = media_head_bytes media_id mime_type (length blob) in
    let len = to_le_bytes 8 (length front + length blob) in
    let regroup = append_assoc front blob rest in
    let all = ap (λ xs. media_blob_type ∷ (len ++ xs)) (sym regroup) in
    subst (λ xs. Runs (reading o envelope) xs last (media_events media_id mime_type blob ++ more))
      all
      (take_media o o1 envelope media_id mime_type blob checked named valid valid' short small rest
        last more
        (enter o o1 envelope media_id mime_type blob checked named valid valid' short small rest
          last more run))
