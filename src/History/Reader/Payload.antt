-- ===== src/History/Reader/Payload.antt =====
-- What a turn of the reader of src/history/cth1.rs leaves: the state that a record's header opens, and
-- the reader behind a record.
use construct_core.Prelude.{
  subst, ℕ, ◌≤◌, ◌<◌, ◌+◌, ◌*◌, min, ltb, leb, ◌==◌, if◌then◌else◌, Bool-cases, ◌≡◌, refl, sym, ap,
  ◌∙◌, inl, inr, Bool, true, false, not, ◌&&◌, List, [], arith, length, Result, ok, err, >>=-eq-ok,
  ok-injective, fail_if-ok,
}
use construct_core.History.{
  max_record_bytes, media_blob_type, call_type, message_type, manifest_type, HistoryFailure,
  malformed, unknown_version, envelope_manifest_mismatch,
}
use construct_core.History.Wire.{manifest, message_body, Body, known, unknown, unset, well_formed}
use construct_core.History.Order.{check}
use construct_core.History.Writer.{media_head_cap}
use construct_core.History.Reader.{
  Event, State, at_preamble, at_header, in_record, in_discard, in_media_head, in_media_blob, done,
  failed, Reader, preamble_len, record_header_len, mismatch, judge_manifest, judge_body, judge,
  complete_empty, Turn, leaving, open_record, begin_record,
}

-- What each state owes to the one before: a unit that is not complete.
abbrev pub Running : State → List ℕ → Type 0
Running at_preamble buf = length buf < preamble_len
Running at_header buf = length buf < record_header_len
Running (in_record ty remaining) buf = 0 < remaining
Running (in_discard ty remaining) buf = (0 < remaining) × (length buf ≡ 0)
Running (in_media_head payload_len) buf = length buf < min payload_len media_head_cap
Running (in_media_blob remaining) buf = (0 < remaining) × (length buf ≡ 0)
Running done buf = Unit
Running (failed f) buf = Unit

abbrev pub IsReader : Reader → Type 0
IsReader r = Running r.state r.buf

-- A media head may end where the data begins.
unfoldable pub slack : State → ℕ
slack (in_media_head payload_len) = 1
slack other = 0

-- What a turn leaves to do, in half bytes.
abbrev pub Less : Turn → State → List ℕ → Type 0
Less t state data' =
    IsReader t.reader × (2 * length t.left + slack t.reader.state < 2 * length data' + slack state)

-- A body says nothing of the state or the buffer.
pub body_kept :
    (r : Reader) (proto : List ℕ) (body : Body) (out : Reader × List Event)
    → judge_body r proto body ≡ ok out
    → (out.0.state ≡ r.state) × (out.0.buf ≡ r.buf)
unfolding judge_body
body_kept r proto known out h =
    let k = ok-injective h in (sym (ap (λ o. o.0.state) k), sym (ap (λ o. o.0.buf) k))
body_kept r proto unknown out h =
    let k = ok-injective h in (sym (ap (λ o. o.0.state) k), sym (ap (λ o. o.0.buf) k))
body_kept r proto unset out h = cc

-- The judgement of a record leaves the state and the buffer.
pub judge-kept :
    (r : Reader) (ty : ℕ) (proto : List ℕ) (out : Reader × List Event)
    → judge r ty proto ≡ ok out
    → (out.0.state ≡ r.state) × (out.0.buf ≡ r.buf)
unfolding judge judge_manifest
judge-kept r ty proto out h = elim (Bool-cases (ty == manifest_type)) [
  | inl e ↦
      let (m, _, h1) = >>=-eq-ok (manifest proto) _ (rw e at h) in
      let (_, h2) = fail_if-ok (not (m.format_version == 1)) unknown_version _ out h1 in
      let (_, h3) = fail_if-ok (not (leb 1 m.phase && leb m.phase 3)) malformed _ out h2 in
      let (_, h4) =
        fail_if-ok (mismatch r.envelope m.snapshot_id m.user_id) envelope_manifest_mismatch _ out
          h3 in
      let k = ok-injective h4 in (sym (ap (λ o. o.0.state) k), sym (ap (λ o. o.0.buf) k))
  | inr e ↦ elim (Bool-cases (ty == message_type)) [
    | inl f ↦
        let (body, _, h1) = >>=-eq-ok (message_body proto) _ (rw (e, f) at h) in
        body_kept r proto body out h1
    | inr f ↦
        let (_, _, h1) = >>=-eq-ok (well_formed proto) _ (rw (e, f) at h) in
        let k = ok-injective h1 in (sym (ap (λ o. o.0.state) k), sym (ap (λ o. o.0.buf) k))
  ]
]

-- Behind a record the reader waits for a header.
abbrev pub AtHeader : Reader → Type 0
AtHeader r = (r.state ≡ at_header) × (r.buf ≡ [])

pub AtHeader-IsReader : (r : Reader) → AtHeader r → IsReader r × (slack r.state ≡ 0)
unfolding slack
AtHeader-IsReader r (h, k) = (
  subst (λ s. Running s r.buf) (sym h)
      (subst (λ b. length b < record_header_len) (sym k) (omega arith)),
  ap slack h,
)

-- A header leaves the reader in the payload of a record of `len` bytes.
abbrev pub Opened : State → ℕ → Type 0
Opened (in_record ty remaining) len = remaining ≡ len
Opened (in_discard ty remaining) len = remaining ≡ len
Opened (in_media_head payload_len) len = payload_len ≡ len
Opened other len = 0 < 0

pub open_record-Opened :
    (r r' : Reader) (ty len : ℕ)
    → open_record r ty len ≡ ok r'
    → (r'.buf ≡ r.buf) × Opened r'.state len
unfolding open_record
open_record-Opened r r' ty len h = elim (Bool-cases (leb manifest_type ty && leb ty call_type)) [
  | inl e ↦
      let (o, _, h1) = >>=-eq-ok (check r.order ty) _ (rw e at h) in
      settled (in_record ty len) (sym (ap (λ s. s.state) (ok-injective h1)))
        (sym (ap (λ s. s.buf) (ok-injective h1))) refl
  | inr e ↦ elim (Bool-cases (ty == media_blob_type)) [
    | inl f ↦
        let (o, _, h1) = >>=-eq-ok (check r.order ty) _ (rw (e, f) at h) in
        settled (in_media_head len) (sym (ap (λ s. s.state) (ok-injective h1)))
          (sym (ap (λ s. s.buf) (ok-injective h1))) refl
    | inr f ↦
        let k = ok-injective (rw (e, f) at h) in
        settled (in_discard ty len) (sym (ap (λ s. s.state) k)) (sym (ap (λ s. s.buf) k)) refl
  ]
]
  where
    settled :
        (s : State)
        → r'.state ≡ s
        → r'.buf ≡ r.buf
        → Opened s len
        → (r'.buf ≡ r.buf) × Opened r'.state len
    settled s e k w = (k, subst (λ q. Opened q len) (sym e) w)

pub Opened-Running :
    (s : State) (buf : List ℕ) (len : ℕ)
    → buf ≡ []
    → 0 < len
    → Opened s len
    → Running s buf × (slack s ≤ 1)
unfolding slack
Opened-Running at_preamble buf len clear positive w = absurd (omega arith)
Opened-Running at_header buf len clear positive w = absurd (omega arith)
Opened-Running (in_record ty remaining) buf len clear positive w = (omega arith, omega arith)
Opened-Running (in_discard ty remaining) buf len clear positive w =
    ((omega arith, ap length clear), omega arith)
Opened-Running (in_media_head payload_len) buf len clear positive w =
    (omega (arith, w, ap length clear), omega arith)
Opened-Running (in_media_blob remaining) buf len clear positive w = absurd (omega arith)
Opened-Running done buf len clear positive w = absurd (omega arith)
Opened-Running (failed f) buf len clear positive w = absurd (omega arith)

pub complete_empty-AtHeader :
    (r : Reader) (s : State) (len : ℕ) (out : Reader × List Event)
    → r.buf ≡ []
    → Opened s len
    → complete_empty r s ≡ ok out
    → AtHeader out.0
unfolding complete_empty
complete_empty-AtHeader r at_preamble len out clear w h = absurd (omega arith)
complete_empty-AtHeader r at_header len out clear w h = absurd (omega arith)
complete_empty-AtHeader r (in_record ty remaining) len out clear w h =
    let (e, k) = judge-kept (record r { state = at_header }) ty [] out h in (e, k ∙ clear)
complete_empty-AtHeader r (in_discard ty remaining) len out clear w h =
    let k = ok-injective h in (sym (ap (λ o. o.0.state) k), sym (ap (λ o. o.0.buf) k) ∙ clear)
complete_empty-AtHeader r (in_media_head payload_len) len out clear w h = cc
complete_empty-AtHeader r (in_media_blob remaining) len out clear w h = absurd (omega arith)
complete_empty-AtHeader r done len out clear w h = absurd (omega arith)
complete_empty-AtHeader r (failed f) len out clear w h = absurd (omega arith)

-- A zero-length payload completes at once, any other is waited for.
pub begun-Running :
    (empty : Bool) (opened : Reader) (len : ℕ) (out : Reader × List Event)
    → (len == 0) ≡ empty
    → opened.buf ≡ []
    → Opened opened.state len
    → (if empty then complete_empty opened opened.state else ok (opened, [])) ≡ ok out
    → IsReader out.0 × (slack out.0.state ≤ 1)
begun-Running true opened len out e clear w h =
    let a = complete_empty-AtHeader opened opened.state len out clear w h in
    let (v, l) = AtHeader-IsReader out.0 a in (v, omega (arith, l))
begun-Running false opened len out e clear w h =
    let positive : 0 < len = ground arith in
    subst (λ (q : Reader × List Event). IsReader q.0 × (slack q.0.state ≤ 1)) (ok-injective h)
      (Opened-Running opened.state opened.buf len clear positive w)

pub begin_record-Running :
    (r : Reader) (ty len : ℕ) (out : Reader × List Event)
    → r.buf ≡ []
    → begin_record r ty len ≡ ok out
    → IsReader out.0 × (slack out.0.state ≤ 1)
unfolding begin_record
begin_record-Running r ty len out clear h =
    let (_, h1) = fail_if-ok (ltb max_record_bytes len) malformed _ out h in
    let (opened, e, h2) = >>=-eq-ok (open_record r ty len) _ h1 in
    let (kept_buf, w) = open_record-Opened r opened ty len e in
    begun-Running (len == 0) opened len out refl (kept_buf ∙ clear) w h2

pub leaving-ok :
    (data' : List ℕ) (made : Result HistoryFailure (Reader × List Event)) (t : Turn)
    → leaving data' made ≡ ok t
    → (out : Reader × List Event) × (made ≡ ok out) × (t.reader ≡ out.0) × (t.left ≡ data')
unfolding leaving
leaving-ok data' (err f) t h = cc
leaving-ok data' (ok (r, events)) t h =
    let k = ok-injective h in
    ((r, events), refl, sym (ap (λ q. q.reader) k), sym (ap (λ q. q.left) k))
