-- ===== src/History/Reader/Steps.antt =====
-- Every step of the reader of src/history/cth1.rs takes a byte, or leaves a media head.
use construct_core.Prelude.{
  subst, ℕ, ◌≤◌, ◌<◌, ◌+◌, ◌-◌, ◌*◌, min, ltb, leb, ◌==◌, Bool-cases, Option-cases, ◌≡◌, refl, sym,
  ap, inl, inr, not, ◌&&◌, List, [], arith, length, get_or, take, drop, length-append, length-take,
  length-drop, Result, ok, >>=-eq-ok, ok-injective, fail_if-ok, bytes_eq,
}
use construct_core.History.{end_type, HistoryFailure, malformed, unknown_version}
use construct_core.History.Order.{check}
use construct_core.History.Writer.{cth1_magic, cth1_version, media_head_cap, is_empty}
use construct_core.History.MediaHead.{media_head, MediaHead}
use construct_core.History.Reader.{
  Event, State, at_preamble, at_header, in_record, in_discard, in_media_head, in_media_blob, done,
  failed, Reader, preamble_len, record_header_len, filled, unfilled, Turn, turn, Stepped, leaving,
  step_preamble, step_header, step_record, step_discard, step_blob, head_done, step_media_head,
  step,
}
use construct_core.History.Reader.Payload.{
  Running, IsReader, slack, Less, judge-kept, AtHeader, AtHeader-IsReader, begin_record-Running,
  leaving-ok,
}

-- The turn that a step is, by its parts; the reader it leaves is in the state `s`.
pub Turn-Less :
    (t : Turn) (r : Reader) (left : List ℕ) (events : List Event) (s state : State) (data' : List ℕ)
    → ◌≡◌ {A = Stepped} (ok (turn r left events)) (ok t)
    → r.state ≡ s
    → Running s r.buf
    → 2 * length left + slack s < 2 * length data' + slack state
    → Less t state data'
Turn-Less t r left events s state data' h e w l =
    subst (λ (q : Turn). Less q state data') (ok-injective h)
      (
        subst (λ q. Running q r.buf) (sym e) w,
        subst (λ q. 2 * length left + slack q < 2 * length data' + slack state) (sym e) l,
      )

-- A turn that has judged a record.
pub leaving-Less :
    (t : Turn) (left : List ℕ) (made : Result HistoryFailure (Reader × List Event)) (state : State)
    (data' : List ℕ)
    → leaving left made ≡ ok t
    → ((out : Reader × List Event) → made ≡ ok out → IsReader out.0 × (slack out.0.state ≤ 1))
    → length left < length data'
    → Less t state data'
leaving-Less t left made state data' h w l =
    let (out, e, same, rest) = leaving-ok left made t h in
    let (v, k) = w out e in
    (
      subst (λ (q : Reader). IsReader q) (sym same) v,
      omega (arith, k, l, ap length rest, ap (λ (q : Reader). slack q.state) same),
    )

pub AtHeader-Less : (r : Reader) → AtHeader r → IsReader r × (slack r.state ≤ 1)
AtHeader-Less r a = let (v, k) = AtHeader-IsReader r a in (v, omega (arith, k))

pub length-filled :
    (buf data' : List ℕ) (len : ℕ)
    → length (filled buf data' len) ≡ length buf + min (len - length buf) (length data')
unfolding filled
length-filled buf data' len =
    omega (
      arith,
      length-append buf (take (len - length buf) data'),
      length-take (len - length buf) data',
    )

pub length-unfilled :
    (buf data' : List ℕ) (len : ℕ)
    → length (unfilled buf data' len) ≡ length data' - (len - length buf)
unfolding unfilled
length-unfilled buf data' len = length-drop (len - length buf) data'

module _ (r : Reader) (data' : List ℕ) (t : Turn) (here : 0 < length data') where
  pub step_preamble-Less :
      r.state ≡ at_preamble
      → length r.buf < preamble_len
      → step_preamble r data' ≡ ok t
      → Less t at_preamble data'
  unfolding step_preamble slack
  step_preamble-Less at w h =
      let buf' = filled r.buf data' preamble_len in
      let left = unfilled r.buf data' preamble_len in
      let f = length-filled r.buf data' preamble_len in
      let u = length-unfilled r.buf data' preamble_len in
      elim (Bool-cases (length buf' == preamble_len)) [
        | inl e ↦
            let (_, h1) =
              fail_if-ok (not (bytes_eq (take 4 buf') cth1_magic)) malformed _ t (rw e at h) in
            let (_, h2) =
              fail_if-ok (not (get_or buf' 4 0 == cth1_version)) unknown_version _ t h1 in
            Turn-Less t _ left _ at_header at_preamble data' h2 refl (omega arith)
              (omega (arith, f, u, w))
        | inr e ↦
            let short : length buf' < preamble_len = grind (arith, f) in
            Turn-Less t (record r { buf = buf' }) left _ at_preamble at_preamble data' (rw e at h)
              at short (omega (arith, f, u, w))
      ]

  pub step_header-Less :
      r.state ≡ at_header
      → length r.buf < record_header_len
      → step_header r data' ≡ ok t
      → Less t at_header data'
  unfolding step_header slack
  step_header-Less at w h =
      let buf' = filled r.buf data' record_header_len in
      let left = unfilled r.buf data' record_header_len in
      let f = length-filled r.buf data' record_header_len in
      let u = length-unfilled r.buf data' record_header_len in
      elim (Bool-cases (is_empty r.buf && get_or data' 0 1 == end_type)) [
        | inl e ↦
            let (o, _, h1) = >>=-eq-ok (check r.order end_type) _ (rw e at h) in
            Turn-Less t _ (drop 1 data') _ done at_header data' h1 refl tt
              (omega (arith, length-drop 1 data'))
        | inr e ↦ elim (Bool-cases (length buf' == record_header_len)) [
          | inl g ↦
              leaving-Less t left _ at_header data' (rw (e, g) at h)
                (λ out k. begin_record-Running _ _ _ out refl k) (omega (arith, f, u, w))
          | inr g ↦
              let short : length buf' < record_header_len = grind (arith, f) in
              Turn-Less t (record r { buf = buf' }) left _ at_header at_header data'
                (rw (e, g) at h) at short (omega (arith, f, u, w))
        ]
      ]

  pub step_record-Less :
      (ty remaining : ℕ)
      → 0 < remaining
      → step_record r ty remaining data' ≡ ok t
      → Less t (in_record ty remaining) data'
  unfolding step_record slack
  step_record-Less ty remaining w h = elim (Bool-cases (ltb (length data') remaining)) [
    | inl e ↦
        let more : length data' < remaining = ground arith in
        Turn-Less t _ [] _ (in_record ty (remaining - length data')) (in_record ty remaining) data'
          (rw e at h) refl (omega arith) (omega arith)
    | inr e ↦
        leaving-Less t (drop remaining data') _ (in_record ty remaining) data' (rw e at h)
          (λ out k. AtHeader-Less out.0 (judge-kept _ ty _ out k))
          (omega (arith, length-drop remaining data'))
  ]

  pub step_discard-Less :
      (ty remaining : ℕ)
      → (0 < remaining) × (length r.buf ≡ 0)
      → step_discard r ty remaining data' ≡ ok t
      → Less t (in_discard ty remaining) data'
  unfolding step_discard slack
  step_discard-Less ty remaining (w, clear) h = elim (Bool-cases (ltb (length data') remaining)) [
    | inl e ↦
        let more : length data' < remaining = ground arith in
        Turn-Less t _ [] _ (in_discard ty (remaining - length data')) (in_discard ty remaining)
          data' (rw e at h) refl (omega arith, clear) (omega arith)
    | inr e ↦
        Turn-Less t _ (drop remaining data') _ at_header (in_discard ty remaining) data' (rw e at h)
          refl (omega (arith, clear)) (omega (arith, length-drop remaining data'))
  ]

  pub step_blob-Less :
      (remaining : ℕ)
      → (0 < remaining) × (length r.buf ≡ 0)
      → step_blob r remaining data' ≡ ok t
      → Less t (in_media_blob remaining) data'
  unfolding step_blob slack
  step_blob-Less remaining (w, clear) h = elim (Bool-cases (ltb (length data') remaining)) [
    | inl e ↦
        let more : length data' < remaining = ground arith in
        Turn-Less t _ [] _ (in_media_blob (remaining - length data')) (in_media_blob remaining)
          data' (rw e at h) refl (omega arith, clear) (omega arith)
    | inr e ↦
        Turn-Less t _ (drop remaining data') _ at_header (in_media_blob remaining) data' (rw e at h)
          refl (omega (arith, clear)) (omega (arith, length-drop remaining data'))
  ]

  pub head_done-Less :
      (payload_len : ℕ) (head : MediaHead)
      → head_done r data' head ≡ ok t
      → Less t (in_media_head payload_len) data'
  unfolding head_done slack
  head_done-Less payload_len head h =
      let left = drop (head.consumed - length r.buf) data' in
      let l = length-drop (head.consumed - length r.buf) data' in
      elim (Bool-cases (head.blob_len == 0)) [
        | inl e ↦
            Turn-Less t _ left _ at_header (in_media_head payload_len) data' (rw e at h) refl
              (omega arith) (omega (arith, l))
        | inr e ↦
            let positive : 0 < head.blob_len = ground arith in
            Turn-Less t _ left _ (in_media_blob head.blob_len) (in_media_head payload_len) data'
              (rw e at h) refl (positive, refl) (omega (arith, l))
      ]

  pub step_media_head-Less :
      (payload_len : ℕ)
      → r.state ≡ in_media_head payload_len
      → length r.buf < min payload_len media_head_cap
      → step_media_head r payload_len data' ≡ ok t
      → Less t (in_media_head payload_len) data'
  unfolding step_media_head slack
  step_media_head-Less payload_len at w h =
      let want = min payload_len media_head_cap in
      let buf' = filled r.buf data' want in
      let (found, _, h1) = >>=-eq-ok (media_head buf' payload_len) _ h in
      elim (Option-cases found) [
        | inr (head, e) ↦ head_done-Less payload_len head (rw e at h1)
        | inl e ↦
            let h2 = rw e at h1 in
            elim (Bool-cases (leb want (length buf'))) [
              | inl g ↦ let k = rw g at h2 in cc
              | inr g ↦
                  let short : length buf' < want = grind arith in
                  Turn-Less t (record r { buf = buf' }) (unfilled r.buf data' want) _
                    (in_media_head payload_len) (in_media_head payload_len) data' (rw g at h2) at
                    short (omega (arith, length-unfilled r.buf data' want, w))
            ]
      ]

-- Every step of a well-formed reader leaves a well-formed one, and less to do.
pub step-Less :
    (r : Reader) (state : State) (data' : List ℕ) (t : Turn)
    → r.state ≡ state
    → 0 < length data'
    → Running state r.buf
    → step r state data' ≡ ok t
    → Less t state data'
unfolding step
step-Less r at_preamble data' t at here w h = step_preamble-Less r data' t here at w h
step-Less r at_header data' t at here w h = step_header-Less r data' t here at w h
step-Less r (in_record ty remaining) data' t at here w h =
    step_record-Less r data' t here ty remaining w h
step-Less r (in_discard ty remaining) data' t at here w h =
    step_discard-Less r data' t here ty remaining w h
step-Less r (in_media_head payload_len) data' t at here w h =
    step_media_head-Less r data' t here payload_len at w h
step-Less r (in_media_blob remaining) data' t at here w h =
    step_blob-Less r data' t here remaining w h
step-Less r done data' t at here w h = cc
step-Less r (failed f) data' t at here w h = cc
