-- ===== src/History/MediaHead.antt =====
-- The head of a media blob, as the reader parses it: `media_head` of src/history/cth1.rs. The
-- answer is `none` while more bytes are needed.
pub mod RoundTrip
mod Examples
use construct_core.Prelude.{
  ℕ, zero, suc, ◌+◌, ◌%◌, ◌^◌, ltb, leb, ◌==◌, if◌then◌else◌, Bool, true, false, not, ◌&&◌, Option,
  none, some, List, [], ◌∷◌, length, get_elem?, slice, Result, ok, err, ◌>>=◌, ◌>>◌, fail_if,
}
use construct_core.History.{HistoryFailure, malformed}
use construct_core.History.Wire.{read_varint, tag}

pub record MediaHead : Type 0 where
  pub media_id : List ℕ
  pub mime_type : List ℕ
  pub blob_len : ℕ
  pub consumed : ℕ

-- `let Some(..) = read? else { return Ok(None) }`.
unfoldable pub ready_then {ℓ κ} :
    {A : Type ℓ} {B : Type κ}
    → Result HistoryFailure (Option A)
    → (A → Result HistoryFailure (Option B))
    → Result HistoryFailure (Option B)
ready_then (err f) next = err f
ready_then (ok none) next = ok none
ready_then (ok (some a)) next = next a

unfoldable pub byte_at {ℓ} :
    {B : Type ℓ}
    → List ℕ
    → ℕ
    → (ℕ → Result HistoryFailure (Option B))
    → Result HistoryFailure (Option B)
byte_at buf pos next = ready_then (ok (get_elem? buf pos)) next

-- `str::from_utf8` accepts: `more` bytes of a character are owed, the next one in `low..=high`.
unfoldable pub utf8_from : ℕ → ℕ → ℕ → List ℕ → Bool
utf8_from zero low high [] = true
utf8_from (suc more) low high [] = false
utf8_from (suc more) low high (b ∷ bs) = leb low b && leb b high && utf8_from more 0x80 0xbf bs
utf8_from zero low high (b ∷ bs) =
    let from : ℕ → ℕ → ℕ → Bool = λ m l h. utf8_from m l h bs in
    if ltb b 0x80
    then from 0 0x80 0xbf
    else if leb 0xc2 b && leb b 0xdf
    then from 1 0x80 0xbf
    else if b == 0xe0
    then from 2 0xa0 0xbf
    else if b == 0xed
    then from 2 0x80 0x9f
    else if leb 0xe1 b && leb b 0xef
    then from 2 0x80 0xbf
    else if b == 0xf0
    then from 3 0x90 0xbf
    else if leb 0xf1 b && leb b 0xf3
    then from 3 0x80 0xbf
    else if b == 0xf4
    then from 3 0x80 0x8f
    else false

unfoldable pub is_utf8 : List ℕ → Bool
is_utf8 text = utf8_from 0 0x80 0xbf text

unfoldable pub slot_slice : List ℕ → ℕ → ℕ → Result HistoryFailure (Option (List ℕ × ℕ))
slot_slice buf p stop =
    if ltb (length buf) stop
    then ok none
    else fail_if (not (is_utf8 (slice buf p stop))) malformed >> ok (some (slice buf p stop, stop))

-- The string of a slot, once its length and all its bytes are there, and the place behind it.
unfoldable pub slot_text : List ℕ → ℕ → ℕ × ℕ → Result HistoryFailure (Option (List ℕ × ℕ))
slot_text buf payload_len (len, p) = do
  fail_if (leb (2 ^ 64) (p + len)) malformed
  fail_if (ltb payload_len (p + len)) malformed
  slot_slice buf p (p + len)

-- One turn of the loop over the first two fields: the slot's new text, empty when its field is
-- absent, and the place behind it.
unfoldable pub slot : List ℕ → ℕ → ℕ → ℕ → Result HistoryFailure (Option (List ℕ × ℕ))
slot buf payload_len number pos =
    if pos == payload_len
    then ok (some ([], pos))
    else byte_at buf pos λ key.
      if key == tag number 2
      then ready_then (read_varint buf (pos + 1)) (slot_text buf payload_len)
      else ok (some ([], pos))

unfoldable pub head_of : List ℕ → List ℕ → ℕ → ℕ → Result HistoryFailure (Option MediaHead)
head_of media_id mime_type blob_len consumed = ok (
    some (record {
      media_id = media_id;
      mime_type = mime_type;
      blob_len = blob_len;
      consumed = consumed;
    }))

-- The blob's own key and length; the blob has to run to the end of the payload.
unfoldable pub blob_prefix :
    List ℕ → ℕ → List ℕ → List ℕ → ℕ → Result HistoryFailure (Option MediaHead)
blob_prefix buf payload_len media_id mime_type pos =
    if pos == payload_len
    then head_of media_id mime_type 0 pos
    else byte_at buf pos λ key.
      fail_if (not (key == tag 3 2)) malformed
      >> ready_then (read_varint buf (pos + 1)) λ read.
        fail_if (not ((read.1 + read.0) % 2 ^ 64 == payload_len)) malformed
        >> head_of media_id mime_type read.0 read.1

unfoldable pub no_text : List ℕ → Bool
no_text [] = true
no_text (b ∷ bs) = false

unfoldable pub media_head : List ℕ → ℕ → Result HistoryFailure (Option MediaHead)
media_head buf payload_len = ready_then (slot buf payload_len 1 0) λ id.
    ready_then (slot buf payload_len 2 id.1)
      λ mime. fail_if (no_text id.0) malformed >> blob_prefix buf payload_len id.0 mime.0 mime.1
