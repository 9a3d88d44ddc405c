-- ===== src/History/MediaHead/RoundTrip.antt =====
-- `media_head` of src/history/cth1.rs reads the head that `begin_media` of the same file wrote.
use construct_core.Prelude.{
  subst, ℕ, zero, suc, ◌≤◌, ◌<◌, ◌+◌, ◌%◌, ◌^◌, ◌==◌, lt→ltb, le→ltb, lt→leb, ==_refl, Bool-cases,
  ◌≡◌, refl, ap, ◌∙◌, ◌≢◌, inl, inr, true, false, some, List, [], ◌∷◌, ◌++◌, arith, length,
  length-append, At, At-start, At-length, At-slice, At-advance, At-get, ok,
}
use construct_core.History.Wire.{tag, write_varint}
use construct_core.History.Wire.RoundTrip.{read_varint-write_varint}
use construct_core.History.Wire.Encode.{At-part, At-behind}
use construct_core.History.Writer.{head_string, is_empty, type_field, blob_field, media_head_bytes}
use construct_core.History.MediaHead.{
  ready_then, byte_at, is_utf8, slot_slice, slot_text, slot, head_of, blob_prefix, no_text,
  media_head,
}

≢→== : (a b : ℕ) → a ≢ b → (a == b) ≡ false
≢→== a b h = ground arith

At-tail : {buf rest : List ℕ} {pos : ℕ} (b : ℕ) → At buf pos (b ∷ rest) → At buf (pos + 1) rest
At-tail {rest} b a = At-advance 1 (b ∷ []) rest a refl

-- A string that stands at `p` is what the slot takes.
slot_text-At :
    (buf text rest : List ℕ) (payload_len p : ℕ)
    → At buf p (text ++ rest)
    → is_utf8 text ≡ true
    → p + length text ≤ payload_len
    → payload_len < 2 ^ 64
    → slot_text buf payload_len (length text, p) ≡ ok (some (text, p + length text))
unfolding slot_text slot_slice
slot_text-At buf text rest payload_len p a valid fits word =
    let room = At-length a in
    let within : p + length text ≤ length buf = omega (arith, room, length-append text rest) in
    rw
      (
        lt→leb (2 ^ 64) (p + length text) (omega arith),
        le→ltb payload_len (p + length text) fits,
        le→ltb (length buf) (p + length text) within,
        At-slice (length text) text rest a refl,
        valid,
      )
      refl

length-head_string :
    (number : ℕ) (text : List ℕ)
    → length (head_string number text) ≡ 1 + length (write_varint (length text)) + length text
unfolding head_string
length-head_string number text = omega (arith, length-append (write_varint (length text)) text)

-- The slot of a field that is there.
slot-present :
    (buf text rest : List ℕ) (payload_len number pos : ℕ)
    → At buf pos (head_string number text ++ rest)
    → is_utf8 text ≡ true
    → pos + length (head_string number text) ≤ payload_len
    → payload_len < 2 ^ 64
    → slot buf payload_len number pos ≡ ok (some (text, pos + length (head_string number text)))
unfolding slot byte_at ready_then head_string
slot-present buf text rest payload_len number pos a valid fits word =
    let len = write_varint (length text) in
    let sized = length-head_string number text in
    let a1 = At-part len text rest (At-tail (tag number 2) a) in
    let a2 = At-behind len (text ++ rest) a1 in
    let e : pos + 1 + length len + length text ≡ pos + length (head_string number text) =
      omega (arith, sized) in
    rw
      (
        ≢→== pos payload_len (omega arith),
        At-get a,
        ==_refl (tag number 2),
        read_varint-write_varint (length text) (pos + 1) buf (text ++ rest) (omega arith) a1,
      )
      (slot_text-At buf text rest payload_len (pos + 1 + length len) a2 valid (omega (arith, sized))
          word
        ∙ ap (λ k. ok (some (text, k))) e)

-- The slot of a field that is not there: the payload ends, or another key stands there.
slot-absent :
    (buf rest : List ℕ) (payload_len number pos key : ℕ)
    → At buf pos (key ∷ rest)
    → (key == tag number 2) ≡ false
    → slot buf payload_len number pos ≡ ok (some ([], pos))
unfolding slot byte_at ready_then
slot-absent buf rest payload_len number pos key a other = elim (Bool-cases (pos == payload_len)) [
  | inl e ↦ rw e refl
  | inr e ↦ rw (e, At-get a, other) refl
]

slot-end :
    (buf : List ℕ) (payload_len number pos : ℕ)
    → pos ≡ payload_len
    → slot buf payload_len number pos ≡ ok (some ([], pos))
unfolding slot
slot-end buf payload_len number pos e =
    let f : (pos == payload_len) ≡ true = ground arith in rw f refl

keys_differ : (tag 3 2 == tag 2 2) ≡ false
unfolding tag
keys_differ = refl

-- The type field, present or not, ahead of the blob's.
slot-type_field :
    (buf mime_type more : List ℕ) (byte_len payload_len pos : ℕ)
    → At buf pos (type_field mime_type ++ (blob_field byte_len ++ more))
    → is_utf8 mime_type ≡ true
    → pos + (length (type_field mime_type) + length (blob_field byte_len)) + byte_len ≡ payload_len
    → payload_len < 2 ^ 64
    → slot buf payload_len 2 pos ≡ ok (some (mime_type, pos + length (type_field mime_type)))
unfolding type_field blob_field is_empty
slot-type_field buf [] more zero payload_len pos a valid sized word =
    slot-end buf payload_len 2 pos (omega (arith, sized))
    ∙ ap (λ k. ok (some ([], k))) (omega arith)
slot-type_field buf [] more (suc n) payload_len pos a valid sized word =
    slot-absent buf _ payload_len 2 pos (tag 3 2) (rw (lt→ltb 0 (suc n) (omega arith)) at a)
      keys_differ
    ∙ ap (λ k. ok (some ([], k))) (omega arith)
slot-type_field buf (b ∷ bs) more byte_len payload_len pos a valid sized word =
    slot-present buf (b ∷ bs) _ payload_len 2 pos a valid (omega (arith, sized)) word

-- The blob's field, or the end of the payload.
blob_prefix-blob_field :
    (buf media_id mime_type more : List ℕ) (byte_len payload_len pos : ℕ)
    → At buf pos (blob_field byte_len ++ more)
    → pos + length (blob_field byte_len) + byte_len ≡ payload_len
    → payload_len < 2 ^ 64
    → blob_prefix buf payload_len media_id mime_type pos
      ≡ head_of media_id mime_type byte_len (pos + length (blob_field byte_len))
unfolding blob_field blob_prefix byte_at ready_then
blob_prefix-blob_field buf media_id mime_type more zero payload_len pos a sized word =
    let f : (pos == payload_len) ≡ true = ground arith in
    rw f (ap (head_of media_id mime_type 0) (omega arith))
blob_prefix-blob_field buf media_id mime_type more (suc n) payload_len pos a sized word =
    let v = suc n in
    let e : blob_field v ≡ tag 3 2 ∷ write_varint v = rw (lt→ltb 0 v (omega arith)) refl in
    let sizes = ap length e in
    let here = subst (λ xs. At buf pos (xs ++ more)) e a in
    let end_at : pos + 1 + length (write_varint v) ≡ pos + length (blob_field v) =
      omega (arith, sizes) in
    let whole : ((pos + 1 + length (write_varint v) + v) % 2 ^ 64 == payload_len) ≡ true =
      exact (pos + 1 + length (write_varint v) + v) payload_len (omega (arith, sizes, sized))
        word in
    rw
      (
        ≢→== pos payload_len (omega (arith, sized, sizes)),
        At-get here,
        ==_refl (tag 3 2),
        read_varint-write_varint v (pos + 1) buf more (omega arith) (At-tail (tag 3 2) here),
        whole,
      )
      (ap (head_of media_id mime_type v) end_at)
  where
    exact : (n m : ℕ) → n ≡ m → m < 2 ^ 64 → (n % 2 ^ 64 == m) ≡ true
    exact n m h small = ground arith

-- Every head that is written, for a blob that a `u64` counts, is parsed as it was written, with the
-- place behind it.
pub media_head-media_head_bytes :
    (media_id mime_type more : List ℕ) (byte_len : ℕ)
    → no_text media_id ≡ false
    → is_utf8 media_id ≡ true
    → is_utf8 mime_type ≡ true
    → length (media_head_bytes media_id mime_type byte_len) + byte_len < 2 ^ 64
    → media_head
        (media_head_bytes media_id mime_type byte_len ++ more)
        (length (media_head_bytes media_id mime_type byte_len) + byte_len)
      ≡ head_of media_id mime_type byte_len (length (media_head_bytes media_id mime_type byte_len))
unfolding media_head media_head_bytes ready_then
media_head-media_head_bytes media_id mime_type more byte_len named valid valid' word =
    let first = head_string 1 media_id in
    let second = type_field mime_type in
    let third = blob_field byte_len in
    let buf = first ++ (second ++ third) ++ more in
    let payload_len = length (first ++ (second ++ third)) + byte_len in
    let s1 = length-append first (second ++ third) in
    let s2 = length-append second third in
    let a0 = At-part first (second ++ third) more (At-start buf) in
    let a1 = At-part second third more (At-behind first _ a0) in
    let a2 = At-behind second _ a1 in
    rw
      (
        slot-present buf media_id _ payload_len 1 0 a0 valid (omega (arith, s1)) word,
        slot-type_field buf mime_type more byte_len payload_len (0 + length first) a1 valid'
            (omega (arith, s1, s2)) word,
        named,
      )
      (blob_prefix-blob_field buf media_id mime_type more byte_len payload_len
          (0 + length first + length second) a2 (omega (arith, s1, s2)) word
        ∙ ap (head_of media_id mime_type byte_len) (omega (arith, s1, s2)))
