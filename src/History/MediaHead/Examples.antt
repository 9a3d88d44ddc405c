-- ===== src/History/MediaHead/Examples.antt =====
-- A head of a media blob of src/history/cth1.rs at concrete inputs.
use construct_core.Prelude.{◌≡◌, refl, none, [], ◌∷◌, ok, err}
use construct_core.History.{malformed}
use construct_core.History.Wire.{read_varint, read_varint_loop, read_varint_byte, tag}
use construct_core.History.MediaHead.{
  is_utf8, utf8_from, media_head, head_of, slot, slot_text, slot_slice, byte_at, ready_then,
  no_text, blob_prefix,
}

-- The id is two characters of one and two bytes; two bytes are to come.
complete :
    media_head (10 ∷ 3 ∷ 97 ∷ 195 ∷ 164 ∷ 26 ∷ 2 ∷ []) 9 ≡ head_of (97 ∷ 195 ∷ 164 ∷ []) [] 2 7
unfolding media_head slot slot_text slot_slice byte_at ready_then no_text blob_prefix read_varint
    read_varint_loop read_varint_byte tag is_utf8 utf8_from
complete = refl

-- The same, cut short.
waits : media_head (10 ∷ 3 ∷ 97 ∷ 195 ∷ []) 9 ≡ ok none
unfolding media_head slot slot_text slot_slice byte_at ready_then no_text blob_prefix read_varint
    read_varint_loop read_varint_byte tag is_utf8 utf8_from
waits = refl

-- The blob's field, without an id before it.
nameless : media_head (26 ∷ 2 ∷ []) 4 ≡ err malformed
unfolding media_head slot slot_text slot_slice byte_at ready_then no_text blob_prefix read_varint
    read_varint_loop read_varint_byte tag is_utf8 utf8_from
nameless = refl
