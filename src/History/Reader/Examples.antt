-- ===== src/History/Reader/Examples.antt =====
-- Streams of src/history/cth1.rs at concrete inputs.
use construct_core.Prelude.{
  ℕ, ◌≡◌, refl, sym, ap, ◌∙◌, true, none, some, List, [], ◌∷◌, ◌++◌, arith, ok, err, ok-injective,
}
use construct_core.History.{chat_type, manifest_type, malformed}
use construct_core.History.Wire.{
  manifest, ManifestFields, fields, each_field, field, field_value, need_varint, read_varint,
  read_varint_loop, read_varint_byte, skip, manifest_field, as_varint, as_bytes, well_formed,
  write_varint, write_varint_loop, tag,
}
use construct_core.History.Order.{
  end_rank, Order, check, rank, check_rank, check_first, check_next, allowed, place, is_manifest,
}
use construct_core.History.Writer.{
  Writer, preamble, ready, is_empty, judge_written, admit_record, framed_record, write_judged,
  write_admitted, write_record, head_string, type_field, blob_field, media_head_bytes, admit_media,
  media_admitted, begin_media, media_bytes, end_admitted, write_end,
}
use construct_core.History.MediaHead.{is_utf8, utf8_from}
use construct_core.History.Reader.{
  Envelope, Reader, new_reader, done, failed, push, Pushed, finish, mismatch, push_running,
  push_loop, step, step_preamble, fail_with, filled, unfilled,
}
use construct_core.History.Reader.Payload.{IsReader}
use construct_core.History.Reader.Progress.{push-IsReader, new_reader-IsReader}
use construct_core.History.Reader.Streams.{
  Item, record_item, media_item, write_item, write_items, write_stream, and_then, appended, IsItem,
  script_events,
}
use construct_core.History.Reader.Transfer.{finished, push-write_stream}
use construct_core.History.Reader.Failure.{push-failed}

-- Version 1, the ids 7 and 9, phase 3.
abbrev proto : List ℕ
proto = 8 ∷ 1 ∷ 18 ∷ 1 ∷ 7 ∷ 26 ∷ 1 ∷ 9 ∷ 104 ∷ 3 ∷ []

abbrev announced : ManifestFields
announced = record { format_version = 1; snapshot_id = 7 ∷ []; user_id = 9 ∷ []; phase = 3 }

abbrev opening : Envelope
opening = record { snapshot_id = 7 ∷ []; user_id = 9 ∷ [] }

-- A manifest, an empty chat and a blob of two bytes.
abbrev script : List Item
script =
    record_item manifest_type proto
    ∷ record_item chat_type []
    ∷ media_item (97 ∷ []) [] (5 ∷ 6 ∷ [])
    ∷ []

abbrev header : ℕ → ℕ → List ℕ
header ty len = ty ∷ len ∷ 0 ∷ 0 ∷ 0 ∷ 0 ∷ 0 ∷ 0 ∷ 0 ∷ []

abbrev stream : List ℕ
stream =
    67
    ∷ 84
    ∷ 72
    ∷ 49
    ∷ 1
    ∷ (header 1 10 ++ proto ++ header 3 0 ++ header 8 7 ++ (10 ∷ 1 ∷ 97 ∷ 26 ∷ 2 ∷ 5 ∷ 6 ∷ 0 ∷ []))

abbrev ended : Order
ended = record { last = some end_rank; phase = 3 }

abbrev closed : Writer
closed = record { order = ended; started = true; ended = true; media_remaining = 0 }

read_proto : manifest proto ≡ ok announced
unfolding manifest fields each_field field field_value need_varint read_varint read_varint_loop
    read_varint_byte skip manifest_field as_varint as_bytes
read_proto = refl

agrees : IsItem (some opening) (record_item manifest_type proto)
unfolding mismatch
agrees m e h =
    ap (λ (k : ManifestFields). mismatch (some opening) k.snapshot_id k.user_id)
      (ok-injective (sym h ∙ read_proto))

other_type : IsItem (some opening) (record_item chat_type [])
other_type m e h = absurd (omega (arith, e))

is_media : IsItem (some opening) (media_item (97 ∷ []) [] (5 ∷ 6 ∷ []))
unfolding is_utf8 utf8_from media_head_bytes head_string type_field blob_field write_varint
    write_varint_loop tag is_empty
is_media = (refl, refl, omega arith)

writes : write_stream script ≡ (closed, ok stream)
unfolding write_stream write_items write_item and_then appended write_record write_admitted
    write_judged admit_record ready check rank check_rank check_first check_next allowed place
    is_manifest judge_written manifest fields each_field field field_value need_varint read_varint
    read_varint_loop read_varint_byte skip manifest_field as_varint as_bytes well_formed preamble
    framed_record begin_media admit_media media_admitted media_bytes media_head_bytes head_string
    type_field blob_field write_varint write_varint_loop tag is_empty write_end end_admitted
writes = refl

push-write_stream_example :
    (push (new_reader (some opening)) stream
      ≡ some (record {
        reader = finished ended (some opening);
        events = script_events script;
        outcome = ok tt;
      }))
    × (finish (finished ended (some opening)) done ≡ (finished ended (some opening), ok tt))
push-write_stream_example =
    push-write_stream (some opening) script closed stream (agrees, (other_type, (is_media, tt)))
      writes

push-IsReader_example : (p : Pushed) × (push (new_reader none) stream ≡ some p) × IsReader p.reader
push-IsReader_example = push-IsReader (new_reader none) stream (new_reader-IsReader none)

-- A stream that is not one.
abbrev garbage : List ℕ
garbage = 1 ∷ 2 ∷ 3 ∷ 4 ∷ 5 ∷ 6 ∷ []

abbrev refused : Reader
refused = record {
  state = failed malformed;
  buf = [];
  order = (new_reader none).order;
  envelope = none;
}

fails :
    push (new_reader none) garbage
    ≡ some (record { reader = refused; events = []; outcome = err malformed })
unfolding push push_running push_loop step step_preamble fail_with filled unfilled new_reader
fails = refl

push-failed_example :
    ((more : List ℕ)
      → push refused more
        ≡ some (record { reader = refused; events = []; outcome = err malformed }))
    × (finish refused refused.state ≡ (refused, err malformed))
push-failed_example = push-failed (new_reader none) garbage _ malformed fails refl
