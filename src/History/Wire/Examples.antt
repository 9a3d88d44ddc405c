-- ===== src/History/Wire/Examples.antt =====
-- Varints and messages of src/history/wire.rs at concrete inputs.
use construct_core.Prelude.{
  ℕ, ◌<◌, ◌^◌, ◌≡◌, refl, List, [], ◌∷◌, ◌++◌, arith, length, At, ok, ◌>>=◌,
}
use construct_core.History.Wire.{
  field, each_field, fields, manifest_field, default_manifest, read_varint, write_varint,
  write_varint_loop, message_body, body_field, body_of, unknown, field_value, need_varint,
  read_varint_loop, read_varint_byte,
}
use construct_core.History.Wire.Walk.{fields-step}
use construct_core.History.Wire.Encode.{
  Field, int_field, text_field, encode, encode_field, visit_all, fields-encode,
}

-- 300 takes two bytes.
abbrev three_hundred : List ℕ
three_hundred = 172 ∷ 2 ∷ 9 ∷ []

At-varint : At three_hundred 0 (write_varint 300 ++ (9 ∷ []))
unfolding write_varint write_varint_loop
At-varint = record { within = omega arith; ahead = refl }

fields-step_example : each_field manifest_field 3 three_hundred 0 default_manifest ≡ (
    field three_hundred 0 >>= λ read. manifest_field default_manifest read.0 >>= λ s'.
    each_field manifest_field 3 three_hundred read.1 s')
fields-step_example = fields-step manifest_field 3 three_hundred 0 default_manifest (omega arith)

abbrev sent : List Field
sent = int_field 1 1 ∷ text_field 2 (7 ∷ []) ∷ int_field 13 3 ∷ []

short : length (encode sent) < 2 ^ 64
unfolding encode encode_field write_varint write_varint_loop
short = omega arith

fields-encode_example :
    fields manifest_field (encode sent) default_manifest
    ≡ visit_all manifest_field sent default_manifest
fields-encode_example =
    fields-encode manifest_field sent default_manifest
      (
        (omega arith, omega arith, omega arith),
        ((omega arith, omega arith, omega arith), ((omega arith, omega arith, omega arith), tt)),
      )
      short

-- A message with only a field of a future version.
future : message_body (136 ∷ 1 ∷ 1 ∷ []) ≡ ok unknown
unfolding message_body fields each_field field field_value need_varint read_varint read_varint_loop
    read_varint_byte body_field body_of
future = refl
