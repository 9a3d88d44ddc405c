-- ===== src/Cfe/Examples.antt =====
-- An envelope over a toy checksum and an identity serialiser, and the theorems about it.
use construct_core.Prelude.{
  ℕ, ◌≤◌, ◌<◌, ◌%◌, ◌^◌, ◌≡◌, refl, sym, List, [], ◌∷◌, ◌++◌, arith, length, drop, Result, ok, err,
}
use construct_core.Cfe.{
  CfeEnvelope, generic, envelope_bytes, encode, decode_as, parse_header, cfe_version,
  max_payload_len, from_u8, parse_fields, parse_payload, looks_like_legacy_json, legacy_json,
}
use construct_core.Cfe.RoundTrip.{decode_as-encode}
use construct_core.Cfe.Soundness.{parse_header_sound}

abbrev toy_crc : List ℕ → ℕ
toy_crc x = length x % 2 ^ 32

toy_crc_small : (x : List ℕ) → toy_crc x < 2 ^ 32
toy_crc_small x = omega arith

-- Values that are their own bytes.
abbrev plain : List ℕ → Result (List ℕ) (List ℕ)
plain x = ok x

plain_back : (value payload : List ℕ) → plain value ≡ ok payload → plain payload ≡ ok value
plain_back value payload h = sym h

abbrev stored : List ℕ
stored = envelope_bytes toy_crc generic (7 ∷ 8 ∷ 9 ∷ [])

json_refused : parse_header toy_crc (0x20 ∷ 0x7B ∷ []) ≡ err legacy_json
unfolding parse_header looks_like_legacy_json
json_refused = refl

written : encode toy_crc plain generic (7 ∷ 8 ∷ 9 ∷ []) ≡ ok stored
unfolding encode
written = refl

accepted :
    parse_header toy_crc stored
    ≡ ok record { version = 1; msg_type = generic; flags = 0; payload = 7 ∷ 8 ∷ 9 ∷ [] }
unfolding parse_header parse_fields parse_payload from_u8
accepted = refl

decode_as-encode_example :
    decode_as toy_crc plain (stored ++ (1 ∷ [])) generic ≡ ok (7 ∷ 8 ∷ 9 ∷ [])
decode_as-encode_example =
    decode_as-encode toy_crc toy_crc_small plain plain plain_back generic (7 ∷ 8 ∷ 9 ∷ []) stored
      (1 ∷ []) written

abbrev read_back : CfeEnvelope
read_back = record { version = 1; msg_type = generic; flags = 0; payload = 7 ∷ 8 ∷ 9 ∷ [] }

parse_header_sound_example :
    (read_back.version ≡ cfe_version)
    × (read_back.flags ≡ 0)
    × (length read_back.payload ≤ max_payload_len generic)
    × (stored ≡ envelope_bytes toy_crc generic read_back.payload ++ drop 19 stored)
parse_header_sound_example = parse_header_sound toy_crc stored read_back (omega arith) accepted
