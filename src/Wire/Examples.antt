-- ===== src/Wire/Examples.antt =====
-- Concrete frames, and the theorems at concrete inputs.
use construct_core.Prelude.{
  ℕ, ◌<◌, ◌+◌, ◌^◌, ◌≡◌, refl, true, false, none, some, List, [], ◌∷◌, ◌++◌, arith, length,
  replicate, At-start, ok, err,
}
use construct_core.Wire.{PackArguments, public_key, non_canonical_key_index}
use construct_core.Wire.Leb128.{
  write_leb128, write_leb128_loop, read_leb128, read_leb128_loop, read_leb128_byte,
}
use construct_core.Wire.Leb128.RoundTrip.{read_leb128-write_leb128}
use construct_core.Wire.Leb128.Canonical.{read_leb128_canonical}
use construct_core.Wire.Flags.{wire_suite, strip_flags}
use construct_core.Wire.Flags.Laws.{FlagsRead, wire_suite-FlagsRead}
use construct_core.Wire.Pack.{
  pack_message, pq_section, pq_section_bytes, pq_field_bytes, frame, wire_suite_of,
}
use construct_core.Wire.Unpack.{unpack}
use construct_core.Wire.RoundTrip.{IsMessage, received, unpack-pack_message}

abbrev leb_300 : List ℕ
leb_300 = 0xac ∷ 0x02 ∷ 9 ∷ []

write_300 : write_leb128 300 ≡ 0xac ∷ 0x02 ∷ []
unfolding write_leb128 write_leb128_loop
write_300 = refl

read_300 : read_leb128 leb_300 0 ≡ ok (300, 2)
unfolding read_leb128 read_leb128_loop read_leb128_byte
read_300 = refl

-- A padded form of 0, which the writer never puts.
read_padded : read_leb128 (0x80 ∷ 0x00 ∷ []) 0 ≡ err non_canonical_key_index
unfolding read_leb128 read_leb128_loop read_leb128_byte
read_padded = refl

read_leb128-write_leb128_example : read_leb128 leb_300 0 ≡ ok (300, 2)
unfolding write_leb128 write_leb128_loop
read_leb128-write_leb128_example =
    read_leb128-write_leb128 300 0 leb_300 (9 ∷ []) (omega arith) (At-start leb_300)

read_leb128_canonical_example :
    (300 < 2 ^ 32) × (2 ≡ 0 + length (write_leb128 300)) × (leb_300 ≡ write_leb128 300 ++ (9 ∷ []))
read_leb128_canonical_example = read_leb128_canonical leb_300 0 300 2 (omega arith) read_300

wire_suite-FlagsRead_example :
    FlagsRead 0x0104 (wire_suite (strip_flags 0x0104) true false false true) true false false true
wire_suite-FlagsRead_example = wire_suite-FlagsRead 0x0104 true false false true (omega arith)

-- A first flight with a PQ key proposal.
abbrev first_flight : PackArguments
first_flight = record {
  ad_version = 4;
  dh_public_key = replicate 32 7;
  message_number = 5;
  one_time_prekey_id = 12;
  kyber_otpk_id = 1_000_001;
  previous_chain_length = 0;
  suite_id = 4;
  kem_ciphertext = some (replicate 40 9);
  kem_identity = some (replicate 1568 3);
  identity_proof_ct = none;
  sealed_box = 1 ∷ 2 ∷ 3 ∷ [];
  pq_message_epoch = 2;
  pq_key_index = 300;
  pq_ratchet_field = some (public_key 3 (8 ∷ 8 ∷ []));
}

first_flight-IsMessage : IsMessage first_flight
first_flight-IsMessage = record {
  number = omega arith;
  otpk = omega arith;
  kyber = omega arith;
  chain = omega arith;
  suite = omega arith;
  epoch = omega arith;
  index = omega arith;
  field = omega arith;
  sealed = omega arith;
  kem = λ e. cc;
  current = λ e. absurd (omega arith);
  keyed = λ e. absurd (omega arith);
}

abbrev first_section : List ℕ
first_section = 2 ∷ 0 ∷ 0 ∷ 0 ∷ 0xac ∷ 0x02 ∷ 1 ∷ 3 ∷ 0 ∷ 0 ∷ 0 ∷ 2 ∷ 0 ∷ 8 ∷ 8 ∷ []

abbrev first_frame : List ℕ
first_frame = frame first_flight (wire_suite_of first_flight) first_section

first_packed : pack_message first_flight ≡ ok first_frame
unfolding pack_message pq_section pq_section_bytes pq_field_bytes write_leb128 write_leb128_loop
first_packed = refl

unpack-pack_message_example : unpack first_frame ≡ ok (received first_flight)
unpack-pack_message_example =
    unpack-pack_message first_flight first_frame first_flight-IsMessage first_packed
