-- ===== src/History/Frames/Examples.antt =====
-- Frames of src/history/frames.rs at concrete inputs.
use construct_core.Prelude.{◌≡◌, refl, false, [], ◌∷◌, ◌++◌, arith, replicate, ok, err}
use construct_core.History.{v1_refused_for_history}
use construct_core.History.Frames.{
  Opening, all_zero, same, check_kem_shape, parse_opening, check_history, opening_bytes,
  opening_to_bytes, CthfHeader, parse_cthf, cthf_fields, cthf_to_bytes, cthf_magic, cthf_v1,
}
use construct_core.History.Frames.RoundTrip.{
  IsOpening, parse_opening-opening_to_bytes, IsCthfHeader, parse_cthf-cthf_to_bytes,
}

abbrev opening : Opening
opening = record {
  sender_eph = replicate 32 1;
  skipped = false;
  payload_len = 1000;
  sender_identity = replicate 32 2;
  sender_hybrid = replicate 1984 3;
  snapshot_id = replicate 16 4;
  sender_device_id = replicate 16 5;
  receiver_device_id = replicate 16 6;
  receiver_kyber_key_id = 7;
  kem_ct = replicate 1568 8;
  signature = replicate 3373 9;
}

opening-IsOpening : IsOpening opening
opening-IsOpening = record {
  eph = refl;
  identity = refl;
  snapshot = refl;
  sender_device = refl;
  receiver_device = refl;
  key_id = omega arith;
}

prints : opening_to_bytes opening ≡ ok (opening_bytes opening)
unfolding opening_to_bytes check_kem_shape all_zero same
prints = refl

parse_opening-opening_to_bytes_example : parse_opening (opening_bytes opening) ≡ ok opening
parse_opening-opening_to_bytes_example =
    parse_opening-opening_to_bytes opening (opening_bytes opening) opening-IsOpening prints

abbrev header : CthfHeader
header = record {
  user_id = replicate 16 1;
  recipient_device_id = replicate 16 2;
  source_device_id = replicate 16 3;
  snapshot_id = replicate 16 4;
  sender_eph = replicate 32 5;
  sender_identity = replicate 32 6;
  sender_hybrid = replicate 1984 7;
  recipient_kyber_key_id = 8;
  kem_ct = replicate 1568 9;
  signature = replicate 3373 10;
}

header-IsCthfHeader : IsCthfHeader header
header-IsCthfHeader = record {
  user = refl;
  recipient = refl;
  source = refl;
  snapshot = refl;
  eph = refl;
  identity = refl;
  key_id = omega arith;
}

prints_header :
    cthf_to_bytes header ≡ ok (cthf_magic ++ cthf_v1 ∷ cthf_fields header header.signature)
unfolding cthf_to_bytes
prints_header = refl

carried : all_zero header.kem_ct ≡ false
unfolding all_zero
carried = refl

parse_cthf-cthf_to_bytes_example :
    parse_cthf (cthf_magic ++ cthf_v1 ∷ cthf_fields header header.signature) ≡ ok header
parse_cthf-cthf_to_bytes_example =
    parse_cthf-cthf_to_bytes header (cthf_magic ++ cthf_v1 ∷ cthf_fields header header.signature)
      header-IsCthfHeader carried prints_header

-- History on version 1 of the handshake.
refused :
    check_history (record { version = 1; sender_eph = []; transfer_type = 2; payload_len = 0 })
    ≡ err v1_refused_for_history
unfolding check_history
refused = refl
