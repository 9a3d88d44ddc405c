-- ===== src/Wire.antt =====
-- src/wire_payload.rs: the binary frame of an encrypted message.
-- A buffer is the list of its bytes, a word a number below its range, and `data[a..b]` a `slice`.
-- Lengths and cursors are unbounded numbers: the code compares and adds them, and never subtracts.
pub mod Leb128
pub mod Flags
pub mod Pack
pub mod Unpack
pub mod RoundTrip
mod Examples
use construct_core.Prelude.{ℕ, Bool, Option, List}

abbrev pub msg_num_size : ℕ
msg_num_size = 4

abbrev pub dh_key_size : ℕ
dh_key_size = 32

abbrev pub otpk_id_size : ℕ
otpk_id_size = 4

abbrev pub kyber_otpk_id_size : ℕ
kyber_otpk_id_size = 4

abbrev pub kem_len_size : ℕ
kem_len_size = 2

abbrev pub prev_chain_len_size : ℕ
prev_chain_len_size = 4

abbrev pub suite_id_size : ℕ
suite_id_size = 2

abbrev pub header_size : ℕ
header_size = 52

abbrev pub kem_identity_object_size : ℕ
kem_identity_object_size = 1568

-- `SuiteID::PQ_RATCHET` and the suite that it replaced.
abbrev pub pq_ratchet_suite : ℕ
pq_ratchet_suite = 4

abbrev pub retired_pq_ratchet_v1 : ℕ
retired_pq_ratchet_v1 = 3

abbrev pub ad_version_legacy : ℕ
ad_version_legacy = 3

abbrev pub ad_version_header : ℕ
ad_version_header = 4

pub data PqRatchetWireField : Type 0 where
  public_key : (epoch : ℕ) (key : List ℕ) → PqRatchetWireField
  ciphertext : (epoch : ℕ) (ek_hash ct : List ℕ) → PqRatchetWireField

pub record DecodedWirePayload : Type 0 where
  pub message_number : ℕ
  pub dh_public_key : List ℕ
  pub one_time_prekey_id : ℕ
  pub kyber_otpk_id : ℕ
  pub previous_chain_length : ℕ
  pub suite_id : ℕ
  pub kem_ciphertext : Option (List ℕ)
  pub pqxdh_v2 : Bool
  pub kem_identity : Option (List ℕ)
  pub identity_proof_ciphertext : Option (List ℕ)
  pub sealed_box : List ℕ
  pub pq_message_epoch : ℕ
  pub pq_key_index : ℕ
  pub pq_ratchet_field : Option PqRatchetWireField
  pub ad_version : ℕ

pub data WirePayloadError : Type 0 where
  invalid_dh_public_key : ℕ → WirePayloadError
  kem_too_large : ℕ → WirePayloadError
  pq_field_too_large : ℕ → WirePayloadError
  invalid_pq_field_type : ℕ → WirePayloadError
  too_short : ℕ → WirePayloadError
  pqxdh_flag_without_ciphertext : WirePayloadError
  kem_identity_without_handshake : WirePayloadError
  kem_identity_size : ℕ → WirePayloadError
  retired_suite : ℕ → WirePayloadError
  pq_key_index_without_epoch : ℕ → WirePayloadError
  non_canonical_key_index : WirePayloadError

-- The arguments of `pack_message`, by their names.
pub record PackArguments : Type 0 where
  pub ad_version : ℕ
  pub dh_public_key : List ℕ
  pub message_number : ℕ
  pub one_time_prekey_id : ℕ
  pub kyber_otpk_id : ℕ
  pub previous_chain_length : ℕ
  pub suite_id : ℕ
  pub kem_ciphertext : Option (List ℕ)
  pub kem_identity : Option (List ℕ)
  pub identity_proof_ct : Option (List ℕ)
  pub sealed_box : List ℕ
  pub pq_message_epoch : ℕ
  pub pq_key_index : ℕ
  pub pq_ratchet_field : Option PqRatchetWireField
