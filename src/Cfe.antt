-- ===== src/Cfe.antt =====
-- The CFE envelope of stored objects: src/cfe/envelope.rs, with the message types of
-- src/cfe/types.rs, the errors of src/cfe/error.rs and the JSON test of src/cfe/compat.rs.
-- CRC-32 and the MessagePack reader and writer are parameters; a string is the list of its bytes.
-- A `u32` is below 2 ^ 32; `usize` does not wrap, since a payload has 64 MiB at most.

pub mod RoundTrip
pub mod Soundness
mod Examples
use construct_core.Prelude.{
  ℕ, ◌+◌, ◌-◌, ◌*◌, ◌%◌, ◌^◌, ltb, ◌==◌, if◌then◌else◌, Bool, false, not, ◌||◌, Option, none, some,
  List, [], ◌∷◌, ◌++◌, length, get_or, to_le_bytes, from_le_bytes, slice, Result, ok, err, ◌>>=◌,
  ◌>>◌, map_err, ok_or, fail_if,
}

abbrev pub cfe_version : ℕ
cfe_version = 0x01

abbrev pub cfe_header_len : ℕ
cfe_header_len = 16

abbrev pub max_payload_len_generic : ℕ
max_payload_len_generic = 256 * 1024

abbrev pub max_state_payload_len : ℕ
max_state_payload_len = 64 * 1024 * 1024

pub data CfeMessageType : Type 0 where
  private_keys session_state otpk_bundle registration_bundle orchestrator_state : CfeMessageType
  kyber_private_keys mls_store generic : CfeMessageType

-- `msg_type as u8`.
abbrev pub type_byte : CfeMessageType → ℕ
type_byte private_keys = 0x01
type_byte session_state = 0x02
type_byte otpk_bundle = 0x03
type_byte registration_bundle = 0x04
type_byte orchestrator_state = 0x05
type_byte kyber_private_keys = 0x20
type_byte mls_store = 0x44
type_byte generic = 0x7F

pub from_u8 : ℕ → Option CfeMessageType
from_u8 value =
    if value == 0x01
    then some private_keys
    else if value == 0x02
    then some session_state
    else if value == 0x03
    then some otpk_bundle
    else if value == 0x04
    then some registration_bundle
    else if value == 0x05
    then some orchestrator_state
    else if value == 0x20
    then some kyber_private_keys
    else if value == 0x44
    then some mls_store
    else if value == 0x7F
    then some generic
    else none

pub data CfeError : Type 0 where
  too_short : (least got : ℕ) → CfeError
  invalid_magic legacy_json : CfeError
  unsupported_version unknown_type : ℕ → CfeError
  checksum_mismatch : (stored computed : ℕ) → CfeError
  payload_too_large : (cap got : ℕ) → CfeError
  truncated_payload : (expected got : ℕ) → CfeError
  invalid_reserved_bytes : CfeError
  unsupported_flags : ℕ → CfeError
  type_mismatch : (expected got : CfeMessageType) → CfeError
  invalid_format : CfeError
  serialize_failed deserialize_failed legacy_json_parse_failed : List ℕ → CfeError
  base64_decode_failed invalid_field : List ℕ → CfeError

abbrev pub max_payload_len : CfeMessageType → ℕ
max_payload_len generic = max_payload_len_generic
max_payload_len private_keys = max_state_payload_len
max_payload_len session_state = max_state_payload_len
max_payload_len otpk_bundle = max_state_payload_len
max_payload_len registration_bundle = max_state_payload_len
max_payload_len orchestrator_state = max_state_payload_len
max_payload_len kyber_private_keys = max_state_payload_len
max_payload_len mls_store = max_state_payload_len

pub record CfeEnvelope : Type 0 where
  pub version : ℕ
  pub msg_type : CfeMessageType
  pub flags : ℕ
  pub payload : List ℕ

-- The first byte that is no JSON white space opens an object or a list.
pub looks_like_legacy_json : List ℕ → Bool
looks_like_legacy_json [] = false
looks_like_legacy_json (b ∷ bytes) =
    let rest = looks_like_legacy_json bytes in
    if b == 0x20 || b == 0x09 || b == 0x0A || b == 0x0D then rest else b == 0x7B || b == 0x5B

abbrev pub legacy_json_error_if_detected : List ℕ → Result CfeError (Unit {0})
legacy_json_error_if_detected bytes = fail_if (looks_like_legacy_json bytes) legacy_json

-- `data[i]`, of a buffer that is known to be long enough.
abbrev pub byte_at : List ℕ → ℕ → ℕ
byte_at bytes i = get_or bytes i 0

module _ (crc32 : List ℕ → ℕ) where
  -- What `encode` writes for a payload.
  abbrev pub envelope_bytes : CfeMessageType → List ℕ → List ℕ
  envelope_bytes msg_type payload =
      0x43
      ∷ 0x46
      ∷ cfe_version
      ∷ type_byte msg_type
      ∷ 0
      ∷ 0
      ∷ 0
      ∷ 0
      ∷ (to_le_bytes 4 (length payload % 2 ^ 32) ++ (to_le_bytes 4 (crc32 payload) ++ payload))

  -- The checks on the payload, from the length and the checksum that the header has.
  pub parse_payload :
      List ℕ → CfeMessageType → (payload_len stored_crc : ℕ) → Result CfeError CfeEnvelope
  parse_payload bytes msg_type payload_len stored_crc = do
    let total_len = cfe_header_len + payload_len
    fail_if (ltb (max_payload_len msg_type) payload_len)
        (payload_too_large (max_payload_len msg_type) payload_len)
    fail_if (ltb (length bytes) total_len)
        (truncated_payload payload_len (length bytes - cfe_header_len))
    let raw_payload = slice bytes cfe_header_len total_len
    fail_if (not (stored_crc == crc32 raw_payload))
        (checksum_mismatch stored_crc (crc32 raw_payload))
    ok record {
      version = byte_at bytes 2;
      msg_type = msg_type;
      flags = byte_at bytes 4;
      payload = raw_payload;
    }

  -- The checks on the header's bytes, behind the magic.
  pub parse_fields : List ℕ → Result CfeError CfeEnvelope
  parse_fields bytes = do
    fail_if (not (byte_at bytes 2 == cfe_version)) (unsupported_version (byte_at bytes 2))
    msg_type ← ok_or (from_u8 (byte_at bytes 3)) (unknown_type (byte_at bytes 3))
    fail_if (not (byte_at bytes 4 == 0)) (unsupported_flags (byte_at bytes 4))
    fail_if (not (byte_at bytes 5 == 0) || not (byte_at bytes 6 == 0) || not (byte_at bytes 7 == 0))
        invalid_reserved_bytes
    parse_payload bytes msg_type (from_le_bytes (slice bytes 8 12))
        (from_le_bytes (slice bytes 12 16))

  pub parse_header : List ℕ → Result CfeError CfeEnvelope
  parse_header bytes =
      let fields = parse_fields bytes in
      if ltb (length bytes) cfe_header_len
      then (legacy_json_error_if_detected bytes >> err (too_short cfe_header_len (length bytes)))
      else if not (byte_at bytes 0 == 0x43) || not (byte_at bytes 1 == 0x46)
      then (legacy_json_error_if_detected bytes >> err invalid_magic)
      else fields

  pub decode : List ℕ → Result CfeError CfeEnvelope
  decode bytes = parse_header bytes

  -- For the values of one type, with what `rmp_serde` makes of them.
  module _ {ℓ} {T : Type ℓ} where
    pub encode :
        (to_vec_named : T → Result (List ℕ) (List ℕ))
        → CfeMessageType
        → T
        → Result CfeError (List ℕ)
    encode to_vec_named msg_type value = do
      payload ← map_err serialize_failed (to_vec_named value)
      fail_if (ltb (max_payload_len msg_type) (length payload))
          (payload_too_large (max_payload_len msg_type) (length payload))
      ok (envelope_bytes msg_type payload)

    pub decode_as :
        (from_slice : List ℕ → Result (List ℕ) T) → List ℕ → CfeMessageType → Result CfeError T
    decode_as from_slice bytes expected_type = do
      envelope ← parse_header bytes
      fail_if (not (type_byte envelope.msg_type == type_byte expected_type))
          (type_mismatch expected_type envelope.msg_type)
      map_err deserialize_failed (from_slice envelope.payload)
