-- ===== src/Cfe/RoundTrip.antt =====
-- What `encode` of src/cfe/envelope.rs writes, as `decode_as` reads it.
use construct_core.Prelude.{
  ℕ, ◌≤◌, ◌<◌, ◌+◌, ◌-◌, ◌%◌, ◌^◌, ◌==◌, le→ltb, ==_iff, ==_refl, ◌≡◌, refl, sym, ap, ◌∙◌, inl, inr,
  true, some, List, ◌++◌, arith, length, take, length-append, take-append_left, to_le_bytes,
  from_le_bytes, from_le_bytes-to_le_bytes, slice, Result, ok, Result-cases,
}
use construct_core.Cfe.{
  CfeMessageType, private_keys, session_state, otpk_bundle, registration_bundle, orchestrator_state,
  kyber_private_keys, mls_store, generic, type_byte, from_u8, max_payload_len, envelope_bytes,
  parse_payload, parse_fields, parse_header, encode, decode_as, byte_at, cfe_version,
}

pub from_u8-type_byte : (t : CfeMessageType) → from_u8 (type_byte t) ≡ some t
unfolding from_u8
from_u8-type_byte private_keys = refl
from_u8-type_byte session_state = refl
from_u8-type_byte otpk_bundle = refl
from_u8-type_byte registration_bundle = refl
from_u8-type_byte orchestrator_state = refl
from_u8-type_byte kyber_private_keys = refl
from_u8-type_byte mls_store = refl
from_u8-type_byte generic = refl

pub max_payload_len-bound : (t : CfeMessageType) → max_payload_len t ≤ 2 ^ 26
max_payload_len-bound private_keys = omega arith
max_payload_len-bound session_state = omega arith
max_payload_len-bound otpk_bundle = omega arith
max_payload_len-bound registration_bundle = omega arith
max_payload_len-bound orchestrator_state = omega arith
max_payload_len-bound kyber_private_keys = omega arith
max_payload_len-bound mls_store = omega arith
max_payload_len-bound generic = omega arith

module _ (crc32 : List ℕ → ℕ) (crc32_small : (x : List ℕ) → crc32 x < 2 ^ 32) where
  parse_payload-envelope_bytes :
      (t : CfeMessageType) (payload rest : List ℕ)
      → length payload ≤ max_payload_len t
      → (slice (envelope_bytes crc32 t payload ++ rest) 16 (16 + length payload) ≡ payload)
        × (16 + length payload ≤ length (envelope_bytes crc32 t payload ++ rest))
  parse_payload-envelope_bytes t payload rest h =
      let e : 16 + length payload - 16 ≡ length payload = omega arith in
      (
        ap (λ n. take n (payload ++ rest)) e ∙ take-append_left (length payload) payload rest refl,
        omega (arith, length-append payload rest),
      )

  parse_payload-piece :
      (bytes payload : List ℕ) (t : CfeMessageType) (size sum : ℕ)
      → size ≤ max_payload_len t
      → 16 + size ≤ length bytes
      → slice bytes 16 (16 + size) ≡ payload
      → sum ≡ crc32 payload
      → parse_payload crc32 bytes t size sum
        ≡ ok record {
          version = byte_at bytes 2;
          msg_type = t;
          flags = byte_at bytes 4;
          payload = payload;
        }
  unfolding parse_payload
  parse_payload-piece bytes payload t size sum fits room piece check =
      let e : (sum == crc32 (slice bytes 16 (16 + size))) ≡ true =
        (==_iff sum _).1 (check ∙ ap crc32 (sym piece)) in
      rw (le→ltb (max_payload_len t) size fits, le→ltb (length bytes) (16 + size) room, e, piece)

  pub parse_header-envelope_bytes :
      (t : CfeMessageType) (payload rest : List ℕ)
      → length payload ≤ max_payload_len t
      → parse_header crc32 (envelope_bytes crc32 t payload ++ rest)
        ≡ ok record { version = cfe_version; msg_type = t; flags = 0; payload = payload }
  unfolding parse_header parse_fields
  parse_header-envelope_bytes t payload rest h =
      let (piece, room) = parse_payload-envelope_bytes t payload rest h in
      let bytes = envelope_bytes crc32 t payload ++ rest in
      let small = max_payload_len-bound t in
      let size : from_le_bytes (to_le_bytes 4 (length payload % 2 ^ 32)) ≡ length payload =
        from_le_bytes-to_le_bytes 4 (length payload % 2 ^ 32) (omega arith) ∙ omega arith in
      let sum = from_le_bytes-to_le_bytes 4 (crc32 payload) (crc32_small payload) in
      let end : parse_payload crc32 bytes t (length payload) (crc32 payload)
          ≡ ok record { version = cfe_version; msg_type = t; flags = 0; payload = payload } =
        parse_payload-piece bytes payload t (length payload) (crc32 payload) h room piece refl in
      rw (le→ltb (length bytes) 16 (omega arith), from_u8-type_byte t, size, sum, end)

  module _ {ℓ} {T : Type ℓ} (to_vec_named : T → Result (List ℕ) (List ℕ))
      (from_slice : List ℕ → Result (List ℕ) T)
      (inverse : (value : T) (payload : List ℕ)
        → to_vec_named value ≡ ok payload
        → from_slice payload ≡ ok value) where
    encode-ok :
        (t : CfeMessageType) (value : T) (bytes : List ℕ)
        → encode crc32 to_vec_named t value ≡ ok bytes
        → (payload : List ℕ) × (to_vec_named value ≡ ok payload)
          × (length payload ≤ max_payload_len t)
          × (bytes ≡ envelope_bytes crc32 t payload)
    unfolding encode
    encode-ok t value bytes h = elim (Result-cases (to_vec_named value)) [
      | inl (payload, e) ↦
          let k = rw (e, encode) at h in
          let fits : length payload ≤ max_payload_len t = ground arith in
          let over = le→ltb (max_payload_len t) (length payload) fits in
          let k2 = rw over at k in (payload, e, fits, cc)
      | inr (why, e) ↦ let k = rw (e, encode) at h in cc
    ]

    -- With a MessagePack reader that inverts its writer and a 32-bit checksum: whatever `encode`
    -- writes for a value, `decode_as` reads back to it at the same type, also with bytes behind.
    pub decode_as-encode :
        (t : CfeMessageType) (value : T) (bytes rest : List ℕ)
        → encode crc32 to_vec_named t value ≡ ok bytes
        → decode_as crc32 from_slice (bytes ++ rest) t ≡ ok value
    unfolding decode_as
    decode_as-encode t value bytes rest h =
        let (payload, written, fits, same) = encode-ok t value bytes h in
        let read =
          ap (λ b. parse_header crc32 (b ++ rest)) same
          ∙ parse_header-envelope_bytes t payload rest fits in
        let back = inverse value payload written in rw (read, ==_refl (type_byte t), back)
