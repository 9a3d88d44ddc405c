-- ===== src/Wire/Unpack.antt =====
-- `unpack` of src/wire_payload.rs. A cursor is an offset into the whole buffer, as in the code.
use construct_core.Prelude.{
  ℕ, ◌+◌, ltb, leb, ◌==◌, if◌then◌else◌, Bool, true, false, not, ◌&&◌, Option, none, some, List,
  length, get_or, drop, from_le_bytes, slice, Result, ok, err, ◌>>=◌, ◌>>◌, fail_if,
}
use construct_core.Wire.{
  DecodedWirePayload, PqRatchetWireField, public_key, ciphertext, WirePayloadError, too_short,
  pqxdh_flag_without_ciphertext, kem_identity_without_handshake, kem_identity_size, retired_suite,
  pq_key_index_without_epoch, invalid_pq_field_type, header_size, kem_identity_object_size,
  pq_ratchet_suite, retired_pq_ratchet_v1, ad_version_header, ad_version_legacy,
}
use construct_core.Wire.Flags.{
  strip_flags, has_flag, pqxdh_v2_flag, kem_identity_flag, identity_proof_flag, ad_v4_flag,
}
use construct_core.Wire.Leb128.{read_leb128}

-- `from_le_bytes` of the bytes at an offset.
abbrev pub word_at : List ℕ → ℕ → ℕ → ℕ
word_at bytes offset size = from_le_bytes (slice bytes offset (offset + size))

-- The fixed header.
pub record Header : Type 0 where
  pub message_number : ℕ
  pub dh_public_key : List ℕ
  pub one_time_prekey_id : ℕ
  pub kyber_otpk_id : ℕ
  pub kem_len : ℕ
  pub previous_chain_length : ℕ
  pub wire_suite_id : ℕ

unfoldable pub read_header : List ℕ → Header
read_header bytes = record {
  message_number = word_at bytes 0 4;
  dh_public_key = slice bytes 4 36;
  one_time_prekey_id = word_at bytes 36 4;
  kyber_otpk_id = word_at bytes 40 4;
  kem_len = word_at bytes 44 2;
  previous_chain_length = word_at bytes 46 4;
  wire_suite_id = word_at bytes 50 2;
}

-- The closure `kem_identity_object`, from and to the cursor that it moves.
unfoldable pub kem_identity_object :
    List ℕ → ℕ → Bool → Result WirePayloadError (Option (List ℕ) × ℕ)
kem_identity_object bytes cursor false = ok (none, cursor)
kem_identity_object bytes cursor true = do
  fail_if (ltb (length bytes) (cursor + 2)) (too_short (length bytes))
  let len = word_at bytes cursor 2
  fail_if (not (len == kem_identity_object_size)) (kem_identity_size len)
  fail_if (ltb (length bytes) (cursor + 2 + len)) (too_short (length bytes))
  ok (some (slice bytes (cursor + 2) (cursor + 2 + len)), cursor + 2 + len)

-- The arms of `match typ`, from the cursor behind the type byte.
unfoldable pub read_public_key :
    List ℕ → ℕ → Result WirePayloadError (Option PqRatchetWireField × ℕ)
read_public_key bytes cursor = do
  fail_if (ltb (length bytes) (cursor + 6)) (too_short (length bytes))
  let epoch = word_at bytes cursor 4
  let len = word_at bytes (cursor + 4) 2
  fail_if (ltb (length bytes) (cursor + 6 + len)) (too_short (length bytes))
  ok (some (public_key epoch (slice bytes (cursor + 6) (cursor + 6 + len))), cursor + 6 + len)

unfoldable pub read_ciphertext :
    List ℕ → ℕ → Result WirePayloadError (Option PqRatchetWireField × ℕ)
read_ciphertext bytes cursor = do
  fail_if (ltb (length bytes) (cursor + 14)) (too_short (length bytes))
  let epoch = word_at bytes cursor 4
  let ek_hash = slice bytes (cursor + 4) (cursor + 12)
  let len = word_at bytes (cursor + 12) 2
  fail_if (ltb (length bytes) (cursor + 14 + len)) (too_short (length bytes))
  ok (
    some (ciphertext epoch ek_hash (slice bytes (cursor + 14) (cursor + 14 + len))),
    cursor + 14 + len,
  )

unfoldable pub read_pq_typed :
    List ℕ → ℕ → ℕ → Result WirePayloadError (Option PqRatchetWireField × ℕ)
read_pq_typed bytes typ cursor =
    if typ == 0
    then ok (none, cursor)
    else if typ == 1
    then read_public_key bytes cursor
    else if typ == 2
    then read_ciphertext bytes cursor
    else err (invalid_pq_field_type typ)

unfoldable pub read_pq_field : List ℕ → ℕ → Result WirePayloadError (Option PqRatchetWireField × ℕ)
read_pq_field bytes cursor = do
  fail_if (ltb (length bytes) (cursor + 1)) (too_short (length bytes))
  let typ = get_or bytes cursor 0
  read_pq_typed bytes typ (cursor + 1)

-- What the PQ-ratchet section holds; the values that other suites start from and keep.
pub record PqPart : Type 0 where
  pub message_epoch : ℕ
  pub key_index : ℕ
  pub field : Option PqRatchetWireField

abbrev pub no_pq_part : PqPart
no_pq_part = record { message_epoch = 0; key_index = 0; field = none }

unfoldable pub read_pq_section : List ℕ → ℕ → Result WirePayloadError (PqPart × ℕ)
read_pq_section bytes cursor = do
  fail_if (ltb (length bytes) (cursor + 4)) (too_short (length bytes))
  let epoch = word_at bytes cursor 4
  (key_index, after_index) ← read_leb128 bytes (cursor + 4)
  fail_if (epoch == 0 && not (key_index == 0)) (pq_key_index_without_epoch key_index)
  (field, end) ← read_pq_field bytes after_index
  ok (record { message_epoch = epoch; key_index = key_index; field = field }, end)

unfoldable pub pq_part_of : List ℕ → ℕ → ℕ → Result WirePayloadError (PqPart × ℕ)
pq_part_of bytes suite cursor =
    if suite == pq_ratchet_suite then read_pq_section bytes cursor else ok (no_pq_part, cursor)

-- Everything behind the fixed header.
unfoldable pub unpack_body : List ℕ → Header → Result WirePayloadError DecodedWirePayload
unpack_body bytes h = do
  let pqxdh_v2 = has_flag h.wire_suite_id pqxdh_v2_flag
  let has_kem_identity = has_flag h.wire_suite_id kem_identity_flag
  let has_identity_proof = has_flag h.wire_suite_id identity_proof_flag
  let suite = strip_flags h.wire_suite_id
  fail_if (pqxdh_v2 && h.kem_len == 0) pqxdh_flag_without_ciphertext
  fail_if (has_kem_identity && not pqxdh_v2) kem_identity_without_handshake
  let sealed_box_start = header_size + h.kem_len
  fail_if (leb (length bytes) sealed_box_start) (too_short (length bytes))
  (kem_identity, after_identity) ← kem_identity_object bytes sealed_box_start has_kem_identity
  (proof, after_proof) ← kem_identity_object bytes after_identity has_identity_proof
  fail_if (suite == retired_pq_ratchet_v1) (retired_suite suite)
  (pq, cursor) ← pq_part_of bytes suite after_proof
  fail_if (leb (length bytes) cursor) (too_short (length bytes))
  ok (record {
    message_number = h.message_number;
    dh_public_key = h.dh_public_key;
    one_time_prekey_id = h.one_time_prekey_id;
    kyber_otpk_id = h.kyber_otpk_id;
    previous_chain_length = h.previous_chain_length;
    suite_id = suite;
    kem_ciphertext =
        if ltb 0 h.kem_len then some (slice bytes header_size sealed_box_start) else none;
    pqxdh_v2 = pqxdh_v2;
    kem_identity = kem_identity;
    identity_proof_ciphertext = proof;
    sealed_box = drop cursor bytes;
    pq_message_epoch = pq.message_epoch;
    pq_key_index = pq.key_index;
    pq_ratchet_field = pq.field;
    ad_version =
        if has_flag h.wire_suite_id ad_v4_flag then ad_version_header else ad_version_legacy;
  })

unfoldable pub unpack : List ℕ → Result WirePayloadError DecodedWirePayload
unpack bytes = do
  fail_if (leb (length bytes) header_size) (too_short (length bytes))
  unpack_body bytes (read_header bytes)
