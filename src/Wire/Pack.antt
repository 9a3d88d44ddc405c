-- ===== src/Wire/Pack.antt =====
-- `pack_message` and `pack` of src/wire_payload.rs.
use construct_core.Prelude.{
  ℕ, ◌%◌, ◌^◌, ltb, leb, ◌==◌, if◌then◌else◌, Bool, true, false, not, ◌&&◌, Option, none, some,
  List, [], ◌∷◌, ◌++◌, length, to_le_bytes, Result, ok, ◌>>=◌, ◌>>◌, fail_if,
}
use construct_core.Wire.{
  PackArguments, PqRatchetWireField, public_key, ciphertext, WirePayloadError,
  invalid_dh_public_key, kem_too_large, pq_field_too_large, kem_identity_without_handshake,
  kem_identity_size, dh_key_size, kem_identity_object_size, pq_ratchet_suite, ad_version_header,
  ad_version_legacy,
}
use construct_core.Wire.Flags.{strip_flags, wire_suite}
use construct_core.Wire.Leb128.{write_leb128}

-- `o.is_some()`, and `o.map_or(0, |k| k.len())`.
abbrev pub is_some {ℓ} : {A : Type ℓ} → Option A → Bool
is_some none = false
is_some (some a) = true

abbrev pub length_or_zero : Option (List ℕ) → ℕ
length_or_zero none = 0
length_or_zero (some k) = length k

-- An object of the wrong size is refused, an absent one passes.
abbrev pub check_object : Option (List ℕ) → Result WirePayloadError (Unit {0})
check_object none = ok tt
check_object (some object) =
    fail_if (not (length object == kem_identity_object_size)) (kem_identity_size (length object))

-- The exchange field, behind its type byte.
unfoldable pub pq_field_bytes : Option PqRatchetWireField → Result WirePayloadError (List ℕ)
pq_field_bytes none = ok (0 ∷ [])
pq_field_bytes (some (public_key epoch key)) = do
  fail_if (ltb 65535 (length key)) (pq_field_too_large (length key))
  ok (1 ∷ (to_le_bytes 4 epoch ++ (to_le_bytes 2 (length key % 2 ^ 16) ++ key)))
pq_field_bytes (some (ciphertext epoch ek_hash ct)) = do
  fail_if (ltb 65535 (length ct)) (pq_field_too_large (length ct))
  ok (2 ∷ (to_le_bytes 4 epoch ++ (ek_hash ++ (to_le_bytes 2 (length ct % 2 ^ 16) ++ ct))))

-- The PQ-ratchet section, which other suites do not have.
unfoldable pub pq_section_bytes :
    ℕ → ℕ → Option PqRatchetWireField → Result WirePayloadError (List ℕ)
pq_section_bytes epoch key_index field = do
  tail ← pq_field_bytes field
  ok (to_le_bytes 4 epoch ++ (write_leb128 key_index ++ tail))

unfoldable pub pq_section :
    (suite epoch key_index : ℕ) → Option PqRatchetWireField → Result WirePayloadError (List ℕ)
pq_section suite epoch key_index field =
    if suite == pq_ratchet_suite then pq_section_bytes epoch key_index field else ok []

abbrev pub kem_bytes : Option (List ℕ) → List ℕ
kem_bytes none = []
kem_bytes (some kem) = kem

abbrev pub object_bytes : Option (List ℕ) → List ℕ
object_bytes none = []
object_bytes (some object) = to_le_bytes 2 (length object % 2 ^ 16) ++ object

-- The pieces of the frame, in the order in which they are written.
unfoldable pub frame : PackArguments → ℕ → List ℕ → List ℕ
frame p wire_suite_id pq_bytes =
    to_le_bytes 4 p.message_number
    ++ (p.dh_public_key
        ++ (to_le_bytes 4 p.one_time_prekey_id
            ++ (to_le_bytes 4 p.kyber_otpk_id
                ++ (to_le_bytes 2 (length_or_zero p.kem_ciphertext % 2 ^ 16)
                    ++ (to_le_bytes 4 p.previous_chain_length
                        ++ (to_le_bytes 2 wire_suite_id
                            ++ (kem_bytes p.kem_ciphertext
                                ++ (object_bytes p.kem_identity
                                    ++ (object_bytes p.identity_proof_ct
                                        ++ (pq_bytes ++ p.sealed_box))))))))))

-- The suite id as it goes onto the wire: the caller's flags are dropped, and those set that follow
-- from what is present.
unfoldable pub wire_suite_of : PackArguments → ℕ
wire_suite_of p =
    wire_suite (strip_flags p.suite_id) (leb ad_version_header p.ad_version)
      (ltb 0 (length_or_zero p.kem_ciphertext)) (is_some p.kem_identity)
      (is_some p.identity_proof_ct)

unfoldable pub pack_message : PackArguments → Result WirePayloadError (List ℕ)
pack_message p = do
  let kem_len = length_or_zero p.kem_ciphertext
  fail_if (not (length p.dh_public_key == dh_key_size))
      (invalid_dh_public_key (length p.dh_public_key))
  fail_if (ltb 65535 kem_len) (kem_too_large kem_len)
  fail_if (is_some p.kem_identity && kem_len == 0) kem_identity_without_handshake
  check_object p.kem_identity
  check_object p.identity_proof_ct
  pq_bytes ←
      pq_section (strip_flags p.suite_id) p.pq_message_epoch p.pq_key_index p.pq_ratchet_field
  ok (frame p (wire_suite_of p) pq_bytes)

-- `pack`: a legacy-AD message.
unfoldable pub pack : PackArguments → Result WirePayloadError (List ℕ)
pack p = pack_message (record p { ad_version = ad_version_legacy })
