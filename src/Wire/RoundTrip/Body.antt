-- ===== src/Wire/RoundTrip/Body.antt =====
-- The steps of `pack_message` and `unpack`, each as one equation over the pieces it is made of.
use construct_core.Prelude.{
  ℕ, ◌≤◌, ◌<◌, ◌+◌, ltb, ◌==◌, if◌then◌else◌, ◌≡◌, ◌≢◌, Bool, true, not, ◌&&◌, Option, none, some,
  List, arith, length, drop, slice, Result, ok, ◌>>◌, >>=-eq-ok, fail_if-ok,
}
use construct_core.Wire.{
  dh_key_size, invalid_dh_public_key, kem_too_large, kem_identity_without_handshake,
  WirePayloadError, WirePayloadError, PackArguments, retired_pq_ratchet_v1, ad_version_header,
  ad_version_legacy, kem_identity_object_size,
}
use construct_core.Wire.Flags.{
  strip_flags, has_flag, pqxdh_v2_flag, kem_identity_flag, identity_proof_flag, ad_v4_flag,
}
use construct_core.Wire.Pack.{
  pack_message, pq_section, wire_suite_of, frame, length_or_zero, is_some, check_object,
}
use construct_core.Wire.Unpack.{Header, PqPart, kem_identity_object, pq_part_of, unpack_body}
use construct_core.Wire.RoundTrip.Fixed.{IsObject}

check_object-ok :
    (o : Option (List ℕ)) (k : Result WirePayloadError (List ℕ)) (bytes : List ℕ)
    → (check_object o >> k) ≡ ok bytes
    → IsObject o × (k ≡ ok bytes)
check_object-ok none k bytes h = (tt, h)
check_object-ok (some object) k bytes h =
    let (e, rest) = fail_if-ok (not (length object == kem_identity_object_size)) _ k bytes h in
    (ground arith, rest)

-- What a successful `pack_message` has checked, and what it wrote.
pub record Packed (p : PackArguments) (bytes : List ℕ) : Type 0 where
  pub key : length p.dh_public_key ≡ 32
  pub kem : length_or_zero p.kem_ciphertext ≤ 65535
  pub handshake : is_some p.kem_identity ≡ true → 0 < length_or_zero p.kem_ciphertext
  pub identity : IsObject p.kem_identity
  pub proof : IsObject p.identity_proof_ct
  pub section : List ℕ
  pub section_ok :
      pq_section (strip_flags p.suite_id) p.pq_message_epoch p.pq_key_index p.pq_ratchet_field
      ≡ ok section
  pub written : bytes ≡ frame p (wire_suite_of p) section

pub pack_message-Packed :
    (p : PackArguments) (bytes : List ℕ) → pack_message p ≡ ok bytes → Packed p bytes
unfolding pack_message
pack_message-Packed p bytes h =
    let kem_len = length_or_zero p.kem_ciphertext in
    let size = length p.dh_public_key in
    let (key, h1) = fail_if-ok (not (size == dh_key_size)) (invalid_dh_public_key size) _ bytes h in
    let (kem, h2) = fail_if-ok (ltb 65535 kem_len) (kem_too_large kem_len) _ bytes h1 in
    let (handshake, h3) =
      fail_if-ok (is_some p.kem_identity && kem_len == 0) kem_identity_without_handshake _ bytes
        h2 in
    let (identity, h4) = check_object-ok p.kem_identity _ bytes h3 in
    let (proof, h5) = check_object-ok p.identity_proof_ct _ bytes h4 in
    let (section, section_ok, h6) =
      >>=-eq-ok
        (pq_section (strip_flags p.suite_id) p.pq_message_epoch p.pq_key_index p.pq_ratchet_field)
        (λ x. ok (frame p (wire_suite_of p) x)) h5 in
    record {
      key = ground arith;
      kem = ground arith;
      handshake = ground arith;
      identity = identity;
      proof = proof;
      section = section;
      section_ok = section_ok;
      written = cc;
    }

-- `unpack_body` from what its steps return.
module _ (bytes : List ℕ) (h : Header) (suite : ℕ) (hs ki pr ad : Bool)
    (handshake : has_flag h.wire_suite_id pqxdh_v2_flag ≡ hs)
    (key : has_flag h.wire_suite_id kem_identity_flag ≡ ki)
    (answer : has_flag h.wire_suite_id identity_proof_flag ≡ pr)
    (version : has_flag h.wire_suite_id ad_v4_flag ≡ ad)
    (stripped : strip_flags h.wire_suite_id ≡ suite) (identity proof : Option (List ℕ))
    (pq : PqPart) (c1 c2 end : ℕ) where
  pub unpack_body-pieces :
      (hs ≡ true → 0 < h.kem_len)
      → (ki ≡ true → hs ≡ true)
      → 52 + h.kem_len < length bytes
      → kem_identity_object bytes (52 + h.kem_len) ki ≡ ok (identity, c1)
      → kem_identity_object bytes c1 pr ≡ ok (proof, c2)
      → suite ≢ retired_pq_ratchet_v1
      → pq_part_of bytes suite c2 ≡ ok (pq, end)
      → end < length bytes
      → unpack_body bytes h
        ≡ ok (record {
          message_number = h.message_number;
          dh_public_key = h.dh_public_key;
          one_time_prekey_id = h.one_time_prekey_id;
          kyber_otpk_id = h.kyber_otpk_id;
          previous_chain_length = h.previous_chain_length;
          suite_id = suite;
          kem_ciphertext = if ltb 0 h.kem_len then some (slice bytes 52 (52 + h.kem_len)) else none;
          pqxdh_v2 = hs;
          kem_identity = identity;
          identity_proof_ciphertext = proof;
          sealed_box = drop end bytes;
          pq_message_epoch = pq.message_epoch;
          pq_key_index = pq.key_index;
          pq_ratchet_field = pq.field;
          ad_version = if ad then ad_version_header else ad_version_legacy;
        })
  unfolding unpack_body
  unpack_body-pieces g1 g2 room i1 i2 g3 i3 last = ground arith
