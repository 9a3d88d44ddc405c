-- ===== src/Wire/RoundTrip.antt =====
-- `unpack` reads back what `pack_message` wrote.
pub mod Fixed
pub mod Section
pub mod Body
use construct_core.Prelude.{
  ℕ, ◌<◌, ◌+◌, ◌^◌, ltb, leb, if◌then◌else◌, ltb→lt, lt→ltb, lt→leb, ◌≡◌, refl, ap, ◌∙◌, ◌≢◌,
  Option, none, some, List, [], ◌∷◌, ◌++◌, arith, length, length-append, At, At-length, At-slice,
  At-advance, ok,
}
use native.Mathlib.Nat.{mod-eq_of_lt}
use construct_core.Wire.{
  PackArguments, DecodedWirePayload, retired_pq_ratchet_v1, ad_version_header, ad_version_legacy,
}
use construct_core.Wire.Flags.{strip_flags}
use construct_core.Wire.Flags.Laws.{wire_suite-FlagsRead}
use construct_core.Wire.Pack.{
  pack_message, frame, wire_suite_of, length_or_zero, is_some, kem_bytes, object_bytes,
}
use construct_core.Wire.Unpack.{Header, read_header, unpack_body, unpack}
use Fixed.{header_bytes, read_header-header_bytes, kem_identity_object-object_bytes}
use Section.{IsField, pq_part, pq_part_of-bytes}
use Body.{pack_message-Packed, unpack_body-pieces}

-- Arguments in the ranges of their types (`u32`, `u16`, `[u8; 8]`), of a message that a session can
-- send: it has a sealed box, its KEM ciphertext is not the empty string, its suite is not the
-- retired one, and outside a PQ epoch its key index is 0.
pub record IsMessage (p : PackArguments) : Type 0 where
  pub number : p.message_number < 2 ^ 32
  pub otpk : p.one_time_prekey_id < 2 ^ 32
  pub kyber : p.kyber_otpk_id < 2 ^ 32
  pub chain : p.previous_chain_length < 2 ^ 32
  pub suite : p.suite_id < 2 ^ 16
  pub epoch : p.pq_message_epoch < 2 ^ 32
  pub index : p.pq_key_index < 2 ^ 32
  pub field : IsField p.pq_ratchet_field
  pub sealed : 0 < length p.sealed_box
  pub kem : p.kem_ciphertext ≢ some []
  pub current : strip_flags p.suite_id ≢ retired_pq_ratchet_v1
  pub keyed : p.pq_message_epoch ≡ 0 → p.pq_key_index ≡ 0

-- What the receiver is to see: the arguments, with the caller's flag bits stripped off the suite,
-- the handshake flag of a message with a KEM ciphertext, the AD version as one of two, and no PQ
-- values in a suite without them.
pub received : PackArguments → DecodedWirePayload
received p =
    let suite = strip_flags p.suite_id in
    let pq = pq_part suite p.pq_message_epoch p.pq_key_index p.pq_ratchet_field in
    record {
      message_number = p.message_number;
      dh_public_key = p.dh_public_key;
      one_time_prekey_id = p.one_time_prekey_id;
      kyber_otpk_id = p.kyber_otpk_id;
      previous_chain_length = p.previous_chain_length;
      suite_id = suite;
      kem_ciphertext = p.kem_ciphertext;
      pqxdh_v2 = is_some p.kem_ciphertext;
      kem_identity = p.kem_identity;
      identity_proof_ciphertext = p.identity_proof_ct;
      sealed_box = p.sealed_box;
      pq_message_epoch = pq.message_epoch;
      pq_key_index = pq.key_index;
      pq_ratchet_field = pq.field;
      ad_version =
          if leb ad_version_header p.ad_version then ad_version_header else ad_version_legacy;
    }

-- The header that is written.
header_of : PackArguments → Header
header_of p = record {
  message_number = p.message_number;
  dh_public_key = p.dh_public_key;
  one_time_prekey_id = p.one_time_prekey_id;
  kyber_otpk_id = p.kyber_otpk_id;
  kem_len = length_or_zero p.kem_ciphertext;
  previous_chain_length = p.previous_chain_length;
  wire_suite_id = wire_suite_of p;
}

length-kem_bytes : (o : Option (List ℕ)) → length (kem_bytes o) ≡ length_or_zero o
length-kem_bytes none = refl
length-kem_bytes (some k) = refl

is_some-kem : (o : Option (List ℕ)) → o ≢ some [] → ltb 0 (length_or_zero o) ≡ is_some o
is_some-kem none h = refl
is_some-kem (some []) h = absurd (h refl)
is_some-kem (some (x ∷ xs)) h = lt→ltb _ _ (omega arith)

kem_read :
    (o : Option (List ℕ))
    → o ≢ some []
    → (if ltb 0 (length_or_zero o) then some (kem_bytes o) else none) ≡ o
kem_read none h = refl
kem_read (some []) h = absurd (h refl)
kem_read (some (x ∷ xs)) h = rw (lt→ltb 0 (length (x ∷ xs)) (omega arith))

abbrev body_bytes : PackArguments → List ℕ → List ℕ
body_bytes p section =
    object_bytes p.kem_identity ++ (object_bytes p.identity_proof_ct ++ (section ++ p.sealed_box))

frame-header_bytes :
    (p : PackArguments) (section : List ℕ)
    → length_or_zero p.kem_ciphertext < 2 ^ 16
    → frame p (wire_suite_of p) section
      ≡ header_bytes (header_of p) (kem_bytes p.kem_ciphertext ++ body_bytes p section)
unfolding frame header_of
frame-header_bytes p section h = rw (mod-eq_of_lt h)

before_rest :
    (bytes a b s rest : List ℕ) (c : ℕ)
    → At bytes c (a ++ (b ++ (s ++ rest)))
    → 0 < length rest
    → c < length bytes
before_rest bytes a b s rest c at h = omega (
  arith,
  At-length at,
  length-append a (b ++ (s ++ rest)),
  length-append b (s ++ rest),
  length-append s rest,
)

unpack-long :
    (bytes : List ℕ) → 52 < length bytes → unpack bytes ≡ unpack_body bytes (read_header bytes)
unfolding unpack
unpack-long bytes h = rw (lt→leb (length bytes) 52 h)

-- Whatever `pack_message` returns for such a message, `unpack` reads back to what was packed.
pub unpack-pack_message :
    (p : PackArguments) (bytes : List ℕ)
    → IsMessage p
    → pack_message p ≡ ok bytes
    → unpack bytes ≡ ok (received p)
unfolding header_of wire_suite_of received
unpack-pack_message p bytes m h =
    let d = pack_message-Packed p bytes h in
    let head = header_of p in
    let o = p.kem_ciphertext in
    let kem_len = length_or_zero o in
    let flags =
      wire_suite-FlagsRead p.suite_id (leb ad_version_header p.ad_version) (ltb 0 kem_len)
        (is_some p.kem_identity) (is_some p.identity_proof_ct) m.suite in
    let tail = kem_bytes o ++ body_bytes p d.section in
    let buf = header_bytes head tail in
    let (header_read, a0) = read_header-header_bytes head tail (record {
      number = m.number;
      key = d.key;
      otpk = m.otpk;
      kyber = m.kyber;
      kem = omega (arith, d.kem);
      chain = m.chain;
      suite = flags.small;
    }) in
    let kem_piece =
      At-slice kem_len (kem_bytes o) (body_bytes p d.section) a0 (length-kem_bytes o) in
    let a1 = At-advance kem_len (kem_bytes o) (body_bytes p d.section) a0 (length-kem_bytes o) in
    let (c1, identity_read, a2) =
      kem_identity_object-object_bytes p.kem_identity buf _ (52 + kem_len) d.identity a1 in
    let (c2, proof_read, a3) =
      kem_identity_object-object_bytes p.identity_proof_ct buf _ c1 d.proof a2 in
    let (end, pq_read, a4) =
      pq_part_of-bytes (strip_flags p.suite_id) p.pq_message_epoch p.pq_key_index p.pq_ratchet_field
        buf p.sealed_box d.section c2 m.epoch m.index m.keyed m.field d.section_ok a3 in
    let room =
      before_rest buf (object_bytes p.kem_identity) (object_bytes p.identity_proof_ct) d.section
        p.sealed_box (52 + kem_len) a1 m.sealed in
    let body =
      unpack_body-pieces buf head (strip_flags p.suite_id) (ltb 0 kem_len) (is_some p.kem_identity)
        (is_some p.identity_proof_ct) (leb ad_version_header p.ad_version) flags.handshake flags.key
        flags.answer flags.ad flags.stripped p.kem_identity p.identity_proof_ct
        (pq_part (strip_flags p.suite_id) p.pq_message_epoch p.pq_key_index p.pq_ratchet_field) c1
        c2 end (ltb→lt 0 kem_len) (λ e. lt→ltb 0 kem_len (d.handshake e)) room identity_read
        proof_read m.current pq_read (omega (arith, At-length a4, m.sealed)) in
    let kem_back = ap (λ k. if ltb 0 kem_len then some k else none) kem_piece ∙ kem_read o m.kem in
    ap unpack (d.written ∙ frame-header_bytes p d.section (omega (arith, d.kem)))
    ∙ unpack-long buf (omega (arith, room))
    ∙ ap (unpack_body buf) header_read
    ∙ body
    ∙ λ i. ok (record (received p) {
      kem_ciphertext = kem_back i;
      pqxdh_v2 = is_some-kem o m.kem i;
      sealed_box = a4.ahead i;
    })
