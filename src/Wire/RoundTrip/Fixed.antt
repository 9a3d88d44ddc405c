-- ===== src/Wire/RoundTrip/Fixed.antt =====
-- The fixed header and the KEM identity objects, read back from the bytes written for them.
use construct_core.Prelude.{
  subst, append_assoc, ℕ, ◌≤◌, ◌<◌, ◌+◌, ◌%◌, ◌^◌, ◌≡◌, refl, ◌∙◌, true, Option, none, some, List,
  ◌++◌, arith, length, to_le_bytes, length-to_le_bytes, slice, At, At-start, At-slice, At-advance,
  At-word, ok,
}
use construct_core.Wire.{kem_identity_object_size}
use construct_core.Wire.Pack.{object_bytes, is_some}
use construct_core.Wire.Unpack.{Header, read_header, kem_identity_object, word_at}

-- The header's bytes before a tail.
abbrev pub header_bytes : Header → List ℕ → List ℕ
header_bytes h tail =
    to_le_bytes 4 h.message_number
    ++ (h.dh_public_key
        ++ (to_le_bytes 4 h.one_time_prekey_id
            ++ (to_le_bytes 4 h.kyber_otpk_id
                ++ (to_le_bytes 2 h.kem_len
                    ++ (to_le_bytes 4 h.previous_chain_length
                        ++ (to_le_bytes 2 h.wire_suite_id ++ tail))))))

pub record IsHeader (h : Header) : Type 0 where
  pub number : h.message_number < 2 ^ 32
  pub key : length h.dh_public_key ≡ 32
  pub otpk : h.one_time_prekey_id < 2 ^ 32
  pub kyber : h.kyber_otpk_id < 2 ^ 32
  pub kem : h.kem_len < 2 ^ 16
  pub chain : h.previous_chain_length < 2 ^ 32
  pub suite : h.wire_suite_id < 2 ^ 16

-- A word, and the place behind it.
pub At-next :
    {bytes : List ℕ} {c : ℕ} (k v : ℕ) (rest : List ℕ)
    → At bytes c (to_le_bytes k v ++ rest)
    → At bytes (c + k) rest
At-next k v rest a = At-advance k (to_le_bytes k v) rest a (length-to_le_bytes k v)

pub At-move : {bytes rest : List ℕ} (c d : ℕ) → c ≡ d → At bytes c rest → At bytes d rest
At-move {bytes} {rest} c d e a = subst (λ k. At bytes k rest) e a

pub read_header-header_bytes :
    (h : Header) (tail : List ℕ)
    → IsHeader h
    → (read_header (header_bytes h tail) ≡ h) × At (header_bytes h tail) 52 tail
unfolding read_header
read_header-header_bytes h tail v =
    let a0 = At-start (header_bytes h tail) in
    let a1 = At-next 4 h.message_number _ a0 in
    let a2 = At-advance 32 h.dh_public_key _ a1 v.key in
    let a3 = At-next 4 h.one_time_prekey_id _ a2 in
    let a4 = At-next 4 h.kyber_otpk_id _ a3 in
    let a5 = At-next 2 h.kem_len _ a4 in
    let a6 = At-next 4 h.previous_chain_length _ a5 in
    let a7 = At-next 2 h.wire_suite_id _ a6 in
    (
      λ i. record {
        message_number = At-word 4 h.message_number _ a0 v.number i;
        dh_public_key = At-slice 32 h.dh_public_key _ a1 v.key i;
        one_time_prekey_id = At-word 4 h.one_time_prekey_id _ a2 v.otpk i;
        kyber_otpk_id = At-word 4 h.kyber_otpk_id _ a3 v.kyber i;
        kem_len = At-word 2 h.kem_len _ a4 v.kem i;
        previous_chain_length = At-word 4 h.previous_chain_length _ a5 v.chain i;
        wire_suite_id = At-word 2 h.wire_suite_id _ a6 v.suite i;
      },
      a7,
    )

-- An object of the right size.
abbrev pub IsObject : Option (List ℕ) → Type 0
IsObject none = Unit {0}
IsObject (some object) = length object ≡ kem_identity_object_size

present_object :
    (bytes : List ℕ) (c : ℕ) (object : List ℕ)
    → word_at bytes c 2 ≡ 1568
    → c + 2 + 1568 ≤ length bytes
    → slice bytes (c + 2) (c + 2 + 1568) ≡ object
    → kem_identity_object bytes c true ≡ ok (some object, c + 2 + 1568)
unfolding kem_identity_object
present_object bytes c object word room piece = ground arith

pub kem_identity_object-object_bytes :
    (o : Option (List ℕ)) (bytes rest : List ℕ) (c : ℕ)
    → IsObject o
    → At bytes c (object_bytes o ++ rest)
    → (end : ℕ) × (kem_identity_object bytes c (is_some o) ≡ ok (o, end)) × At bytes end rest
unfolding kem_identity_object
kem_identity_object-object_bytes none bytes rest c h a = (c, refl, a)
kem_identity_object-object_bytes (some object) bytes rest c h a =
    let a0 =
      subst (At bytes c) (append_assoc (to_le_bytes 2 (length object % 2 ^ 16)) object rest) a in
    let small : length object % 2 ^ 16 < 256 ^ 2 = omega arith in
    let word : word_at bytes c 2 ≡ 1568 =
      At-word 2 (length object % 2 ^ 16) (object ++ rest) a0 small ∙ omega arith in
    let a1 = At-next 2 (length object % 2 ^ 16) (object ++ rest) a0 in
    let a2 = At-advance 1568 object rest a1 h in
    (
      c + 2 + 1568,
      present_object bytes c object word a2.within (At-slice 1568 object rest a1 h),
      a2,
    )
