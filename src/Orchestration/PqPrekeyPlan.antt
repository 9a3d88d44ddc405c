-- ===== src/Orchestration/PqPrekeyPlan.antt =====
-- src/orchestration/pq_prekey_plan.rs: which Kyber prekey an initiator encapsulates to, with the
-- checks of its signatures in src/crypto/kyber_prekey_auth.rs. SHA-256 and the verifications of the
-- two signature schemes are parameters.
pub mod Trust
pub mod Choice
mod Examples
use construct_core.Prelude.{
  ℕ, ◌-◌, ◌*◌, ltb, leb, ◌==◌, if◌then◌else◌, Bool, true, false, not, ◌&&◌, ◌||◌, Option, none,
  some, List, [], ◌∷◌, ◌++◌, length, Result, ok, err, ◌>>=◌, ◌>>◌, bytes_eq, ok_or, fail_if,
}
use construct_core.Knst.{to_be_bytes}
use construct_core.KyberPrekeys.{kyber_otpk_id_start}

abbrev pub mlkem1024_pk_size : ℕ
mlkem1024_pk_size = 1568

-- Ed25519 (32 bytes) and ML-DSA-65 (1952 bytes).
abbrev pub hybrid_sig_public_key_size : ℕ
hybrid_sig_public_key_size = 1984

-- `SPK_MAX_AGE_SECS` of src/crypto/client_api.rs.
abbrev pub kyber_spk_max_age_secs : ℕ
kyber_spk_max_age_secs = 30 * 24 * 3600

-- "KonstruktX3DH-v1".
abbrev x3dh_sign_prologue : List ℕ
x3dh_sign_prologue =
    75 ∷ 111 ∷ 110 ∷ 115 ∷ 116 ∷ 114 ∷ 117 ∷ 107 ∷ 116 ∷ 88 ∷ 51 ∷ 68 ∷ 72 ∷ 45 ∷ 118 ∷ 49 ∷ []

-- "KonstruktHybridId-v1".
abbrev hybrid_id_bind_prologue : List ℕ
hybrid_id_bind_prologue =
    75 ∷ 111 ∷ 110 ∷ 115 ∷ 116 ∷ 114 ∷ 117 ∷ 107 ∷ 116 ∷ 72 ∷ 121 ∷ 98 ∷ 114 ∷ 105 ∷ 100 ∷ 73 ∷ 100
    ∷ 45 ∷ 118 ∷ 49 ∷ []

unfoldable pub build_x3dh_sign_message : ℕ → List ℕ → List ℕ
build_x3dh_sign_message suite_id public_key = x3dh_sign_prologue ++ (0 ∷ suite_id ∷ public_key)

unfoldable pub build_hybrid_identity_bind_message : List ℕ → List ℕ
build_hybrid_identity_bind_message hybrid_public = hybrid_id_bind_prologue ++ hybrid_public

unfoldable pub kyber_prekey_sign_message_v2 : ℕ → List ℕ → List ℕ
kyber_prekey_sign_message_v2 created_at kyber_public =
    build_x3dh_sign_message 17 (to_be_bytes 8 created_at ++ kyber_public)

pub record KyberPrekeyOffer : Type 0 where
  pub key_id : ℕ
  pub public : List ℕ
  pub created_at : Option ℕ
  pub signature : Option (List ℕ)
  pub hybrid_signature : Option (List ℕ)

pub record PqxdhOffer : Type 0 where
  pub verifying_key : List ℕ
  pub hybrid_identity_key : Option (List ℕ)
  pub hybrid_identity_signature : Option (List ℕ)
  pub signed_prekey : Option KyberPrekeyOffer
  pub one_time_prekey : Option KyberPrekeyOffer

pub record PqxdhContext : Type 0 where
  pub now : ℕ
  pub pinned_hybrid_identity : Option (List ℕ)

pub data PqxdhRefusal : Type 0 where
  no_kyber_prekey kyber_prekey_malformed kyber_signature_missing : PqxdhRefusal
  kyber_signature_invalid kyber_prekey_stale hybrid_identity_missing : PqxdhRefusal
  hybrid_identity_binding_invalid hybrid_identity_changed : PqxdhRefusal
  hybrid_signature_missing hybrid_signature_invalid : PqxdhRefusal

pub record PqxdhChoice : Type 0 where
  pub kyber_prekey_id : ℕ
  pub kyber_public : List ℕ
  pub hybrid_identity_fingerprint : List ℕ
  pub one_time_prekey_rejected : Option PqxdhRefusal

pub data KyberPrekeySignature : Type 0 where
  valid missing invalid : KyberPrekeySignature

pub data Range : Type 0 where
  signed one_time : Range

-- `filter(|s| !s.is_empty())`.
unfoldable pub present : Option (List ℕ) → Option (List ℕ)
present none = none
present (some []) = none
present (some (b ∷ bs)) = some (b ∷ bs)

unfoldable pub verdict : Bool → KyberPrekeySignature
verdict true = valid
verdict false = invalid

-- A `match` of the plan on a signature's check.
unfoldable pub accept :
    KyberPrekeySignature → PqxdhRefusal → PqxdhRefusal → Result PqxdhRefusal (Unit {0})
accept valid if_missing if_invalid = ok tt
accept missing if_missing if_invalid = err if_missing
accept invalid if_missing if_invalid = err if_invalid

unfoldable pub id_ok : Range → ℕ → Bool
id_ok signed key_id = leb 1 key_id && ltb key_id kyber_otpk_id_start
id_ok one_time key_id = leb kyber_otpk_id_start key_id

-- `saturating_sub` is the subtraction of ℕ.
unfoldable pub stale : Range → ℕ → ℕ → Bool
stale signed now created_at = ltb kyber_spk_max_age_secs (now - created_at)
stale one_time now created_at = false

unfoldable pub pin_changed : Option (List ℕ) → List ℕ → Bool
pin_changed none print = false
pin_changed (some pinned) print = not (bytes_eq pinned print)

unfoldable pub choose : KyberPrekeyOffer → List ℕ → Option PqxdhRefusal → PqxdhChoice
choose prekey print rejected = record {
  kyber_prekey_id = prekey.key_id;
  kyber_public = prekey.public;
  hybrid_identity_fingerprint = print;
  one_time_prekey_rejected = rejected;
}

module _ (verify_ed verify_hybrid : List ℕ → List ℕ → List ℕ → Bool) where
  unfoldable pub check_v2 : List ℕ → List ℕ → ℕ → Option (List ℕ) → KyberPrekeySignature
  check_v2 verifying_key kyber_public created_at none = missing
  check_v2 verifying_key kyber_public created_at (some signature) =
      verdict
        (verify_ed verifying_key (kyber_prekey_sign_message_v2 created_at kyber_public) signature)

  unfoldable pub check_kyber_prekey_signature_v2 :
      List ℕ → List ℕ → ℕ → Option (List ℕ) → KyberPrekeySignature
  check_kyber_prekey_signature_v2 verifying_key kyber_public created_at signature =
      check_v2 verifying_key kyber_public created_at (present signature)

  unfoldable pub check_hybrid : List ℕ → List ℕ → ℕ → Option (List ℕ) → KyberPrekeySignature
  check_hybrid hybrid_identity_key kyber_public created_at none = missing
  check_hybrid hybrid_identity_key kyber_public created_at (some signature) =
      if length hybrid_identity_key == hybrid_sig_public_key_size
      then verdict (
          verify_hybrid hybrid_identity_key (kyber_prekey_sign_message_v2 created_at kyber_public)
            signature)
      else invalid

  unfoldable pub check_kyber_prekey_hybrid_signature :
      List ℕ → List ℕ → ℕ → Option (List ℕ) → KyberPrekeySignature
  check_kyber_prekey_hybrid_signature hybrid_identity_key kyber_public created_at signature =
      check_hybrid hybrid_identity_key kyber_public created_at (present signature)

  unfoldable pub check_prekey :
      List ℕ → List ℕ → KyberPrekeyOffer → Range → ℕ → Result PqxdhRefusal (Unit {0})
  check_prekey verifying_key hybrid_key prekey range now = do
    fail_if (not (length prekey.public == mlkem1024_pk_size) || not (id_ok range prekey.key_id))
        kyber_prekey_malformed
    created_at ← ok_or prekey.created_at kyber_signature_missing
    accept (check_kyber_prekey_signature_v2 verifying_key prekey.public created_at prekey.signature)
        kyber_signature_missing kyber_signature_invalid
    accept
        (check_kyber_prekey_hybrid_signature hybrid_key prekey.public created_at
          prekey.hybrid_signature)
        hybrid_signature_missing hybrid_signature_invalid
    fail_if (stale range now created_at) kyber_prekey_stale

  unfoldable pub check_hybrid_identity : PqxdhOffer → Result PqxdhRefusal (List ℕ)
  check_hybrid_identity offer = do
    key ← ok_or (present offer.hybrid_identity_key) hybrid_identity_missing
    binding ← ok_or (present offer.hybrid_identity_signature) hybrid_identity_missing
    fail_if (not (verify_ed offer.verifying_key (build_hybrid_identity_bind_message key) binding))
        hybrid_identity_binding_invalid
    ok key

  -- The plan from the signed prekey on, after the one-time prekey was rejected or not offered.
  unfoldable pub plan_signed :
      PqxdhOffer → List ℕ → List ℕ → ℕ → Option PqxdhRefusal → Result PqxdhRefusal PqxdhChoice
  plan_signed offer hybrid_key print now rejected = do
    spk ← ok_or offer.signed_prekey no_kyber_prekey
    check_prekey offer.verifying_key hybrid_key spk signed now
    ok (choose spk print rejected)

  -- The plan after the check of a one-time prekey.
  unfoldable pub plan_one_time :
      PqxdhOffer
      → List ℕ
      → List ℕ
      → ℕ
      → KyberPrekeyOffer
      → Result PqxdhRefusal (Unit {0})
      → Result PqxdhRefusal PqxdhChoice
  plan_one_time offer hybrid_key print now otpk (ok checked) = ok (choose otpk print none)
  plan_one_time offer hybrid_key print now otpk (err reason) =
      plan_signed offer hybrid_key print now (some reason)

  unfoldable pub plan_prekey :
      PqxdhOffer → List ℕ → List ℕ → ℕ → Option KyberPrekeyOffer → Result PqxdhRefusal PqxdhChoice
  plan_prekey offer hybrid_key print now none = plan_signed offer hybrid_key print now none
  plan_prekey offer hybrid_key print now (some otpk) =
      plan_one_time offer hybrid_key print now otpk
        (check_prekey offer.verifying_key hybrid_key otpk one_time now)

  module _ (sha256 : List ℕ → List ℕ) where
    unfoldable pub plan_pqxdh : PqxdhOffer → PqxdhContext → Result PqxdhRefusal PqxdhChoice
    plan_pqxdh offer ctx = do
      hybrid_key ← check_hybrid_identity offer
      fail_if (pin_changed ctx.pinned_hybrid_identity (sha256 hybrid_key)) hybrid_identity_changed
      plan_prekey offer hybrid_key (sha256 hybrid_key) ctx.now offer.one_time_prekey
