-- ===== src/History/Verify.antt =====
-- The checks of src/history/frames.rs before a frame is decapsulated: ids, Kyber key id, known keys,
-- QR pin, signature, in this order. SHA-256 and the hybrid signature's verification are parameters.
pub mod Laws
mod Examples
use construct_core.Prelude.{
  ℕ, ◌==◌, Bool, true, false, not, ◌&&◌, Option, none, some, List, [], ◌∷◌, ◌++◌, take, Result, ok,
  err, ◌>>=◌, ◌>>◌, bytes_eq, fail_if,
}
use construct_core.History.{
  HistoryFailure, identity_mismatch, kem_key_id_mismatch, qr_pin_mismatch, qr_pin_absent,
  no_hybrid_key, signature_invalid,
}
use construct_core.History.Frames.{
  Opening, Reply, CthfHeader, opening_message, reply_message, cthf_message,
}

-- What the link QR pinned for the other device.
pub data Pin : Type 0 where
  fingerprint : (value : List ℕ) → Pin
  bundle_only : Pin
  absent : Pin

-- The other device's keys, as the directory returned them.
pub record KnownKeys : Type 0 where
  pub identity_public : List ℕ
  pub hybrid_public : List ℕ

-- This device, as the frames name it.
pub record Local : Type 0 where
  pub device_id : List ℕ
  pub kyber_key_id : ℕ

unfoldable pub no_bytes : List ℕ → Bool
no_bytes [] = true
no_bytes (b ∷ bs) = false

-- `ct_eq` is equality of byte strings.
unfoldable pub check_known : List ℕ → List ℕ → KnownKeys → Result HistoryFailure (Unit {0})
check_known identity hybrid known =
    fail_if (no_bytes known.hybrid_public) no_hybrid_key
    >> fail_if
        (not (bytes_eq identity known.identity_public && bytes_eq hybrid known.hybrid_public))
        identity_mismatch

module _ (sha256 : List ℕ → List ℕ) where
  -- `derive_device_id_bytes`.
  unfoldable pub device_id_raw : List ℕ → List ℕ
  device_id_raw identity_public = take 16 (sha256 identity_public)

  unfoldable pub qr_fingerprint : List ℕ → List ℕ → List ℕ
  qr_fingerprint identity_public hybrid_public = sha256 (identity_public ++ hybrid_public)

  unfoldable pub check_pin : List ℕ → List ℕ → Pin → Result HistoryFailure (Unit {0})
  check_pin identity hybrid absent = err qr_pin_absent
  check_pin identity hybrid bundle_only = ok tt
  check_pin identity hybrid (fingerprint value) =
      fail_if (not (bytes_eq (qr_fingerprint identity hybrid) value)) qr_pin_mismatch

  module _ (verify : List ℕ → List ℕ → List ℕ → Bool) where
    unfoldable pub check_signature : List ℕ → List ℕ → List ℕ → Result HistoryFailure (Unit {0})
    check_signature hybrid message signature =
        fail_if (not (verify hybrid message signature)) signature_invalid

    unfoldable pub verify_opening :
        Opening → Local → KnownKeys → Pin → Result HistoryFailure (Unit {0})
    verify_opening o self known pin = do
      fail_if
          (not (
            bytes_eq o.sender_device_id (device_id_raw o.sender_identity)
            && bytes_eq o.receiver_device_id self.device_id))
          identity_mismatch
      fail_if (not (o.receiver_kyber_key_id == self.kyber_key_id)) kem_key_id_mismatch
      check_known o.sender_identity o.sender_hybrid known
      check_pin o.sender_identity o.sender_hybrid pin
      check_signature known.hybrid_public (opening_message o) o.signature

    unfoldable pub pinned_mismatch : Option (List ℕ) → List ℕ → Bool
    pinned_mismatch none identity = false
    pinned_mismatch (some pinned) identity = not (bytes_eq pinned identity)

    unfoldable pub verify_reply :
        Reply → Opening → KnownKeys → Option (List ℕ) → Result HistoryFailure (Unit {0})
    verify_reply r o known pinned_identity = do
      fail_if (not (bytes_eq (device_id_raw r.receiver_identity) o.receiver_device_id))
          identity_mismatch
      fail_if (pinned_mismatch pinned_identity r.receiver_identity) qr_pin_mismatch
      check_known r.receiver_identity r.receiver_hybrid known
      check_signature known.hybrid_public (reply_message r o) r.signature

    unfoldable pub verify_cthf :
        CthfHeader → Local → KnownKeys → Pin → Result HistoryFailure (Unit {0})
    verify_cthf h self known pin = do
      fail_if
          (not (
            bytes_eq h.recipient_device_id self.device_id
            && bytes_eq h.source_device_id (device_id_raw h.sender_identity)))
          identity_mismatch
      fail_if (not (h.recipient_kyber_key_id == self.kyber_key_id)) kem_key_id_mismatch
      check_known h.sender_identity h.sender_hybrid known
      check_pin h.sender_identity h.sender_hybrid pin
      check_signature known.hybrid_public (cthf_message h) h.signature
