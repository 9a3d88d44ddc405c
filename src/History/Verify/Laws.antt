-- ===== src/History/Verify/Laws.antt =====
-- What a frame that passes the checks of src/history/frames.rs is known to be.
use construct_core.Prelude.{
  ℕ, ◌<◌, ◌==◌, ==_iff, ◌≡◌, refl, sym, ap, ◌∙◌, ◌↔◌, Bool, true, false, not, ◌&&◌, List, arith, ok,
  >>=-eq-ok, fail_if-ok, bytes_eq, bytes_eq_refl, bytes_eq→eq, fail_if,
}
use construct_core.History.{
  HistoryFailure, identity_mismatch, kem_key_id_mismatch, qr_pin_mismatch, no_hybrid_key,
  signature_invalid,
}
use construct_core.History.Frames.{Opening, opening_message}
use construct_core.History.Verify.{
  Pin, fingerprint, bundle_only, absent, KnownKeys, Local, no_bytes, check_known, device_id_raw,
  qr_fingerprint, check_pin, check_signature, verify_opening,
}

eq→bytes_eq : (xs ys : List ℕ) → xs ≡ ys → bytes_eq xs ys ≡ true
eq→bytes_eq xs ys e = ap (bytes_eq xs) (sym e) ∙ bytes_eq_refl xs

both : (a b : Bool) → not (a && b) ≡ false → (a ≡ true) × (b ≡ true)
both true true h = (refl, refl)
both true false h = cc
both false b h = cc

holds : (a : Bool) → not a ≡ false → a ≡ true
holds true h = refl
holds false h = cc

fail_if-pass : (b : Bool) (f : HistoryFailure) → fail_if b f ≡ ok tt → b ≡ false
fail_if-pass true f h = cc
fail_if-pass false f h = refl

-- The pin agrees with the keys, where there is one.
abbrev pub Pinned : (List ℕ → List ℕ) → List ℕ → List ℕ → Pin → Type 0
Pinned sha256 identity hybrid (fingerprint value) = qr_fingerprint sha256 identity hybrid ≡ value
Pinned sha256 identity hybrid bundle_only = Unit
Pinned sha256 identity hybrid absent = 0 < 0

check_pin-Pinned :
    (sha256 : List ℕ → List ℕ) (identity hybrid : List ℕ) (pin : Pin)
    → (check_pin sha256 identity hybrid pin ≡ ok tt) ↔ Pinned sha256 identity hybrid pin
unfolding check_pin
check_pin-Pinned sha256 identity hybrid absent = (λ h. cc, λ h. absurd (omega arith))
check_pin-Pinned sha256 identity hybrid bundle_only = (λ h. tt, λ h. refl)
check_pin-Pinned sha256 identity hybrid (fingerprint value) = (
  λ h.
      bytes_eq→eq (qr_fingerprint sha256 identity hybrid) value
        (holds _ (fail_if-pass _ qr_pin_mismatch h)),
  λ h. rw (eq→bytes_eq (qr_fingerprint sha256 identity hybrid) value h) refl,
)

check_known_iff :
    (identity hybrid : List ℕ) (known : KnownKeys)
    → (check_known identity hybrid known ≡ ok tt) ↔ (
        (no_bytes known.hybrid_public ≡ false)
        × (identity ≡ known.identity_public)
        × (hybrid ≡ known.hybrid_public))
unfolding check_known
check_known_iff identity hybrid known = (
  λ h.
      let (some_key, k) = fail_if-ok (no_bytes known.hybrid_public) no_hybrid_key _ tt h in
      let (a, b) = both _ _ (fail_if-pass _ identity_mismatch k) in
      (
        some_key,
        bytes_eq→eq identity known.identity_public a,
        bytes_eq→eq hybrid known.hybrid_public b,
      ),
  λ (some_key, a, b).
      rw
        (
          some_key,
          eq→bytes_eq identity known.identity_public a,
          eq→bytes_eq hybrid known.hybrid_public b,
        )
        refl,
)

-- An opening passes if and only if it names its sender's id and this device, is for the Kyber key
-- that this device holds, carries the keys that the directory holds, which are not empty, agrees with
-- a pin, which is there, and is signed under the known key.
pub verify_opening_iff :
    (sha256 : List ℕ → List ℕ) (verify : List ℕ → List ℕ → List ℕ → Bool) (o : Opening)
    (self : Local) (known : KnownKeys) (pin : Pin)
    → (verify_opening sha256 verify o self known pin ≡ ok tt) ↔ (
        ((o.sender_device_id ≡ device_id_raw sha256 o.sender_identity)
          × (o.receiver_device_id ≡ self.device_id))
        × (o.receiver_kyber_key_id ≡ self.kyber_key_id)
        × ((no_bytes known.hybrid_public ≡ false)
            × (o.sender_identity ≡ known.identity_public)
            × (o.sender_hybrid ≡ known.hybrid_public))
        × Pinned sha256 o.sender_identity o.sender_hybrid pin
        × (verify known.hybrid_public (opening_message o) o.signature ≡ true))
unfolding verify_opening check_signature
verify_opening_iff sha256 verify o self known pin = (
  λ h.
      let (a, h1) =
        fail_if-ok
          (not (
            bytes_eq o.sender_device_id (device_id_raw sha256 o.sender_identity)
            && bytes_eq o.receiver_device_id self.device_id))
          identity_mismatch _ tt h in
      let (b, h2) =
        fail_if-ok (not (o.receiver_kyber_key_id == self.kyber_key_id)) kem_key_id_mismatch _ tt
          h1 in
      let (_, c, h3) = >>=-eq-ok (check_known o.sender_identity o.sender_hybrid known) _ h2 in
      let (_, d, h4) = >>=-eq-ok (check_pin sha256 o.sender_identity o.sender_hybrid pin) _ h3 in
      let (a0, a1) = both _ _ a in
      (
        (bytes_eq→eq o.sender_device_id _ a0, bytes_eq→eq o.receiver_device_id self.device_id a1),
        (==_iff o.receiver_kyber_key_id self.kyber_key_id).0 (holds _ b),
        (check_known_iff o.sender_identity o.sender_hybrid known).0 c,
        (check_pin-Pinned sha256 o.sender_identity o.sender_hybrid pin).0 d,
        holds _ (fail_if-pass _ signature_invalid h4),
      ),
  λ ((a0, a1), b, c, d, e).
      rw
        (
          eq→bytes_eq o.sender_device_id (device_id_raw sha256 o.sender_identity) a0,
          eq→bytes_eq o.receiver_device_id self.device_id a1,
          (==_iff o.receiver_kyber_key_id self.kyber_key_id).1 b,
          (check_known_iff o.sender_identity o.sender_hybrid known).1 c,
          (check_pin-Pinned sha256 o.sender_identity o.sender_hybrid pin).1 d,
          e,
        )
        refl,
)
