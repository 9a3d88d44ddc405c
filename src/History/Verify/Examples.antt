-- ===== src/History/Verify/Examples.antt =====
-- The checks of src/history/frames.rs on a frame, with SHA-256 as the identity.
use construct_core.Prelude.{ℕ, ◌≡◌, refl, ◌↔◌, Bool, true, false, List, [], ◌∷◌, ok, err, bytes_eq}
use construct_core.History.{qr_pin_absent}
use construct_core.History.Frames.{Opening, opening_message}
use construct_core.History.Verify.{
  fingerprint, absent, KnownKeys, Local, no_bytes, check_known, device_id_raw, qr_fingerprint,
  check_pin, check_signature, verify_opening,
}
use construct_core.History.Verify.Laws.{Pinned, verify_opening_iff}

abbrev hash : List ℕ → List ℕ
hash xs = xs

abbrev signed : List ℕ → List ℕ → List ℕ → Bool
signed key message signature = bytes_eq signature key

abbrev opening : Opening
opening = record {
  sender_eph = 1 ∷ [];
  skipped = false;
  payload_len = 1;
  sender_identity = 2 ∷ [];
  sender_hybrid = 3 ∷ [];
  snapshot_id = 4 ∷ [];
  sender_device_id = 2 ∷ [];
  receiver_device_id = 6 ∷ [];
  receiver_kyber_key_id = 7;
  kem_ct = 8 ∷ [];
  signature = 3 ∷ [];
}

abbrev self : Local
self = record { device_id = 6 ∷ []; kyber_key_id = 7 }

abbrev known : KnownKeys
known = record { identity_public = 2 ∷ []; hybrid_public = 3 ∷ [] }

verify_opening_iff_example :
    (verify_opening hash signed opening self known (fingerprint (2 ∷ 3 ∷ [])) ≡ ok tt) ↔ (
      ((opening.sender_device_id ≡ device_id_raw hash opening.sender_identity)
        × (opening.receiver_device_id ≡ self.device_id))
      × (opening.receiver_kyber_key_id ≡ self.kyber_key_id)
      × ((no_bytes known.hybrid_public ≡ false)
          × (opening.sender_identity ≡ known.identity_public)
          × (opening.sender_hybrid ≡ known.hybrid_public))
      × Pinned hash opening.sender_identity opening.sender_hybrid (fingerprint (2 ∷ 3 ∷ []))
      × (signed known.hybrid_public (opening_message opening) opening.signature ≡ true))
verify_opening_iff_example =
    verify_opening_iff hash signed opening self known (fingerprint (2 ∷ 3 ∷ []))

accepted : verify_opening hash signed opening self known (fingerprint (2 ∷ 3 ∷ [])) ≡ ok tt
unfolding verify_opening device_id_raw check_known no_bytes check_pin qr_fingerprint check_signature
accepted = refl

unpinned : verify_opening hash signed opening self known absent ≡ err qr_pin_absent
unfolding verify_opening device_id_raw check_known no_bytes check_pin qr_fingerprint check_signature
unpinned = refl
