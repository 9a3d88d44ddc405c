-- ===== src/Orchestration/PqPrekeyPlan/Examples.antt =====
-- The plan of src/orchestration/pq_prekey_plan.rs on a bundle. A signature is the first byte of its
-- key, and a hash the first two bytes.
use construct_core.Prelude.{
  ℕ, ◌≡◌, refl, Bool, some, List, [], ◌∷◌, arith, take, replicate, ok, bytes_eq,
}
use construct_core.Orchestration.PqPrekeyPlan.{
  KyberPrekeyOffer, PqxdhOffer, PqxdhContext, kyber_signature_invalid, PqxdhChoice, signed, present,
  verdict, accept, id_ok, stale, pin_changed, choose, check_v2, check_kyber_prekey_signature_v2,
  check_hybrid, check_kyber_prekey_hybrid_signature, check_prekey, check_hybrid_identity,
  plan_signed, plan_one_time, plan_prekey, plan_pqxdh,
}
use construct_core.Orchestration.PqPrekeyPlan.Trust.{Usable}
use construct_core.Orchestration.PqPrekeyPlan.Choice.{
  Trusted, Preferred, plan_pqxdh-Preferred, plan_pqxdh-some,
}

abbrev first_byte : List ℕ → List ℕ → List ℕ → Bool
first_byte key message signature = bytes_eq signature (take 1 key)

abbrev two_bytes : List ℕ → List ℕ
two_bytes = take 2

abbrev hybrid_key : List ℕ
hybrid_key = replicate 1984 3

abbrev offered : ℕ → ℕ → KyberPrekeyOffer
offered key_id signature = record {
  key_id = key_id;
  public = replicate 1568 5;
  created_at = some 1000;
  signature = some (signature ∷ []);
  hybrid_signature = some (3 ∷ []);
}

-- The one-time prekey is signed by another key.
abbrev bundle : PqxdhOffer
bundle = record {
  verifying_key = 7 ∷ 8 ∷ [];
  hybrid_identity_key = some hybrid_key;
  hybrid_identity_signature = some (7 ∷ []);
  signed_prekey = some (offered 4 7);
  one_time_prekey = some (offered 1000004 9);
}

abbrev seen : PqxdhContext
seen = record { now = 2000; pinned_hybrid_identity = some (3 ∷ 3 ∷ []) }

abbrev choice : PqxdhChoice
choice = record {
  kyber_prekey_id = 4;
  kyber_public = replicate 1568 5;
  hybrid_identity_fingerprint = 3 ∷ 3 ∷ [];
  one_time_prekey_rejected = some kyber_signature_invalid;
}

planned : plan_pqxdh first_byte first_byte two_bytes bundle seen ≡ ok choice
unfolding plan_pqxdh check_hybrid_identity present pin_changed plan_prekey plan_one_time plan_signed
    check_prekey id_ok check_kyber_prekey_signature_v2 check_v2 verdict accept
    check_kyber_prekey_hybrid_signature check_hybrid stale choose
planned = refl

plan_pqxdh-Preferred_example :
    (key : List ℕ) × Trusted first_byte two_bytes bundle seen key
    × Preferred first_byte first_byte bundle key
        (two_bytes key)
        seen.now
        bundle.one_time_prekey
        choice
plan_pqxdh-Preferred_example =
    plan_pqxdh-Preferred first_byte first_byte two_bytes bundle seen choice planned

trusted : Trusted first_byte two_bytes bundle seen hybrid_key
unfolding present pin_changed
trusted = (refl, (7 ∷ [], refl, refl), refl)

usable : Usable first_byte first_byte bundle.verifying_key hybrid_key signed seen.now (offered 4 7)
unfolding present
usable = (
  refl,
  (omega arith, omega arith),
  (1000, refl, (7 ∷ [], refl, refl), refl, (3 ∷ [], refl, refl), omega arith),
)

plan_pqxdh-some_example :
    (c : PqxdhChoice) × (plan_pqxdh first_byte first_byte two_bytes bundle seen ≡ ok c)
plan_pqxdh-some_example =
    plan_pqxdh-some first_byte first_byte two_bytes bundle seen hybrid_key (offered 4 7) trusted
      refl usable
