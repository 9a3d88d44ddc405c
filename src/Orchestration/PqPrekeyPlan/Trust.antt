-- ===== src/Orchestration/PqPrekeyPlan/Trust.antt =====
-- What the plan of src/orchestration/pq_prekey_plan.rs trusts, and when it opens a session.
use construct_core.Prelude.{
  ℕ, ◌≤◌, ◌<◌, ◌+◌, ◌-◌, ltb, leb, ◌==◌, ltb→lt, lt→ltb, le→ltb, leb→le, le→leb, ==_iff, Bool-cases,
  ◌≡◌, refl, ap, ◌∙◌, ◌↔◌, inl, inr, Bool, true, false, not, ◌&&◌, ◌||◌, Option, none, some, List,
  arith, length, ok, >>=-eq-ok, ok-injective, fail_if-ok, ok_or, fail_if,
}
use construct_core.KyberPrekeys.{kyber_otpk_id_start}
use construct_core.Orchestration.PqPrekeyPlan.{
  mlkem1024_pk_size, hybrid_sig_public_key_size, kyber_spk_max_age_secs,
  kyber_prekey_sign_message_v2, KyberPrekeyOffer, PqxdhRefusal, no_kyber_prekey,
  kyber_prekey_malformed, kyber_signature_missing, kyber_signature_invalid, kyber_prekey_stale,
  hybrid_signature_missing, hybrid_signature_invalid, KyberPrekeySignature, valid, missing, invalid,
  Range, signed, one_time, present, verdict, accept, id_ok, stale, check_v2,
  check_kyber_prekey_signature_v2, check_hybrid, check_kyber_prekey_hybrid_signature, check_prekey,
}

-- A signature is there, is not empty and verifies.
abbrev pub Signed : (List ℕ → List ℕ → List ℕ → Bool) → List ℕ → List ℕ → Option (List ℕ) → Type 0
Signed verify key message signature =
    (s : List ℕ) × (present signature ≡ some s) × (verify key message s ≡ true)

abbrev pub InRange : Range → ℕ → Type 0
InRange signed key_id = (1 ≤ key_id) × (key_id < 1000000)
InRange one_time key_id = 1000000 ≤ key_id

abbrev pub Fresh : Range → ℕ → ℕ → Type 0
Fresh signed now created_at = now ≤ created_at + kyber_spk_max_age_secs
Fresh one_time now created_at = Unit

-- A prekey that a session may be built on.
abbrev pub Usable :
    (List ℕ → List ℕ → List ℕ → Bool)
    → (List ℕ → List ℕ → List ℕ → Bool)
    → List ℕ
    → List ℕ
    → Range
    → ℕ
    → KyberPrekeyOffer
    → Type 0
Usable verify_ed verify_hybrid verifying_key hybrid_key range now p =
    (length p.public ≡ 1568)
    × InRange range p.key_id
    × ((created_at : ℕ) × (p.created_at ≡ some created_at)
        × Signed verify_ed verifying_key (kyber_prekey_sign_message_v2 created_at p.public)
            p.signature
        × (length hybrid_key ≡ hybrid_sig_public_key_size)
        × Signed verify_hybrid hybrid_key (kyber_prekey_sign_message_v2 created_at p.public)
            p.hybrid_signature
        × Fresh range now created_at)

pub ok_or-ok :
    {A : Type 0} (o : Option A) (e : PqxdhRefusal) (a : A) → ok_or o e ≡ ok a → o ≡ some a
ok_or-ok none e a h = cc
ok_or-ok (some b) e a h = ap some (ok-injective h)

accept-ok : (v : KyberPrekeySignature) (m i : PqxdhRefusal) → (accept v m i ≡ ok tt) ↔ (v ≡ valid)
unfolding accept
accept-ok valid m i = (λ h. refl, λ h. refl)
accept-ok missing m i = (λ h. cc, λ h. cc)
accept-ok invalid m i = (λ h. cc, λ h. cc)

verdict-valid : (b : Bool) → verdict b ≡ valid → b ≡ true
unfolding verdict
verdict-valid true h = refl
verdict-valid false h = cc

some-injective : {xs ys : List ℕ} → ◌≡◌ {A = Option (List ℕ)} (some xs) (some ys) → xs ≡ ys
some-injective h = ok-injective (ap (λ o. ok_or o no_kyber_prekey) h)

pub holds : (a : Bool) → not a ≡ false → a ≡ true
holds true h = refl
holds false h = cc

neither : (a b : Bool) → (not a || not b) ≡ false → (a ≡ true) × (b ≡ true)
neither true true h = (refl, refl)
neither true false h = cc
neither false b h = cc

fail_if-pass : (b : Bool) (f : PqxdhRefusal) → fail_if b f ≡ ok tt → b ≡ false
fail_if-pass true f h = cc
fail_if-pass false f h = refl

both : (a b : Bool) → (a && b) ≡ true → (a ≡ true) × (b ≡ true)
both true true h = (refl, refl)
both true false h = cc
both false b h = cc

ltb-le : (a b : ℕ) → ltb a b ≡ false → b ≤ a
ltb-le a b h = ground arith

id_ok-InRange : (range : Range) (key_id : ℕ) → (id_ok range key_id ≡ true) ↔ InRange range key_id
unfolding id_ok
id_ok-InRange signed key_id = (
  λ h.
      let (a, b) = both (leb 1 key_id) (ltb key_id kyber_otpk_id_start) h in
      (leb→le 1 key_id a, ltb→lt key_id kyber_otpk_id_start b),
  λ (a, b). rw (le→leb 1 key_id a, lt→ltb key_id kyber_otpk_id_start b) refl,
)
id_ok-InRange one_time key_id =
    (leb→le kyber_otpk_id_start key_id, le→leb kyber_otpk_id_start key_id)

stale-Fresh :
    (range : Range) (now created_at : ℕ)
    → (stale range now created_at ≡ false) ↔ Fresh range now created_at
unfolding stale
stale-Fresh signed now created_at = (
  λ h. let k = ltb-le kyber_spk_max_age_secs (now - created_at) h in omega arith,
  λ h. le→ltb kyber_spk_max_age_secs (now - created_at) (omega arith),
)
stale-Fresh one_time now created_at = (λ h. tt, λ h. refl)

module _ (verify_ed verify_hybrid : List ℕ → List ℕ → List ℕ → Bool) where
  check_v2-valid :
      (key public_key : List ℕ) (t : ℕ) (o : Option (List ℕ))
      → (check_v2 verify_ed verify_hybrid key public_key t o ≡ valid) ↔ (
          (s : List ℕ) × (o ≡ some s)
          × (verify_ed key (kyber_prekey_sign_message_v2 t public_key) s ≡ true))
  unfolding check_v2 verdict
  check_v2-valid key public_key t none = (λ h. cc, λ (s, e, v). cc)
  check_v2-valid key public_key t (some signature) = (
    λ h. (signature, refl, verdict-valid _ h),
    λ (s, e, v).
        rw (ap (verify_ed key (kyber_prekey_sign_message_v2 t public_key)) (some-injective e) ∙ v)
          refl,
  )

  check_hybrid-valid :
      (key public_key : List ℕ) (t : ℕ) (o : Option (List ℕ))
      → (check_hybrid verify_ed verify_hybrid key public_key t o ≡ valid) ↔ (
          (length key ≡ hybrid_sig_public_key_size)
          × ((s : List ℕ) × (o ≡ some s)
              × (verify_hybrid key (kyber_prekey_sign_message_v2 t public_key) s ≡ true)))
  unfolding check_hybrid verdict
  check_hybrid-valid key public_key t none = (λ h. cc, λ (l, (s, e, v)). cc)
  check_hybrid-valid key public_key t (some signature) = (
    λ h. elim (Bool-cases (length key == hybrid_sig_public_key_size)) [
      | inl e ↦
          let k = rw e at h in
          (
            (==_iff (length key) hybrid_sig_public_key_size).0 e,
            (signature, refl, verdict-valid _ k),
          )
      | inr e ↦ let k = rw e at h in cc
    ],
    λ (l, (s, e, v)).
        rw
          (
            (==_iff (length key) hybrid_sig_public_key_size).1 l,
            ap (verify_hybrid key (kyber_prekey_sign_message_v2 t public_key)) (some-injective e)
                ∙ v,
          )
          refl,
  )

  module _ (verifying_key hybrid_key : List ℕ) (range : Range) (now : ℕ) where
    pub check_prekey-Usable :
        (p : KyberPrekeyOffer)
        → check_prekey verify_ed verify_hybrid verifying_key hybrid_key p range now ≡ ok tt
        → Usable verify_ed verify_hybrid verifying_key hybrid_key range now p
    unfolding check_prekey check_kyber_prekey_signature_v2 check_kyber_prekey_hybrid_signature
    check_prekey-Usable p h =
        let (a, h1) =
          fail_if-ok (not (length p.public == mlkem1024_pk_size) || not (id_ok range p.key_id))
            kyber_prekey_malformed _ tt h in
        let (size, id) = neither _ _ a in
        let (t, c, h2) = >>=-eq-ok (ok_or p.created_at kyber_signature_missing) _ h1 in
        let (_, d, h3) =
          >>=-eq-ok
            (accept
              (check_v2 verify_ed verify_hybrid verifying_key p.public t (present p.signature))
              kyber_signature_missing kyber_signature_invalid)
            _ h2 in
        let (_, e, h4) =
          >>=-eq-ok
            (accept
              (check_hybrid verify_ed verify_hybrid hybrid_key p.public t
                (present p.hybrid_signature))
              hybrid_signature_missing hybrid_signature_invalid)
            _ h3 in
        let (len, hy) =
          (check_hybrid-valid hybrid_key p.public t (present p.hybrid_signature)).0
            ((accept-ok _ hybrid_signature_missing hybrid_signature_invalid).0 e) in
        (
          (==_iff (length p.public) mlkem1024_pk_size).0 size,
          (id_ok-InRange range p.key_id).0 id,
          (
            t,
            ok_or-ok p.created_at kyber_signature_missing t c,
            (check_v2-valid verifying_key p.public t (present p.signature)).0
                ((accept-ok _ kyber_signature_missing kyber_signature_invalid).0 d),
            len,
            hy,
            (stale-Fresh range now t).0 (fail_if-pass _ kyber_prekey_stale h4),
          ),
        )

    pub Usable-check_prekey :
        (p : KyberPrekeyOffer)
        → Usable verify_ed verify_hybrid verifying_key hybrid_key range now p
        → check_prekey verify_ed verify_hybrid verifying_key hybrid_key p range now ≡ ok tt
    unfolding check_prekey check_kyber_prekey_signature_v2 check_kyber_prekey_hybrid_signature
        accept
    Usable-check_prekey p (size, id, (t, c, ed, len, hy, fresh)) =
        rw
          (
            (==_iff (length p.public) mlkem1024_pk_size).1 size,
            (id_ok-InRange range p.key_id).1 id,
            c,
            (check_v2-valid verifying_key p.public t (present p.signature)).1 ed,
            (check_hybrid-valid hybrid_key p.public t (present p.hybrid_signature)).1 (len, hy),
            (stale-Fresh range now t).1 fresh,
          )
          refl
