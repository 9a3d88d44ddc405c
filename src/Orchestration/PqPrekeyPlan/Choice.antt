-- ===== src/Orchestration/PqPrekeyPlan/Choice.antt =====
-- The prekey that the plan of src/orchestration/pq_prekey_plan.rs chooses, and when there is one.
use construct_core.Prelude.{
  subst, ℕ, ◌≡◌, refl, sym, ap, ◌∙◌, ◌⊎◌, inl, inr, Bool, true, false, not, Option, none, some,
  List, Result, ok, err, >>=-eq-ok, ok-injective, fail_if-ok, ok_or,
}
use construct_core.Orchestration.PqPrekeyPlan.{
  build_hybrid_identity_bind_message, KyberPrekeyOffer, PqxdhOffer, PqxdhContext, PqxdhRefusal,
  no_kyber_prekey, hybrid_identity_missing, hybrid_identity_binding_invalid,
  hybrid_identity_changed, PqxdhChoice, Range, signed, one_time, present, pin_changed, choose,
  check_prekey, check_hybrid_identity, plan_signed, plan_one_time, plan_prekey, plan_pqxdh,
}
use construct_core.Orchestration.PqPrekeyPlan.Trust.{
  Signed, Usable, ok_or-ok, holds, check_prekey-Usable, Usable-check_prekey,
}

-- A hybrid identity key that is bound to the device's identity and agrees with a pin.
abbrev pub Trusted :
    (List ℕ → List ℕ → List ℕ → Bool)
    → (List ℕ → List ℕ)
    → PqxdhOffer
    → PqxdhContext
    → List ℕ
    → Type 0
Trusted verify_ed sha256 offer ctx key =
    (present offer.hybrid_identity_key ≡ some key)
    × Signed verify_ed offer.verifying_key (build_hybrid_identity_bind_message key)
        offer.hybrid_identity_signature
    × (pin_changed ctx.pinned_hybrid_identity (sha256 key) ≡ false)

module _ (verify_ed verify_hybrid : List ℕ → List ℕ → List ℕ → Bool) where
  check_hybrid_identity-ok :
      (offer : PqxdhOffer) (key : List ℕ)
      → check_hybrid_identity verify_ed verify_hybrid offer ≡ ok key
      → (present offer.hybrid_identity_key ≡ some key)
        × Signed verify_ed offer.verifying_key
            (build_hybrid_identity_bind_message key)
            offer.hybrid_identity_signature
  unfolding check_hybrid_identity
  check_hybrid_identity-ok offer key h =
      let (k, a, h1) =
        >>=-eq-ok (ok_or (present offer.hybrid_identity_key) hybrid_identity_missing) _ h in
      let (s, b, h2) =
        >>=-eq-ok (ok_or (present offer.hybrid_identity_signature) hybrid_identity_missing) _ h1 in
      let (v, h3) =
        fail_if-ok (not (verify_ed offer.verifying_key (build_hybrid_identity_bind_message k) s))
          hybrid_identity_binding_invalid _ key h2 in
      let same = ok-injective h3 in
      (
        ok_or-ok _ hybrid_identity_missing k a ∙ ap some same,
        (
          s,
          ok_or-ok _ hybrid_identity_missing s b,
          subst (λ k. verify_ed offer.verifying_key (build_hybrid_identity_bind_message k) s ≡ true)
              same (holds _ v),
        ),
      )

  -- The choice is an offered prekey that passes its check.
  abbrev pub Chosen :
      List ℕ → List ℕ → List ℕ → ℕ → Range → Option KyberPrekeyOffer → PqxdhChoice → Type 0
  Chosen verifying_key hybrid_key print now range o c =
      (p : KyberPrekeyOffer) × (o ≡ some p)
      × Usable verify_ed verify_hybrid verifying_key hybrid_key range now p
      × (c.kyber_prekey_id ≡ p.key_id)
      × (c.kyber_public ≡ p.public)
      × (c.hybrid_identity_fingerprint ≡ print)

  module _ (offer : PqxdhOffer) (key print : List ℕ) (now : ℕ) where
    chosen :
        (range : Range) (p : KyberPrekeyOffer) (rejected : Option PqxdhRefusal) (c : PqxdhChoice)
        → (o : Option KyberPrekeyOffer) → o ≡ some p
        → check_prekey verify_ed verify_hybrid offer.verifying_key key p range now ≡ ok tt
        → choose p print rejected ≡ c
        → Chosen offer.verifying_key key print now range o c
    unfolding choose
    chosen range p rejected c o e h same = (
      p,
      e,
      check_prekey-Usable verify_ed verify_hybrid offer.verifying_key key range now p h,
      ap (λ c. c.kyber_prekey_id) (sym same),
      ap (λ c. c.kyber_public) (sym same),
      ap (λ c. c.hybrid_identity_fingerprint) (sym same),
    )

    plan_signed-Chosen :
        (rejected : Option PqxdhRefusal) (c : PqxdhChoice)
        → plan_signed verify_ed verify_hybrid offer key print now rejected ≡ ok c
        → Chosen offer.verifying_key key print now signed offer.signed_prekey c
    unfolding plan_signed
    plan_signed-Chosen rejected c h =
        let (p, a, h1) = >>=-eq-ok (ok_or offer.signed_prekey no_kyber_prekey) _ h in
        let (_, b, h2) =
          >>=-eq-ok (check_prekey verify_ed verify_hybrid offer.verifying_key key p signed now) _
            h1 in
        chosen signed p rejected c offer.signed_prekey (ok_or-ok _ no_kyber_prekey p a) b
          (ok-injective h2)

    plan_one_time-Chosen :
        (p : KyberPrekeyOffer) (r : Result PqxdhRefusal (Unit {0})) (c : PqxdhChoice)
        → check_prekey verify_ed verify_hybrid offer.verifying_key key p one_time now ≡ r
        → plan_one_time verify_ed verify_hybrid offer key print now p r ≡ ok c
        → Chosen offer.verifying_key key print now one_time (some p) c
          ⊎ (¬ (Usable verify_ed verify_hybrid offer.verifying_key key one_time now p)
              × Chosen offer.verifying_key key print now signed offer.signed_prekey c)
    unfolding plan_one_time
    plan_one_time-Chosen p (ok value) c e h =
        inl (chosen one_time p none c (some p) refl e (ok-injective h))
    plan_one_time-Chosen p (err why) c e h = inr (
      λ u.
          let k =
            Usable-check_prekey verify_ed verify_hybrid offer.verifying_key key one_time now p u in
          cc,
      plan_signed-Chosen (some why) c h,
    )

    plan_signed-some :
        (p : KyberPrekeyOffer)
        → offer.signed_prekey ≡ some p
        → Usable verify_ed verify_hybrid offer.verifying_key key signed now p
        → (rejected : Option PqxdhRefusal)
        → (c : PqxdhChoice) × (plan_signed verify_ed verify_hybrid offer key print now rejected
            ≡ ok c)
    unfolding plan_signed
    plan_signed-some p e u rejected = (
      choose p print rejected,
      rw (e, Usable-check_prekey verify_ed verify_hybrid offer.verifying_key key signed now p u)
          refl,
    )

    plan_one_time-some :
        (p : KyberPrekeyOffer) (r : Result PqxdhRefusal (Unit {0}))
        → ((rejected : Option PqxdhRefusal)
            → (c : PqxdhChoice) × (plan_signed verify_ed verify_hybrid offer key print now rejected
                ≡ ok c))
        → (c : PqxdhChoice) × (plan_one_time verify_ed verify_hybrid offer key print now p r ≡ ok c)
    unfolding plan_one_time
    plan_one_time-some p (ok value) h = (choose p print none, refl)
    plan_one_time-some p (err why) h = h (some why)

    plan_prekey-some :
        (o : Option KyberPrekeyOffer)
        → ((rejected : Option PqxdhRefusal)
            → (c : PqxdhChoice) × (plan_signed verify_ed verify_hybrid offer key print now rejected
                ≡ ok c))
        → (c : PqxdhChoice) × (plan_prekey verify_ed verify_hybrid offer key print now o ≡ ok c)
    unfolding plan_prekey
    plan_prekey-some none h = h none
    plan_prekey-some (some p) h =
        plan_one_time-some p
          (check_prekey verify_ed verify_hybrid offer.verifying_key key p one_time now) h

    -- What the plan with a trusted hybrid key may return: a one-time prekey that is usable, or
    -- otherwise a signed one.
    abbrev pub Preferred : Option KyberPrekeyOffer → PqxdhChoice → Type 0
    Preferred o c =
        Chosen offer.verifying_key key print now one_time o c
        ⊎ (((p : KyberPrekeyOffer)
              → o ≡ some p
              → ¬ Usable verify_ed verify_hybrid offer.verifying_key key one_time now p)
            × Chosen offer.verifying_key key print now signed offer.signed_prekey c)

    plan_prekey-Preferred :
        (o : Option KyberPrekeyOffer) (c : PqxdhChoice)
        → plan_prekey verify_ed verify_hybrid offer key print now o ≡ ok c
        → Preferred o c
    unfolding plan_prekey
    plan_prekey-Preferred none c h = inr (λ p e. cc, plan_signed-Chosen none c h)
    plan_prekey-Preferred (some p) c h =
        elim (plan_one_time-Chosen p
          (check_prekey verify_ed verify_hybrid offer.verifying_key key p one_time now) c refl h) [
            | inl a ↦ inl a
            | inr (n, a) ↦ inr (
              λ q e u. n (
                  subst (Usable verify_ed verify_hybrid offer.verifying_key key one_time now)
                    (sym (ok-injective (ap (λ o. ok_or o no_kyber_prekey) e))) u),
              a,
            )
          ]

  module _ (sha256 : List ℕ → List ℕ) (offer : PqxdhOffer) (ctx : PqxdhContext) where
    -- A plan that chooses a prekey trusts a hybrid identity key, which is bound to the device's
    -- identity and agrees with a pin, and its fingerprint is returned. The prekey is an offered one
    -- of the right size, with an id in its range and both signatures over its public key and signed
    -- time; it is the one-time prekey, or else no one-time prekey passes these checks and it is the
    -- signed one, which is not too old.
    pub plan_pqxdh-Preferred :
        (c : PqxdhChoice)
        → plan_pqxdh verify_ed verify_hybrid sha256 offer ctx ≡ ok c
        → (key : List ℕ) × Trusted verify_ed sha256 offer ctx key
          × Preferred offer key (sha256 key) ctx.now offer.one_time_prekey c
    unfolding plan_pqxdh
    plan_pqxdh-Preferred c h =
        let (key, a, h1) = >>=-eq-ok (check_hybrid_identity verify_ed verify_hybrid offer) _ h in
        let (pin, h2) =
          fail_if-ok (pin_changed ctx.pinned_hybrid_identity (sha256 key)) hybrid_identity_changed _
            c h1 in
        let (named, bound) = check_hybrid_identity-ok offer key a in
        (
          key,
          (named, bound, pin),
          plan_prekey-Preferred offer key (sha256 key) ctx.now offer.one_time_prekey c h2,
        )

    -- A trusted hybrid identity key and a usable signed prekey are enough for the plan to choose a
    -- prekey, whatever the one-time prekey is.
    pub plan_pqxdh-some :
        (key : List ℕ) (p : KyberPrekeyOffer)
        → Trusted verify_ed sha256 offer ctx key
        → offer.signed_prekey ≡ some p
        → Usable verify_ed verify_hybrid offer.verifying_key key signed ctx.now p
        → (c : PqxdhChoice) × (plan_pqxdh verify_ed verify_hybrid sha256 offer ctx ≡ ok c)
    unfolding plan_pqxdh check_hybrid_identity
    plan_pqxdh-some key p (named, (s, given, verified), pin) e u =
        let (c, k) =
          plan_prekey-some offer key (sha256 key) ctx.now offer.one_time_prekey
            (plan_signed-some offer key (sha256 key) ctx.now p e u) in
        (c, rw (named, given, verified, pin, k) refl)
