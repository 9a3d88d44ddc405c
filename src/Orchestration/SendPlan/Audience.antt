-- ===== src/Orchestration/SendPlan/Audience.antt =====
-- Whose device each copy of a plan is for.
use construct_core.Prelude.{
  subst, ℕ, if◌then◌else◌, Bool-cases, ◌≡◌, refl, sym, ◌∙◌, inl, inr, Bool, true, false, not, ◌&&◌,
  ◌||◌, List, [], ◌∷◌, All, All-append, bytes_eq, bytes_eq_refl, contains,
}
use construct_core.Orchestration.SendPlan.{
  DeliveryAudience, DeliveryTarget, recipient, own_replica, is_empty, Plan, push, push_recipients,
  push_replicas, plan_of, plan_send,
}
use construct_core.Orchestration.SendPlan.Laws.{contains-push, contains-push_recipients}

push-All :
    (P : DeliveryTarget → Type 0) (id : List ℕ) (a : DeliveryAudience) (plan : Plan)
    → All P plan.out
    → (is_empty id ≡ false
        → contains plan.seen id ≡ false
        → P record { device_id = id; audience = a })
    → All P (push id a plan).out
unfolding push
push-All P id a plan h p = elim (Bool-cases (is_empty id)) [
  | inl e ↦ rw e h
  | inr e ↦ elim (Bool-cases (contains plan.seen id)) [
    | inl f ↦ rw (e, f) h
    | inr f ↦
        rw (e, f)
          (All-append P plan.out (record { device_id = id; audience = a } ∷ []) h (p e f, tt))
  ]
]

module _ (rs os : List (List ℕ)) (ours : List ℕ) (self : Bool) where
  -- A recipient's copy goes to one of the recipient's devices; a replica's to another own device
  -- that is not planned as a recipient's.
  abbrev pub IsFor : DeliveryAudience → List ℕ → Type 0
  IsFor recipient id = (self ≡ false) × (contains rs id ≡ true)
  IsFor own_replica id =
      (contains os id ≡ true) × (bytes_eq id ours ≡ false) × ((not self && contains rs id) ≡ false)

  abbrev pub Rightly : DeliveryTarget → Type 0
  Rightly t = IsFor t.audience t.device_id

  recipients-Rightly :
      (ids : List (List ℕ)) (plan : Plan)
      → self ≡ false
      → ((x : List ℕ) → contains ids x ≡ true → contains rs x ≡ true)
      → All Rightly plan.out
      → All Rightly (push_recipients ids plan).out
  unfolding push_recipients
  recipients-Rightly [] plan s sub h = h
  recipients-Rightly (id ∷ ids) plan s sub h =
      recipients-Rightly ids (push id recipient plan) s
        (λ x e. sub x (rw e (or_true (bytes_eq id x))))
        (push-All Rightly id recipient plan h (λ e f. (s, sub id (rw (bytes_eq_refl id)))))
    where
      or_true : (b : Bool) → (b || true) ≡ true
      or_true true = refl
      or_true false = refl

  replicas-Rightly :
      (ids : List (List ℕ)) (plan : Plan)
      → ((x : List ℕ) → contains ids x ≡ true → contains os x ≡ true)
      → ((x : List ℕ)
          → is_empty x ≡ false
          → contains plan.seen x ≡ false
          → (not self && contains rs x) ≡ false)
      → All Rightly plan.out
      → All Rightly (push_replicas ours ids plan).out
  unfolding push_replicas
  replicas-Rightly [] plan sub seen h = h
  replicas-Rightly (id ∷ ids) plan sub seen h = elim (Bool-cases (bytes_eq id ours)) [
    | inl e ↦
        subst
          (λ b.
            All Rightly (push_replicas ours ids (if b then plan else push id own_replica plan)).out)
          (sym e) (replicas-Rightly ids plan (λ x k. sub x (rw k (or_true (bytes_eq id x)))) seen h)
    | inr e ↦
        subst
          (λ b.
            All Rightly (push_replicas ours ids (if b then plan else push id own_replica plan)).out)
          (sym e)
          (replicas-Rightly ids (push id own_replica plan)
            (λ x k. sub x (rw k (or_true (bytes_eq id x))))
            (λ x n k. seen x n (or_left _ _ (sym (contains-push id x own_replica plan) ∙ k)))
            (push-All Rightly id own_replica plan h
              (λ n f. (sub id (rw (bytes_eq_refl id)), e, seen id n f))))
  ]
    where
      or_true : (b : Bool) → (b || true) ≡ true
      or_true true = refl
      or_true false = refl

      or_left : (a b : Bool) → (a || b) ≡ false → a ≡ false
      or_left true b h = h
      or_left false b h = refl

unseen :
    (rs : List (List ℕ)) (x : List ℕ)
    → is_empty x ≡ false
    → (contains rs x && not (is_empty x)) ≡ false
    → contains rs x ≡ false
unseen rs x n k = elim (Bool-cases (contains rs x)) [
  | inl e ↦ let l = rw (e, n) at k in cc
  | inr e ↦ e
]

-- The four ways through `plan_of`.
plan_of-Rightly :
    (rs os : List (List ℕ)) (ours : List ℕ) (self unknown : Bool)
    → let start : Plan = record { seen = []; out = [] } in
      let first = if self then start else push_recipients rs start in
      All (Rightly rs os ours self) (if unknown then first else push_replicas ours os first).out
plan_of-Rightly rs os ours true true = tt
plan_of-Rightly rs os ours true false =
    replicas-Rightly rs os ours true os record { seen = []; out = [] } (λ x k. k) (λ x n k. refl) tt
plan_of-Rightly rs os ours false true =
    recipients-Rightly rs os ours false rs record { seen = []; out = [] } refl (λ x k. k) tt
plan_of-Rightly rs os ours false false =
    let start : Plan = record { seen = []; out = [] } in
    replicas-Rightly rs os ours false os (push_recipients rs start) (λ x k. k)
      (λ x n k. unseen rs x n (sym (contains-push_recipients rs start x) ∙ k))
      (recipients-Rightly rs os ours false rs start refl (λ x k. k) tt)

-- Each copy of a plan is for whom it says: a recipient's copy goes to a device of the recipient, and
-- only if this is no note to self; an own replica's to an own device that is neither this one nor
-- already planned as the recipient's.
pub plan_send-Rightly :
    (rs os : List (List ℕ)) (ours : List ℕ) (self : Bool)
    → All (Rightly rs os ours self) (plan_send rs os ours self)
unfolding plan_send plan_of
plan_send-Rightly rs os ours self = plan_of-Rightly rs os ours self (is_empty ours)
