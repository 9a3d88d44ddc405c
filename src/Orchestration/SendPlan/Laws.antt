-- ===== src/Orchestration/SendPlan/Laws.antt =====
-- The plan as a set: which devices are in it, each once.
use construct_core.Prelude.{
  subst, ℕ, if◌then◌else◌, Bool-cases, ◌≡◌, refl, sym, ap, ◌∙◌, inl, inr, Bool, true, false, not,
  ◌&&◌, ◌||◌, List, [], ◌∷◌, ◌++◌, bytes_eq, bytes_eq→eq, ≢→bytes_eq, bytes_eq→≢, contains,
  contains-append, Distinct,
}
use construct_core.Orchestration.SendPlan.{
  DeliveryAudience, DeliveryTarget, recipient, own_replica, is_empty, Plan, push, push_recipients,
  push_replicas, plan_of, plan_send,
}

-- The ids that a plan names, in its order.
abbrev pub ids : List DeliveryTarget → List (List ℕ)
ids [] = []
ids (t ∷ ts) = t.device_id ∷ ids ts

ids-append : (a b : List DeliveryTarget) → ids (a ++ b) ≡ ids a ++ ids b
ids-append [] b = refl
ids-append (t ∷ a) b = ap (λ xs. t.device_id ∷ xs) (ids-append a b)

-- The vector of seen ids names the targets, each once.
record IsPlan (plan : Plan) : Type 0 where
  named : ids plan.out ≡ plan.seen
  distinct : Distinct plan.seen

Distinct-snoc :
    (xs : List (List ℕ)) (id : List ℕ)
    → Distinct xs
    → contains xs id ≡ false
    → Distinct (xs ++ (id ∷ []))
Distinct-snoc [] id d h = (refl, tt)
Distinct-snoc (x ∷ xs) id (fresh, d) h = elim (Bool-cases (bytes_eq x id)) [
  | inl e ↦ let k = rw e at h in cc
  | inr e ↦
      let k = rw e at h in
      let back = ≢→bytes_eq id x (λ q. bytes_eq→≢ x id e (sym q)) in
      (contains-append xs (id ∷ []) x ∙ rw (fresh, back), Distinct-snoc xs id d k)
]

push-IsPlan :
    (id : List ℕ) (a : DeliveryAudience) (plan : Plan) → IsPlan plan → IsPlan (push id a plan)
unfolding push
push-IsPlan id a plan w = elim (Bool-cases (is_empty id)) [
  | inl e ↦ rw e w
  | inr e ↦ elim (Bool-cases (contains plan.seen id)) [
    | inl f ↦ rw (e, f) w
    | inr f ↦
        rw (e, f)
          record {
            named = ids-append plan.out _ ∙ ap (λ xs. xs ++ (id ∷ [])) w.named;
            distinct = Distinct-snoc plan.seen id w.distinct f;
          }
  ]
]

or_false : (b : Bool) → b ≡ (b || false)
or_false true = refl
or_false false = refl

-- Which ids a push adds.
pub contains-push :
    (id x : List ℕ) (a : DeliveryAudience) (plan : Plan)
    → contains (push id a plan).seen x
      ≡ (contains plan.seen x || (bytes_eq id x && not (is_empty x)))
unfolding push
contains-push id x a plan = elim (Bool-cases (bytes_eq id x)) [
  | inl e ↦
      let same = bytes_eq→eq id x e in
      elim (Bool-cases (is_empty id)) [
        | inl f ↦
            let g = ap is_empty (sym same) ∙ f in rw (e, f, g) (or_false (contains plan.seen x))
        | inr f ↦
            let g = ap is_empty (sym same) ∙ f in
            elim (Bool-cases (contains plan.seen id)) [
              | inl k ↦ let l = ap (contains plan.seen) (sym same) ∙ k in rw (e, f, g, k, l)
              | inr k ↦ rw (e, f, g, k) (contains-append plan.seen (id ∷ []) x ∙ rw e refl)
            ]
      ]
  | inr e ↦ elim (Bool-cases (is_empty id || contains plan.seen id)) [
    | inl f ↦ rw (e, f) (or_false (contains plan.seen x))
    | inr f ↦ rw (e, f) (contains-append plan.seen (id ∷ []) x ∙ rw e refl)
  ]
]

or_and : (s b c n : Bool) → ((s || (b && n)) || (c && n)) ≡ (s || ((b || c) && n))
or_and true b c n = refl
or_and false true true true = refl
or_and false true true false = refl
or_and false true false true = refl
or_and false true false false = refl
or_and false false c n = refl

push_recipients-IsPlan :
    (rs : List (List ℕ)) (plan : Plan) → IsPlan plan → IsPlan (push_recipients rs plan)
unfolding push_recipients
push_recipients-IsPlan [] plan w = w
push_recipients-IsPlan (id ∷ rs) plan w =
    push_recipients-IsPlan rs (push id recipient plan) (push-IsPlan id recipient plan w)

pub contains-push_recipients :
    (rs : List (List ℕ)) (plan : Plan) (x : List ℕ)
    → contains (push_recipients rs plan).seen x
      ≡ (contains plan.seen x || (contains rs x && not (is_empty x)))
unfolding push_recipients
contains-push_recipients [] plan x = or_false (contains plan.seen x)
contains-push_recipients (id ∷ rs) plan x =
    contains-push_recipients rs (push id recipient plan) x
    ∙ ap (λ b. b || (contains rs x && not (is_empty x))) (contains-push id x recipient plan)
    ∙ or_and (contains plan.seen x) (bytes_eq id x) (contains rs x) (not (is_empty x))

module _ (ours : List ℕ) where
  -- Not this device, and not nobody.
  abbrev is_replica : List ℕ → Bool
  is_replica x = not (bytes_eq x ours) && not (is_empty x)

  push_replicas-IsPlan :
      (os : List (List ℕ)) (plan : Plan) → IsPlan plan → IsPlan (push_replicas ours os plan)
  unfolding push_replicas
  push_replicas-IsPlan [] plan w = w
  push_replicas-IsPlan (id ∷ os) plan w = elim (Bool-cases (bytes_eq id ours)) [
    | inl e ↦ rw e (push_replicas-IsPlan os plan w)
    | inr e ↦
        rw e
          (push_replicas-IsPlan os (push id own_replica plan) (push-IsPlan id own_replica plan w))
  ]

  contains-replica :
      (id x : List ℕ) (plan : Plan)
      → contains (if bytes_eq id ours then plan else push id own_replica plan).seen x
        ≡ (contains plan.seen x || (bytes_eq id x && is_replica x))
  contains-replica id x plan = elim (Bool-cases (bytes_eq id x)) [
    | inl e ↦
        let same = ap (λ y. bytes_eq y ours) (bytes_eq→eq id x e) in
        elim (Bool-cases (bytes_eq id ours)) [
          | inl f ↦ let g = sym same ∙ f in rw (e, f, g) (or_false (contains plan.seen x))
          | inr f ↦
              let g = sym same ∙ f in rw (e, f, g) (contains-push id x own_replica plan ∙ rw e refl)
        ]
    | inr e ↦ elim (Bool-cases (bytes_eq id ours)) [
      | inl f ↦ rw (e, f) (or_false (contains plan.seen x))
      | inr f ↦ rw (e, f) (contains-push id x own_replica plan ∙ rw e refl)
    ]
  ]

  contains-push_replicas :
      (os : List (List ℕ)) (plan : Plan) (x : List ℕ)
      → contains (push_replicas ours os plan).seen x
        ≡ (contains plan.seen x || (contains os x && is_replica x))
  unfolding push_replicas
  contains-push_replicas [] plan x = or_false (contains plan.seen x)
  contains-push_replicas (id ∷ os) plan x =
      contains-push_replicas os (if bytes_eq id ours then plan else push id own_replica plan) x
      ∙ ap (λ b. b || (contains os x && is_replica x)) (contains-replica id x plan)
      ∙ or_and (contains plan.seen x) (bytes_eq id x) (contains os x) (is_replica x)

plan_of-IsPlan :
    (rs os : List (List ℕ)) (ours : List ℕ) (self : Bool) → IsPlan (plan_of rs os ours self)
unfolding plan_of
plan_of-IsPlan rs os ours self =
    let empty : IsPlan record { seen = []; out = [] } = record { named = refl; distinct = tt } in
    let first = push_recipients-IsPlan rs record { seen = []; out = [] } empty in
    elim (Bool-cases self) [
      | inl e ↦ elim (Bool-cases (is_empty ours)) [
        | inl f ↦ rw (e, f) empty
        | inr f ↦ rw (e, f) (push_replicas-IsPlan ours os _ empty)
      ]
      | inr e ↦ elim (Bool-cases (is_empty ours)) [
        | inl f ↦ rw (e, f) first
        | inr f ↦ rw (e, f) (push_replicas-IsPlan ours os _ first)
      ]
    ]

-- No device is in a plan twice.
pub plan_send-Distinct :
    (rs os : List (List ℕ)) (ours : List ℕ) (self : Bool)
    → Distinct (ids (plan_send rs os ours self))
unfolding plan_send
plan_send-Distinct rs os ours self =
    let w = plan_of-IsPlan rs os ours self in subst Distinct (sym w.named) w.distinct

-- The devices in a plan: those of the recipient, unless this is a note to self, and the own ones but
-- this device, unless this device's id is empty (unknown), when none of the own ones is added; the
-- empty id never.
pub contains-plan_send :
    (rs os : List (List ℕ)) (ours : List ℕ) (self : Bool) (x : List ℕ)
    → contains (ids (plan_send rs os ours self)) x ≡ (
        (not self && (contains rs x && not (is_empty x)))
        || (not (is_empty ours) && (contains os x && (not (bytes_eq x ours) && not (is_empty x)))))
unfolding plan_send plan_of
contains-plan_send rs os ours self x =
    ap (λ xs. contains xs x) (plan_of-IsPlan rs os ours self).named ∙ elim (Bool-cases self) [
      | inl e ↦ elim (Bool-cases (is_empty ours)) [
        | inl f ↦ rw (e, f) refl
        | inr f ↦ rw (e, f) (contains-push_replicas ours os _ x)
      ]
      | inr e ↦ elim (Bool-cases (is_empty ours)) [
        | inl f ↦ rw (e, f) (contains-push_recipients rs _ x ∙ or_false _)
        | inr f ↦
            rw (e, f)
              (contains-push_replicas ours os _ x
                ∙ ap (λ b. b || (contains os x && is_replica ours x))
                    (contains-push_recipients rs _ x))
      ]
    ]
