-- ===== src/KyberPrekeys/Burned.antt =====
-- Ids of one-time prekeys are not given twice, so a key that was burned is gone for good.
use construct_core.Prelude.{
  subst, ℕ_discrete, ℕ, ◌≤◌, ◌<◌, ◌+◌, ◌^◌, ltb, leb, ◌==◌, if◌then◌else◌, le→leb, ==_iff,
  Bool-cases, Option-cases, ◌≡◌, refl, sym, ap, ◌∙◌, ◌≢◌, inl, inr, Bool, false, not, Option, none,
  some, List, [], ◌∷◌, arith, Result, ok, err,
}
use construct_core.KyberPrekeys.{
  default_store, kyber_otpk_id_start, KyberPrekey, KyberPrekeyStore, KyberError, insert_id,
  lookup_id, retain_ids, generate, begun, begin_spk_rotation, begin_by, commit_by, prune_retired,
  commit_spk_rotation, rollback_spk_rotation, generate_otpks, prune_otpks_below, remove_otpk, find,
  with_otpks,
}

-- A call of the store that changes it.
pub data Call : Type 0 where
  begins : (now : ℕ) (made : Result (List ℕ) (List ℕ)) → Call
  commits : (now : ℕ) → Call
  rolls_back : Call
  prunes_retired : (now : ℕ) → Call
  generates : (made : List (Result (List ℕ) (List ℕ))) (now : ℕ) → Call
  prunes_below : (min_keep_id : ℕ) → Call
  removes : (key_id : ℕ) → Call

abbrev pub step : KyberPrekeyStore → Call → KyberPrekeyStore
step s (begins now made) = (begin_spk_rotation now made s).0
step s (commits now) = (commit_spk_rotation now s).0
step s rolls_back = rollback_spk_rotation s
step s (prunes_retired now) = prune_retired now s
step s (generates made now) = (generate_otpks made now s).0
step s (prunes_below k) = (prune_otpks_below k s).0
step s (removes id) = (remove_otpk id s).0

abbrev pub run : KyberPrekeyStore → List Call → KyberPrekeyStore
run s [] = s
run s (c ∷ cs) = run (step s c) cs

lookup_id-insert_id :
    (k id : ℕ) (key : KyberPrekey) (m : List (ℕ × KyberPrekey))
    → id ≢ k
    → lookup_id (insert_id k key m) id ≡ lookup_id m id
unfolding lookup_id insert_id
lookup_id-insert_id k id key [] h = ground arith
lookup_id-insert_id k id key ((i, v) ∷ m) h =
    let rest = lookup_id-insert_id k id key m h in
    elim (ℕ_discrete i k) [
      | yes e ↦
          let same = (==_iff i k).1 e in
          let other : (i == id) ≡ false = ground arith in
          let other' : (k == id) ≡ false = ground arith in rw (same, other, other')
      | no ne ↦
          let differ : (i == k) ≡ false = ground arith in
          let other : (k == id) ≡ false = ground arith in
          elim (Bool-cases (ltb k i)) [
            | inl f ↦ rw (differ, f, other) refl
            | inr f ↦ rw (differ, f) (ap (λ r. if i == id then some v else r) rest)
          ]
    ]

lookup_id-retain_none :
    (keep : ℕ → Bool) (m : List (ℕ × KyberPrekey)) (id : ℕ)
    → lookup_id m id ≡ none
    → lookup_id (retain_ids keep m) id ≡ none
unfolding lookup_id retain_ids
lookup_id-retain_none keep [] id h = refl
lookup_id-retain_none keep ((i, v) ∷ m) id h =
    let head : (i == id) ≡ false = ground arith in
    let tail : lookup_id m id ≡ none = ground arith in
    let rest = lookup_id-retain_none keep m id tail in
    elim (Bool-cases (keep i)) [ inl e ↦ rw e (rw head rest) | inr e ↦ rw e rest ]

lookup_id-removed :
    (id : ℕ) (m : List (ℕ × KyberPrekey)) → lookup_id (retain_ids (λ i. not (i == id)) m) id ≡ none
unfolding lookup_id retain_ids
lookup_id-removed id [] = refl
lookup_id-removed id ((i, v) ∷ m) =
    let rest = lookup_id-removed id m in
    elim (Bool-cases (i == id)) [ inl e ↦ rw e rest | inr e ↦ rw e (rw e rest) ]

-- What does not concern the one-time keys leaves them and their counter as they were.
record Same (s s' : KyberPrekeyStore) : Type 0 where
  otpks : s'.otpks ≡ s.otpks
  counter : s'.next_otpk_id ≡ s.next_otpk_id

begun-Same : (s : KyberPrekeyStore) (r : Result KyberError KyberPrekey) → Same s (begun s r).0
begun-Same s (ok key) = record { otpks = refl; counter = refl }
begun-Same s (err why) = record { otpks = refl; counter = refl }

begin_by-Same :
    (now : ℕ) (made : Result (List ℕ) (List ℕ)) (s : KyberPrekeyStore) (o : Option KyberPrekey)
    → Same s (begin_by now made s o).0
begin_by-Same now made s (some p) = record { otpks = refl; counter = refl }
begin_by-Same now made s none = elim (Bool-cases (leb kyber_otpk_id_start s.next_spk_id)) [
  | inl f ↦ rw f record { otpks = refl; counter = refl }
  | inr f ↦ rw f (begun-Same s (generate s.next_spk_id now made))
]

commit_by-Same :
    (now : ℕ) (s : KyberPrekeyStore) (o : Option KyberPrekey) → Same s (commit_by now s o).0
unfolding prune_retired
commit_by-Same now s none = record { otpks = refl; counter = refl }
commit_by-Same now s (some p) = record { otpks = refl; counter = refl }

-- The id was given out, and no key has it any more.
record Burned (id : ℕ) (s : KyberPrekeyStore) : Type 0 where
  given : id < s.next_otpk_id
  gone : lookup_id s.otpks id ≡ none

Same-Burned : (id : ℕ) (s s' : KyberPrekeyStore) → Same s s' → Burned id s → Burned id s'
Same-Burned id s s' e b = record {
  given = subst (λ n. id < n) (sym e.counter) b.given;
  gone = ap (λ m. lookup_id m id) e.otpks ∙ b.gone;
}

generates-Burned :
    (id : ℕ) (made : List (Result (List ℕ) (List ℕ))) (now : ℕ) (s : KyberPrekeyStore)
    → Burned id s
    → Burned id (generate_otpks made now s).0
unfolding generate_otpks
generates-Burned id [] now s b = b
generates-Burned id (err why ∷ made) now s b =
    elim (Bool-cases (leb (2 ^ 32) (s.next_otpk_id + 1))) [ inl e ↦ rw e b | inr e ↦ rw e b ]
generates-Burned id (ok seed ∷ made) now s b =
    elim (Bool-cases (leb (2 ^ 32) (s.next_otpk_id + 1))) [
      | inl e ↦ rw e b
      | inr e ↦
          let given = b.given in
          let prekey : KyberPrekey = record {
            key_id = s.next_otpk_id;
            created_at = now;
            seed = seed;
          } in
          rw e (
            generates-Burned id made now
              (with_otpks s (insert_id s.next_otpk_id prekey s.otpks) (s.next_otpk_id + 1))
              record {
                given = omega arith;
                gone = lookup_id-insert_id s.next_otpk_id id prekey s.otpks (omega arith) ∙ b.gone;
              })
    ]

step-Burned : (id : ℕ) (s : KyberPrekeyStore) (c : Call) → Burned id s → Burned id (step s c)
unfolding begin_spk_rotation commit_spk_rotation rollback_spk_rotation prune_retired
    prune_otpks_below remove_otpk
step-Burned id s (begins now made) b = Same-Burned id s _ (begin_by-Same now made s s.pending_spk) b
step-Burned id s (commits now) b = Same-Burned id s _ (commit_by-Same now s s.pending_spk) b
step-Burned id s rolls_back b = record { given = b.given; gone = b.gone }
step-Burned id s (prunes_retired now) b = record { given = b.given; gone = b.gone }
step-Burned id s (generates made now) b = generates-Burned id made now s b
step-Burned id s (prunes_below k) b = record {
  given = b.given;
  gone = lookup_id-retain_none _ s.otpks id b.gone;
}
step-Burned id s (removes k) b = record {
  given = b.given;
  gone = lookup_id-retain_none _ s.otpks id b.gone;
}

run-Burned : (id : ℕ) (s : KyberPrekeyStore) (cs : List Call) → Burned id s → Burned id (run s cs)
run-Burned id s [] b = b
run-Burned id s (c ∷ cs) b = run-Burned id (step s c) cs (step-Burned id s c b)

-- Every key that is held has an id below the counter.
record IsStore (s : KyberPrekeyStore) : Type 0 where
  below : (id : ℕ) (key : KyberPrekey) → lookup_id s.otpks id ≡ some key → id < s.next_otpk_id

Same-IsStore : (s s' : KyberPrekeyStore) → Same s s' → IsStore s → IsStore s'
Same-IsStore s s' e w = record {
  below = λ id key h.
      subst (λ n. id < n) (sym e.counter)
        (w.below id key (ap (λ m. lookup_id m id) (sym e.otpks) ∙ h));
}

retain-below :
    (keep : ℕ → Bool) (s : KyberPrekeyStore)
    → IsStore s
    → IsStore (with_otpks s (retain_ids keep s.otpks) s.next_otpk_id)
retain-below keep s w = record {
  below = λ id key h. elim (Option-cases (lookup_id s.otpks id)) [
    | inl e ↦ let k = lookup_id-retain_none keep s.otpks id e in cc
    | inr (v, e) ↦ w.below id v e
  ];
}

insert-below :
    (key : KyberPrekey) (s : KyberPrekeyStore)
    → IsStore s
    → IsStore (with_otpks s (insert_id s.next_otpk_id key s.otpks) (s.next_otpk_id + 1))
insert-below key s w = record {
  below = λ id v h. elim (ℕ_discrete id s.next_otpk_id) [
    | yes e ↦ omega arith
    | no ne ↦
        let k = w.below id v (sym (lookup_id-insert_id s.next_otpk_id id key s.otpks ne) ∙ h) in
        omega arith
  ];
}

generates-IsStore :
    (made : List (Result (List ℕ) (List ℕ))) (now : ℕ) (s : KyberPrekeyStore)
    → IsStore s
    → IsStore (generate_otpks made now s).0
unfolding generate_otpks
generates-IsStore [] now s w = w
generates-IsStore (err why ∷ made) now s w = elim (Bool-cases (leb (2 ^ 32) (s.next_otpk_id + 1))) [
  | inl e ↦ rw e w
  | inr e ↦ rw e w
]
generates-IsStore (ok seed ∷ made) now s w = elim (Bool-cases (leb (2 ^ 32) (s.next_otpk_id + 1))) [
  | inl e ↦ rw e w
  | inr e ↦ rw e (generates-IsStore made now _ (insert-below _ s w))
]

step-IsStore : (s : KyberPrekeyStore) (c : Call) → IsStore s → IsStore (step s c)
unfolding begin_spk_rotation commit_spk_rotation rollback_spk_rotation prune_retired
    prune_otpks_below remove_otpk
step-IsStore s (begins now made) w = Same-IsStore s _ (begin_by-Same now made s s.pending_spk) w
step-IsStore s (commits now) w = Same-IsStore s _ (commit_by-Same now s s.pending_spk) w
step-IsStore s rolls_back w = record { below = w.below }
step-IsStore s (prunes_retired now) w = record { below = w.below }
step-IsStore s (generates made now) w = generates-IsStore made now s w
step-IsStore s (prunes_below k) w = retain-below _ s w
step-IsStore s (removes k) w = retain-below _ s w

run-IsStore : (s : KyberPrekeyStore) (cs : List Call) → IsStore s → IsStore (run s cs)
run-IsStore s [] w = w
run-IsStore s (c ∷ cs) w = run-IsStore (step s c) cs (step-IsStore s c w)

default-IsStore : IsStore default_store
unfolding lookup_id
default-IsStore = record { below = λ id key h. absurd (ground arith) }

-- A one-time prekey that was removed is gone: if any run from a new store has a key for an id of the
-- one-time range, then from its removal on no run of calls, whatever it generates or rotates, makes
-- `find` give a key for that id again.
pub find-removed :
    (before after : List Call) (id : ℕ) (key : KyberPrekey)
    → kyber_otpk_id_start ≤ id
    → find (run default_store before) id ≡ some key
    → find (run (remove_otpk id (run default_store before)).0 after) id ≡ none
unfolding find remove_otpk
find-removed before after id key high held =
    let s = run default_store before in
    let range = le→leb kyber_otpk_id_start id high in
    let w = run-IsStore default_store before default-IsStore in
    let here : lookup_id s.otpks id ≡ some key = rw range at held in
    let b =
      run-Burned id (remove_otpk id s).0 after
        record { given = w.below id key here; gone = lookup_id-removed id s.otpks } in
    rw range b.gone
