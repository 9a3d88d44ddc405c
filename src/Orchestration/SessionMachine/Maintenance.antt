-- ===== src/Orchestration/SessionMachine/Maintenance.antt =====
-- Pruning and restarting do not change what a caller sees.
use construct_core.Prelude.{
  ℕ, ◌≤◌, ◌-◌, ltb, if◌then◌else◌, Bool-cases, Option-cases, ◌≡◌, refl, sym, ap, ◌∙◌, inl, inr,
  Bool, true, false, ◌&&◌, Option, none, some, List, [], ◌∷◌, arith, bytes_eq, bytes_eq→eq,
  bytes_eq→≢, contains, lookup, insert, IsMap, lookup-insert_same, lookup-insert_other, kept,
  lookup-retain,
}
use construct_core.Orchestration.SessionMachine.{
  SessionMachine, Phase, absent, opening, opening_ttl_ms, live, phase, is_opening, opening_keys,
  opening_device_ids, restore_phases, restore_opening, unexpired, prune_expired,
}

live-kept :
    (now later : ℕ) (id : List ℕ) (o : Option Phase)
    → now ≤ later
    → live later (kept (unexpired now) id o) ≡ live later o
live-kept now later id none h = refl
live-kept now later id (some absent) h = refl
live-kept now later id (some (opening since)) h =
    elim (Bool-cases (ltb (now - since) opening_ttl_ms)) [
      | inl e ↦ rw e
      | inr e ↦
          let old : ltb (later - since) opening_ttl_ms ≡ false = ground (arith, e) in rw (e, old)
    ]

-- Dropping the entries that have expired by `now` changes the phase of no device, now or later.
pub phase-prune_expired :
    (now later : ℕ) (m : SessionMachine) (id : List ℕ)
    → IsMap m.phases
    → now ≤ later
    → phase later (prune_expired now m) id ≡ phase later m id
unfolding phase prune_expired
phase-prune_expired now later m id w h =
    ap (live later) (lookup-retain (unexpired now) id m.phases w)
    ∙ live-kept now later id (lookup m.phases id) h

lookup-restore_phases :
    (now : ℕ) (ids : List (List ℕ)) (m : List (List ℕ × Phase)) (id : List ℕ)
    → lookup (restore_phases now ids m) id
      ≡ (if contains ids id then some (opening now) else lookup m id)
unfolding restore_phases
lookup-restore_phases now [] m id = refl
lookup-restore_phases now (x ∷ ids) m id =
    lookup-restore_phases now ids (insert x (opening now) m) id
    ∙ elim (Bool-cases (bytes_eq x id)) [
      | inl e ↦
          let same =
            ap (λ k. lookup (insert x (opening now) m) k) (sym (bytes_eq→eq x id e))
            ∙ lookup-insert_same x (opening now) m in
          elim (Bool-cases (contains ids id)) [ inl f ↦ rw (e, f) | inr f ↦ rw (e, f) same ]
      | inr e ↦
          let other = lookup-insert_other x id (opening now) m (λ q. bytes_eq→≢ x id e (sym q)) in
          elim (Bool-cases (contains ids id)) [ inl f ↦ rw (e, f) | inr f ↦ rw (e, f) other ]
    ]

is_some_entry : Option Phase → Bool
is_some_entry none = false
is_some_entry (some p) = true

and_false : (b : Bool) → (b && false) ≡ false
and_false true = refl
and_false false = refl

contains-opening_keys :
    (now : ℕ) (m : SessionMachine) (entries : List (List ℕ × Phase)) (id : List ℕ)
    → contains (opening_keys now m entries) id
      ≡ (is_some_entry (lookup entries id) && is_opening (phase now m id))
unfolding opening_keys lookup is_some_entry
contains-opening_keys now m [] id = refl
contains-opening_keys now m ((k, p) ∷ entries) id =
    let rest = contains-opening_keys now m entries id in
    elim (Bool-cases (bytes_eq k id)) [
      | inl e ↦
          let same = ap (λ x. is_opening (phase now m x)) (bytes_eq→eq k id e) in
          elim (Bool-cases (is_opening (phase now m k))) [
            | inl f ↦ let g = sym same ∙ f in rw (e, f, g) (rw e refl)
            | inr f ↦
                let g = sym same ∙ f in
                rw (e, f, g) (rest ∙ rw g (and_false (is_some_entry (lookup entries id))))
          ]
      | inr e ↦ elim (Bool-cases (is_opening (phase now m k))) [
        | inl f ↦ rw (e, f) (rw e rest)
        | inr f ↦ rw (e, f) rest
      ]
    ]

-- The ids that are listed are those of the devices with an open in flight.
contains-opening_device_ids :
    (now : ℕ) (m : SessionMachine) (id : List ℕ)
    → contains (opening_device_ids now m) id ≡ is_opening (phase now m id)
unfolding opening_device_ids phase is_some_entry
contains-opening_device_ids now m id =
    contains-opening_keys now m m.phases id
    ∙ elim (Option-cases (lookup m.phases id)) [ inl e ↦ rw e refl | inr (p, e) ↦ rw e refl ]

-- A restart that restores the listed ids, at a clock that may have moved anywhere, has an open in
-- flight for exactly the devices that had one before it, each dated to the restart.
pub phase-restore_opening :
    (now restart later : ℕ) (m m' : SessionMachine) (id : List ℕ)
    → phase later (restore_opening restart m' (opening_device_ids now m)) id
      ≡ (if is_opening (phase now m id) then live later (some (opening restart)) else absent)
unfolding phase restore_opening lookup
phase-restore_opening now restart later m m' id =
    let e = lookup-restore_phases restart (opening_device_ids now m) [] id in
    ap (live later) e ∙ elim (Bool-cases (is_opening (phase now m id))) [
      | inl f ↦ let g = contains-opening_device_ids now m id ∙ f in rw (f, g)
      | inr f ↦ let g = contains-opening_device_ids now m id ∙ f in rw (f, g) refl
    ]
