-- ===== src/Orchestration/SessionMachine/Lock.antt =====
-- One open at a time: the lock that an `open_now` takes, over whole runs of the machine.
use construct_core.Prelude.{
  subst, ℕ, ◌<◌, ◌-◌, lt→ltb, Bool-cases, ◌≡◌, refl, sym, ap, ap₂, ◌∙◌, ◌≢◌, inl, inr, some, List,
  [], ◌∷◌, All, bytes_eq, bytes_eq→eq, bytes_eq→≢, lookup, insert, IsMap, lookup-remove_other,
  lookup-insert_same, lookup-insert_other, remove-IsMap, insert-IsMap, lookup-retain, retain-IsMap,
}
use construct_core.Orchestration.SessionMachine.{
  SessionMachine, Event, opening, want_to_open, open_finished, open_failed, forget, open_now,
  wait_for_open, opening_ttl_ms, new, phase, is_opening, handle, unexpired, prune_expired,
}

-- A call of the machine, with the clock that it reads.
pub data Call : Type 0 where
  handled : (now : ℕ) (id : List ℕ) (event : Event) → Call
  pruned : (now : ℕ) → Call

abbrev pub step : SessionMachine → Call → SessionMachine
step m (handled now id event) = (handle now m id event).0
step m (pruned now) = prune_expired now m

abbrev pub run : SessionMachine → List Call → SessionMachine
run m [] = m
run m (c ∷ cs) = run (step m c) cs

handle-IsMap :
    (now : ℕ) (m : SessionMachine) (id : List ℕ) (event : Event)
    → IsMap m.phases
    → IsMap (handle now m id event).0.phases
unfolding handle
handle-IsMap now m id want_to_open w = elim (Bool-cases (is_opening (phase now m id))) [
  | inl e ↦ rw e w
  | inr e ↦ rw e (insert-IsMap id (opening now) m.phases w)
]
handle-IsMap now m id open_finished w = remove-IsMap id m.phases w
handle-IsMap now m id open_failed w = remove-IsMap id m.phases w
handle-IsMap now m id forget w = remove-IsMap id m.phases w

step-IsMap : (m : SessionMachine) (c : Call) → IsMap m.phases → IsMap (step m c).phases
unfolding prune_expired
step-IsMap m (handled now id event) w = handle-IsMap now m id event w
step-IsMap m (pruned now) w = retain-IsMap (unexpired now) m.phases w

pub run-IsMap : (m : SessionMachine) (cs : List Call) → IsMap m.phases → IsMap (run m cs).phases
run-IsMap m [] w = w
run-IsMap m (c ∷ cs) w = run-IsMap (step m c) cs (step-IsMap m c w)

module _ (t : ℕ) (id : List ℕ) where
  -- A call within the time to live of an open at `t`, and no end of it: for this device only wishes.
  abbrev pub Within : Call → Type 0
  Within (handled now other event) =
      (now - t < opening_ttl_ms) × ((other ≡ id) → event ≡ want_to_open)
  Within (pruned now) = now - t < opening_ttl_ms

  -- The device's entry is the open at `t`.
  record Held (m : SessionMachine) : Type 0 where
    entry : lookup m.phases id ≡ some (opening t)
    map : IsMap m.phases

  Held-opening :
      (now : ℕ) (m : SessionMachine)
      → Held m
      → now - t < opening_ttl_ms
      → phase now m id ≡ opening t
  unfolding phase
  Held-opening now m h short = rw (h.entry, lt→ltb (now - t) opening_ttl_ms short)

  Held-waits :
      (now : ℕ) (m : SessionMachine)
      → Held m
      → now - t < opening_ttl_ms
      → handle now m id want_to_open ≡ (m, wait_for_open)
  unfolding handle
  Held-waits now m h short = rw (Held-opening now m h short)

  handle-other :
      (now : ℕ) (m : SessionMachine) (other : List ℕ) (event : Event)
      → id ≢ other
      → lookup (handle now m other event).0.phases id ≡ lookup m.phases id
  unfolding handle
  handle-other now m other want_to_open ne = elim (Bool-cases (is_opening (phase now m other))) [
    | inl e ↦ rw e refl
    | inr e ↦ rw e (lookup-insert_other other id (opening now) m.phases ne)
  ]
  handle-other now m other open_finished ne = lookup-remove_other other id m.phases ne
  handle-other now m other open_failed ne = lookup-remove_other other id m.phases ne
  handle-other now m other forget ne = lookup-remove_other other id m.phases ne

  Held-step : (m : SessionMachine) (c : Call) → Held m → Within c → Held (step m c)
  unfolding prune_expired
  Held-step m (handled now other event) h (short, only) = elim (Bool-cases (bytes_eq other id)) [
    | inl e ↦
        let same = bytes_eq→eq other id e in
        let stays : (handle now m other event).0 ≡ m =
          ap₂ (λ i v. (handle now m i v).0) same (only same)
          ∙ ap (λ r. r.0) (Held-waits now m h short) in
        subst Held (sym stays) h
    | inr e ↦ record {
      entry = handle-other now m other event (λ q. bytes_eq→≢ other id e (sym q)) ∙ h.entry;
      map = handle-IsMap now m other event h.map;
    }
  ]
  Held-step m (pruned now) h short = record {
    entry =
        lookup-retain (unexpired now) id m.phases h.map
        ∙ rw (h.entry, lt→ltb (now - t) opening_ttl_ms short);
    map = retain-IsMap (unexpired now) m.phases h.map;
  }

  Held-run : (m : SessionMachine) (cs : List Call) → Held m → All Within cs → Held (run m cs)
  Held-run m [] h all = h
  Held-run m (c ∷ cs) h (now, all) = Held-run (step m c) cs (Held-step m c h now) all

  opened-Held :
      (m m' : SessionMachine)
      → IsMap m.phases
      → handle t m id want_to_open ≡ (m', open_now)
      → Held m'
  unfolding handle
  opened-Held m m' w h = elim (Bool-cases (is_opening (phase t m id))) [
    | inl e ↦ let k = rw (e, handle) at h in cc
    | inr e ↦
        let k = rw (e, handle) at h in
        let made : record { phases = insert id (opening t) m.phases } ≡ m' = ap (λ r. r.0) k in
        subst Held made record {
          entry = lookup-insert_same id (opening t) m.phases;
          map = insert-IsMap id (opening t) m.phases w;
        }
  ]

-- After any run from a new machine, an open that is granted for a device holds the others back: as
-- long as the calls stay within the time to live and do not end this device's open, whatever they do
-- to other devices and however often they prune, the next wish for it is told to wait and changes
-- nothing.
pub handle-waits :
    (before between : List Call) (t now : ℕ) (id : List ℕ) (m : SessionMachine)
    → handle t (run new before) id want_to_open ≡ (m, open_now)
    → All (Within t id) between
    → now - t < opening_ttl_ms
    → handle now (run m between) id want_to_open ≡ (run m between, wait_for_open)
handle-waits before between t now id m h all short =
    Held-waits t id now (run m between)
      (Held-run t id m between (opened-Held t id (run new before) m (run-IsMap new before tt) h)
        all)
      short
