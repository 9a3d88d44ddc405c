-- ===== src/Orchestration/SessionMachine/Examples.antt =====
-- The machine with two devices, and the theorems about it.
use construct_core.Prelude.{
  ℕ, if◌then◌else◌, ◌≡◌, refl, some, List, [], ◌∷◌, arith, All, bytes_eq→≢, lookup, remove, IsMap,
}
use construct_core.Orchestration.SessionMachine.{
  wait_for_open, SessionMachine, absent, opening, want_to_open, forget, open_now, new, live, phase,
  is_opening, handle, prune_expired, restore_opening, opening_device_ids,
}
use construct_core.Orchestration.SessionMachine.Lock.{
  handle-waits, run, Call, handled, pruned, Within,
}
use construct_core.Orchestration.SessionMachine.Maintenance.{
  phase-prune_expired, phase-restore_opening,
}

abbrev device : List ℕ
device = 1 ∷ []

abbrev other_device : List ℕ
other_device = 2 ∷ []

abbrev opened : SessionMachine
opened = record { phases = (device, opening 50) ∷ [] }

opened_lem : handle 50 new device want_to_open ≡ (opened, open_now)
unfolding handle phase lookup remove
opened_lem = refl

abbrev calls : List Call
calls = handled 60 other_device forget ∷ pruned 70 ∷ handled 80 other_device want_to_open ∷ []

calls-Within : All (Within 50 device) calls
calls-Within =
    let two = bytes_eq→≢ other_device device refl in
    ((omega arith, λ e. absurd (two e)), (omega arith, ((omega arith, λ e. absurd (two e)), tt)))

handle-waits_example :
    handle 90 (run opened calls) device want_to_open ≡ (run opened calls, wait_for_open)
handle-waits_example =
    handle-waits [] calls 50 90 device opened opened_lem calls-Within (omega arith)

expires : phase 30050 opened device ≡ absent
unfolding phase lookup
expires = refl

opened-IsMap : IsMap opened.phases
unfolding lookup
opened-IsMap = (refl, tt)

phase-prune_expired_example :
    phase 40000 (prune_expired 30050 opened) device ≡ phase 40000 opened device
phase-prune_expired_example =
    phase-prune_expired 30050 40000 opened device opened-IsMap (omega arith)

phase-restore_opening_example :
    phase 1010 (restore_opening 1000 new (opening_device_ids 60 opened)) device
    ≡ (if is_opening (phase 60 opened device) then live 1010 (some (opening 1000)) else absent)
phase-restore_opening_example = phase-restore_opening 60 1000 1010 opened new device
