-- ===== src/Orchestration/SessionMachine.antt =====
-- src/orchestration/session_machine.rs: the phase of each device's ratchet. The clock is an argument
-- of each operation, in milliseconds; a `u64` is a number, as the code only takes saturating
-- differences. A `HashMap` is the list of its entries, with one entry to a key.
pub mod Lock
pub mod Maintenance
mod Examples
use construct_core.Prelude.{
  ℕ, ◌-◌, ltb, if◌then◌else◌, Bool, true, false, Option, none, some, List, [], ◌∷◌, lookup, retain,
  remove, insert,
}

abbrev pub opening_ttl_ms : ℕ
opening_ttl_ms = 30000

pub data Phase : Type 0 where
  absent : Phase
  opening : (since_ms : ℕ) → Phase

pub data Event : Type 0 where
  want_to_open open_finished open_failed forget : Event

pub data Effect : Type 0 where
  open_now wait_for_open nothing : Effect

pub record SessionMachine : Type 0 where
  pub phases : List (List ℕ × Phase)

abbrev pub new : SessionMachine
new = record { phases = [] }

-- The arms of the match on a stored phase.
abbrev pub live : ℕ → Option Phase → Phase
live now none = absent
live now (some absent) = absent
live now (some (opening since_ms)) =
    if ltb (now - since_ms) opening_ttl_ms then opening since_ms else absent

pub phase : ℕ → SessionMachine → List ℕ → Phase
phase now m id = live now (lookup m.phases id)

-- `matches!(phase, Phase::Opening { .. })`.
abbrev pub is_opening : Phase → Bool
is_opening absent = false
is_opening (opening since_ms) = true

pub handle : ℕ → SessionMachine → List ℕ → Event → SessionMachine × Effect
handle now m id want_to_open =
    if is_opening (phase now m id)
    then (m, wait_for_open)
    else (record { phases = insert id (opening now) m.phases }, open_now)
handle now m id open_finished = (record { phases = remove id m.phases }, nothing)
handle now m id open_failed = (record { phases = remove id m.phases }, nothing)
handle now m id forget = (record { phases = remove id m.phases }, nothing)

-- The keys, in the order of the entries, that pass the filter.
pub opening_keys : ℕ → SessionMachine → List (List ℕ × Phase) → List (List ℕ)
opening_keys now m [] = []
opening_keys now m ((id, p) ∷ entries) =
    let rest = opening_keys now m entries in if is_opening (phase now m id) then id ∷ rest else rest

pub opening_device_ids : ℕ → SessionMachine → List (List ℕ)
opening_device_ids now m = opening_keys now m m.phases

-- `restore_opening`, with the map that is built.
pub restore_phases : ℕ → List (List ℕ) → List (List ℕ × Phase) → List (List ℕ × Phase)
restore_phases now [] entries = entries
restore_phases now (id ∷ ids) entries = restore_phases now ids (insert id (opening now) entries)

pub restore_opening : ℕ → SessionMachine → List (List ℕ) → SessionMachine
restore_opening now m ids = record { phases = restore_phases now ids [] }

-- The entries that `prune_expired` keeps.
abbrev pub unexpired : ℕ → List ℕ → Phase → Bool
unexpired now id absent = false
unexpired now id (opening since_ms) = ltb (now - since_ms) opening_ttl_ms

pub prune_expired : ℕ → SessionMachine → SessionMachine
prune_expired now m = record { phases = retain (unexpired now) m.phases }
