-- ===== src/Orchestration/AckStore.antt =====
-- src/orchestration/ack_store.rs: which messages were processed. A `HashSet` is the list of its
-- members, the clock an argument in seconds, and of the platform's actions there are the two that
-- the store asks for.
pub mod Laws
mod Examples
use construct_core.Prelude.{
  ℕ, ◌-◌, ◌*◌, if◌then◌else◌, Bool, true, false, List, [], ◌∷◌, length, contains,
}

pub data AckCheckResult : Type 0 where
  in_cache need_db_check not_processed : AckCheckResult

pub data Action : Type 0 where
  persist_ack : (message_id : List ℕ) (timestamp : ℕ) → Action
  prune_ack_store : (cutoff_ts : ℕ) → Action

pub record AckStore : Type 0 where
  pub cache : List (List ℕ)
  pub max_age_seconds : ℕ
  pub post_restart_mode : Bool

abbrev pub new : ℕ → AckStore
new max_age_seconds = record {
  cache = [];
  max_age_seconds = max_age_seconds;
  post_restart_mode = false;
}

abbrev pub new_default : AckStore
new_default = new (30 * 24 * 60 * 60)

pub is_processed : AckStore → List ℕ → AckCheckResult
is_processed s message_id =
    if contains s.cache message_id
    then in_cache
    else if s.post_restart_mode
    then need_db_check
    else not_processed

-- The store with another cache.
abbrev pub with_cache : AckStore → List (List ℕ) → AckStore
with_cache s cache = record {
  cache = cache;
  max_age_seconds = s.max_age_seconds;
  post_restart_mode = s.post_restart_mode;
}

pub mark_processed : ℕ → List ℕ → AckStore → AckStore × List Action
mark_processed now message_id s =
    if contains s.cache message_id
    then (s, [])
    else (with_cache s (message_id ∷ s.cache), persist_ack message_id now ∷ [])

pub prune_expired : ℕ → AckStore → List Action
prune_expired now s = prune_ack_store (now - s.max_age_seconds) ∷ []

pub cache_len : AckStore → ℕ
cache_len s = length s.cache

-- `cache.extend(ids)`, on a set.
pub extend : List (List ℕ) → List (List ℕ) → List (List ℕ)
extend [] cache = cache
extend (id ∷ ids) cache = extend ids (if contains cache id then cache else id ∷ cache)

pub restore_cache : List (List ℕ) → AckStore → AckStore
restore_cache ids s = record {
  cache = extend ids [];
  max_age_seconds = s.max_age_seconds;
  post_restart_mode = true;
}
