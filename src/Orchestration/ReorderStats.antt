-- ===== src/Orchestration/ReorderStats.antt =====
-- src/orchestration/reorder_stats.rs: how late messages arrive. Of a health snapshot there are the
-- fields that are read. The counters are numbers: no device decrypts 2 ^ 64 messages.
pub mod Invariant
mod Examples
use construct_core.Prelude.{
  ℕ, ◌+◌, ◌-◌, ◌^◌, min, max, ltb, ◌==◌, if◌then◌else◌, Bool, false, ◌&&◌, Option, none, some,
}

pub record DrHealthSnapshot : Type 0 where
  pub skipped_keys_count : ℕ
  pub pq_epoch : ℕ
  pub pq_oldest_chain_epoch : Option ℕ
  pub pq_skipped_keys_count : ℕ

pub record ReorderStats : Type 0 where
  pub decrypted : ℕ
  pub previous_epoch : ℕ
  pub older_epoch : ℕ
  pub max_epoch_lag : ℕ
  pub max_skip_depth : ℕ
  pub evicted_epoch_failures : ℕ

abbrev pub no_stats : ReorderStats
no_stats = record {
  decrypted = 0;
  previous_epoch = 0;
  older_epoch = 0;
  max_epoch_lag = 0;
  max_skip_depth = 0;
  evicted_epoch_failures = 0;
}

-- `u32::try_from(n).unwrap_or(u32::MAX)`.
abbrev pub saturated : ℕ → ℕ
saturated n = min n (2 ^ 32 - 1)

pub skipped_by : DrHealthSnapshot → DrHealthSnapshot → ℕ
skipped_by before after =
    max (after.skipped_keys_count - before.skipped_keys_count)
      (after.pq_skipped_keys_count - before.pq_skipped_keys_count)

pub record_decrypted : DrHealthSnapshot → DrHealthSnapshot → ℕ → ReorderStats → ReorderStats
record_decrypted before after message_epoch s =
    let lag = before.pq_epoch - message_epoch in
    let tagged = ltb 0 message_epoch in
    record {
      decrypted = s.decrypted + 1;
      previous_epoch = s.previous_epoch + (if tagged && lag == 1 then 1 else 0);
      older_epoch = s.older_epoch + (if tagged && ltb 1 lag then 1 else 0);
      max_epoch_lag = if tagged then max s.max_epoch_lag lag else s.max_epoch_lag;
      max_skip_depth = max s.max_skip_depth (saturated (skipped_by before after));
      evicted_epoch_failures = s.evicted_epoch_failures;
    }

-- The message's epoch is older than every chain that the state holds.
abbrev pub is_evicted : Option DrHealthSnapshot → ℕ → Bool
is_evicted none message_epoch = false
is_evicted (some current) message_epoch = elim current.pq_oldest_chain_epoch [
  | none ↦ false
  | some oldest ↦ ltb 0 message_epoch && ltb message_epoch oldest
]

pub record_failed : Option DrHealthSnapshot → ℕ → ReorderStats → ReorderStats
record_failed current message_epoch s = record {
  decrypted = s.decrypted;
  previous_epoch = s.previous_epoch;
  older_epoch = s.older_epoch;
  max_epoch_lag = s.max_epoch_lag;
  max_skip_depth = s.max_skip_depth;
  evicted_epoch_failures =
      if is_evicted current message_epoch
      then s.evicted_epoch_failures + 1
      else s.evicted_epoch_failures;
}
