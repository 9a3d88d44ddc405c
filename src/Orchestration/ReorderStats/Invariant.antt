-- ===== src/Orchestration/ReorderStats/Invariant.antt =====
-- The counters agree with one another after any run.
use construct_core.Prelude.{ℕ, ◌≤◌, ◌<◌, ◌+◌, ◌^◌, Option, List, [], ◌∷◌, arith}
use construct_core.Orchestration.ReorderStats.{
  DrHealthSnapshot, ReorderStats, no_stats, record_decrypted, record_failed,
}

pub data Call : Type 0 where
  decrypts : (before after : DrHealthSnapshot) (message_epoch : ℕ) → Call
  fails : (current : Option DrHealthSnapshot) (message_epoch : ℕ) → Call

abbrev pub step : ReorderStats → Call → ReorderStats
step s (decrypts before after message_epoch) = record_decrypted before after message_epoch s
step s (fails current message_epoch) = record_failed current message_epoch s

abbrev pub run : ReorderStats → List Call → ReorderStats
run s [] = s
run s (c ∷ cs) = run (step s c) cs

pub record IsStats (s : ReorderStats) : Type 0 where
  pub late : s.previous_epoch + s.older_epoch ≤ s.decrypted
  pub lag_seen : 0 < s.max_epoch_lag → 0 < s.previous_epoch + s.older_epoch
  pub late_lags : 0 < s.previous_epoch + s.older_epoch → 0 < s.max_epoch_lag
  pub far_seen : 1 < s.max_epoch_lag → 0 < s.older_epoch
  pub old_lags : 0 < s.older_epoch → 1 < s.max_epoch_lag
  pub depth : s.max_skip_depth < 2 ^ 32

decrypts-IsStats :
    (before after : DrHealthSnapshot) (e : ℕ) (s : ReorderStats)
    → IsStats s
    → IsStats (record_decrypted before after e s)
unfolding record_decrypted
decrypts-IsStats before after e s w =
    let a = w.late in
    let b = w.lag_seen in
    let c = w.late_lags in
    let d = w.far_seen in
    let f = w.old_lags in
    let g = w.depth in
    record {
      late = ground arith;
      lag_seen = ground arith;
      late_lags = ground arith;
      far_seen = ground arith;
      old_lags = ground arith;
      depth = omega arith;
    }

step-IsStats : (s : ReorderStats) (c : Call) → IsStats s → IsStats (step s c)
unfolding record_failed
step-IsStats s (decrypts before after e) w = decrypts-IsStats before after e s w
step-IsStats s (fails current e) w = record {
  late = w.late;
  lag_seen = w.lag_seen;
  late_lags = w.late_lags;
  far_seen = w.far_seen;
  old_lags = w.old_lags;
  depth = w.depth;
}

run-from : (s : ReorderStats) (cs : List Call) → IsStats s → IsStats (run s cs)
run-from s [] w = w
run-from s (c ∷ cs) w = run-from (step s c) cs (step-IsStats s c w)

-- After any run of recordings from empty counters: no more messages came late than were decrypted,
-- the largest lag is positive exactly when one came late and above one exactly when one came from an
-- epoch older than the previous, and the skip depth fits 32 bits.
pub run-IsStats : (cs : List Call) → IsStats (run no_stats cs)
run-IsStats cs = run-from no_stats cs record {
  late = omega arith;
  lag_seen = omega arith;
  late_lags = omega arith;
  far_seen = omega arith;
  old_lags = omega arith;
  depth = omega arith;
}
