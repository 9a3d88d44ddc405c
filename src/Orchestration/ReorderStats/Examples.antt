-- ===== src/Orchestration/ReorderStats/Examples.antt =====
-- Two messages, one of them two epochs late.
use construct_core.Prelude.{◌≡◌, refl, some, List, [], ◌∷◌}
use construct_core.Orchestration.ReorderStats.{
  record_failed, DrHealthSnapshot, no_stats, record_decrypted,
}
use construct_core.Orchestration.ReorderStats.Invariant.{Call, decrypts, fails, run}

abbrev health : DrHealthSnapshot
health = record {
  skipped_keys_count = 4;
  pq_epoch = 5;
  pq_oldest_chain_epoch = some 4;
  pq_skipped_keys_count = 0;
}

abbrev calls : List Call
calls = decrypts health health 5 ∷ decrypts health health 3 ∷ fails (some health) 3 ∷ []

older : (run no_stats calls).older_epoch ≡ 1
unfolding record_decrypted record_failed
older = refl
