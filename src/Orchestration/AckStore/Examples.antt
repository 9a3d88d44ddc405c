-- ===== src/Orchestration/AckStore/Examples.antt =====
-- A store over a restart, and the theorems about it.
use construct_core.Prelude.{ℕ, ◌≡◌, List, [], ◌∷◌}
use construct_core.Orchestration.AckStore.{need_db_check, is_processed, restore_cache, new_default}
use construct_core.Orchestration.AckStore.Laws.{
  mark_all, persisted, persisted-mark_all, is_processed-restore_cache,
}

abbrev a_message : List ℕ
a_message = 1 ∷ []

abbrev marks : List (ℕ × List ℕ)
marks = (10, a_message) ∷ (11, a_message) ∷ []

persisted-mark_all_example : persisted a_message (mark_all marks new_default).1 ≡ 1
persisted-mark_all_example = persisted-mark_all marks new_default a_message

is_processed-restore_cache_example :
    is_processed (mark_all marks (restore_cache [] new_default)).0 (2 ∷ []) ≡ need_db_check
is_processed-restore_cache_example = is_processed-restore_cache [] marks new_default (2 ∷ [])
