-- ===== src/KyberPrekeys/Examples.antt =====
-- A store with a one-time prekey that is used up.
use construct_core.Prelude.{◌≡◌, refl, none, some, List, [], ◌∷◌, arith, ok}
use construct_core.KyberPrekeys.{
  KyberPrekey, default_store, find, remove_otpk, generate_otpks, insert_id, lookup_id,
  begin_spk_rotation, commit_spk_rotation, prune_retired, spk_chain, first_with_id, unexpired,
}
use construct_core.KyberPrekeys.Burned.{Call, generates, begins, commits, run, find-removed}

abbrev calls : List Call
calls = generates (ok (1 ∷ []) ∷ ok (2 ∷ []) ∷ []) 50 ∷ []

abbrev second : KyberPrekey
second = record { key_id = 1000001; created_at = 50; seed = 2 ∷ [] }

held : find (run default_store calls) 1000001 ≡ some second
unfolding find generate_otpks insert_id lookup_id
held = refl

find-removed_example :
    find (run (remove_otpk 1000001 (run default_store calls)).0 calls) 1000001 ≡ none
find-removed_example = find-removed calls calls 1000001 second (omega arith) held

-- A rotation in two phases, and the key that it replaced.
abbrev rotations : List Call
rotations = begins 10 (ok (3 ∷ [])) ∷ commits 20 ∷ begins 30 (ok (4 ∷ [])) ∷ commits 40 ∷ []

rotated :
    find (run default_store rotations) 1
    ≡ some record { key_id = 1; created_at = 10; seed = 3 ∷ [] }
unfolding find begin_spk_rotation commit_spk_rotation prune_retired unexpired spk_chain
    first_with_id
rotated = refl
