-- ===== src/KeyTransparency/Examples.antt =====
-- A tree of three leaves over a toy hash, and the theorems about it.
use construct_core.Prelude.{
  ℕ, ◌≤◌, ◌<◌, ◌*◌, ◌^◌, ◌≡◌, refl, ◌⊎◌, true, some, List, [], ◌∷◌, ◌++◌, arith, get_elem?, take,
  replicate, All, length-append, length-take,
}
use construct_core.KeyTransparency.{
  inclusion_reconstruct, reconstruct_from_root, merkle_tree_hash_rounds, merkle_tree_hash,
  verify_inclusion_inner, generate_inclusion_proof_inner, split, bit_length, leading_zeros,
}
use construct_core.KeyTransparency.Split.{split_bounds}
use construct_core.KeyTransparency.Completeness.{verify_inclusion_inner-generate}
use construct_core.KeyTransparency.Soundness.{IsHash, Collision, verify_inclusion_inner_sound}

-- The first 32 bytes of the input: it has collisions, and always gives 32 bytes.
abbrev toy_hash : List ℕ → List ℕ
toy_hash x = take 32 (x ++ replicate 32 0)

toy_sized : (x : List ℕ) → IsHash (toy_hash x)
toy_sized x = omega (arith, length-take 32 (x ++ replicate 32 0), length-append x (replicate 32 0))

abbrev leaves : List (List ℕ)
leaves = replicate 32 1 ∷ replicate 32 2 ∷ replicate 32 3 ∷ []

split_five : split 5 ≡ 4
unfolding split leading_zeros bit_length
split_five = refl

split_bounds_example : (d : ℕ) × (split 5 ≡ 2 ^ d) × (d < 64) × (2 ^ d < 5) × (5 ≤ 2 * 2 ^ d)
split_bounds_example = split_bounds 5 (omega arith) (omega arith)

verify_inclusion_inner-generate_example :
    verify_inclusion_inner toy_hash
      (replicate 32 2)
      (generate_inclusion_proof_inner toy_hash leaves 1)
      1
      3
      (merkle_tree_hash toy_hash leaves)
    ≡ true
verify_inclusion_inner-generate_example =
    verify_inclusion_inner-generate toy_hash leaves 1 (replicate 32 2) (omega arith) refl

accepted_proof : List (List ℕ)
accepted_proof = replicate 32 1 ∷ replicate 32 3 ∷ []

accepted_proof-IsHash : All IsHash accepted_proof
unfolding accepted_proof
accepted_proof-IsHash = omega arith

accepted_proof_lem :
    verify_inclusion_inner toy_hash
      (replicate 32 2)
      accepted_proof
      1
      3
      (merkle_tree_hash toy_hash leaves)
    ≡ true
unfolding accepted_proof verify_inclusion_inner merkle_tree_hash split leading_zeros bit_length
    inclusion_reconstruct reconstruct_from_root merkle_tree_hash_rounds
accepted_proof_lem = refl

verify_inclusion_inner_sound_example :
    (get_elem? leaves 1 ≡ some (replicate 32 2)) ⊎ Collision toy_hash
verify_inclusion_inner_sound_example =
    verify_inclusion_inner_sound toy_hash toy_sized (replicate 32 2) accepted_proof leaves 1
      (omega arith) refl (omega arith) accepted_proof-IsHash accepted_proof_lem
