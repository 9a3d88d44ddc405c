-- ===== src/KeyTransparency.antt =====
-- src/crypto/key_transparency.rs: the RFC 6962 Merkle tree of the key log, and the verifier of its
-- inclusion proofs. A hash is the list of its 32 bytes, and SHA-256 a parameter. `usize` has 64 bits.
-- `merkle_tree_hash` and the proof generator are the file's own reference functions, built for its
-- tests.
pub mod Split
pub mod Completeness
pub mod Soundness
mod Examples
use construct_core.Prelude.{
  ℕ, zero, suc, ◌-◌, ◌/◌, ◌^◌, ltb, leb, ◌==◌, if◌then◌else◌, Bool, false, ◌&&◌, ◌||◌, Option, none,
  some, List, [], ◌∷◌, ◌++◌, map, length, take, drop, bytes_eq,
}
use mathlib.Core.Option
use mathlib.Core.List.{reverse}

abbrev pub max_proof_depth : ℕ
max_proof_depth = 64

-- `usize::leading_zeros`, by the number of binary digits.
unfoldable pub bit_length : ℕ → ℕ → ℕ
bit_length zero n = 0
bit_length (suc width) n = let rest = bit_length width (n / 2) in if n == 0 then 0 else suc rest

pub leading_zeros : ℕ → ℕ
leading_zeros n = 64 - bit_length 64 n

pub split : ℕ → ℕ
split n = if ltb n 2 then 0 else 2 ^ (64 - 1 - leading_zeros (n - 1))

module _ (sha256 : List ℕ → List ℕ) where
  abbrev pub node_hash : List ℕ → List ℕ → List ℕ
  node_hash left right = sha256 (0x01 ∷ (left ++ right))

  -- The tree hash, with fuel; a slice is shorter than what it is taken from, so its length is
  -- enough.
  pub merkle_tree_hash_rounds : ℕ → List (List ℕ) → List ℕ
  merkle_tree_hash_rounds rounds [] = sha256 []
  merkle_tree_hash_rounds rounds (leaf ∷ []) = leaf
  merkle_tree_hash_rounds zero (leaf ∷ next ∷ leaves) = sha256 []
  merkle_tree_hash_rounds (suc rounds) (leaf ∷ next ∷ leaves) =
      let all = leaf ∷ next ∷ leaves in
      let k = split (length all) in
      node_hash (merkle_tree_hash_rounds rounds (take k all))
        (merkle_tree_hash_rounds rounds (drop k all))

  pub merkle_tree_hash : List (List ℕ) → List ℕ
  merkle_tree_hash leaves = merkle_tree_hash_rounds (length leaves) leaves

  -- `inclusion_reconstruct`, which takes the proof from its end: here the last element is first.
  pub reconstruct_from_root : List ℕ → List (List ℕ) → ℕ → ℕ → Option (List ℕ)
  reconstruct_from_root leaf [] index size = if size == 1 && index == 0 then some leaf else none
  reconstruct_from_root leaf (sibling ∷ inner) index size =
      let k = split size in
      let left = reconstruct_from_root leaf inner index k in
      let right = reconstruct_from_root leaf inner (index - k) (size - k) in
      if ltb size 2
      then none
      else if ltb index k
      then Option.map (λ l. node_hash l sibling) left
      else Option.map (λ r. node_hash sibling r) right

  pub inclusion_reconstruct : List ℕ → List (List ℕ) → ℕ → ℕ → Option (List ℕ)
  inclusion_reconstruct leaf proof index size =
      reconstruct_from_root leaf (reverse proof) index size

  pub verify_inclusion_inner : List ℕ → List (List ℕ) → ℕ → ℕ → List ℕ → Bool
  verify_inclusion_inner leaf proof index size root =
      if size == 0 || leb size index || ltb max_proof_depth (length proof)
      then false
      else elim (inclusion_reconstruct leaf proof index size) [
        | none ↦ false
        | some found ↦ bytes_eq found root
      ]

  -- The proof of the leaf at `index`, leaf first.
  pub generate_inclusion_proof_rounds : ℕ → List (List ℕ) → ℕ → List (List ℕ)
  generate_inclusion_proof_rounds zero leaves index = []
  generate_inclusion_proof_rounds (suc rounds) leaves index =
      let k = split (length leaves) in
      let left =
        generate_inclusion_proof_rounds rounds (take k leaves) index
        ++ (merkle_tree_hash (drop k leaves) ∷ []) in
      let right =
        generate_inclusion_proof_rounds rounds (drop k leaves) (index - k)
        ++ (merkle_tree_hash (take k leaves) ∷ []) in
      if length leaves == 1 then [] else if ltb index k then left else right

  pub generate_inclusion_proof_inner : List (List ℕ) → ℕ → List (List ℕ)
  generate_inclusion_proof_inner leaves index =
      generate_inclusion_proof_rounds (length leaves) leaves index
