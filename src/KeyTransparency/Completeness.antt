-- ===== src/KeyTransparency/Completeness.antt =====
-- The generated proof of every leaf is accepted.
use construct_core.Prelude.{
  subst, ℕ, zero, suc, ◌≤◌, ◌<◌, ◌-◌, ◌^◌, ltb, ltb→lt, lt→ltb, le→ltb, Bool-cases, ◌≡◌, refl, sym,
  ap, ap₂, ◌∙◌, inl, inr, true, some, List, [], ◌∷◌, ◌++◌, arith, length, get_elem?, take, drop,
  length-append, length-take, length-drop, get_elem?-take, get_elem?-drop_sub, bytes_eq_refl,
}
use mathlib.Core.Option
use mathlib.Core.List.{reverse, reverse-append}
use native.Mathlib.Nat.{le_refl, pow-le-pow_right}
use native.Mathlib.Decide.{dec_le}
use construct_core.KeyTransparency.{
  generate_inclusion_proof_inner, inclusion_reconstruct, verify_inclusion_inner, reverse, split,
  node_hash, merkle_tree_hash_rounds, merkle_tree_hash, reconstruct_from_root,
  generate_inclusion_proof_rounds,
}
use construct_core.KeyTransparency.Split.{split_bounds, split_sides}

-- Both sides of a split take one level less.
split_half :
    (d n : ℕ)
    → 2 ≤ n
    → n ≤ 2 ^ suc d
    → suc d ≤ 64
    → (split n < n) × (split n ≤ 2 ^ d) × (n - split n ≤ 2 ^ d)
split_half d n two fits w =
    let wide = pow-le-pow_right {n = 2} (omega arith) w in
    let (e, same, _, low, high) = split_bounds n two (omega (arith, wide)) in
    elim (dec_le e d) [
      | yes small ↦ omega (arith, pow-le-pow_right {n = 2} (omega arith) small)
      | no big ↦
          let more : suc d ≤ e = omega arith in
          absurd (omega (arith, pow-le-pow_right {n = 2} (omega arith) more))
    ]

get_elem?-some_lt :
    (index : ℕ) (leaves : List (List ℕ)) {leaf : List ℕ}
    → get_elem? leaves index ≡ some leaf
    → index < length leaves
get_elem?-some_lt index [] e = cc
get_elem?-some_lt zero (x ∷ xs) e = omega arith
get_elem?-some_lt (suc index) (x ∷ xs) e = omega (arith, get_elem?-some_lt index xs e)

module _ (sha256 : List ℕ → List ℕ) where
  -- Rounds beyond the length change nothing.
  merkle_tree_hash_rounds-enough :
      (r s : ℕ) (leaves : List (List ℕ))
      → length leaves ≤ r
      → length leaves ≤ s
      → length leaves ≤ 2 ^ 64
      → merkle_tree_hash_rounds sha256 r leaves ≡ merkle_tree_hash_rounds sha256 s leaves
  unfolding merkle_tree_hash_rounds
  merkle_tree_hash_rounds-enough r s [] h k w = refl
  merkle_tree_hash_rounds-enough r s (x ∷ []) h k w = refl
  merkle_tree_hash_rounds-enough zero s (x ∷ y ∷ xs) h k w = elim h [ ]
  merkle_tree_hash_rounds-enough (suc r) zero (x ∷ y ∷ xs) h k w = elim k [ ]
  merkle_tree_hash_rounds-enough (suc r) (suc s) (x ∷ y ∷ xs) h k w =
      let all = x ∷ y ∷ xs in
      let n = split (length all) in
      let sides = split_sides (length all) (omega arith) w in
      let front = length-take n all in
      let back = length-drop n all in
      ap₂ (node_hash sha256)
        (merkle_tree_hash_rounds-enough r s (take n all) (omega arith) (omega arith) (omega arith))
        (merkle_tree_hash_rounds-enough r s (drop n all) (omega arith) (omega arith) (omega arith))

  tree_hash_rounds :
      (r : ℕ) (leaves : List (List ℕ))
      → length leaves ≤ r
      → length leaves ≤ 2 ^ 64
      → merkle_tree_hash sha256 leaves ≡ merkle_tree_hash_rounds sha256 r leaves
  unfolding merkle_tree_hash
  tree_hash_rounds r leaves h w =
      merkle_tree_hash_rounds-enough (length leaves) r leaves (le_refl _) h w

  -- One step from the root, on either side.
  reconstruct_from_root-left :
      (leaf sibling l : List ℕ) (inner : List (List ℕ)) (index size : ℕ)
      → 2 ≤ size
      → index < split size
      → reconstruct_from_root sha256 leaf inner index (split size) ≡ some l
      → reconstruct_from_root sha256 leaf (sibling ∷ inner) index size
        ≡ some (node_hash sha256 l sibling)
  unfolding reconstruct_from_root
  reconstruct_from_root-left leaf sibling l inner index size two low e =
      rw (le→ltb size 2 two, lt→ltb index (split size) low)
        (ap (Option.map (λ x. node_hash sha256 x sibling)) e)

  reconstruct_from_root-right :
      (leaf sibling r : List ℕ) (inner : List (List ℕ)) (index size : ℕ)
      → 2 ≤ size
      → split size ≤ index
      → reconstruct_from_root sha256 leaf inner (index - split size) (size - split size) ≡ some r
      → reconstruct_from_root sha256 leaf (sibling ∷ inner) index size
        ≡ some (node_hash sha256 sibling r)
  unfolding reconstruct_from_root
  reconstruct_from_root-right leaf sibling r inner index size two high e =
      rw (le→ltb size 2 two, le→ltb index (split size) high)
        (ap (Option.map (node_hash sha256 sibling)) e)

  -- What the generator returns on either side of a tree of two leaves or more.
  generate-left :
      (rounds index : ℕ) (leaves : List (List ℕ))
      → 2 ≤ length leaves
      → index < split (length leaves)
      → generate_inclusion_proof_rounds sha256 (suc rounds) leaves index
        ≡ generate_inclusion_proof_rounds sha256 rounds (take (split (length leaves)) leaves) index
          ++ (merkle_tree_hash sha256 (drop (split (length leaves)) leaves) ∷ [])
  unfolding generate_inclusion_proof_rounds
  generate-left rounds index leaves two low = ground arith

  generate-right :
      (rounds index : ℕ) (leaves : List (List ℕ))
      → 2 ≤ length leaves
      → split (length leaves) ≤ index
      → generate_inclusion_proof_rounds sha256 (suc rounds) leaves index
        ≡ generate_inclusion_proof_rounds sha256 rounds
            (drop (split (length leaves)) leaves)
            (index - split (length leaves))
          ++ (merkle_tree_hash sha256 (take (split (length leaves)) leaves) ∷ [])
  unfolding generate_inclusion_proof_rounds
  generate-right rounds index leaves two high = ground arith

  root_split :
      (rounds : ℕ) (x y : List ℕ) (xs : List (List ℕ))
      → let all = x ∷ y ∷ xs in
        some (merkle_tree_hash_rounds sha256 (suc rounds) all)
        ≡ some (
            node_hash sha256
              (merkle_tree_hash_rounds sha256 rounds (take (split (length all)) all))
              (merkle_tree_hash_rounds sha256 rounds (drop (split (length all)) all)))
  unfolding merkle_tree_hash_rounds
  root_split rounds x y xs = refl

  reconstruct-generate :
      (rounds index : ℕ) (leaf : List ℕ) (leaves : List (List ℕ))
      → length leaves ≤ rounds
      → length leaves ≤ 2 ^ 64
      → get_elem? leaves index ≡ some leaf
      → reconstruct_from_root sha256 leaf
          (reverse (generate_inclusion_proof_rounds sha256 rounds leaves index))
          index
          (length leaves)
        ≡ some (merkle_tree_hash_rounds sha256 rounds leaves)
  reconstruct-generate rounds index leaf [] h w e = cc
  reconstruct-generate zero index leaf (x ∷ xs) h w e = elim h [ ]
  reconstruct-generate (suc rounds) zero leaf (x ∷ []) h w e =
      unfold reconstruct_from_root generate_inclusion_proof_rounds merkle_tree_hash_rounds in sym e
  reconstruct-generate (suc rounds) (suc index) leaf (x ∷ []) h w e = cc
  reconstruct-generate (suc rounds) index leaf (x ∷ y ∷ xs) h w e =
      let all = x ∷ y ∷ xs in
      let k = split (length all) in
      let sides = split_sides (length all) (omega arith) w in
      let front = take k all in
      let back = drop k all in
      let front_size : length front ≡ k = omega (arith, length-take k all) in
      let back_size : length back ≡ length all - k = omega (arith, length-drop k all) in
      let front_root = tree_hash_rounds rounds front (omega arith) (omega arith) in
      let back_root = tree_hash_rounds rounds back (omega arith) (omega arith) in
      let front_proof = generate_inclusion_proof_rounds sha256 rounds front index in
      let back_proof = generate_inclusion_proof_rounds sha256 rounds back (index - k) in
      elim (Bool-cases (ltb index k)) [
        | inl low ↦
            let ih =
              reconstruct-generate rounds index leaf front (omega arith) (omega arith)
                (get_elem?-take k index all (ltb→lt index k low) ∙ e) in
            ap (λ p. reconstruct_from_root sha256 leaf p index (length all))
              (ap reverse (generate-left rounds index all (omega arith) (ltb→lt index k low))
                ∙ reverse-append front_proof (merkle_tree_hash sha256 back ∷ []))
            ∙ reconstruct_from_root-left leaf (merkle_tree_hash sha256 back)
                (merkle_tree_hash_rounds sha256 rounds front) (reverse front_proof) index
                (length all) (omega arith) (ltb→lt index k low)
                (subst
                  (λ n.
                    reconstruct_from_root sha256 leaf (reverse front_proof) index n
                    ≡ some (merkle_tree_hash_rounds sha256 rounds front))
                  front_size ih)
            ∙ ap (λ b. some (node_hash sha256 (merkle_tree_hash_rounds sha256 rounds front) b))
                back_root
            ∙ sym (root_split rounds x y xs)
        | inr right ↦
            let high : k ≤ index = ground arith in
            let ih =
              reconstruct-generate rounds (index - k) leaf back (omega arith) (omega arith)
                (get_elem?-drop_sub k index all high ∙ e) in
            ap (λ p. reconstruct_from_root sha256 leaf p index (length all))
              (ap reverse (generate-right rounds index all (omega arith) high)
                ∙ reverse-append back_proof (merkle_tree_hash sha256 front ∷ []))
            ∙ reconstruct_from_root-right leaf (merkle_tree_hash sha256 front)
                (merkle_tree_hash_rounds sha256 rounds back) (reverse back_proof) index (length all)
                (omega arith) high
                (subst
                  (λ n.
                    reconstruct_from_root sha256 leaf (reverse back_proof) (index - k) n
                    ≡ some (merkle_tree_hash_rounds sha256 rounds back))
                  back_size ih)
            ∙ ap (λ b. some (node_hash sha256 b (merkle_tree_hash_rounds sha256 rounds back)))
                front_root
            ∙ sym (root_split rounds x y xs)
      ]

  -- A proof has at most one hash for each level.
  length-generate :
      (d rounds index : ℕ) (leaves : List (List ℕ))
      → length leaves ≤ 2 ^ d
      → d ≤ 64
      → index < length leaves
      → length (generate_inclusion_proof_rounds sha256 rounds leaves index) ≤ d
  length-generate d zero index leaves h w i = unfold generate_inclusion_proof_rounds in omega arith
  length-generate d (suc rounds) index [] h w i = elim i [ ]
  length-generate d (suc rounds) index (x ∷ []) h w i =
      unfold generate_inclusion_proof_rounds in omega arith
  length-generate zero (suc rounds) index (x ∷ y ∷ xs) h w i = absurd (omega arith)
  length-generate (suc d) (suc rounds) index (x ∷ y ∷ xs) h w i =
      let all = x ∷ y ∷ xs in
      let k = split (length all) in
      let (power, half, rest) = split_half d (length all) (omega arith) h w in
      let front_size = length-take k all in
      let back_size = length-drop k all in
      elim (Bool-cases (ltb index k)) [
        | inl low ↦ omega (
          arith,
          ap length (generate-left rounds index all (omega arith) (ltb→lt index k low)),
          length-append (generate_inclusion_proof_rounds sha256 rounds (take k all) index)
              (merkle_tree_hash sha256 (drop k all) ∷ []),
          length-generate d rounds index (take k all) (omega arith) (omega arith)
              (ground (arith, front_size)),
        )
        | inr right ↦
            let high : k ≤ index = ground arith in
            omega (
              arith,
              ap length (generate-right rounds index all (omega arith) high),
              length-append (generate_inclusion_proof_rounds sha256 rounds (drop k all) (index - k))
                  (merkle_tree_hash sha256 (take k all) ∷ []),
              length-generate d rounds (index - k) (drop k all) (omega arith) (omega arith)
                  (omega arith),
            )
      ]

  -- Over any tree of 1 to 2 ^ 64 leaves, the proof that is generated for the leaf at an index is
  -- accepted against the tree's size and root.
  pub verify_inclusion_inner-generate :
      (leaves : List (List ℕ)) (index : ℕ) (leaf : List ℕ)
      → length leaves ≤ 2 ^ 64
      → get_elem? leaves index ≡ some leaf
      → verify_inclusion_inner sha256 leaf
          (generate_inclusion_proof_inner sha256 leaves index)
          index
          (length leaves)
          (merkle_tree_hash sha256 leaves)
        ≡ true
  unfolding verify_inclusion_inner inclusion_reconstruct generate_inclusion_proof_inner
      merkle_tree_hash
  verify_inclusion_inner-generate leaves index leaf w e =
      let proof = generate_inclusion_proof_rounds sha256 (length leaves) leaves index in
      let root = merkle_tree_hash_rounds sha256 (length leaves) leaves in
      let inside = get_elem?-some_lt index leaves e in
      let short = length-generate 64 (length leaves) index leaves w (le_refl _) inside in
      let found = reconstruct-generate (length leaves) index leaf leaves (le_refl _) w e in
      ground (arith, bytes_eq_refl root, found)
