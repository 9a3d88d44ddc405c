-- ===== src/KeyTransparency/Soundness.antt =====
-- What an accepted inclusion proof shows: the leaf is in the tree, or SHA-256 has a collision.
use construct_core.Prelude.{
  subst, ℕ_discrete, ℕ, zero, suc, ◌≤◌, ◌<◌, ◌-◌, ◌^◌, ltb, ltb→lt, Bool-cases, Option-cases, ◌≡◌,
  refl, sym, ap, ap₂, ◌∙◌, ◌≢◌, ◌⊎◌, inl, inr, true, some, List, [], ◌∷◌, ◌++◌, arith, length,
  get_elem?, take, drop, All, length-take, length-drop, get_elem?-take, get_elem?-drop_sub,
  Option_map-eq_some, All-append, All-drop, All-take, bytes_eq→eq,
}
use mathlib.Core.List.{reverse, reverse-cons}
use native.Mathlib.Nat.{le_refl}
use construct_core.KeyTransparency.{
  split, node_hash, merkle_tree_hash_rounds, merkle_tree_hash, reconstruct_from_root,
  inclusion_reconstruct, verify_inclusion_inner,
}
use construct_core.KeyTransparency.Split.{split_sides}

abbrev pub IsHash : List ℕ → Type 0
IsHash h = length h ≡ 32

All-reverse : (xs : List (List ℕ)) → All IsHash xs → All IsHash (reverse xs)
All-reverse [] h = tt
All-reverse (x ∷ xs) (p, h) =
    subst (All IsHash) (sym (reverse-cons x xs))
      (All-append IsHash (reverse xs) (x ∷ []) (All-reverse xs h) (p, tt))

-- Equal joins of pieces of equal length have equal pieces.
append_cancel : (a b c d : List ℕ) → length a ≡ length c → a ++ b ≡ c ++ d → (a ≡ c) × (b ≡ d)
append_cancel [] b [] d h e = (refl, e)
append_cancel [] b (z ∷ c) d h e = absurd (omega arith)
append_cancel (x ∷ a) b [] d h e = absurd (omega arith)
append_cancel (x ∷ a) b (z ∷ c) d h e =
    let (p, q) = append_cancel a b c d (omega arith) (ap (drop 1) e) in
    (ap₂ ◌∷◌ (ground arith) p, q)

List-discrete : Discrete (List ℕ)
List-discrete = hlevel ℕ_discrete

module _ (sha256 : List ℕ → List ℕ) where
  -- Two inputs that hash alike.
  abbrev pub Collision : Type 0
  Collision = (x y : List ℕ) × (x ≢ y) × (sha256 x ≡ sha256 y)

  -- Equal nodes have equal children, or their inputs collide.
  node_hash-eq :
      (a b c d : List ℕ)
      → length a ≡ length c
      → node_hash sha256 a b ≡ node_hash sha256 c d
      → ((a ≡ c) × (b ≡ d)) ⊎ Collision
  node_hash-eq a b c d h e = elim (List-discrete (0x01 ∷ (a ++ b)) (0x01 ∷ (c ++ d))) [
    | yes same ↦ inl (append_cancel a b c d h (ap (drop 1) same))
    | no differ ↦ inr (0x01 ∷ (a ++ b), 0x01 ∷ (c ++ d), differ, e)
  ]

  -- Both sides of a successful step from the root.
  reconstruct_from_root-cons :
      (leaf sibling found : List ℕ) (inner : List (List ℕ)) (index size : ℕ)
      → reconstruct_from_root sha256 leaf (sibling ∷ inner) index size ≡ some found
      → (2 ≤ size)
        × (((index < split size)
              × ((l : List ℕ) × (reconstruct_from_root sha256 leaf inner index (split size)
                    ≡ some l)
                  × (found ≡ node_hash sha256 l sibling)))
            ⊎ ((split size ≤ index)
                × ((r : List ℕ) × (reconstruct_from_root sha256 leaf inner
                        (index - split size)
                        (size - split size)
                      ≡ some r)
                    × (found ≡ node_hash sha256 sibling r))))
  unfolding reconstruct_from_root
  reconstruct_from_root-cons leaf sibling found inner index size h =
      let k = split size in
      elim (Bool-cases (ltb size 2)) [
        | inl small ↦ let bad = rw (small, reconstruct_from_root) at h in cc
        | inr big ↦ elim (Bool-cases (ltb index k)) [
          | inl left ↦
              let e = rw (big, left, reconstruct_from_root) at h in
              let (l, found_l, same) =
                Option_map-eq_some (λ l. node_hash sha256 l sibling)
                  (reconstruct_from_root sha256 leaf inner index k) e in
              (ground arith, inl (ltb→lt index k left, (l, found_l, same)))
          | inr right ↦
              let e = rw (big, right, reconstruct_from_root) at h in
              let (r, found_r, same) =
                Option_map-eq_some (node_hash sha256 sibling)
                  (reconstruct_from_root sha256 leaf inner (index - k) (size - k)) e in
              (ground arith, inr (ground arith, (r, found_r, same)))
        ]
      ]

  reconstruct_from_root-nil :
      (leaf found : List ℕ) (index size : ℕ)
      → reconstruct_from_root sha256 leaf [] index size ≡ some found
      → (size ≡ 1) × (index ≡ 0) × (found ≡ leaf)
  unfolding reconstruct_from_root
  reconstruct_from_root-nil leaf found index size h = ground arith

  accepted :
      (leaf : List ℕ) (proof : List (List ℕ)) (index size : ℕ) (root : List ℕ)
      → verify_inclusion_inner sha256 leaf proof index size root ≡ true
      → reconstruct_from_root sha256 leaf (reverse proof) index size ≡ some root
  unfolding verify_inclusion_inner inclusion_reconstruct
  accepted leaf proof index size root h =
      elim (Option-cases (reconstruct_from_root sha256 leaf (reverse proof) index size)) [
        | inl e ↦ absurd (ground (arith, e))
        | inr (found, e) ↦ e ∙ ap some (bytes_eq→eq found root (ground (arith, e)))
      ]

  module _ (sized : (x : List ℕ) → IsHash (sha256 x)) where
    reconstruct_from_root-IsHash :
        (leaf found : List ℕ) (proof : List (List ℕ)) (index size : ℕ)
        → IsHash leaf
        → reconstruct_from_root sha256 leaf proof index size ≡ some found
        → IsHash found
    reconstruct_from_root-IsHash leaf found [] index size h e =
        ap length (reconstruct_from_root-nil leaf found index size e).2 ∙ h
    reconstruct_from_root-IsHash leaf found (sibling ∷ inner) index size h e =
        elim (reconstruct_from_root-cons leaf sibling found inner index size e).1 [
          | inl (_, (l, _, same)) ↦ ap length same ∙ sized (1 ∷ (l ++ sibling))
          | inr (_, (r, _, same)) ↦ ap length same ∙ sized (1 ∷ (sibling ++ r))
        ]

    merkle_tree_hash_rounds-IsHash :
        (rounds : ℕ) (leaves : List (List ℕ))
        → All IsHash leaves
        → IsHash (merkle_tree_hash_rounds sha256 rounds leaves)
    unfolding merkle_tree_hash_rounds
    merkle_tree_hash_rounds-IsHash rounds [] h = sized _
    merkle_tree_hash_rounds-IsHash rounds (leaf ∷ []) h = h.0
    merkle_tree_hash_rounds-IsHash zero (leaf ∷ next ∷ leaves) h = sized _
    merkle_tree_hash_rounds-IsHash (suc rounds) (leaf ∷ next ∷ leaves) h = sized _

    -- An accepted reconstruction, from the root down.
    reconstruct_from_root_sound :
        (rounds size index : ℕ) (leaf : List ℕ) (proof leaves : List (List ℕ))
        → length leaves ≤ rounds
        → size ≡ length leaves
        → size ≤ 2 ^ 64
        → IsHash leaf
        → All IsHash leaves
        → All IsHash proof
        → reconstruct_from_root sha256 leaf proof index size
          ≡ some (merkle_tree_hash_rounds sha256 rounds leaves)
        → (get_elem? leaves index ≡ some leaf) ⊎ Collision
    unfolding merkle_tree_hash_rounds
    reconstruct_from_root_sound rounds size index leaf [] [] r z w hl hs hp e =
        absurd (omega (arith, (reconstruct_from_root-nil leaf _ index size e).0))
    reconstruct_from_root_sound rounds size index leaf [] (x ∷ []) r z w hl hs hp e =
        let (_, first, same) = reconstruct_from_root-nil leaf _ index size e in
        inl (ap (get_elem? (x ∷ [])) first ∙ ap some same)
    reconstruct_from_root_sound rounds size index leaf [] (x ∷ y ∷ xs) r z w hl hs hp e =
        absurd (omega (arith, (reconstruct_from_root-nil leaf _ index size e).0))
    reconstruct_from_root_sound rounds size index leaf (p ∷ ps) [] r z w hl hs hp e =
        absurd (omega (arith, (reconstruct_from_root-cons leaf p _ ps index size e).0))
    reconstruct_from_root_sound rounds size index leaf (p ∷ ps) (x ∷ []) r z w hl hs hp e =
        absurd (omega (arith, (reconstruct_from_root-cons leaf p _ ps index size e).0))
    reconstruct_from_root_sound zero size index leaf (p ∷ ps) (x ∷ y ∷ xs) r z w hl hs hp e =
        elim r [ ]
    reconstruct_from_root_sound (suc rounds) size index leaf (p ∷ ps) (x ∷ y ∷ xs) r z w hl hs
          (hp, hps) e =
        let all = x ∷ y ∷ xs in
        let k = split size in
        let (two, sides) = reconstruct_from_root-cons leaf p _ ps index size e in
        let (pos, below) = split_sides size two w in
        let front = take k all in
        let back = drop k all in
        let front_size : k ≡ length front = omega (arith, length-take k all) in
        let back_size : size - k ≡ length back = omega (arith, length-drop k all) in
        let root_eq : merkle_tree_hash_rounds sha256 (suc rounds) all
            ≡ node_hash sha256 (merkle_tree_hash_rounds sha256 rounds front)
                (merkle_tree_hash_rounds sha256 rounds back) =
          ap
            (λ n.
              node_hash sha256 (merkle_tree_hash_rounds sha256 rounds (take (split n) all))
                (merkle_tree_hash_rounds sha256 rounds (drop (split n) all)))
            (sym z) in
        let front_root = merkle_tree_hash_rounds sha256 rounds front in
        let back_root = merkle_tree_hash_rounds sha256 rounds back in
        let front_hash = merkle_tree_hash_rounds-IsHash rounds front (All-take IsHash k all hs) in
        elim sides [
          | inl (low, (l, el, same)) ↦
              elim (node_hash-eq l p front_root back_root
                (reconstruct_from_root-IsHash leaf l ps index k hl el ∙ sym front_hash)
                (sym same ∙ root_eq)) [
                  | inl (at_front, _) ↦
                      elim (reconstruct_from_root_sound rounds k index leaf ps front (omega arith)
                        front_size (omega arith) hl (All-take IsHash k all hs) hps
                        (el ∙ ap some at_front)) [
                          | inl held ↦ inl (sym (get_elem?-take k index all low) ∙ held)
                          | inr collision ↦ inr collision
                        ]
                  | inr collision ↦ inr collision
                ]
          | inr (high, (q, eq, same)) ↦
              elim (node_hash-eq p q front_root back_root (hp ∙ sym front_hash)
                (sym same ∙ root_eq)) [
                  | inl (_, at_back) ↦
                      elim (reconstruct_from_root_sound rounds (size - k) (index - k) leaf ps back
                        (omega arith) back_size (omega arith) hl (All-drop IsHash k all hs) hps
                        (eq ∙ ap some at_back)) [
                          | inl held ↦ inl (sym (get_elem?-drop_sub k index all high) ∙ held)
                          | inr collision ↦ inr collision
                        ]
                  | inr collision ↦ inr collision
                ]
        ]

    -- Let SHA-256 give 32 bytes on every input. If `verify_inclusion_inner` accepts a proof of the
    -- leaf at `index` against the size and the root of a tree of at most 2 ^ 64 leaves, all hashes
    -- of 32 bytes, then the tree holds that leaf at `index`, or two different inputs of SHA-256
    -- that hash alike are found.
    pub verify_inclusion_inner_sound :
        (leaf : List ℕ) (proof leaves : List (List ℕ)) (index : ℕ)
        → length leaves ≤ 2 ^ 64
        → IsHash leaf
        → All IsHash leaves
        → All IsHash proof
        → verify_inclusion_inner sha256 leaf proof index
            (length leaves)
            (merkle_tree_hash sha256 leaves)
          ≡ true
        → (get_elem? leaves index ≡ some leaf) ⊎ Collision
    unfolding merkle_tree_hash
    verify_inclusion_inner_sound leaf proof leaves index w hl hs hp h =
        reconstruct_from_root_sound (length leaves) (length leaves) index leaf (reverse proof)
          leaves (le_refl _) refl w hl hs (All-reverse proof hp)
          (accepted leaf proof index (length leaves) (merkle_tree_hash sha256 leaves) h)
