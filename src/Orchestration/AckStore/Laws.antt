-- ===== src/Orchestration/AckStore/Laws.antt =====
-- What a run of marks persists, and what a query answers after it.
use construct_core.Prelude.{
  ℕ, ◌+◌, if◌then◌else◌, Bool-cases, ◌≡◌, refl, sym, ap, ◌∙◌, inl, inr, Bool, true, false, ◌||◌,
  List, [], ◌∷◌, ◌++◌, arith, bytes_eq, bytes_eq→eq, contains,
}
use construct_core.Orchestration.AckStore.{
  AckStore, Action, in_cache, need_db_check, persist_ack, prune_ack_store, is_processed, with_cache,
  mark_processed, extend, restore_cache,
}

-- Marks in a row, each with its clock, and the actions that they ask for.
abbrev pub mark_all : List (ℕ × List ℕ) → AckStore → AckStore × List Action
mark_all [] s = (s, [])
mark_all ((now, id) ∷ marks) s =
    let first = mark_processed now id s in
    let rest = mark_all marks first.0 in (rest.0, first.1 ++ rest.1)

abbrev pub marked : List (ℕ × List ℕ) → List (List ℕ)
marked [] = []
marked ((now, id) ∷ marks) = id ∷ marked marks

-- How often an id is persisted.
abbrev pub persisted : List ℕ → List Action → ℕ
persisted id [] = 0
persisted id (persist_ack message_id timestamp ∷ actions) =
    (if bytes_eq message_id id then 1 else 0) + persisted id actions
persisted id (prune_ack_store cutoff_ts ∷ actions) = persisted id actions

or_same : (b : Bool) → (b || b) ≡ b
or_same true = refl
or_same false = refl

or_swap : (a b c : Bool) → ((a || b) || c) ≡ (b || (a || c))
or_swap true true c = refl
or_swap true false c = refl
or_swap false true c = refl
or_swap false false c = refl

contains-mark_processed :
    (now : ℕ) (id x : List ℕ) (s : AckStore)
    → contains (mark_processed now id s).0.cache x ≡ (bytes_eq id x || contains s.cache x)
unfolding mark_processed
contains-mark_processed now id x s = elim (Bool-cases (contains s.cache id)) [
  | inl e ↦ elim (Bool-cases (bytes_eq id x)) [
    | inl f ↦ let g = ap (contains s.cache) (sym (bytes_eq→eq id x f)) ∙ e in rw (e, f, g)
    | inr f ↦ rw (e, f)
  ]
  | inr e ↦ rw e
]

mode-mark_all :
    (marks : List (ℕ × List ℕ)) (s : AckStore)
    → (mark_all marks s).0.post_restart_mode ≡ s.post_restart_mode
unfolding mark_processed
mode-mark_all [] s = refl
mode-mark_all ((now, id) ∷ marks) s =
    mode-mark_all marks (mark_processed now id s).0
    ∙ elim (Bool-cases (contains s.cache id)) [ inl e ↦ rw e | inr e ↦ rw e ]

contains-mark_all :
    (marks : List (ℕ × List ℕ)) (s : AckStore) (x : List ℕ)
    → contains (mark_all marks s).0.cache x ≡ (contains s.cache x || contains (marked marks) x)
contains-mark_all [] s x = or_nothing (contains s.cache x)
  where
    or_nothing : (b : Bool) → b ≡ (b || false)
    or_nothing true = refl
    or_nothing false = refl
contains-mark_all ((now, id) ∷ marks) s x =
    contains-mark_all marks (mark_processed now id s).0 x
    ∙ ap (λ b. b || contains (marked marks) x) (contains-mark_processed now id x s)
    ∙ or_swap (bytes_eq id x) (contains s.cache x) (contains (marked marks) x)

contains-extend :
    (ids cache : List (List ℕ)) (x : List ℕ)
    → contains (extend ids cache) x ≡ (contains cache x || contains ids x)
unfolding extend
contains-extend [] cache x = or_nothing (contains cache x)
  where
    or_nothing : (b : Bool) → b ≡ (b || false)
    or_nothing true = refl
    or_nothing false = refl
contains-extend (id ∷ ids) cache x =
    contains-extend ids (if contains cache id then cache else id ∷ cache) x
    ∙ ap (λ b. b || contains ids x) (one id cache x)
    ∙ or_swap (bytes_eq id x) (contains cache x) (contains ids x)
  where
    one :
        (id : List ℕ) (cache : List (List ℕ)) (x : List ℕ)
        → contains (if contains cache id then cache else id ∷ cache) x
          ≡ (bytes_eq id x || contains cache x)
    one id cache x = elim (Bool-cases (contains cache id)) [
      | inl e ↦ elim (Bool-cases (bytes_eq id x)) [
        | inl f ↦ let g = ap (contains cache) (sym (bytes_eq→eq id x f)) ∙ e in rw (e, f, g)
        | inr f ↦ rw (e, f)
      ]
      | inr e ↦ rw e
    ]

-- However often and in whatever order messages are marked, an id is persisted once if it is marked
-- and was not in the cache before, and never otherwise.
pub persisted-mark_all :
    (marks : List (ℕ × List ℕ)) (s : AckStore) (x : List ℕ)
    → persisted x (mark_all marks s).1
      ≡ (if contains s.cache x then 0 else if contains (marked marks) x then 1 else 0)
unfolding mark_processed
persisted-mark_all [] s x = elim (Bool-cases (contains s.cache x)) [ inl e ↦ rw e | inr e ↦ rw e ]
persisted-mark_all ((now, id) ∷ marks) s x = elim (Bool-cases (contains s.cache id)) [
  | inl e ↦
      let rest = persisted-mark_all marks s x in
      elim (Bool-cases (bytes_eq id x)) [
        | inl f ↦
            let g = ap (contains s.cache) (sym (bytes_eq→eq id x f)) ∙ e in
            let zero_more : persisted x (mark_all marks s).1 ≡ 0 = rest ∙ rw g in
            rw (e, f, g) zero_more
        | inr f ↦ rw (e, f) rest
      ]
  | inr e ↦
      let rest = persisted-mark_all marks (with_cache s (id ∷ s.cache)) x in
      elim (Bool-cases (bytes_eq id x)) [
        | inl f ↦
            let g = ap (contains s.cache) (sym (bytes_eq→eq id x f)) ∙ e in
            let none_more : persisted x (mark_all marks (with_cache s (id ∷ s.cache))).1 ≡ 0 =
              rest ∙ rw f in
            rw (e, f, g) (omega (arith, none_more))
        | inr f ↦
            let as_before : persisted x (mark_all marks (with_cache s (id ∷ s.cache))).1
                ≡ (if contains s.cache x then 0 else if contains (marked marks) x then 1 else 0) =
              rest ∙ rw f in
            rw (e, f) (omega (arith, as_before))
      ]
]

-- After a restart that restored some ids, and any marks since, a query finds the ids that were
-- restored or marked and sends every other one to the database; it never answers that a message was
-- not processed.
pub is_processed-restore_cache :
    (restored : List (List ℕ)) (marks : List (ℕ × List ℕ)) (s : AckStore) (x : List ℕ)
    → is_processed (mark_all marks (restore_cache restored s)).0 x
      ≡ (if contains restored x || contains (marked marks) x then in_cache else need_db_check)
unfolding is_processed restore_cache
is_processed-restore_cache restored marks s x =
    let start = restore_cache restored s in
    let mode = mode-mark_all marks start in
    let known =
      contains-mark_all marks start x
      ∙ ap (λ b. b || contains (marked marks) x) (contains-extend restored [] x) in
    rw (mode, known)
