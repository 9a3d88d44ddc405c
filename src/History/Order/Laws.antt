-- ===== src/History/Order/Laws.antt =====
-- Which streams the order of src/history/cth1.rs lets through, described without its state.
use construct_core.Prelude.{
  subst, ℕ, ◌≤◌, ◌<◌, ltb, ◌==◌, if◌then◌else◌, le→ltb, Bool-cases, Option-cases, ◌≡◌, refl, sym,
  ap, ◌∙◌, ◌≢◌, ◌↔◌, inl, inr, true, false, not, ◌||◌, Option, none, some, List, [], ◌∷◌, arith,
  All, Result, ok, ◌>>=◌, >>=-eq-ok, ok-injective, fail_if-ok,
}
use construct_core.History.{
  message_type, manifest_type, contact_type, chat_type, peer_device_type, call_type, reaction_type,
  media_blob_type, end_type, HistoryFailure, record_order,
}
use construct_core.History.Order.{
  Rank, manifest_rank, meta, message_rank, reaction_rank, media_rank, end_rank, place, rank, Order,
  default_order, allowed, is_manifest, check_first, check_next, check_rank, check,
}

-- The manifest's phase is known from the manifest on.
unfoldable pub announce : ℕ → ℕ → Order → Order
announce phase ty o = if ty == manifest_type then record o { phase = phase } else o

-- The records of a stream, checked one after the other.
unfoldable pub check_all : ℕ → Order → List ℕ → Result HistoryFailure Order
check_all phase o [] = ok o
check_all phase o (ty ∷ tys) = check o ty >>= λ o'. check_all phase (announce phase ty o') tys

unfoldable pub push_rank : Option Rank → List Rank → List Rank
push_rank none rs = rs
push_rank (some r) rs = r ∷ rs

unfoldable pub ranks : List ℕ → List Rank
ranks [] = []
ranks (ty ∷ tys) = push_rank (rank ty) (ranks tys)

-- What a stream of a phase may carry behind its manifest.
abbrev pub Fits : ℕ → Rank → Type 0
Fits phase manifest_rank = 0 < 0
Fits phase meta = phase ≢ 2
Fits phase message_rank = phase ≢ 2
Fits phase reaction_rank = phase ≢ 2
Fits phase media_rank = phase ≢ 1
Fits phase end_rank = Unit

abbrev pub Sorted : List Rank → Type 0
Sorted [] = Unit
Sorted (r ∷ rs) = All (λ q. place r ≤ place q) rs × Sorted rs

Fits-allowed : (phase : ℕ) (r : Rank) → allowed phase r ≡ true → Fits phase r
unfolding allowed
Fits-allowed phase manifest_rank h = cc
Fits-allowed phase meta h = ground arith
Fits-allowed phase message_rank h = ground arith
Fits-allowed phase reaction_rank h = ground arith
Fits-allowed phase media_rank h = ground arith
Fits-allowed phase end_rank h = tt

allowed-Fits : (phase : ℕ) (r : Rank) → Fits phase r → allowed phase r ≡ true
unfolding allowed
allowed-Fits phase manifest_rank h = absurd (omega arith)
allowed-Fits phase meta h = ground arith
allowed-Fits phase message_rank h = ground arith
allowed-Fits phase reaction_rank h = ground arith
allowed-Fits phase media_rank h = ground arith
allowed-Fits phase end_rank h = refl

-- A record behind a record of rank `l`.
check_next-ok :
    (o o' : Order) (l r : Rank)
    → check_next o l r ≡ ok o'
    → Fits o.phase r × (place l ≤ place r) × (o' ≡ record o { last = some r })
unfolding check_next
check_next-ok o o' l r h =
    let (e, k) =
      fail_if-ok (not (allowed o.phase r) || ltb (place r) (place l)) record_order _ o' h in
    let f : allowed o.phase r ≡ true = ground arith in
    let g : ltb (place r) (place l) ≡ false = ground arith in
    (Fits-allowed o.phase r f, ground arith, sym (ok-injective k))

check_next-Fits :
    (o : Order) (l r : Rank)
    → Fits o.phase r
    → place l ≤ place r
    → check_next o l r ≡ ok (record o { last = some r })
unfolding check_next
check_next-Fits o l r f h = rw (allowed-Fits o.phase r f, le→ltb (place r) (place l) h) refl

announce-kept :
    (phase ty : ℕ) (o : Order)
    → ((announce phase ty o).last ≡ o.last)
      × (o.phase ≡ phase → (announce phase ty o).phase ≡ phase)
unfolding announce
announce-kept phase ty o = elim (Bool-cases (ty == manifest_type)) [
  | inl e ↦ rw e (refl, λ h. refl)
  | inr e ↦ rw e (refl, λ h. h)
]

-- Behind a record of rank `l`: what passes fits the phase, and never goes back.
abbrev Onward : ℕ → Rank → List Rank → Type 0
Onward phase l rs = All (Fits phase) rs × All (λ q. place l ≤ place q) rs × Sorted rs

lower :
    (l r : Rank) (rs : List Rank)
    → place l ≤ place r
    → All (λ q. place r ≤ place q) rs
    → All (λ q. place l ≤ place q) rs
lower l r [] h k = tt
lower l r (q ∷ rs) h (a, k) = (omega arith, lower l r rs h k)

check-unranked : (o : Order) (ty : ℕ) → rank ty ≡ none → check o ty ≡ ok o
unfolding check
check-unranked o ty h = rw (h, check) refl

check-ranked :
    (o : Order) (ty : ℕ) (l : Option Rank) (r : Rank)
    → rank ty ≡ some r
    → o.last ≡ l
    → check o ty ≡ check_rank o l r
unfolding check
check-ranked o ty l r h at = rw (h, check) (ap (λ k. check_rank o k r) at)

check_all-Onward :
    (phase : ℕ) (tys : List ℕ) (o o' : Order) (l : Rank)
    → o.last ≡ some l
    → o.phase ≡ phase
    → check_all phase o tys ≡ ok o'
    → Onward phase l (ranks tys)
unfolding check_all ranks push_rank check_rank
check_all-Onward phase [] o o' l at now h = (tt, tt, tt)
check_all-Onward phase (ty ∷ tys) o o' l at now h =
    let (o1, e, k) = >>=-eq-ok (check o ty) _ h in
    let (kept_last, kept_phase) = announce-kept phase ty o1 in
    elim (Option-cases (rank ty)) [
      | inl none_here ↦
          let same = ok-injective (sym (check-unranked o ty none_here) ∙ e) in
          rw none_here (
            check_all-Onward phase tys (announce phase ty o1) o' l
              (kept_last ∙ sym (ap (λ (q : Order). q.last) same) ∙ at)
              (kept_phase (sym (ap (λ (q : Order). q.phase) same) ∙ now)) k)
      | inr (r, some_here) ↦
          let next = sym (check-ranked o ty (some l) r some_here at) ∙ e in
          let (f, g, same) = check_next-ok o o1 l r next in
          let (fits, later, sorted) =
            check_all-Onward phase tys (announce phase ty o1) o' r
              (kept_last ∙ ap (λ (q : Order). q.last) same)
              (kept_phase (ap (λ (q : Order). q.phase) same ∙ now)) k in
          rw some_here
            ((subst (λ p. Fits p r) now f, fits), (g, lower l r _ g later), (later, sorted))
    ]

Onward-check_all :
    (phase : ℕ) (tys : List ℕ) (o : Order) (l : Rank)
    → o.last ≡ some l
    → o.phase ≡ phase
    → Onward phase l (ranks tys)
    → (o' : Order) × (check_all phase o tys ≡ ok o')
unfolding check_all ranks push_rank check_rank
Onward-check_all phase [] o l at now h = (o, refl)
Onward-check_all phase (ty ∷ tys) o l at now h = elim (Option-cases (rank ty)) [
  | inl none_here ↦
      let (kept_last, kept_phase) = announce-kept phase ty o in
      let (o', e) =
        Onward-check_all phase tys (announce phase ty o) l (kept_last ∙ at) (kept_phase now)
          (subst (λ k. Onward phase l (push_rank k (ranks tys))) none_here h) in
      (o', rw (check-unranked o ty none_here) e)
  | inr (r, some_here) ↦
      let ((f, fits), (g, _), (later, sorted)) =
        subst (λ k. Onward phase l (push_rank k (ranks tys))) some_here h in
      let o1 : Order = record o { last = some r } in
      let (kept_last, kept_phase) = announce-kept phase ty o1 in
      let next =
        check-ranked o ty (some l) r some_here at
        ∙ check_next-Fits o l r (subst (λ p. Fits p r) (sym now) f) g in
      let (o', e) =
        Onward-check_all phase tys (announce phase ty o1) r kept_last (kept_phase now)
          (fits, later, sorted) in
      (o', rw next e)
]

-- A stream in order: nothing ranked, or one manifest, first; then only records that its phase
-- carries, and never one of a rank below an earlier one's.
abbrev pub InOrder : ℕ → List Rank → Type 0
InOrder phase [] = Unit
InOrder phase (r ∷ rs) = (r ≡ manifest_rank) × All (Fits phase) rs × Sorted rs

above_manifest : (rs : List Rank) → All (λ q. place manifest_rank ≤ place q) rs
unfolding place
above_manifest [] = tt
above_manifest (r ∷ rs) = (omega arith, above_manifest rs)

is_manifest-eq : (r : Rank) → is_manifest r ≡ true → r ≡ manifest_rank
unfolding is_manifest
is_manifest-eq manifest_rank h = refl
is_manifest-eq meta h = cc
is_manifest-eq message_rank h = cc
is_manifest-eq reaction_rank h = cc
is_manifest-eq media_rank h = cc
is_manifest-eq end_rank h = cc

rank-manifest : (ty : ℕ) → rank ty ≡ some manifest_rank → (ty == manifest_type) ≡ true
unfolding rank
rank-manifest ty h = elim (Bool-cases (ty == manifest_type)) [
  | inl e ↦ e
  | inr e ↦
      elim (Bool-cases
        (ty == contact_type || ty == chat_type || ty == peer_device_type || ty == call_type)) [
          | inl f ↦ let k = rw (e, f) at h in cc
          | inr f ↦ elim (Bool-cases (ty == message_type)) [
            | inl g ↦ let k = rw (e, f, g) at h in cc
            | inr g ↦ elim (Bool-cases (ty == reaction_type)) [
              | inl i ↦ let k = rw (e, f, g, i) at h in cc
              | inr i ↦ elim (Bool-cases (ty == media_blob_type)) [
                | inl j ↦ let k = rw (e, f, g, i, j) at h in cc
                | inr j ↦ elim (Bool-cases (ty == end_type)) [
                  | inl k ↦ let l = rw (e, f, g, i, j, k) at h in cc
                  | inr k ↦ let l = rw (e, f, g, i, j, k) at h in cc
                ]
              ]
            ]
          ]
        ]
]

announced :
    (phase ty : ℕ) (o : Order) → rank ty ≡ some manifest_rank → (announce phase ty o).phase ≡ phase
unfolding announce
announced phase ty o h = rw (rank-manifest ty h) refl

-- The first ranked record.
check_all-InOrder :
    (phase : ℕ) (tys : List ℕ) (o o' : Order)
    → o.last ≡ none
    → check_all phase o tys ≡ ok o'
    → InOrder phase (ranks tys)
unfolding check_all ranks push_rank check_rank check_first
check_all-InOrder phase [] o o' at h = tt
check_all-InOrder phase (ty ∷ tys) o o' at h =
    let (o1, e, k) = >>=-eq-ok (check o ty) _ h in
    let (kept_last, _) = announce-kept phase ty o1 in
    elim (Option-cases (rank ty)) [
      | inl none_here ↦
          let same = ok-injective (sym (check-unranked o ty none_here) ∙ e) in
          rw none_here (
            check_all-InOrder phase tys (announce phase ty o1) o'
              (kept_last ∙ sym (ap (λ (q : Order). q.last) same) ∙ at) k)
      | inr (r, some_here) ↦
          let next = sym (check-ranked o ty none r some_here at) ∙ e in
          let (f, g) = fail_if-ok (not (is_manifest r)) record_order _ o1 next in
          let first : is_manifest r ≡ true = ground arith in
          let it = is_manifest-eq r first in
          let same = ok-injective g in
          let (fits, later, sorted) =
            check_all-Onward phase tys (announce phase ty o1) o' r
              (kept_last ∙ sym (ap (λ (q : Order). q.last) same))
              (announced phase ty o1 (some_here ∙ ap (λ q. some q) it)) k in
          rw some_here (it, fits, sorted)
    ]

InOrder-check_all :
    (phase : ℕ) (tys : List ℕ) (o : Order)
    → o.last ≡ none
    → InOrder phase (ranks tys)
    → (o' : Order) × (check_all phase o tys ≡ ok o')
unfolding check_all ranks push_rank check_rank check_first is_manifest
InOrder-check_all phase [] o at h = (o, refl)
InOrder-check_all phase (ty ∷ tys) o at h = elim (Option-cases (rank ty)) [
  | inl none_here ↦
      let (kept_last, _) = announce-kept phase ty o in
      let (o', e) =
        InOrder-check_all phase tys (announce phase ty o) (kept_last ∙ at)
          (subst (λ k. InOrder phase (push_rank k (ranks tys))) none_here h) in
      (o', rw (check-unranked o ty none_here) e)
  | inr (r, some_here) ↦
      let (it, fits, sorted) = subst (λ k. InOrder phase (push_rank k (ranks tys))) some_here h in
      let o1 : Order = record o { last = some manifest_rank } in
      let (kept_last, _) = announce-kept phase ty o1 in
      let rank_here = some_here ∙ ap (λ q. some q) it in
      let next : check o ty ≡ ok o1 = check-ranked o ty none manifest_rank rank_here at in
      let (o', e) =
        Onward-check_all phase tys (announce phase ty o1) manifest_rank kept_last
          (announced phase ty o1 rank_here) (fits, above_manifest _, sorted) in
      (o', rw next e)
]

-- The check lets exactly the streams in order through: of a stream whose manifest announces a
-- phase, every record passes the check if and only if its ranked records are in order.
pub check_all_iff :
    (phase : ℕ) (tys : List ℕ)
    → ((o' : Order) × (check_all phase default_order tys ≡ ok o')) ↔ InOrder phase (ranks tys)
check_all_iff phase tys = (
  λ (o', e). check_all-InOrder phase tys default_order o' refl e,
  λ h. InOrder-check_all phase tys default_order refl h,
)
