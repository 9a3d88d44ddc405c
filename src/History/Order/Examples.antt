-- ===== src/History/Order/Examples.antt =====
-- The order of records of src/history/cth1.rs at concrete streams.
use construct_core.Prelude.{◌≡◌, refl, ◌↔◌, [], ◌∷◌, ok, err}
use construct_core.History.{record_order}
use construct_core.History.Order.{
  Order, default_order, check, rank, check_rank, check_first, check_next, allowed, place,
  is_manifest,
}
use construct_core.History.Order.Laws.{announce, check_all, ranks, InOrder, check_all_iff}

check_all_iff_example :
    ((o' : Order) × (check_all 1 default_order (1 ∷ 2 ∷ 9 ∷ 4 ∷ 0 ∷ []) ≡ ok o'))
    ↔ InOrder 1 (ranks (1 ∷ 2 ∷ 9 ∷ 4 ∷ 0 ∷ []))
check_all_iff_example = check_all_iff 1 (1 ∷ 2 ∷ 9 ∷ 4 ∷ 0 ∷ [])

-- A contact behind a message, and media in a transcript.
goes_back : check_all 3 default_order (1 ∷ 4 ∷ 2 ∷ []) ≡ err record_order
unfolding check_all announce check rank check_rank check_first check_next allowed place is_manifest
goes_back = refl

media_in_transcript : check_all 1 default_order (1 ∷ 8 ∷ []) ≡ err record_order
unfolding check_all announce check rank check_rank check_first check_next allowed place is_manifest
media_in_transcript = refl
