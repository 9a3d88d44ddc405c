-- ===== src/History/Order.antt =====
-- The order of records in a CTH1 stream: `Rank`, `rank` and `Order::check` of src/history/cth1.rs,
-- which the reader and the writer share.
pub mod Laws
mod Examples
use construct_core.Prelude.{
  ℕ, ltb, ◌==◌, if◌then◌else◌, Bool, true, false, not, ◌||◌, Option, none, some, Result, ok, ◌>>=◌,
  ◌>>◌, fail_if,
}
use construct_core.History.{
  end_type, manifest_type, contact_type, chat_type, message_type, reaction_type, peer_device_type,
  call_type, media_blob_type, HistoryFailure, record_order,
}

pub data Rank : Type 0 where
  manifest_rank : Rank
  meta : Rank
  message_rank : Rank
  reaction_rank : Rank
  media_rank : Rank
  end_rank : Rank

-- The derived order of the ranks, by their places.
unfoldable pub place : Rank → ℕ
place manifest_rank = 0
place meta = 1
place message_rank = 2
place reaction_rank = 3
place media_rank = 4
place end_rank = 5

unfoldable pub rank : ℕ → Option Rank
rank ty =
    if ty == manifest_type
    then some manifest_rank
    else if ty == contact_type || ty == chat_type || ty == peer_device_type || ty == call_type
    then some meta
    else if ty == message_type
    then some message_rank
    else if ty == reaction_type
    then some reaction_rank
    else if ty == media_blob_type
    then some media_rank
    else if ty == end_type
    then some end_rank
    else none

-- The rank of the last record, and what the manifest said the stream carries: 1 transcript, 2
-- media, 3 both.
pub record Order : Type 0 where
  pub last : Option Rank
  pub phase : ℕ

abbrev pub default_order : Order
default_order = record { last = none; phase = 0 }

unfoldable pub allowed : ℕ → Rank → Bool
allowed phase manifest_rank = false
allowed phase meta = not (phase == 2)
allowed phase message_rank = not (phase == 2)
allowed phase reaction_rank = not (phase == 2)
allowed phase media_rank = not (phase == 1)
allowed phase end_rank = true

unfoldable pub is_manifest : Rank → Bool
is_manifest manifest_rank = true
is_manifest other = false

unfoldable pub check_first : Order → Rank → Result HistoryFailure Order
check_first o incoming = do
  fail_if (not (is_manifest incoming)) record_order
  ok (record o { last = some incoming })

unfoldable pub check_next : Order → Rank → Rank → Result HistoryFailure Order
check_next o last incoming = do
  fail_if (not (allowed o.phase incoming) || ltb (place incoming) (place last)) record_order
  ok (record o { last = some incoming })

unfoldable pub check_rank : Order → Option Rank → Rank → Result HistoryFailure Order
check_rank o none incoming = check_first o incoming
check_rank o (some last) incoming = check_next o last incoming

-- A type without a rank passes, and changes nothing.
unfoldable pub check : Order → ℕ → Result HistoryFailure Order
check o ty = elim (rank ty) [ none ↦ ok o | some incoming ↦ check_rank o o.last incoming ]
