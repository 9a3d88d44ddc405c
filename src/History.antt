-- ===== src/History.antt =====
-- What the modules of src/history share (src/history/mod.rs): record types, the bound on a record,
-- and the reasons for which a snapshot is refused.
pub mod Wire
pub mod Order
pub mod Writer
pub mod MediaHead
pub mod Reader
pub mod Frames
pub mod Verify
pub mod Channel
use construct_core.Prelude.{ℕ, ◌*◌}

abbrev pub max_record_bytes : ℕ
max_record_bytes = 512 * 1024 * 1024

abbrev pub end_type : ℕ
end_type = 0

abbrev pub manifest_type : ℕ
manifest_type = 1

abbrev pub contact_type : ℕ
contact_type = 2

abbrev pub chat_type : ℕ
chat_type = 3

abbrev pub message_type : ℕ
message_type = 4

abbrev pub reaction_type : ℕ
reaction_type = 5

abbrev pub peer_device_type : ℕ
peer_device_type = 6

abbrev pub call_type : ℕ
call_type = 7

abbrev pub media_blob_type : ℕ
media_blob_type = 8

pub data HistoryFailure : Type 0 where
  malformed : HistoryFailure
  truncated : HistoryFailure
  unknown_version : HistoryFailure
  user_mismatch : HistoryFailure
  record_order : HistoryFailure
  envelope_manifest_mismatch : HistoryFailure
  v1_refused_for_history : HistoryFailure
  identity_mismatch : HistoryFailure
  kem_key_id_mismatch : HistoryFailure
  qr_pin_mismatch : HistoryFailure
  qr_pin_absent : HistoryFailure
  no_hybrid_key : HistoryFailure
  signature_invalid : HistoryFailure
  chunk_open_failed : HistoryFailure
  local_keys_unavailable : HistoryFailure
