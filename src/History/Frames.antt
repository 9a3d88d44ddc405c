-- ===== src/History/Frames.antt =====
-- The handshake frames of src/history/frames.rs: the CTT1 prefix and opening, the reply and the
-- header of a file, parsed, printed and laid out for signing.
pub mod RoundTrip
mod Examples
use construct_core.Prelude.{
  ℕ, ◌*◌, ltb, leb, ◌==◌, if◌then◌else◌, Bool, true, false, not, ◌&&◌, ◌||◌, List, [], ◌∷◌, ◌++◌,
  length, get_or, take, to_le_bytes, from_le_bytes, slice, Result, ok, err, ◌>>=◌, ◌>>◌, bytes_eq,
  fail_if,
}
use construct_core.History.{HistoryFailure, malformed, v1_refused_for_history}

abbrev pub prefix_len : ℕ
prefix_len = 46

abbrev pub hybrid_public : ℕ
hybrid_public = 1984

abbrev pub kem_ct_len : ℕ
kem_ct_len = 1568

abbrev pub hybrid_signature : ℕ
hybrid_signature = 3373

abbrev pub opening_len : ℕ
opening_len = 7055

abbrev pub reply_len : ℕ
reply_len = 5421

abbrev pub cthf_header_len : ℕ
cthf_header_len = 7062

abbrev pub ctt1_magic : List ℕ
ctt1_magic = 67 ∷ 84 ∷ 84 ∷ 49 ∷ []

abbrev pub cthf_magic : List ℕ
cthf_magic = 67 ∷ 84 ∷ 72 ∷ 70 ∷ []

abbrev pub ctt1_v1 : ℕ
ctt1_v1 = 1

abbrev pub ctt1_v2 : ℕ
ctt1_v2 = 2

abbrev pub cthf_v1 : ℕ
cthf_v1 = 1

abbrev pub max_payload_len : ℕ
max_payload_len = 2 * 1024 * 1024 * 1024

-- "ctt1v2-s", "ctt1v2-r" and "cthf1".
abbrev pub sender_tag : List ℕ
sender_tag = 99 ∷ 116 ∷ 116 ∷ 49 ∷ 118 ∷ 50 ∷ 45 ∷ 115 ∷ []

abbrev pub receiver_tag : List ℕ
receiver_tag = 99 ∷ 116 ∷ 116 ∷ 49 ∷ 118 ∷ 50 ∷ 45 ∷ 114 ∷ []

abbrev pub file_tag : List ℕ
file_tag = 99 ∷ 116 ∷ 104 ∷ 102 ∷ 49 ∷ []

abbrev pub backup : ℕ
backup = 1

abbrev pub history : ℕ
history = 2

abbrev pub history_skipped : ℕ
history_skipped = 3

pub record Prefix : Type 0 where
  pub version : ℕ
  pub sender_eph : List ℕ
  pub transfer_type : ℕ
  pub payload_len : ℕ

unfoldable pub prefix_fields : List ℕ → Prefix
prefix_fields bytes = record {
  version = get_or bytes 4 0;
  sender_eph = slice bytes 5 37;
  transfer_type = get_or bytes 37 0;
  payload_len = from_le_bytes (slice bytes 38 46);
}

unfoldable pub parse_prefix : List ℕ → Result HistoryFailure Prefix
parse_prefix bytes =
    let p = prefix_fields bytes in
    fail_if (not (length bytes == prefix_len) || not (bytes_eq (take 4 bytes) ctt1_magic)) malformed
    >> (fail_if (not (p.version == ctt1_v1) && not (p.version == ctt1_v2)) malformed
        >> (fail_if (not (leb backup p.transfer_type && leb p.transfer_type history_skipped))
              malformed
            >> (fail_if (ltb max_payload_len p.payload_len) malformed >> ok p)))

-- `Prefix::history`: history on version 1 is refused, and a backup is not history.
unfoldable pub check_history : Prefix → Result HistoryFailure (Unit {0})
check_history p =
    if p.transfer_type == backup
    then err malformed
    else if p.version == ctt1_v1
    then err v1_refused_for_history
    else ok tt

pub record Opening : Type 0 where
  pub sender_eph : List ℕ
  pub skipped : Bool
  pub payload_len : ℕ
  pub sender_identity : List ℕ
  pub sender_hybrid : List ℕ
  pub snapshot_id : List ℕ
  pub sender_device_id : List ℕ
  pub receiver_device_id : List ℕ
  pub receiver_kyber_key_id : ℕ
  pub kem_ct : List ℕ
  pub signature : List ℕ

unfoldable pub all_zero : List ℕ → Bool
all_zero [] = true
all_zero (b ∷ bs) = b == 0 && all_zero bs

unfoldable pub same : Bool → Bool → Bool
same true b = b
same false b = not b

-- A history opening carries a ciphertext, a skip carries none.
unfoldable pub check_kem_shape : Opening → Result HistoryFailure (Unit {0})
check_kem_shape o = fail_if (not (same o.skipped (all_zero o.kem_ct))) malformed

-- The fields behind the prefix, cut at fixed places.
unfoldable pub opening_fields : List ℕ → Prefix → Opening
opening_fields bytes p = record {
  sender_eph = p.sender_eph;
  skipped = p.transfer_type == history_skipped;
  payload_len = p.payload_len;
  sender_identity = slice bytes 46 78;
  sender_hybrid = slice bytes 78 2062;
  snapshot_id = slice bytes 2062 2078;
  sender_device_id = slice bytes 2078 2094;
  receiver_device_id = slice bytes 2094 2110;
  receiver_kyber_key_id = from_le_bytes (slice bytes 2110 2114);
  kem_ct = slice bytes 2114 3682;
  signature = slice bytes 3682 7055;
}

unfoldable pub parse_opening : List ℕ → Result HistoryFailure Opening
parse_opening bytes = do
  fail_if (not (length bytes == opening_len)) malformed
  p ← parse_prefix (take prefix_len bytes)
  fail_if (not (p.version == ctt1_v2) || p.transfer_type == backup) malformed
  check_kem_shape (opening_fields bytes p)
  ok (opening_fields bytes p)

unfoldable pub opening_type : Opening → ℕ
opening_type o = if o.skipped then history_skipped else history

-- The tagged transcript that the sender signs.
unfoldable pub opening_message : Opening → List ℕ
opening_message o =
    sender_tag
    ++ (o.sender_eph
        ++ (o.sender_identity
            ++ (o.sender_hybrid
                ++ (o.snapshot_id
                    ++ (o.sender_device_id
                        ++ (o.receiver_device_id
                            ++ (to_le_bytes 4 o.receiver_kyber_key_id
                                ++ (o.kem_ct ++ opening_type o ∷ to_le_bytes 8 o.payload_len))))))))

unfoldable pub prefix_bytes : List ℕ → ℕ → ℕ → List ℕ
prefix_bytes sender_eph transfer_type payload_len =
    ctt1_magic ++ (ctt1_v2 ∷ (sender_eph ++ transfer_type ∷ to_le_bytes 8 payload_len))

unfoldable pub opening_bytes : Opening → List ℕ
opening_bytes o =
    prefix_bytes o.sender_eph (opening_type o) o.payload_len
    ++ (o.sender_identity
        ++ (o.sender_hybrid
            ++ (o.snapshot_id
                ++ (o.sender_device_id
                    ++ (o.receiver_device_id
                        ++ (to_le_bytes 4 o.receiver_kyber_key_id ++ (o.kem_ct ++ o.signature)))))))

unfoldable pub opening_to_bytes : Opening → Result HistoryFailure (List ℕ)
opening_to_bytes o = do
  fail_if
      (not (length o.sender_hybrid == hybrid_public)
        || not (length o.kem_ct == kem_ct_len)
        || not (length o.signature == hybrid_signature)
        || ltb max_payload_len o.payload_len)
      malformed
  check_kem_shape o
  ok (opening_bytes o)

pub record Reply : Type 0 where
  pub receiver_eph : List ℕ
  pub receiver_identity : List ℕ
  pub receiver_hybrid : List ℕ
  pub signature : List ℕ

unfoldable pub reply_fields : List ℕ → Reply
reply_fields bytes = record {
  receiver_eph = slice bytes 0 32;
  receiver_identity = slice bytes 32 64;
  receiver_hybrid = slice bytes 64 2048;
  signature = slice bytes 2048 5421;
}

unfoldable pub parse_reply : List ℕ → Result HistoryFailure Reply
parse_reply bytes = fail_if (not (length bytes == reply_len)) malformed >> ok (reply_fields bytes)

-- The tagged transcript that the receiver signs, which echoes the opening.
unfoldable pub reply_message : Reply → Opening → List ℕ
reply_message r o =
    receiver_tag
    ++ (r.receiver_eph
        ++ (o.sender_eph
            ++ (r.receiver_identity
                ++ (r.receiver_hybrid
                    ++ (o.snapshot_id
                        ++ (o.sender_device_id ++ (o.receiver_device_id ++ o.kem_ct)))))))

unfoldable pub reply_to_bytes : Reply → Result HistoryFailure (List ℕ)
reply_to_bytes r =
    fail_if
      (not (length r.receiver_hybrid == hybrid_public)
        || not (length r.signature == hybrid_signature))
      malformed
    >> ok (r.receiver_eph ++ (r.receiver_identity ++ (r.receiver_hybrid ++ r.signature)))

pub record CthfHeader : Type 0 where
  pub user_id : List ℕ
  pub recipient_device_id : List ℕ
  pub source_device_id : List ℕ
  pub snapshot_id : List ℕ
  pub sender_eph : List ℕ
  pub sender_identity : List ℕ
  pub sender_hybrid : List ℕ
  pub recipient_kyber_key_id : ℕ
  pub kem_ct : List ℕ
  pub signature : List ℕ

unfoldable pub cthf_cut : List ℕ → CthfHeader
cthf_cut bytes = record {
  user_id = slice bytes 5 21;
  recipient_device_id = slice bytes 21 37;
  source_device_id = slice bytes 37 53;
  snapshot_id = slice bytes 53 69;
  sender_eph = slice bytes 69 101;
  sender_identity = slice bytes 101 133;
  sender_hybrid = slice bytes 133 2117;
  recipient_kyber_key_id = from_le_bytes (slice bytes 2117 2121);
  kem_ct = slice bytes 2121 3689;
  signature = slice bytes 3689 7062;
}

unfoldable pub parse_cthf : List ℕ → Result HistoryFailure CthfHeader
parse_cthf bytes =
    fail_if
      (not (length bytes == cthf_header_len)
        || not (bytes_eq (take 4 bytes) cthf_magic)
        || not (get_or bytes 4 0 == cthf_v1))
      malformed
    >> (fail_if (all_zero (cthf_cut bytes).kem_ct) malformed >> ok (cthf_cut bytes))

-- The fields between the version and the signature, and what follows them.
unfoldable pub cthf_fields : CthfHeader → List ℕ → List ℕ
cthf_fields h tail =
    h.user_id
    ++ (h.recipient_device_id
        ++ (h.source_device_id
            ++ (h.snapshot_id
                ++ (h.sender_eph
                    ++ (h.sender_identity
                        ++ (h.sender_hybrid
                            ++ (to_le_bytes 4 h.recipient_kyber_key_id ++ (h.kem_ct ++ tail))))))))

unfoldable pub cthf_message : CthfHeader → List ℕ
cthf_message h = file_tag ++ cthf_fields h []

unfoldable pub cthf_to_bytes : CthfHeader → Result HistoryFailure (List ℕ)
cthf_to_bytes h =
    fail_if
      (not (length h.sender_hybrid == hybrid_public)
        || not (length h.kem_ct == kem_ct_len)
        || not (length h.signature == hybrid_signature))
      malformed
    >> ok (cthf_magic ++ (cthf_v1 ∷ cthf_fields h h.signature))
