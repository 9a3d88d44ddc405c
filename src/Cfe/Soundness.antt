-- ===== src/Cfe/Soundness.antt =====
-- What an accepted envelope looks like.
use construct_core.Prelude.{
  ℕ, zero, suc, ◌≤◌, ◌<◌, ◌+◌, ◌-◌, ◌%◌, ◌^◌, Option-cases, ◌≡◌, refl, sym, ap, ap₂, ◌∙◌, inl, inr,
  some, List, [], ◌∷◌, ◌++◌, arith, length, take, drop, All, length-take, length-drop,
  take-append-drop, drop-drop, All-drop, All-take, IsByte, to_le_bytes, from_le_bytes,
  to_le_bytes-from_le_bytes, slice, ok,
}
use construct_core.Cfe.{
  CfeMessageType, CfeEnvelope, type_byte, from_u8, max_payload_len, envelope_bytes, parse_payload,
  parse_fields, parse_header, byte_at, cfe_version,
}
use construct_core.Cfe.RoundTrip.{max_payload_len-bound}

from_u8-some : (b : ℕ) (t : CfeMessageType) → from_u8 b ≡ some t → b ≡ type_byte t
unfolding from_u8
from_u8-some b t h = ground arith

-- The bytes from `i` on, one by one.
bytes_from : ℕ → ℕ → List ℕ → List ℕ
bytes_from i zero bytes = []
bytes_from i (suc n) bytes = byte_at bytes i ∷ bytes_from (suc i) n bytes

bytes_from-tail :
    (i n b : ℕ) (bytes : List ℕ) → bytes_from (suc i) n (b ∷ bytes) ≡ bytes_from i n bytes
unfolding bytes_from
bytes_from-tail i zero b bytes = refl
bytes_from-tail i (suc n) b bytes =
    ap (λ xs. byte_at bytes i ∷ xs) (bytes_from-tail (suc i) n b bytes)

bytes_from-take : (n : ℕ) (bytes : List ℕ) → n ≤ length bytes → bytes_from 0 n bytes ≡ take n bytes
unfolding bytes_from
bytes_from-take zero bytes h = refl
bytes_from-take (suc n) [] h = absurd (omega arith)
bytes_from-take (suc n) (b ∷ bytes) h =
    ap (λ xs. b ∷ xs) (bytes_from-tail 0 n b bytes ∙ bytes_from-take n bytes (omega arith))

drop_piece : (c n : ℕ) (bytes : List ℕ) → drop c bytes ≡ take n (drop c bytes) ++ drop (c + n) bytes
drop_piece c n bytes =
    sym (take-append-drop n (drop c bytes))
    ∙ ap (λ xs. take n (drop c bytes) ++ xs) (drop-drop c n bytes)

-- A word that was read is the bytes that it would be written as.
word_read :
    (bytes : List ℕ) (c : ℕ)
    → All IsByte bytes
    → c + 4 ≤ length bytes
    → to_le_bytes 4 (from_le_bytes (take 4 (drop c bytes))) ≡ take 4 (drop c bytes)
word_read bytes c all room =
    let piece = take 4 (drop c bytes) in
    let four : length piece ≡ 4 =
      omega (arith, length-take 4 (drop c bytes), length-drop c bytes) in
    ap (λ n. to_le_bytes n (from_le_bytes piece)) (sym four)
    ∙ to_le_bytes-from_le_bytes piece
        (All-take IsByte 4 (drop c bytes) (All-drop IsByte c bytes all))

module _ (crc32 : List ℕ → ℕ) (bytes : List ℕ) (envelope : CfeEnvelope) where
  parse_payload-ok :
      (t : CfeMessageType) (size sum : ℕ)
      → parse_payload crc32 bytes t size sum ≡ ok envelope
      → (size ≤ max_payload_len t)
        × (16 + size ≤ length bytes)
        × (sum ≡ crc32 (slice bytes 16 (16 + size)))
        × (envelope ≡ record {
          version = byte_at bytes 2;
          msg_type = t;
          flags = byte_at bytes 4;
          payload = slice bytes 16 (16 + size);
        })
  unfolding parse_payload
  parse_payload-ok t size sum h = ground arith

  parse_fields-ok :
      parse_fields crc32 bytes ≡ ok envelope
      → (t : CfeMessageType) × (byte_at bytes 2 ≡ 1)
        × (byte_at bytes 3 ≡ type_byte t)
        × (byte_at bytes 4 ≡ 0)
        × (byte_at bytes 5 ≡ 0)
        × (byte_at bytes 6 ≡ 0)
        × (byte_at bytes 7 ≡ 0)
        × (parse_payload crc32 bytes t
              (from_le_bytes (slice bytes 8 12))
              (from_le_bytes (slice bytes 12 16))
            ≡ ok envelope)
  unfolding parse_fields
  parse_fields-ok h = elim (Option-cases (from_u8 (byte_at bytes 3))) [
    | inl none_known ↦ let k = rw (none_known, parse_fields) at h in absurd (ground arith)
    | inr (t, e) ↦
        let k = rw (e, parse_fields) at h in
        let kind = from_u8-some (byte_at bytes 3) t e in
        (
          t,
          ground arith,
          kind,
          ground arith,
          ground arith,
          ground arith,
          ground arith,
          ground arith,
        )
  ]

  parse_header-ok :
      parse_header crc32 bytes ≡ ok envelope
      → (16 ≤ length bytes)
        × (byte_at bytes 0 ≡ 0x43)
        × (byte_at bytes 1 ≡ 0x46)
        × (parse_fields crc32 bytes ≡ ok envelope)
  unfolding parse_header
  parse_header-ok h = ground arith

  accepted_bytes :
      (t : CfeMessageType) (size : ℕ)
      → All IsByte bytes
      → 16 + size ≤ length bytes
      → size < 2 ^ 32
      → byte_at bytes 0 ≡ 0x43
      → byte_at bytes 1 ≡ 0x46
      → byte_at bytes 2 ≡ 1
      → byte_at bytes 3 ≡ type_byte t
      → byte_at bytes 4 ≡ 0
      → byte_at bytes 5 ≡ 0
      → byte_at bytes 6 ≡ 0
      → byte_at bytes 7 ≡ 0
      → from_le_bytes (slice bytes 8 12) ≡ size
      → from_le_bytes (slice bytes 12 16) ≡ crc32 (take size (drop 16 bytes))
      → bytes ≡ envelope_bytes crc32 t (take size (drop 16 bytes)) ++ drop (16 + size) bytes
  unfolding bytes_from
  accepted_bytes t size all room small b0 b1 b2 b3 b4 b5 b6 b7 is_size is_sum =
      let p = take size (drop 16 bytes) in
      let sized : length p % 2 ^ 32 ≡ size =
        omega (arith, length-take size (drop 16 bytes), length-drop 16 bytes) in
      let w8 : to_le_bytes 4 (length p % 2 ^ 32) ≡ take 4 (drop 8 bytes) =
        ap (to_le_bytes 4) (sized ∙ sym is_size) ∙ word_read bytes 8 all (omega arith) in
      let w12 : to_le_bytes 4 (crc32 p) ≡ take 4 (drop 12 bytes) =
        ap (to_le_bytes 4) (sym is_sum) ∙ word_read bytes 12 all (omega arith) in
      let head : take 8 bytes ≡ 0x43 ∷ 0x46 ∷ 1 ∷ type_byte t ∷ 0 ∷ 0 ∷ 0 ∷ 0 ∷ [] =
        sym (bytes_from-take 8 bytes (omega arith)) ∙ λ i.
        b0 i ∷ b1 i ∷ b2 i ∷ b3 i ∷ b4 i ∷ b5 i ∷ b6 i ∷ b7 i ∷ [] in
      let tail : drop 8 bytes
          ≡ to_le_bytes 4 (length p % 2 ^ 32)
            ++ (to_le_bytes 4 (crc32 p) ++ (p ++ drop (16 + size) bytes)) =
        drop_piece 8 4 bytes
        ∙ ap₂ ◌++◌ (sym w8)
            (drop_piece 12 4 bytes ∙ ap₂ ◌++◌ (sym w12) (drop_piece 16 size bytes)) in
      sym (take-append-drop 8 bytes) ∙ ap₂ ◌++◌ head tail

  -- Over bytes: an accepted buffer begins with exactly what `encode` writes for the payload and the
  -- type that the envelope names, within the payload's cap; so the checksum that it has is that of
  -- the payload, and the version, the flags and the reserved bytes are those of the format.
  pub parse_header_sound :
      All IsByte bytes
      → parse_header crc32 bytes ≡ ok envelope
      → (envelope.version ≡ cfe_version)
        × (envelope.flags ≡ 0)
        × (length envelope.payload ≤ max_payload_len envelope.msg_type)
        × (bytes
            ≡ envelope_bytes crc32 envelope.msg_type envelope.payload
              ++ drop (16 + length envelope.payload) bytes)
  parse_header_sound all h =
      let (long, m0, m1, fields) = parse_header-ok h in
      let (t, b2, b3, b4, b5, b6, b7, rest) = parse_fields-ok fields in
      let size = from_le_bytes (slice bytes 8 12) in
      let sum = from_le_bytes (slice bytes 12 16) in
      let (fits, room, check, whole) = parse_payload-ok t size sum rest in
      let small = max_payload_len-bound t in
      let same : 16 + size - 16 ≡ size = omega arith in
      let shape =
        accepted_bytes t size all room (omega arith) m0 m1 b2 b3 b4 b5 b6 b7 refl
          (check ∙ ap (λ n. crc32 (take n (drop 16 bytes))) same) in
      let cut : envelope.payload ≡ take size (drop 16 bytes) =
        ap (λ (e : CfeEnvelope). e.payload) whole ∙ ap (λ n. take n (drop 16 bytes)) same in
      let kind : envelope.msg_type ≡ t = ap (λ (e : CfeEnvelope). e.msg_type) whole in
      let known : length envelope.payload ≡ size =
        omega (arith, ap length cut, length-take size (drop 16 bytes), length-drop 16 bytes) in
      (
        ap (λ (e : CfeEnvelope). e.version) whole ∙ b2,
        ap (λ (e : CfeEnvelope). e.flags) whole ∙ b4,
        rw (kind, known) fits,
        shape
            ∙ ap₂ (λ q n. envelope_bytes crc32 t q ++ drop (16 + n) bytes) (sym cut) (sym known)
            ∙ ap
                (λ k.
                  envelope_bytes crc32 k envelope.payload
                  ++ drop (16 + length envelope.payload) bytes)
                (sym kind),
      )
