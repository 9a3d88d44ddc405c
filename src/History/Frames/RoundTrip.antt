-- ===== src/History/Frames/RoundTrip.antt =====
-- The frames of src/history/frames.rs are parsed as they were printed.
use construct_core.History.{malformed}
use construct_core.History.Frames.{
  Prefix, prefix_fields, parse_prefix, Opening, all_zero, check_kem_shape, opening_fields,
  parse_opening, opening_type, prefix_bytes, opening_bytes, opening_to_bytes, CthfHeader, cthf_cut,
  parse_cthf, cthf_fields, cthf_to_bytes, cthf_magic, cthf_v1, ctt1_magic, ctt1_v2, hybrid_public,
  kem_ct_len, hybrid_signature, max_payload_len, opening_len, cthf_header_len, prefix_len,
  history_skipped,
}
use construct_core.Prelude.{
  subst, append-nil, ℕ, ◌≤◌, ◌<◌, ◌+◌, ◌^◌, ltb, ◌==◌, le→ltb, le→leb, ==_iff, Bool-cases, ◌≡◌,
  refl, sym, inl, inr, Bool, true, false, not, ◌||◌, List, [], ◌∷◌, ◌++◌, arith, length, take,
  length-append, take-append_left, get_or-some, to_le_bytes, length-to_le_bytes, At, At-start,
  At-length, At-slice, At-advance, At-word, At-get, ok, >>=-eq-ok, ok-injective, fail_if-ok,
  bytes_eq,
}

==→eq : (a b : ℕ) → not (a == b) ≡ false → a ≡ b
==→eq a b h = ground arith

or_false : (a b : Bool) → (a || b) ≡ false → (a ≡ false) × (b ≡ false)
or_false true b h = cc
or_false false b h = (refl, h)

not_above : (a b : ℕ) → ltb a b ≡ false → b ≤ a
not_above a b h = ground arith

-- A word of `k` bytes, and the place behind it.
At-after :
    {bytes : List ℕ} {c : ℕ} (k v : ℕ) (rest : List ℕ)
    → At bytes c (to_le_bytes k v ++ rest)
    → At bytes (c + k) rest
At-after k v rest a = At-advance k (to_le_bytes k v) rest a (length-to_le_bytes k v)

-- The prefix, at the front of its own bytes.
length-prefix_bytes :
    (eph : List ℕ) (ty n : ℕ) → length eph ≡ 32 → length (prefix_bytes eph ty n) ≡ prefix_len
unfolding prefix_bytes
length-prefix_bytes eph ty n sized =
    omega (arith, sized, length-append eph (ty ∷ to_le_bytes 8 n), length-to_le_bytes 8 n)

front : (eph : List ℕ) (ty n : ℕ) → bytes_eq (take 4 (prefix_bytes eph ty n)) ctt1_magic ≡ true
unfolding prefix_bytes
front eph ty n = refl

prefix_fields-prefix_bytes :
    (eph : List ℕ) (ty n : ℕ)
    → length eph ≡ 32
    → n < 2 ^ 64
    → prefix_fields (prefix_bytes eph ty n)
      ≡ record { version = ctt1_v2; sender_eph = eph; transfer_type = ty; payload_len = n }
unfolding prefix_fields prefix_bytes
prefix_fields-prefix_bytes eph ty n sized small =
    let bytes = prefix_bytes eph ty n in
    let tail = to_le_bytes 8 n in
    let a5 : At bytes 5 (eph ++ ty ∷ tail) =
      At-advance 5 (ctt1_magic ++ ctt1_v2 ∷ []) (eph ++ ty ∷ tail) (At-start bytes) refl in
    let a37 = At-advance 32 eph (ty ∷ tail) a5 sized in
    let a38 : At bytes 38 (tail ++ []) = At-advance 1 (ty ∷ []) tail a37 refl in
    let type_here = get_or-some bytes 37 ty 0 (At-get a37) in
    λ i. record {
      version = ctt1_v2;
      sender_eph = At-slice 32 eph (ty ∷ tail) a5 sized i;
      transfer_type = type_here i;
      payload_len = At-word 8 n [] a38 small i;
    }

parse_prefix-prefix_bytes :
    (eph : List ℕ) (ty n : ℕ)
    → length eph ≡ 32
    → 1 ≤ ty
    → ty ≤ 3
    → n ≤ max_payload_len
    → parse_prefix (prefix_bytes eph ty n)
      ≡ ok (record { version = ctt1_v2; sender_eph = eph; transfer_type = ty; payload_len = n })
unfolding parse_prefix
parse_prefix-prefix_bytes eph ty n sized low high small =
    let bytes = prefix_bytes eph ty n in
    let cut = prefix_fields-prefix_bytes eph ty n sized (omega arith) in
    let e : (length bytes == prefix_len) ≡ true =
      (==_iff (length bytes) prefix_len).1 (length-prefix_bytes eph ty n sized) in
    rw (e, front eph ty n, cut, le→leb 1 ty low, le→leb ty 3 high, le→ltb max_payload_len n small)
      refl

-- The fields that the source keeps in arrays have their lengths, and the key id is a `u32`.
pub record IsOpening (o : Opening) : Type 0 where
  pub eph : length o.sender_eph ≡ 32
  pub identity : length o.sender_identity ≡ 32
  pub snapshot : length o.snapshot_id ≡ 16
  pub sender_device : length o.sender_device_id ≡ 16
  pub receiver_device : length o.receiver_device_id ≡ 16
  pub key_id : o.receiver_kyber_key_id < 2 ^ 32

-- What the printer checks.
abbrev Printable : Opening → Type 0
Printable o =
    (length o.sender_hybrid ≡ hybrid_public)
    × (length o.kem_ct ≡ kem_ct_len)
    × (length o.signature ≡ hybrid_signature)
    × (o.payload_len ≤ max_payload_len)
    × (check_kem_shape o ≡ ok tt)

opening_to_bytes-ok :
    (o : Opening) (bytes : List ℕ)
    → opening_to_bytes o ≡ ok bytes
    → Printable o × (opening_bytes o ≡ bytes)
unfolding opening_to_bytes
opening_to_bytes-ok o bytes h =
    let (a, h1) =
      fail_if-ok
        (not (length o.sender_hybrid == hybrid_public)
          || not (length o.kem_ct == kem_ct_len)
          || not (length o.signature == hybrid_signature)
          || ltb max_payload_len o.payload_len)
        malformed _ bytes h in
    let (u, b, h2) = >>=-eq-ok (check_kem_shape o) _ h1 in
    let (rest, small) = or_false _ _ a in
    let (rest', sig) = or_false _ _ rest in
    let (hybrid, kem) = or_false _ _ rest' in
    ((==→eq _ _ hybrid, ==→eq _ _ kem, ==→eq _ _ sig, not_above _ _ small, b), ok-injective h2)

type_back : (o : Opening) → (opening_type o == history_skipped) ≡ o.skipped
unfolding opening_type
type_back o = elim (Bool-cases o.skipped) [ inl e ↦ rw e refl | inr e ↦ rw e refl ]

type_bounds : (o : Opening) → (2 ≤ opening_type o) × (opening_type o ≤ 3)
unfolding opening_type
type_bounds o = elim (Bool-cases o.skipped) [
  | inl e ↦ rw e (omega arith, omega arith)
  | inr e ↦ rw e (omega arith, omega arith)
]

abbrev prefix_of : Opening → Prefix
prefix_of o = record {
  version = ctt1_v2;
  sender_eph = o.sender_eph;
  transfer_type = opening_type o;
  payload_len = o.payload_len;
}

opening_fields-opening_bytes :
    (o : Opening)
    → IsOpening o
    → Printable o
    → (opening_fields (opening_bytes o) (prefix_of o) ≡ o)
      × (take prefix_len (opening_bytes o)
          ≡ prefix_bytes o.sender_eph (opening_type o) o.payload_len)
      × (length (opening_bytes o) ≡ opening_len)
unfolding opening_fields opening_bytes
opening_fields-opening_bytes o w (hybrid, kem, sig, small, shape) =
    let bytes = opening_bytes o in
    let front = prefix_bytes o.sender_eph (opening_type o) o.payload_len in
    let sized = length-prefix_bytes o.sender_eph (opening_type o) o.payload_len w.eph in
    let a46 = At-advance 46 front _ (At-start bytes) sized in
    let a78 = At-advance 32 o.sender_identity _ a46 w.identity in
    let a2062 = At-advance 1984 o.sender_hybrid _ a78 hybrid in
    let a2078 = At-advance 16 o.snapshot_id _ a2062 w.snapshot in
    let a2094 = At-advance 16 o.sender_device_id _ a2078 w.sender_device in
    let a2110 = At-advance 16 o.receiver_device_id _ a2094 w.receiver_device in
    let a2114 = At-after 4 o.receiver_kyber_key_id _ a2110 in
    let a3682 = At-advance 1568 o.kem_ct o.signature a2114 kem in
    let ending : At bytes 3682 (o.signature ++ []) =
      subst (λ xs. At bytes 3682 xs) (sym (append-nil o.signature)) a3682 in
    (
      λ i. record {
        sender_eph = o.sender_eph;
        skipped = type_back o i;
        payload_len = o.payload_len;
        sender_identity = At-slice 32 o.sender_identity _ a46 w.identity i;
        sender_hybrid = At-slice 1984 o.sender_hybrid _ a78 hybrid i;
        snapshot_id = At-slice 16 o.snapshot_id _ a2062 w.snapshot i;
        sender_device_id = At-slice 16 o.sender_device_id _ a2078 w.sender_device i;
        receiver_device_id = At-slice 16 o.receiver_device_id _ a2094 w.receiver_device i;
        receiver_kyber_key_id = At-word 4 o.receiver_kyber_key_id _ a2110 w.key_id i;
        kem_ct = At-slice 1568 o.kem_ct _ a2114 kem i;
        signature = At-slice 3373 o.signature [] ending sig i;
      },
      take-append_left 46 front _ sized,
      omega (arith, At-length a3682, sig),
    )

-- Every opening that is printed is parsed as it was.
pub parse_opening-opening_to_bytes :
    (o : Opening) (bytes : List ℕ)
    → IsOpening o
    → opening_to_bytes o ≡ ok bytes
    → parse_opening bytes ≡ ok o
unfolding parse_opening
parse_opening-opening_to_bytes o bytes w h =
    let (p, same_bytes) = opening_to_bytes-ok o bytes h in
    let (hybrid, kem, sig, small, shape) = p in
    let (cut, front, len) = opening_fields-opening_bytes o w p in
    let (low, high) = type_bounds o in
    let e : (length (opening_bytes o) == opening_len) ≡ true =
      (==_iff (length (opening_bytes o)) opening_len).1 len in
    let not_backup : (opening_type o == 1) ≡ false = above_one (opening_type o) low in
    subst (λ xs. parse_opening xs ≡ ok o) same_bytes
      (rw
        (
          e,
          front,
          parse_prefix-prefix_bytes o.sender_eph (opening_type o) o.payload_len w.eph (omega arith)
              high small,
          not_backup,
          cut,
          shape,
        )
        refl)
  where
    above_one : (n : ℕ) → 2 ≤ n → (n == 1) ≡ false
    above_one n k = ground arith

pub record IsCthfHeader (h : CthfHeader) : Type 0 where
  pub user : length h.user_id ≡ 16
  pub recipient : length h.recipient_device_id ≡ 16
  pub source : length h.source_device_id ≡ 16
  pub snapshot : length h.snapshot_id ≡ 16
  pub eph : length h.sender_eph ≡ 32
  pub identity : length h.sender_identity ≡ 32
  pub key_id : h.recipient_kyber_key_id < 2 ^ 32

cthf_cut-bytes :
    (h : CthfHeader)
    → IsCthfHeader h
    → length h.sender_hybrid ≡ hybrid_public
    → length h.kem_ct ≡ kem_ct_len
    → length h.signature ≡ hybrid_signature
    → (cthf_cut (cthf_magic ++ cthf_v1 ∷ cthf_fields h h.signature) ≡ h)
      × (length (cthf_magic ++ cthf_v1 ∷ cthf_fields h h.signature) ≡ cthf_header_len)
unfolding cthf_cut cthf_fields
cthf_cut-bytes h w hybrid kem sig =
    let bytes = cthf_magic ++ cthf_v1 ∷ cthf_fields h h.signature in
    let a5 : At bytes 5 (cthf_fields h h.signature) =
      At-advance 5 (cthf_magic ++ cthf_v1 ∷ []) (cthf_fields h h.signature) (At-start bytes) refl in
    let a21 = At-advance 16 h.user_id _ a5 w.user in
    let a37 = At-advance 16 h.recipient_device_id _ a21 w.recipient in
    let a53 = At-advance 16 h.source_device_id _ a37 w.source in
    let a69 = At-advance 16 h.snapshot_id _ a53 w.snapshot in
    let a101 = At-advance 32 h.sender_eph _ a69 w.eph in
    let a133 = At-advance 32 h.sender_identity _ a101 w.identity in
    let a2117 = At-advance 1984 h.sender_hybrid _ a133 hybrid in
    let a2121 = At-after 4 h.recipient_kyber_key_id _ a2117 in
    let a3689 = At-advance 1568 h.kem_ct h.signature a2121 kem in
    let ending : At bytes 3689 (h.signature ++ []) =
      subst (λ xs. At bytes 3689 xs) (sym (append-nil h.signature)) a3689 in
    (
      λ i. record {
        user_id = At-slice 16 h.user_id _ a5 w.user i;
        recipient_device_id = At-slice 16 h.recipient_device_id _ a21 w.recipient i;
        source_device_id = At-slice 16 h.source_device_id _ a37 w.source i;
        snapshot_id = At-slice 16 h.snapshot_id _ a53 w.snapshot i;
        sender_eph = At-slice 32 h.sender_eph _ a69 w.eph i;
        sender_identity = At-slice 32 h.sender_identity _ a101 w.identity i;
        sender_hybrid = At-slice 1984 h.sender_hybrid _ a133 hybrid i;
        recipient_kyber_key_id = At-word 4 h.recipient_kyber_key_id _ a2117 w.key_id i;
        kem_ct = At-slice 1568 h.kem_ct _ a2121 kem i;
        signature = At-slice 3373 h.signature [] ending sig i;
      },
      omega (arith, At-length a3689, sig),
    )

-- Every header of a file that is printed, with a ciphertext that is not all zero, is parsed as it
-- was.
pub parse_cthf-cthf_to_bytes :
    (h : CthfHeader) (bytes : List ℕ)
    → IsCthfHeader h
    → all_zero h.kem_ct ≡ false
    → cthf_to_bytes h ≡ ok bytes
    → parse_cthf bytes ≡ ok h
unfolding parse_cthf cthf_to_bytes
parse_cthf-cthf_to_bytes h bytes w carried k =
    let (a, k1) =
      fail_if-ok
        (not (length h.sender_hybrid == hybrid_public)
          || not (length h.kem_ct == kem_ct_len)
          || not (length h.signature == hybrid_signature))
        malformed _ bytes k in
    let (rest, sig) = or_false _ _ a in
    let (hybrid, kem) = or_false _ _ rest in
    let printed = cthf_magic ++ cthf_v1 ∷ cthf_fields h h.signature in
    let (cut, len) = cthf_cut-bytes h w (==→eq _ _ hybrid) (==→eq _ _ kem) (==→eq _ _ sig) in
    let e : (length printed == cthf_header_len) ≡ true =
      (==_iff (length printed) cthf_header_len).1 len in
    subst (λ xs. parse_cthf xs ≡ ok h) (ok-injective k1) (rw (e, cut, carried) refl)
