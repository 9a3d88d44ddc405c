-- ===== src/Wire/RoundTrip/Section.antt =====
-- The PQ-ratchet section, read back from the bytes written for it.
use construct_core.Prelude.{
  subst, append_assoc, ℕ, ◌≤◌, ◌<◌, ◌+◌, ◌^◌, ◌==◌, if◌then◌else◌, le→ltb, Bool-cases, ◌≡◌, refl,
  ap, ◌∙◌, inl, inr, Option, none, some, List, [], ◌∷◌, ◌++◌, arith, length, get_elem?, get_or-some,
  to_le_bytes, slice, At, At-slice, At-advance, At-word, At-get, ok, >>=-eq-ok,
}
use native.Mathlib.Nat.{mod-eq_of_lt}
use construct_core.Wire.{PqRatchetWireField, public_key, ciphertext, pq_ratchet_suite}
use construct_core.Wire.Leb128.{write_leb128, read_leb128}
use construct_core.Wire.Leb128.RoundTrip.{read_leb128-write_leb128}
use construct_core.Wire.Pack.{pq_field_bytes, pq_section_bytes, pq_section}
use construct_core.Wire.Unpack.{
  PqPart, no_pq_part, read_public_key, read_ciphertext, read_pq_typed, read_pq_field,
  read_pq_section, pq_part_of, word_at,
}
use construct_core.Wire.RoundTrip.Fixed.{At-next, At-move}

-- The fields of an exchange field in their ranges.
abbrev pub IsField : Option PqRatchetWireField → Type 0
IsField none = Unit {0}
IsField (some (public_key epoch key)) = epoch < 2 ^ 32
IsField (some (ciphertext epoch ek_hash ct)) = (epoch < 2 ^ 32) × (length ek_hash ≡ 8)

abbrev field_type : Option PqRatchetWireField → ℕ
field_type none = 0
field_type (some (public_key epoch key)) = 1
field_type (some (ciphertext epoch ek_hash ct)) = 2

abbrev field_tail : Option PqRatchetWireField → List ℕ
field_tail none = []
field_tail (some (public_key epoch key)) =
    to_le_bytes 4 epoch ++ (to_le_bytes 2 (length key) ++ key)
field_tail (some (ciphertext epoch ek_hash ct)) =
    to_le_bytes 4 epoch ++ (ek_hash ++ (to_le_bytes 2 (length ct) ++ ct))

abbrev Fits : Option PqRatchetWireField → Type 0
Fits none = Unit {0}
Fits (some (public_key epoch key)) = length key < 2 ^ 16
Fits (some (ciphertext epoch ek_hash ct)) = length ct < 2 ^ 16

pq_field_bytes-eq_ok :
    (field : Option PqRatchetWireField) (tail : List ℕ)
    → pq_field_bytes field ≡ ok tail
    → Fits field × (tail ≡ field_type field ∷ field_tail field)
unfolding pq_field_bytes
pq_field_bytes-eq_ok none tail h = (tt, ground arith)
pq_field_bytes-eq_ok (some (public_key epoch key)) tail h =
    let fits : length key < 65536 = ground arith in (fits, ground (arith, mod-eq_of_lt fits))
pq_field_bytes-eq_ok (some (ciphertext epoch ek_hash ct)) tail h =
    let fits : length ct < 65536 = ground arith in (fits, ground (arith, mod-eq_of_lt fits))

module _ (bytes : List ℕ) (c : ℕ) where
  read_public_key-pieces :
      (epoch : ℕ) (key : List ℕ)
      → word_at bytes c 4 ≡ epoch
      → word_at bytes (c + 4) 2 ≡ length key
      → c + 6 + length key ≤ length bytes
      → slice bytes (c + 6) (c + 6 + length key) ≡ key
      → read_public_key bytes c ≡ ok (some (public_key epoch key), c + 6 + length key)
  unfolding read_public_key
  read_public_key-pieces epoch key e w room piece = ground arith

  read_ciphertext-pieces :
      (epoch : ℕ) (ek_hash ct : List ℕ)
      → word_at bytes c 4 ≡ epoch
      → slice bytes (c + 4) (c + 12) ≡ ek_hash
      → word_at bytes (c + 12) 2 ≡ length ct
      → c + 14 + length ct ≤ length bytes
      → slice bytes (c + 14) (c + 14 + length ct) ≡ ct
      → read_ciphertext bytes c ≡ ok (some (ciphertext epoch ek_hash ct), c + 14 + length ct)
  unfolding read_ciphertext
  read_ciphertext-pieces epoch ek_hash ct e h w room piece = ground arith

read_pq_field-typed :
    (bytes : List ℕ) (c typ : ℕ)
    → c + 1 ≤ length bytes
    → get_elem? bytes c ≡ some typ
    → read_pq_field bytes c ≡ read_pq_typed bytes typ (c + 1)
unfolding read_pq_field
read_pq_field-typed bytes c typ room h =
    rw (le→ltb (length bytes) (c + 1) room)
      (ap (λ t. read_pq_typed bytes t (c + 1)) (get_or-some bytes c typ 0 h))

slice_move :
    (bytes : List ℕ) (c d e : ℕ)
    → d ≡ e
    → (piece : List ℕ) → slice bytes c d ≡ piece
    → slice bytes c e ≡ piece
slice_move bytes c d e same piece h = subst (λ k. slice bytes c k ≡ piece) same h

-- From the cursor behind the type byte.
read_pq_typed-field_tail :
    (field : Option PqRatchetWireField) (bytes rest : List ℕ) (c : ℕ)
    → IsField field
    → Fits field
    → At bytes c (field_tail field ++ rest)
    → (end : ℕ) × (read_pq_typed bytes (field_type field) c ≡ ok (field, end)) × At bytes end rest
unfolding read_pq_typed
read_pq_typed-field_tail none bytes rest c v f a = (c, refl, a)
read_pq_typed-field_tail (some (public_key epoch key)) bytes rest c v f a =
    let a0 : At bytes c (to_le_bytes 4 epoch ++ (to_le_bytes 2 (length key) ++ (key ++ rest))) =
      simp append_assoc at a in
    let a1 = At-next 4 epoch _ a0 in
    let a2 = At-move (c + 4 + 2) (c + 6) (omega arith) (At-next 2 (length key) _ a1) in
    let a3 = At-advance (length key) key rest a2 refl in
    (
      c + 6 + length key,
      read_public_key-pieces bytes c epoch key (At-word 4 epoch _ a0 v)
          (At-word 2 (length key) _ a1 f) a3.within (At-slice (length key) key rest a2 refl),
      a3,
    )
read_pq_typed-field_tail (some (ciphertext epoch ek_hash ct)) bytes rest c (v, h) f a =
    let a0 : At bytes c
        (to_le_bytes 4 epoch ++ (ek_hash ++ (to_le_bytes 2 (length ct) ++ (ct ++ rest)))) =
      simp append_assoc at a in
    let a1 = At-next 4 epoch _ a0 in
    let hash =
      slice_move bytes (c + 4) (c + 4 + 8) (c + 12) (omega arith) ek_hash
        (At-slice 8 ek_hash _ a1 h) in
    let a2 = At-move (c + 4 + 8) (c + 12) (omega arith) (At-advance 8 ek_hash _ a1 h) in
    let a3 = At-move (c + 12 + 2) (c + 14) (omega arith) (At-next 2 (length ct) _ a2) in
    let a4 = At-advance (length ct) ct rest a3 refl in
    (
      c + 14 + length ct,
      read_ciphertext-pieces bytes c epoch ek_hash ct (At-word 4 epoch _ a0 v) hash
          (At-word 2 (length ct) _ a2 f) a4.within (At-slice (length ct) ct rest a3 refl),
      a4,
    )

read_pq_field-bytes :
    (field : Option PqRatchetWireField) (bytes rest tail : List ℕ) (c : ℕ)
    → IsField field
    → pq_field_bytes field ≡ ok tail
    → At bytes c (tail ++ rest)
    → (end : ℕ) × (read_pq_field bytes c ≡ ok (field, end)) × At bytes end rest
read_pq_field-bytes field bytes rest tail c v h a =
    let (fits, known) = pq_field_bytes-eq_ok field tail h in
    let a0 = subst (λ t. At bytes c (t ++ rest)) known a in
    let a1 = At-advance 1 (field_type field ∷ []) (field_tail field ++ rest) a0 refl in
    let (end, read, at_end) = read_pq_typed-field_tail field bytes rest (c + 1) v fits a1 in
    (end, read_pq_field-typed bytes c (field_type field) a1.within (At-get a0) ∙ read, at_end)

pq_section_bytes-eq_ok :
    (epoch key_index : ℕ) (field : Option PqRatchetWireField) (section : List ℕ)
    → pq_section_bytes epoch key_index field ≡ ok section
    → (tail : List ℕ) × (pq_field_bytes field ≡ ok tail)
      × (section ≡ to_le_bytes 4 epoch ++ (write_leb128 key_index ++ tail))
unfolding pq_section_bytes
pq_section_bytes-eq_ok epoch key_index field section h =
    let (tail, e, rest) = >>=-eq-ok (pq_field_bytes field) _ h in (tail, e, cc)

read_pq_section-pieces :
    (bytes : List ℕ) (c epoch key_index d end : ℕ) (field : Option PqRatchetWireField)
    → c + 4 ≤ length bytes
    → word_at bytes c 4 ≡ epoch
    → read_leb128 bytes (c + 4) ≡ ok (key_index, d)
    → (epoch ≡ 0 → key_index ≡ 0)
    → read_pq_field bytes d ≡ ok (field, end)
    → read_pq_section bytes c
      ≡ ok (record { message_epoch = epoch; key_index = key_index; field = field }, end)
unfolding read_pq_section
read_pq_section-pieces bytes c epoch key_index d end field room e index zero_index read =
    ground arith

pub read_pq_section-bytes :
    (epoch key_index : ℕ) (field : Option PqRatchetWireField) (bytes rest section : List ℕ) (c : ℕ)
    → epoch < 2 ^ 32
    → key_index < 2 ^ 32
    → (epoch ≡ 0 → key_index ≡ 0)
    → IsField field
    → pq_section_bytes epoch key_index field ≡ ok section
    → At bytes c (section ++ rest)
    → (end : ℕ) × (read_pq_section bytes c
        ≡ ok (record { message_epoch = epoch; key_index = key_index; field = field }, end))
      × At bytes end rest
read_pq_section-bytes epoch key_index field bytes rest section c ve vk vz vf h a =
    let (tail, tail_ok, section_ok) = pq_section_bytes-eq_ok epoch key_index field section h in
    let a0 : At bytes c (to_le_bytes 4 epoch ++ (write_leb128 key_index ++ (tail ++ rest))) =
      simp append_assoc at (subst (λ t. At bytes c (t ++ rest)) section_ok a) in
    let a1 = At-next 4 epoch _ a0 in
    let index = read_leb128-write_leb128 key_index (c + 4) bytes (tail ++ rest) vk a1 in
    let a2 = At-advance (length (write_leb128 key_index)) (write_leb128 key_index) _ a1 refl in
    let (end, read, at_end) = read_pq_field-bytes field bytes rest tail _ vf tail_ok a2 in
    (
      end,
      read_pq_section-pieces bytes c epoch key_index _ end field a1.within (At-word 4 epoch _ a0 ve)
          index vz read,
      at_end,
    )

-- The section of any suite, and the values that a suite without one leaves.
abbrev pub pq_part : ℕ → ℕ → ℕ → Option PqRatchetWireField → PqPart
pq_part suite epoch key_index field =
    if suite == pq_ratchet_suite
    then record { message_epoch = epoch; key_index = key_index; field = field }
    else no_pq_part

pub pq_part_of-bytes :
    (suite epoch key_index : ℕ) (field : Option PqRatchetWireField) (bytes rest section : List ℕ)
    (c : ℕ)
    → epoch < 2 ^ 32
    → key_index < 2 ^ 32
    → (epoch ≡ 0 → key_index ≡ 0)
    → IsField field
    → pq_section suite epoch key_index field ≡ ok section
    → At bytes c (section ++ rest)
    → (end : ℕ) × (pq_part_of bytes suite c ≡ ok (pq_part suite epoch key_index field, end))
      × At bytes end rest
unfolding pq_part_of pq_section
pq_part_of-bytes suite epoch key_index field bytes rest section c ve vk vz vf h a =
    elim (Bool-cases (suite == pq_ratchet_suite)) [
      | inl pq ↦
          let (end, read, at_end) =
            read_pq_section-bytes epoch key_index field bytes rest section c ve vk vz vf
              (rw (pq, pq_section) at h) a in
          (end, rw pq read, at_end)
      | inr other ↦
          let empty : section ≡ [] = ground arith in
          (c, rw other, subst (λ t. At bytes c (t ++ rest)) empty a)
    ]
