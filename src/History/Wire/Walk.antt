-- ===== src/History/Wire/Walk.antt =====
-- The walk over the fields of a message (`fields` of src/history/wire.rs): a field moves the
-- position on, and stays within the buffer.
use construct_core.Prelude.{
  dec_lt, ℕ, zero, suc, ◌≤◌, ◌<◌, ◌+◌, ◌/◌, ◌^◌, bit_and, ltb, leb, ◌==◌, if◌then◌else◌, le→leb,
  lt→leb, Bool-cases, Option-cases, ◌≡◌, refl, sym, ap, ◌∙◌, ◌⊎◌, inl, inr, ◌&&◌, Option, some,
  List, [], ◌∷◌, arith, length, get_elem?, Result, ok, ◌>>=◌, >>=-eq-ok, >>=-cong, fail_if-ok,
}
use construct_core.History.{HistoryFailure, malformed}
use construct_core.History.Wire.{
  each_field, field, Value, field_value, read_varint_byte, read_varint_loop, read_varint,
  need_varint, skip,
}

get_elem?-some_lt {ℓ} :
    {A : Type ℓ} (xs : List A) (n : ℕ) (x : A) → get_elem? xs n ≡ some x → n < length xs
get_elem?-some_lt [] n x h = cc
get_elem?-some_lt (y ∷ xs) zero x h = omega arith
get_elem?-some_lt (y ∷ xs) (suc n) x h = omega (arith, get_elem?-some_lt xs n x h)

-- A reader that stood at `pos` stands further on, in the buffer.
abbrev pub Ahead : List ℕ → ℕ → ℕ → Type 0
Ahead buf pos stop = (pos < stop) × (stop ≤ length buf)

-- A byte ends the varint behind it, or leaves the rest to the next round.
read_varint_byte-ends :
    (i value pos byte : ℕ) (rest : ℕ → Result HistoryFailure (Option (ℕ × ℕ))) (r : ℕ × ℕ)
    → read_varint_byte i value pos byte rest ≡ ok (some r)
    → (r.1 ≡ pos + (i + 1)) ⊎ ((value' : ℕ) × (rest value' ≡ ok (some r)))
unfolding read_varint_byte
read_varint_byte-ends i value pos byte rest r h = elim (Bool-cases (i == 9 && ltb 1 byte)) [
  | inl e ↦ let k = rw e at h in cc
  | inr e ↦ elim (Bool-cases (bit_and byte 0x80 == 0)) [
    | inl f ↦ let k = rw (e, f) at h in inl cc
    | inr f ↦ let k = rw (e, f) at h in inr (_, k)
  ]
]

read_varint_loop-Ahead :
    (rounds i value : ℕ) (buf : List ℕ) (pos : ℕ) (r : ℕ × ℕ)
    → read_varint_loop rounds i value buf pos ≡ ok (some r)
    → Ahead buf pos r.1
unfolding read_varint_loop
read_varint_loop-Ahead zero i value buf pos r h = cc
read_varint_loop-Ahead (suc rounds) i value buf pos r h =
    elim (Option-cases (get_elem? buf (pos + i))) [
      | inl e ↦ let k = rw (e, read_varint_loop) at h in cc
      | inr (byte, e) ↦
          let within = get_elem?-some_lt buf (pos + i) byte e in
          elim (read_varint_byte-ends i value pos byte _ r (rw (e, read_varint_loop) at h)) [
            | inl f ↦ (omega (arith, f), omega (arith, f, within))
            | inr (value', f) ↦ read_varint_loop-Ahead rounds (i + 1) value' buf pos r f
          ]
    ]

need_varint-Ahead :
    (buf : List ℕ) (pos : ℕ) (r : ℕ × ℕ) → need_varint buf pos ≡ ok r → Ahead buf pos r.1
unfolding need_varint read_varint
need_varint-Ahead buf pos r h =
    let (read, e, f) = >>=-eq-ok (read_varint_loop 10 0 0 buf pos) _ h in
    elim (Option-cases read) [
      | inl g ↦ let k = rw g at f in cc
      | inr (r', g) ↦
          let k = rw g at f in read_varint_loop-Ahead 10 0 0 buf pos r (e ∙ ap (λ o. ok o) (g ∙ cc))
    ]

skip-eq :
    (buf : List ℕ) (pos n stop : ℕ)
    → skip buf pos n ≡ ok stop
    → (stop ≡ pos + n) × (stop ≤ length buf)
unfolding skip
skip-eq buf pos n stop h =
    let a = fail_if-ok (leb (2 ^ 64) (pos + n)) malformed _ stop h in
    let b = fail_if-ok (ltb (length buf) (pos + n)) malformed _ stop a.1 in ground (arith, b)

-- A value of any wire type ends at or behind its start.
field_value-within :
    (buf : List ℕ) (wire_type pos : ℕ) (r : Value × ℕ)
    → field_value buf wire_type pos ≡ ok r
    → (pos ≤ r.1) × (r.1 ≤ length buf)
unfolding field_value
field_value-within buf wire_type pos r h = elim (Bool-cases (wire_type == 0)) [
  | inl e ↦
      let (read, f, g) = >>=-eq-ok (need_varint buf pos) _ (rw e at h) in
      let a = need_varint-Ahead buf pos read f in
      let k : read.1 ≡ r.1 = cc in (omega (arith, a, k), omega (arith, a, k))
  | inr e ↦ elim (Bool-cases (wire_type == 1)) [
    | inl e1 ↦
        let (stop, f, g) = >>=-eq-ok (skip buf pos 8) _ (rw (e, e1) at h) in
        let a = skip-eq buf pos 8 stop f in
        let k : stop ≡ r.1 = cc in (omega (arith, a, k), omega (arith, a, k))
    | inr e1 ↦ elim (Bool-cases (wire_type == 2)) [
      | inl e2 ↦
          let (read, f, g) = >>=-eq-ok (need_varint buf pos) _ (rw (e, e1, e2) at h) in
          let (stop, f', g') = >>=-eq-ok (skip buf read.1 read.0) _ g in
          let a = need_varint-Ahead buf pos read f in
          let b = skip-eq buf read.1 read.0 stop f' in
          let k : stop ≡ r.1 = cc in (omega (arith, a, b, k), omega (arith, b, k))
      | inr e2 ↦ elim (Bool-cases (wire_type == 5)) [
        | inl e5 ↦
            let (stop, f, g) = >>=-eq-ok (skip buf pos 4) _ (rw (e, e1, e2, e5) at h) in
            let a = skip-eq buf pos 4 stop f in
            let k : stop ≡ r.1 = cc in (omega (arith, a, k), omega (arith, a, k))
        | inr e5 ↦ let k = rw (e, e1, e2, e5) at h in cc
      ]
    ]
  ]
]

-- Every field that is read takes a byte at least, and none that is not there.
pub field-Ahead :
    (buf : List ℕ) (pos : ℕ) (r : (ℕ × Value) × ℕ) → field buf pos ≡ ok r → Ahead buf pos r.1
unfolding field
field-Ahead buf pos r h =
    let (key, e, h1) = >>=-eq-ok (need_varint buf pos) _ h in
    let (_, h2) = fail_if-ok (leb (2 ^ 32) (key.0 / 2 ^ 3)) malformed _ r h1 in
    let (_, h3) = fail_if-ok (key.0 / 2 ^ 3 == 0) malformed _ r h2 in
    let (read, f, g) = >>=-eq-ok (field_value buf (bit_and key.0 7) key.1) _ h3 in
    let a = need_varint-Ahead buf pos key e in
    let b = field_value-within buf (bit_and key.0 7) key.1 read f in
    let k : read.1 ≡ r.1 = cc in (omega (arith, a, b, k), omega (arith, b, k))

-- Two amounts of fuel that both cover the bytes ahead give the same answer.
module _ {ℓ} {S : Type ℓ} (visit : S → ℕ × Value → Result HistoryFailure S) where
  pub each_field_past :
      (n : ℕ) (buf : List ℕ) (pos : ℕ) (s : S)
      → length buf ≤ pos
      → each_field visit n buf pos s ≡ ok s
  unfolding each_field
  each_field_past zero buf pos s h = refl
  each_field_past (suc n) buf pos s h = rw (le→leb (length buf) pos h) refl

  pub each_field-step :
      (n : ℕ) (buf : List ℕ) (pos : ℕ) (s : S)
      → pos < length buf
      → each_field visit (suc n) buf pos s
        ≡ (field buf pos >>= λ read. visit s read.0 >>= λ s'. each_field visit n buf read.1 s')
  unfolding each_field
  each_field-step n buf pos s h = rw (lt→leb (length buf) pos h) refl

  pub each_field-fuel :
      (n m : ℕ) (buf : List ℕ) (pos : ℕ) (s : S)
      → length buf ≤ pos + n
      → length buf ≤ pos + m
      → each_field visit n buf pos s ≡ each_field visit m buf pos s
  each_field-fuel zero m buf pos s hn hm =
      each_field_past zero buf pos s (omega arith) ∙ sym (each_field_past m buf pos s (omega arith))
  each_field-fuel (suc n) zero buf pos s hn hm =
      each_field_past (suc n) buf pos s (omega arith)
      ∙ sym (each_field_past zero buf pos s (omega arith))
  each_field-fuel (suc n) (suc m) buf pos s hn hm = elim (dec_lt pos (length buf)) [
    | no past ↦
        each_field_past (suc n) buf pos s (omega arith)
        ∙ sym (each_field_past (suc m) buf pos s (omega arith))
    | yes here ↦
        each_field-step n buf pos s here
        ∙ >>=-cong (field buf pos) _ _ (λ read e.
          let a = field-Ahead buf pos read e in
          >>=-cong (visit s read.0) _ _
            (λ s' _. each_field-fuel n m buf read.1 s' (omega (arith, a)) (omega (arith, a))))
        ∙ sym (each_field-step m buf pos s here)
  ]

-- The loop runs to the end of the message: with as much fuel as bytes, or any more, it is the
-- source's loop, which visits the field at hand and goes on behind it while there are bytes.
pub fields-step {ℓ} :
    {S : Type ℓ} (visit : S → ℕ × Value → Result HistoryFailure S) (fuel : ℕ) (buf : List ℕ)
    (pos : ℕ) (s : S)
    → length buf ≤ pos + fuel
    → each_field visit fuel buf pos s ≡ (
        if leb (length buf) pos
        then ok s
        else (field buf pos >>= λ read.
            visit s read.0 >>= λ s'. each_field visit fuel buf read.1 s'))
fields-step visit fuel buf pos s enough = elim (dec_lt pos (length buf)) [
  | no past ↦
      let e = le→leb (length buf) pos (omega arith) in
      rw e (each_field_past visit fuel buf pos s (omega arith))
  | yes here ↦
      let e = lt→leb (length buf) pos here in
      rw e (
        each_field-fuel visit fuel (suc fuel) buf pos s enough (omega arith)
        ∙ each_field-step visit fuel buf pos s here)
]
