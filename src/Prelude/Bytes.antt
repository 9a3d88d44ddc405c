-- ===== src/Prelude/Bytes.antt =====
-- Bytes, little-endian words, and slices of a byte string.
use Prim.Native.Nat.{ℕ, zero, suc, ◌+◌, ◌-◌, ◌*◌, ◌/◌, ◌%◌, ◌^◌, ◌≤◌, ◌<◌}
use mathlib.Core.Path.{◌≡◌, refl, sym, ap, ap₂, ◌∙◌}
use native.Mathlib.Nat.{pow-suc}
use mathlib.Core.List.{List, [], ◌∷◌, ◌++◌}
use mathlib.Core.Option.{some}
use mathlib.Core.Bool.{Bool, true, false, ◌&&◌, ◌||◌}
use mathlib.Core.Logic.{◌≢◌, inl, inr}
use construct_core.Prelude.Tests.{◌==◌, Bool-cases}
use native.Mathlib.Omega.{arith}
use construct_core.Prelude.Lists.{
  length, take, drop, length-drop, take-append_left, drop-append_left, drop-drop, All,
  length-append, get_elem?, get_elem?-drop,
}

abbrev pub IsByte : ℕ → Type 0
IsByte b = b < 256

-- `v.to_le_bytes()` of a word of `k` bytes.
abbrev pub to_le_bytes : ℕ → ℕ → List ℕ
to_le_bytes zero v = []
to_le_bytes (suc k) v = v % 256 ∷ to_le_bytes k (v / 256)

-- `from_le_bytes`, of as many bytes as are given.
abbrev pub from_le_bytes : List ℕ → ℕ
from_le_bytes [] = 0
from_le_bytes (b ∷ bs) = b + 256 * from_le_bytes bs

pub length-to_le_bytes : (k v : ℕ) → length (to_le_bytes k v) ≡ k
length-to_le_bytes zero v = refl
length-to_le_bytes (suc k) v = ap suc (length-to_le_bytes k (v / 256))

pub to_le_bytes-IsByte : (k v : ℕ) → All IsByte (to_le_bytes k v)
to_le_bytes-IsByte zero v = tt
to_le_bytes-IsByte (suc k) v = (omega arith, to_le_bytes-IsByte k (v / 256))

pub from_le_bytes-to_le_bytes : (k v : ℕ) → v < 256 ^ k → from_le_bytes (to_le_bytes k v) ≡ v
from_le_bytes-to_le_bytes zero v h = omega arith
from_le_bytes-to_le_bytes (suc k) v h =
    omega (arith, from_le_bytes-to_le_bytes k (v / 256) (omega (arith, pow-suc 256 k)))

pub to_le_bytes-from_le_bytes :
    (bs : List ℕ) → All IsByte bs → to_le_bytes (length bs) (from_le_bytes bs) ≡ bs
to_le_bytes-from_le_bytes [] h = refl
to_le_bytes-from_le_bytes (b ∷ bs) (hb, h) =
    ap₂ ◌∷◌ (omega arith)
      (ap (to_le_bytes (length bs)) (omega arith) ∙ to_le_bytes-from_le_bytes bs h)

pub from_le_bytes-lt : (bs : List ℕ) → All IsByte bs → from_le_bytes bs < 256 ^ length bs
from_le_bytes-lt [] h = omega arith
from_le_bytes-lt (b ∷ bs) (hb, h) = omega (arith, from_le_bytes-lt bs h, pow-suc 256 (length bs))

-- `data[start..stop]`, for a range within the data.
abbrev pub slice : List ℕ → ℕ → ℕ → List ℕ
slice bytes start stop = take (stop - start) (drop start bytes)

-- A reader stands at the offset `c` of a buffer, with `rest` before it.
pub record At (bytes : List ℕ) (c : ℕ) (rest : List ℕ) : Type 0 where
  pub within : c ≤ length bytes
  pub ahead : drop c bytes ≡ rest

pub At-start : (bytes : List ℕ) → At bytes 0 bytes
At-start bytes = record { within = omega arith; ahead = refl }

module _ {bytes : List ℕ} {c : ℕ} where
  pub At-length : {rest : List ℕ} → At bytes c rest → length bytes ≡ c + length rest
  At-length a = omega (arith, a.within, length-drop c bytes, ap length a.ahead)

  -- It takes the next `n` bytes, and stands behind them.
  pub At-slice :
      (n : ℕ) (piece rest : List ℕ)
      → At bytes c (piece ++ rest)
      → length piece ≡ n
      → slice bytes c (c + n) ≡ piece
  At-slice n piece rest a sized =
      let e : c + n - c ≡ n = omega arith in
      ap (λ k. take k (drop c bytes)) e ∙ ap (take n) a.ahead ∙ take-append_left n piece rest sized

  pub At-advance :
      (n : ℕ) (piece rest : List ℕ)
      → At bytes c (piece ++ rest)
      → length piece ≡ n
      → At bytes (c + n) rest
  At-advance n piece rest a sized = record {
    within = omega (arith, At-length a, length-append piece rest);
    ahead = sym (drop-drop c n bytes) ∙ ap (drop n) a.ahead ∙ drop-append_left n piece rest sized;
  }

  -- It reads a little-endian word of `k` bytes.
  pub At-word :
      (k v : ℕ) (rest : List ℕ)
      → At bytes c (to_le_bytes k v ++ rest)
      → v < 256 ^ k
      → from_le_bytes (slice bytes c (c + k)) ≡ v
  At-word k v rest a h =
      ap from_le_bytes (At-slice k (to_le_bytes k v) rest a (length-to_le_bytes k v))
      ∙ from_le_bytes-to_le_bytes k v h

  pub At-get : {b : ℕ} {rest : List ℕ} → At bytes c (b ∷ rest) → get_elem? bytes c ≡ some b
  At-get a = sym (get_elem?-drop c bytes) ∙ ap (λ xs. get_elem? xs 0) a.ahead

-- `a == b` on byte strings.
abbrev pub bytes_eq : List ℕ → List ℕ → Bool
bytes_eq [] [] = true
bytes_eq [] (y ∷ ys) = false
bytes_eq (x ∷ xs) [] = false
bytes_eq (x ∷ xs) (y ∷ ys) = x == y && bytes_eq xs ys

pub bytes_eq_refl : (xs : List ℕ) → bytes_eq xs xs ≡ true
bytes_eq_refl [] = refl
bytes_eq_refl (x ∷ xs) = ground (arith, bytes_eq_refl xs)

pub bytes_eq→eq : (xs ys : List ℕ) → bytes_eq xs ys ≡ true → xs ≡ ys
bytes_eq→eq [] [] h = refl
bytes_eq→eq [] (y ∷ ys) h = cc
bytes_eq→eq (x ∷ xs) [] h = cc
bytes_eq→eq (x ∷ xs) (y ∷ ys) h = ground (arith, bytes_eq→eq xs ys)

pub ≢→bytes_eq : (xs ys : List ℕ) → xs ≢ ys → bytes_eq xs ys ≡ false
≢→bytes_eq xs ys h = elim (Bool-cases (bytes_eq xs ys)) [
  | inl e ↦ absurd (h (bytes_eq→eq xs ys e))
  | inr e ↦ e
]

pub bytes_eq→≢ : (xs ys : List ℕ) → bytes_eq xs ys ≡ false → xs ≢ ys
bytes_eq→≢ xs ys h e = let k = ap (bytes_eq xs) e in let l = bytes_eq_refl xs in cc

-- `v.iter().any(|x| x == id)`, and `contains`.
abbrev pub contains : List (List ℕ) → List ℕ → Bool
contains [] id = false
contains (x ∷ xs) id = bytes_eq x id || contains xs id

pub contains-append :
    (xs ys : List (List ℕ)) (id : List ℕ)
    → contains (xs ++ ys) id ≡ (contains xs id || contains ys id)
contains-append [] ys id = refl
contains-append (x ∷ xs) ys id = elim (Bool-cases (bytes_eq x id)) [
  | inl e ↦ rw e
  | inr e ↦ rw e (contains-append xs ys id)
]

-- No id stands in the list twice.
abbrev pub Distinct : List (List ℕ) → Type 0
Distinct [] = Unit
Distinct (x ∷ xs) = (contains xs x ≡ false) × Distinct xs
