-- ===== src/Prelude/Maps.antt =====
-- A hash map from byte strings, as the list of its entries: a key has one entry at most.
use mathlib.Core.Path.{◌≡◌, refl, sym, ap, ◌∙◌}
use mathlib.Core.Bool.{Bool}
use mathlib.Core.Option.{Option, none, some}
use mathlib.Core.Logic.{◌≢◌, inl, inr}
use mathlib.Core.List.{List, [], ◌∷◌}
use Prim.Native.Nat.{ℕ}
use construct_core.Prelude.Tests.{if◌then◌else◌, Bool-cases}
use construct_core.Prelude.Bytes.{bytes_eq, bytes_eq_refl, bytes_eq→eq, ≢→bytes_eq, bytes_eq→≢}

module _ {ℓ} {V : Type ℓ} where
  unfoldable pub lookup : List (List ℕ × V) → List ℕ → Option V
  lookup [] key = none
  lookup ((k, v) ∷ entries) key =
      let rest = lookup entries key in if bytes_eq k key then some v else rest

  -- The entries whose key and value pass a test.
  unfoldable pub retain : (List ℕ → V → Bool) → List (List ℕ × V) → List (List ℕ × V)
  retain keep [] = []
  retain keep ((k, v) ∷ entries) =
      let rest = retain keep entries in if keep k v then ((k, v) ∷ rest) else rest

  unfoldable pub remove : List ℕ → List (List ℕ × V) → List (List ℕ × V)
  remove key [] = []
  remove key ((k, v) ∷ entries) =
      let rest = remove key entries in if bytes_eq k key then rest else (k, v) ∷ rest

  abbrev pub insert : List ℕ → V → List (List ℕ × V) → List (List ℕ × V)
  insert key v entries = (key, v) ∷ remove key entries

  abbrev pub IsMap : List (List ℕ × V) → Type ℓ
  IsMap [] = Unit
  IsMap ((k, v) ∷ entries) = (lookup entries k ≡ none) × IsMap entries

  pub lookup-remove_same : (key : List ℕ) (m : List (List ℕ × V)) → lookup (remove key m) key ≡ none
  unfolding lookup remove
  lookup-remove_same key [] = refl
  lookup-remove_same key ((k, v) ∷ m) = elim (Bool-cases (bytes_eq k key)) [
    | inl e ↦ rw (e, remove) (lookup-remove_same key m)
    | inr e ↦ rw e (rw e (lookup-remove_same key m))
  ]

  pub lookup-remove_other :
      (key other : List ℕ) (m : List (List ℕ × V))
      → other ≢ key
      → lookup (remove key m) other ≡ lookup m other
  unfolding lookup remove
  lookup-remove_other key other [] h = refl
  lookup-remove_other key other ((k, v) ∷ m) h = elim (Bool-cases (bytes_eq k key)) [
    | inl e ↦
        let ne = ≢→bytes_eq k other (λ q. h (sym q ∙ bytes_eq→eq k key e)) in
        rw (e, remove, ne) (lookup-remove_other key other m h)
    | inr e ↦
        rw (e, remove)
          (ap (λ r. if bytes_eq k other then some v else r) (lookup-remove_other key other m h))
  ]

  pub lookup-insert_same :
      (key : List ℕ) (v : V) (m : List (List ℕ × V)) → lookup (insert key v m) key ≡ some v
  unfolding lookup
  lookup-insert_same key v m = rw (bytes_eq_refl key)

  pub lookup-insert_other :
      (key other : List ℕ) (v : V) (m : List (List ℕ × V))
      → other ≢ key
      → lookup (insert key v m) other ≡ lookup m other
  unfolding lookup
  lookup-insert_other key other v m h =
      rw (≢→bytes_eq key other (λ q. h (sym q))) (lookup-remove_other key other m h)

  lookup-remove-none :
      (key other : List ℕ) (m : List (List ℕ × V))
      → lookup m other ≡ none
      → lookup (remove key m) other ≡ none
  lookup-remove-none key other m h = elim (Bool-cases (bytes_eq other key)) [
    | inl e ↦ ap (lookup (remove key m)) (bytes_eq→eq other key e) ∙ lookup-remove_same key m
    | inr e ↦ lookup-remove_other key other m (bytes_eq→≢ other key e) ∙ h
  ]

  pub remove-IsMap : (key : List ℕ) (m : List (List ℕ × V)) → IsMap m → IsMap (remove key m)
  unfolding remove
  remove-IsMap key [] h = tt
  remove-IsMap key ((k, v) ∷ m) (h, w) = elim (Bool-cases (bytes_eq k key)) [
    | inl e ↦ rw e (remove-IsMap key m w)
    | inr e ↦ rw e (lookup-remove-none key k m h, remove-IsMap key m w)
  ]

  pub insert-IsMap :
      (key : List ℕ) (v : V) (m : List (List ℕ × V)) → IsMap m → IsMap (insert key v m)
  insert-IsMap key v m h = (lookup-remove_same key m, remove-IsMap key m h)

  -- What a pass of `retain` leaves of an entry.
  abbrev pub kept : (List ℕ → V → Bool) → List ℕ → Option V → Option V
  kept keep key none = none
  kept keep key (some v) = if keep key v then some v else none

  pub lookup-retain :
      (keep : List ℕ → V → Bool) (key : List ℕ) (m : List (List ℕ × V))
      → IsMap m
      → lookup (retain keep m) key ≡ kept keep key (lookup m key)
  unfolding lookup retain
  lookup-retain keep key [] h = refl
  lookup-retain keep key ((k, v) ∷ m) (fresh, h) =
      let rest = lookup-retain keep key m h in
      elim (Bool-cases (bytes_eq k key)) [
        | inl e ↦
            let same = bytes_eq→eq k key e in
            elim (Bool-cases (keep key v)) [
              | inl held ↦ rw (e, ap (λ x. keep x v) same, held) (rw e refl)
              | inr gone ↦
                  rw (e, ap (λ x. keep x v) same, gone)
                    (rest ∙ ap (kept keep key) (ap (lookup m) (sym same) ∙ fresh))
            ]
        | inr e ↦ elim (Bool-cases (keep k v)) [
          | inl held ↦ rw (e, held) (rw e rest)
          | inr gone ↦ rw (e, gone) rest
        ]
      ]

  pub retain-IsMap :
      (keep : List ℕ → V → Bool) (m : List (List ℕ × V)) → IsMap m → IsMap (retain keep m)
  unfolding retain
  retain-IsMap keep [] h = tt
  retain-IsMap keep ((k, v) ∷ m) (fresh, h) = elim (Bool-cases (keep k v)) [
    | inl held ↦ rw held (lookup-retain keep k m h ∙ ap (kept keep k) fresh, retain-IsMap keep m h)
    | inr gone ↦ rw gone (retain-IsMap keep m h)
  ]
