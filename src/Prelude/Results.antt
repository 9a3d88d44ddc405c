-- ===== src/Prelude/Results.antt =====
-- Rust's `Result<A, E>`, with the `?` operator as the bind of a `do` block.
use mathlib.Core.Path.{◌≡◌, refl, ap}
use mathlib.Core.Logic.{◌⊎◌, inl, inr}
use mathlib.Core.Bool.{Bool, true, false}
use mathlib.Core.Option.{Option, none, some}

pub data Result {ℓ κ} (E : Type κ) (A : Type ℓ) : Type (ℓ ⊔ κ) where
  ok : (value : A) → Result E A
  err : (error : E) → Result E A

module _ {ℓ ℓ' κ} {E : Type κ} {A : Type ℓ} {B : Type ℓ'} where
  infixl 5 ◌>>=◌
  abbrev pub ◌>>=◌ : (step : Result E A) → (A → Result E B) → Result E B
  ok value >>= next = next value
  err why >>= next = err why

  pub >>=-eq-ok :
      (first : Result E A) (next : A → Result E B) {last : B}
      → (first >>= next) ≡ ok last
      → (between : A) × (first ≡ ok between) × (next between ≡ ok last)
  >>=-eq-ok (ok value) next h = (value, refl, h)
  >>=-eq-ok (err why) next h = cc

  -- Two continuations that agree on what is there.
  pub >>=-cong :
      (first : Result E A) (f g : A → Result E B)
      → ((a : A) → first ≡ ok a → f a ≡ g a)
      → (first >>= f) ≡ (first >>= g)
  >>=-cong (ok value) f g h = h value refl
  >>=-cong (err why) f g h = refl

module _ {ℓ κ} {E : Type κ} {A : Type ℓ} where
  infixl 5 ◌>>◌
  abbrev pub ◌>>◌ : (test : Result E (Unit {0})) → Result E A → Result E A
  test >> next = test >>= λ _. next

  -- `ok_or(e)?`.
  abbrev pub ok_or : Option A → E → Result E A
  ok_or none error = err error
  ok_or (some a) e = ok a

-- `r.map_err(f)`.
abbrev pub map_err {ℓ κ ν} :
    {E : Type κ} {F : Type ν} {A : Type ℓ} → (E → F) → Result E A → Result F A
map_err f (ok value) = ok value
map_err f (err why) = err (f why)

pub Result-cases {ℓ κ} :
    {E : Type κ} {A : Type ℓ} (r : Result E A)
    → ((value : A) × (r ≡ ok value)) ⊎ ((why : E) × (r ≡ err why))
Result-cases (ok value) = inl (value, refl)
Result-cases (err why) = inr (why, refl)

-- `if bad { return Err(e) }`.
abbrev pub fail_if {κ} : {E : Type κ} → Bool → E → Result E (Unit {0})
fail_if true error = err error
fail_if false error = ok tt

-- A chain of early returns that ends in `ok` passed each test.
pub fail_if-ok {ℓ κ} :
    {E : Type κ} {A : Type ℓ} (b : Bool) (e : E) (k : Result E A) (a : A)
    → (fail_if b e >> k) ≡ ok a
    → (b ≡ false) × (k ≡ ok a)
fail_if-ok true e k a h = cc
fail_if-ok false e k a h = (refl, h)

value_or {ℓ κ} : {E : Type κ} {A : Type ℓ} → Result E A → A → A
value_or (ok value) a = value
value_or (err why) a = a

pub ok-injective {ℓ κ} :
    {E : Type κ} {A : Type ℓ} {a b : A} → ◌≡◌ {A = Result E A} (ok a) (ok b) → a ≡ b
unfolding value_or
ok-injective {a} h = ap (λ r. value_or r a) h
