-- ===== src/Base/Results.antt =====
-- A Go result (value, error): the value or the error.
use mathlib.Core.Path.{◌≡◌, refl}
use mathlib.Core.Logic.{◌⊎◌, inl, inr}
use mathlib.Core.Bool.{Bool, true, false}

pub data Result {ℓ} (E : Type 0) (A : Type ℓ) : Type ℓ where
  ok : A → Result E A
  err : E → Result E A

infixl 5 ◌>>=◌
abbrev pub ◌>>=◌ {ℓ κ} :
    {E : Type 0} {A : Type ℓ} {B : Type κ} → Result E A → (A → Result E B) → Result E B
ok a >>= f = f a
err e >>= f = err e

abbrev pub succeeds {ℓ} : {E : Type 0} {A : Type ℓ} → Result E A → Bool
succeeds (ok a) = true
succeeds (err e) = false

-- A chain that ends well: its first part does, and so does what follows on its value.
pub >>=-eq-ok {ℓ κ} :
    {A : Type ℓ} {B : Type κ} {E : Type 0} (r : Result E A) (k : A → Result E B) {last : B}
    → (r >>= k) ≡ ok last
    → (first : A) × (r ≡ ok first) × (k first ≡ ok last)
>>=-eq-ok (err problem) k ends = cc
>>=-eq-ok (ok first) k ends = (first, refl, ends)

pub Result-cases {ℓ} :
    {E : Type 0} {A : Type ℓ} (r : Result E A) → ((a : A) × (r ≡ ok a)) ⊎ ((e : E) × (r ≡ err e))
Result-cases (ok a) = inl (a, refl)
Result-cases (err e) = inr (e, refl)

pub ok-injective {ℓ} :
    {E : Type 0} {A : Type ℓ} (a b : A) (r : Result E A) → r ≡ ok a → r ≡ ok b → a ≡ b
ok-injective a b r g h = cc
