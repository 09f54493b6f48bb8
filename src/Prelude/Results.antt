-- ===== src/Prelude/Results.antt =====
-- Code that returns a value or raises: a raise of `e` is `err e`.
use mathlib.Core.Path.{◌≡◌, refl}
use mathlib.Core.Logic.{◌⊎◌, inl, inr}
use mathlib.Core.Bool.{Bool, true, false}

pub data Result {ℓ} (E A : Type ℓ) : Type ℓ where
  ok : A → Result E A
  err : E → Result E A

infixl 10 ◌>>=◌
abbrev pub ◌>>=◌ {ℓ} : {E A B : Type ℓ} → Result E A → (A → Result E B) → Result E B
ok a >>= f = f a
err e >>= f = err e

-- A statement whose value is not used.
infixl 10 ◌>>◌
abbrev pub ◌>>◌ {ℓ} :
    {Error Value Out : Type ℓ} → Result Error Value → Result Error Out → Result Error Out
ok value >> next = next
err e >> next = err e

abbrev pub is_ok {ℓ} : {E A : Type ℓ} → Result E A → Bool
is_ok (ok a) = true
is_ok (err e) = false

-- A block that returned has returned at each of its steps.
pub >>=-ok {ℓ} :
    {Error Value Out : Type ℓ} (step : Result Error Value) (continue : Value → Result Error Out)
    {out : Out}
    → (step >>= continue) ≡ ok out
    → (value : Value) × (step ≡ ok value) × (continue value ≡ ok out)
>>=-ok (err e) continue h = absurd (cc h)
>>=-ok (ok value) continue h = (value, refl, h)

pub ok-injective {ℓ} : {E A : Type ℓ} {a b : A} → ◌≡◌ {A = Result E A} (ok a) (ok b) → a ≡ b
ok-injective h = cc

pub ok-cases {ℓ} : {E A : Type ℓ} (r : Result E A) → is_ok r ≡ true → (a : A) × (r ≡ ok a)
ok-cases (ok a) h = (a, refl)
ok-cases (err e) h = cc

pub Result-cases {ℓ} :
    {E A : Type ℓ} (r : Result E A) → ((a : A) × (r ≡ ok a)) ⊎ ((e : E) × (r ≡ err e))
Result-cases (ok a) = inl (a, refl)
Result-cases (err e) = inr (e, refl)
