-- ===== src/Common/Fallible.antt =====
-- Rust's `Result`, with the bind that `?` stands for.
use mathlib.Core.Path.{◌≡◌, refl}
use mathlib.Core.Logic.{◌⊎◌, inl, inr}
use mathlib.Core.Option.{Option, none, some}

pub data Result {ℓ κ} (E : Type ℓ) (A : Type κ) : Type (ℓ ⊔ κ) where
  ok : A → Result E A
  err : E → Result E A

infixl 5 ◌>>=◌ ◌>>◌
abbrev pub ◌>>=◌ {ℓ κ λ₁} :
    {E : Type ℓ} {A : Type κ} {B : Type λ₁} → Result E A → (A → Result E B) → Result E B
ok a >>= f = f a
err e >>= f = err e

abbrev pub ◌>>◌ {ℓ κ} : {E : Type ℓ} {B : Type κ} → Result E (Unit {0}) → Result E B → Result E B
m >> k = m >>= λ _. k

-- `Result::map`
abbrev pub map_ok {ℓ κ λ₁} :
    {E : Type ℓ} {A : Type κ} {B : Type λ₁} → (A → B) → Result E A → Result E B
map_ok f (ok a) = ok (f a)
map_ok f (err e) = err e

-- `Result::map_err`
abbrev pub map_error {ℓ κ λ₁} :
    {E : Type ℓ} {F : Type κ} {A : Type λ₁} → (E → F) → Result E A → Result F A
map_error f (ok a) = ok a
map_error f (err e) = err (f e)

-- `Option::ok_or_else`
abbrev pub ok_or {ℓ κ} : {E : Type ℓ} {A : Type κ} → E → Option A → Result E A
ok_or e none = err e
ok_or e (some a) = ok a

pub Result-cases {ℓ κ} :
    {E : Type ℓ} {A : Type κ} (r : Result E A) → ((e : E) × (r ≡ err e)) ⊎ ((a : A) × (r ≡ ok a))
Result-cases (ok a) = inr (a, refl)
Result-cases (err e) = inl (e, refl)
