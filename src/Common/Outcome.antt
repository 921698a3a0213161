-- ===== src/Common/Outcome.antt =====
-- Results of code that may throw: the value, or the kind of the exception.
use mathlib.Core.Path.{◌≡◌, refl}
use mathlib.Core.Logic.{◌⊎◌, inl, inr}

-- `std::bad_alloc`, `std::runtime_error` and `std::logic_error`. The message texts are left out.
pub data Error : Type 0 where
  bad_alloc runtime_error logic_error : Error

pub data Result {ℓ} (A : Type ℓ) : Type ℓ where
  ok : A → Result A
  err : Error → Result A

pub Result-cases {ℓ} :
    {A : Type ℓ} (r : Result A) → ((e : Error) × (r ≡ err e)) ⊎ ((a : A) × (r ≡ ok a))
Result-cases (err thrown) = inl (thrown, refl)
Result-cases (ok value) = inr (value, refl)

-- What follows a call that may throw is skipped when it does.
infixl 5 ◌>>=◌
abbrev pub ◌>>=◌ {ℓ κ} : {A : Type ℓ} {B : Type κ} → Result A → (A → Result B) → Result B
err thrown >>= rest = err thrown
ok value >>= rest = rest value
