-- ===== src/Prelude/Results.antt =====
-- The result of code that may throw: a value, or the exception.
use mathlib.Core.Path.{◌≡◌, refl, ap}

pub data Result {ℓ κ} (E : Type ℓ) (A : Type κ) : Type (ℓ ⊔ κ) where
  ok : A → Result E A
  err : E → Result E A

-- The value goes on to the rest of the code, and the exception leaves it.
abbrev pub after {ℓ κ μ} :
    {E : Type ℓ} {A : Type κ} {B : Type μ} → Result E A → (A → Result E B) → Result E B
after r rest = elim r [ ok a ↦ rest a | err e ↦ err e ]

pub ok-injective {ℓ κ} :
    {E : Type ℓ} {A : Type κ} {a b : A} → ◌≡◌ {A = Result E A} (ok a) (ok b) → a ≡ b
ok-injective {E = E} {A = A} {a = a} h =
    let value : Result E A → A = λ r. elim r [ ok c ↦ c | err e ↦ a ] in ap value h

-- A result of the whole is one of the rest, after one of the first part.
pub after-ok {ℓ κ μ} :
    {E : Type ℓ} {A : Type κ} {B : Type μ} (r : Result E A) {rest : A → Result E B} {b : B}
    → after r rest ≡ ok b
    → (a : A) × (r ≡ ok a) × (rest a ≡ ok b)
after-ok (ok a) h = (a, refl, h)
after-ok (err e) h = cc
