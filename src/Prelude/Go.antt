-- ===== src/Prelude/Go.antt =====
-- A Go call returns or panics.
use mathlib.Core.Path.{◌≡◌, refl}
use mathlib.Core.Logic.{◌⊎◌, inl, inr}

pub data Go {ℓ} (A : Type ℓ) : Type ℓ where
  ok : A → Go A
  panic : Go A

infixl 5 ◌>>=◌ ◌>>◌
abbrev pub ◌>>=◌ {ℓ κ} : {A : Type ℓ} {B : Type κ} → Go A → (A → Go B) → Go B
ok a >>= f = f a
panic >>= f = panic

abbrev pub ◌>>◌ {ℓ κ} : {A : Type ℓ} {B : Type κ} → Go A → Go B → Go B
m >> k = m >>= λ _. k

pub Go-cases {ℓ} : {A : Type ℓ} (m : Go A) → (m ≡ panic) ⊎ ((a : A) × (m ≡ ok a))
Go-cases panic = inl refl
Go-cases (ok a) = inr (a, refl)
