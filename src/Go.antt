-- ===== src/Go.antt =====
-- What a call of a Go function does: it returns, or it panics (here: a nil pointer is read).
use ack_dms_controller.Base.{Option, inl, inr, none, refl, some, ◌≡◌, ◌⊎◌}

pub data Go {ℓ} (A : Type ℓ) : Type ℓ where
  returns : A → Go A
  panics : Go A

infixl 5 ◌>>=◌
abbrev pub ◌>>=◌ {ℓ κ} : {A : Type ℓ} {B : Type κ} → Go A → (A → Go B) → Go B
returns a >>= f = f a
panics >>= f = panics

-- `*p`
abbrev pub deref {ℓ} : {A : Type ℓ} → Option A → Go A
deref none = panics
deref (some a) = returns a

pub Go-cases {ℓ} : {A : Type ℓ} (g : Go A) → (g ≡ panics) ⊎ ((a : A) × (g ≡ returns a))
Go-cases (returns a) = inr (a, refl)
Go-cases panics = inl refl
