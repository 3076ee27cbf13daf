-- ===== src/Prelude/Result.antt =====
-- JavaScript exceptions as values.
use mathlib.Core.Path.{◌≡◌, refl}

-- What the modelled code, or the language under it, throws.
pub data Error : Type 0 where
  -- `Uint8Array.prototype.set` past the end of the target
  range_error : Error
  -- `new Error("RSocketBinaryFraming: Unsupported frame type")`
  unsupported_frame : Error
  -- an `RSocketError` with `ErrorCodes.CONNECTION_ERROR`
  connection_error : Error

pub data Result {ℓ} (A : Type ℓ) : Type ℓ where
  ok : A → Result A
  err : Error → Result A

infixl 5 ◌>>=◌
abbrev pub ◌>>=◌ {ℓ κ} : {A : Type ℓ} {B : Type κ} → Result A → (A → Result B) → Result B
◌>>=◌ (err thrown) rest = err thrown
◌>>=◌ (ok value) rest = rest value

-- A sequence that returns has a first step that returns.
pub first_step {ℓ κ} :
    {B : Type κ} {A : Type ℓ} {b : B} (step : Result A) (rest : A → Result B)
    → (step >>= rest) ≡ ok b
    → (a : A) × (step ≡ ok a) × (rest a ≡ ok b)
first_step (err thrown) rest returns = cc
first_step (ok value) rest returns = (value, refl, returns)

pub ok-injective {ℓ} : {A : Type ℓ} {a b : A} → ok a ≡ ok b → a ≡ b
ok-injective returns = cc

pub bind_assoc {ℓ κ μ} :
    {A : Type ℓ} {B : Type κ} {C : Type μ} (step : Result A) (f : A → Result B) (k : B → Result C)
    → (step >>= f >>= k) ≡ (step >>= λ a. f a >>= k)
bind_assoc (err thrown) f k = refl
bind_assoc (ok value) f k = refl
