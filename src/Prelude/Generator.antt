-- ===== src/Prelude/Generator.antt =====
-- Generator functions: the values they yield and what they return. A loop that is on fuel can stop
-- without having ended.
use mathlib.Core.Path.{◌≡◌, refl, ap}
use mathlib.Core.List.{List, [], ◌∷◌}
use rsocket.Prelude.Lists.{All}

pub data Generator {ℓ κ} (Y : Type ℓ) (A : Type κ) : Type (ℓ ⊔ κ) where
  yield : Y → Generator Y A → Generator Y A
  return : A → Generator Y A
  out_of_fuel : Generator Y A

infixl 5 ◌>>=◌
abbrev pub ◌>>=◌ {ℓ κ μ} :
    {Y : Type ℓ} {A : Type κ} {B : Type μ} → Generator Y A → (A → Generator Y B) → Generator Y B
yield y g >>= k = yield y (g >>= k)
return a >>= k = k a
out_of_fuel >>= k = out_of_fuel

pub bind_assoc {ℓ κ μ ν} :
    {Y : Type ℓ} {A : Type κ} {B : Type μ} {C : Type ν} (g : Generator Y A) (f : A → Generator Y B)
    (k : B → Generator Y C)
    → (g >>= f >>= k) ≡ (g >>= λ a. f a >>= k)
bind_assoc (yield y g) f k = ap (yield y) (bind_assoc g f k)
bind_assoc (return a) f k = refl
bind_assoc out_of_fuel f k = refl

-- What a generator yields. One that is on fuel may go on for ever, which this cuts off.
abbrev pub yields {ℓ κ} : {Y : Type ℓ} {A : Type κ} → Generator Y A → List Y
yields (yield y g) = y ∷ yields g
yields (return a) = []
yields out_of_fuel = []

-- Each value that a generator yields meets `P`.
abbrev pub Every {ℓ κ μ} : {Y : Type ℓ} {A : Type κ} → (Y → Type μ) → Generator Y A → Type μ
Every P (yield y g) = P y × Every P g
Every P (return a) = Unit
Every P out_of_fuel = Unit

pub yields-All {ℓ κ μ} :
    {Y : Type ℓ} {A : Type κ} (P : Y → Type μ) (g : Generator Y A) → Every P g → All P (yields g)
yields-All P (yield y g) (h, hs) = (h, yields-All P g hs)
yields-All P (return a) h = tt
yields-All P out_of_fuel h = tt
