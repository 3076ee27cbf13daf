-- ===== src/Prelude/Tests.antt =====
-- Boolean tests on the native numbers, and the conditional.
use Prim.Native.Nat.{ℕ, ◌≤◌, ◌<◌, compare, Ordering}
use mathlib.Core.Path.{◌≡◌, refl}
use mathlib.Core.Logic.{◌⊎◌, inl, inr}
use mathlib.Core.Bool.{Bool, true, false, ◌||◌}
use mathlib.Core.Option.{Option, none, some}
use native.Mathlib.Omega.{arith}

abbrev pub ltb : ℕ → ℕ → Bool
ltb a b = elim (compare a b) [ Ordering.lt ↦ true | _ ↦ false ]

abbrev pub leb : ℕ → ℕ → Bool
leb a b = elim (compare a b) [ Ordering.gt ↦ false | _ ↦ true ]

infix 50 ◌==◌
abbrev pub ◌==◌ : ℕ → ℕ → Bool
a == b = elim (compare a b) [ Ordering.eq ↦ true | _ ↦ false ]

infix 1 if◌then◌else◌
abbrev pub if◌then◌else◌ {ℓ} : {A : Type ℓ} → Bool → A → A → A
if true then x else y = x
if false then x else y = y

-- To split on a computed value and keep the equation.
pub Bool-cases : (b : Bool) → (b ≡ true) ⊎ (b ≡ false)
Bool-cases true = inl refl
Bool-cases false = inr refl

pub Option-cases {ℓ} : {A : Type ℓ} (o : Option A) → (o ≡ none) ⊎ ((a : A) × (o ≡ some a))
Option-cases none = inl refl
Option-cases (some a) = inr (a, refl)

pub or_true : (a : Bool) → (a || true) ≡ true
or_true true = refl
or_true false = refl

pub lt→ltb : (a b : ℕ) → a < b → ltb a b ≡ true
lt→ltb a b h = ground arith

pub le→ltb : (a b : ℕ) → b ≤ a → ltb a b ≡ false
le→ltb a b h = ground arith

pub at_most-cases : (a b : ℕ) → (a ≤ b) ⊎ (b < a)
at_most-cases a b = ground arith

-- A predicate on values that a test chooses: it holds of the value if it holds of both branches, and
-- each branch may use what the test says.
module _ {ℓ κ} {A : Type ℓ} (Good : A → Type κ) where
  pub if_cases :
      (test : Bool) {first second : A}
      → (test ≡ true → Good first)
      → (test ≡ false → Good second)
      → Good (if test then first else second)
  if_cases true yes_first no_second = yes_first refl
  if_cases false yes_first no_second = no_second refl

  pub if_both :
      (test : Bool) {first second : A}
      → Good first
      → Good second
      → Good (if test then first else second)
  if_both test good_first good_second = if_cases test (λ t. good_first) (λ t. good_second)

module _ {ℓ} {A : Type ℓ} (b : Bool) (x y : A) where
  pub if_true : b ≡ true → (if b then x else y) ≡ x
  if_true e = rw e refl

  pub if_false : b ≡ false → (if b then x else y) ≡ y
  if_false e = rw e refl
