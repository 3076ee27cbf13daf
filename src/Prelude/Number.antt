-- ===== src/Prelude/Number.antt =====
-- The JavaScript numbers that the modelled code computes with: the integers and NaN. Fractions,
-- infinities and the rounding of integers past 2 ^ 53 are left out.
use Prim.Native.Nat.{ℕ, suc, ◌+◌, ◌-◌, ◌/◌, ◌%◌, ◌^◌, ◌≤◌, ◌<◌}
use mathlib.Core.Path.{◌≡◌}
use native.Mathlib.Omega.{arith}
use mathlib.Core.Bool.{Bool, true, false}
use rsocket.Prelude.Tests.{ltb, leb, ◌==◌, if◌then◌else◌}

-- `negsuc n` is -(n + 1).
pub data Number : Type 0 where
  nan : Number
  pos : ℕ → Number
  negsuc : ℕ → Number

-- a - b for natural numbers
abbrev pub sub_ℕ : ℕ → ℕ → Number
sub_ℕ a b = if leb b a then pos (a - b) else negsuc (b - a - 1)

abbrev pub add : Number → Number → Number
add nan b = nan
add (pos a) nan = nan
add (negsuc a) nan = nan
add (pos a) (pos b) = pos (a + b)
add (pos a) (negsuc b) = sub_ℕ a (b + 1)
add (negsuc a) (pos b) = sub_ℕ b (a + 1)
add (negsuc a) (negsuc b) = negsuc (a + b + 1)

abbrev pub sub : Number → Number → Number
sub nan b = nan
sub (pos a) nan = nan
sub (negsuc a) nan = nan
sub (pos a) (pos b) = sub_ℕ a b
sub (pos a) (negsuc b) = pos (a + b + 1)
sub (negsuc a) (pos b) = negsuc (a + b)
sub (negsuc a) (negsuc b) = sub_ℕ b a

-- `a < b`, false where one side is NaN
abbrev pub lt : Number → Number → Bool
lt nan b = false
lt (pos a) nan = false
lt (negsuc a) nan = false
lt (pos a) (pos b) = ltb a b
lt (pos a) (negsuc b) = false
lt (negsuc a) (pos b) = true
lt (negsuc a) (negsuc b) = ltb b a

-- `a === b`; NaN equals nothing, itself included
abbrev pub eq : Number → Number → Bool
eq nan b = false
eq (pos a) nan = false
eq (negsuc a) nan = false
eq (pos a) (pos b) = a == b
eq (pos a) (negsuc b) = false
eq (negsuc a) (pos b) = false
eq (negsuc a) (negsuc b) = a == b

-- `Math.min(a, b)`
abbrev pub min_number : Number → Number → Number
min_number nan b = nan
min_number (pos a) nan = nan
min_number (negsuc a) nan = nan
min_number (pos a) (pos b) = if ltb a b then pos a else pos b
min_number (pos a) (negsuc b) = negsuc b
min_number (negsuc a) (pos b) = negsuc a
min_number (negsuc a) (negsuc b) = if ltb a b then negsuc b else negsuc a

-- The two's complement bits of a number, `value >>> 0` at width 32; NaN gives 0.
abbrev pub to_u32 : Number → ℕ
to_u32 nan = 0
to_u32 (pos n) = n % 2 ^ 32
to_u32 (negsuc n) = 2 ^ 32 - 1 - n % 2 ^ 32

-- `Math.floor(value / 0x100000000)`
abbrev pub high_half : Number → Number
high_half nan = nan
high_half (pos n) = pos (n / 2 ^ 32)
high_half (negsuc n) = negsuc (n / 2 ^ 32)

-- `value % 0x100000000`, which has the sign of `value`
abbrev pub low_half : Number → Number
low_half nan = nan
low_half (pos n) = pos (n % 2 ^ 32)
low_half (negsuc n) = if suc n % 2 ^ 32 == 0 then pos 0 else negsuc (suc n % 2 ^ 32 - 1)

-- The signed reading of `w` bits' worth of pattern: `int32` and `int16`.
abbrev pub signed32 : ℕ → Number
signed32 w = if ltb w (2 ^ 31) then pos w else negsuc (2 ^ 32 - w - 1)

abbrev pub signed16 : ℕ → Number
signed16 w = if ltb w (2 ^ 15) then pos w else negsuc (2 ^ 16 - w - 1)

pub sub-pos : (a b : ℕ) → b ≤ a → sub (pos a) (pos b) ≡ pos (a - b)
sub-pos a b h = ground arith

pub sub-negative : (a b : ℕ) → a < b → sub (pos a) (pos b) ≡ negsuc (b - a - 1)
sub-negative a b h = ground arith
