-- ===== src/Prelude/Words.antt =====
-- Machine words. An `int64` is its bit pattern, a number below 2 ^ 64, with wrap-around written out.
use Prim.Native.Nat.{ℕ, zero, suc, ◌+◌, ◌-◌, ◌*◌, ◌/◌, ◌%◌, ◌^◌, ◌<◌}
use mathlib.Core.Path.{◌≡◌}
use mathlib.Core.Bool.{Bool, true, false}
use mathlib.Core.List.{[], ◌∷◌}
use mathlib.Core.Option.{Option, none, some}
use native.Mathlib.Nat.{div-le_self}
use native.Mathlib.Omega.{arith}
use phantom_grid.Prelude.Tests.{leb, ltb, ◌==◌, if◌then◌else◌}
use phantom_grid.Prelude.Bytes.{Bytes}

abbrev pub word64 : ℕ
word64 = 2 ^ 64

abbrev pub sign_bit : ℕ
sign_bit = 2 ^ 63

-- x < 0
abbrev pub is_negative : ℕ → Bool
is_negative x = leb sign_bit x

abbrev pub add64 : ℕ → ℕ → ℕ
add64 a b = (a + b) % word64

abbrev pub sub64 : ℕ → ℕ → ℕ
sub64 a b = (a + word64 - b) % word64

abbrev pub mul64 : ℕ → ℕ → ℕ
mul64 a b = (a * b) % word64

-- -x; the least `int64` is its own negation
abbrev pub neg64 : ℕ → ℕ
neg64 x = (word64 - x) % word64

-- a > b
abbrev pub greater64 : ℕ → ℕ → Bool
greater64 a b = ltb ((b + sign_bit) % word64) ((a + sign_bit) % word64)

-- |x| of a negative or a non-negative pattern
abbrev pub magnitude : ℕ → ℕ
magnitude x = if is_negative x then word64 - x else x

-- The pattern of `q` or of `-q`, by the signs of the operands.
abbrev pub with_sign : Bool → Bool → ℕ → ℕ
with_sign true false q = neg64 q
with_sign false true q = neg64 q
with_sign _ _ q = q % word64

-- a / b on `int64` cuts towards zero, and panics at 0.
unfoldable pub div64 : ℕ → ℕ → Option ℕ
div64 a b =
    if b == 0
    then none
    else some (with_sign (is_negative a) (is_negative b) (magnitude a / magnitude b))

-- binary.BigEndian.PutUint64 and PutUint32 write `be_bytes 8` and `be_bytes 4`.
unfoldable pub be_bytes : ℕ → ℕ → Bytes
be_bytes zero n = []
be_bytes (suc k) n = n / 256 ^ k % 256 ∷ be_bytes k n

-- binary.BigEndian.Uint64 and Uint32 of a slice of that length.
unfoldable pub be_nat_onto : ℕ → Bytes → ℕ
be_nat_onto acc [] = acc
be_nat_onto acc (b ∷ bs) = be_nat_onto (acc * 256 + b) bs

abbrev pub be_nat : Bytes → ℕ
be_nat bs = be_nat_onto 0 bs

pub be_nat-be_bytes_four : (n : ℕ) → n < 2 ^ 32 → be_nat (be_bytes 4 n) ≡ n
unfolding be_bytes be_nat_onto
be_nat-be_bytes_four n h = omega arith

pub be_nat-be_bytes_eight : (n : ℕ) → n < 2 ^ 64 → be_nat (be_bytes 8 n) ≡ n
unfolding be_bytes be_nat_onto
be_nat-be_bytes_eight n h = omega arith

-- On non-negative values the division is that of ℕ.
pub div64_pos : (a b : ℕ) → 0 < b → a < sign_bit → b < sign_bit → div64 a b ≡ some (a / b)
unfolding div64
div64_pos a b p h k = ground (arith, div-le_self a b)

pub div64_total : (a b : ℕ) → 0 < b → (q : ℕ) × (div64 a b ≡ some q)
unfolding div64
div64_total a b p =
    (with_sign (is_negative a) (is_negative b) (magnitude a / magnitude b), ground arith)
