-- ===== src/Float.antt =====
-- Go's float64 (IEEE 754 binary64) and the part of math/big's Float that the program uses.
-- A finite value is an integer count of the smallest subnormal, 2 ^ -1074, so an order is an order
-- of integers and every operation is one rounding of an exact quotient. -0 and +0 are one value;
-- the program divides by no zero that could be negative.
pub mod Round
pub mod Order
pub mod Fixed
use inso_validator.Prelude.{
  ℕ, suc, ◌-◌, ◌*◌, ◌/◌, ◌^◌, Bool, true, false, not, ◌&&◌, ltb, leb, ◌==◌, if◌then◌else◌, Option,
  none, some,
}
use inso_validator.Prelude.Int.{ℤ, pos, negsuc, sub_ℕ, ◌+ℤ◌, ltb_ℤ, leb_ℤ}
use Round.{round}

-- `inf true` is minus infinity.
pub data Float : Type 0 where
  fin : ℤ → Float
  inf : Bool → Float
  nan : Float

-- The units in 1.0, half of the 2 ^ 53 values of a significand, and the units that overflow.
unfoldable pub unit : ℕ
unit = 2 ^ 1074

unfoldable pub half_limit : ℕ
half_limit = 2 ^ 52

unfoldable pub overflow : ℕ
overflow = 2 ^ 2098

-- A quotient below `overflow` fits 53 bits after 2045 doublings of the unit.
unfoldable pub round_fuel : ℕ
round_fuel = 2046

abbrev pub is_neg : ℤ → Bool
is_neg (pos _) = false
is_neg (negsuc _) = true

abbrev pub abs : ℤ → ℕ
abs (pos n) = n
abs (negsuc n) = suc n

abbrev pub signed : Bool → ℕ → ℤ
signed true n = sub_ℕ 0 n
signed false n = pos n

abbrev pub xor : Bool → Bool → Bool
xor true b = not b
xor false b = b

unfoldable pub pack : Bool → ℕ → Float
pack neg n = if ltb n overflow then fin (signed neg n) else inf neg

-- The float64 nearest to num / den units.
unfoldable pub quotient : Bool → ℕ → ℕ → Float
quotient neg num den = pack neg (round (2 * half_limit) round_fuel num den)

unfoldable pub add : Float → Float → Float
add (fin a) (fin b) = let s = a +ℤ b in quotient (is_neg s) (abs s) 1
add (fin a) (inf t) = inf t
add (inf s) (fin b) = inf s
add (inf s) (inf t) = if xor s t then nan else inf s
add _ _ = nan

unfoldable pub mul : Float → Float → Float
mul (fin a) (fin b) = quotient (xor (is_neg a) (is_neg b)) (abs a * abs b) unit
mul (fin a) (inf t) = if abs a == 0 then nan else inf (xor (is_neg a) t)
mul (inf s) (fin b) = if abs b == 0 then nan else inf (xor s (is_neg b))
mul (inf s) (inf t) = inf (xor s t)
mul _ _ = nan

unfoldable pub div : Float → Float → Float
div (fin a) (fin b) =
    if abs b == 0
    then if abs a == 0 then nan else inf (is_neg a)
    else quotient (xor (is_neg a) (is_neg b)) (abs a * unit) (abs b)
div (fin a) (inf t) = fin (pos 0)
div (inf s) (fin b) = inf (xor s (is_neg b))
div _ _ = nan

-- `a < b` and `a <= b`, which fail on a NaN.
unfoldable pub lt : Float → Float → Bool
lt (fin a) (fin b) = ltb_ℤ a b
lt (fin a) (inf t) = not t
lt (inf s) (fin b) = s
lt (inf s) (inf t) = s && not t
lt _ _ = false

unfoldable pub le : Float → Float → Bool
le (fin a) (fin b) = leb_ℤ a b
le (fin a) (inf t) = not t
le (inf s) (fin b) = s
le (inf true) (inf t) = true
le (inf false) (inf t) = not t
le _ _ = false

-- `a == 0`
unfoldable pub is_zero : Float → Bool
is_zero (fin a) = abs a == 0
is_zero _ = false

-- `float64(n)`
unfoldable pub of_ℕ : ℕ → Float
of_ℕ n = quotient false (n * unit) 1

-- The constant n / d, such as 0.85.
unfoldable pub const : ℕ → ℕ → Float
const n d = quotient false (n * unit) d

-- `math.Min`, away from the zeros.
unfoldable pub min : Float → Float → Float
min (inf true) b = inf true
min a (inf true) = inf true
min nan b = nan
min a nan = nan
min a b = if lt a b then a else b

-- `uint64(f)` where the language defines it: the truncated value lies in the range. `none` is the
-- implementation-defined rest.
unfoldable pub to_uint64 : Float → Option ℕ
to_uint64 (fin (pos n)) = let q = n / unit in if ltb q (2 ^ 64) then some q else none
to_uint64 (fin (negsuc n)) = if ltb n (unit - 1) then some 0 else none
to_uint64 _ = none
