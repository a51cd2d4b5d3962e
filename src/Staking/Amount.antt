-- ===== src/Staking/Amount.antt =====
-- The amount that `Slash` takes: a product of big.Floats, truncated to an integer.
use native.Mathlib.Nat.{mul-le-mul_left, div-le_of_le-mul, mul_comm, mul-div_cancel}
use inso_validator.Prelude.{
  ℕ, zero, suc, ◌+◌, ◌*◌, ◌/◌, ◌^◌, ◌≤◌, ◌<◌, ◌≡◌, refl, ap, ltb, if◌then◌else◌, Option, none, some,
  arith, true, false,
}
use inso_validator.Prelude.Int.{ℤ, pos}
use inso_validator.Float.{
  Float, fin, unit, abs, is_neg, signed, xor, div, le, is_zero, const, quotient, pack, half_limit,
  round_fuel, overflow,
}
use inso_validator.Float.Round.{round, round-le, round-exact, IsExact, small, IsExact-shift}
use inso_validator.Float.Order.{
  IsNonneg, is_finite, unit_pos, div-mono_left, div-IsNonneg, finite_below, quotient-IsNonneg,
}

-- The precision of a big.Float set to the integer `a`, at least 64 bits: `2 * half` is 2 to it.
grow : ℕ → ℕ → ℕ → ℕ
grow zero a half = half
grow (suc fuel) a half =
    let wider = grow fuel a (2 * half) in if ltb a (2 * half) then half else wider

-- Half of 2 ^ max(64, bits of `a`); `a` doublings are enough for `a`.
unfoldable pub precision : ℕ → ℕ
unfolding grow
precision a = grow a a (2 ^ 63)

-- The product has at most 2098 bits more than `a`.
unfoldable pub product_fuel : ℕ
product_fuel = 2098

-- Amount * (percentage / 100), rounded to the precision of the amount, truncated towards zero.
-- `none` is the panic on a NaN or an infinity.
unfoldable pub slash_amount : ℤ → Float → Option ℤ
slash_amount amount percentage = elim (div percentage (const 100 1)) [
  | fin q ↦
      let product = round (2 * precision (abs amount)) product_fuel (abs amount * abs q) 1 in
      some (signed (xor (is_neg amount) (is_neg q)) (product / unit))
  | _ ↦ none
]

precision_enough : (fuel a half : ℕ) → 0 < half → a < 2 * half + fuel → a ≤ 2 * grow fuel a half
unfolding grow
precision_enough zero a half p h = omega arith
precision_enough (suc fuel) a half p h =
    ground (arith, precision_enough fuel a (2 * half) (omega arith))

le-precision : (a : ℕ) → a ≤ 2 * precision a
unfolding precision
le-precision a = precision_enough a a (2 ^ 63) (omega arith) (omega arith)

precision_pos : (a : ℕ) → 0 < precision a
unfolding precision
precision_pos a = go a a (2 ^ 63) (omega arith)
  where
    go : (fuel a half : ℕ) → 0 < half → 0 < grow fuel a half
    go zero a half p = unfold grow in p
    go (suc fuel) a half p =
        let next = go fuel a (2 * half) (omega arith) in unfold grow in ground arith

whole-IsExact : (a : ℕ) → IsExact (precision a) (precision_pos a) (a * unit)
unfolding unit
whole-IsExact a = IsExact-shift (precision a) (precision_pos a) 1074 (small a (le-precision a))

-- At most the whole amount, and exactly that for the whole share.
product-le : (a q : ℕ) → q ≤ unit → round (2 * precision a) product_fuel (a * q) 1 / unit ≤ a
product-le a q h = div-le_of_le-mul unit (
    rw (mul_comm unit a) (
      round-le (precision a) (precision_pos a) product_fuel (a * unit) (a * q) 1 (omega arith)
        (whole-IsExact a) (omega (arith, mul-le-mul_left a h))))

product_whole : (a : ℕ) → round (2 * precision a) product_fuel (a * unit) 1 / unit ≡ a
product_whole a =
    rw (round-exact (precision a) (precision_pos a) product_fuel (a * unit) (whole-IsExact a))
      (mul-div_cancel a unit_pos)

hundred_finite : is_finite (const 100 1) ≡ true
unfolding const quotient pack round half_limit round_fuel overflow unit
hundred_finite = refl

whole : div (const 100 1) (const 100 1) ≡ fin (pos unit)
unfolding div const quotient pack round half_limit round_fuel overflow unit
whole = refl

hundred_nonzero : is_zero (const 100 1) ≡ false
unfolding is_zero const quotient pack round half_limit round_fuel overflow unit
hundred_nonzero = refl

finite_units :
    (f : Float)
    → is_finite f ≡ true
    → le f (fin (pos unit)) ≡ true
    → (q : ℕ) × (f ≡ fin (pos q)) × (q ≤ unit)
finite_units (fin (pos q)) h k = (q, refl, unfold le in ground arith)
finite_units f h k = absurd (cc)

-- A percentage from 0 to 100 is a share of at most one.
share :
    (percentage : Float)
    → IsNonneg percentage
    → le percentage (const 100 1) ≡ true
    → (q : ℕ) × (div percentage (const 100 1) ≡ fin (pos q)) × (q ≤ unit)
share percentage nonneg h =
    let below : le (div percentage (const 100 1)) (fin (pos unit)) ≡ true = rw whole at (
      div-mono_left percentage (const 100 1) (const 100 1) nonneg (hundred_nonneg) hundred_finite
        hundred_nonzero h) in
    finite_units _
      (finite_below _ _
        (div-IsNonneg percentage (const 100 1) nonneg hundred_finite hundred_nonzero) refl below)
      below
  where
    hundred_nonneg : IsNonneg (const 100 1)
    hundred_nonneg = unfold const in quotient-IsNonneg _ _

pub slash_amount_bounds :
    (a : ℕ) (percentage : Float)
    → IsNonneg percentage
    → le percentage (const 100 1) ≡ true
    → (cut : ℕ) × (slash_amount (pos a) percentage ≡ some (pos cut)) × (cut ≤ a)
unfolding slash_amount
slash_amount_bounds a percentage nonneg h =
    let (q, e, fits) = share percentage nonneg h in
    (
      round (2 * precision a) product_fuel (a * q) 1 / unit,
      rw (e, slash_amount),
      product-le a q fits,
    )

pub slash_amount_all : (a : ℕ) → slash_amount (pos a) (const 100 1) ≡ some (pos a)
unfolding slash_amount
slash_amount_all a = rw (whole, slash_amount) (ap (λ (c : ℕ). some (pos c)) (product_whole a))
