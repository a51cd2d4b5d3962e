-- ===== src/Consensus/Weight.antt =====
-- The power of a validator, from its stake and its score, is neither negative nor undefined.
use inso_validator.Prelude.{ℕ, ◌≡◌, refl, true, false, arith}
use inso_validator.Prelude.Int.{ℤ, pos, negsuc, ◌≤ℤ◌, ◌+ℤ◌}
use inso_validator.Float.{
  Float, fin, inf, add, mul, lt, le, is_zero, const, quotient, unit, pack, half_limit, round_fuel,
  overflow,
}
use inso_validator.Float.Round.{round}
use inso_validator.Float.Order.{
  IsNonneg, is_finite, quotient-IsNonneg, add-IsNonneg, add-mono_right, mul-IsNonneg,
  mul-mono_right, finite_below, is_zero_above,
}
use inso_validator.Float.Fixed.{quotient-IsFixed, le-add}
use inso_validator.Reputation.Score.{one}
use inso_validator.Consensus.{stake_ether, voting_power}

-- The bonus of a full score, and the values that it is made of.
one_whole : (is_finite (const 1 1) ≡ true) × (is_zero (const 1 1) ≡ false) × (is_finite one ≡ true)
unfolding is_zero one const quotient pack round half_limit round_fuel overflow unit
one_whole = (refl, refl, refl)

half_finite : is_finite (const 1 2) ≡ true
unfolding const quotient pack round half_limit round_fuel overflow unit
half_finite = refl

half_of_one : mul (const 1 2) one ≡ const 1 2
unfolding mul one const quotient pack round half_limit round_fuel overflow unit
half_of_one = refl

one_and_half : add (const 1 1) (const 1 2) ≡ const 3 2
unfolding add ◌+ℤ◌ const quotient pack round half_limit round_fuel overflow unit
one_and_half = refl

one_and_half_finite : is_finite (const 3 2) ≡ true
unfolding const quotient pack round half_limit round_fuel overflow unit
one_and_half_finite = refl

largest_finite : is_finite (add (const 1 1) (mul (const 1 2) one)) ≡ true
largest_finite = rw (half_of_one, one_and_half) one_and_half_finite

pub zero_below_one : lt (fin (pos 0)) one ≡ true
unfolding lt one const quotient pack round half_limit round_fuel overflow unit
zero_below_one = refl

const-IsNonneg : (n d : ℕ) → IsNonneg (const n d)
unfolding const
const-IsNonneg n d = quotient-IsNonneg _ d

lt→le : (a b : Float) → IsNonneg a → lt a b ≡ true → le a b ≡ true
unfolding lt le
lt→le a b h k = ground arith

-- A product with a positive finite factor.
scaled-IsNonneg :
    (a b : Float) → IsNonneg a → is_finite b ≡ true → is_zero b ≡ false → IsNonneg (mul a b)
unfolding mul is_zero
scaled-IsNonneg (fin (pos a)) b h f z = mul-IsNonneg (fin (pos a)) b refl f
scaled-IsNonneg (inf false) (fin (pos b)) h f z = ground arith
scaled-IsNonneg a b h f z = ground arith

pub voting_power-IsNonneg :
    (stake score : Float)
    → IsNonneg stake
    → IsNonneg score
    → lt score one ≡ true
    → IsNonneg (voting_power stake score)
unfolding voting_power
voting_power-IsNonneg stake score hs h below =
    let within = lt→le score one h below in
    let score_finite = finite_below score one h one_whole.2 within in
    let bonus = mul (const 1 2) score in
    let bonus_nonneg = mul-IsNonneg (const 1 2) score half_finite score_finite in
    let bonus_le = mul-mono_right (const 1 2) score one half_finite h one_whole.2 within in
    let factor_nonneg = add-IsNonneg (const 1 1) bonus (const-IsNonneg 1 1) bonus_nonneg in
    let factor_le =
      add-mono_right (const 1 1) bonus (mul (const 1 2) one) (const-IsNonneg 1 1) bonus_nonneg
        (mul-IsNonneg (const 1 2) one half_finite one_whole.2) bonus_le in
    let above =
      le-add (const 1 1) bonus (const-IsNonneg 1 1) bonus_nonneg
        (unfold const in quotient-IsFixed _ 1 (omega arith)) in
    scaled-IsNonneg stake (add (const 1 1) bonus) hs
      (finite_below _ _ factor_nonneg largest_finite factor_le)
      (is_zero_above (const 1 1) _ (const-IsNonneg 1 1) factor_nonneg above one_whole.1)

pub stake_ether-IsNonneg : (stake : ℤ) → pos 0 ≤ℤ stake → IsNonneg (stake_ether stake)
unfolding stake_ether
stake_ether-IsNonneg (pos n) h = quotient-IsNonneg _ 1
stake_ether-IsNonneg (negsuc n) h = absurd (omega arith)
