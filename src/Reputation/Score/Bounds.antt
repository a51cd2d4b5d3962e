-- ===== src/Reputation/Score/Bounds.antt =====
-- The inputs of the score lie from 0 to 1, and the score from 0 to below 1.
use inso_validator.Prelude.{
  ℕ, ◌/◌, ◌%◌, ◌^◌, ◌≤◌, ◌<◌, ◌≡◌, refl, true, false, arith, inl, inr, Bool-cases,
}
use inso_validator.Prelude.Int.{◌+ℤ◌}
use inso_validator.Prelude.Word.{IsU64}
use inso_validator.Float.{
  Float, of_ℕ, const, add, mul, div, lt, le, is_zero, quotient, unit, pack, half_limit, round_fuel,
  overflow,
}
use inso_validator.Float.Round.{round}
use inso_validator.Float.Order.{
  IsNonneg, is_finite, quotient-IsNonneg, add-IsNonneg, add-mono_left, add-mono_right, mul-IsNonneg,
  mul-mono_right, div-IsNonneg, div-mono_left, le_trans, le_refl, le-lt_trans, finite_below,
  le_of_not_lt, is_zero_above, min-le, of_ℕ-mono, of_ℕ-IsNonneg,
}
use inso_validator.Reputation.Score.{
  one, since, hours, hour, cap_one, xp_norm, uptime_norm, longevity, weighted, score_of,
}

-- From 0 to 1.
abbrev pub IsUnitRange : Float → Type 0
IsUnitRange x = IsNonneg x × (le x one ≡ true)

one_finite : is_finite one ≡ true
unfolding one const quotient pack round half_limit round_fuel overflow unit
one_finite = refl

pub one-IsNonneg : IsNonneg one
unfolding one const
one-IsNonneg = quotient-IsNonneg _ 1

pub cap_one-IsUnitRange : (x : Float) → IsNonneg x → IsUnitRange (cap_one x)
unfolding cap_one
cap_one-IsUnitRange x h = elim (Bool-cases (lt one x)) [
  | inl above ↦ rw above (one-IsNonneg, le_refl one one-IsNonneg)
  | inr within ↦ rw within (h, le_of_not_lt x one h one-IsNonneg within)
]

bound_finite : is_finite (of_ℕ (2 ^ 64)) ≡ true
unfolding of_ℕ quotient pack round half_limit round_fuel overflow unit
bound_finite = refl

-- A positive uint64 converts to a finite value that is not zero.
pub of_ℕ_finite : (n : ℕ) → IsU64 n → is_finite (of_ℕ n) ≡ true
of_ℕ_finite n h =
    finite_below (of_ℕ n) (of_ℕ (2 ^ 64)) (of_ℕ-IsNonneg n) bound_finite
      (of_ℕ-mono n (2 ^ 64) (omega arith))

one_nonzero : is_zero (of_ℕ 1) ≡ false
unfolding is_zero of_ℕ quotient pack round half_limit round_fuel overflow unit
one_nonzero = refl

pub of_ℕ_nonzero : (n : ℕ) → 0 < n → is_zero (of_ℕ n) ≡ false
of_ℕ_nonzero n h =
    is_zero_above (of_ℕ 1) (of_ℕ n) (of_ℕ-IsNonneg 1) (of_ℕ-IsNonneg n) (of_ℕ-mono 1 n h)
      one_nonzero

pub ratio-IsNonneg : (x : Float) (n : ℕ) → IsNonneg x → 0 < n → IsU64 n → IsNonneg (div x (of_ℕ n))
ratio-IsNonneg x n h p fits = div-IsNonneg x (of_ℕ n) h (of_ℕ_finite n fits) (of_ℕ_nonzero n p)

pub xp_norm-IsUnitRange :
    (xp max_xp : ℕ) → 0 < max_xp → IsU64 max_xp → IsUnitRange (xp_norm xp max_xp)
unfolding xp_norm
xp_norm-IsUnitRange xp max_xp p fits =
    cap_one-IsUnitRange _ (ratio-IsNonneg (of_ℕ xp) max_xp (of_ℕ-IsNonneg xp) p fits)

full_uptime : div (of_ℕ 10000) (of_ℕ 10000) ≡ one
unfolding div one const of_ℕ quotient pack round half_limit round_fuel overflow unit
full_uptime = refl

pub uptime_norm-IsUnitRange : (bps : ℕ) → bps ≤ 10000 → IsUnitRange (uptime_norm bps)
unfolding uptime_norm
uptime_norm-IsUnitRange bps h = (
  ratio-IsNonneg (of_ℕ bps) 10000 (of_ℕ-IsNonneg bps) (omega arith) (omega arith),
  rw (← full_uptime) (
      div-mono_left (of_ℕ bps) (of_ℕ 10000) (of_ℕ 10000) (of_ℕ-IsNonneg bps) (of_ℕ-IsNonneg 10000)
        (of_ℕ_finite 10000 (omega arith)) (of_ℕ_nonzero 10000 (omega arith))
        (of_ℕ-mono bps 10000 h)),
)

hours-IsNonneg : (d : ℕ) → IsNonneg (hours d)
unfolding hours
hours-IsNonneg d =
    add-IsNonneg _ _ (of_ℕ-IsNonneg (d / hour))
      (ratio-IsNonneg (of_ℕ (d % hour)) hour (of_ℕ-IsNonneg _) (omega arith) (omega arith))

pub longevity-IsUnitRange : (joined_at now : ℕ) → IsUnitRange (longevity joined_at now)
unfolding longevity
longevity-IsUnitRange joined_at now =
    min-le _ one
      (ratio-IsNonneg _ 365
        (ratio-IsNonneg (hours (since joined_at now)) 24 (hours-IsNonneg _) (omega arith)
          (omega arith))
        (omega arith) (omega arith))
      one_finite

pub weights_below_one : lt (weighted one one one one) one ≡ true
unfolding weighted one add mul lt const quotient pack round half_limit round_fuel overflow unit ◌+ℤ◌
weights_below_one = refl

weight_finite :
    (is_finite (const 4 10) ≡ true)
    × (is_finite (const 3 10) ≡ true)
    × (is_finite (const 2 10) ≡ true)
    × (is_finite (const 1 10) ≡ true)
unfolding const quotient pack round half_limit round_fuel overflow unit
weight_finite = (refl, refl, refl, refl)

unit_finite : (x : Float) → IsUnitRange x → is_finite x ≡ true
unit_finite x h = finite_below x one h.0 one_finite h.1

term-IsNonneg : (w x : Float) → is_finite w ≡ true → IsUnitRange x → IsNonneg (mul w x)
term-IsNonneg w x hw hx = mul-IsNonneg w x hw (unit_finite x hx)

term_mono :
    (w x y : Float)
    → is_finite w ≡ true
    → IsUnitRange x
    → IsUnitRange y
    → le x y ≡ true
    → le (mul w x) (mul w y) ≡ true
term_mono w x y hw hx hy h = mul-mono_right w x y hw hx.0 (unit_finite y hy) h

sum_mono :
    (a b c d : Float)
    → IsNonneg a
    → IsNonneg b
    → IsNonneg c
    → IsNonneg d
    → le a b ≡ true
    → le c d ≡ true
    → le (add a c) (add b d) ≡ true
sum_mono a b c d ha hb hc hd h k =
    le_trans _ (add b c) _ (add-mono_left a b c ha hb hc h) (add-mono_right b c d hb hc hd k)

weighted-IsNonneg :
    (x u l t : Float)
    → IsUnitRange x
    → IsUnitRange u
    → IsUnitRange l
    → IsUnitRange t
    → IsNonneg (weighted x u l t)
unfolding weighted
weighted-IsNonneg x u l t hx hu hl ht =
    let (f4, f3, f2, f1) = weight_finite in
    add-IsNonneg _ _
      (add-IsNonneg _ _ (add-IsNonneg _ _ (term-IsNonneg _ x f4 hx) (term-IsNonneg _ u f3 hu))
        (term-IsNonneg _ l f2 hl))
      (term-IsNonneg _ t f1 ht)

pub weighted_mono :
    (x u l t x' u' l' t' : Float)
    → IsUnitRange x
    → IsUnitRange u
    → IsUnitRange l
    → IsUnitRange t
    → IsUnitRange x'
    → IsUnitRange u'
    → IsUnitRange l'
    → IsUnitRange t'
    → le x x' ≡ true
    → le u u' ≡ true
    → le l l' ≡ true
    → le t t' ≡ true
    → le (weighted x u l t) (weighted x' u' l' t') ≡ true
unfolding weighted
weighted_mono x u l t x' u' l' t' hx hu hl ht hx' hu' hl' ht' ex eu el et =
    let (f4, f3, f2, f1) = weight_finite in
    let nx = term-IsNonneg _ x f4 hx in
    let nx' = term-IsNonneg _ x' f4 hx' in
    let nu = term-IsNonneg _ u f3 hu in
    let nu' = term-IsNonneg _ u' f3 hu' in
    let nl = term-IsNonneg _ l f2 hl in
    let nl' = term-IsNonneg _ l' f2 hl' in
    sum_mono _ _ _ _ (add-IsNonneg _ _ (add-IsNonneg _ _ nx nu) nl)
      (add-IsNonneg _ _ (add-IsNonneg _ _ nx' nu') nl') (term-IsNonneg _ t f1 ht)
      (term-IsNonneg _ t' f1 ht')
      (sum_mono _ _ _ _ (add-IsNonneg _ _ nx nu) (add-IsNonneg _ _ nx' nu') nl nl'
        (sum_mono _ _ _ _ nx nx' nu nu' (term_mono _ x x' f4 hx hx' ex)
          (term_mono _ u u' f3 hu hu' eu))
        (term_mono _ l l' f2 hl hl' el))
      (term_mono _ t t' f1 ht ht' et)

one-IsUnitRange : IsUnitRange one
one-IsUnitRange = (one-IsNonneg, le_refl one one-IsNonneg)

-- With its four inputs from 0 to 1 the weighted sum is not negative and below 1.
weighted_bounds :
    (x u l t : Float)
    → IsUnitRange x
    → IsUnitRange u
    → IsUnitRange l
    → IsUnitRange t
    → IsNonneg (weighted x u l t) × (lt (weighted x u l t) one ≡ true)
weighted_bounds x u l t hx hu hl ht = (
  weighted-IsNonneg x u l t hx hu hl ht,
  le-lt_trans _ (weighted one one one one) _
      (weighted_mono x u l t one one one one hx hu hl ht one-IsUnitRange one-IsUnitRange
        one-IsUnitRange one-IsUnitRange hx.1 hu.1 hl.1 ht.1)
      weights_below_one,
)

-- For a configured maximum of at least 1, an uptime of at most 10000 basis points and a TasteScore
-- that is not negative, the sovereignty score lies from 0 to below 1.
pub score_bounds :
    (xp max_xp bps joined_at now : ℕ) (taste_score : Float)
    → 0 < max_xp
    → IsU64 max_xp
    → bps ≤ 10000
    → IsNonneg taste_score
    → let score = score_of xp max_xp bps joined_at now taste_score in
      IsNonneg score × (lt score one ≡ true)
unfolding score_of
score_bounds xp max_xp bps joined_at now taste_score p fits h nonneg =
    weighted_bounds _ _ _ _ (xp_norm-IsUnitRange xp max_xp p fits) (uptime_norm-IsUnitRange bps h)
      (longevity-IsUnitRange joined_at now) (cap_one-IsUnitRange taste_score nonneg)
