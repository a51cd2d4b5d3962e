-- ===== src/Reputation/Score/Order.antt =====
-- How the score and the tier grow with XP and uptime.
use inso_validator.Prelude.{ℕ, ◌≤◌, ◌<◌, ◌≡◌, true, false, arith, inl, inr, Bool-cases}
use inso_validator.Prelude.Word.{IsU64}
use inso_validator.Float.{Float, of_ℕ, const, div, lt, le}
use inso_validator.Float.Order.{
  IsNonneg, div-mono_left, le_trans, le_refl, lt-le_trans, le_of_not_lt, of_ℕ-mono, of_ℕ-IsNonneg,
}
use inso_validator.Reputation.Score.{one, cap_one, xp_norm, uptime_norm, score_of, score_tier}
use inso_validator.Reputation.Score.Bounds.{
  one-IsNonneg, weighted_mono, ratio-IsNonneg, xp_norm-IsUnitRange, uptime_norm-IsUnitRange,
  longevity-IsUnitRange, cap_one-IsUnitRange, of_ℕ_finite, of_ℕ_nonzero,
}

below_one : (x y : Float) → le x y ≡ true → lt one y ≡ false → lt one x ≡ false
below_one x y h within = elim (Bool-cases (lt one x)) [
  | inl above ↦ absurd (cc (lt-le_trans one x y above h))
  | inr fine ↦ fine
]

ratio_mono :
    (x y : Float) (n : ℕ)
    → IsNonneg x
    → IsNonneg y
    → 0 < n
    → IsU64 n
    → le x y ≡ true
    → le (div x (of_ℕ n)) (div y (of_ℕ n)) ≡ true
ratio_mono x y n hx hy p fits h =
    div-mono_left x y (of_ℕ n) hx hy (of_ℕ_finite n fits) (of_ℕ_nonzero n p) h

-- A better score has no lower tier.
pub score_tier_mono : (a b : Float) → le a b ≡ true → score_tier a ≤ score_tier b
unfolding score_tier
score_tier_mono a b h = ground (
  arith,
  le_trans (const 85 100) a b,
  le_trans (const 65 100) a b,
  le_trans (const 40 100) a b,
  le_trans (const 15 100) a b,
)

cap_one_mono :
    (x y : Float) → IsNonneg x → IsNonneg y → le x y ≡ true → le (cap_one x) (cap_one y) ≡ true
unfolding cap_one
cap_one_mono x y hx hy h = elim (Bool-cases (lt one y)) [
  | inl above ↦ rw above (unfold cap_one in (cap_one-IsUnitRange x hx).1)
  | inr within ↦
      let low = le_of_not_lt y one hy one-IsNonneg within in
      let small : lt one x ≡ false = below_one x y h within in rw (within, small) h
]

xp_norm_mono :
    (xp xp' max_xp : ℕ)
    → 0 < max_xp
    → IsU64 max_xp
    → xp ≤ xp'
    → le (xp_norm xp max_xp) (xp_norm xp' max_xp) ≡ true
unfolding xp_norm
xp_norm_mono xp xp' max_xp p fits h =
    cap_one_mono _ _ (ratio-IsNonneg (of_ℕ xp) max_xp (of_ℕ-IsNonneg xp) p fits)
      (ratio-IsNonneg (of_ℕ xp') max_xp (of_ℕ-IsNonneg xp') p fits)
      (ratio_mono _ _ max_xp (of_ℕ-IsNonneg xp) (of_ℕ-IsNonneg xp') p fits (of_ℕ-mono xp xp' h))

uptime_norm_mono : (bps bps' : ℕ) → bps ≤ bps' → le (uptime_norm bps) (uptime_norm bps') ≡ true
unfolding uptime_norm
uptime_norm_mono bps bps' h =
    ratio_mono _ _ 10000 (of_ℕ-IsNonneg bps) (of_ℕ-IsNonneg bps') (omega arith) (omega arith)
      (of_ℕ-mono bps bps' h)

-- With a maximum of XP that is above 0 and fits 64 bits, uptimes within 10000 basis points and a
-- TasteScore that is not negative or undefined: more XP and a better uptime at the same time, age and
-- TasteScore never lower the score or the tier.
pub score_mono :
    (xp xp' max_xp bps bps' joined_at now : ℕ) (taste_score : Float)
    → 0 < max_xp
    → IsU64 max_xp
    → xp ≤ xp'
    → bps ≤ bps'
    → bps' ≤ 10000
    → IsNonneg taste_score
    → let score = score_of xp max_xp bps joined_at now taste_score in
      let score' = score_of xp' max_xp bps' joined_at now taste_score in
      (le score score' ≡ true) × (score_tier score ≤ score_tier score')
unfolding score_of
score_mono xp xp' max_xp bps bps' joined_at now taste_score p fits hx hb full nonneg =
    let better =
      weighted_mono _ _ _ _ _ _ _ _ (xp_norm-IsUnitRange xp max_xp p fits)
        (uptime_norm-IsUnitRange bps (omega arith)) (longevity-IsUnitRange joined_at now)
        (cap_one-IsUnitRange taste_score nonneg) (xp_norm-IsUnitRange xp' max_xp p fits)
        (uptime_norm-IsUnitRange bps' full) (longevity-IsUnitRange joined_at now)
        (cap_one-IsUnitRange taste_score nonneg) (xp_norm_mono xp xp' max_xp p fits hx)
        (uptime_norm_mono bps bps' hb) (le_refl _ (longevity-IsUnitRange joined_at now).0)
        (le_refl _ (cap_one-IsUnitRange taste_score nonneg).0) in
    (better, score_tier_mono _ _ better)
