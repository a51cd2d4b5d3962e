-- ===== src/Reputation/Score.antt =====
-- The sovereignty score and its tier: the float64 arithmetic of `ComputeSovereignty` and
-- `scoreTier`, rounded after each operation (no fused multiply-add, as on amd64).
pub mod Bounds
pub mod Order
use Prim.Native.Nat.{min as min_ℕ}
use inso_validator.Prelude.{ℕ, ◌-◌, ◌*◌, ◌/◌, ◌%◌, ◌^◌, if◌then◌else◌}
use inso_validator.Float.{Float, of_ℕ, const, add, mul, div, lt, le, min}

unfoldable pub one : Float
one = const 1 1

-- `time.Since`: the clock is monotonic, and a Duration saturates.
unfoldable pub since : ℕ → ℕ → ℕ
since joined_at now = min_ℕ (now - joined_at) (2 ^ 63 - 1)

abbrev pub hour : ℕ
hour = 3600 * 10 ^ 9

-- `Duration.Hours`
unfoldable pub hours : ℕ → Float
hours d = add (of_ℕ (d / hour)) (div (of_ℕ (d % hour)) (of_ℕ hour))

-- `if x > 1.0 { x = 1.0 }`
unfoldable pub cap_one : Float → Float
cap_one x = if lt one x then one else x

unfoldable pub xp_norm : ℕ → ℕ → Float
xp_norm xp max_xp = cap_one (div (of_ℕ xp) (of_ℕ max_xp))

unfoldable pub uptime_norm : ℕ → Float
uptime_norm bps = div (of_ℕ bps) (of_ℕ 10000)

unfoldable pub longevity : ℕ → ℕ → Float
longevity joined_at now = min (div (div (hours (since joined_at now)) (of_ℕ 24)) (of_ℕ 365)) one

-- 0.4*xpNorm + 0.3*uptimeNorm + 0.2*longevity + 0.1*tsNorm
unfoldable pub weighted : Float → Float → Float → Float → Float
weighted x u l t =
    add (add (add (mul (const 4 10) x) (mul (const 3 10) u)) (mul (const 2 10) l))
      (mul (const 1 10) t)

unfoldable pub score_of : ℕ → ℕ → ℕ → ℕ → ℕ → Float → Float
score_of xp max_xp bps joined_at now taste_score =
    weighted (xp_norm xp max_xp) (uptime_norm bps) (longevity joined_at now) (cap_one taste_score)

unfoldable pub score_tier : Float → ℕ
score_tier score =
    if le (const 85 100) score
    then 4
    else if le (const 65 100) score
    then 3
    else if le (const 40 100) score
    then 2
    else if le (const 15 100) score
    then 1
    else 0
