-- ===== src/Float/Round.antt =====
-- Rounding to the nearest value with a bounded number of significant bits, ties to even.
use native.Mathlib.Nat.{
  div-add-mod', le-div_iff_mul-le, div-le_of_le-mul, le_antisymm, mul_comm, le_trans,
  div-mul-le_self, le_of_mul-le-mul_right, pow-zero, pow-suc, mul-one,
}
use native.Mathlib.Decide.{dec_lt}
use inso_validator.Prelude.{
  ℕ, zero, suc, ◌+◌, ◌*◌, ◌/◌, ◌%◌, ◌^◌, ◌≤◌, ◌<◌, ◌≡◌, refl, ap, inl, inr, false, ltb, ◌==◌,
  if◌then◌else◌, arith, Bool-cases, ltb→lt, ltb-false→le,
}

-- The integer nearest to num / den.
half_even : ℕ → ℕ → ℕ
half_even num den =
    let q = num / den in
    let r = num % den in
    if ltb (2 * r) den
    then q
    else if ltb den (2 * r)
    then q + 1
    else if q % 2 == 0
    then q
    else q + 1

-- num / den to at most `limit` units of the last place. The unit doubles until the quotient fits.
unfoldable pub round : ℕ → ℕ → ℕ → ℕ → ℕ
unfolding half_even
round limit zero num den = half_even num den
round limit (suc fuel) num den =
    let coarser = 2 * round limit fuel num (den * 2) in
    if ltb num (limit * den) then half_even num den else coarser

half_even-ge : (c num den : ℕ) → 0 < den → c * den ≤ num → c ≤ half_even num den
unfolding half_even
half_even-ge c num den d h = ground (arith, (le-div_iff_mul-le d).1 h)

half_even-le : (c num den : ℕ) → 0 < den → num ≤ c * den → half_even num den ≤ c
unfolding half_even
half_even-le c num den d h = elim (dec_lt (num / den) c) [
  | yes lt ↦ ground arith
  | no ge ↦
      let same : num / den ≡ c = le_antisymm (div-le_of_le-mul den (rw mul_comm h)) (omega arith) in
      let exact : num % den ≡ 0 = omega (arith, rw same at (div-add-mod' num den)) in
      rw (exact, half_even) (ground arith)
]

half_even_mono : (m n den : ℕ) → 0 < den → m ≤ n → half_even m den ≤ half_even n den
unfolding half_even
half_even_mono m n den d h = elim (dec_lt (m / den) (n / den)) [
  | yes lt ↦ ground arith
  | no ge ↦
      let same : m / den ≡ n / den =
        le_antisymm ((le-div_iff_mul-le d).1 (le_trans (div-mul-le_self m den) h)) (omega arith) in
      let less : m % den ≤ n % den =
        omega (arith, div-add-mod' n den, rw same at (div-add-mod' m den)) in
      rw same (ground arith)
]

module _ (half : ℕ) (half_pos : 0 < half) where
  -- A quotient of at least `c` units is rounded to at least `c`, for `c` within the limit.
  round-ge :
      (fuel c num den : ℕ)
      → 0 < den
      → c ≤ 2 * half
      → c * den ≤ num
      → c ≤ round (2 * half) fuel num den
  unfolding round
  round-ge zero c num den d w h = half_even-ge c num den d h
  round-ge (suc fuel) c num den d w h = elim (Bool-cases (ltb num (2 * half * den))) [
    | inl fits ↦ rw fits (half_even-ge c num den d h)
    | inr large ↦
        let big : 2 * half * den ≤ num = ltb-false→le _ _ large in
        rw large (
          omega (arith, round-ge fuel half num (den * 2) (omega arith) (omega arith) (omega arith)))
  ]

  -- The values that rounding keeps: at most the limit, times a power of two.
  pub data IsExact : ℕ → Type 0 where
    small : (c : ℕ) → c ≤ 2 * half → IsExact c
    double : (c : ℕ) → IsExact c → IsExact (2 * c)

  half_of : {c : ℕ} → IsExact c → 2 * half ≤ c → (b : ℕ) × IsExact b × (c ≡ 2 * b)
  half_of (small c w) h = (half, small half (omega arith), omega arith)
  half_of (double b e) h = (b, e, refl)

  -- An exact bound from above survives rounding.
  pub round-le :
      (fuel c num den : ℕ) → 0 < den → IsExact c → num ≤ c * den → round (2 * half) fuel num den ≤ c
  unfolding round
  round-le zero c num den d e h = half_even-le c num den d h
  round-le (suc fuel) c num den d e h = elim (Bool-cases (ltb num (2 * half * den))) [
    | inl fits ↦ rw fits (half_even-le c num den d h)
    | inr large ↦
        let big : 2 * half * den ≤ num = ltb-false→le _ _ large in
        let (b, eb, twice) = half_of e (le_of_mul-le-mul_right (le_trans big h) d) in
        let fits : num ≤ b * (den * 2) = omega (arith, ap (λ (t : ℕ). t * den) twice) in
        rw large (omega (arith, twice, round-le fuel b num (den * 2) (omega arith) eb fits))
  ]

  -- So does an exact bound from below.
  pub round-ge_exact :
      (fuel c num den : ℕ) → 0 < den → IsExact c → c * den ≤ num → c ≤ round (2 * half) fuel num den
  unfolding round
  round-ge_exact fuel c num den d (small c' w) h = round-ge fuel c' num den d w h
  round-ge_exact zero c num den d (double b e) h = half_even-ge _ num den d h
  round-ge_exact (suc fuel) c num den d (double b e) h =
      let coarser = round-ge_exact fuel b num (den * 2) (omega arith) e (omega arith) in
      elim (Bool-cases (ltb num (2 * half * den))) [
        | inl fits ↦ rw fits (half_even-ge _ num den d h)
        | inr large ↦ rw large (omega (arith, coarser))
      ]

  pub IsExact-shift : (k : ℕ) {c : ℕ} → IsExact c → IsExact (c * 2 ^ k)
  IsExact-shift zero {c} e = rw (pow-zero, mul-one) e
  IsExact-shift (suc k) {c} e =
      let twice : c * 2 ^ suc k ≡ 2 * (c * 2 ^ k) = rw pow-suc (omega arith) in
      rw twice (double _ (IsExact-shift k e))

  -- Rounding keeps what is exact.
  pub round-exact : (fuel c : ℕ) → IsExact c → round (2 * half) fuel c 1 ≡ c
  round-exact fuel c e =
      le_antisymm (round-le fuel c c 1 (omega arith) e (omega arith))
        (round-ge_exact fuel c c 1 (omega arith) e (omega arith))

  -- Rounding is monotone.
  pub round_mono :
      (fuel m n den : ℕ)
      → 0 < den
      → m ≤ n
      → round (2 * half) fuel m den ≤ round (2 * half) fuel n den
  unfolding round
  round_mono zero m n den d h = half_even_mono m n den d h
  round_mono (suc fuel) m n den d h =
      let coarse_m = round (2 * half) fuel m (den * 2) in
      let coarse_n = round (2 * half) fuel n (den * 2) in
      let both = round_mono fuel m n (den * 2) (omega arith) h in
      elim (Bool-cases (ltb m (2 * half * den))) [
        | inl fits ↦ elim (Bool-cases (ltb n (2 * half * den))) [
          | inl fits_n ↦ rw (fits, fits_n) (half_even_mono m n den d h)
          | inr large_n ↦
              let big : 2 * half * den ≤ n = ltb-false→le _ _ large_n in
              let below : m < 2 * half * den = ltb→lt _ _ fits in
              rw (fits, large_n)
                (omega (
                  arith,
                  half_even-le (2 * half) m den d (omega arith),
                  round-ge fuel half n (den * 2) (omega arith) (omega arith) (omega arith),
                ))
        ]
        | inr large ↦
            let big : 2 * half * den ≤ m = ltb-false→le _ _ large in
            let large_n : ltb n (2 * half * den) ≡ false = ground arith in
            rw (large, large_n) (omega (arith, both))
      ]

  round-coarser :
      (fuel num den : ℕ)
      → ltb num (2 * half * den) ≡ false
      → round (2 * half) (suc fuel) num den ≡ 2 * round (2 * half) fuel num (den * 2)
  unfolding round
  round-coarser fuel num den large = rw (large, round) refl

  -- What rounding yields is exact, if the fuel does not run out.
  pub round-IsExact :
      (fuel num den : ℕ)
      → 0 < den
      → round (2 * half) fuel num den < 2 * half * 2 ^ fuel
      → IsExact (round (2 * half) fuel num den)
  unfolding round
  round-IsExact zero num den d h = small _ (omega arith)
  round-IsExact (suc fuel) num den d h = elim (Bool-cases (ltb num (2 * half * den))) [
    | inl fits ↦
        let below : num < 2 * half * den = ltb→lt _ _ fits in
        rw fits (small _ (half_even-le (2 * half) num den d (omega arith)))
    | inr large ↦
        let twice : 2 * half * 2 ^ suc fuel ≡ 2 * (2 * half * 2 ^ fuel) =
          rw pow-suc (omega arith) in
        rw large (
          double _ (
            round-IsExact fuel num (den * 2) (omega arith)
              (omega (arith, twice, round-coarser fuel num den large))))
  ]
