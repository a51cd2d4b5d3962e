-- ===== src/Float/Order.antt =====
-- Order laws of the float64 operations on values that are not negative.
use native.Mathlib.Nat.{mul-le-mul_right, mul-le-mul_left}
use inso_validator.Prelude.{ℕ, ◌+◌, ◌*◌, ◌≤◌, ◌<◌, ◌≡◌, Bool, true, false, ◌==◌, arith}
use inso_validator.Prelude.Int.{pos, negsuc, ◌+ℤ◌}
use inso_validator.Float.{
  Float, fin, inf, nan, unit, half_limit, round_fuel, pack, quotient, add, mul, div, lt, le,
  is_zero, min, of_ℕ,
}
use inso_validator.Float.Round.{round_mono}

abbrev pub IsNonneg : Float → Type 0
IsNonneg (fin (pos n)) = Unit
IsNonneg (fin (negsuc n)) = ⊥
IsNonneg (inf true) = ⊥
IsNonneg (inf false) = Unit
IsNonneg nan = ⊥

pub unit_pos : 0 < unit
unfolding unit
unit_pos = omega arith

pub half_limit_pos : 0 < half_limit
unfolding half_limit
half_limit_pos = omega arith

pack_mono : (m n : ℕ) → m ≤ n → le (pack false m) (pack false n) ≡ true
unfolding pack le
pack_mono m n h = ground arith

pub quotient_mono :
    (m n den : ℕ) → 0 < den → m ≤ n → le (quotient false m den) (quotient false n den) ≡ true
unfolding quotient
quotient_mono m n den d h =
    pack_mono _ _ (round_mono half_limit half_limit_pos round_fuel m n den d h)

pub quotient-IsNonneg : (n den : ℕ) → IsNonneg (quotient false n den)
unfolding quotient pack
quotient-IsNonneg n den = ground arith

pub le_trans : (a b c : Float) → le a b ≡ true → le b c ≡ true → le a c ≡ true
unfolding le
le_trans a b c h k = ground arith

pub le_refl : (a : Float) → IsNonneg a → le a a ≡ true
unfolding le
le_refl a h = ground arith

pub lt-le_trans : (a b c : Float) → lt a b ≡ true → le b c ≡ true → lt a c ≡ true
unfolding lt le
lt-le_trans a b c h k = ground arith

pub le-lt_trans : (a b c : Float) → le a b ≡ true → lt b c ≡ true → lt a c ≡ true
unfolding lt le
le-lt_trans a b c h k = ground arith

pub add-fin : (a b : ℕ) → add (fin (pos a)) (fin (pos b)) ≡ quotient false (a + b) 1
unfolding add
add-fin a b = rw (pos_sum a b)
  where
    pos_sum : (a b : ℕ) → pos a +ℤ pos b ≡ pos (a + b)
    pos_sum a b = unfold ◌+ℤ◌ in ground arith

pub add-IsNonneg : (a b : Float) → IsNonneg a → IsNonneg b → IsNonneg (add a b)
add-IsNonneg (fin (pos a)) (fin (pos b)) h k = rw add-fin (quotient-IsNonneg (a + b) 1)
add-IsNonneg a b h k = unfold add in ground arith

le-inf : (a : Float) → IsNonneg a → le a (inf false) ≡ true
unfolding le
le-inf a h = ground arith

add-inf_left : (a : Float) → IsNonneg a → add (inf false) a ≡ inf false
unfolding add
add-inf_left a h = ground arith

add-inf_right : (a : Float) → IsNonneg a → add a (inf false) ≡ inf false
unfolding add
add-inf_right a h = ground arith

-- Addition is monotone.
pub add-mono_left :
    (a b c : Float)
    → IsNonneg a
    → IsNonneg b
    → IsNonneg c
    → le a b ≡ true
    → le (add a c) (add b c) ≡ true
add-mono_left (fin (pos a)) (fin (pos b)) (fin (pos c)) ha hb hc h =
    rw (add-fin a c, add-fin b c)
      (quotient_mono (a + c) (b + c) 1 (omega arith) (unfold le in ground arith))
add-mono_left a (inf false) c ha hb hc h =
    rw (add-inf_left c hc) (le-inf (add a c) (add-IsNonneg a c ha hc))
add-mono_left a b c ha hb hc h = unfold add le in ground arith

pub add-mono_right :
    (a b c : Float)
    → IsNonneg a
    → IsNonneg b
    → IsNonneg c
    → le b c ≡ true
    → le (add a b) (add a c) ≡ true
add-mono_right (fin (pos a)) (fin (pos b)) (fin (pos c)) ha hb hc h =
    rw (add-fin a b, add-fin a c)
      (quotient_mono (a + b) (a + c) 1 (omega arith) (unfold le in ground arith))
add-mono_right a b (inf false) ha hb hc h =
    rw (add-inf_right a ha) (le-inf (add a b) (add-IsNonneg a b ha hb))
add-mono_right a b c ha hb hc h = unfold add le in ground arith

-- A finite value that is not negative.
abbrev pub is_finite : Float → Bool
is_finite (fin (pos n)) = true
is_finite _ = false

pub mul-mono_right :
    (a b c : Float)
    → is_finite a ≡ true
    → IsNonneg b
    → is_finite c ≡ true
    → le b c ≡ true
    → le (mul a b) (mul a c) ≡ true
unfolding mul
mul-mono_right (fin (pos a)) (fin (pos b)) (fin (pos c)) ha hb hc h =
    quotient_mono _ _ unit unit_pos (mul-le-mul_left a (unfold le in ground arith))
mul-mono_right a b c ha hb hc h = unfold le in ground arith

div-fin : (a t : ℕ) → 0 < t → div (fin (pos a)) (fin (pos t)) ≡ quotient false (a * unit) t
unfolding div
div-fin a t h = let nonzero : (t == 0) ≡ false = ground arith in rw nonzero

-- Division by a positive finite value is monotone.
pub div-mono_left :
    (a b t : Float)
    → IsNonneg a
    → IsNonneg b
    → is_finite t ≡ true
    → is_zero t ≡ false
    → le a b ≡ true
    → le (div a t) (div b t) ≡ true
div-mono_left (fin (pos a)) (fin (pos b)) (fin (pos t)) ha hb ht z h =
    let p : 0 < t = unfold is_zero in ground arith in
    rw (div-fin a t p, div-fin b t p)
      (quotient_mono (a * unit) (b * unit) t p (mul-le-mul_right unit (unfold le in ground arith)))
div-mono_left (fin (pos a)) (inf false) (fin (pos t)) ha hb ht z h =
    let p : 0 < t = unfold is_zero in ground arith in
    rw (div-fin a t p) (unfold div in le-inf (quotient false (a * unit) t) (quotient-IsNonneg _ t))
div-mono_left a b t ha hb ht z h = unfold div le is_zero in ground arith

-- A quotient that exceeds a bound still does when the dividend grows.
pub div-exceeds :
    (bound a b t : Float)
    → IsNonneg bound
    → IsNonneg a
    → IsNonneg b
    → IsNonneg t
    → is_zero t ≡ false
    → le a b ≡ true
    → lt bound (div a t) ≡ true
    → lt bound (div b t) ≡ true
div-exceeds bound (fin (pos a)) (fin (pos b)) (fin (pos t)) hc ha hb ht z h e =
    let p : 0 < t = unfold is_zero in ground arith in
    rw (div-fin b t p) (
      lt-le_trans bound _ _ (rw (div-fin a t p) at e) (
        quotient_mono (a * unit) (b * unit) t p
          (mul-le-mul_right unit (unfold le in ground arith))))
div-exceeds bound a b t hc ha hb ht z h e = unfold div lt le is_zero in ground arith

pub div-IsNonneg :
    (a t : Float) → IsNonneg a → is_finite t ≡ true → is_zero t ≡ false → IsNonneg (div a t)
div-IsNonneg (fin (pos a)) (fin (pos t)) ha ht z =
    let p : 0 < t = unfold is_zero in ground arith in rw (div-fin a t p) (quotient-IsNonneg _ t)
div-IsNonneg a t ha ht z = unfold div in ground arith

pub mul-IsNonneg : (a b : Float) → is_finite a ≡ true → is_finite b ≡ true → IsNonneg (mul a b)
unfolding mul
mul-IsNonneg (fin (pos a)) (fin (pos b)) ha hb = quotient-IsNonneg _ unit
mul-IsNonneg a b ha hb = ground arith

-- What lies below a finite value is finite.
pub finite_below :
    (a b : Float) → IsNonneg a → is_finite b ≡ true → le a b ≡ true → is_finite a ≡ true
unfolding le
finite_below a b ha hb h = ground arith

pub le_of_not_lt : (a b : Float) → IsNonneg a → IsNonneg b → lt b a ≡ false → le a b ≡ true
unfolding lt le
le_of_not_lt a b ha hb h = ground arith

pub is_zero_above :
    (a b : Float) → IsNonneg a → IsNonneg b → le a b ≡ true → is_zero a ≡ false → is_zero b ≡ false
unfolding le is_zero
is_zero_above a b ha hb h z = ground arith

pub min-le :
    (a b : Float) → IsNonneg a → is_finite b ≡ true → IsNonneg (min a b) × (le (min a b) b ≡ true)
unfolding min lt le
min-le (fin (pos a)) (fin (pos b)) ha hb = ground arith
min-le a b ha hb = ground arith

pub of_ℕ-mono : (m n : ℕ) → m ≤ n → le (of_ℕ m) (of_ℕ n) ≡ true
unfolding of_ℕ
of_ℕ-mono m n h = quotient_mono (m * unit) (n * unit) 1 (omega arith) (mul-le-mul_right unit h)

pub of_ℕ-IsNonneg : (n : ℕ) → IsNonneg (of_ℕ n)
unfolding of_ℕ
of_ℕ-IsNonneg n = quotient-IsNonneg _ 1
