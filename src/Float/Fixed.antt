-- ===== src/Float/Fixed.antt =====
-- A float64 that an operation has produced is one: adding nothing leaves it as it is, so a sum of
-- values that are not negative does not go down.
use inso_validator.Prelude.{
  ℕ, ◌+◌, ◌*◌, ◌^◌, ◌<◌, ◌≡◌, refl, ap, subst, ◌∙◌, true, false, ltb, arith, Bool-cases, inl, inr,
  ltb→lt,
}
use inso_validator.Prelude.Int.{pos}
use inso_validator.Float.{
  Float, fin, inf, half_limit, round_fuel, overflow, pack, quotient, add, le,
}
use inso_validator.Float.Round.{IsExact, small, round, round-IsExact, round-exact}
use inso_validator.Float.Order.{IsNonneg, half_limit_pos, add-fin, add-mono_right}

abbrev pub IsFixed : Float → Type 0
IsFixed a = add a (fin (pos 0)) ≡ a

in_range : overflow ≡ half_limit * 2 ^ round_fuel
unfolding overflow half_limit round_fuel
in_range = refl

packed :
    (num den : ℕ)
    → ltb (round (2 * half_limit) round_fuel num den) overflow ≡ true
    → quotient false num den ≡ fin (pos (round (2 * half_limit) round_fuel num den))
unfolding quotient pack
packed num den fits = rw fits refl

overflowed :
    (num den : ℕ)
    → ltb (round (2 * half_limit) round_fuel num den) overflow ≡ false
    → quotient false num den ≡ inf false
unfolding quotient pack
overflowed num den large = rw large refl

-- An exact value is rounded to itself.
exact-IsFixed :
    (r : ℕ) → ltb r overflow ≡ true → IsExact half_limit half_limit_pos r → IsFixed (fin (pos r))
exact-IsFixed r fits exact =
    let same = round-exact half_limit half_limit_pos round_fuel r exact in
    add-fin r 0
    ∙ ap (λ n. quotient false n 1) (omega arith)
    ∙ packed r 1 (ap (λ n. ltb n overflow) same ∙ fits)
    ∙ ap (λ n. fin (pos n)) same

pub zero-IsFixed : IsFixed (fin (pos 0))
zero-IsFixed = exact-IsFixed 0 (unfold overflow in refl) (small 0 (omega arith))

pub quotient-IsFixed : (num den : ℕ) → 0 < den → IsFixed (quotient false num den)
quotient-IsFixed num den d =
    elim (Bool-cases (ltb (round (2 * half_limit) round_fuel num den) overflow)) [
      | inl fits ↦
          let below = ltb→lt _ _ fits in
          rw (packed num den fits) (
            exact-IsFixed _ fits (
              round-IsExact half_limit half_limit_pos round_fuel num den d
                (omega (arith, below, in_range))))
      | inr large ↦ rw (overflowed num den large) (unfold add in refl)
    ]

pub add-IsFixed : (a b : Float) → IsNonneg a → IsNonneg b → IsFixed (add a b)
add-IsFixed (fin (pos a)) (fin (pos b)) h k =
    rw (add-fin a b) (quotient-IsFixed (a + b) 1 (omega arith))
add-IsFixed a b h k = unfold add in ground arith

zero-le : (b : Float) → IsNonneg b → le (fin (pos 0)) b ≡ true
unfolding le
zero-le b k = ground arith

pub le-add : (a b : Float) → IsNonneg a → IsNonneg b → IsFixed a → le a (add a b) ≡ true
le-add a b h k fixed =
    subst (λ x. le x (add a b) ≡ true) fixed (add-mono_right a (fin (pos 0)) b h tt k (zero-le b k))
