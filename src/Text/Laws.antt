-- ===== src/Text/Laws.antt =====
-- A numeral is read back as the number that was printed.
use inso_validator.Prelude.{
  ℕ, zero, suc, ◌+◌, ◌*◌, ◌/◌, ◌%◌, ◌^◌, ◌≤◌, ◌<◌, ◌≡◌, ◌≢◌, refl, ap, List, [], ◌∷◌, ◌++◌, some,
  ltb, Bool-cases, inl, inr, arith,
}
use native.Mathlib.Nat.{div-lt_iff_lt-mul, div-add-mod', mod-lt, pow-zero, pow-suc}
use inso_validator.Text.{digit, digit_value, numeral, read_digits, read_numeral}

digit_value-digit : (d : ℕ) → d < 16 → digit_value (digit d) ≡ d
unfolding digit digit_value
digit_value-digit d h = ground arith

-- One more digit at the end.
read_digits-append :
    (base acc c v : ℕ) (cs : List ℕ)
    → read_digits base acc cs ≡ some v
    → digit_value c < base
    → read_digits base acc (cs ++ (c ∷ [])) ≡ some (v * base + digit_value c)
unfolding read_digits
read_digits-append base acc c v [] e h = ground arith
read_digits-append base acc c v (d ∷ cs) e h =
    ground (arith, read_digits-append base (acc * base + digit_value d) c v cs)

shrinks : (base k n : ℕ) → 2 ≤ base → n < base ^ suc k → n / base < base ^ k
shrinks base k n two h = (div-lt_iff_lt-mul (omega arith)).1 (omega (arith, pow-suc base k))

parts : (base n : ℕ) → 2 ≤ base → n / base * base + n % base ≡ n
parts base n two = div-add-mod' n base

read_one : (base n : ℕ) → base ≤ 16 → n < base → read_digits base 0 (digit n ∷ []) ≡ some n
unfolding read_digits
read_one base n most h = ground (arith, digit_value-digit n)

-- A numeral with enough digits reads back as the number, and is not empty.
pub read_digits-numeral :
    (base k n : ℕ)
    → 2 ≤ base
    → base ≤ 16
    → n < base ^ k
    → read_digits base 0 (numeral base k n) ≡ some n
unfolding numeral read_digits
read_digits-numeral base zero n two most h = ap some (omega (arith, pow-zero base))
read_digits-numeral base (suc k) n two most h = elim (Bool-cases (ltb n base)) [
  | inl one_digit ↦ rw one_digit (read_one base n most (ground arith))
  | inr more ↦
      let last : n % base < base = mod-lt n (omega arith) in
      let same = digit_value-digit (n % base) (omega arith) in
      let front = read_digits-numeral base k (n / base) two most (shrinks base k n two h) in
      let whole =
        read_digits-append base 0 (digit (n % base)) (n / base) (numeral base k (n / base)) front
          (rw same last) in
      rw more (rw whole (rw same (ap some (parts base n two))))
]

nonempty : (base k n : ℕ) → numeral base (suc k) n ≢ []
unfolding numeral
nonempty base k n e = elim (Bool-cases (ltb n base)) [
  | inl one_digit ↦ cc (rw one_digit at e)
  | inr more ↦ snoc_cons (numeral base k (n / base)) (digit (n % base)) (rw more at e)
]
  where
    snoc_cons : (xs : List ℕ) (x : ℕ) → xs ++ (x ∷ []) ≢ []
    snoc_cons [] x e = cc
    snoc_cons (y ∷ ys) x e = cc

pub read_numeral-numeral :
    (base k n : ℕ)
    → 2 ≤ base
    → base ≤ 16
    → n < base ^ suc k
    → read_numeral base (numeral base (suc k) n) ≡ some n
unfolding read_numeral
read_numeral-numeral base k n two most h =
    filled (numeral base (suc k) n) (nonempty base k n)
      (read_digits-numeral base (suc k) n two most h)
  where
    filled :
        (cs : List ℕ) → cs ≢ [] → read_digits base 0 cs ≡ some n → read_numeral base cs ≡ some n
    filled [] some_digit e = absurd (some_digit refl)
    filled (c ∷ cs) some_digit e = e
