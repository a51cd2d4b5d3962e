-- ===== src/Metrics/Lines.antt =====
-- The lines of the endpoint's text, read back one by one.
use inso_validator.Prelude.{
  ℕ, zero, suc, ◌/◌, ◌%◌, ◌^◌, ◌<◌, ◌≡◌, refl, sym, ◌∙◌, ap, Bool, true, false, not, ◌&&◌, List, [],
  ◌∷◌, ◌++◌, some, ◌==◌, arith, append_assoc, append_nil,
}
use inso_validator.Prelude.Int.{ℤ, pos, negsuc}
use inso_validator.Text.{print_int, digit, numeral, read_numeral}
use inso_validator.Text.Laws.{read_numeral-numeral}
use inso_validator.Metrics.Format.{split_lines, cut_blank, read_int, map_option, negate}

-- A character does not occur in a text.
abbrev pub lacks : ℕ → List ℕ → Bool
lacks c [] = true
lacks c (x ∷ xs) = not (x == c) && lacks c xs

pub lacks-append :
    (c : ℕ) (xs ys : List ℕ) → lacks c xs ≡ true → lacks c ys ≡ true → lacks c (xs ++ ys) ≡ true
lacks-append c [] ys p q = q
lacks-append c (x ∷ xs) ys p q = ground (arith, lacks-append c xs ys)

pub split_lines-line :
    (line l rest : List ℕ)
    → lacks 10 l ≡ true
    → split_lines line (l ++ (10 ∷ rest)) ≡ (line ++ l) ∷ split_lines [] rest
split_lines-line line [] rest h = ap (λ p. p ∷ split_lines [] rest) (sym (append_nil line))
split_lines-line line (c ∷ l) rest h =
    let other : (c == 10) ≡ false = ground arith in
    rw (other, split_lines)
      (split_lines-line (line ++ (c ∷ [])) l rest (ground arith)
        ∙ ap (λ p. p ∷ split_lines [] rest) (append_assoc line (c ∷ []) l))

pub cut_blank-word :
    (word l rest : List ℕ)
    → lacks 32 l ≡ true
    → cut_blank word (l ++ (32 ∷ rest)) ≡ (word ++ l, rest)
cut_blank-word word [] rest h = ap (λ w. (w, rest)) (sym (append_nil word))
cut_blank-word word (c ∷ l) rest h =
    let other : (c == 32) ≡ false = ground arith in
    rw (other, cut_blank)
      (cut_blank-word (word ++ (c ∷ [])) l rest (ground arith)
        ∙ ap (λ w. (w, rest)) (append_assoc word (c ∷ []) l))

numeral-lacks : (c k n : ℕ) → c < 48 → lacks c (numeral 10 k n) ≡ true
unfolding numeral digit
numeral-lacks c zero n h = refl
numeral-lacks c (suc k) n h = ground (
  arith,
  numeral-lacks c k (n / 10) h,
  lacks-append c (numeral 10 k (n / 10)) (digit (n % 10) ∷ []),
)

abbrev pub InRange : ℤ → Type 0
InRange (pos n) = n < 10 ^ 20
InRange (negsuc n) = suc n < 10 ^ 20

read_int-numeral :
    (cs : List ℕ) (n : ℕ)
    → lacks 45 cs ≡ true
    → read_numeral 10 cs ≡ some n
    → read_int cs ≡ some (pos n)
unfolding read_numeral
read_int-numeral [] n h e = absurd (cc)
read_int-numeral (c ∷ cs) n h e = ground arith

-- A printed value is read back.
pub read_int-print_int : (z : ℤ) → InRange z → read_int (print_int z) ≡ some z
unfolding print_int
read_int-print_int (pos n) h =
    read_int-numeral (numeral 10 20 n) n (numeral-lacks 45 20 n (omega arith))
      (read_numeral-numeral 10 19 n (omega arith) (omega arith) h)
read_int-print_int (negsuc n) h =
    ap (map_option negate) (read_numeral-numeral 10 19 (suc n) (omega arith) (omega arith) h)

pub print_int-lacks : (c : ℕ) (z : ℤ) → c < 45 → lacks c (print_int z) ≡ true
unfolding print_int
print_int-lacks c (pos n) h = numeral-lacks c 20 n (omega arith)
print_int-lacks c (negsuc n) h = ground (arith, numeral-lacks c 20 (suc n) (omega arith))
