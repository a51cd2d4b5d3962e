-- ===== src/Text.antt =====
-- Texts as lists of code points, and the numerals that fmt, strconv and math/big print and read.
pub mod Laws
use Prim.Native.Char.{code}
use Prim.Native.String as Text
use Prim.Native.String.{String}
use inso_validator.Prelude.Int.{ℤ, pos, negsuc}
use inso_validator.Prelude.{
  ◌==◌, ℕ, zero, suc, ◌+◌, ◌-◌, ◌*◌, ◌/◌, ◌%◌, List, [], ◌∷◌, ◌++◌, Option, none, some, true, false,
  ◌&&◌, ltb, leb, if◌then◌else◌,
}

abbrev pub codes : String → List ℕ
codes String.[] = []
codes (String.◌∷◌ c s) = code c ∷ codes s

-- The digit for a value below 16, in lower case.
unfoldable pub digit : ℕ → ℕ
digit d = if ltb d 10 then 48 + d else 87 + d

-- The value of a digit in either case, and 16 for any other character.
unfoldable pub digit_value : ℕ → ℕ
digit_value c =
    if leb 48 c && leb c 57
    then c - 48
    else if leb 97 c && leb c 102
    then c - 87
    else if leb 65 c && leb c 70
    then c - 55
    else 16

-- The numeral of a number of at most `k` digits.
unfoldable pub numeral : ℕ → ℕ → ℕ → List ℕ
numeral base zero n = []
numeral base (suc k) n =
    if ltb n base then digit n ∷ [] else numeral base k (n / base) ++ (digit (n % base) ∷ [])

-- The value of a text that is all digits of the base; `none` at any other character.
unfoldable pub read_digits : ℕ → ℕ → List ℕ → Option ℕ
read_digits base acc [] = some acc
read_digits base acc (c ∷ cs) = elim (ltb (digit_value c) base) [
  | true ↦ read_digits base (acc * base + digit_value c) cs
  | false ↦ none
]

-- A numeral has a digit.
unfoldable pub read_numeral : ℕ → List ℕ → Option ℕ
read_numeral base [] = none
read_numeral base (c ∷ cs) = read_digits base 0 (c ∷ cs)

-- `%d` of a 64-bit integer, which has at most 20 digits.
unfoldable pub print_int : ℤ → List ℕ
print_int (pos n) = numeral 10 20 n
print_int (negsuc n) = 45 ∷ numeral 10 20 (suc n)

-- The same as a native text.
unfoldable pub digit_text : ℕ → String
digit_text d =
    if d == 0
    then "0"
    else if d == 1
    then "1"
    else if d == 2
    then "2"
    else if d == 3
    then "3"
    else if d == 4
    then "4"
    else if d == 5
    then "5"
    else if d == 6
    then "6"
    else if d == 7
    then "7"
    else if d == 8
    then "8"
    else "9"

unfoldable pub numeral_text : ℕ → ℕ → String
numeral_text zero n = ""
numeral_text (suc k) n =
    if ltb n 10 then digit_text n else Text.◌++◌ (numeral_text k (n / 10)) (digit_text (n % 10))

unfoldable pub decimal : ℤ → String
decimal (pos n) = numeral_text 20 n
decimal (negsuc n) = Text.◌++◌ "-" (numeral_text 20 (suc n))
