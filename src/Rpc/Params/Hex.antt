-- ===== src/Rpc/Params/Hex.antt =====
-- A block number that a request spells in hexadecimal.
use Prim.Native.String.{String}
use inso_validator.Prelude.{
  ℕ, suc, ◌+◌, ◌-◌, ◌*◌, ◌%◌, ◌^◌, ◌≤◌, ◌≡◌, ◌⊎◌, refl, ap, ◌∙◌, Bool, true, false, ◌||◌, List, [],
  ◌∷◌, ◌++◌, Option, none, some, ltb, leb, ◌==◌, if◌then◌else◌, All, length, arith,
}
use native.Mathlib.Nat.{add-mul, mul_assoc, mul_comm}
use inso_validator.Text.{codes, digit_value, read_digits, read_numeral}
use inso_validator.Rpc.Params.{
  Value, natural, quoted, array, Parsed, ok, err, elements, trim_prefix, set_string, hex_value,
  uint64_value, param_at, parse_uint64_param, at_index,
}

-- A hexadecimal digit, of either case, and what it is worth.
abbrev pub IsHexDigit : ℕ → Type 0
IsHexDigit c = ((48 ≤ c) × (c ≤ 57)) ⊎ (((65 ≤ c) × (c ≤ 70)) ⊎ ((97 ≤ c) × (c ≤ 102)))

abbrev pub worth : ℕ → ℕ
worth c = if leb 97 c then c - 87 else if leb 65 c then c - 55 else c - 48

-- The number that digits spell, by their places.
abbrev pub spelled : List ℕ → ℕ
spelled [] = 0
spelled (c ∷ cs) = worth c * 16 ^ length cs + spelled cs

-- Nothing, or a plus or a minus.
abbrev pub IsSign : List ℕ → Type 0
IsSign [] = Unit
IsSign (c ∷ []) = (c ≡ 43) ⊎ (c ≡ 45)
IsSign (c ∷ d ∷ cs) = ⊥

digit-worth : (c : ℕ) → IsHexDigit c → (digit_value c ≡ worth c) × (ltb (digit_value c) 16 ≡ true)
unfolding digit_value
digit-worth c h = ground arith

places : (acc w p rest : ℕ) → (acc * 16 + w) * p + rest ≡ acc * (p * 16) + (w * p + rest)
places acc w p rest = omega (arith, add-mul (acc * 16) w p, mul_assoc acc 16 p, mul_comm 16 p)

step : (k : ℕ) → 16 ^ k * 16 ≡ 16 ^ suc k
step k = omega arith

read_digits-spelled :
    (acc : ℕ) (cs : List ℕ)
    → All IsHexDigit cs
    → read_digits 16 acc cs ≡ some (acc * 16 ^ length cs + spelled cs)
unfolding read_digits
read_digits-spelled acc [] h = ap some (omega arith)
read_digits-spelled acc (c ∷ cs) (h, hs) =
    let (value, is_digit) = digit-worth c h in
    ap (λ b. elim b [ true ↦ read_digits 16 (acc * 16 + digit_value c) cs | false ↦ none ]) is_digit
    ∙ ap (λ v. read_digits 16 (acc * 16 + v) cs) value
    ∙ read_digits-spelled (acc * 16 + worth c) cs hs
    ∙ ap some (places acc (worth c) (16 ^ length cs) (spelled cs))
    ∙ ap (λ q. some (acc * q + (worth c * 16 ^ length cs + spelled cs))) (step (length cs))

set_string-spelled :
    (sign : List ℕ) (c : ℕ) (cs : List ℕ)
    → IsSign sign
    → All IsHexDigit (c ∷ cs)
    → set_string (sign ++ (c ∷ cs)) ≡ some (spelled (c ∷ cs))
unfolding set_string read_numeral
set_string-spelled [] c cs g h =
    let plain : (c == 43 || c == 45) ≡ false = ground (arith, h.0) in
    rw plain (read_digits-spelled 0 (c ∷ cs) h ∙ ap some (omega arith))
set_string-spelled (x ∷ []) c cs g h =
    let signed : (x == 43 || x == 45) ≡ true = ground (arith, g) in
    rw signed (read_digits-spelled 0 (c ∷ cs) h ∙ ap some (omega arith))
set_string-spelled (x ∷ y ∷ zs) c cs g h = absurd g

-- The value of 0x, a sign or none, and digits.
hex_value-spelled :
    (s : String) (sign : List ℕ) (c : ℕ) (cs : List ℕ)
    → codes s ≡ codes "0x" ++ (sign ++ (c ∷ cs))
    → IsSign sign
    → All IsHexDigit (c ∷ cs)
    → hex_value s ≡ some (spelled (c ∷ cs) % 2 ^ 64)
unfolding hex_value trim_prefix
hex_value-spelled s sign c cs e g h =
    ap reduced (ap (λ cs. set_string (trim_prefix cs)) e ∙ set_string-spelled sign c cs g h)
  where
    reduced : Option ℕ → Option ℕ
    reduced o = elim o [ none ↦ none | some m ↦ some (m % 2 ^ 64) ]

-- What the parser makes of an element's value.
abbrev parsed : Option ℕ → Parsed ℕ
parsed o = elim o [ none ↦ err (at_index "invalid uint64 at index " 0) | some m ↦ ok m ]

sized :
    (n : ℕ) (small : Bool)
    → parsed (if small then some n else none)
      ≡ (if small then ok n else err (at_index "invalid uint64 at index " 0))
sized n true = refl
sized n false = refl

-- A first parameter that is a text of 0x, a plus, a minus or no sign, and at least one hexadecimal
-- digit, of either case, however many and with leading zeros or not, is taken as the number that the
-- digits spell, without its sign, modulo 2 ^ 64, while the same number written as a JSON number is
-- refused if it needs more than 64 bits; so without a sign the two agree on the numbers of 64 bits, and
-- only there.
pub parse_uint64_param-spelled :
    (s : String) (vs : List Value) (sign : List ℕ) (c : ℕ) (cs : List ℕ)
    → codes s ≡ codes "0x" ++ (sign ++ (c ∷ cs))
    → IsSign sign
    → All IsHexDigit (c ∷ cs)
    → let n = spelled (c ∷ cs) in
      (parse_uint64_param (array (quoted s ∷ vs)) 0 ≡ ok (n % 2 ^ 64))
      × (parse_uint64_param (array (natural n ∷ vs)) 0
          ≡ (if ltb n (2 ^ 64) then ok n else err (at_index "invalid uint64 at index " 0)))
unfolding parse_uint64_param param_at elements uint64_value
parse_uint64_param-spelled s vs sign c cs e g h =
    let n = spelled (c ∷ cs) in
    (ap parsed (hex_value-spelled s sign c cs e g h), sized n (ltb n (2 ^ 64)))
