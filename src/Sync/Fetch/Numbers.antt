-- ===== src/Sync/Fetch/Numbers.antt =====
-- The number of the latest block, from the text in the sequencer's answer.
use Prim.Native.String.{String}
use inso_validator.Prelude.{
  ℕ, zero, suc, ◌/◌, ◌%◌, ◌^◌, ◌<◌, ◌≡◌, refl, ap, ◌∙◌, Bool, true, false, List, [], ◌∷◌, Option,
  none, some, ltb, leb, ◌==◌, ◌&&◌, arith, Bool-cases, inl, inr, All, All-append,
}
use inso_validator.Text.{codes, digit, digit_value, numeral}
use inso_validator.Text.Laws.{read_numeral-numeral}
use inso_validator.Sync.{L2Block, Engine, is_synced}
use inso_validator.Sync.Fetch.{
  Answer, got, rpc_call, hex_prefix, is_space, skip_blanks, parse_uint64, scan_hex, print_hex,
  Query, block_number, number_of, value, fetch_latest_block_number,
}

-- A hexadecimal digit, and no blank.
abbrev IsHex : ℕ → Type 0
IsHex c = (ltb (digit_value c) 16 ≡ true) × (is_space c ≡ false)

digit-IsHex : (d : ℕ) → d < 16 → IsHex (digit d)
unfolding digit digit_value
digit-IsHex d h = ground arith

numeral-IsHex : (k n : ℕ) → All IsHex (numeral 16 k n)
unfolding numeral
numeral-IsHex zero n = tt
numeral-IsHex (suc k) n = elim (Bool-cases (ltb n 16)) [
  | inl one_digit ↦ rw one_digit (digit-IsHex n (ground arith), tt)
  | inr more ↦ rw more (
      All-append IsHex (numeral 16 k (n / 16)) (digit (n % 16) ∷ []) (numeral-IsHex k (n / 16))
        (digit-IsHex (n % 16) (omega arith), tt))
]

hex_prefix-All : (cs : List ℕ) → All IsHex cs → hex_prefix cs ≡ cs
unfolding hex_prefix
hex_prefix-All [] h = refl
hex_prefix-All (c ∷ cs) (h, hs) = rw (h.0, hex_prefix-All cs hs) refl

skip_blanks_none : (cs : List ℕ) → All IsHex cs → skip_blanks cs ≡ some cs
unfolding skip_blanks
skip_blanks_none [] h = refl
skip_blanks_none (c ∷ cs) (h, hs) =
    let same_line : (c == 10) ≡ false = ground (arith, h.1) in rw (same_line, h.1) refl

parsed : (n : ℕ) → n < 2 ^ 64 → parse_uint64 (numeral 16 16 n) ≡ n
unfolding parse_uint64
parsed n h =
    let whole = read_numeral-numeral 16 15 n (omega arith) (omega arith) h in
    rw (whole, parse_uint64) (ground arith)

-- Numbers of 64 bits are read as they are printed.
pub scan_hex-print_hex : (n : ℕ) → n < 2 ^ 64 → scan_hex (print_hex n) ≡ n
unfolding scan_hex print_hex
scan_hex-print_hex n h =
    let all = numeral-IsHex 16 n in
    rw (skip_blanks_none (numeral 16 16 n) all, hex_prefix-All (numeral 16 16 n) all) (parsed n h)

-- A text that does not begin as a number is read as 0.
abbrev pub has_prefix : List ℕ → Bool
has_prefix (z ∷ x ∷ rest) = z == 48 && x == 120
has_prefix _ = false

scan_hex_other : (cs : List ℕ) → has_prefix cs ≡ false → scan_hex cs ≡ 0
unfolding scan_hex
scan_hex_other [] h = refl
scan_hex_other (z ∷ []) h = refl
scan_hex_other (z ∷ x ∷ rest) h = rw h refl

from_zero : (n : ℕ) → leb 0 n ≡ true
from_zero n = ground arith

module _ (decode_answer : List ℕ → Option Answer) (decode_text : List ℕ → Option String)
    (decode_block : List ℕ → Option L2Block) where
  -- The sequencer answers with a result that is this text.
  pub record Answers (ask : Query → Option (List ℕ)) (text : String) : Type 0 where
    pub body : List ℕ
    pub result : List ℕ
    pub exchanged : ask block_number ≡ some body
    pub decoded : decode_answer body ≡ some (record { result = result; error = none })
    pub is_text : decode_text result ≡ some text

  answered :
      (ask : Query → Option (List ℕ)) (text : String)
      → Answers ask text
      → fetch_latest_block_number decode_answer decode_text decode_block ask
        ≡ got (scan_hex (codes text))
  unfolding fetch_latest_block_number rpc_call number_of
  answered ask text a = rw (a.exchanged, rpc_call, a.decoded) (rw (a.is_text, number_of) refl)

  -- A sequencer that answers with a 64-bit number in hexadecimal behind 0x, in lower case and without
  -- leading zeros, is understood as it means.
  pub fetch_latest_block_number_lem :
      (ask : Query → Option (List ℕ)) (text : String) (n : ℕ)
      → Answers ask text
      → codes text ≡ print_hex n
      → n < 2 ^ 64
      → fetch_latest_block_number decode_answer decode_text decode_block ask ≡ got n
  fetch_latest_block_number_lem ask text n a printed small =
      answered ask text a
      ∙ ap (λ cs. got (scan_hex cs)) printed
      ∙ ap got (scan_hex-print_hex n small)

  -- A sequencer that answers with any text that does not begin with 0x is taken to be at block 0, with
  -- no error, and the engine reports itself synced whatever it has.
  pub other_is_synced :
      (ask : Query → Option (List ℕ)) (text : String) (e : Engine)
      → Answers ask text
      → has_prefix (codes text) ≡ false
      → let answer = fetch_latest_block_number decode_answer decode_text decode_block ask in
        (answer ≡ got 0)
        × (is_synced e (value decode_answer decode_text decode_block answer) ≡ true)
  unfolding is_synced
  other_is_synced ask text e a other =
      let zeroed = answered ask text a ∙ ap got (scan_hex_other (codes text) other) in
      (
        zeroed,
        ap (λ r. is_synced e (value decode_answer decode_text decode_block r)) zeroed
            ∙ from_zero e.latest_block,
      )
