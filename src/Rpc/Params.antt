-- ===== src/Rpc/Params.antt =====
-- internal/rpc/server.go, parseUint64Param and parseStringParam: a parameter of a request. What
-- encoding/json can find at a place is a data type; the text of an integer is its value.
pub mod Hex
use Prim.Native.String.{String}
use inso_validator.Prelude.{
  ℕ, ◌%◌, ◌^◌, ◌&&◌, ◌||◌, List, [], ◌∷◌, Option, none, some, ltb, ◌==◌, if◌then◌else◌, get_elem?,
}
use inso_validator.Prelude.Int.{pos}
use inso_validator.Text.{codes, decimal, read_numeral}
use Prim.Native.String as Text

-- An element of the array: a natural number, another number, a text, null, or anything else.
pub data Value : Type 0 where
  natural : ℕ → Value
  other_number : Value
  quoted : String → Value
  null : Value
  other : Value

-- The raw parameters: left out, null, an array, or anything else.
pub data RawParams : Type 0 where
  absent : RawParams
  null : RawParams
  array : List Value → RawParams
  other : RawParams

pub data Parsed (A : Type 0) : Type 0 where
  ok : A → Parsed A
  err : String → Parsed A

-- `json.Unmarshal` into a slice: null gives an empty one.
unfoldable pub elements : RawParams → Option (List Value)
elements absent = none
elements null = some []
elements (array vs) = some vs
elements other = none

-- `strings.TrimPrefix(s, "0x")`
unfoldable pub trim_prefix : List ℕ → List ℕ
trim_prefix (z ∷ x ∷ rest) = if z == 48 && x == 120 then rest else z ∷ x ∷ rest
trim_prefix cs = cs

-- The magnitude that `big.Int.SetString(s, 16)` reads, behind a sign; `none` if it fails.
unfoldable pub set_string : List ℕ → Option ℕ
set_string [] = none
set_string (c ∷ cs) = if c == 43 || c == 45 then read_numeral 16 cs else read_numeral 16 (c ∷ cs)

-- `Uint64` keeps the low 64 bits of the magnitude.
unfoldable pub hex_value : String → Option ℕ
hex_value s = elim (set_string (trim_prefix (codes s))) [ none ↦ none | some n ↦ some (n % 2 ^ 64) ]

-- One element as a uint64; null leaves the zero.
unfoldable pub uint64_value : Value → Option ℕ
uint64_value (natural n) = if ltb n (2 ^ 64) then some n else none
uint64_value other_number = none
uint64_value (quoted s) = hex_value s
uint64_value null = some 0
uint64_value other = none

unfoldable pub string_value : Value → Option String
string_value (quoted s) = some s
string_value null = some ""
string_value _ = none

-- `fmt.Errorf` with the index.
abbrev pub at_index : String → ℕ → String
at_index message idx = Text.◌++◌ message (decimal (pos idx))

-- The element at the index, or the first two errors.
unfoldable pub param_at : RawParams → ℕ → Parsed Value
param_at params idx = elim (elements params) [
  | none ↦ err "params must be an array"
  | some vs ↦ elim (get_elem? vs idx) [
    | none ↦ err (at_index "missing parameter at index " idx)
    | some v ↦ ok v
  ]
]

unfoldable pub parse_uint64_param : RawParams → ℕ → Parsed ℕ
parse_uint64_param params idx = elim (param_at params idx) [
  | err e ↦ err e
  | ok v ↦ elim (uint64_value v) [
    | none ↦ err (at_index "invalid uint64 at index " idx)
    | some n ↦ ok n
  ]
]

unfoldable pub parse_string_param : RawParams → ℕ → Parsed String
parse_string_param params idx = elim (param_at params idx) [
  | err e ↦ err e
  | ok v ↦ elim (string_value v) [
    | none ↦ err (at_index "invalid string at index " idx)
    | some s ↦ ok s
  ]
]
