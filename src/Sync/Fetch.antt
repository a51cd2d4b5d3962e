-- ===== src/Sync/Fetch.antt =====
-- internal/sync/engine.go, rpcCall, fetchLatestBlockNumber and fetchBlock: what the sync engine takes
-- from the sequencer's answers. The exchange of bytes and the decoding of JSON are arguments.
pub mod Numbers
pub mod Reader
mod Tests
use Prim.Native.String.{String}
use inso_validator.Prelude.{
  ℕ, zero, suc, ◌+◌, ◌-◌, ◌^◌, ◌≤◌, ◌<◌, ◌≡◌, refl, sym, ap, ◌∙◌, Bool, true, false, ◌&&◌, ◌||◌,
  List, [], ◌∷◌, ◌++◌, Option, none, some, ltb, leb, ◌==◌, if◌then◌else◌, length, take, drop, arith,
  Bool-cases, inl, inr,
}
use inso_validator.Prelude.Int.{ℤ}
use inso_validator.Text.{codes, digit_value, numeral, read_digits, read_numeral}
use inso_validator.Sync.{L2Block, Sequencer}

-- The body of an answer: the raw result, and the error if there is one.
pub record Answer : Type 0 where
  pub result : List ℕ
  pub error : Option (ℤ × String)

pub data CallError : Type 0 where
  post_failed : CallError
  bad_response : CallError
  rpc_error : ℤ → String → CallError
  bad_number : CallError
  bad_block : CallError

pub data Called (A : Type 0) : Type 0 where
  got : A → Called A
  failed : CallError → Called A

-- `rpcCall`, behind the request: `none` if the exchange fails.
unfoldable pub rpc_call : (List ℕ → Option Answer) → Option (List ℕ) → Called (List ℕ)
rpc_call decode none = failed post_failed
rpc_call decode (some body) = elim (decode body) [
  | none ↦ failed bad_response
  | some answer ↦ elim answer.error [
    | none ↦ got answer.result
    | some (c, message) ↦ failed (rpc_error c message)
  ]
]

-- The longest prefix of hexadecimal digits.
unfoldable pub hex_prefix : List ℕ → List ℕ
hex_prefix [] = []
hex_prefix (c ∷ cs) = if ltb (digit_value c) 16 then c ∷ hex_prefix cs else []

-- `isSpace` of fmt, on code points.
abbrev pub is_space : ℕ → Bool
is_space c =
    (leb 9 c && leb c 13)
    || c == 32
    || c == 133
    || c == 160
    || c == 5760
    || (leb 8192 c && leb c 8202)
    || c == 8232
    || c == 8233
    || c == 8239
    || c == 8287
    || c == 12288

-- The blanks that `Sscanf` skips in front of a number; `none` for a line break, which is an error.
unfoldable pub skip_blanks : List ℕ → Option (List ℕ)
skip_blanks [] = some []
skip_blanks (c ∷ cs) =
    let rest = skip_blanks cs in
    if c == 10 then none else if is_space c then rest else some (c ∷ cs)

-- `strconv.ParseUint(s, 16, 64)` into a variable that is 0 before: an error leaves it.
unfoldable pub parse_uint64 : List ℕ → ℕ
parse_uint64 cs = elim (read_numeral 16 cs) [ none ↦ 0 | some n ↦ if ltb n (2 ^ 64) then n else 0 ]

-- `fmt.Sscanf(s, "0x%x", &num)`, whose error is dropped.
unfoldable pub scan_hex : List ℕ → ℕ
scan_hex (z ∷ x ∷ rest) =
    if z == 48 && x == 120
    then elim (skip_blanks rest) [ none ↦ 0 | some cs ↦ parse_uint64 (hex_prefix cs) ]
    else 0
scan_hex _ = 0

-- What the engine asks: the number of the latest block, or a block by the text of its number.
pub data Query : Type 0 where
  block_number : Query
  block_by_number : List ℕ → Query

-- `fmt.Sprintf("0x%x", num)`
unfoldable pub print_hex : ℕ → List ℕ
print_hex n = codes "0x" ++ numeral 16 16 n

module _ (decode_answer : List ℕ → Option Answer) (decode_text : List ℕ → Option String)
    (decode_block : List ℕ → Option L2Block) where
  unfoldable pub number_of : Called (List ℕ) → Called ℕ
  number_of (failed e) = failed e
  number_of (got result) = elim (decode_text result) [
    | none ↦ failed bad_number
    | some text ↦ got (scan_hex (codes text))
  ]

  unfoldable pub block_of : Called (List ℕ) → Called L2Block
  block_of (failed e) = failed e
  block_of (got result) = elim (decode_block result) [
    | none ↦ failed bad_block
    | some block ↦ got block
  ]

  -- `ask` is the exchange with the sequencer.
  unfoldable pub fetch_latest_block_number : (Query → Option (List ℕ)) → Called ℕ
  fetch_latest_block_number ask = number_of (rpc_call decode_answer (ask block_number))

  unfoldable pub fetch_block : (Query → Option (List ℕ)) → ℕ → Called L2Block
  fetch_block ask num = block_of (rpc_call decode_answer (ask (block_by_number (print_hex num))))

  abbrev pub value : {A : Type 0} → Called A → Option A
  value (got a) = some a
  value (failed _) = none

  -- What one catch-up sees of the sequencer; `later` is how it answers while a block is processed.
  unfoldable pub sequencer : (Query → Option (List ℕ)) → (ℕ → Query → Option (List ℕ)) → Sequencer
  sequencer ask later = record {
    block_number = value (fetch_latest_block_number ask);
    block = λ num. value (fetch_block ask num);
    poll = λ num. value (fetch_latest_block_number (later num));
  }

-- `bytesReader`: the body of a request and the position in it.
pub record BytesReader : Type 0 where
  pub bytes : List ℕ
  pub pos : ℕ

unfoldable pub json_reader : List ℕ → BytesReader
json_reader bytes = record { bytes = bytes; pos = 0 }

-- `Read` into a buffer of some size: what is copied, or `none` at the end.
unfoldable pub read : BytesReader → ℕ → BytesReader × Option (List ℕ)
read r size =
    if leb (length r.bytes) r.pos
    then (r, none)
    else let copied = take size (drop r.pos r.bytes) in
      (record r { pos = r.pos + length copied }, some copied)
