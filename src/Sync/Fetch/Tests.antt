-- ===== src/Sync/Fetch/Tests.antt =====
-- The sequencer's answers on concrete inputs.
use Prim.Native.String.{String}
use inso_validator.Prelude.{ℕ, zero, suc, ◌≡◌, refl, true, List, [], ◌∷◌, Option, none, some, arith}
use inso_validator.Text.{codes, numeral, digit, digit_value, read_numeral, read_digits}
use inso_validator.Sync.{L2Block, new_engine, is_synced}
use inso_validator.Sync.Fetch.{
  Answer, Query, block_number, block_by_number, print_hex, scan_hex, got, value,
  fetch_latest_block_number, json_reader, parse_uint64, hex_prefix, skip_blanks,
}
use inso_validator.Sync.Fetch.Numbers.{fetch_latest_block_number_lem, other_is_synced}
use inso_validator.Sync.Fetch.Reader.{drain, drain-json_reader}

scanned : scan_hex (codes "0x1aG") ≡ 26
unfolding scan_hex parse_uint64 hex_prefix skip_blanks digit_value read_numeral read_digits
scanned = refl

abbrev decode_answer : List ℕ → Option Answer
decode_answer body = some (record { result = body; error = none })

-- One byte stands for each text.
abbrev decode_text : List ℕ → Option String
decode_text [] = none
decode_text (zero ∷ bs) = some "0x1f"
decode_text (suc n ∷ bs) = some "latest"

abbrev decode_block : List ℕ → Option L2Block
decode_block bytes = none

abbrev ask : ℕ → Query → Option (List ℕ)
ask n block_number = some (n ∷ [])
ask n (block_by_number number) = none

fetch_latest_block_number_lem_example :
    fetch_latest_block_number decode_answer decode_text decode_block (ask 0) ≡ got 31
unfolding print_hex numeral digit
fetch_latest_block_number_lem_example =
    fetch_latest_block_number_lem decode_answer decode_text decode_block (ask 0) "0x1f" 31
      (record { body = 0 ∷ []; result = 0 ∷ []; exchanged = refl; decoded = refl; is_text = refl })
      refl (omega arith)

other_is_synced_example :
    let answer = fetch_latest_block_number decode_answer decode_text decode_block (ask 1) in
    (answer ≡ got 0)
    × (is_synced new_engine (value decode_answer decode_text decode_block answer) ≡ true)
other_is_synced_example =
    other_is_synced decode_answer decode_text decode_block (ask 1) "latest" new_engine
      (record { body = 1 ∷ []; result = 1 ∷ []; exchanged = refl; decoded = refl; is_text = refl })
      refl

drain-json_reader_example :
    drain (json_reader (7 ∷ 8 ∷ 9 ∷ [])) (2 ∷ 2 ∷ 5 ∷ 1 ∷ []) ≡ 7 ∷ 8 ∷ 9 ∷ []
drain-json_reader_example =
    drain-json_reader (7 ∷ 8 ∷ 9 ∷ []) (2 ∷ 2 ∷ 5 ∷ 1 ∷ []) (omega arith) (omega arith)
