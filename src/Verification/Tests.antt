-- ===== src/Verification/Tests.antt =====
-- The verification engine on concrete inputs, with a checksum for the hash.
use Prim.Native.String.{String}
use inso_validator.Prelude.{
  ◌+◌, ◌*◌, ◌^◌, ◌<◌, ◌≡◌, ◌≢◌, ◌↔◌, refl, true, false, List, [], ◌∷◌, Option, none, some, ℕ, arith,
  if◌then◌else◌,
}
use inso_validator.Prelude.Int.{pos}
use inso_validator.External.Toys.{toy_hashing}
use inso_validator.Sync.{L2Block}
use inso_validator.Verification.{
  Engine, no_fault, compute_expected_state_root, is_mismatch, judge, settle, verify_block,
}
use inso_validator.Verification.Chain.{Declares, Chain, run, all_valid, verify_block_lem, run_iff}
use inso_validator.Verification.Ambiguity.{state_root_ambiguous}
use inso_validator.Verification.Lanes.{LaneStats, verify_lane_allocation}
use inso_validator.Text.{codes}
use inso_validator.Verification.Fetch.{
  receipt_body, fetch_lane_stats, AnswerPasses, fetched_valid_iff,
}
use inso_validator.Verification.Receipts as Receipts
use inso_validator.Verification.Receipts.{
  ComputeReceiptData, uint64_to_bytes, receipt_preimage, verify_compute_receipt, Passes,
  receipt_valid_iff,
}
use inso_validator.Verification.Receipts.Encoding.{SameFields, receipt_preimage-injective}
use inso_validator.Verification.Adaptive as Adaptive
use inso_validator.Verification.Adaptive.{
  AdaptiveBlockBounds, default_adaptive_bounds, verify_adaptive_block, GasFits, TxFits,
  gas_used_exceeds, adaptive_valid_iff,
}

abbrev engine : Engine
engine = record { state_root = 3 }

abbrev block : L2Block
block = record {
  number = 2;
  hash = "0xab";
  parent_hash = "0xaa";
  timestamp = 100;
  state_root = "";
  gas_used = 21_000;
  gas_limit = 30_000_000;
  tx_count = pos 12;
  sequencer = "seq";
}

abbrev receipt : ComputeReceiptData
receipt = record {
  tx_hash = "0x01";
  block_number = 2;
  tx_index = pos 0;
  sender = "0x02";
  gas_used = 21_000;
  status = 1;
  pre_state_root = "0x03";
  post_state_root = "0x04";
  input_hash = "";
  output_hash = "";
  logs_hash = "";
  receipt_hash = "0x64";
  verified = true;
}

abbrev stats : LaneStats
stats = record { fast = pos 4; standard = pos 4; slow = pos 2; total = pos 10; enabled = true }

run_iff_example :
    ((all_valid (run toy_hashing engine (block ∷ block ∷ [])).1 ≡ true)
      × ((run toy_hashing engine (block ∷ block ∷ [])).0.state_root ≡ 7))
    ↔ Chain toy_hashing 3 (block ∷ block ∷ []) 7
run_iff_example = run_iff toy_hashing engine (block ∷ block ∷ []) 7

verify_block_lem_example :
    (((verify_block toy_hashing engine block).1.valid ≡ true) ↔ (
      (block.number ≢ 0)
      × Declares toy_hashing block (compute_expected_state_root toy_hashing engine block)))
    × ((verify_block toy_hashing engine block).0.state_root ≡ (
        if (verify_block toy_hashing engine block).1.valid
        then compute_expected_state_root toy_hashing engine block
        else 3))
    × (((verify_block toy_hashing engine block).1.valid ≡ true)
        ↔ ((verify_block toy_hashing engine block).1.error ≡ no_fault))
    × ((verify_block toy_hashing engine block).1.block_number ≡ 2)
verify_block_lem_example = verify_block_lem toy_hashing engine block

state_root_ambiguous_example :
    (compute_expected_state_root toy_hashing engine
        (record block { timestamp = 4 * 256 + 5; gas_used = 0 })
      ≡ compute_expected_state_root toy_hashing engine
          (record block { timestamp = 4; gas_used = 5 }))
    × ((verify_block toy_hashing engine (record block { timestamp = 4 * 256 + 5; gas_used = 0 })).1
        ≡ (verify_block toy_hashing engine (record block { timestamp = 4; gas_used = 5 })).1)
state_root_ambiguous_example =
    state_root_ambiguous toy_hashing engine block 4 5 (omega arith) (omega arith) (omega arith)

receipt_valid_iff_example :
    (((verify_compute_receipt toy_hashing "0x01" (some (some receipt))).valid ≡ true)
      ↔ Passes toy_hashing (some (some receipt)))
    × (((verify_compute_receipt toy_hashing "0x01" (some (some receipt))).valid ≡ true) ↔ (
        (verify_compute_receipt toy_hashing "0x01" (some (some receipt))).error
        ≡ Receipts.no_fault))
receipt_valid_iff_example = receipt_valid_iff toy_hashing "0x01" (some (some receipt))

hash_fits : (s : String) → toy_hashing.hex_to_hash s < 256 ^ 32
hash_fits s = ground arith

receipt_preimage-injective_example :
    SameFields toy_hashing receipt (record receipt { verified = false })
receipt_preimage-injective_example =
    receipt_preimage-injective toy_hashing receipt (record receipt { verified = false })
      (hash_fits, λ s. omega arith) (omega arith, omega arith, omega arith, omega arith)
      (omega arith, omega arith, omega arith, omega arith) (unfold receipt_preimage in refl)

adaptive_valid_iff_example :
    (((verify_adaptive_block block default_adaptive_bounds).valid ≡ true)
      ↔ (GasFits block default_adaptive_bounds × TxFits block default_adaptive_bounds))
    × (((verify_adaptive_block block default_adaptive_bounds).valid ≡ true)
        ↔ ((verify_adaptive_block block default_adaptive_bounds).error ≡ Adaptive.no_fault))
    × (((verify_adaptive_block block default_adaptive_bounds).error
          ≡ gas_used_exceeds 21_000 30_000_000)
        ↔ ((0 < 30_000_000) × (30_000_000 < 21_000)))
adaptive_valid_iff_example = adaptive_valid_iff block default_adaptive_bounds

-- A quote in the hash ends the text, so what follows is a parameter of its own.
injected :
    receipt_body "0xab\",\"all"
    ≡ codes
        "{\"jsonrpc\":\"2.0\",\"id\":1,\"method\":\"inso_getComputeReceipt\",\"params\":[\"0xab\",\"all\"]}"
unfolding receipt_body
injected = refl

-- A sequencer that answers with an error.
abbrev refused : String → List ℕ → Option (List ℕ)
refused url body = some []

abbrev no_result : List ℕ → Option (Option LaneStats)
no_result bytes = some none

fetched_valid_iff_example :
    ((verify_lane_allocation (fetch_lane_stats refused no_result "http://seq")).valid ≡ true)
    ↔ AnswerPasses refused no_result (some [])
fetched_valid_iff_example = fetched_valid_iff refused no_result "http://seq"

-- Of two calls that both read the root before either stores its own, the first to store is lost.
overlap_loses :
    settle toy_hashing
      (settle toy_hashing engine (judge toy_hashing engine block).1)
      (judge toy_hashing engine (record block { number = 3 })).1
    ≡ (verify_block toy_hashing engine (record block { number = 3 })).0
unfolding settle verify_block judge is_mismatch
overlap_loses = refl
