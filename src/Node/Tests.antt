-- ===== src/Node/Tests.antt =====
-- The node on concrete inputs.
use inso_validator.Sync as Sync
use inso_validator.Sync.{process_block, is_gap, store, update_gauges}
use inso_validator.Verification.{verify_block, compute_expected_state_root, is_mismatch}
use inso_validator.Node.{Node, run, deliver, on_new_block}
use inso_validator.External.Toys.{toy_hashing, toy_signing}
use inso_validator.Prelude.{◌≡◌, arith}
use inso_validator.Prelude.{ℕ, true, List, [], ◌∷◌, Option, none, some}
use inso_validator.Prelude.Int.{pos}
use inso_validator.Sync.{L2Block}
use inso_validator.Consensus as Consensus
use inso_validator.Consensus.{attestations_of}

abbrev numbered : ℕ → L2Block
numbered n = record {
  number = n;
  hash = "0xab";
  parent_hash = "0xaa";
  timestamp = 100;
  state_root = "";
  gas_used = 21_000;
  gas_limit = 30_000_000;
  tx_count = pos 1;
  sequencer = "seq";
}

abbrev arrivals : List (L2Block × Option ℕ × ℕ)
arrivals = (numbered 1, none, 5) ∷ (numbered 2, none, 6) ∷ (numbered 2, some 2, 7) ∷ []

abbrev engine : Consensus.Engine
engine = Consensus.new_engine true 1 none 1

abbrev start : Node
start = record { sync = Sync.new_engine; verifier = record { state_root = 3 }; consensus = engine }

-- The second block comes twice and is taken once.
two_blocks : (run toy_hashing toy_signing start arrivals).sync.latest_block ≡ 2
unfolding run deliver on_new_block process_block is_gap store update_gauges Sync.new_engine
    Consensus.new_engine verify_block compute_expected_state_root is_mismatch
two_blocks = ground arith
