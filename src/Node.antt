-- ===== src/Node.antt =====
-- cmd/validator/main.go: how the node is put together. The callback verifies each new block and has it
-- attested; what it writes to the log, the verdict on the adaptive bounds included, is left out.
pub mod Votes
pub mod Start
pub mod Served
pub mod Startup
mod Tests
use inso_validator.Prelude.{
  ℕ, ◌+◌, ◌-◌, ◌*◌, ◌^◌, Bool, true, false, List, [], ◌∷◌, Option, none, some, ltb, if◌then◌else◌,
}
use inso_validator.Prelude.Int.{ℤ, pos, negsuc}
use inso_validator.External.{Hashing, Signing}
use inso_validator.Sync as Sync
use inso_validator.Sync.{L2Block, process_block}
use inso_validator.Verification as Verification
use inso_validator.Verification.{verify_block}
use inso_validator.Verification.Adaptive.{AdaptiveBlockBounds, default_adaptive_bounds}
use inso_validator.Consensus as Consensus
use inso_validator.Consensus.{attest_block}
use inso_validator.Staking as Staking
use inso_validator.Staking.{Outcome}

pub record Node : Type 0 where
  pub sync : Sync.Engine
  pub verifier : Verification.Engine
  pub consensus : Consensus.Engine

-- `int64(n)` of a uint64.
unfoldable pub int64_of : ℕ → ℤ
int64_of n = if ltb n (2 ^ 63) then pos n else negsuc (2 ^ 64 - n - 1)

-- `new(big.Int).Mul(big.NewInt(int64(MinStake)), big.NewInt(1e18))`
unfoldable pub initial_stake : ℕ → ℤ
initial_stake min_stake = scale (int64_of min_stake)
  where
    scale : ℤ → ℤ
    scale (pos n) = pos (n * 10 ^ 18)
    scale (negsuc n) = negsuc ((n + 1) * 10 ^ 18 - 1)

-- The registration at start-up; an error ends the program.
unfoldable pub register_self : ℕ → ℕ → ℕ → Staking.Manager × Outcome
register_self min_stake addr now =
    Staking.register (Staking.new_manager min_stake) addr (initial_stake min_stake) now

unfoldable pub adaptive_bounds : Bool → AdaptiveBlockBounds → AdaptiveBlockBounds
adaptive_bounds enabled configured = if enabled then configured else default_adaptive_bounds

module _ (h : Hashing) (c : Signing) where
  -- The function that is given to `OnNewBlock`.
  unfoldable pub on_new_block : Node → L2Block → ℕ → Node
  on_new_block node block now =
      let (verifier, result) = verify_block h node.verifier block in
      if result.valid
      then record node {
        verifier = verifier;
        consensus = (attest_block c node.consensus block.number (h.hex_to_hash block.hash) now).0;
      }
      else record node { verifier = verifier }

  -- A block reaches the sync engine, and the callback if the engine takes it.
  unfoldable pub deliver : Node → L2Block → Option ℕ → ℕ → Node
  deliver node block remote now =
      let (sync, taken) = process_block node.sync block remote in
      elim taken [
        | none ↦ record node { sync = sync }
        | some b ↦ on_new_block (record node { sync = sync }) b now
      ]

  -- Blocks from peers and from the sequencer, in the order in which they are processed.
  unfoldable pub run : Node → List (L2Block × Option ℕ × ℕ) → Node
  run node [] = node
  run node ((block, remote, now) ∷ arrivals) = run (deliver node block remote now) arrivals
