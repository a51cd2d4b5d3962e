-- ===== src/Verification/Adaptive.antt =====
-- internal/verification/features.go, VerifyAdaptiveBlock: the bounds on a block's gas limit and on its
-- number of transactions.
use inso_validator.Prelude.{
  ℕ, ◌≡◌, ◌↔◌, ◌⊎◌, ◌≤◌, ◌<◌, Bool, true, false, ◌&&◌, if◌then◌else◌, ltb, leb, arith,
}
use inso_validator.Prelude.Int.{ℤ, pos, ◌≤ℤ◌, ltb_ℤ, leb_ℤ}
use inso_validator.Sync.{L2Block}

pub record AdaptiveBlockBounds : Type 0 where
  pub min_gas_limit : ℕ
  pub max_gas_limit : ℕ
  pub min_max_tx : ℤ
  pub max_max_tx : ℤ

unfoldable pub default_adaptive_bounds : AdaptiveBlockBounds
default_adaptive_bounds = record {
  min_gas_limit = 15_000_000;
  max_gas_limit = 60_000_000;
  min_max_tx = pos 1_000;
  max_max_tx = pos 10_000;
}

-- The messages with their numbers.
pub data AdaptiveFault : Type 0 where
  no_fault : AdaptiveFault
  gas_limit_outside : ℕ → ℕ → ℕ → AdaptiveFault
  tx_count_exceeds : ℤ → ℤ → AdaptiveFault
  gas_used_exceeds : ℕ → ℕ → AdaptiveFault

pub record AdaptiveVerificationResult : Type 0 where
  pub block_number : ℕ
  pub gas_used : ℕ
  pub gas_limit : ℕ
  pub gas_limit_valid : Bool
  pub tx_count_valid : Bool
  pub valid : Bool
  pub error : AdaptiveFault

unfoldable pub start : L2Block → AdaptiveVerificationResult
start block = record {
  block_number = block.number;
  gas_used = block.gas_used;
  gas_limit = block.gas_limit;
  gas_limit_valid = false;
  tx_count_valid = false;
  valid = false;
  error = no_fault;
}

unfoldable pub check_gas_limit :
    L2Block → AdaptiveBlockBounds → AdaptiveVerificationResult → AdaptiveVerificationResult
check_gas_limit block bounds r =
    if ltb 0 block.gas_limit
    then if leb bounds.min_gas_limit block.gas_limit && leb block.gas_limit bounds.max_gas_limit
      then record r { gas_limit_valid = true }
      else record r {
        gas_limit_valid = false;
        error = gas_limit_outside block.gas_limit bounds.min_gas_limit bounds.max_gas_limit;
      }
    else record r { gas_limit_valid = true }

unfoldable pub check_tx_count :
    L2Block → AdaptiveBlockBounds → AdaptiveVerificationResult → AdaptiveVerificationResult
check_tx_count block bounds r =
    if ltb_ℤ (pos 0) block.tx_count
    then if leb_ℤ block.tx_count bounds.max_max_tx
      then record r { tx_count_valid = true }
      else record r {
        tx_count_valid = false;
        error = tx_count_exceeds block.tx_count bounds.max_max_tx;
      }
    else record r { tx_count_valid = true }

unfoldable pub check_gas_used : L2Block → AdaptiveVerificationResult → AdaptiveVerificationResult
check_gas_used block r =
    if ltb 0 block.gas_limit && ltb block.gas_limit block.gas_used
    then record r {
      gas_limit_valid = false;
      error = gas_used_exceeds block.gas_used block.gas_limit;
    }
    else r

-- A later message replaces an earlier one.
unfoldable pub verify_adaptive_block : L2Block → AdaptiveBlockBounds → AdaptiveVerificationResult
verify_adaptive_block block bounds =
    let r =
      check_gas_used block
        (check_tx_count block bounds (check_gas_limit block bounds (start block))) in
    record r { valid = r.gas_limit_valid && r.tx_count_valid }

-- The gas limit is not reported, or it is within the bounds and covers the gas used.
abbrev pub GasFits : L2Block → AdaptiveBlockBounds → Type 0
GasFits block bounds =
    (block.gas_limit ≡ 0)
    ⊎ ((bounds.min_gas_limit ≤ block.gas_limit)
        × (block.gas_limit ≤ bounds.max_gas_limit)
        × (block.gas_used ≤ block.gas_limit))

-- No transaction count is reported, or it is at most the largest allowed.
abbrev pub TxFits : L2Block → AdaptiveBlockBounds → Type 0
TxFits block bounds = (block.tx_count ≤ℤ pos 0) ⊎ (block.tx_count ≤ℤ bounds.max_max_tx)

-- A block passes the adaptive checks just if its gas limit is unreported or within the bounds and
-- not exceeded by the gas used, and its transaction count is unreported or at most the upper bound;
-- the lower bound on the count is not looked at. An error is reported just if the block fails, and it is
-- that the gas used exceeds the limit just if it does and a limit is reported, whatever else is wrong.
pub adaptive_valid_iff :
    (block : L2Block) (bounds : AdaptiveBlockBounds)
    → (((verify_adaptive_block block bounds).valid ≡ true)
        ↔ (GasFits block bounds × TxFits block bounds))
      × (((verify_adaptive_block block bounds).valid ≡ true)
          ↔ ((verify_adaptive_block block bounds).error ≡ no_fault))
      × (((verify_adaptive_block block bounds).error
            ≡ gas_used_exceeds block.gas_used block.gas_limit)
          ↔ ((0 < block.gas_limit) × (block.gas_limit < block.gas_used)))
unfolding verify_adaptive_block check_gas_used check_tx_count check_gas_limit start
adaptive_valid_iff block bounds = ground arith
