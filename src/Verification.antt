-- ===== src/Verification.antt =====
-- internal/verification/engine.go: the check of a block's state root against the root derived from
-- the previous one. Log lines are left out; the collector that `SetMetrics` stores is never read.
pub mod Chain
pub mod Ambiguity
pub mod Lanes
pub mod Fetch
pub mod Receipts
pub mod Adaptive
mod Tests
use text.Mathlib.Text.{◌==◌ as str_eq}
use Prim.Native.String.{String}
use inso_validator.Prelude.{
  ℕ, Bool, true, false, not, ◌&&◌, List, [], ◌∷◌, ◌++◌, Option, none, some, if◌then◌else◌, ◌==◌,
}
use inso_validator.Bytes.{be_bytes, big_bytes, written}
use inso_validator.External.{Hashing}
use inso_validator.Sync.{L2Block}

-- The messages of the results, without their wording.
pub data Fault : Type 0 where
  no_fault : Fault
  invalid_block_number : Fault
  state_root_mismatch : String → String → Fault

pub record Result : Type 0 where
  pub block_number : ℕ
  pub valid : Bool
  pub error : Fault
  pub state_root : String

pub record Engine : Type 0 where
  pub state_root : ℕ

-- "insoblok-genesis"
abbrev pub genesis_bytes : List ℕ
genesis_bytes =
    105 ∷ 110 ∷ 115 ∷ 111 ∷ 98 ∷ 108 ∷ 111 ∷ 107 ∷ 45 ∷ 103 ∷ 101 ∷ 110 ∷ 101 ∷ 115 ∷ 105 ∷ 115 ∷ []

module _ (h : Hashing) where
  unfoldable pub new_engine : Engine
  new_engine = record { state_root = h.sha256 (genesis_bytes ++ big_bytes 42069) }

  -- What is written into the hash for a block on top of a root.
  unfoldable pub root_preimage : ℕ → L2Block → List ℕ
  root_preimage root block = written (
      big_bytes block.number
      ∷ be_bytes 32 root
      ∷ big_bytes block.timestamp
      ∷ big_bytes block.gas_used
      ∷ [])

  unfoldable pub compute_expected_state_root : Engine → L2Block → ℕ
  compute_expected_state_root e block = h.sha256 (root_preimage e.state_root block)

  -- `block.StateRoot != "" && block.StateRoot != expectedRoot.Hex()`
  unfoldable pub is_mismatch : L2Block → ℕ → Bool
  is_mismatch block expected =
      not (str_eq block.state_root "") && not (str_eq block.state_root (h.hash_hex expected))

  -- What a call makes of a block with the root that it reads: the result, and the root that it will
  -- store, if any.
  unfoldable pub judge : Engine → L2Block → Result × Option ℕ
  judge e block =
      let expected = compute_expected_state_root e block in
      if block.number == 0
      then (
        record { block_number = 0; valid = false; error = invalid_block_number; state_root = "" },
        none,
      )
      else if is_mismatch block expected
      then (
        record {
          block_number = block.number;
          valid = false;
          error = state_root_mismatch block.state_root (h.hash_hex expected);
          state_root = h.hash_hex expected;
        },
        none,
      )
      else (
        record {
          block_number = block.number;
          valid = true;
          error = no_fault;
          state_root = h.hash_hex expected;
        },
        some expected,
      )

  -- `e.stateRoot = expectedRoot`
  unfoldable pub settle : Engine → Option ℕ → Engine
  settle e none = e
  settle e (some root) = record { state_root = root }

  -- A call that no other call overlaps. The engine has no mutex: when calls overlap, the steps `judge`
  -- and `settle` of several calls interleave.
  unfoldable pub verify_block : Engine → L2Block → Engine × Result
  verify_block e block = let (result, root) = judge e block in (settle e root, result)
