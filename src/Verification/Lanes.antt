-- ===== src/Verification/Lanes.antt =====
-- internal/verification/features.go, VerifyLaneAllocation: what the sequencer reports about its lanes
-- must add up. The answer of `fetchLaneStats` is an argument, `none` if the call or the decoding fails.
use inso_validator.Prelude.{
  ℕ, ◌≡◌, ◌↔◌, ◌⊎◌, Bool, true, false, not, ◌&&◌, Option, none, some, if◌then◌else◌, arith,
}
use inso_validator.Prelude.Int.{ℤ, pos, ◌+ℤ◌, ◌≤ℤ◌, ltb_ℤ, eqb_ℤ}
use inso_validator.Prelude.Word.{wrap_int}

pub record LaneStats : Type 0 where
  pub fast : ℤ
  pub standard : ℤ
  pub slow : ℤ
  pub total : ℤ
  pub enabled : Bool

pub data LaneFault : Type 0 where
  no_fault : LaneFault
  fetch_failed : LaneFault
  lane_count_mismatch : ℤ → ℤ → LaneFault

pub record LaneVerificationResult : Type 0 where
  pub block_number : ℕ
  pub lanes_enabled : Bool
  pub fast_count : ℤ
  pub standard_count : ℤ
  pub slow_count : ℤ
  pub valid : Bool
  pub error : LaneFault

-- `stats.Fast + stats.Standard + stats.Slow`, in machine integers.
unfoldable pub expected_total : LaneStats → ℤ
expected_total stats = wrap_int (wrap_int (stats.fast +ℤ stats.standard) +ℤ stats.slow)

-- The result with the counts copied and the verdict to be filled in.
abbrev pub lane_result : LaneStats → Bool → LaneFault → LaneVerificationResult
lane_result stats valid error = record {
  block_number = 0;
  lanes_enabled = stats.enabled;
  fast_count = stats.fast;
  standard_count = stats.standard;
  slow_count = stats.slow;
  valid = valid;
  error = error;
}

unfoldable pub verify_lane_allocation : Option LaneStats → LaneVerificationResult
verify_lane_allocation none = record {
  block_number = 0;
  lanes_enabled = false;
  fast_count = pos 0;
  standard_count = pos 0;
  slow_count = pos 0;
  valid = false;
  error = fetch_failed;
}
verify_lane_allocation (some stats) =
    if not stats.enabled
    then lane_result stats true no_fault
    else if ltb_ℤ (pos 0) stats.total && not (eqb_ℤ stats.total (expected_total stats))
    then lane_result stats false (lane_count_mismatch stats.total (expected_total stats))
    else lane_result stats true no_fault

-- What it takes to pass: the statistics arrived, and either lanes are off, or no positive total is
-- reported, or the total is the machine sum of the lanes.
abbrev pub Consistent : Option LaneStats → Type 0
Consistent none = ⊥
Consistent (some stats) =
    (stats.enabled ≡ false) ⊎ (stats.total ≤ℤ pos 0) ⊎ (stats.total ≡ expected_total stats)

-- The check of the lanes passes just if the statistics arrived and either lanes are off, or no
-- positive total is reported, or the reported total is the sum of the three lanes in 64-bit
-- arithmetic; and it reports an error just if it does not pass.
pub lanes_valid_iff :
    (stats : Option LaneStats)
    → (((verify_lane_allocation stats).valid ≡ true) ↔ Consistent stats)
      × (((verify_lane_allocation stats).valid ≡ true)
          ↔ ((verify_lane_allocation stats).error ≡ no_fault))
unfolding verify_lane_allocation
lanes_valid_iff none = ground arith
lanes_valid_iff (some stats) = ground arith
