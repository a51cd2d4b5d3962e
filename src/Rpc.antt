-- ===== src/Rpc.antt =====
-- internal/rpc/server.go: the JSON-RPC server over the engines of the node. The decoding of a body and
-- the answers of the sequencer are arguments; a reply stands for its JSON.
pub mod Params
pub mod Handler
pub mod Effects
pub mod Errors
pub mod Reverify
mod Tests
use Prim.Native.String as Text
use Prim.Native.String.{String}
use inso_validator.Prelude.{
  ℕ, suc, ◌+◌, ◌%◌, ◌^◌, Bool, true, false, not, ◌&&◌, List, [], ◌∷◌, Option, none, some, take,
  if◌then◌else◌,
}
use inso_validator.Prelude.Int.{ℤ, negsuc}
use inso_validator.Prelude.Names.{same}
use inso_validator.Prelude.Word.{add_u64}
use inso_validator.Float.{Float, fin}
use inso_validator.External.{Hashing}
use inso_validator.Config.{SequencerConfig}
use inso_validator.Metrics.{Metrics}
use inso_validator.P2P.Peers.{Peer, Network, peer_count, all_peers}
use inso_validator.Staking as Staking
use inso_validator.Staking.{Stake, total_staked, active_validators}
use inso_validator.Reputation as Reputation
use inso_validator.Reputation.{ValidatorReputation, get_reputation, all_reputations}
use inso_validator.Sync as Sync
use inso_validator.Sync.{L2Block, is_synced, get_block, latest_block_of}
use inso_validator.Consensus as Consensus
use inso_validator.Consensus.{ValidatorInfo, validator_count, all_validators}
use inso_validator.Verification as Verification
use inso_validator.Verification.{verify_block}
use inso_validator.Verification.Lanes.{LaneStats, LaneVerificationResult, verify_lane_allocation}
use inso_validator.Verification.Receipts.{
  ComputeReceiptData, ReceiptVerificationResult, verify_compute_receipt,
}
use inso_validator.Verification.Adaptive.{
  AdaptiveVerificationResult, default_adaptive_bounds, verify_adaptive_block,
}
use Params.{RawParams, Parsed, ok, err, parse_uint64_param, parse_string_param}

pub record Server : Type 0 where
  pub consensus : Consensus.Engine
  pub sync : Sync.Engine
  pub verification : Verification.Engine
  pub staking : Staking.Manager
  pub reputation : Option Reputation.Manager
  pub network : Network
  pub seq_cfg : Option SequencerConfig
  pub metrics : Option Metrics

unfoldable pub new_server :
    Consensus.Engine → Sync.Engine → Verification.Engine → Staking.Manager → Network → Server
new_server consensus sync verification staking network = record {
  consensus = consensus;
  sync = sync;
  verification = verification;
  staking = staking;
  reputation = none;
  network = network;
  seq_cfg = none;
  metrics = none;
}

unfoldable pub set_reputation : Server → Reputation.Manager → Server
set_reputation s r = record s { reputation = some r }

unfoldable pub set_sequencer_config : Server → SequencerConfig → Server
set_sequencer_config s cfg = record s { seq_cfg = some cfg }

unfoldable pub set_metrics : Server → Metrics → Server
set_metrics s m = record s { metrics = some m }

-- The methods of the switch.
pub data Method : Type 0 where
  validator_status get_validators get_peers get_active_stakes verify_a_block : Method
  lane_verification receipt_verification adaptive_verification : Method
  reputation_scores one_reputation sync_status : Method

unfoldable pub method_of : String → Option Method
method_of m =
    if same m "inso_validatorStatus"
    then some validator_status
    else if same m "inso_getValidators"
    then some get_validators
    else if same m "inso_getPeers"
    then some get_peers
    else if same m "inso_getActiveStakes"
    then some get_active_stakes
    else if same m "inso_verifyBlock"
    then some verify_a_block
    else if same m "inso_getLaneVerification"
    then some lane_verification
    else if same m "inso_getReceiptVerification"
    then some receipt_verification
    else if same m "inso_getAdaptiveVerification"
    then some adaptive_verification
    else if same m "inso_getReputationScores"
    then some reputation_scores
    else if same m "inso_getReputation"
    then some one_reputation
    else if same m "inso_getSyncStatus"
    then some sync_status
    else none

pub record Request (I : Type 0) : Type 0 where
  pub method : String
  pub params : RawParams
  pub id : I

pub record Status : Type 0 where
  pub synced : Bool
  pub latest_block : ℕ
  pub validator_count : ℕ
  pub peer_count : ℕ
  pub total_staked : ℤ

pub data Reply : Type 0 where
  status : Status → Reply
  validators : List ValidatorInfo → Reply
  peers : List Peer → Reply
  stakes : List Stake → Reply
  verdict : Verification.Result → Reply
  lanes : LaneVerificationResult → Reply
  receipt : ReceiptVerificationResult → Reply
  adaptive : AdaptiveVerificationResult → Reply
  reputations : List ValidatorReputation → Reply
  reputation : ValidatorReputation → Reply
  synced_to : Bool → ℕ → Reply

-- What the server writes: 405, an error with the id, null where there is none, or a result, which is
-- null where the encoding fails.
pub data Response (I : Type 0) : Type 0 where
  method_not_allowed : Response I
  error : Option I → ℤ → String → Response I
  result : I → Option Reply → Response I

-- What the sequencer answers while a request is handled.
pub record World : Type 0 where
  pub remote : Option ℕ
  pub lane_stats : String → Option LaneStats
  pub receipts : String → String → Option (Option ComputeReceiptData)

unfoldable pub sequencer_url : Server → String
sequencer_url s = elim s.seq_cfg [
  | none ↦ "http://localhost:8545"
  | some cfg ↦ if same cfg.rpc_url "" then "http://localhost:8545" else cfg.rpc_url
]

-- encoding/json refuses a float that is not finite.
unfoldable pub is_finite : Float → Bool
is_finite (fin _) = true
is_finite _ = false

unfoldable pub all_finite : List ValidatorInfo → Bool
all_finite [] = true
all_finite (v ∷ vs) =
    is_finite v.taste_score
    && is_finite v.vote_power
    && is_finite v.sovereignty_score
    && all_finite vs

unfoldable pub all_scores_finite : List ValidatorReputation → Bool
all_scores_finite [] = true
all_scores_finite (r ∷ rs) = is_finite r.sovereignty_score && all_scores_finite rs

unfoldable pub encoded : Reply → Option Reply
encoded (validators vs) = if all_finite vs then some (validators vs) else none
encoded (reputations rs) = if all_scores_finite rs then some (reputations rs) else none
encoded (reputation r) = if is_finite r.sovereignty_score then some (reputation r) else none
encoded reply = some reply

-- A result, or a code and a message.
pub data Answer : Type 0 where
  gives : Reply → Answer
  refuses : ℤ → String → Answer

abbrev pub parse_error : ℤ
parse_error = negsuc 32699

abbrev pub method_not_found : ℤ
method_not_found = negsuc 32600

abbrev pub invalid_params : ℤ
invalid_params = negsuc 32601

abbrev pub internal_error : ℤ
internal_error = negsuc 32602
