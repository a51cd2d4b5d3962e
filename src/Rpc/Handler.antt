-- ===== src/Rpc/Handler.antt =====
-- internal/rpc/server.go, the handlers: handle with the cases of its switch, handleHealth, handleReady.
use Prim.Native.String as Text
use Prim.Native.String.{String}
use inso_validator.Prelude.{
  ℕ, ◌^◌, Bool, true, false, not, List, Option, none, some, take, if◌then◌else◌,
}
use inso_validator.Prelude.Word.{add_u64}
use inso_validator.External.{Hashing}
use inso_validator.P2P.Peers.{peer_count, all_peers}
use inso_validator.Staking.{total_staked, active_validators}
use inso_validator.Reputation as Reputation
use inso_validator.Reputation.{ValidatorReputation, get_reputation, all_reputations}
use inso_validator.Sync.{L2Block, is_synced, get_block, latest_block_of}
use inso_validator.Consensus.{validator_count, all_validators}
use inso_validator.Verification.{verify_block}
use inso_validator.Verification.Lanes.{verify_lane_allocation}
use inso_validator.Verification.Receipts.{verify_compute_receipt}
use inso_validator.Verification.Adaptive.{default_adaptive_bounds, verify_adaptive_block}
use inso_validator.Rpc.Params.{RawParams, Parsed, ok, err, parse_uint64_param, parse_string_param}
use inso_validator.Rpc.{
  Server, Method, validator_status, get_validators, get_peers, get_active_stakes, verify_a_block,
  lane_verification, receipt_verification, adaptive_verification, reputation_scores, one_reputation,
  sync_status, method_of, Request, Status, status, validators, peers, stakes, verdict, lanes,
  receipt, adaptive, reputations, reputation, synced_to, Response, method_not_allowed, error,
  result, World, sequencer_url, encoded, Answer, gives, refuses, parse_error, method_not_found,
  invalid_params, internal_error,
}

-- The block that a request names, or the refusal.
pub data Named : Type 0 where
  block : L2Block → Named
  unnamed : String → Named

unfoldable pub named_block : Server → RawParams → Named
named_block s params = elim (parse_uint64_param params 0) [
  | err e ↦ unnamed (Text.◌++◌ "invalid block number: " e)
  | ok num ↦ elim (get_block s.sync num) [ none ↦ unnamed "block not found" | some b ↦ block b ]
]

-- `s.metrics.RPCRequests.Add(1)`
unfoldable pub count_request : Server → Server
count_request s = elim s.metrics [
  | none ↦ s
  | some m ↦ record s { metrics = some (record m { rpc_requests = add_u64 m.rpc_requests 1 }) }
]

-- The response to a request with this id.
unfoldable pub respond : {I : Type 0} → I → Server × Answer → Server × Response I
respond id (s, gives reply) = (s, result id (encoded reply))
respond id (s, refuses c message) = (s, error (some id) c message)

module _ (h : Hashing) (w : World) where
  unfoldable pub status_of : Server → Status
  status_of s = record {
    synced = is_synced s.sync w.remote;
    latest_block = latest_block_of s.sync;
    validator_count = validator_count s.consensus;
    peer_count = peer_count s.network;
    total_staked = total_staked s.staking;
  }

  unfoldable pub answer_verify : Server → Named → Server × Answer
  answer_verify s (unnamed message) = (s, refuses invalid_params message)
  answer_verify s (block b) =
      let (verification, r) = verify_block h s.verification b in
      (record s { verification = verification }, gives (verdict r))

  unfoldable pub answer_receipt : Server → Parsed String → Answer
  answer_receipt s (err e) = refuses invalid_params (Text.◌++◌ "invalid txHash: " e)
  answer_receipt s (ok tx_hash) =
      gives (receipt (verify_compute_receipt h tx_hash (w.receipts (sequencer_url s) tx_hash)))

  unfoldable pub answer_adaptive : Named → Answer
  answer_adaptive (unnamed message) = refuses invalid_params message
  answer_adaptive (block b) = gives (adaptive (verify_adaptive_block b default_adaptive_bounds))

  unfoldable pub answer_reputations : Option Reputation.Manager → Answer
  answer_reputations none = refuses internal_error "reputation manager not available"
  answer_reputations (some m) = gives (reputations (all_reputations m))

  unfoldable pub answer_reputation : Option Reputation.Manager → Parsed String → Answer
  answer_reputation none addr = refuses internal_error "reputation manager not available"
  answer_reputation (some m) (err e) = refuses invalid_params (Text.◌++◌ "invalid address: " e)
  answer_reputation (some m) (ok addr) = elim (get_reputation m (h.hex_to_address addr)) [
    | none ↦ refuses invalid_params "validator not found"
    | some r ↦ gives (reputation r)
  ]

  -- The cases of the switch.
  unfoldable pub answer : Server → Method → RawParams → Server × Answer
  answer s validator_status params = (s, gives (status (status_of s)))
  answer s get_validators params = (s, gives (validators (all_validators s.consensus)))
  answer s get_peers params = (s, gives (peers (all_peers s.network)))
  answer s get_active_stakes params = (s, gives (stakes (active_validators s.staking)))
  answer s verify_a_block params = answer_verify s (named_block s params)
  answer s lane_verification params =
      (s, gives (lanes (verify_lane_allocation (w.lane_stats (sequencer_url s)))))
  answer s receipt_verification params = (s, answer_receipt s (parse_string_param params 0))
  answer s adaptive_verification params = (s, answer_adaptive (named_block s params))
  answer s reputation_scores params = (s, answer_reputations s.reputation)
  answer s one_reputation params = (s, answer_reputation s.reputation (parse_string_param params 0))
  answer s sync_status params =
      (s, gives (synced_to (is_synced s.sync w.remote) (latest_block_of s.sync)))

  module _ {I : Type 0} (decode : List ℕ → Option (Request I)) where
    unfoldable pub handle_request : Server → Request I → Server × Response I
    handle_request s req = elim (method_of req.method) [
      | none ↦ (s, error (some req.id) method_not_found "method not found")
      | some m ↦ respond req.id (answer s m req.params)
    ]

    unfoldable pub handle_body : Server → Option (List ℕ) → Server × Response I
    handle_body s none = (s, error none parse_error "parse error")
    handle_body s (some body) = elim (decode (take (2 ^ 20) body)) [
      | none ↦ (s, error none parse_error "parse error")
      | some req ↦ handle_request s req
    ]

    -- `handle`; the body is `none` if reading it fails.
    unfoldable pub handle : Server → Bool → Option (List ℕ) → Server × Response I
    handle s is_post body =
        if is_post
        then handle_body (count_request s) body
        else (count_request s, method_not_allowed)

-- `handleHealth`
pub record Health : Type 0 where
  pub status : String
  pub service : String
  pub version : String
  pub synced : Bool
  pub peers : ℕ
  pub validator_count : ℕ

unfoldable pub handle_health : World → Server → Health
handle_health w s = record {
  status = "ok";
  service = "inso-validator";
  version = "phase5";
  synced = is_synced s.sync w.remote;
  peers = peer_count s.network;
  validator_count = validator_count s.consensus;
}

-- `handleReady`: the code, whether it is synced, and the number of peers.
pub record Ready : Type 0 where
  pub code : ℕ
  pub status : String
  pub reason : Option String
  pub synced : Bool
  pub peers : ℕ

unfoldable pub handle_ready : World → Server → Ready
handle_ready w s =
    if not (is_synced s.sync w.remote)
    then record {
      code = 503;
      status = "not_ready";
      reason = some "not synced";
      synced = false;
      peers = peer_count s.network;
    }
    else record {
      code = 200;
      status = "ready";
      reason = none;
      synced = true;
      peers = peer_count s.network;
    }
