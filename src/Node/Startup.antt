-- ===== src/Node/Startup.antt =====
-- cmd/validator/main.go, main: from the configuration and the key to the running services. The
-- conversion of the key and its address are arguments, as are the loaded configuration, the time and
-- whether a port can be listened on.
pub mod Invariant
mod Tests
use Prim.Native.String.{String}
use inso_validator.Prelude.{
  ℕ, ◌+◌, ◌*◌, Bool, true, false, ◌&&◌, List, [], ◌∷◌, Option, none, some, ltb, if◌then◌else◌,
}
use inso_validator.Prelude.Int.{ℤ, pos}
use inso_validator.Prelude.Names.{same}
use inso_validator.Float.{const}
use inso_validator.Text.{codes, digit_value}
use inso_validator.External.{Hashing}
use inso_validator.Config.{Config, Loaded, loaded, read_failed, parse_failed}
use inso_validator.Metrics.{new_metrics}
use inso_validator.P2P.Peers.{new_network, peer_count}
use inso_validator.Staking as Staking
use inso_validator.Reputation as Reputation
use inso_validator.Reputation.{XpConfig}
use inso_validator.Sync as Sync
use inso_validator.Verification as Verification
use inso_validator.Verification.Adaptive.{AdaptiveBlockBounds}
use inso_validator.Consensus as Consensus
use inso_validator.Consensus.{register_validator}
use inso_validator.Rpc.Params.{trim_prefix}
use inso_validator.Node.{Node, int64_of, initial_stake, register_self, adaptive_bounds}
use inso_validator.Node.Served.{Around}

-- `hex.DecodeString`: pairs of digits.
unfoldable pub decode_hex : List ℕ → Option (List ℕ)
decode_hex [] = some []
decode_hex (c ∷ []) = none
decode_hex (c ∷ d ∷ cs) =
    let rest = decode_hex cs in
    if ltb (digit_value c) 16 && ltb (digit_value d) 16
    then elim rest [ none ↦ none | some bs ↦ some ((digit_value c * 16 + digit_value d) ∷ bs) ]
    else none

-- The devnet key, where the variable is not set.
unfoldable pub key_hex : String → String
key_hex env =
    if same env "" then "7c852118294e51e653712a81e05800f419141751be58f605c371e15141b007a6" else env

unfoldable pub rep_config : Config → XpConfig
rep_config cfg = record {
  max_xp = 100_000;
  block_attestation_xp = cfg.sovereignty.attestation_xp;
  uptime_bonus_xp = cfg.sovereignty.uptime_bonus_xp;
  slash_penalty_xp = cfg.sovereignty.slash_penalty_xp;
  decay_rate_per_day = cfg.sovereignty.xp_decay_rate;
}

unfoldable pub configured_bounds : Config → AdaptiveBlockBounds
configured_bounds cfg = record {
  min_gas_limit = cfg.adaptive_block.min_gas_limit;
  max_gas_limit = cfg.adaptive_block.max_gas_limit;
  min_max_tx = cfg.adaptive_block.min_max_tx;
  max_max_tx = cfg.adaptive_block.max_max_tx;
}

-- Why the program exits, or the node that runs with what surrounds it.
pub data Startup : Type 0 where
  no_config : Startup
  bad_key_hex : Startup
  bad_key : Startup
  not_registered : Startup
  not_listening : Startup
  running : Node → Around → AdaptiveBlockBounds → Startup

module _ (h : Hashing) (to_ecdsa : List ℕ → Option ℕ) (address_of : ℕ → ℕ) where
  -- The consensus engine, with the node registered in it.
  unfoldable pub started_consensus : Config → ℕ → ℕ → Consensus.Engine
  started_consensus cfg key now =
      let addr = address_of key in
      let rep = Reputation.register (Reputation.new_manager (some (rep_config cfg))) addr now in
      register_validator (Consensus.new_engine cfg.consensus.slashing_enabled addr (some rep) key)
        addr (initial_stake cfg.validator.min_stake) (const 8 10) now

  unfoldable pub started_node : Config → ℕ → ℕ → Node
  started_node cfg key now = record {
    sync = Sync.set_metrics Sync.new_engine (record { synced_block = 0; is_synced = 0 });
    verifier = Verification.new_engine h;
    consensus =
        Consensus.set_metrics (started_consensus cfg key now)
          (record { attestations_created = 0; blocks_finalized = 0 });
  }

  unfoldable pub started_around : Config → Staking.Manager → Around
  started_around cfg staking =
      let network = new_network cfg.validator.p2p_port cfg.validator.bootnodes in
      record {
        staking = staking;
        network = network;
        seq_cfg = some cfg.sequencer;
        metrics = some (record new_metrics {
          peer_count = pos (peer_count network);
          staked_amount_wei = int64_of cfg.validator.min_stake;
        });
      }

  -- `network.Start` fails if the port cannot be listened on; the servers start in the background.
  unfoldable pub with_staking :
      (ℤ → Bool) → Config → ℕ → ℕ → Staking.Manager × Staking.Outcome → Startup
  with_staking listens cfg key now (staking, Staking.ok) =
      if listens cfg.validator.p2p_port
      then running (started_node cfg key now) (started_around cfg staking)
          (adaptive_bounds cfg.adaptive_block.enabled (configured_bounds cfg))
      else not_listening
  with_staking listens cfg key now (staking, Staking.err e) = not_registered
  with_staking listens cfg key now (staking, Staking.panic) = not_registered

  unfoldable pub with_key : (ℤ → Bool) → Config → ℕ → ℕ → Startup
  with_key listens cfg key now =
      with_staking listens cfg key now (register_self cfg.validator.min_stake (address_of key) now)

  unfoldable pub with_config : (ℤ → Bool) → Config → String → ℕ → Startup
  with_config listens cfg env now = elim (decode_hex (trim_prefix (codes (key_hex env)))) [
    | none ↦ bad_key_hex
    | some bytes ↦ elim (to_ecdsa bytes) [
      | none ↦ bad_key
      | some key ↦ with_key listens cfg key now
    ]
  ]

  unfoldable pub start_up : (ℤ → Bool) → Loaded → String → ℕ → Startup
  start_up listens (loaded cfg) env now = with_config listens cfg env now
  start_up listens read_failed env now = no_config
  start_up listens parse_failed env now = no_config
