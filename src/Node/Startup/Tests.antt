-- ===== src/Node/Startup/Tests.antt =====
-- The start of the program with the default configuration.
use inso_validator.Prelude.{
  false, Bool, ℕ, ◌≤◌, ◌≡◌, ◌↔◌, ◌⊎◌, refl, true, List, [], ◌∷◌, Option, none, some, arith, length,
}
use inso_validator.Prelude.Int.{ℤ, pos}
use inso_validator.Text.{digit_value}
use inso_validator.External.Toys.{toy_hashing, toy_signing}
use inso_validator.Config.{loaded, default_config, read_failed, load}
use inso_validator.P2P.Peers.Life.{IsLive}
use inso_validator.Staking as Staking
use inso_validator.Staking.Invariant.{IsValid}
use inso_validator.Reputation.{default_xp_config}
use inso_validator.Consensus.{attestations_of}
use inso_validator.Verification.Adaptive.{default_adaptive_bounds}
use inso_validator.Rpc.{Request, World}
use inso_validator.Rpc.Params.{array, trim_prefix}
use inso_validator.Node.{Node, register_self, initial_stake, int64_of, adaptive_bounds}
use inso_validator.Node.Served.{Around, Event, arrives, asks, run}
use inso_validator.Sync as Sync
use inso_validator.Sync.{L2Block}
use inso_validator.Consensus as Consensus
use inso_validator.Node.Startup.{
  bad_key_hex, not_listening, running, decode_hex, key_hex, rep_config, configured_bounds,
  started_node, started_around, with_staking, with_key, with_config, start_up,
}
use inso_validator.Node.Startup.Invariant.{Runs, CanStart, start_up_iff, started_votes_once}

-- The defaults of the two packages agree.
default_xp : rep_config default_config ≡ default_xp_config
unfolding rep_config default_config default_xp_config
default_xp = refl

default_bounds : configured_bounds default_config ≡ default_adaptive_bounds
unfolding configured_bounds default_config default_adaptive_bounds
default_bounds = refl

-- A configuration that is not read ends the program.
unread : load (λ s. s) (λ text cfg. some cfg) none ≡ read_failed
unfolding load
unread = refl

abbrev to_ecdsa : List ℕ → Option ℕ
to_ecdsa bytes = some 5

abbrev address_of : ℕ → ℕ
address_of key = key

abbrev free : ℤ → Bool
free port = true

odd_key :
    start_up toy_hashing to_ecdsa address_of free (loaded default_config) "0xabc" 1 ≡ bad_key_hex
unfolding start_up with_config decode_hex key_hex trim_prefix digit_value
odd_key = refl

start_up_iff_example :
    Runs (start_up toy_hashing to_ecdsa address_of free (loaded default_config) "" 1)
    ↔ CanStart toy_hashing to_ecdsa address_of free (loaded default_config) ""
unfolding default_config
start_up_iff_example =
    start_up_iff toy_hashing to_ecdsa address_of free (loaded default_config) "" 1 (omega arith)

taken_port :
    start_up toy_hashing to_ecdsa address_of (λ port. false) (loaded default_config) "" 1
    ≡ not_listening
unfolding start_up with_config decode_hex key_hex trim_prefix digit_value with_key with_staking
    register_self initial_stake int64_of default_config Staking.register Staking.new_manager
taken_port = refl

abbrev decode : List ℕ → Option (Request ℕ)
decode bytes = some (record { method = "inso_verifyBlock"; params = array []; id = 1 })

abbrev world : World
world = record { remote = none; lane_stats = λ url. none; receipts = λ url hash. none }

abbrev node : Node
node = started_node toy_hashing to_ecdsa address_of default_config 5 1

abbrev around : Around
around = started_around toy_hashing to_ecdsa address_of default_config (register_self 10000 5 1).0

started :
    start_up toy_hashing to_ecdsa address_of free (loaded default_config) "" 1
    ≡ running node around default_adaptive_bounds
unfolding start_up with_config decode_hex key_hex trim_prefix digit_value with_key with_staking
    register_self initial_stake int64_of adaptive_bounds configured_bounds default_config
    default_adaptive_bounds Staking.register Staking.new_manager
started = refl

abbrev first_block : L2Block
first_block = record {
  number = 1;
  hash = "0xab";
  parent_hash = "0xaa";
  timestamp = 10;
  state_root = "";
  gas_used = 0;
  gas_limit = 30_000_000;
  tx_count = pos 0;
  sequencer = "seq";
}

abbrev voted : List Event
voted = asks world true (some []) ∷ arrives first_block none 5 ∷ []

started_votes_once_example :
    let end = (run toy_hashing toy_signing decode (node, around) voted).0 in
    IsValid around.staking
    × IsLive around.network (λ c. false)
    × (length (attestations_of end.consensus 1) ≤ 1)
    × ((length (attestations_of end.consensus 1) ≡ 0) ⊎ (1 ≤ end.sync.latest_block))
started_votes_once_example =
    started_votes_once toy_hashing to_ecdsa address_of free toy_signing decode
      (loaded default_config) "" 1 node around default_adaptive_bounds voted 1 started
      (tt, ((λ q. absurd (cc q)), tt)) (omega arith)

abbrev some_events : List Event
some_events = asks world true (some []) ∷ arrives first_block none 5 ∷ asks world false none ∷ []
