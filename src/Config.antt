-- ===== src/Config.antt =====
-- internal/config/config.go: the configuration, its defaults and how a file overrides them. Durations
-- are in nanoseconds. Reading the file, `os.ExpandEnv` and gopkg.in/yaml.v3 are arguments.
use Prim.Native.String.{String}
use inso_validator.Prelude.{ℕ, ◌*◌, Bool, true, List, [], Option, none, some}
use inso_validator.Prelude.Int.{ℤ, pos}
use inso_validator.Float.{Float, const}

pub record ValidatorConfig : Type 0 where
  pub data_dir : String
  pub listen_addr : String
  pub p2p_port : ℤ
  pub min_stake : ℕ
  pub key_file : String
  pub bootnodes : List String

pub record SequencerConfig : Type 0 where
  pub rpc_url : String
  pub ws_url : String

pub record L1Config : Type 0 where
  pub rpc_url : String
  pub chain_id : ℕ
  pub staking_contract : String

pub record TasteScoreConfig : Type 0 where
  pub enabled : Bool
  pub api_url : String
  pub api_key : String

pub record ConsensusConfig : Type 0 where
  pub block_timeout : ℕ
  pub attestation_delay : ℕ
  pub slashing_enabled : Bool
  pub min_validators : ℤ

pub record LoggingConfig : Type 0 where
  pub level : String
  pub format : String

pub record MetricsConfig : Type 0 where
  pub enabled : Bool
  pub addr : String

pub record SovereigntyConfig : Type 0 where
  pub enabled : Bool
  pub xp_decay_rate : Float
  pub attestation_xp : ℕ
  pub uptime_bonus_xp : ℕ
  pub slash_penalty_xp : ℕ

pub record AdaptiveBlockConfig : Type 0 where
  pub enabled : Bool
  pub min_gas_limit : ℕ
  pub max_gas_limit : ℕ
  pub min_max_tx : ℤ
  pub max_max_tx : ℤ

pub record Config : Type 0 where
  pub validator : ValidatorConfig
  pub sequencer : SequencerConfig
  pub l1 : L1Config
  pub taste_score : TasteScoreConfig
  pub consensus : ConsensusConfig
  pub sovereignty : SovereigntyConfig
  pub adaptive_block : AdaptiveBlockConfig
  pub logging : LoggingConfig
  pub metrics : MetricsConfig

abbrev millisecond : ℕ
millisecond = 1_000_000

abbrev second : ℕ
second = 1000 * millisecond

unfoldable pub default_config : Config
default_config = record {
  validator = record {
    data_dir = "/data";
    listen_addr = "0.0.0.0:8547";
    p2p_port = pos 30303;
    min_stake = 10000;
    key_file = "";
    bootnodes = [];
  };
  sequencer = record { rpc_url = "http://localhost:8545"; ws_url = "ws://localhost:8546" };
  l1 = record { rpc_url = "http://localhost:8551"; chain_id = 1; staking_contract = "" };
  taste_score = record { enabled = true; api_url = "https://api.insoblokai.io"; api_key = "" };
  consensus = record {
    block_timeout = 2 * second;
    attestation_delay = 200 * millisecond;
    slashing_enabled = true;
    min_validators = pos 1;
  };
  sovereignty = record {
    enabled = true;
    xp_decay_rate = const 5 1000;
    attestation_xp = 10;
    uptime_bonus_xp = 5;
    slash_penalty_xp = 500;
  };
  adaptive_block = record {
    enabled = true;
    min_gas_limit = 15_000_000;
    max_gas_limit = 60_000_000;
    min_max_tx = pos 1_000;
    max_max_tx = pos 10_000;
  };
  logging = record { level = "info"; format = "json" };
  metrics = record { enabled = true; addr = "0.0.0.0:6061" };
}

pub data Loaded : Type 0 where
  loaded : Config → Loaded
  read_failed : Loaded
  parse_failed : Loaded

-- `unmarshal` fills in the configuration that it is given; what the file does not name stays.
module _ (expand_env : String → String) (unmarshal : String → Config → Option Config) where
  unfoldable pub load : Option String → Loaded
  load none = read_failed
  load (some text) = elim (unmarshal (expand_env text) default_config) [
    | none ↦ parse_failed
    | some cfg ↦ loaded cfg
  ]
