-- ===== src/Node/Served/Counted.antt =====
-- The one record of metrics, which blocks and requests change while the node runs.
use inso_validator.Prelude.{ℕ, suc, ◌+◌, ◌%◌, ◌^◌, ◌≡◌, List, [], ◌∷◌, Option, some}
use inso_validator.Prelude.Int.{pos}
use inso_validator.External.{Hashing, Signing}
use inso_validator.Sync as Sync
use inso_validator.Consensus as Consensus
use inso_validator.Metrics.{Metrics}
use inso_validator.Rpc.{Request}
use inso_validator.Node.{Node}
use inso_validator.Node.Served.{Event, arrives, asks}

-- The requests among the events.
abbrev pub requests : List Event → ℕ
requests [] = 0
requests (arrives block remote now ∷ events) = requests events
requests (asks w is_post body ∷ events) = suc (requests events)

-- What neither a block nor a request changes.
abbrev pub rest_of : Metrics → Metrics
rest_of m = record m {
  synced_block = 0;
  is_synced = pos 0;
  attestations_created = 0;
  blocks_finalized = 0;
  rpc_requests = 0;
}

-- The sync engine has its gauges, which tell its latest block.
abbrev pub IsGauged : Sync.Engine → Type 0
IsGauged e = (g : Sync.Gauges) × (e.metrics ≡ some g) × (g.synced_block ≡ e.latest_block)

abbrev pub IsCounting : Consensus.Engine → Type 0
IsCounting e = (k : Consensus.Counters) × (e.metrics ≡ some k)

-- The metrics are wired into both engines.
abbrev pub IsWired : Node → Type 0
IsWired node = IsGauged node.sync × IsCounting node.consensus

-- The server's part after so many requests.
abbrev pub HasCounted : Metrics → ℕ → Option Metrics → Type 0
HasCounted m k o =
    (x : Metrics) × (o ≡ some x)
    × (x.rpc_requests ≡ (m.rpc_requests + k) % 2 ^ 64)
    × (rest_of x ≡ rest_of m)

module _ (h : Hashing) (c : Signing) {I : Type 0} (decode : List ℕ → Option (Request I)) where
  -- What everyone sees in the record of metrics.
  abbrev pub Exposes : Metrics → ℕ → Node → Option Metrics → Type 0
  Exposes m k node o =
      (x : Metrics) × (o ≡ some x)
      × (x.rpc_requests ≡ (m.rpc_requests + k) % 2 ^ 64)
      × (x.synced_block ≡ node.sync.latest_block)
      × (rest_of x ≡ rest_of m)
