-- ===== src/Node/Served.antt =====
-- cmd/validator/main.go: the node with its RPC server, which works on the engines of the node. Blocks
-- and requests reach it in some order.
pub mod Counted
use inso_validator.Prelude.{
  ℕ, ◌+◌, ◌^◌, ◌<◌, ◌≤◌, ◌≡◌, ◌≢◌, sym, ap, subst, ◌∙◌, Bool, List, [], ◌∷◌, Option, none, some,
  inl, inr, length, arith,
}
use inso_validator.Prelude.Int.{pos}
use inso_validator.External.{Hashing, Signing}
use inso_validator.Config.{SequencerConfig}
use inso_validator.Metrics.{Metrics}
use inso_validator.P2P.Peers.{Network}
use inso_validator.Staking as Staking
use inso_validator.Sync as Sync
use inso_validator.Sync.{L2Block}
use inso_validator.Consensus as Consensus
use inso_validator.Sync.Order.{IsContiguous}
use inso_validator.Consensus.{attestations_of}
use inso_validator.Node.{Node, deliver}
use inso_validator.Node.Votes.{IsSingle, Advances, deliver-IsSingle}
use inso_validator.Rpc.{Server, Request, World}
use inso_validator.Rpc.Handler.{handle}
use inso_validator.Rpc.Effects.{count_request_lem, handle-Effect}

-- The parts that only the server sees here. The reputation manager is the one of the consensus engine.
-- The program has one record of metrics, which the engines and the server write to: what the sync
-- engine and the consensus engine write is kept with them, the other values are in `metrics`, and the
-- four values of the engines in it stand for nothing; `shared` puts the record together.
pub record Around : Type 0 where
  pub staking : Staking.Manager
  pub network : Network
  pub seq_cfg : Option SequencerConfig
  pub metrics : Option Metrics

unfoldable pub with_sync : Option Sync.Gauges → Metrics → Metrics
with_sync none m = m
with_sync (some g) m = record m { synced_block = g.synced_block; is_synced = pos g.is_synced }

unfoldable pub with_consensus : Option Consensus.Counters → Metrics → Metrics
with_consensus none m = m
with_consensus (some k) m = record m {
  attestations_created = k.attestations_created;
  blocks_finalized = k.blocks_finalized;
}

-- The record of metrics as everyone sees it.
unfoldable pub shared : Node → Metrics → Metrics
shared node m = with_consensus node.consensus.metrics (with_sync node.sync.metrics m)

unfoldable pub shared_of : Node → Option Metrics → Option Metrics
shared_of node none = none
shared_of node (some m) = some (shared node m)

-- `rpc.NewServer` and the setters: the server holds the node's own engines.
unfoldable pub server_of : Node → Around → Server
server_of node a = record {
  consensus = node.consensus;
  sync = node.sync;
  verification = node.verifier;
  staking = a.staking;
  reputation = node.consensus.rep_mgr;
  network = a.network;
  seq_cfg = a.seq_cfg;
  metrics = shared_of node a.metrics;
}

unfoldable pub node_of : Server → Node
node_of s = record { sync = s.sync; verifier = s.verification; consensus = s.consensus }

unfoldable pub around_of : Server → Around
around_of s = record {
  staking = s.staking;
  network = s.network;
  seq_cfg = s.seq_cfg;
  metrics = s.metrics;
}

-- A block with what the sequencer answers and the time, or a request with what the sequencer answers.
pub data Event : Type 0 where
  arrives : L2Block → Option ℕ → ℕ → Event
  asks : World → Bool → Option (List ℕ) → Event

module _ (h : Hashing) (c : Signing) {I : Type 0} (decode : List ℕ → Option (Request I)) where
  unfoldable pub step : Node × Around → Event → Node × Around
  step (node, a) (arrives block remote now) = (deliver h c node block remote now, a)
  step (node, a) (asks w is_post body) =
      let s = (handle h w decode (server_of node a) is_post body).0 in (node_of s, around_of s)

  unfoldable pub run : Node × Around → List Event → Node × Around
  run p [] = p
  run p (e ∷ events) = run (step p e) events

  abbrev pub IsNumbered : Event → Type 0
  IsNumbered (arrives block remote now) = block.number ≢ 0
  IsNumbered (asks w is_post body) = Unit

  abbrev pub AllNumbered : List Event → Type 0
  AllNumbered [] = Unit
  AllNumbered (e ∷ events) = IsNumbered e × AllNumbered events

-- What was shown of a node holds whatever its verifier is.
moved-IsSingle :
    (node node' : Node)
    → IsSingle node
    → node'.sync ≡ node.sync
    → node'.consensus ≡ node.consensus
    → IsSingle node'
moved-IsSingle node node' s sync consensus = record {
  contiguous = subst IsContiguous (sym sync) s.contiguous;
  once = λ n. subst (λ e. length (attestations_of e n) ≤ 1) (sym consensus) (s.once n);
  none_above = λ n above.
      ap (λ e. length (attestations_of e n)) consensus
      ∙ s.none_above n (subst (λ e. e.latest_block < n) sync above);
}

module _ (h : Hashing) (c : Signing) {I : Type 0} (decode : List ℕ → Option (Request I)) where
  -- A request changes neither the chain nor the votes.
  pub asks_keeps :
      (s : Server) (w : World) (is_post : Bool) (body : Option (List ℕ))
      → ((handle h w decode s is_post body).0.sync ≡ s.sync)
        × ((handle h w decode s is_post body).0.consensus ≡ s.consensus)
  asks_keeps s w is_post body = elim (handle-Effect h w decode s is_post body) [
    | inl same ↦ (
      ap (λ s'. s'.sync) same ∙ (count_request_lem s).0,
      ap (λ s'. s'.consensus) same ∙ (count_request_lem s).2,
    )
    | inr (v, moved, reply) ↦ (
      ap (λ s'. s'.sync) moved ∙ (count_request_lem s).0,
      ap (λ s'. s'.consensus) moved ∙ (count_request_lem s).2,
    )
  ]

  step-IsSingle :
      (node : Node) (a : Around) (e : Event)
      → IsNumbered h c decode e
      → node.sync.latest_block + 1 < 2 ^ 64
      → IsSingle node
      → Advances node (step h c decode (node, a) e).0
  unfolding step node_of server_of
  step-IsSingle node a (arrives block remote now) nz fits s =
      deliver-IsSingle h c node block remote now nz fits s
  step-IsSingle node a (asks w is_post body) nz fits s =
      let (sync, consensus) = asks_keeps (server_of node a) w is_post body in
      let s' = (handle h w decode (server_of node a) is_post body).0 in
      (
        moved-IsSingle node (node_of s') s sync consensus,
        omega (arith, ap (λ e. e.latest_block) sync),
      )

  pub run-IsSingle :
      (node : Node) (a : Around) (events : List Event)
      → AllNumbered h c decode events
      → node.sync.latest_block + length events < 2 ^ 64
      → IsSingle node
      → IsSingle (run h c decode (node, a) events).0
  unfolding run
  run-IsSingle node a [] nz fits s = s
  run-IsSingle node a (e ∷ events) (n, nz) fits s =
      let (s', near) = step-IsSingle node a e n (omega arith) s in
      run-IsSingle (step h c decode (node, a) e).0 (step h c decode (node, a) e).1 events nz
        (omega (arith, near)) s'
