-- ===== src/Node/Startup/Invariant.antt =====
-- When the program starts, and what holds of the node that it starts.
use Prim.Native.String.{String}
use inso_validator.Prelude.{
  ℕ, ◌^◌, ◌<◌, ◌≤◌, ◌≡◌, ◌≢◌, ◌↔◌, ◌⊎◌, refl, sym, subst, ◌∙◌, Bool, true, false, Bool-cases, List,
  Option, none, some, arith, Option-cases, inl, inr, length,
}
use inso_validator.Prelude.Int.{ℤ}
use inso_validator.Prelude.Word.{IsU64}
use inso_validator.Text.{codes}
use inso_validator.External.{Hashing, Signing}
use inso_validator.Config.{Config, Loaded, loaded, read_failed, parse_failed}
use inso_validator.P2P.Peers.Life.{IsLive}
use inso_validator.P2P.Peers.Run.{fresh-IsLive}
use inso_validator.Sync as Sync
use inso_validator.Staking as Staking
use inso_validator.Staking.Invariant.{IsValid, new_manager-IsValid, register-IsValid}
use inso_validator.Consensus as Consensus
use inso_validator.Consensus.{register_validator, attestations_of}
use inso_validator.Verification.Adaptive.{AdaptiveBlockBounds}
use inso_validator.Rpc.{Request}
use inso_validator.Rpc.Params.{trim_prefix}
use inso_validator.Node.{Node, register_self}
use inso_validator.Node.Start.{register_self_iff}
use inso_validator.Node.Votes.{IsSingle}
use inso_validator.Node.Served.{Around, Event, AllNumbered, run, run-IsSingle}
use inso_validator.Node.Startup.{
  Startup, running, decode_hex, key_hex, started_consensus, started_node, started_around,
  with_staking, with_key, with_config, start_up,
}

abbrev pub Runs : Startup → Type 0
Runs (running node around bounds) = Unit
Runs _ = ⊥

module _ (h : Hashing) (to_ecdsa : List ℕ → Option ℕ) (address_of : ℕ → ℕ)
    (listens : ℤ → Bool) where
  -- The key that the variable gives.
  abbrev pub key_of : String → Option ℕ
  key_of env = elim (decode_hex (trim_prefix (codes (key_hex env)))) [
    | none ↦ none
    | some bytes ↦ to_ecdsa bytes
  ]

  abbrev pub CanStart : Loaded → String → Type 0
  CanStart (loaded cfg) env =
      (key_of env ≢ none)
      × (cfg.validator.min_stake < 2 ^ 63)
      × (listens cfg.validator.p2p_port ≡ true)
  CanStart _ env = ⊥

  abbrev pub HasU64Stake : Loaded → Type 0
  HasU64Stake (loaded cfg) = IsU64 cfg.validator.min_stake
  HasU64Stake _ = Unit

  staking-Runs :
      (cfg : Config) (key now : ℕ) (r : Staking.Manager × Staking.Outcome)
      → Runs (with_staking h to_ecdsa address_of listens cfg key now r)
        ↔ ((r.1 ≡ Staking.ok) × (listens cfg.validator.p2p_port ≡ true))
  unfolding with_staking
  staking-Runs cfg key now (m, Staking.ok) = elim (Bool-cases (listens cfg.validator.p2p_port)) [
    | inl free ↦ rw (free, with_staking) (λ u. (refl, refl), λ e. tt)
    | inr taken ↦ rw (taken, with_staking) (λ u. absurd u, λ (a, b). absurd (cc))
  ]
  staking-Runs cfg key now (m, Staking.err x) = (λ u. absurd u, λ (a, b). absurd (cc))
  staking-Runs cfg key now (m, Staking.panic) = (λ u. absurd u, λ (a, b). absurd (cc))

  key-Runs :
      (cfg : Config) (key now : ℕ)
      → IsU64 cfg.validator.min_stake
      → Runs (with_key h to_ecdsa address_of listens cfg key now)
        ↔ ((cfg.validator.min_stake < 2 ^ 63) × (listens cfg.validator.p2p_port ≡ true))
  unfolding with_key
  key-Runs cfg key now fits =
      let registers = register_self_iff cfg.validator.min_stake (address_of key) now fits in
      let runs =
        staking-Runs cfg key now (register_self cfg.validator.min_stake (address_of key) now) in
      (
        λ u. let (ok, free) = runs.0 u in (registers.0 ok, free),
        λ (small, free). runs.1 (registers.1 small, free),
      )

  -- The program gets to run its services just if the configuration was read and parsed, the key, the
  -- devnet key where none is set, is hexadecimal text of a valid key with or without 0x, the
  -- configured minimum stake is below 2 ^ 63 and the P2P port can be listened on.
  pub start_up_iff :
      (cfg : Loaded) (env : String) (now : ℕ)
      → HasU64Stake cfg
      → Runs (start_up h to_ecdsa address_of listens cfg env now) ↔ CanStart cfg env
  unfolding start_up with_config
  start_up_iff read_failed env now fits = (λ u. u, λ u. u)
  start_up_iff parse_failed env now fits = (λ u. u, λ u. u)
  start_up_iff (loaded cfg) env now fits =
      elim (Option-cases (decode_hex (trim_prefix (codes (key_hex env))))) [
        | inl bad ↦
            let no_key : key_of env ≡ none = rw (bad, key_of) refl in
            rw (bad, with_config) (λ u. absurd u, λ (key, _, _). key no_key)
        | inr (bytes, decoded) ↦ elim (Option-cases (to_ecdsa bytes)) [
          | inl invalid ↦
              let no_key : key_of env ≡ none = rw (decoded, key_of, invalid) refl in
              rw (decoded, with_config, invalid) (λ u. absurd u, λ (key, _, _). key no_key)
          | inr (key, valid) ↦
              let has_key : key_of env ≡ some key = rw (decoded, key_of, valid) refl in
              rw (decoded, with_config, valid)
                (
                  λ u.
                      let (small, free) = (key-Runs cfg key now fits).0 u in
                      (λ e. cc (sym has_key ∙ e), small, free),
                  λ (_, small, free). (key-Runs cfg key now fits).1 (small, free),
                )
        ]
      ]

  -- What holds of a node that runs: it has no block and no vote, its stakes are sound and its peers live.
  pub record IsSound (node : Node) (around : Around) : Type 0 where
    pub single : IsSingle node
    pub staked : IsValid around.staking
    pub live : IsLive around.network (λ c. false)
    pub no_block : node.sync.latest_block ≡ 0

  abbrev RunsSound : Startup → Type 0
  RunsSound (running node around bounds) = IsSound node around
  RunsSound _ = Unit

  started-IsSingle :
      (cfg : Config) (key now : ℕ) → IsSingle (started_node h to_ecdsa address_of cfg key now)
  unfolding started_node started_consensus register_validator Consensus.new_engine
      Consensus.set_metrics Sync.set_metrics Sync.new_engine attestations_of
  started-IsSingle cfg key now = record {
    contiguous = record { stored = λ k. ground arith; numbered = λ k b e. absurd (cc) };
    once = λ n. omega arith;
    none_above = λ n above. refl;
  }

  staking_sound :
      (cfg : Config) (key now : ℕ) (r : Staking.Manager × Staking.Outcome)
      → IsValid r.0
      → RunsSound (with_staking h to_ecdsa address_of listens cfg key now r)
  unfolding with_staking started_around started_node Sync.set_metrics Sync.new_engine
  staking_sound cfg key now (m, Staking.ok) v = elim (Bool-cases (listens cfg.validator.p2p_port)) [
    | inl free ↦
        rw (free, with_staking)
          (record {
            single = started-IsSingle cfg key now;
            staked = v;
            live = fresh-IsLive cfg.validator.p2p_port cfg.validator.bootnodes;
            no_block = refl;
          })
    | inr taken ↦ rw (taken, with_staking) tt
  ]
  staking_sound cfg key now (m, Staking.err x) v = tt
  staking_sound cfg key now (m, Staking.panic) v = tt

  start_up_sound :
      (cfg : Loaded) (env : String) (now : ℕ)
      → RunsSound (start_up h to_ecdsa address_of listens cfg env now)
  unfolding start_up with_config with_key register_self
  start_up_sound read_failed env now = tt
  start_up_sound parse_failed env now = tt
  start_up_sound (loaded cfg) env now =
      elim (Option-cases (decode_hex (trim_prefix (codes (key_hex env))))) [
        | inl bad ↦ rw (bad, with_config) tt
        | inr (bytes, decoded) ↦ elim (Option-cases (to_ecdsa bytes)) [
          | inl invalid ↦ rw (decoded, with_config, invalid) tt
          | inr (key, valid) ↦
              rw (decoded, with_config, valid)
                (staking_sound cfg key now
                  (register_self cfg.validator.min_stake (address_of key) now)
                  (register-IsValid (Staking.new_manager cfg.validator.min_stake) (address_of key) _
                    now (new_manager-IsValid cfg.validator.min_stake)))
        ]
      ]

  started-IsSound :
      (cfg : Loaded) (env : String) (now : ℕ) (node : Node) (around : Around)
      (bounds : AdaptiveBlockBounds)
      → start_up h to_ecdsa address_of listens cfg env now ≡ running node around bounds
      → IsSound node around
  started-IsSound cfg env now node around bounds e = subst RunsSound e (start_up_sound cfg env now)

  -- A node that the program starts, from any configuration and key, begins with sound stakes and a
  -- sound table of peers; and while its RPC server handles any requests between the blocks that reach
  -- it, fewer than 2 ^ 64 of both, it attests at most once per block number, and only numbers up to its
  -- latest block, as long as no block is numbered 0.
  pub started_votes_once :
      {I : Type 0} (c : Signing) (decode : List ℕ → Option (Request I)) (cfg : Loaded)
      (env : String) (now : ℕ) (node : Node) (around : Around) (bounds : AdaptiveBlockBounds)
      (events : List Event) (n : ℕ)
      → start_up h to_ecdsa address_of listens cfg env now ≡ running node around bounds
      → AllNumbered h c decode events
      → length events < 2 ^ 64
      → let end = (run h c decode (node, around) events).0 in
        IsValid around.staking
        × IsLive around.network (λ c. false)
        × (length (attestations_of end.consensus n) ≤ 1)
        × ((length (attestations_of end.consensus n) ≡ 0) ⊎ (n ≤ end.sync.latest_block))
  started_votes_once c decode cfg env now node around bounds events n e nz fits =
      let sound = started-IsSound cfg env now node around bounds e in
      let s =
        run-IsSingle h c decode node around events nz (omega (arith, sound.no_block))
          sound.single in
      (sound.staked, sound.live, s.once n, ground (arith, s.none_above n))
