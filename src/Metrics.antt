-- ===== src/Metrics.antt =====
-- internal/metrics/metrics.go: the values that the node exposes, and the text that the endpoint answers
-- a scrape with. The atomic fields make each update one step.
pub mod Format
pub mod Lines
pub mod Families
pub mod Exposition
mod Tests
use Prim.Native.String.{String}
use inso_validator.Prelude.{ℕ, List, [], ◌∷◌, Bool, true, false, ◌++◌, if◌then◌else◌}
use inso_validator.Prelude.Int.{ℤ, pos, eqb_ℤ}
use inso_validator.Text.{codes, print_int}
use Format.{Family, exposition}

pub record Metrics : Type 0 where
  pub attestations_created : ℕ
  pub attestations_received : ℕ
  pub attestations_verified : ℕ
  pub attestations_failed : ℕ
  pub blocks_finalized : ℕ
  pub synced_block : ℕ
  pub is_synced : ℤ
  pub current_xp : ℤ
  pub sovereignty_score : ℤ
  pub sovereignty_tier : ℤ
  pub peer_count : ℤ
  pub staked_amount_wei : ℤ
  pub slashes_received : ℕ
  pub slashes_reported : ℕ
  pub rpc_requests : ℕ
  pub blocks_verified : ℕ
  pub verification_failures : ℕ
  pub cross_chain_l2_to_l1 : ℕ
  pub cross_chain_l1_to_l2 : ℕ
  pub governance_active_proposals : ℤ
  pub governance_proposals_total : ℕ
  pub governance_votes_cast : ℕ

-- `New`: all the values are zero.
unfoldable pub new_metrics : Metrics
new_metrics = record {
  attestations_created = 0;
  attestations_received = 0;
  attestations_verified = 0;
  attestations_failed = 0;
  blocks_finalized = 0;
  synced_block = 0;
  is_synced = pos 0;
  current_xp = pos 0;
  sovereignty_score = pos 0;
  sovereignty_tier = pos 0;
  peer_count = pos 0;
  staked_amount_wei = pos 0;
  slashes_received = 0;
  slashes_reported = 0;
  rpc_requests = 0;
  blocks_verified = 0;
  verification_failures = 0;
  cross_chain_l2_to_l1 = 0;
  cross_chain_l1_to_l2 = 0;
  governance_active_proposals = pos 0;
  governance_proposals_total = 0;
  governance_votes_cast = 0;
}

abbrev single : String → String → String → ℤ → Family
single name help kind value = record {
  name = name;
  help = help;
  kind = kind;
  samples = (name, value) ∷ [];
}

-- What `handleMetrics` writes, one family after the other.
unfoldable pub families : Metrics → List Family
families m =
    (single "inso_validator_attestations_created_total" "Attestations created by this validator"
      "counter" (pos m.attestations_created))
    ∷ (single "inso_validator_attestations_received_total" "Attestations received from peers"
        "counter" (pos m.attestations_received))
    ∷ (single "inso_validator_attestations_verified_total" "Valid attestations verified" "counter"
        (pos m.attestations_verified))
    ∷ (single "inso_validator_attestations_failed_total" "Invalid attestations rejected" "counter"
        (pos m.attestations_failed))
    ∷ (single "inso_validator_blocks_finalized_total" "Blocks reaching consensus finality" "counter"
        (pos m.blocks_finalized))
    ∷ (single "inso_validator_synced_block" "Latest synced block number" "gauge"
        (pos m.synced_block))
    ∷ (single "inso_validator_is_synced" "Whether the validator is fully synced (1=yes)" "gauge"
        m.is_synced)
    ∷ (single "inso_validator_xp" "Current XP points" "gauge" m.current_xp)
    ∷ (single "inso_validator_sovereignty_score" "Sovereignty score (x10000 for precision)" "gauge"
        m.sovereignty_score)
    ∷ (single "inso_validator_sovereignty_tier"
        "Sovereignty tier (0=None,1=Bronze,2=Silver,3=Gold,4=Platinum)" "gauge" m.sovereignty_tier)
    ∷ (single "inso_validator_peer_count" "Connected P2P peers" "gauge" m.peer_count)
    ∷ (single "inso_validator_staked_eth" "Total staked in ETH" "gauge" m.staked_amount_wei)
    ∷ (single "inso_validator_slashes_received_total" "Slashes received" "counter"
        (pos m.slashes_received))
    ∷ (single "inso_validator_slashes_reported_total" "Slashes reported against others" "counter"
        (pos m.slashes_reported))
    ∷ (single "inso_validator_rpc_requests_total" "Total RPC requests" "counter"
        (pos m.rpc_requests))
    ∷ (single "inso_validator_blocks_verified_total" "Blocks verified via ZK proof" "counter"
        (pos m.blocks_verified))
    ∷ (single "inso_validator_verification_failures_total" "Block verification failures" "counter"
        (pos m.verification_failures))
    ∷ (let f : Family = record {
      name = "inso_crosschain_attestations_total";
      help = "Cross-chain attestation count";
      kind = "counter";
      samples =
          ("inso_crosschain_attestations_total{direction=\"l2_to_l1\"}", pos m.cross_chain_l2_to_l1)
          ∷ (
            "inso_crosschain_attestations_total{direction=\"l1_to_l2\"}",
            pos m.cross_chain_l1_to_l2,
          )
          ∷ [];
    } in
        f)
    ∷ (single "inso_governance_active_proposals" "Currently active governance proposals" "gauge"
        m.governance_active_proposals)
    ∷ (single "inso_governance_proposals_total" "Total governance proposals created" "counter"
        (pos m.governance_proposals_total))
    ∷ (single "inso_governance_votes_cast_total" "Total governance votes cast" "counter"
        (pos m.governance_votes_cast))
    ∷ []

unfoldable pub handle_metrics : Metrics → List ℕ
handle_metrics m = exposition (families m)

-- The health answer of the metrics port, at a time in seconds.
unfoldable pub health_body : Metrics → ℤ → List ℕ
health_body m now =
    codes "{\"status\":\"ok\",\"service\":\"inso-validator\",\"synced\":"
    ++ (codes (if eqb_ℤ m.is_synced (pos 1) then "true" else "false")
        ++ (codes ",\"peers\":"
            ++ (print_int m.peer_count
                ++ (codes ",\"timestamp\":" ++ (print_int now ++ codes "}")))))
