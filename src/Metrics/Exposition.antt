-- ===== src/Metrics/Exposition.antt =====
-- The text of the metrics endpoint, read back.
use Prim.Native.String.{String}
use inso_validator.Prelude.{ℕ, ◌^◌, ◌<◌, ◌≡◌, refl, true, List, [], ◌∷◌, Option, some, arith}
use inso_validator.Prelude.Int.{ℤ, pos, negsuc}
use inso_validator.Text.{codes}
use inso_validator.Metrics.{Metrics, families, handle_metrics}
use inso_validator.Metrics.Format.{scrape}
use inso_validator.Metrics.Lines.{InRange}
use inso_validator.Metrics.Families.{plain_families, FamiliesInRange, scrape-exposition}

-- The names are plain, whatever the values.
families_plain : (m : Metrics) → plain_families (families m) ≡ true
unfolding families
families_plain m = refl

abbrev IsInt64 : ℤ → Type 0
IsInt64 (pos n) = n < 2 ^ 63
IsInt64 (negsuc n) = n < 2 ^ 63

-- The values fit the machine integers that hold them.
pub record IsMachine (m : Metrics) : Type 0 where
  pub attestations_created : m.attestations_created < 2 ^ 64
  pub attestations_received : m.attestations_received < 2 ^ 64
  pub attestations_verified : m.attestations_verified < 2 ^ 64
  pub attestations_failed : m.attestations_failed < 2 ^ 64
  pub blocks_finalized : m.blocks_finalized < 2 ^ 64
  pub synced_block : m.synced_block < 2 ^ 64
  pub is_synced : IsInt64 m.is_synced
  pub current_xp : IsInt64 m.current_xp
  pub sovereignty_score : IsInt64 m.sovereignty_score
  pub sovereignty_tier : IsInt64 m.sovereignty_tier
  pub peer_count : IsInt64 m.peer_count
  pub staked_amount_wei : IsInt64 m.staked_amount_wei
  pub slashes_received : m.slashes_received < 2 ^ 64
  pub slashes_reported : m.slashes_reported < 2 ^ 64
  pub rpc_requests : m.rpc_requests < 2 ^ 64
  pub blocks_verified : m.blocks_verified < 2 ^ 64
  pub verification_failures : m.verification_failures < 2 ^ 64
  pub cross_chain_l2_to_l1 : m.cross_chain_l2_to_l1 < 2 ^ 64
  pub cross_chain_l1_to_l2 : m.cross_chain_l1_to_l2 < 2 ^ 64
  pub governance_active_proposals : IsInt64 m.governance_active_proposals
  pub governance_proposals_total : m.governance_proposals_total < 2 ^ 64
  pub governance_votes_cast : m.governance_votes_cast < 2 ^ 64

IsInt64-InRange : (z : ℤ) → IsInt64 z → InRange z
IsInt64-InRange (pos n) h = omega arith
IsInt64-InRange (negsuc n) h = omega arith

abbrev named : String → ℤ → List ℕ × Option ℤ
named name z = (codes name, some z)

-- The metrics by name.
abbrev pub by_name : Metrics → List (List ℕ × Option ℤ)
by_name m =
    (named "inso_validator_attestations_created_total" (pos m.attestations_created))
    ∷ (named "inso_validator_attestations_received_total" (pos m.attestations_received))
    ∷ (named "inso_validator_attestations_verified_total" (pos m.attestations_verified))
    ∷ (named "inso_validator_attestations_failed_total" (pos m.attestations_failed))
    ∷ (named "inso_validator_blocks_finalized_total" (pos m.blocks_finalized))
    ∷ (named "inso_validator_synced_block" (pos m.synced_block))
    ∷ (named "inso_validator_is_synced" m.is_synced)
    ∷ (named "inso_validator_xp" m.current_xp)
    ∷ (named "inso_validator_sovereignty_score" m.sovereignty_score)
    ∷ (named "inso_validator_sovereignty_tier" m.sovereignty_tier)
    ∷ (named "inso_validator_peer_count" m.peer_count)
    ∷ (named "inso_validator_staked_eth" m.staked_amount_wei)
    ∷ (named "inso_validator_slashes_received_total" (pos m.slashes_received))
    ∷ (named "inso_validator_slashes_reported_total" (pos m.slashes_reported))
    ∷ (named "inso_validator_rpc_requests_total" (pos m.rpc_requests))
    ∷ (named "inso_validator_blocks_verified_total" (pos m.blocks_verified))
    ∷ (named "inso_validator_verification_failures_total" (pos m.verification_failures))
    ∷ (named "inso_crosschain_attestations_total{direction=\"l2_to_l1\"}"
        (pos m.cross_chain_l2_to_l1))
    ∷ (named "inso_crosschain_attestations_total{direction=\"l1_to_l2\"}"
        (pos m.cross_chain_l1_to_l2))
    ∷ (named "inso_governance_active_proposals" m.governance_active_proposals)
    ∷ (named "inso_governance_proposals_total" (pos m.governance_proposals_total))
    ∷ (named "inso_governance_votes_cast_total" (pos m.governance_votes_cast))
    ∷ []

fits : (m : Metrics) → IsMachine m → FamiliesInRange (families m)
unfolding families
fits m v = (
  (omega arith, tt),
  (
    (omega arith, tt),
    (
      (omega arith, tt),
      (
        (omega arith, tt),
        (
          (omega arith, tt),
          (
            (omega arith, tt),
            (
              (IsInt64-InRange m.is_synced v.is_synced, tt),
              (
                (IsInt64-InRange m.current_xp v.current_xp, tt),
                (
                  (IsInt64-InRange m.sovereignty_score v.sovereignty_score, tt),
                  (
                    (IsInt64-InRange m.sovereignty_tier v.sovereignty_tier, tt),
                    (
                      (IsInt64-InRange m.peer_count v.peer_count, tt),
                      (
                        (IsInt64-InRange m.staked_amount_wei v.staked_amount_wei, tt),
                        (
                          (omega arith, tt),
                          (
                            (omega arith, tt),
                            (
                              (omega arith, tt),
                              (
                                (omega arith, tt),
                                (
                                  (omega arith, tt),
                                  (
                                    (omega arith, (omega arith, tt)),
                                    (
                                      (
                                        IsInt64-InRange m.governance_active_proposals
                                            v.governance_active_proposals,
                                        tt,
                                      ),
                                      ((omega arith, tt), ((omega arith, tt), tt)),
                                    ),
                                  ),
                                ),
                              ),
                            ),
                          ),
                        ),
                      ),
                    ),
                  ),
                ),
              ),
            ),
          ),
        ),
      ),
    ),
  ),
)

-- What a scrape reads from the text of the endpoint is each of the 22 metrics under its name, with the
-- value that the node holds, if the values fit their machine integers.
pub scrape-handle_metrics : (m : Metrics) → IsMachine m → scrape (handle_metrics m) ≡ by_name m
unfolding handle_metrics families
scrape-handle_metrics m v = scrape-exposition (families m) (families_plain m) (fits m v)
