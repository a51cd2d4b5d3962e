-- ===== src/Consensus/Tests.antt =====
-- The consensus engine on concrete inputs, with a signature scheme that carries the key and the hash.
use mathlib.Core.Option.{some-injective}
use inso_validator.Prelude.{
  ℕ, ◌^◌, ◌≡◌, ◌↔◌, refl, subst, ◌∙◌, true, false, List, [], ◌∷◌, none, arith, length, replicate,
}
use inso_validator.Prelude.Int.{pos, ◌+ℤ◌}
use inso_validator.Prelude.Dict.{Dict, contains, values}
use inso_validator.Float.{
  fin, const, unit, quotient, pack, half_limit, round_fuel, overflow, add, div, lt, is_zero,
}
use inso_validator.Float.Round.{round}
use inso_validator.Staking.Amount.{precision}
use inso_validator.Float.{mul}
use inso_validator.Consensus.{register_validator, stake_ether, sovereignty, voting_power}
use inso_validator.External.Toys.{recover, toy_signing}
use inso_validator.P2P.{Message, msg_slash_report}
use inso_validator.Consensus.{
  Attestation, ValidatorInfo, Engine, accepted, unknown_validator, new_engine, attestation_preimage,
  attest_block, is_finalized, has_quorum, quorum, verify_attestation, total_power, attested_power,
  power_of, attestations_of,
}
use inso_validator.Consensus.Power.{Visits}
use inso_validator.Consensus.Finality as Finality
use inso_validator.Consensus.Finality.{finality_kept, is_finalized-quorum}
use inso_validator.Consensus.Register.{reached_finality_kept}
use inso_validator.Consensus.Local as Local
use inso_validator.Consensus.Local.{never_final}
use inso_validator.Consensus.Signatures.{
  Belongs, IsSigned, Recovers, attestation_preimage-injective, verify_attestation_iff,
  attest-verify,
}

toy_signing-Recovers : (key : ℕ) → Recovers toy_signing key key
toy_signing-Recovers key hash sig e =
    subst (λ s. (length s ≡ 65) × Belongs toy_signing (recover hash s) key) (some-injective _ _ e)
      (refl, ground arith)

abbrev info : ℕ → ValidatorInfo
info addr = record {
  address = addr;
  stake = pos (10 ^ 18);
  taste_score = fin (pos 0);
  vote_power = fin (pos 8);
  sovereignty_score = fin (pos 0);
  sovereignty_tier = 0;
  is_active = true;
  slash_count = 0;
  joined_at = 0;
}

abbrev vote : Attestation
vote = record {
  block_number = 5;
  block_hash = 77;
  validator = 1;
  taste_score = fin (pos 0);
  signature = [];
  timestamp = 9;
}

-- Two validators of equal power, of which the local one has attested block 5 as often as listed.
abbrev with_votes : List Attestation → Engine
with_votes votes = record {
  slashing_enabled = true;
  rep_mgr = none;
  private_key = 1;
  validators = (1, info 1) ∷ (2, info 2) ∷ [];
  attestations = (5, votes) ∷ [];
  local_addr = 1;
  sent = [];
  metrics = none;
}

abbrev both : List ValidatorInfo
both = info 1 ∷ info 2 ∷ []

-- The powers 26.31, 4.1 and 48.52, and two attestations of the first: whether they are more than two
-- thirds depends on the order in which the powers are added.
abbrev powered : ℕ → ℕ → ValidatorInfo
powered addr hundredths = record (info addr) { vote_power = const hundredths 100 }

abbrev three : Dict ValidatorInfo
three = (1, powered 1 2631) ∷ (2, powered 2 410) ∷ (3, powered 3 4852) ∷ []

abbrev one_order : List ValidatorInfo
one_order = powered 1 2631 ∷ powered 2 410 ∷ powered 3 4852 ∷ []

abbrev other_order : List ValidatorInfo
other_order = powered 3 4852 ∷ powered 1 2631 ∷ powered 2 410 ∷ []

not_final_in_one : quorum one_order three (vote ∷ vote ∷ []) ≡ false
unfolding quorum total_power attested_power power_of add div lt is_zero const quotient pack round
    half_limit round_fuel overflow unit ◌+ℤ◌
not_final_in_one = refl

final_in_other : quorum other_order three (vote ∷ vote ∷ []) ≡ true
unfolding quorum total_power attested_power power_of add div lt is_zero const quotient pack round
    half_limit round_fuel overflow unit ◌+ℤ◌
final_in_other = refl

-- Half of the power is not enough; the same attestation counted twice is.
vote_once : has_quorum (with_votes (vote ∷ [])) both 5 ≡ false
unfolding has_quorum quorum attestations_of total_power attested_power power_of add div lt is_zero
    const quotient pack round half_limit round_fuel overflow unit ◌+ℤ◌
vote_once = refl

vote_twice : has_quorum (with_votes (vote ∷ vote ∷ [])) both 5 ≡ true
unfolding has_quorum quorum attestations_of total_power attested_power power_of add div lt is_zero
    const quotient pack round half_limit round_fuel overflow unit ◌+ℤ◌
vote_twice = refl

abbrev report : Message
report = record { type = msg_slash_report; from = "peer"; payload = [] }

twice_final : (is_finalized (with_votes (vote ∷ vote ∷ [])) both 5).1 ≡ true
twice_final = is_finalized-quorum toy_signing (with_votes (vote ∷ vote ∷ [])) both 5 ∙ vote_twice

never_final_example :
    (is_finalized
      (Local.run toy_signing (new_engine true 1 none 1) (
        Local.register 2 (pos (10 ^ 18)) (fin (pos 0)) 3
        ∷ Local.attest 5 78 10
        ∷ Local.receive report
        ∷ []))
      both
      5).1
    ≡ false
never_final_example =
    never_final toy_signing true 1 1 none
      (Local.register 2 (pos (10 ^ 18)) (fin (pos 0)) 3
        ∷ Local.attest 5 78 10
        ∷ Local.receive report
        ∷ [])
      both 5 (λ q. absurd (omega (arith, q)), (tt, (tt, tt)))

attestation_preimage-injective_example :
    (vote.block_number ≡ 5) × (vote.block_hash ≡ 77) × (vote.validator ≡ 1)
attestation_preimage-injective_example =
    attestation_preimage-injective vote (record vote { timestamp = 10 })
      (omega arith, omega arith, omega arith) (omega arith, omega arith, omega arith)
      (unfold attestation_preimage in refl)

abbrev signed_vote : Attestation
signed_vote = record vote { signature = 1 ∷ 83 ∷ replicate 63 0 }

verify_attestation_iff_example :
    ((verify_attestation toy_signing (with_votes []) signed_vote ≡ accepted)
      ↔ (IsSigned toy_signing signed_vote × (contains 1 (with_votes []).validators ≡ true)))
    × ((verify_attestation toy_signing (with_votes []) signed_vote ≡ unknown_validator)
        ↔ (IsSigned toy_signing signed_vote × (contains 1 (with_votes []).validators ≡ false)))
verify_attestation_iff_example = verify_attestation_iff toy_signing (with_votes []) signed_vote

attest-verify_example :
    verify_attestation toy_signing
      (with_votes [])
      (attest_block toy_signing (with_votes []) 5 77 9).1
    ≡ accepted
attest-verify_example =
    attest-verify toy_signing (with_votes []) (with_votes []) 5 77 9 (toy_signing-Recovers 1)
      (λ hash. (1 ∷ hash ∷ replicate 63 0, refl))

-- One validator with all of the power attests block 5.
abbrev founded : List (Local.Command toy_signing)
founded = Local.register 1 (pos 1) (fin (pos 0)) 3 ∷ Local.attest 5 78 10 ∷ []

abbrev found : Engine
found = Local.run toy_signing (new_engine true 1 none 1) founded

founded_final : (is_finalized found (values found.validators) 5).1 ≡ true
unfolding is_finalized new_engine register_validator stake_ether sovereignty voting_power precision
    mul attest_block has_quorum quorum attestations_of total_power attested_power power_of add div
    lt is_zero const quotient pack round half_limit round_fuel overflow unit ◌+ℤ◌
founded_final = refl

founded-Visits : Visits found.validators (values found.validators)
unfolding new_engine register_validator attest_block
founded-Visits = ((1, refl), tt)

reached_finality_kept_example :
    (is_finalized
      (Finality.run toy_signing found
        (Finality.attest 5 79 11 ∷ Finality.check (values found.validators) 5 ∷ []))
      (values found.validators)
      5).1
    ≡ true
reached_finality_kept_example =
    reached_finality_kept toy_signing true 1 1 none founded
      (Finality.attest 5 79 11 ∷ Finality.check (values found.validators) 5 ∷ [])
      (values found.validators) 5 tt ((omega arith, tt), (tt, tt)) founded-Visits founded_final
