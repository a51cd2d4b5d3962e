-- ===== src/Consensus.antt =====
-- internal/consensus/engine.go: validators with their voting power, the attestations of this node,
-- and the test for finality. The mutex makes each method one step. Signing and recovering keys are
-- go-ethereum's and stand as a parameter. `now` is what `time.Now` returns; log lines are left out.
pub mod Power
pub mod Finality
pub mod Local
pub mod Signatures
pub mod Weight
pub mod Register
mod Tests
use inso_validator.Prelude.{
  ℕ, ◌+◌, ◌*◌, ◌^◌, Bool, true, false, List, [], ◌∷◌, ◌++◌, Option, none, some, ◌==◌, if◌then◌else◌,
  length,
}
use inso_validator.Prelude.Int.{ℤ, pos}
use inso_validator.Prelude.Dict.{Dict, lookup, insert, contains, values}
use inso_validator.Prelude.Word.{add_u64}
use inso_validator.Float.{
  Float, fin, unit, abs, is_neg, quotient, add, mul, div, lt, is_zero, const,
}
use inso_validator.Float.Round.{round}
use inso_validator.Bytes.{be_bytes, big_bytes, written}
use inso_validator.External.{Signing}
use inso_validator.Staking.Amount.{precision}
use inso_validator.Reputation.{Manager as RepManager, compute_sovereignty, record_attestation}
use inso_validator.P2P.{
  MessageType, msg_new_block, msg_attestation, msg_sync_request, msg_sync_response,
  msg_validator_announce, msg_slash_report, Message,
}

pub record Attestation : Type 0 where
  pub block_number : ℕ
  pub block_hash : ℕ
  pub validator : ℕ
  pub taste_score : Float
  pub signature : List ℕ
  pub timestamp : ℕ

pub record ValidatorInfo : Type 0 where
  pub address : ℕ
  pub stake : ℤ
  pub taste_score : Float
  pub vote_power : Float
  pub sovereignty_score : Float
  pub sovereignty_tier : ℕ
  pub is_active : Bool
  pub slash_count : ℕ
  pub joined_at : ℕ

-- The counters that the engine adds to.
pub record Counters : Type 0 where
  pub attestations_created : ℕ
  pub blocks_finalized : ℕ

-- `sent` is what the engine has handed to the network for broadcast, in order.
pub record Engine : Type 0 where
  pub slashing_enabled : Bool
  pub rep_mgr : Option RepManager
  pub private_key : ℕ
  pub validators : Dict ValidatorInfo
  pub attestations : Dict (List Attestation)
  pub local_addr : ℕ
  pub sent : List (MessageType × List ℕ)
  pub metrics : Option Counters

-- `ErrInvalidSignature` and `ErrUnknownValidator`
pub data Verdict : Type 0 where
  accepted : Verdict
  invalid_signature : Verdict
  unknown_validator : Verdict

unfoldable pub new_engine : Bool → ℕ → Option RepManager → ℕ → Engine
new_engine slashing_enabled local_addr rep_mgr private_key = record {
  slashing_enabled = slashing_enabled;
  rep_mgr = rep_mgr;
  private_key = private_key;
  validators = [];
  attestations = [];
  local_addr = local_addr;
  sent = [];
  metrics = none;
}

unfoldable pub set_metrics : Engine → Counters → Engine
set_metrics e m = record e { metrics = some m }

-- stake / 1e18 as a big.Float with the precision of the stake, then to a float64.
unfoldable pub stake_ether : ℤ → Float
stake_ether stake =
    quotient (is_neg stake)
      (round (2 * precision (abs stake)) ether_fuel (abs stake * unit) (10 ^ 18)) 1
  where
    -- The quotient has at most 1015 bits more than the stake.
    ether_fuel : ℕ
    ether_fuel = 1074

unfoldable pub sovereignty :
    Option RepManager → ℕ → Float → Float → ℕ → Option RepManager × Float × ℕ
sovereignty none addr stake taste_score now = (none, fin (pos 0), 0)
sovereignty (some m) addr stake taste_score now =
    let (m', score, tier) = compute_sovereignty m addr stake taste_score now in
    (some m', score, tier)

-- `stakeF64 * (1 + 0.5*sovereigntyScore)`
unfoldable pub voting_power : Float → Float → Float
voting_power stake score = mul stake (add (const 1 1) (mul (const 1 2) score))

unfoldable pub register_validator : Engine → ℕ → ℤ → Float → ℕ → Engine
register_validator e addr stake taste_score now =
    let ether = stake_ether stake in
    let (rep_mgr, score, tier) = sovereignty e.rep_mgr addr ether taste_score now in
    let info : ValidatorInfo = record {
      address = addr;
      stake = stake;
      taste_score = taste_score;
      vote_power = voting_power ether score;
      sovereignty_score = score;
      sovereignty_tier = tier;
      is_active = true;
      slash_count = 0;
      joined_at = now;
    } in
    record e { rep_mgr = rep_mgr; validators = insert addr info e.validators }

-- `e.attestations[blockNum]`, nil if there are none.
unfoldable pub attestations_of : Engine → ℕ → List Attestation
attestations_of e block_num = elim (lookup block_num e.attestations) [
  | none ↦ []
  | some atts ↦ atts
]

-- What `attestationHash` hashes.
unfoldable pub attestation_preimage : Attestation → List ℕ
attestation_preimage att =
    written
      (big_bytes att.block_number ∷ be_bytes 32 att.block_hash ∷ be_bytes 20 att.validator ∷ [])

-- The power of the active validators, in the order in which they are visited.
unfoldable pub total_power : Float → List ValidatorInfo → Float
total_power acc [] = acc
total_power acc (v ∷ vs) = total_power (if v.is_active then add acc v.vote_power else acc) vs

unfoldable pub power_of : Dict ValidatorInfo → ℕ → Option Float
power_of validators addr = elim (lookup addr validators) [
  | none ↦ none
  | some v ↦ if v.is_active then some v.vote_power else none
]

unfoldable pub attested_power : Dict ValidatorInfo → Float → List Attestation → Float
attested_power validators acc [] = acc
attested_power validators acc (att ∷ atts) =
    attested_power validators
      (elim (power_of validators att.validator) [ none ↦ acc | some p ↦ add acc p ]) atts

abbrev pub zero_power : Float
zero_power = fin (pos 0)

-- Whether the attestations, if there are any, have more than 2/3 of the power. `visits` are the
-- validators in the order of the `range` over the map, which Go chooses anew at each call.
unfoldable pub quorum : List ValidatorInfo → Dict ValidatorInfo → List Attestation → Bool
quorum visits validators [] = false
quorum visits validators (att ∷ atts) =
    let total = total_power zero_power visits in
    let attested = attested_power validators zero_power (att ∷ atts) in
    if is_zero total then false else lt (const 2 3) (div attested total)

-- The verdict of `IsFinalized`.
unfoldable pub has_quorum : Engine → List ValidatorInfo → ℕ → Bool
has_quorum e visits block_num = quorum visits e.validators (attestations_of e block_num)

unfoldable pub is_finalized : Engine → List ValidatorInfo → ℕ → Engine × Bool
is_finalized e visits block_num =
    if has_quorum e visits block_num
    then (
      record e {
        metrics = elim e.metrics [
          | none ↦ none
          | some m ↦ some (record m { blocks_finalized = add_u64 m.blocks_finalized 1 })
        ];
      },
      true,
    )
    else (e, false)

count_active : List ValidatorInfo → ℕ
count_active [] = 0
count_active (v ∷ vs) = if v.is_active then 1 + count_active vs else count_active vs

unfoldable pub validator_count : Engine → ℕ
unfolding count_active
validator_count e = count_active (values e.validators)

unfoldable pub all_validators : Engine → List ValidatorInfo
all_validators e = values e.validators

module _ (c : Signing) where
  unfoldable pub attestation_hash : Attestation → ℕ
  attestation_hash att = c.keccak256 (attestation_preimage att)

  -- nil if signing fails.
  unfoldable pub sign_attestation : Engine → Attestation → List ℕ
  sign_attestation e att = elim (c.sign (attestation_hash att) e.private_key) [
    | none ↦ []
    | some sig ↦ sig
  ]

  unfoldable pub attest_block : Engine → ℕ → ℕ → ℕ → Engine × Attestation
  attest_block e block_num block_hash now =
      let unsigned : Attestation = record {
        block_number = block_num;
        block_hash = block_hash;
        validator = e.local_addr;
        taste_score = zero_power;
        signature = [];
        timestamp = now;
      } in
      let att : Attestation = record unsigned { signature = sign_attestation e unsigned } in
      (
        record e {
          attestations =
              insert block_num (attestations_of e block_num ++ (att ∷ [])) e.attestations;
          rep_mgr = elim e.rep_mgr [
            | none ↦ none
            | some m ↦ some (record_attestation m e.local_addr now)
          ];
          sent = e.sent ++ ((msg_attestation, att.signature) ∷ []);
          metrics = elim e.metrics [
            | none ↦ none
            | some m ↦ some (record m { attestations_created = add_u64 m.attestations_created 1 })
          ];
        },
        att,
      )

  unfoldable pub verify_attestation : Engine → Attestation → Verdict
  verify_attestation e att =
      if length att.signature == 65
      then elim (c.sig_to_pub (attestation_hash att) att.signature) [
        | none ↦ invalid_signature
        | some key ↦
            if c.pubkey_to_address key == att.validator
            then if contains att.validator e.validators then accepted else unknown_validator
            else invalid_signature
      ]
      else invalid_signature

-- What the handlers of peers' messages do to the engine, besides writing to the log.
unfoldable pub handle_attestation : Engine → Message → Engine
handle_attestation e msg = e

unfoldable pub handle_new_block : Engine → Message → Engine
handle_new_block e msg = e

unfoldable pub handle_slash_report : Engine → Message → Engine
handle_slash_report e msg = if e.slashing_enabled then e else e

-- One turn of `processMessages`.
unfoldable pub process_message : Engine → Message → Engine
process_message e msg = elim msg.type [
  | msg_attestation ↦ handle_attestation e msg
  | msg_new_block ↦ handle_new_block e msg
  | msg_slash_report ↦ handle_slash_report e msg
  | _ ↦ e
]
