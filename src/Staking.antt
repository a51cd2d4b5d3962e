-- ===== src/Staking.antt =====
-- internal/staking/manager.go. Amounts are in wei, as unbounded signed integers. The mutex makes
-- each method one step; log lines are left out. `now` is what `time.Now` returns.
pub mod Amount
pub mod Branches
pub mod Invariant
pub mod Total
pub mod Commands
pub mod Ledger
mod Tests
use inso_validator.Prelude.{
  ℕ, ◌*◌, ◌^◌, Bool, true, false, ◌&&◌, not, List, [], ◌∷◌, ◌++◌, Option, none, some, if◌then◌else◌,
}
use inso_validator.Prelude.Int.{ℤ, pos, ◌+ℤ◌, ◌-ℤ◌, ltb_ℤ}
use inso_validator.Prelude.Dict.{Dict, lookup, insert, values}
use inso_validator.Prelude.Word.{wrap_int}
use inso_validator.Float.{Float}
use Amount.{slash_amount}

pub record Stake : Type 0 where
  pub validator : ℕ
  pub amount : ℤ
  pub staked_at : ℕ
  pub is_active : Bool
  pub rewards : ℤ
  pub slash_count : ℤ

pub record Delegation : Type 0 where
  pub delegator : ℕ
  pub validator : ℕ
  pub amount : ℤ
  pub delegated_at : ℕ

pub record Manager : Type 0 where
  pub stakes : Dict Stake
  pub delegations : Dict (List Delegation)
  pub min_stake : ℤ

pub data Error : Type 0 where
  below_minimum : ℤ → ℤ → Error
  already_registered not_active not_found : ℕ → Error

-- How a method ends: an error value or `nil`, or a run-time panic of math/big.
pub data Outcome : Type 0 where
  ok : Outcome
  err : Error → Outcome
  panic : Outcome

unfoldable pub new_manager : ℕ → Manager
new_manager min_stake_inso = record {
  stakes = [];
  delegations = [];
  min_stake = pos (min_stake_inso * 10 ^ 18);
}

unfoldable pub register : Manager → ℕ → ℤ → ℕ → Manager × Outcome
register m validator amount now =
    if ltb_ℤ amount m.min_stake
    then (m, err (below_minimum amount m.min_stake))
    else elim (lookup validator m.stakes) [
      | some _ ↦ (m, err (already_registered validator))
      | none ↦ (record m { stakes = insert validator fresh m.stakes }, ok)
    ]
  where
    fresh : Stake
    fresh = record {
      validator = validator;
      amount = amount;
      staked_at = now;
      is_active = true;
      rewards = pos 0;
      slash_count = pos 0;
    }

-- `m.delegations[validator]`, which is nil for a missing key.
abbrev pub delegations_of : Manager → ℕ → List Delegation
delegations_of m validator = elim (lookup validator m.delegations) [ none ↦ [] | some ds ↦ ds ]

unfoldable pub delegate : Manager → ℕ → ℕ → ℤ → ℕ → Manager × Outcome
delegate m delegator validator amount now = elim (lookup validator m.stakes) [
  | none ↦ (m, err (not_active validator))
  | some stake ↦ if not stake.is_active then (m, err (not_active validator)) else (
    record m {
      stakes = insert validator (record stake { amount = stake.amount +ℤ amount }) m.stakes;
      delegations = insert validator (delegations_of m validator ++ (entry ∷ [])) m.delegations;
    },
    ok,
  )
]
  where
    entry : Delegation
    entry = record {
      delegator = delegator;
      validator = validator;
      amount = amount;
      delegated_at = now;
    }

-- The stake after a slash of `cut` wei.
abbrev pub slashed : ℤ → Stake → ℤ → Stake
slashed min_stake stake cut =
    let left = stake.amount -ℤ cut in
    record stake {
      amount = left;
      slash_count = wrap_int (stake.slash_count +ℤ pos 1);
      is_active = if ltb_ℤ left min_stake then false else stake.is_active;
    }

unfoldable pub slash : Manager → ℕ → Float → Manager × Outcome
slash m validator percentage = elim (lookup validator m.stakes) [
  | none ↦ (m, err (not_found validator))
  | some stake ↦ elim (slash_amount stake.amount percentage) [
    | none ↦ (m, panic)
    | some cut ↦
        (record m { stakes = insert validator (slashed m.min_stake stake cut) m.stakes }, ok)
  ]
]

unfoldable pub get_stake : Manager → ℕ → Option Stake
get_stake m validator = lookup validator m.stakes

-- The loop of `TotalStaked`, over the values in the order of the iteration.
unfoldable pub sum_active : ℤ → List Stake → ℤ
sum_active total [] = total
sum_active total (s ∷ ss) = sum_active (if s.is_active then total +ℤ s.amount else total) ss

unfoldable pub total_staked : Manager → ℤ
total_staked m = sum_active (pos 0) (values m.stakes)

unfoldable pub collect_active : List Stake → List Stake → List Stake
collect_active active [] = active
collect_active active (s ∷ ss) =
    collect_active (if s.is_active then active ++ (s ∷ []) else active) ss

unfoldable pub active_validators : Manager → List Stake
active_validators m = collect_active [] (values m.stakes)
