-- ===== src/Staking/Branches.antt =====
-- One equation for each branch of `Register`, `Delegate` and `Slash`.
use inso_validator.Prelude.{ℕ, ◌≡◌, true, false, [], ◌∷◌, ◌++◌, none, some, arith}
use inso_validator.Prelude.Int.{ℤ, pos, ◌+ℤ◌, ltb_ℤ}
use inso_validator.Prelude.Dict.{lookup, insert}
use inso_validator.Float.{Float}
use inso_validator.Staking.{
  Stake, Delegation, Manager, ok, err, panic, below_minimum, already_registered, not_active,
  not_found, register, delegate, delegations_of, slash, slashed,
}
use inso_validator.Staking.Amount.{slash_amount}

abbrev pub fresh_stake : ℕ → ℤ → ℕ → Stake
fresh_stake v amount now = record {
  validator = v;
  amount = amount;
  staked_at = now;
  is_active = true;
  rewards = pos 0;
  slash_count = pos 0;
}

pub register_low :
    (m : Manager) (v : ℕ) (amount : ℤ) (now : ℕ)
    → ltb_ℤ amount m.min_stake ≡ true
    → register m v amount now ≡ (m, err (below_minimum amount m.min_stake))
unfolding register
register_low m v amount now h = rw h

pub register_known :
    (m : Manager) (v : ℕ) (amount : ℤ) (now : ℕ) {s : Stake}
    → ltb_ℤ amount m.min_stake ≡ false
    → lookup v m.stakes ≡ some s
    → register m v amount now ≡ (m, err (already_registered v))
unfolding register
register_known m v amount now h e = rw (h, e, register)

pub register_new :
    (m : Manager) (v : ℕ) (amount : ℤ) (now : ℕ)
    → ltb_ℤ amount m.min_stake ≡ false
    → lookup v m.stakes ≡ none
    → register m v amount now
      ≡ (record m { stakes = insert v (fresh_stake v amount now) m.stakes }, ok)
unfolding register
register_new m v amount now h e = rw (h, e, register)

pub delegate_unknown :
    (m : Manager) (d v : ℕ) (amount : ℤ) (now : ℕ)
    → lookup v m.stakes ≡ none
    → delegate m d v amount now ≡ (m, err (not_active v))
unfolding delegate
delegate_unknown m d v amount now e = rw (e, delegate)

pub delegate_inactive :
    (m : Manager) (d v : ℕ) (amount : ℤ) (now : ℕ) {s : Stake}
    → lookup v m.stakes ≡ some s
    → s.is_active ≡ false
    → delegate m d v amount now ≡ (m, err (not_active v))
unfolding delegate
delegate_inactive m d v amount now e off = rw (e, delegate) (ground arith)

abbrev pub delegation : ℕ → ℕ → ℤ → ℕ → Delegation
delegation d v amount now = record {
  delegator = d;
  validator = v;
  amount = amount;
  delegated_at = now;
}

abbrev pub delegated_to : Manager → Stake → ℕ → ℕ → ℤ → ℕ → Manager
delegated_to m s d v amount now = record m {
  stakes = insert v (record s { amount = s.amount +ℤ amount }) m.stakes;
  delegations = insert v (delegations_of m v ++ (delegation d v amount now ∷ [])) m.delegations;
}

pub delegate_active :
    (m : Manager) (d v : ℕ) (amount : ℤ) (now : ℕ) {s : Stake}
    → lookup v m.stakes ≡ some s
    → s.is_active ≡ true
    → delegate m d v amount now ≡ (delegated_to m s d v amount now, ok)
unfolding delegate
delegate_active m d v amount now e active = rw (e, delegate) (ground arith)

pub slash_unknown :
    (m : Manager) (v : ℕ) (percentage : Float)
    → lookup v m.stakes ≡ none
    → slash m v percentage ≡ (m, err (not_found v))
unfolding slash
slash_unknown m v percentage e = rw (e, slash)

pub slash_known :
    (m : Manager) (v : ℕ) (percentage : Float) {s : Stake} {cut : ℤ}
    → lookup v m.stakes ≡ some s
    → slash_amount s.amount percentage ≡ some cut
    → slash m v percentage
      ≡ (record m { stakes = insert v (slashed m.min_stake s cut) m.stakes }, ok)
unfolding slash
slash_known m v percentage e c = rw (e, slash) (rw (c, slash))

pub slash_panic :
    (m : Manager) (v : ℕ) (percentage : Float) {s : Stake}
    → lookup v m.stakes ≡ some s
    → slash_amount s.amount percentage ≡ none
    → slash m v percentage ≡ (m, panic)
unfolding slash
slash_panic m v percentage e c = rw (e, slash) (rw (c, slash))
