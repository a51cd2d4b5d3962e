-- ===== src/Staking/Ledger/Deposits.antt =====
-- internal/staking/manager.go: what registrations and delegations add to the total.
use inso_validator.Prelude.{
  ℕ, ◌≡◌, refl, ap, sym, ◌∙◌, true, some, inl, inr, Option-cases, Bool-cases, arith,
}
use inso_validator.Prelude.Int.{ℤ, ◌+ℤ◌, ltb_ℤ, int_laws, pos_part, neg_part}
use inso_validator.Prelude.Dict.{Dict, lookup, insert, values}
use inso_validator.Staking.{Stake, Manager, Outcome, ok, register, delegate, total_staked}
use inso_validator.Staking.Branches.{
  delegated_to, fresh_stake, register_low, register_known, register_new, delegate_unknown,
  delegate_inactive, delegate_active,
}
use inso_validator.Staking.Total.{
  weight, total_of, total_staked-total_of, total_of-insert, total_of-insert_new,
}

cancel : (t t' a b : ℤ) → t' +ℤ a ≡ t +ℤ (a +ℤ b) → t' ≡ t +ℤ b
cancel t t' a b h = omega (int_laws, ap pos_part h, ap neg_part h)

-- A total to which an amount is added if the call has succeeded.
abbrev pub credited : ℤ → ℤ → Outcome → ℤ
credited total amount ok = total +ℤ amount
credited total amount _ = total

register_total :
    (m : Manager) (v : ℕ) (amount : ℤ) (now : ℕ)
    → total_staked (register m v amount now).0
      ≡ credited (total_staked m) amount (register m v amount now).1
register_total m v amount now = elim (Bool-cases (ltb_ℤ amount m.min_stake)) [
  | inl low ↦ rw (register_low m v amount now low) refl
  | inr enough ↦ elim (Option-cases (lookup v m.stakes)) [
    | inl e ↦ rw (register_new m v amount now enough e) (
        rw (total_staked-total_of, total_staked-total_of)
          (total_of-insert_new v (fresh_stake v amount now) m.stakes e))
    | inr (s, e) ↦ rw (register_known m v amount now enough e) refl
  ]
]

weight_active : (s : Stake) → s.is_active ≡ true → weight s ≡ s.amount
weight_active s on = ground arith

active_moved :
    (v : ℕ) (s : Stake) (amount : ℤ) (d : Dict Stake)
    → lookup v d ≡ some s
    → s.is_active ≡ true
    → total_of (values (insert v (record s { amount = s.amount +ℤ amount }) d)) +ℤ s.amount
      ≡ total_of (values d) +ℤ (s.amount +ℤ amount)
active_moved v s amount d e on =
    let raised : Stake = record s { amount = s.amount +ℤ amount } in
    let after = total_of (values (insert v raised d)) in
    ap (λ (a : ℤ). after +ℤ a) (sym (weight_active s on))
    ∙ total_of-insert v raised s d e
    ∙ ap (λ (a : ℤ). total_of (values d) +ℤ a) (weight_active raised on)

delegate_total :
    (m : Manager) (d v : ℕ) (amount : ℤ) (now : ℕ)
    → total_staked (delegate m d v amount now).0
      ≡ credited (total_staked m) amount (delegate m d v amount now).1
delegate_total m d v amount now = elim (Option-cases (lookup v m.stakes)) [
  | inl e ↦ rw (delegate_unknown m d v amount now e) refl
  | inr (s, e) ↦ elim (Bool-cases s.is_active) [
    | inl on ↦ rw (delegate_active m d v amount now e on) (
        rw (total_staked-total_of (delegated_to m s d v amount now), total_staked-total_of m)
          (cancel (total_of (values m.stakes)) _ s.amount amount
            (active_moved v s amount m.stakes e on)))
    | inr off ↦ rw (delegate_inactive m d v amount now e off) refl
  ]
]

-- A registration or a delegation raises the total stake by exactly its amount if it succeeds, and
-- leaves the total as it was if it fails.
pub deposits_total :
    (m : Manager) (d v : ℕ) (amount : ℤ) (now : ℕ)
    → (total_staked (register m v amount now).0
        ≡ credited (total_staked m) amount (register m v amount now).1)
      × (total_staked (delegate m d v amount now).0
          ≡ credited (total_staked m) amount (delegate m d v amount now).1)
deposits_total m d v amount now = (register_total m v amount now, delegate_total m d v amount now)
