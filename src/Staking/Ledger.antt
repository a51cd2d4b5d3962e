-- ===== src/Staking/Ledger.antt =====
-- How the calls move the total stake and the delegations, and what they can never undo.
pub mod Deposits
use mathlib.Core.List.{Perm}
use mathlib.Core.Option.{some-injective}
use inso_validator.Prelude.{
  ℕ, ◌≡◌, refl, ap, sym, ◌∙◌, true, false, List, [], ◌∷◌, ◌++◌, some, inl, inr, Option-cases,
  Bool-cases, arith, ◌==◌,
}
use inso_validator.Prelude.Int.{ℤ, pos, ◌+ℤ◌, ◌-ℤ◌, ◌<ℤ◌, ltb_ℤ, int_laws, pos_part, neg_part}
use inso_validator.Prelude.Dict.{Dict, lookup, insert, lookup-insert, lookup-insert_self, values}
use inso_validator.Float.{Float}
use inso_validator.Staking.{
  Stake, Delegation, Manager, Outcome, ok, register, delegate, delegations_of, slash, slashed,
  total_staked, active_validators,
}
use inso_validator.Staking.Branches.{
  fresh_stake, register_low, register_known, register_new, delegation, delegated_to,
  delegate_unknown, delegate_inactive, delegate_active, slash_unknown, slash_known, slash_panic,
}
use inso_validator.Staking.Amount.{slash_amount}
use inso_validator.Staking.Total.{total_of}
use inso_validator.Staking.Commands.{Command, registers, delegates, slashes, apply, run}

abbrev pub IsInactive : Manager → ℕ → Type 0
IsInactive m v = (s : Stake) × (lookup v m.stakes ≡ some s) × (s.is_active ≡ false)

-- One more entry keeps `v` inactive, unless it is an active one under `v`.
put-IsInactive :
    (m : Manager) (v w : ℕ) (t : Stake) (ds : Dict (List Delegation))
    → (w ≡ v → t.is_active ≡ false)
    → IsInactive m v
    → IsInactive (record m { stakes = insert w t m.stakes; delegations = ds }) v
put-IsInactive m v w t ds off (s, e, h) = elim (Bool-cases (v == w)) [
  | inl hit ↦ (t, rw (lookup-insert v w t m.stakes) (rw hit), off (ground arith))
  | inr miss ↦ (s, rw (lookup-insert v w t m.stakes) (rw miss e), h)
]

same_inactive :
    (m : Manager) (v w : ℕ) (s t : Stake)
    → lookup v m.stakes ≡ some s
    → lookup w m.stakes ≡ some t
    → s.is_active ≡ false
    → w ≡ v
    → t.is_active ≡ false
same_inactive m v w s t e k off same =
    let one : s ≡ t =
      some-injective _ _ (sym e ∙ ap (λ (j : ℕ). lookup j m.stakes) (sym same) ∙ k) in
    ground (arith, ap (λ (x : Stake). x.is_active) one)

register-IsInactive :
    (m : Manager) (v w : ℕ) (amount : ℤ) (now : ℕ)
    → IsInactive m v
    → IsInactive (register m w amount now).0 v
register-IsInactive m v w amount now (s, e, h) = elim (Bool-cases (ltb_ℤ amount m.min_stake)) [
  | inl low ↦ rw (register_low m w amount now low) (s, e, h)
  | inr enough ↦ elim (Option-cases (lookup w m.stakes)) [
    | inl new ↦ rw (register_new m w amount now enough new) (
        put-IsInactive m v w (fresh_stake w amount now) m.delegations
          (λ same. absurd (cc (ap (λ (k : ℕ). lookup k m.stakes) same))) (s, e, h))
    | inr (t, k) ↦ rw (register_known m w amount now enough k) (s, e, h)
  ]
]

delegate-IsInactive :
    (m : Manager) (v d w : ℕ) (amount : ℤ) (now : ℕ)
    → IsInactive m v
    → IsInactive (delegate m d w amount now).0 v
delegate-IsInactive m v d w amount now (s, e, h) = elim (Option-cases (lookup w m.stakes)) [
  | inl k ↦ rw (delegate_unknown m d w amount now k) (s, e, h)
  | inr (t, k) ↦ elim (Bool-cases t.is_active) [
    | inl on ↦ rw (delegate_active m d w amount now k on) (
        put-IsInactive m v w (record t { amount = t.amount +ℤ amount })
          (delegated_to m t d w amount now).delegations (λ same. same_inactive m v w s t e k h same)
          (s, e, h))
    | inr off ↦ rw (delegate_inactive m d w amount now k off) (s, e, h)
  ]
]

slash-IsInactive :
    (m : Manager) (v w : ℕ) (percentage : Float)
    → IsInactive m v
    → IsInactive (slash m w percentage).0 v
slash-IsInactive m v w percentage (s, e, h) = elim (Option-cases (lookup w m.stakes)) [
  | inl k ↦ rw (slash_unknown m w percentage k) (s, e, h)
  | inr (t, k) ↦ elim (Option-cases (slash_amount t.amount percentage)) [
    | inl bad ↦ rw (slash_panic m w percentage k bad) (s, e, h)
    | inr (cut, c) ↦ rw (slash_known m w percentage k c) (
        put-IsInactive m v w (slashed m.min_stake t cut) m.delegations
          (λ same. let off = same_inactive m v w s t e k h same in ground arith) (s, e, h))
  ]
]

apply-IsInactive : (m : Manager) (v : ℕ) (c : Command) → IsInactive m v → IsInactive (apply m c) v
unfolding apply
apply-IsInactive m v (registers w amount now) h = register-IsInactive m v w amount now h
apply-IsInactive m v (delegates d w amount now) h = delegate-IsInactive m v d w amount now h
apply-IsInactive m v (slashes w percentage) h = slash-IsInactive m v w percentage h

-- A validator that has become inactive stays so: no sequence of calls activates it again.
pub run-IsInactive :
    (m : Manager) (v : ℕ) (cs : List Command) → IsInactive m v → IsInactive (run m cs) v
unfolding run
run-IsInactive m v [] h = h
run-IsInactive m v (c ∷ cs) h = run-IsInactive (apply m c) v cs (apply-IsInactive m v c h)

-- `Delegate` does not check the sign of the amount. A negative amount that takes an active position
-- below the minimum is accepted, and the position stays active there.
pub delegate_negative :
    (m : Manager) (d v : ℕ) (amount : ℤ) (now : ℕ) (s : Stake)
    → lookup v m.stakes ≡ some s
    → s.is_active ≡ true
    → s.amount +ℤ amount <ℤ m.min_stake
    → let (m', outcome) = delegate m d v amount now in
      (outcome ≡ ok)
      × (s' : Stake) × (lookup v m'.stakes ≡ some s')
      × (s'.is_active ≡ true)
      × (s'.amount <ℤ m'.min_stake)
delegate_negative m d v amount now s e on low =
    rw (delegate_active m d v amount now e on)
      (refl, record s { amount = s.amount +ℤ amount }, lookup-insert_self v _ m.stakes, on, low)
