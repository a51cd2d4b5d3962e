-- ===== src/Staking/Invariant.antt =====
-- What every staking position keeps: no negative amount, and no active position below the minimum.
use inso_validator.Prelude.{ℕ, ◌≡◌, true, List, some, inl, inr, Option-cases, Bool-cases, arith}
use inso_validator.Prelude.Int.{ℤ, pos, negsuc, ◌+ℤ◌, ◌≤ℤ◌, ltb_ℤ, int_laws}
use inso_validator.Prelude.Dict.{
  Dict, lookup, insert, HasUniqueKeys, Every, Every-lookup, Every-insert, insert-HasUniqueKeys,
}
use inso_validator.Float.{Float, le, const}
use inso_validator.Float.Order.{IsNonneg}
use inso_validator.Staking.{
  Stake, Delegation, Manager, new_manager, register, delegate, slash, slashed,
}
use inso_validator.Staking.Branches.{
  fresh_stake, register_low, register_known, register_new, delegate_unknown, delegate_inactive,
  delegate_active, slash_unknown, slash_known,
}
use inso_validator.Staking.Amount.{slash_amount, slash_amount_bounds}

pub record IsSound (min_stake : ℤ) (s : Stake) : Type 0 where
  pub nonneg : pos 0 ≤ℤ s.amount
  pub funded : s.is_active ≡ true → min_stake ≤ℤ s.amount

pub record IsValid (m : Manager) : Type 0 where
  pub unique : HasUniqueKeys m.stakes
  pub sound : Every (IsSound m.min_stake) m.stakes
  pub positive : pos 0 ≤ℤ m.min_stake

-- A percentage from 0 to 100.
abbrev pub IsPercentage : Float → Type 0
IsPercentage p = IsNonneg p × (le p (const 100 1) ≡ true)

pub new_manager-IsValid : (min_stake_inso : ℕ) → IsValid (new_manager min_stake_inso)
unfolding new_manager
new_manager-IsValid n = record { unique = tt; sound = tt; positive = omega arith }

pub stake-IsSound :
    (m : Manager) (v : ℕ) (s : Stake)
    → IsValid m
    → lookup v m.stakes ≡ some s
    → IsSound m.min_stake s
stake-IsSound m v s h e = Every-lookup (IsSound m.min_stake) v s m.stakes h.sound e

-- Putting a sound position under any key keeps the invariant.
put-IsValid :
    (m : Manager) (v : ℕ) (s : Stake) (ds : Dict (List Delegation))
    → IsValid m
    → IsSound m.min_stake s
    → IsValid (record m { stakes = insert v s m.stakes; delegations = ds })
put-IsValid m v s ds h k = record {
  unique = insert-HasUniqueKeys v s m.stakes h.unique;
  sound = Every-insert (IsSound m.min_stake) v s m.stakes h.sound k;
  positive = h.positive;
}

-- For a position that is not negative the cut of `Slash` lies between 0 and the whole amount.
pub slash_cut :
    (amount : ℤ) (percentage : Float)
    → pos 0 ≤ℤ amount
    → IsPercentage percentage
    → (cut : ℕ) × (slash_amount amount percentage ≡ some (pos cut)) × (pos cut ≤ℤ amount)
slash_cut (pos a) percentage h p =
    let (cut, e, fits) = slash_amount_bounds a percentage p.0 p.1 in (cut, e, omega arith)
slash_cut (negsuc a) percentage h p = absurd (omega arith)

pub register-IsValid :
    (m : Manager) (v : ℕ) (amount : ℤ) (now : ℕ) → IsValid m → IsValid (register m v amount now).0
register-IsValid m v amount now h = elim (Bool-cases (ltb_ℤ amount m.min_stake)) [
  | inl low ↦ rw (register_low m v amount now low) h
  | inr enough ↦ elim (Option-cases (lookup v m.stakes)) [
    | inl e ↦ rw (register_new m v amount now enough e) (
        put-IsValid m v (fresh_stake v amount now) m.delegations h
          (record { nonneg = ground (arith, h.positive); funded = λ _. ground arith }))
    | inr (s, e) ↦ rw (register_known m v amount now enough e) h
  ]
]

pub delegate-IsValid :
    (m : Manager) (d v : ℕ) (amount : ℤ) (now : ℕ)
    → pos 0 ≤ℤ amount
    → IsValid m
    → IsValid (delegate m d v amount now).0
delegate-IsValid m d v amount now p h = elim (Option-cases (lookup v m.stakes)) [
  | inl e ↦ rw (delegate_unknown m d v amount now e) h
  | inr (s, e) ↦
      let sound = stake-IsSound m v s h e in
      elim (Bool-cases s.is_active) [
        | inl active ↦ rw (delegate_active m d v amount now e active) (
            put-IsValid m v (record s { amount = s.amount +ℤ amount }) _ h
              (record {
                nonneg = omega int_laws;
                funded = λ on. omega (int_laws, sound.funded on);
              }))
        | inr off ↦ rw (delegate_inactive m d v amount now e off) h
      ]
]

slashed-IsSound :
    (min_stake : ℤ) (s : Stake) (cut : ℤ)
    → cut ≤ℤ s.amount
    → IsSound min_stake s
    → IsSound min_stake (slashed min_stake s cut)
slashed-IsSound min_stake s cut fits h = record {
  nonneg = omega int_laws;
  funded = λ on. ground arith;
}

pub slash-IsValid :
    (m : Manager) (v : ℕ) (percentage : Float)
    → IsPercentage percentage
    → IsValid m
    → IsValid (slash m v percentage).0
slash-IsValid m v percentage p h = elim (Option-cases (lookup v m.stakes)) [
  | inl e ↦ rw (slash_unknown m v percentage e) h
  | inr (s, e) ↦
      let sound = stake-IsSound m v s h e in
      let (cut, c, fits) = slash_cut s.amount percentage sound.nonneg p in
      rw (slash_known m v percentage e c) (
        put-IsValid m v (slashed m.min_stake s (pos cut)) m.delegations h
          (slashed-IsSound m.min_stake s (pos cut) fits sound))
]
