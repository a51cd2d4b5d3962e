-- ===== src/Staking/Commands.antt =====
-- Sequences of calls of the staking manager: what holds after any history.
use inso_validator.Prelude.{
  ℕ, ◌≡◌, ◌≢◌, refl, ◌↔◌, true, List, [], ◌∷◌, none, some, inl, inr, Option-cases, Bool-cases,
  arith, All,
}
use inso_validator.Prelude.Int.{ℤ, pos, ◌+ℤ◌, ◌≤ℤ◌, ltb_ℤ, int_laws}
use inso_validator.Prelude.Word.{wrap_int}
use inso_validator.Prelude.Dict.{lookup, lookup-insert_self, lookup-insert_ne}
use inso_validator.Float.{Float}
use inso_validator.Staking.{Stake, Manager, ok, new_manager, register, delegate, slash, slashed}
use inso_validator.Staking.Branches.{register_low, register_known, register_new, slash_known}
use inso_validator.Staking.Invariant.{
  IsValid, IsPercentage, stake-IsSound, slash_cut, new_manager-IsValid, register-IsValid,
  delegate-IsValid, slash-IsValid,
}

pub data Command : Type 0 where
  registers : ℕ → ℤ → ℕ → Command
  delegates : ℕ → ℕ → ℤ → ℕ → Command
  slashes : ℕ → Float → Command

unfoldable pub apply : Manager → Command → Manager
apply m (registers v amount now) = (register m v amount now).0
apply m (delegates d v amount now) = (delegate m d v amount now).0
apply m (slashes v percentage) = (slash m v percentage).0

unfoldable pub run : Manager → List Command → Manager
run m [] = m
run m (c ∷ cs) = run (apply m c) cs

-- The callers delegate no negative amounts and slash by percentages.
abbrev pub IsAdmissible : Command → Type 0
IsAdmissible (registers v amount now) = Unit
IsAdmissible (delegates d v amount now) = pos 0 ≤ℤ amount
IsAdmissible (slashes v percentage) = IsPercentage percentage

apply-IsValid : (m : Manager) (c : Command) → IsAdmissible c → IsValid m → IsValid (apply m c)
unfolding apply
apply-IsValid m (registers v amount now) a h = register-IsValid m v amount now h
apply-IsValid m (delegates d v amount now) a h = delegate-IsValid m d v amount now a h
apply-IsValid m (slashes v percentage) a h = slash-IsValid m v percentage a h

run_keeps : (m : Manager) (cs : List Command) → All IsAdmissible cs → IsValid m → IsValid (run m cs)
unfolding run
run_keeps m [] a h = h
run_keeps m (c ∷ cs) (a, as') h = run_keeps (apply m c) cs as' (apply-IsValid m c a h)

-- After any history of registrations, delegations of amounts that are not negative and slashes by 0
-- to 100 percent, no position is negative, every active position holds at least the minimum stake,
-- and no validator has two positions.
pub run-IsValid :
    (min_stake_inso : ℕ) (cs : List Command)
    → All IsAdmissible cs
    → IsValid (run (new_manager min_stake_inso) cs)
run-IsValid n cs a = run_keeps (new_manager n) cs a (new_manager-IsValid n)

-- `Register` succeeds exactly when the amount is at least the minimum and the validator has no
-- position yet.
pub register_ok_iff :
    (m : Manager) (v : ℕ) (amount : ℤ) (now : ℕ)
    → ((register m v amount now).1 ≡ ok) ↔ ((m.min_stake ≤ℤ amount) × (lookup v m.stakes ≡ none))
register_ok_iff m v amount now = elim (Bool-cases (ltb_ℤ amount m.min_stake)) [
  | inl low ↦ rw (register_low m v amount now low) (λ e. absurd (cc), λ h. absurd (ground arith))
  | inr enough ↦ elim (Option-cases (lookup v m.stakes)) [
    | inl e ↦ rw (register_new m v amount now enough e) (λ _. (ground arith, e), λ _. refl)
    | inr (s, e) ↦
        rw (register_known m v amount now enough e) (λ h. absurd (cc), λ h. absurd (cc (h.1)))
  ]
]

-- What a slash by 0 to 100 percent does to a known validator of a valid manager: it returns nil,
-- takes between nothing and all of the amount, counts the slash, leaves the position active exactly
-- if it was and still holds the minimum, and touches neither the delegations nor another validator.
pub slash_effect :
    (m : Manager) (v : ℕ) (percentage : Float) (s : Stake)
    → IsValid m
    → IsPercentage percentage
    → lookup v m.stakes ≡ some s
    → let (m', outcome) = slash m v percentage in
      (outcome ≡ ok)
      × (m'.delegations ≡ m.delegations)
      × ((w : ℕ) → w ≢ v → lookup w m'.stakes ≡ lookup w m.stakes)
      × (s' : Stake) × (lookup v m'.stakes ≡ some s')
      × (pos 0 ≤ℤ s'.amount)
      × (s'.amount ≤ℤ s.amount)
      × (s'.slash_count ≡ wrap_int (s.slash_count +ℤ pos 1))
      × ((s'.is_active ≡ true) ↔ ((s.is_active ≡ true) × (m.min_stake ≤ℤ s'.amount)))
slash_effect m v percentage s h p e =
    let sound = stake-IsSound m v s h e in
    let (cut, c, fits) = slash_cut s.amount percentage sound.nonneg p in
    let s' = slashed m.min_stake s (pos cut) in
    rw (slash_known m v percentage e c) (
      refl,
      refl,
      λ w ne. lookup-insert_ne w v s' m.stakes ne,
      s',
      lookup-insert_self v s' m.stakes,
      omega int_laws,
      omega int_laws,
      refl,
      (λ on. (ground arith, ground arith), λ k. ground (arith, k.0, k.1)),
    )
