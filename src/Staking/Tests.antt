-- ===== src/Staking/Tests.antt =====
-- The staking manager on concrete inputs.
use inso_validator.Prelude.{
  ℕ, ◌*◌, ◌^◌, ◌≡◌, ◌≢◌, ◌↔◌, refl, true, false, List, [], ◌∷◌, some, arith,
}
use inso_validator.Prelude.Int.{pos, ◌+ℤ◌, ◌≤ℤ◌}
use inso_validator.Prelude.Dict.{lookup}
use inso_validator.Prelude.Word.{wrap_int}
use inso_validator.Float.{const, quotient, pack, half_limit, round_fuel, overflow, unit, le}
use inso_validator.Float.Round.{round}
use inso_validator.Staking.{
  Stake, Manager, ok, new_manager, register, delegate, slash, total_staked,
}
use inso_validator.Staking.Invariant.{IsSound, IsValid, IsPercentage}
use inso_validator.Staking.Commands.{
  Command, registers, delegates, slashes, run, run-IsValid, slash_effect,
}
use inso_validator.Staking.Ledger.Deposits.{credited, deposits_total}
use inso_validator.Staking.Ledger.{run-IsInactive, IsInactive}

-- Ten INSO at stake where one is the minimum.
abbrev ten_inso : Stake
ten_inso = record {
  validator = 7;
  amount = pos (10 * 10 ^ 18);
  staked_at = 1;
  is_active = true;
  rewards = pos 0;
  slash_count = pos 0;
}

abbrev idle : Stake
idle = record ten_inso { is_active = false; validator = 8; amount = pos 3 }

abbrev one_active : Manager
one_active = record {
  stakes = (7, ten_inso) ∷ (8, idle) ∷ [];
  delegations = [];
  min_stake = pos (10 ^ 18);
}

abbrev history : List Command
history =
    registers 7 (pos (10 * 10 ^ 18)) 1
    ∷ delegates 9 7 (pos (10 ^ 18)) 2
    ∷ slashes 7 (const 10 1)
    ∷ registers 7 (pos 5) 3
    ∷ []

ten_percent : IsPercentage (const 10 1)
unfolding const quotient pack round half_limit round_fuel overflow unit le
ten_percent = (tt, refl)

ten-IsSound : IsSound (pos (10 ^ 18)) ten_inso
ten-IsSound = record { nonneg = omega arith; funded = λ _. omega arith }

idle-IsSound : IsSound (pos (10 ^ 18)) idle
idle-IsSound = record { nonneg = omega arith; funded = λ on. absurd (cc) }

one_active-IsValid : IsValid one_active
one_active-IsValid = record {
  unique = (refl, (refl, tt));
  sound = (ten-IsSound, (idle-IsSound, tt));
  positive = omega arith;
}

run-IsValid_example : IsValid (run (new_manager 1) history)
run-IsValid_example = run-IsValid 1 history (tt, (omega arith, (ten_percent, (tt, tt))))

slash_effect_example :
    let (m', outcome) = slash one_active 7 (const 10 1) in
    (outcome ≡ ok)
    × (m'.delegations ≡ one_active.delegations)
    × ((w : ℕ) → w ≢ 7 → lookup w m'.stakes ≡ lookup w one_active.stakes)
    × (s' : Stake) × (lookup 7 m'.stakes ≡ some s')
    × (pos 0 ≤ℤ s'.amount)
    × (s'.amount ≤ℤ ten_inso.amount)
    × (s'.slash_count ≡ wrap_int (ten_inso.slash_count +ℤ pos 1))
    × ((s'.is_active ≡ true) ↔ ((ten_inso.is_active ≡ true) × (one_active.min_stake ≤ℤ s'.amount)))
slash_effect_example =
    slash_effect one_active 7 (const 10 1) ten_inso one_active-IsValid ten_percent refl

run-IsInactive_example : IsInactive (run one_active history) 8
run-IsInactive_example = run-IsInactive one_active 8 history (idle, refl, refl)

deposits_total_example :
    (total_staked (register one_active 7 (pos 5) 6).0
      ≡ credited (total_staked one_active) (pos 5) (register one_active 7 (pos 5) 6).1)
    × (total_staked (delegate one_active 4 7 (pos 5) 6).0
        ≡ credited (total_staked one_active) (pos 5) (delegate one_active 4 7 (pos 5) 6).1)
deposits_total_example = deposits_total one_active 4 7 (pos 5) 6
