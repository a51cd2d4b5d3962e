-- ===== src/Node/Start.antt =====
-- The registration of the node itself at start-up.
use inso_validator.Prelude.{ℕ, ◌*◌, ◌^◌, ◌<◌, ◌≡◌, ◌↔◌, refl, ltb, arith, inl, inr, Bool-cases}
use inso_validator.Prelude.Int.{pos, ◌≤ℤ◌}
use inso_validator.Prelude.Word.{IsU64}
use inso_validator.Staking.{ok, new_manager}
use inso_validator.Staking.Commands.{register_ok_iff}
use inso_validator.Node.{int64_of, initial_stake, register_self}

-- The initial stake covers the minimum if the configured number fits `int64`, and only then, if it is
-- not zero.
covers : (n : ℕ) → IsU64 n → (pos (n * 10 ^ 18) ≤ℤ initial_stake n) ↔ (n < 2 ^ 63)
unfolding initial_stake int64_of
covers n fits = elim (Bool-cases (ltb n (2 ^ 63))) [
  | inl small ↦ rw small (ground arith)
  | inr large ↦ rw large (ground arith)
]

-- With a configured minimum stake n, a uint64, the node's own registration succeeds just if n is below
-- 2 ^ 63: the stake is converted to int64 and the minimum is not, so a larger n ends the start-up with
-- an error.
pub register_self_iff :
    (n addr now : ℕ) → IsU64 n → ((register_self n addr now).1 ≡ ok) ↔ (n < 2 ^ 63)
unfolding register_self new_manager
register_self_iff n addr now fits =
    let registers = register_ok_iff (new_manager n) addr (initial_stake n) now in
    (λ e. (covers n fits).0 (registers.0 e).0, λ small. registers.1 ((covers n fits).1 small, refl))
