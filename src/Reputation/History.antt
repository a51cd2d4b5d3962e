-- ===== src/Reputation/History.antt =====
-- Sequences of calls of the reputation manager, and the bounds that hold after any of them.
pub mod Entry
use inso_validator.Reputation.History.Entry.{
  IsBounded, Every-mono, add_xp-IsBounded, missed-IsBounded, decay_all-Every,
}
use inso_validator.Prelude.{
  ℕ, suc, ◌+◌, ◌≤◌, ◌<◌, ◌≡◌, ◌^◌, ◌/◌, refl, List, [], ◌∷◌, some, inl, inr, Option-cases,
  Bool-cases, arith, length,
}
use inso_validator.Prelude.Dict.{Dict, lookup, insert, contains, Every, Every-lookup, Every-insert}
use inso_validator.Prelude.Word.{add_u64, mul_u64}
use inso_validator.Float.{Float}
use native.Mathlib.Nat.{div-le_of_le-mul, le_trans, add-zero, zero-add}
use inso_validator.Reputation.{
  XpConfig, ValidatorReputation, Manager, new_manager, register, add_xp, remove_xp, update_uptime,
  update, record_attestation, record_missed_block, record_slash, record_uptime_check,
  compute_sovereignty, decayed, decay_all, apply_decay,
}

pub data Event : Type 0 where
  registers attests checks : ℕ → ℕ → Event
  misses slashes : ℕ → Event
  computes : ℕ → Float → Float → ℕ → Event
  decays : Event

unfoldable pub step : (Float → ℕ) → Manager → Event → Manager
step other m (registers addr now) = register m addr now
step other m (attests addr now) = record_attestation m addr now
step other m (checks addr now) = record_uptime_check m addr now
step other m (misses addr) = record_missed_block m addr
step other m (slashes addr) = record_slash m addr
step other m (computes addr stake taste_score now) =
    (compute_sovereignty m addr stake taste_score now).0
step other m decays = apply_decay other m

unfoldable pub run : (Float → ℕ) → Manager → List Event → Manager
run other m [] = m
run other m (e ∷ es) = run other (step other m e) es

module _ (other : Float → ℕ) (cfg : XpConfig) where
  -- The bound on every entry of a manager with this configuration.
  pub record IsValid (n : ℕ) (m : Manager) : Type 0 where
    pub config : m.cfg ≡ cfg
    pub bounded : Every (IsBounded cfg.max_xp n) m.reps

  update-IsValid :
      (m : Manager) (n addr : ℕ) (f : ValidatorReputation → ValidatorReputation)
      → ((rep : ValidatorReputation)
          → IsBounded cfg.max_xp n rep
          → IsBounded cfg.max_xp (n + 1) (f rep))
      → IsValid n m
      → IsValid (n + 1) (update m addr f)
  update-IsValid m n addr f keep h = elim (Option-cases (lookup addr m.reps)) [
    | inl e ↦
        rw (e, update)
          (record { config = h.config; bounded = Every-mono cfg.max_xp n m.reps h.bounded })
    | inr (rep, e) ↦
        rw (e, update)
          (record {
            config = h.config;
            bounded =
                Every-insert (IsBounded cfg.max_xp (n + 1)) addr (f rep) m.reps
                  (Every-mono cfg.max_xp n m.reps h.bounded)
                  (keep rep (Every-lookup (IsBounded cfg.max_xp n) addr rep m.reps h.bounded e));
          })
  ]

  put-IsValid :
      (m : Manager) (n addr : ℕ) (rep : ValidatorReputation)
      → IsBounded cfg.max_xp (n + 1) rep
      → IsValid n m
      → IsValid (n + 1) (record m { reps = insert addr rep m.reps })
  put-IsValid m n addr rep b h = record {
    config = h.config;
    bounded =
        Every-insert (IsBounded cfg.max_xp (n + 1)) addr rep m.reps
          (Every-mono cfg.max_xp n m.reps h.bounded) b;
  }

  later : (m : Manager) (n : ℕ) → IsValid n m → IsValid (n + 1) m
  later m n h = record { config = h.config; bounded = Every-mono cfg.max_xp n m.reps h.bounded }

  attest-IsValid :
      (m : Manager) (n addr now : ℕ) → IsValid n m → IsValid (n + 1) (record_attestation m addr now)
  unfolding record_attestation
  attest-IsValid m n addr now h =
      update-IsValid m n addr _
        (λ rep b. rw h.config (add_xp-IsBounded cfg _ _ (n + 1) b.uptime_le (omega arith))) h

  check-IsValid :
      (m : Manager) (n addr now : ℕ)
      → IsValid n m
      → IsValid (n + 1) (record_uptime_check m addr now)
  unfolding record_uptime_check
  check-IsValid m n addr now h =
      update-IsValid m n addr _
        (λ rep b. rw h.config (add_xp-IsBounded cfg _ _ (n + 1) b.uptime_le (omega arith))) h

  slash-IsValid : (m : Manager) (n addr : ℕ) → IsValid n m → IsValid (n + 1) (record_slash m addr)
  unfolding record_slash remove_xp
  slash-IsValid m n addr h = update-IsValid m n addr _ (λ rep b. ground arith) h

  miss-IsValid :
      (m : Manager) (n addr : ℕ)
      → n + 1 < 2 ^ 64
      → IsValid n m
      → IsValid (n + 1) (record_missed_block m addr)
  unfolding record_missed_block
  miss-IsValid m n addr fits h =
      update-IsValid m n addr _ (λ rep b. missed-IsBounded cfg.max_xp n rep fits b) h

  compute-IsValid :
      (m : Manager) (n addr now : ℕ) (stake taste_score : Float)
      → IsValid n m
      → IsValid (n + 1) (compute_sovereignty m addr stake taste_score now).0
  unfolding compute_sovereignty
  compute-IsValid m n addr now stake taste_score h = elim (Option-cases (lookup addr m.reps)) [
    | inl e ↦ rw (e, compute_sovereignty) (later m n h)
    | inr (rep, e) ↦
        let old = Every-lookup (IsBounded cfg.max_xp n) addr rep m.reps h.bounded e in
        rw (e, compute_sovereignty) (put-IsValid m n addr _ (ground arith) h)
  ]

  register-IsValid :
      (m : Manager) (n addr now : ℕ) → IsValid n m → IsValid (n + 1) (register m addr now)
  unfolding register
  register-IsValid m n addr now h = elim (Bool-cases (contains addr m.reps)) [
    | inl old ↦ rw old (later m n h)
    | inr new ↦ rw new (put-IsValid m n addr _ (ground arith) h)
  ]

  decay-IsValid : (m : Manager) (n : ℕ) → IsValid n m → IsValid (n + 1) (apply_decay other m)
  unfolding apply_decay
  decay-IsValid m n h = record {
    config = h.config;
    bounded =
        Every-mono cfg.max_xp n _
          (decay_all-Every other m.cfg.decay_rate_per_day cfg.max_xp n m.reps h.bounded);
  }

  step-IsValid :
      (m : Manager) (n : ℕ) (e : Event)
      → n + 1 < 2 ^ 64
      → IsValid n m
      → IsValid (n + 1) (step other m e)
  unfolding step
  step-IsValid m n (registers addr now) fits h = register-IsValid m n addr now h
  step-IsValid m n (attests addr now) fits h = attest-IsValid m n addr now h
  step-IsValid m n (checks addr now) fits h = check-IsValid m n addr now h
  step-IsValid m n (misses addr) fits h = miss-IsValid m n addr fits h
  step-IsValid m n (slashes addr) fits h = slash-IsValid m n addr h
  step-IsValid m n (computes addr stake taste_score now) fits h =
      compute-IsValid m n addr now stake taste_score h
  step-IsValid m n decays fits h = decay-IsValid m n h

  run_from :
      (m : Manager) (n : ℕ) (es : List Event)
      → n + length es < 2 ^ 64
      → IsValid n m
      → IsValid (n + length es) (run other m es)
  unfolding run
  run_from m n [] fits h = rw add-zero h
  run_from m n (e ∷ es) fits h =
      let counted : n + suc (length es) ≡ n + 1 + length es = omega arith in
      rw counted
        (run_from (step other m e) (n + 1) es (omega arith) (step-IsValid m n e (omega arith) h))

  -- From an empty manager, after any history of fewer than 2 ^ 64 calls, every validator has at most
  -- the configured maximum of XP and at most 10000 basis points of uptime, and its counters of
  -- attested and missed blocks add up to at most the number of calls.
  pub run-IsBounded :
      (es : List Event)
      → length es < 2 ^ 64
      → Every (IsBounded cfg.max_xp (length es)) (run other (new_manager (some cfg)) es).reps
  run-IsBounded es fits =
      let valid =
        run_from (new_manager (some cfg)) 0 es (omega arith)
          (unfold new_manager in record { config = refl; bounded = tt }) in
      (rw zero-add at valid).bounded
