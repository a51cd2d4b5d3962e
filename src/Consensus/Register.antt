-- ===== src/Consensus/Register.antt =====
-- Voting powers: none is negative or undefined after any history of the engine, and what follows for
-- finality in every engine that can be reached.
use inso_validator.Prelude.{
  ℕ, ◌<◌, ◌≤◌, ◌≡◌, Bool, true, List, [], ◌∷◌, Option, none, some, inl, inr, Bool-cases,
  Option-cases, All,
}
use inso_validator.Prelude.Int.{ℤ, pos, ◌≤ℤ◌}
use inso_validator.Prelude.Word.{IsU64}
use inso_validator.Prelude.Dict.{lookup, Every, Every-lookup, Every-insert}
use inso_validator.Float.{Float, lt}
use inso_validator.Float.Order.{IsNonneg}
use inso_validator.External.{Signing}
use inso_validator.Reputation.{
  ValidatorReputation, Manager as RepManager, compute_sovereignty, record_attestation, add_xp,
  update,
}
use inso_validator.Reputation.Score.{one}
use inso_validator.Reputation.Effects.{compute_sovereignty_lem}
use inso_validator.Consensus.{
  ValidatorInfo, Engine, new_engine, stake_ether, sovereignty, register_validator, attest_block,
  is_finalized, has_quorum,
}
use inso_validator.Consensus.Power.{HasPower, IsPowered, Visits}
use inso_validator.Consensus.Finality as Finality
use inso_validator.Consensus.Finality.{process_message-same, finality_kept}
use inso_validator.Consensus.Local.{Command, register, attest, check, receive, apply, run}
use inso_validator.Consensus.Weight.{zero_below_one, voting_power-IsNonneg, stake_ether-IsNonneg}

-- What the score needs of the reputation manager.
abbrev pub IsTimely : ValidatorReputation → Type 0
IsTimely rep = rep.uptime_bps ≤ 10000

abbrev pub IsScorable : Option RepManager → Type 0
IsScorable none = Unit
IsScorable (some m) = (0 < m.cfg.max_xp) × IsU64 m.cfg.max_xp × Every IsTimely m.reps

compute-IsScorable :
    (m : RepManager) (addr now : ℕ) (stake taste_score : Float)
    → IsScorable (some m)
    → IsScorable (some (compute_sovereignty m addr stake taste_score now).0)
unfolding compute_sovereignty
compute-IsScorable m addr now stake taste_score (p, fits, timely) =
    elim (Option-cases (lookup addr m.reps)) [
      | inl missing ↦ rw (missing, compute_sovereignty) (p, fits, timely)
      | inr (rep, found) ↦
          rw (found, compute_sovereignty)
            (
              p,
              fits,
              Every-insert IsTimely addr _ m.reps timely
                  (Every-lookup IsTimely addr rep m.reps timely found),
            )
    ]

compute_range :
    (m : RepManager) (addr now : ℕ) (stake taste_score : Float)
    → IsScorable (some m)
    → IsNonneg taste_score
    → IsNonneg (compute_sovereignty m addr stake taste_score now).1
      × (lt (compute_sovereignty m addr stake taste_score now).1 one ≡ true)
unfolding compute_sovereignty
compute_range m addr now stake taste_score (p, fits, timely) t =
    elim (Option-cases (lookup addr m.reps)) [
      | inl missing ↦ rw (missing, compute_sovereignty) (tt, zero_below_one)
      | inr (rep, found) ↦
          let (lo, hi, tier, sets) =
            compute_sovereignty_lem m addr now stake taste_score rep p fits
              (Every-lookup IsTimely addr rep m.reps timely found) t found in
          (lo, hi)
    ]

score_range :
    (o : Option RepManager) (addr now : ℕ) (stake taste_score : Float)
    → IsScorable o
    → IsNonneg taste_score
    → IsNonneg (sovereignty o addr stake taste_score now).1
      × (lt (sovereignty o addr stake taste_score now).1 one ≡ true)
unfolding sovereignty
score_range none addr now stake taste_score h t = (tt, zero_below_one)
score_range (some m) addr now stake taste_score h t = compute_range m addr now stake taste_score h t

next-IsScorable :
    (o : Option RepManager) (addr now : ℕ) (stake taste_score : Float)
    → IsScorable o
    → IsScorable (sovereignty o addr stake taste_score now).0
unfolding sovereignty
next-IsScorable none addr now stake taste_score h = tt
next-IsScorable (some m) addr now stake taste_score h =
    compute-IsScorable m addr now stake taste_score h

attest-IsScorable :
    (m : RepManager) (addr now : ℕ)
    → IsScorable (some m)
    → IsScorable (some (record_attestation m addr now))
unfolding record_attestation add_xp
attest-IsScorable m addr now (p, fits, timely) = elim (Option-cases (lookup addr m.reps)) [
  | inl missing ↦ rw (missing, update) (p, fits, timely)
  | inr (rep, found) ↦
      rw (found, update)
        (
          p,
          fits,
          Every-insert IsTimely addr _ m.reps timely
              (Every-lookup IsTimely addr rep m.reps timely found),
        )
]

abbrev pub IsReady : Engine → Type 0
IsReady e = IsPowered e.validators × IsScorable e.rep_mgr

register-IsReady :
    (e : Engine) (addr now : ℕ) (stake : ℤ) (taste_score : Float)
    → pos 0 ≤ℤ stake
    → IsNonneg taste_score
    → IsReady e
    → IsReady (register_validator e addr stake taste_score now)
unfolding register_validator
register-IsReady e addr now stake taste_score s t (powered, scorable) =
    let (lo, hi) = score_range e.rep_mgr addr now (stake_ether stake) taste_score scorable t in
    (
      Every-insert HasPower addr _ e.validators powered
          (voting_power-IsNonneg (stake_ether stake) _ (stake_ether-IsNonneg stake s) lo hi),
      next-IsScorable e.rep_mgr addr now (stake_ether stake) taste_score scorable,
    )

module _ (c : Signing) where
  -- Stakes and TasteScores are not negative.
  abbrev pub IsAdmissible : Command c → Type 0
  IsAdmissible (register addr stake taste_score now) = (pos 0 ≤ℤ stake) × IsNonneg taste_score
  IsAdmissible _ = Unit

  attested-IsScorable :
      (o : Option RepManager) (addr now : ℕ)
      → IsScorable o
      → IsScorable (elim o [ none ↦ none | some m ↦ some (record_attestation m addr now) ])
  attested-IsScorable none addr now h = tt
  attested-IsScorable (some m) addr now h = attest-IsScorable m addr now h

  attest-IsReady :
      (e : Engine) (block_num block_hash now : ℕ)
      → IsReady e
      → IsReady (attest_block c e block_num block_hash now).0
  unfolding attest_block
  attest-IsReady e block_num block_hash now (powered, scorable) =
      (powered, attested-IsScorable e.rep_mgr e.local_addr now scorable)

  check-IsReady :
      (e : Engine) (visits : List ValidatorInfo) (n : ℕ)
      → IsReady e
      → IsReady (is_finalized e visits n).0
  unfolding is_finalized
  check-IsReady e visits n h = elim (Bool-cases (has_quorum e visits n)) [
    | inl final ↦ rw (final, is_finalized) h
    | inr below ↦ rw (below, is_finalized) h
  ]

  apply-IsReady : (e : Engine) (m : Command c) → IsAdmissible m → IsReady e → IsReady (apply c e m)
  apply-IsReady e (register addr stake taste_score now) (s, t) h =
      register-IsReady e addr now stake taste_score s t h
  apply-IsReady e (attest block_num block_hash now) a h =
      attest-IsReady e block_num block_hash now h
  apply-IsReady e (check visits n) a h = check-IsReady e visits n h
  apply-IsReady e (receive msg) a h = rw (process_message-same c e msg) h

  run-IsReady :
      (e : Engine) (ms : List (Command c))
      → All (IsAdmissible) ms
      → IsReady e
      → IsReady (run c e ms)
  run-IsReady e [] a h = h
  run-IsReady e (m ∷ ms) (first, a) h = run-IsReady (apply c e m) ms a (apply-IsReady e m first h)

  -- In every engine that is reached from a new one by registering validators with stakes and TasteScores
  -- that are not negative, by attesting, by asking and by messages, a block that is final when the
  -- validators are visited in some order is final in that same order whatever is then attested, asked
  -- or received, until another validator is registered; so a block that is final in every order stays
  -- final in every order. The reputation manager, if there is one, has a maximum of at least 1 that
  -- fits 64 bits and uptimes within 10000 basis points. The powers are the float64 values that the code
  -- computes from stake and score, and their sum depends on the order.
  pub reached_finality_kept :
      (slashing : Bool) (addr key : ℕ) (rep_mgr : Option RepManager) (ms : List (Command c))
      (events : List (Finality.Event c)) (visits : List ValidatorInfo) (block_num : ℕ)
      → IsScorable rep_mgr
      → All (IsAdmissible) ms
      → (let e = run c (new_engine slashing addr rep_mgr key) ms in
          Visits e.validators visits
          → (is_finalized e visits block_num).1 ≡ true
          → (is_finalized (Finality.run c e events) visits block_num).1 ≡ true)
  reached_finality_kept slashing addr key rep_mgr ms events visits block_num scorable admissible r
        final =
      let start : IsReady (new_engine slashing addr rep_mgr key) =
        unfold new_engine in (tt, scorable) in
      let ready = run-IsReady (new_engine slashing addr rep_mgr key) ms admissible start in
      finality_kept c (run c (new_engine slashing addr rep_mgr key) ms) visits events block_num
        ready.0 r final
