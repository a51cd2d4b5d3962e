-- ===== src/Consensus/Local.antt =====
-- Which attestations an engine counts: only those that it makes itself. Those of the peers are logged.
use inso_validator.Prelude.{
  ℕ, ◌*◌, ◌<◌, ◌≡◌, ◌≢◌, refl, ap, ◌∙◌, Bool, true, false, List, [], ◌∷◌, Option, none, arith, inl,
  inr, Bool-cases, Option-cases, All, All-append,
}
use inso_validator.Prelude.Int.{ℤ}
use inso_validator.Prelude.Dict.{Dict, lookup, lookup-insert_ne, Every, Every-insert, Every-lookup}
use inso_validator.Float.Round.{round, round-le, small}
use inso_validator.Float.Order.{IsNonneg, half_limit_pos}
use inso_validator.Float.{
  Float, inf, nan, fin, abs, is_neg, half_limit, round_fuel, pack, overflow, unit, div, lt, is_zero,
  const, quotient,
}
use inso_validator.External.{Signing}
use inso_validator.P2P.{Message}
use inso_validator.Reputation.{Manager as RepManager}
use inso_validator.Consensus.{
  ValidatorInfo, Attestation, Engine, new_engine, register_validator, total_power, attested_power,
  power_of, zero_power, quorum, has_quorum, is_finalized, attestations_of, attest_block,
  process_message,
}
use inso_validator.Consensus.Finality.{process_message-same, is_finalized-quorum, bound-IsNonneg}

abbrev pub IsBy : ℕ → Attestation → Type 0
IsBy addr att = att.validator ≡ addr

abbrev pub AllBy : ℕ → List Attestation → Type 0
AllBy addr atts = All (IsBy addr) atts

-- The node's address stays, its recorded attestations are its own, and it is not a validator.
pub record IsOutsider (addr : ℕ) (e : Engine) : Type 0 where
  pub address : e.local_addr ≡ addr
  pub own : Every (AllBy addr) e.attestations
  pub unregistered : lookup addr e.validators ≡ none

-- No attestation of a validator that is not registered counts.
attested_power-none :
    (validators : Dict ValidatorInfo) (addr : ℕ) (atts : List Attestation)
    → lookup addr validators ≡ none
    → AllBy addr atts
    → attested_power validators zero_power atts ≡ zero_power
unfolding attested_power power_of
attested_power-none validators addr [] h a = refl
attested_power-none validators addr (att ∷ atts) h (by, a) =
    let missing : lookup att.validator validators ≡ none = ap (λ x. lookup x validators) by ∙ h in
    rw (missing, power_of) (attested_power-none validators addr atts h a)

no_units : (den : ℕ) → 0 < den → round (2 * half_limit) round_fuel 0 den ≡ 0
no_units den d = omega (
  arith,
  round-le half_limit half_limit_pos round_fuel 0 0 den d (small 0 (omega arith)) (omega arith),
)

quotient-zero : (neg : Bool) (den : ℕ) → 0 < den → quotient neg 0 den ≡ zero_power
unfolding quotient pack overflow
quotient-zero true den d = rw (no_units den d) refl
quotient-zero false den d = rw (no_units den d) refl

not_below_zero : (b : Float) → IsNonneg b → lt b zero_power ≡ false
unfolding lt
not_below_zero b h = ground arith

share : (b : ℤ) → is_zero (fin b) ≡ false → div zero_power (fin b) ≡ zero_power
unfolding is_zero div unit
share b z = rw z (quotient-zero (is_neg b) (abs b) (ground arith))

-- No share of anything exceeds two thirds if it is a share of nothing.
div-zero : (t : Float) → is_zero t ≡ false → lt (const 2 3) (div zero_power t) ≡ false
div-zero (fin b) nonzero = rw (share b nonzero) (not_below_zero (const 2 3) bound-IsNonneg)
div-zero (inf t) nonzero = unfold div in not_below_zero (const 2 3) bound-IsNonneg
div-zero nan nonzero = unfold div lt in ground arith

quorum-none :
    (visits : List ValidatorInfo) (validators : Dict ValidatorInfo) (addr : ℕ)
    (atts : List Attestation)
    → lookup addr validators ≡ none
    → AllBy addr atts
    → quorum visits validators atts ≡ false
unfolding quorum
quorum-none visits validators addr [] h a = refl
quorum-none visits validators addr (att ∷ atts) h a =
    rw (attested_power-none validators addr (att ∷ atts) h a)
      elim (Bool-cases (is_zero (total_power zero_power visits))) [
        | inl idle ↦ rw idle refl
        | inr some_power ↦ rw some_power (div-zero _ some_power)
      ]

attestations_of-AllBy :
    (addr : ℕ) (e : Engine) (n : ℕ)
    → Every (AllBy addr) e.attestations
    → AllBy addr (attestations_of e n)
unfolding attestations_of
attestations_of-AllBy addr e n own = elim (Option-cases (lookup n e.attestations)) [
  | inl nothing ↦ rw (nothing, attestations_of) tt
  | inr (atts, found) ↦
      rw (found, attestations_of) (Every-lookup (AllBy addr) n atts e.attestations own found)
]

module _ (c : Signing) where
  -- Everything that can happen to an engine.
  pub data Command : Type 0 where
    register : ℕ → ℤ → Float → ℕ → Command
    attest : ℕ → ℕ → ℕ → Command
    check : List ValidatorInfo → ℕ → Command
    receive : Message → Command

  abbrev pub apply : Engine → Command → Engine
  apply e (register addr stake taste_score now) = register_validator e addr stake taste_score now
  apply e (attest block_num block_hash now) = (attest_block c e block_num block_hash now).0
  apply e (check visits block_num) = (is_finalized e visits block_num).0
  apply e (receive msg) = process_message e msg

  abbrev pub run : Engine → List Command → Engine
  run e [] = e
  run e (m ∷ ms) = run (apply e m) ms

  -- The command does not register this address.
  abbrev pub IsNotOf : ℕ → Command → Type 0
  IsNotOf addr (register a stake taste_score now) = addr ≢ a
  IsNotOf addr _ = Unit

  check-IsOutsider :
      (addr : ℕ) (e : Engine) (visits : List ValidatorInfo) (block_num : ℕ)
      → IsOutsider addr e
      → IsOutsider addr (is_finalized e visits block_num).0
  unfolding is_finalized
  check-IsOutsider addr e visits block_num h = elim (Bool-cases (has_quorum e visits block_num)) [
    | inl final ↦
        rw (final, is_finalized)
          (record { address = h.address; own = h.own; unregistered = h.unregistered })
    | inr below ↦ rw (below, is_finalized) h
  ]

  apply-IsOutsider :
      (addr : ℕ) (e : Engine) (m : Command)
      → IsNotOf addr m
      → IsOutsider addr e
      → IsOutsider addr (apply e m)
  apply-IsOutsider addr e (register a stake taste_score now) other h =
      unfold register_validator in
      record {
        address = h.address;
        own = h.own;
        unregistered = lookup-insert_ne addr a _ e.validators other ∙ h.unregistered;
      }
  apply-IsOutsider addr e (attest block_num block_hash now) other h =
      unfold attest_block in
      record {
        address = h.address;
        own = Every-insert (AllBy addr) block_num _ e.attestations h.own (
            All-append (IsBy addr) (attestations_of e block_num) _
              (attestations_of-AllBy addr e block_num h.own) (h.address, tt));
        unregistered = h.unregistered;
      }
  apply-IsOutsider addr e (check visits block_num) other h =
      check-IsOutsider addr e visits block_num h
  apply-IsOutsider addr e (receive msg) other h = rw (process_message-same c e msg) h

  run-IsOutsider :
      (addr : ℕ) (e : Engine) (ms : List Command)
      → All (IsNotOf addr) ms
      → IsOutsider addr e
      → IsOutsider addr (run e ms)
  run-IsOutsider addr e [] a h = h
  run-IsOutsider addr e (m ∷ ms) (other, a) h =
      run-IsOutsider addr (apply e m) ms a (apply-IsOutsider addr e m other h)

  -- An engine whose own address is never registered as a validator finalizes no block, whichever other
  -- validators are registered, whatever it attests, whatever attestations arrive from peers and in
  -- whatever order the validators are visited: only its own attestations are recorded.
  pub never_final :
      (slashing : Bool) (addr key : ℕ) (rep_mgr : Option RepManager) (ms : List Command)
      (visits : List ValidatorInfo) (block_num : ℕ)
      → All (IsNotOf addr) ms
      → (is_finalized (run (new_engine slashing addr rep_mgr key) ms) visits block_num).1 ≡ false
  never_final slashing addr key rep_mgr ms visits block_num others =
      let start : IsOutsider addr (new_engine slashing addr rep_mgr key) =
        unfold new_engine in record { address = refl; own = tt; unregistered = refl } in
      let end = run-IsOutsider addr (new_engine slashing addr rep_mgr key) ms others start in
      let e = run (new_engine slashing addr rep_mgr key) ms in
      is_finalized-quorum c e visits block_num
      ∙ unfold has_quorum in
        quorum-none visits e.validators addr (attestations_of e block_num) end.unregistered
          (attestations_of-AllBy addr e block_num end.own)
