-- ===== src/Consensus/Finality.antt =====
-- Finality is not lost again while the set of validators stays as it is.
use inso_validator.Prelude.{
  append_nil, ℕ, ◌≡◌, refl, sym, ap, subst, ◌∙◌, Bool, true, false, List, [], ◌∷◌, ◌++◌, ◌==◌,
  if◌then◌else◌, arith, inl, inr, Bool-cases,
}
use inso_validator.Prelude.Dict.{Dict, lookup-insert}
use inso_validator.Float.{div, lt, is_zero, const}
use inso_validator.Float.Order.{IsNonneg, div-exceeds, quotient-IsNonneg}
use inso_validator.Float.Fixed.{zero-IsFixed}
use inso_validator.External.{Signing}
use inso_validator.P2P.{Message}
use inso_validator.Consensus.{
  ValidatorInfo, Attestation, Engine, total_power, attested_power, zero_power, quorum, has_quorum,
  is_finalized, attestations_of, attest_block, process_message, handle_attestation,
  handle_new_block, handle_slash_report,
}
use inso_validator.Consensus.Power.{
  IsPowered, Visits, total_power-IsNonneg, attested_power-grows, attested_power-append,
}

pub bound-IsNonneg : IsNonneg (const 2 3)
unfolding const
bound-IsNonneg = quotient-IsNonneg _ 3

exceeded : (z : Bool) (b : Bool) → (if z then false else b) ≡ true → (z ≡ false) × (b ≡ true)
exceeded z b h = ground arith

-- More attestations do not undo a quorum.
quorum-append :
    (visits : List ValidatorInfo) (validators : Dict ValidatorInfo) (atts more : List Attestation)
    → IsPowered validators
    → Visits validators visits
    → quorum visits validators atts ≡ true
    → quorum visits validators (atts ++ more) ≡ true
unfolding quorum
quorum-append visits validators [] more h r q = absurd (cc)
quorum-append visits validators (att ∷ atts) more h r q =
    let total = total_power zero_power visits in
    let before = attested_power validators zero_power (att ∷ atts) in
    let (nonzero, above) = exceeded (is_zero total) (lt (const 2 3) (div before total)) q in
    let (pos_before, fixed, up) =
      attested_power-grows validators h zero_power (att ∷ atts) tt zero-IsFixed in
    let (pos_after, fixed', grows) =
      attested_power-grows validators h before more pos_before fixed in
    rw (nonzero, attested_power-append validators h (att ∷ atts) more zero_power)
      (div-exceeds (const 2 3) before (attested_power validators before more) total bound-IsNonneg
        pos_before pos_after (total_power-IsNonneg validators visits zero_power h r tt) nonzero
        grows above)

module _ (c : Signing) where
  -- What leaves the set of validators alone.
  pub data Event : Type 0 where
    attest : ℕ → ℕ → ℕ → Event
    check : List ValidatorInfo → ℕ → Event
    receive : Message → Event

  abbrev pub step : Engine → Event → Engine
  step e (attest block_num block_hash now) = (attest_block c e block_num block_hash now).0
  step e (check visits block_num) = (is_finalized e visits block_num).0
  step e (receive msg) = process_message e msg

  abbrev pub run : Engine → List Event → Engine
  run e [] = e
  run e (ev ∷ evs) = run (step e ev) evs

  -- The validators stay, and the attestations of a block are only added to.
  abbrev Extends : ℕ → Engine → Engine → Type 0
  Extends n e e' =
      (e'.validators ≡ e.validators)
      × ((more : List Attestation) × (attestations_of e' n ≡ attestations_of e n ++ more))

  pub attestations_of-attest :
      (n : ℕ) (e : Engine) (block_num block_hash now : ℕ)
      → attestations_of (attest_block c e block_num block_hash now).0 n ≡ (
          if n == block_num
          then attestations_of e n ++ ((attest_block c e block_num block_hash now).1 ∷ [])
          else attestations_of e n)
  unfolding attest_block attestations_of
  attestations_of-attest n e block_num block_hash now = ground (
    arith,
    lookup-insert n block_num
        (attestations_of e block_num ++ ((attest_block c e block_num block_hash now).1 ∷ []))
        e.attestations,
  )

  attest-Extends :
      (n : ℕ) (e : Engine) (block_num block_hash now : ℕ)
      → Extends n e (attest_block c e block_num block_hash now).0
  attest-Extends n e block_num block_hash now = elim (Bool-cases (n == block_num)) [
    | inl same ↦ (
      unfold attest_block in refl,
      (
        (attest_block c e block_num block_hash now).1 ∷ [],
        attestations_of-attest n e block_num block_hash now ∙ rw same refl,
      ),
    )
    | inr other ↦ (
      unfold attest_block in refl,
      (
        [],
        attestations_of-attest n e block_num block_hash now
            ∙ rw other (sym (append_nil (attestations_of e n))),
      ),
    )
  ]

  check-Extends :
      (n : ℕ) (e : Engine) (visits : List ValidatorInfo) (block_num : ℕ)
      → Extends n e (is_finalized e visits block_num).0
  unfolding is_finalized attestations_of
  check-Extends n e visits block_num = elim (Bool-cases (has_quorum e visits block_num)) [
    | inl final ↦ rw final (refl, ([], sym (append_nil _)))
    | inr below ↦ rw below (refl, ([], sym (append_nil _)))
  ]

  pub process_message-same : (e : Engine) (msg : Message) → process_message e msg ≡ e
  unfolding process_message handle_attestation handle_new_block handle_slash_report
  process_message-same e msg = ground arith

  receive-Extends : (n : ℕ) (e : Engine) (msg : Message) → Extends n e (process_message e msg)
  receive-Extends n e msg =
      rw (process_message-same e msg) (refl, ([], sym (append_nil (attestations_of e n))))

  step-Extends : (n : ℕ) (e : Engine) (ev : Event) → Extends n e (step e ev)
  step-Extends n e (attest block_num block_hash now) = attest-Extends n e block_num block_hash now
  step-Extends n e (check visits block_num) = check-Extends n e visits block_num
  step-Extends n e (receive msg) = receive-Extends n e msg

  step-keeps :
      (visits : List ValidatorInfo) (n : ℕ) (e e' : Engine)
      → Extends n e e'
      → IsPowered e.validators
      → Visits e.validators visits
      → has_quorum e visits n ≡ true
      → IsPowered e'.validators × Visits e'.validators visits × (has_quorum e' visits n ≡ true)
  unfolding has_quorum
  step-keeps visits n e e' (same, (more, added)) h r q = (
    subst IsPowered (sym same) h,
    subst (λ v. Visits v visits) (sym same) r,
    rw (ap (λ v. quorum visits v (attestations_of e' n)) same, added)
        (quorum-append visits e.validators (attestations_of e n) more h r q),
  )

  run-keeps :
      (visits : List ValidatorInfo) (n : ℕ) (e : Engine) (events : List Event)
      → IsPowered e.validators
      → Visits e.validators visits
      → has_quorum e visits n ≡ true
      → has_quorum (run e events) visits n ≡ true
  run-keeps visits n e [] h r q = q
  run-keeps visits n e (ev ∷ evs) h r q =
      let (h', r', q') = step-keeps visits n e (step e ev) (step-Extends n e ev) h r q in
      run-keeps visits n (step e ev) evs h' r' q'

  pub is_finalized-quorum :
      (e : Engine) (visits : List ValidatorInfo) (n : ℕ)
      → (is_finalized e visits n).1 ≡ has_quorum e visits n
  unfolding is_finalized
  is_finalized-quorum e visits n = ground arith

  -- While no validator has a negative or undefined power and the set of validators is left alone, a
  -- block that is final when the validators are visited in one order stays final for that order,
  -- whatever blocks are attested, whatever is asked and whatever messages arrive: the sums are
  -- floating-point sums, in the order of the visits.
  pub finality_kept :
      (e : Engine) (visits : List ValidatorInfo) (events : List Event) (block_num : ℕ)
      → IsPowered e.validators
      → Visits e.validators visits
      → (is_finalized e visits block_num).1 ≡ true
      → (is_finalized (run e events) visits block_num).1 ≡ true
  finality_kept e visits events block_num h r final =
      is_finalized-quorum (run e events) visits block_num
      ∙ run-keeps visits block_num e events h r
          (sym (is_finalized-quorum e visits block_num) ∙ final)
