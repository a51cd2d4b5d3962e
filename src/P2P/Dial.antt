-- ===== src/P2P/Dial.antt =====
-- internal/p2p/network.go, dialPeer: at most five attempts with a delay that doubles. What each dial
-- yields, and whether the context is done before it, are arguments; delays are in seconds.
use native.Mathlib.Nat.{pow-suc}
use inso_validator.Prelude.{
  ℕ, zero, suc, ◌+◌, ◌^◌, ◌<◌, ◌≡◌, Bool, true, false, Option, none, some, arith, Bool-cases,
  Option-cases, inl, inr, ap, ◌∙◌, ltb,
}

pub data Dialed : Type 0 where
  connected : ℕ → ℕ → ℕ → Dialed
  cancelled : ℕ → ℕ → Dialed
  gave_up : ℕ → Dialed

module _ (is_done : ℕ → Bool) (dial : ℕ → Option ℕ) where
  -- The rounds left, the attempt and the seconds slept so far; the result names the connection, the
  -- attempt and the seconds.
  unfoldable pub attempts : ℕ → ℕ → ℕ → Dialed
  attempts zero attempt slept = gave_up slept
  attempts (suc left) attempt slept = elim (is_done attempt) [
    | true ↦ cancelled attempt slept
    | false ↦ elim (dial attempt) [
      | some conn ↦ connected conn attempt slept
      | none ↦ attempts left (attempt + 1) (slept + 2 ^ attempt)
    ]
  ]

  unfoldable pub dial_peer : Dialed
  dial_peer = attempts 5 0 0

  -- Every attempt before this one was made and failed.
  abbrev pub FailedBefore : ℕ → Type 0
  FailedBefore k = (j : ℕ) → j < k → (is_done j ≡ false) × (dial j ≡ none)

  -- How a dial may end, and what it has slept.
  abbrev pub Ends : Dialed → Type 0
  Ends (connected conn k slept) =
      (k < 5) × (is_done k ≡ false) × (dial k ≡ some conn) × FailedBefore k × (slept + 1 ≡ 2 ^ k)
  Ends (cancelled k slept) = (k < 5) × (is_done k ≡ true) × FailedBefore k × (slept + 1 ≡ 2 ^ k)
  Ends (gave_up slept) = FailedBefore 5 × (slept ≡ 31)

  one_more : (k : ℕ) → is_done k ≡ false → dial k ≡ none → FailedBefore k → FailedBefore (k + 1)
  one_more k running failed before j below = elim (Bool-cases (ltb j k)) [
    | inl earlier ↦ before j (ground arith)
    | inr last ↦
        let same : j ≡ k = ground arith in (ap is_done same ∙ running, ap dial same ∙ failed)
  ]

  attempts-Ends :
      (left k slept : ℕ)
      → k + left ≡ 5
      → FailedBefore k
      → slept + 1 ≡ 2 ^ k
      → Ends (attempts left k slept)
  unfolding attempts
  attempts-Ends zero k slept five before sum =
      let all : k ≡ 5 = omega arith in
      (
        λ j below. before j (omega arith),
        (let full : slept + 1 ≡ 2 ^ 5 = sum ∙ ap (λ e. 2 ^ e) all in omega arith),
      )
  attempts-Ends (suc left) k slept five before sum = elim (Bool-cases (is_done k)) [
    | inl halted ↦ rw (halted, attempts) (omega arith, halted, before, sum)
    | inr running ↦ elim (Option-cases (dial k)) [
      | inl failed ↦
          rw (running, attempts, failed)
            (attempts-Ends left (k + 1) (slept + 2 ^ k) (omega arith)
              (one_more k running failed before) (ground (arith, pow-suc 2 k)))
      | inr (conn, made) ↦ rw (running, attempts, made) (omega arith, running, made, before, sum)
    ]
  ]

  -- Dialling makes at most five attempts. It ends with the first that succeeds, or before the first
  -- at which the context is done, the attempts before it failed and 2 ^ k - 1 seconds slept after k
  -- failures; or it gives up when all five have failed, 31 seconds slept.
  pub dial_peer-Ends : Ends dial_peer
  unfolding dial_peer
  dial_peer-Ends = attempts-Ends 5 0 0 (omega arith) (λ j below. absurd (omega arith)) (omega arith)
