-- ===== src/Verification/Fetch.antt =====
-- internal/verification/features.go, fetchLaneStats, fetchComputeReceipt and rpcPost: the questions to the
-- sequencer and what is taken from its answers. The exchange of bytes and the decoding are arguments.
use Prim.Native.String.{String}
use inso_validator.Prelude.{
  ℕ, ◌≡◌, ◌↔◌, refl, ap, true, false, List, ◌++◌, Option, none, some, Option-cases, inl, inr,
}
use inso_validator.Prelude.Int.{pos}
use inso_validator.Text.{codes}
use inso_validator.Verification.Lanes.{
  LaneStats, Consistent, lanes_valid_iff, verify_lane_allocation, no_fault,
}
use inso_validator.Verification.Receipts.{ComputeReceiptData}

unfoldable pub lane_body : List ℕ
lane_body = codes "{\"jsonrpc\":\"2.0\",\"id\":1,\"method\":\"inso_getLaneStats\",\"params\":[]}"

-- The hash is put between the quotes as it is.
unfoldable pub receipt_body : String → List ℕ
receipt_body tx_hash =
    codes "{\"jsonrpc\":\"2.0\",\"id\":1,\"method\":\"inso_getComputeReceipt\",\"params\":[\""
    ++ (codes tx_hash ++ codes "\"]}")

-- The `LaneStats` that decoding starts from.
unfoldable pub no_stats : LaneStats
no_stats = record { fast = pos 0; standard = pos 0; slow = pos 0; total = pos 0; enabled = false }

-- The exchange: a URL and a body, and the bytes of the answer, `none` if the call or the reading fails.
module _ (post : String → List ℕ → Option (List ℕ)) where
  -- `decode` reads the result of an answer, `some none` where there is none, as in an error's.
  unfoldable pub fetch_lane_stats : (List ℕ → Option (Option LaneStats)) → String → Option LaneStats
  fetch_lane_stats decode url = elim (post url lane_body) [
    | none ↦ none
    | some bytes ↦ elim (decode bytes) [
      | none ↦ none
      | some none ↦ some no_stats
      | some (some stats) ↦ some stats
    ]
  ]

  unfoldable pub fetch_compute_receipt :
      (List ℕ → Option (Option ComputeReceiptData))
      → String
      → String
      → Option (Option ComputeReceiptData)
  fetch_compute_receipt decode url tx_hash = elim (post url (receipt_body tx_hash)) [
    | none ↦ none
    | some bytes ↦ decode bytes
  ]

  -- An answer of the sequencer that carries no result, such as an error, makes the check of the lanes
  -- pass as if the sequencer had none.
  pub error_passes :
      (decode : List ℕ → Option (Option LaneStats)) (url : String) (bytes : List ℕ)
      → post url lane_body ≡ some bytes
      → decode bytes ≡ some none
      → let r = verify_lane_allocation (fetch_lane_stats decode url) in
        (r.valid ≡ true) × (r.lanes_enabled ≡ false) × (r.error ≡ no_fault)
  unfolding fetch_lane_stats no_stats verify_lane_allocation
  error_passes decode url bytes answered empty =
      let fetched : fetch_lane_stats decode url ≡ some no_stats =
        rw (answered, fetch_lane_stats, empty) refl in
      rw fetched (refl, refl, refl)

  -- What lets the check of the lanes pass, by the answer and by what it decodes to.
  abbrev pub DecodedPasses : Option (Option LaneStats) → Type 0
  DecodedPasses none = ⊥
  DecodedPasses (some none) = Unit
  DecodedPasses (some (some stats)) = Consistent (some stats)

  abbrev pub AnswerPasses : (List ℕ → Option (Option LaneStats)) → Option (List ℕ) → Type 0
  AnswerPasses decode none = ⊥
  AnswerPasses decode (some bytes) = DecodedPasses (decode bytes)

  decoded_valid_iff :
      (decode : List ℕ → Option (Option LaneStats)) (url : String) (bytes : List ℕ)
      → post url lane_body ≡ some bytes
      → ((verify_lane_allocation (fetch_lane_stats decode url)).valid ≡ true)
        ↔ DecodedPasses (decode bytes)
  unfolding fetch_lane_stats
  decoded_valid_iff decode url bytes answered = by_result (decode bytes) refl
    where
      taken :
          (o : Option LaneStats)
          → fetch_lane_stats decode url ≡ o
          → ((verify_lane_allocation (fetch_lane_stats decode url)).valid ≡ true) ↔ Consistent o
      taken o e = rw e (lanes_valid_iff o).0

      by_result :
          (d : Option (Option LaneStats))
          → decode bytes ≡ d
          → ((verify_lane_allocation (fetch_lane_stats decode url)).valid ≡ true) ↔ DecodedPasses d
      by_result none bad = taken none (rw (answered, fetch_lane_stats, bad) refl)
      by_result (some none) empty = (λ v. tt, λ u. (error_passes decode url bytes answered empty).0)
      by_result (some (some stats)) good =
          taken (some stats) (rw (answered, fetch_lane_stats, good) refl)

  -- The check of the lanes passes just if the sequencer's answer arrives and decodes and either
  -- carries no result, as an error's, or says that lanes are off, or reports no positive total, or a
  -- total that is the sum of the three lanes in 64-bit arithmetic.
  pub fetched_valid_iff :
      (decode : List ℕ → Option (Option LaneStats)) (url : String)
      → ((verify_lane_allocation (fetch_lane_stats decode url)).valid ≡ true)
        ↔ AnswerPasses decode (post url lane_body)
  unfolding fetch_lane_stats
  fetched_valid_iff decode url = elim (Option-cases (post url lane_body)) [
    | inl lost ↦
        let nothing : fetch_lane_stats decode url ≡ none = rw (lost, fetch_lane_stats) refl in
        rw (nothing, lost) (lanes_valid_iff none).0
    | inr (bytes, answered) ↦
        let passes : AnswerPasses decode (post url lane_body) ≡ DecodedPasses (decode bytes) =
          ap (AnswerPasses decode) answered in
        rw passes (decoded_valid_iff decode url bytes answered)
  ]
