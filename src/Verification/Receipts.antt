-- ===== src/Verification/Receipts.antt =====
-- internal/verification/features.go, VerifyComputeReceipt: the hash of a compute receipt is derived
-- again from its fields. The answer of `fetchComputeReceipt` is an argument: `none` if it fails,
-- `some none` if there is no such receipt.
pub mod Padding
pub mod Encoding
use text.Mathlib.Text.{◌==◌ as str_eq}
use text.Mathlib.TextEquality.{eq_iff}
use Prim.Native.String.{String}
use inso_validator.Prelude.{
  ℕ, ◌+◌, ◌-◌, ◌^◌, ◌%◌, ◌<◌, ◌≡◌, ◌↔◌, refl, Bool, true, false, not, List, [], ◌∷◌, ◌++◌, Option,
  none, some, length, replicate, if◌then◌else◌, arith, Bool-cases, inl, inr,
}
use inso_validator.Prelude.Int.{ℤ, pos, negsuc}
use inso_validator.Bytes.{be_bytes, big_bytes, written}
use inso_validator.External.{Hashing}

pub record ComputeReceiptData : Type 0 where
  pub tx_hash : String
  pub block_number : ℕ
  pub tx_index : ℤ
  pub sender : String
  pub gas_used : ℕ
  pub status : ℕ
  pub pre_state_root : String
  pub post_state_root : String
  pub input_hash : String
  pub output_hash : String
  pub logs_hash : String
  pub receipt_hash : String
  pub verified : Bool

pub data ReceiptFault : Type 0 where
  no_fault : ReceiptFault
  fetch_failed : ReceiptFault
  receipt_not_found : ReceiptFault
  receipt_hash_mismatch : String → String → ReceiptFault
  reported_unverified : ReceiptFault

pub record ReceiptVerificationResult : Type 0 where
  pub tx_hash : String
  pub block_number : ℕ
  pub valid : Bool
  pub error : ReceiptFault
  pub receipt_hash : String
  pub verified : Bool

-- `uint64ToBytes`: the bytes of the number behind zeros, 8 in all.
unfoldable pub uint64_to_bytes : ℕ → List ℕ
uint64_to_bytes v = let b = big_bytes v in replicate (8 - length b) 0 ++ b

-- `uint64(i)` of a 64-bit `int`.
unfoldable pub uint64_of_int : ℤ → ℕ
uint64_of_int (pos n) = n % 2 ^ 64
uint64_of_int (negsuc n) = 2 ^ 64 - 1 - n % 2 ^ 64

module _ (h : Hashing) where
  -- What is written into the hash.
  unfoldable pub receipt_preimage : ComputeReceiptData → List ℕ
  receipt_preimage r = written (
      be_bytes 32 (h.hex_to_hash r.tx_hash)
      ∷ uint64_to_bytes r.block_number
      ∷ uint64_to_bytes (uint64_of_int r.tx_index)
      ∷ be_bytes 20 (h.hex_to_address r.sender)
      ∷ uint64_to_bytes r.gas_used
      ∷ be_bytes 32 (h.hex_to_hash r.pre_state_root)
      ∷ be_bytes 32 (h.hex_to_hash r.post_state_root)
      ∷ uint64_to_bytes r.status
      ∷ be_bytes 32 (h.hex_to_hash r.input_hash)
      ∷ be_bytes 32 (h.hex_to_hash r.output_hash)
      ∷ be_bytes 32 (h.hex_to_hash r.logs_hash)
      ∷ [])

  unfoldable pub compute_receipt_hash : ComputeReceiptData → ℕ
  compute_receipt_hash r = h.sha256 (receipt_preimage r)

  -- The result once a receipt has arrived.
  unfoldable pub check_receipt : String → ComputeReceiptData → ReceiptVerificationResult
  check_receipt tx_hash r =
      let recomputed = h.hash_hex (compute_receipt_hash r) in
      let result : Bool → ReceiptFault → Bool → ReceiptVerificationResult = λ valid error verified.
        record {
          tx_hash = tx_hash;
          block_number = r.block_number;
          valid = valid;
          error = error;
          receipt_hash = r.receipt_hash;
          verified = verified;
        } in
      if not (str_eq recomputed r.receipt_hash)
      then result false (receipt_hash_mismatch r.receipt_hash recomputed) false
      else if not r.verified
      then result false reported_unverified false
      else result true no_fault true

  unfoldable pub verify_compute_receipt :
      String → Option (Option ComputeReceiptData) → ReceiptVerificationResult
  verify_compute_receipt tx_hash answer = elim answer [
    | none ↦ failed fetch_failed
    | some none ↦ failed receipt_not_found
    | some (some r) ↦ check_receipt tx_hash r
  ]
    where
      failed : ReceiptFault → ReceiptVerificationResult
      failed fault = record {
        tx_hash = tx_hash;
        block_number = 0;
        valid = false;
        error = fault;
        receipt_hash = "";
        verified = false;
      }

  -- The receipt was found, states the hash of its fields and is reported as verified.
  abbrev pub Passes : Option (Option ComputeReceiptData) → Type 0
  Passes none = ⊥
  Passes (some none) = ⊥
  Passes (some (some r)) =
      (h.hash_hex (compute_receipt_hash r) ≡ r.receipt_hash) × (r.verified ≡ true)

  -- A receipt passes just if it was found, the hash of its fields is the hash that it states, and the
  -- sequencer reports it as verified; an error is reported just if it does not pass. Which transaction
  -- was asked for is not compared with the receipt.
  pub receipt_valid_iff :
      (tx_hash : String) (answer : Option (Option ComputeReceiptData))
      → (((verify_compute_receipt tx_hash answer).valid ≡ true) ↔ Passes answer)
        × (((verify_compute_receipt tx_hash answer).valid ≡ true)
            ↔ ((verify_compute_receipt tx_hash answer).error ≡ no_fault))
  unfolding verify_compute_receipt check_receipt
  receipt_valid_iff tx_hash none = ground arith
  receipt_valid_iff tx_hash (some none) = ground arith
  receipt_valid_iff tx_hash (some (some r)) =
      ground (arith, eq_iff (h.hash_hex (compute_receipt_hash r)) r.receipt_hash)
