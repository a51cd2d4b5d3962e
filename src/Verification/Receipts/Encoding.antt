-- ===== src/Verification/Receipts/Encoding.antt =====
-- The bytes that a receipt's hash covers determine every field that they stand for.
use inso_validator.Verification.Receipts.Padding.{uint64_to_bytes_lem}
use native.Mathlib.Omega.{arith}
use inso_validator.Prelude.{
  ℕ, ◌^◌, ◌<◌, ◌≡◌, refl, sym, ◌∙◌, List, [], ◌∷◌, ◌++◌, length, length-append,
}
use inso_validator.Prelude.Int.{ℤ, pos, negsuc}
use inso_validator.Prelude.Word.{IsU64}
use inso_validator.Bytes.{be_bytes, written}
use inso_validator.Bytes.Laws.{length-be_bytes, be_bytes-injective, append-injective}
use inso_validator.External.{Hashing, IsSized}
use inso_validator.Verification.Receipts.{ComputeReceiptData, uint64_of_int, receipt_preimage}

-- Two rows of numbers of the same widths in bytes, field by field.
abbrev Rows : Type 0
Rows = List (ℕ × ℕ × ℕ)

-- The bytes of the one row and of the other.
abbrev encode : (ℕ × ℕ → ℕ) → Rows → List ℕ
encode side [] = []
encode side ((w, m, n) ∷ rows) = be_bytes w (side (m, n)) ++ encode side rows

abbrev first : ℕ × ℕ → ℕ
first p = p.0

abbrev second : ℕ × ℕ → ℕ
second p = p.1

abbrev Fits : Rows → Type 0
Fits [] = Unit
Fits ((w, m, n) ∷ rows) = ((m < 256 ^ w) × (n < 256 ^ w)) × Fits rows

abbrev Agree : Rows → Type 0
Agree [] = Unit
Agree ((w, m, n) ∷ rows) = (m ≡ n) × Agree rows

length-encode : (rows : Rows) → length (encode first rows) ≡ length (encode second rows)
length-encode [] = refl
length-encode ((w, m, n) ∷ rows) =
    rw
      (
        length-append (be_bytes w m) (encode first rows),
        length-append (be_bytes w n) (encode second rows),
        length-be_bytes w m,
        length-be_bytes w n,
        length-encode rows,
      )
      refl

encode-injective : (rows : Rows) → Fits rows → encode first rows ≡ encode second rows → Agree rows
encode-injective [] f e = tt
encode-injective ((w, m, n) ∷ rows) ((hm, hn), f) e =
    let (heads, tails) =
      append-injective (be_bytes w m) (encode first rows) (be_bytes w n) (encode second rows)
        (length-encode rows) e in
    (be_bytes-injective w m n hm hn heads, encode-injective rows f tails)

-- A 64-bit `int`.
abbrev pub IsInt64 : ℤ → Type 0
IsInt64 (pos n) = n < 2 ^ 63
IsInt64 (negsuc n) = n < 2 ^ 63

uint64_of_int-IsU64 : (i : ℤ) → IsU64 (uint64_of_int i)
unfolding uint64_of_int
uint64_of_int-IsU64 (pos n) = omega arith
uint64_of_int-IsU64 (negsuc n) = omega arith

uint64_of_int-injective :
    (i j : ℤ) → IsInt64 i → IsInt64 j → uint64_of_int i ≡ uint64_of_int j → i ≡ j
unfolding uint64_of_int
uint64_of_int-injective i j hi hj e = ground arith

-- The machine integers of a receipt are in range.
abbrev pub IsMachine : ComputeReceiptData → Type 0
IsMachine r = IsU64 r.block_number × IsInt64 r.tx_index × IsU64 r.gas_used × IsU64 r.status

word : {n : ℕ} → IsU64 n → n < 256 ^ 8
word h = omega arith

module _ (h : Hashing) where
  -- The fields that two receipts must share.
  abbrev pub SameFields : ComputeReceiptData → ComputeReceiptData → Type 0
  SameFields r s =
      (h.hex_to_hash r.tx_hash ≡ h.hex_to_hash s.tx_hash)
      × (r.block_number ≡ s.block_number)
      × (r.tx_index ≡ s.tx_index)
      × (h.hex_to_address r.sender ≡ h.hex_to_address s.sender)
      × (r.gas_used ≡ s.gas_used)
      × (h.hex_to_hash r.pre_state_root ≡ h.hex_to_hash s.pre_state_root)
      × (h.hex_to_hash r.post_state_root ≡ h.hex_to_hash s.post_state_root)
      × (r.status ≡ s.status)
      × (h.hex_to_hash r.input_hash ≡ h.hex_to_hash s.input_hash)
      × (h.hex_to_hash r.output_hash ≡ h.hex_to_hash s.output_hash)
      × (h.hex_to_hash r.logs_hash ≡ h.hex_to_hash s.logs_hash)

  fields : ComputeReceiptData → ComputeReceiptData → Rows
  fields r s =
      (32, h.hex_to_hash r.tx_hash, h.hex_to_hash s.tx_hash)
      ∷ (8, r.block_number, s.block_number)
      ∷ (8, uint64_of_int r.tx_index, uint64_of_int s.tx_index)
      ∷ (20, h.hex_to_address r.sender, h.hex_to_address s.sender)
      ∷ (8, r.gas_used, s.gas_used)
      ∷ (32, h.hex_to_hash r.pre_state_root, h.hex_to_hash s.pre_state_root)
      ∷ (32, h.hex_to_hash r.post_state_root, h.hex_to_hash s.post_state_root)
      ∷ (8, r.status, s.status)
      ∷ (32, h.hex_to_hash r.input_hash, h.hex_to_hash s.input_hash)
      ∷ (32, h.hex_to_hash r.output_hash, h.hex_to_hash s.output_hash)
      ∷ (32, h.hex_to_hash r.logs_hash, h.hex_to_hash s.logs_hash)
      ∷ []

  receipt_preimage-first :
      (r s : ComputeReceiptData) → receipt_preimage h r ≡ encode first (fields r s)
  unfolding receipt_preimage fields written
  receipt_preimage-first r s =
      rw
        (
          uint64_to_bytes_lem r.block_number,
          uint64_to_bytes_lem (uint64_of_int r.tx_index),
          uint64_to_bytes_lem r.gas_used,
          uint64_to_bytes_lem r.status,
        )
        refl

  receipt_preimage-second :
      (r s : ComputeReceiptData) → receipt_preimage h s ≡ encode second (fields r s)
  unfolding receipt_preimage fields written
  receipt_preimage-second r s =
      rw
        (
          uint64_to_bytes_lem s.block_number,
          uint64_to_bytes_lem (uint64_of_int s.tx_index),
          uint64_to_bytes_lem s.gas_used,
          uint64_to_bytes_lem s.status,
        )
        refl

  -- Two receipts whose hashes cover the same bytes agree in every field but the stated hash and the
  -- flag, the strings as the hashes and addresses that they parse to, if those fit their arrays and
  -- the integers are machine integers. So a receipt can be changed unseen only by a collision.
  pub receipt_preimage-injective :
      (r s : ComputeReceiptData)
      → IsSized h
      → IsMachine r
      → IsMachine s
      → receipt_preimage h r ≡ receipt_preimage h s
      → SameFields r s
  unfolding fields
  receipt_preimage-injective r s (hash_fits, addr_fits) (rb, ri, rg, rs) (sb, si, sg, ss) e =
      let (
        tx,
        (block, (index, (sender, (gas, (pre, (post, (status, (input, (output, (logs, end)))))))))),
      ) =
        encode-injective (fields r s)
          (
            (hash_fits r.tx_hash, hash_fits s.tx_hash),
            (
              (word rb, word sb),
              (
                (word (uint64_of_int-IsU64 r.tx_index), word (uint64_of_int-IsU64 s.tx_index)),
                (
                  (addr_fits r.sender, addr_fits s.sender),
                  (
                    (word rg, word sg),
                    (
                      (hash_fits r.pre_state_root, hash_fits s.pre_state_root),
                      (
                        (hash_fits r.post_state_root, hash_fits s.post_state_root),
                        (
                          (word rs, word ss),
                          (
                            (hash_fits r.input_hash, hash_fits s.input_hash),
                            (
                              (hash_fits r.output_hash, hash_fits s.output_hash),
                              ((hash_fits r.logs_hash, hash_fits s.logs_hash), tt),
                            ),
                          ),
                        ),
                      ),
                    ),
                  ),
                ),
              ),
            ),
          )
          (sym (receipt_preimage-first r s) ∙ e ∙ receipt_preimage-second r s) in
      (
        tx,
        block,
        uint64_of_int-injective r.tx_index s.tx_index ri si index,
        sender,
        gas,
        pre,
        post,
        status,
        input,
        output,
        logs,
      )
