-- ===== src/Verification/Ambiguity.antt =====
-- The bytes under a state root: the timestamp and the gas used are written without leading zeros and
-- without their lengths, one after the other.
use inso_validator.Prelude.{
  append_nil, ℕ, ◌+◌, ◌*◌, ◌/◌, ◌%◌, ◌^◌, ◌<◌, ◌≡◌, refl, ap, ◌∙◌, [], ◌∷◌, ◌++◌, arith,
}
use inso_validator.Bytes.{be_bytes, big_bytes, written}
use inso_validator.Bytes.Laws.{min_bytes-nonzero, min_bytes-zero, min_bytes-more}
use inso_validator.External.{Hashing}
use inso_validator.Sync.{L2Block}
use inso_validator.Verification.{
  Engine, root_preimage, compute_expected_state_root, is_mismatch, verify_block, judge, settle,
}

last_byte : (t b : ℕ) → b < 256 → (t * 256 + b) % 256 ≡ b
last_byte t b small = omega arith

first_bytes : (t b : ℕ) → b < 256 → (t * 256 + b) / 256 ≡ t
first_bytes t b small = omega arith

big_bytes-byte : (b : ℕ) → 0 < b → b < 256 → big_bytes b ≡ b ∷ []
unfolding big_bytes
big_bytes-byte b pos small =
    min_bytes-nonzero 7 b (ground arith)
    ∙ rw (min_bytes-zero 7 (b / 256) (ground arith)) (ap (λ x. x ∷ []) (omega arith))

big_bytes-append :
    (t b : ℕ) → 0 < b → b < 256 → t < 256 ^ 7 → big_bytes (t * 256 + b) ≡ big_bytes t ++ (b ∷ [])
unfolding big_bytes
big_bytes-append t b pos small fits =
    min_bytes-nonzero 7 (t * 256 + b) (ground arith)
    ∙ rw (last_byte t b small, first_bytes t b small, min_bytes-more 7 t fits) refl

big_bytes-none : big_bytes 0 ≡ []
unfolding big_bytes
big_bytes-none = min_bytes-zero 8 0 refl

-- The end of the preimage, cut in two ways.
tails_agree :
    (t b : ℕ)
    → 0 < b
    → b < 256
    → t < 256 ^ 7
    → written (big_bytes (t * 256 + b) ∷ big_bytes 0 ∷ [])
      ≡ written (big_bytes t ∷ big_bytes b ∷ [])
unfolding written
tails_agree t b pos small fits =
    rw (big_bytes-append t b pos small fits, big_bytes-none, big_bytes-byte b pos small)
      (append_nil (big_bytes t ++ (b ∷ [])))

module _ (h : Hashing) where
  same_root :
      (e : Engine) (block : L2Block) (t b : ℕ)
      → 0 < b
      → b < 256
      → t < 256 ^ 7
      → compute_expected_state_root h e (record block { timestamp = t * 256 + b; gas_used = 0 })
        ≡ compute_expected_state_root h e (record block { timestamp = t; gas_used = b })
  unfolding compute_expected_state_root root_preimage written
  same_root e block t b pos small fits =
      ap (λ end. h.sha256 (big_bytes block.number ++ (be_bytes 32 e.state_root ++ end)))
        (tails_agree t b pos small fits)

  -- The state root does not determine the block: moving the last byte of a timestamp, if it is not
  -- zero, over to the gas used of a block that used none gives a block with the same state root, so
  -- that from any root both are valid or neither is.
  pub state_root_ambiguous :
      (e : Engine) (block : L2Block) (t b : ℕ)
      → 0 < b
      → b < 256
      → t < 256 ^ 7
      → (compute_expected_state_root h e (record block { timestamp = t * 256 + b; gas_used = 0 })
          ≡ compute_expected_state_root h e (record block { timestamp = t; gas_used = b }))
        × ((verify_block h e (record block { timestamp = t * 256 + b; gas_used = 0 })).1
            ≡ (verify_block h e (record block { timestamp = t; gas_used = b })).1)
  unfolding verify_block judge settle is_mismatch
  state_root_ambiguous e block t b pos small fits =
      (same_root e block t b pos small fits, ground (arith, same_root e block t b pos small fits))
