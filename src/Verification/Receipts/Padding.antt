-- ===== src/Verification/Receipts/Padding.antt =====
-- internal/verification/features.go, uint64ToBytes: padding to eight bytes.
use native.Mathlib.Omega.{arith}
use inso_validator.Prelude.{
  append_nil, append_assoc, ℕ, zero, suc, ◌-◌, ◌/◌, ◌%◌, ◌≡◌, refl, sym, ap, ◌∙◌, List, [], ◌∷◌,
  ◌++◌, ◌==◌, length, length-append, replicate, Bool-cases, inl, inr, true,
}
use inso_validator.Bytes.{be_bytes, big_bytes, min_bytes}
use inso_validator.Bytes.Laws.{min_bytes-nonzero, min_bytes-zero}
use inso_validator.Verification.Receipts.{uint64_to_bytes}

abbrev zeros : ℕ → List ℕ
zeros n = replicate n 0

zeros-snoc : (n : ℕ) → zeros n ++ (0 ∷ []) ≡ zeros (suc n)
zeros-snoc zero = refl
zeros-snoc (suc n) = ap (λ xs. 0 ∷ xs) (zeros-snoc n)

be_bytes-zero : (k : ℕ) → be_bytes k 0 ≡ zeros k
unfolding be_bytes
be_bytes-zero zero = refl
be_bytes-zero (suc k) = rw (be_bytes-zero k) (zeros-snoc k)

be_bytes-suc : (k n : ℕ) → be_bytes k (n / 256) ++ (n % 256 ∷ []) ≡ be_bytes (suc k) n
unfolding be_bytes
be_bytes-suc k n = refl

-- The zeros in front of a number whose last byte is split off.
padding : (k : ℕ) (xs : List ℕ) (b : ℕ) → suc k - length (xs ++ (b ∷ [])) ≡ k - length xs
padding k xs b = rw (length-append xs (b ∷ [])) (omega arith)

head_zero : (k : ℕ) → suc k - 0 ≡ suc k
head_zero k = omega arith

no_bytes : (k : ℕ) → zeros (suc k - 0) ++ [] ≡ zeros (suc k)
no_bytes k = ap (λ n. zeros n ++ []) (head_zero k) ∙ append_nil (zeros (suc k))

padded_min_bytes : (k n : ℕ) → zeros (k - length (min_bytes k n)) ++ min_bytes k n ≡ be_bytes k n
padded_min_bytes zero n = unfold min_bytes be_bytes in refl
padded_min_bytes (suc k) n = elim (Bool-cases (n == 0)) [
  | inl z ↦
      rw (min_bytes-zero (suc k) n z)
        (no_bytes k ∙ sym (be_bytes-zero (suc k)) ∙ ap (be_bytes (suc k)) (sym (zero_of n z)))
  | inr nz ↦
      rw (min_bytes-nonzero k n nz, padding k (min_bytes k (n / 256)) (n % 256))
        (sym (
            append_assoc (zeros (k - length (min_bytes k (n / 256)))) (min_bytes k (n / 256))
              (n % 256 ∷ []))
          ∙ ap (λ l. l ++ (n % 256 ∷ [])) (padded_min_bytes k (n / 256))
          ∙ be_bytes-suc k n)
]
  where
    zero_of : (n : ℕ) → (n == 0) ≡ true → n ≡ 0
    zero_of n h = ground arith

-- `uint64ToBytes` gives the 8 bytes of the number, high byte first: the zeros that it puts in front
-- of the minimal encoding are those of the encoding with a fixed size.
pub uint64_to_bytes_lem : (v : ℕ) → uint64_to_bytes v ≡ be_bytes 8 v
unfolding uint64_to_bytes big_bytes
uint64_to_bytes_lem v = padded_min_bytes 8 v
