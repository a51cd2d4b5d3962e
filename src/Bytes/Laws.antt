-- ===== src/Bytes/Laws.antt =====
-- Encodings of numbers as bytes can be read back, and strings of known lengths can be cut apart.
use native.Mathlib.Nat.{div-lt_iff_lt-mul, pow-suc}
use inso_validator.Prelude.{
  true, false, ◌%◌, ℕ, zero, suc, ◌+◌, ◌*◌, ◌/◌, ◌^◌, ◌<◌, ◌≡◌, refl, sym, ap, ◌∙◌, List, [], ◌∷◌,
  ◌++◌, ◌==◌, length, length-append, arith, inl, inr, Bool-cases,
}
use inso_validator.Bytes.{be_bytes, min_bytes, big_bytes, from_bytes}

from_bytes-snoc :
    (acc : ℕ) (xs : List ℕ) (b : ℕ) → from_bytes acc (xs ++ (b ∷ [])) ≡ from_bytes acc xs * 256 + b
unfolding from_bytes
from_bytes-snoc acc [] b = refl
from_bytes-snoc acc (x ∷ xs) b = from_bytes-snoc (acc * 256 + x) xs b

pub length-be_bytes : (k n : ℕ) → length (be_bytes k n) ≡ k
unfolding be_bytes
length-be_bytes zero n = refl
length-be_bytes (suc k) n = rw length-append (omega (arith, length-be_bytes k (n / 256)))

pub high_bytes : (k n : ℕ) → n < 256 ^ suc k → n / 256 < 256 ^ k
high_bytes k n h = (div-lt_iff_lt-mul (omega arith)).1 (rw pow-suc at h)

pub from_bytes-be_bytes : (k n : ℕ) → n < 256 ^ k → from_bytes 0 (be_bytes k n) ≡ n
unfolding be_bytes
from_bytes-be_bytes zero n h = unfold from_bytes in omega arith
from_bytes-be_bytes (suc k) n h =
    rw from_bytes-snoc (omega (arith, from_bytes-be_bytes k (n / 256) (high_bytes k n h)))

pub from_bytes-min_bytes : (k n : ℕ) → n < 256 ^ k → from_bytes 0 (min_bytes k n) ≡ n
unfolding min_bytes
from_bytes-min_bytes zero n h = unfold from_bytes in omega arith
from_bytes-min_bytes (suc k) n h = elim (Bool-cases (n == 0)) [
  | inl z ↦ rw z (unfold from_bytes in ground arith)
  | inr nz ↦
      rw (nz, from_bytes-snoc) (omega (arith, from_bytes-min_bytes k (n / 256) (high_bytes k n h)))
]

-- Two concatenations with last parts of equal length agree part by part.
pub append-injective :
    (xs ys us vs : List ℕ) → length ys ≡ length vs → xs ++ ys ≡ us ++ vs → (xs ≡ us) × (ys ≡ vs)
append-injective [] ys [] vs h e = (refl, e)
append-injective [] ys (u ∷ us) vs h e = absurd (omega (arith, ap length e, length-append us vs))
append-injective (x ∷ xs) ys [] vs h e = absurd (omega (arith, ap length e, length-append xs ys))
append-injective (x ∷ xs) ys (u ∷ us) vs h e = ground (arith, append-injective xs ys us vs)

pub from_bytes-big_bytes : (n : ℕ) → n < 2 ^ 64 → from_bytes 0 (big_bytes n) ≡ n
unfolding big_bytes
from_bytes-big_bytes n h = from_bytes-min_bytes 8 n h

-- Numbers with the same bytes are the same number.
pub be_bytes-injective :
    (k m n : ℕ) → m < 256 ^ k → n < 256 ^ k → be_bytes k m ≡ be_bytes k n → m ≡ n
be_bytes-injective k m n hm hn e =
    sym (from_bytes-be_bytes k m hm) ∙ ap (from_bytes 0) e ∙ from_bytes-be_bytes k n hn

pub big_bytes-injective : (m n : ℕ) → m < 2 ^ 64 → n < 2 ^ 64 → big_bytes m ≡ big_bytes n → m ≡ n
big_bytes-injective m n hm hn e =
    sym (from_bytes-big_bytes m hm) ∙ ap (from_bytes 0) e ∙ from_bytes-big_bytes n hn

pub min_bytes-nonzero :
    (k n : ℕ) → (n == 0) ≡ false → min_bytes (suc k) n ≡ min_bytes k (n / 256) ++ (n % 256 ∷ [])
unfolding min_bytes
min_bytes-nonzero k n h = rw (h, min_bytes) refl

pub min_bytes-zero : (k n : ℕ) → (n == 0) ≡ true → min_bytes k n ≡ []
unfolding min_bytes
min_bytes-zero zero n h = refl
min_bytes-zero (suc k) n h = rw (h, min_bytes) refl

-- A number that fits needs no more room than its bytes.
pub min_bytes-more : (k n : ℕ) → n < 256 ^ k → min_bytes (suc k) n ≡ min_bytes k n
min_bytes-more zero n fits =
    min_bytes-zero 1 n (ground arith) ∙ sym (min_bytes-zero 0 n (ground arith))
min_bytes-more (suc k) n fits = elim (Bool-cases (n == 0)) [
  | inl z ↦ min_bytes-zero (suc (suc k)) n z ∙ sym (min_bytes-zero (suc k) n z)
  | inr nz ↦
      min_bytes-nonzero (suc k) n nz
      ∙ ap (λ xs. xs ++ (n % 256 ∷ [])) (min_bytes-more k (n / 256) (high_bytes k n fits))
      ∙ sym (min_bytes-nonzero k n nz)
]
