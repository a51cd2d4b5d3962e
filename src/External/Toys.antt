-- ===== src/External/Toys.antt =====
-- Small functions in the place of the cryptography, for the tests.
use text.Mathlib.Text.{◌==◌ as str_eq}
use inso_validator.Prelude.{
  ℕ, ◌+◌, List, [], ◌∷◌, Option, none, some, ltb, ◌==◌, if◌then◌else◌, replicate,
}
use inso_validator.External.{Hashing, Signing}

abbrev pub sum : List ℕ → ℕ
sum [] = 0
sum (b ∷ bs) = b + sum bs

-- A checksum for the hash.
abbrev pub toy_hashing : Hashing
toy_hashing = record {
  sha256 = sum;
  hash_hex = λ n. if ltb n 100 then "0x00" else "0x64";
  hex_to_hash = λ s. if str_eq s "" then 0 else 5;
  hex_to_address = λ s. 9;
}

abbrev pub recover : ℕ → List ℕ → Option ℕ
recover hash (key ∷ signed ∷ rest) = if hash == signed then some key else none
recover hash _ = none

-- Signatures that carry the key and the hash.
abbrev pub toy_signing : Signing
toy_signing = record {
  keccak256 = sum;
  sign = λ hash key. some (key ∷ hash ∷ replicate 63 0);
  sig_to_pub = recover;
  pubkey_to_address = λ key. key;
}
