-- ===== src/External.antt =====
-- What the program takes from Go's crypto/sha256 and from go-ethereum's common and crypto packages,
-- as the fields of a record. A 32-byte digest and a 20-byte address are the numbers that their bytes
-- spell; keys are numbers too.
pub mod Toys
use inso_validator.Prelude.{ℕ, ◌<◌, ◌^◌, List, Option}
use Prim.Native.String.{String}

pub record Hashing : Type 0 where
  -- `sha256.New`, `Write`, `Sum`
  pub sha256 : List ℕ → ℕ
  -- `common.Hash.Hex`, `common.HexToHash`, `common.HexToAddress`
  pub hash_hex : ℕ → String
  pub hex_to_hash : String → ℕ
  pub hex_to_address : String → ℕ

-- The results of the parsers fit their arrays.
abbrev pub IsSized : Hashing → Type 0
IsSized h =
    ((s : String) → h.hex_to_hash s < 256 ^ 32) × ((s : String) → h.hex_to_address s < 256 ^ 20)

pub record Signing : Type 0 where
  -- `crypto.Keccak256Hash`
  pub keccak256 : List ℕ → ℕ
  -- `crypto.Sign`, which can fail, `crypto.SigToPub` and `crypto.PubkeyToAddress`
  pub sign : ℕ → ℕ → Option (List ℕ)
  pub sig_to_pub : ℕ → List ℕ → Option ℕ
  pub pubkey_to_address : ℕ → ℕ
