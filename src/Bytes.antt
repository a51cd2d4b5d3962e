-- ===== src/Bytes.antt =====
-- Byte strings, as lists of numbers below 256: what `math/big` and the fixed-size arrays of
-- go-ethereum's addresses (20 bytes) and hashes (32 bytes) hand to a hash function. An address or
-- a hash is the number that its bytes spell, high byte first.
pub mod Laws
use inso_validator.Prelude.{
  ℕ, zero, suc, ◌*◌, ◌+◌, ◌-◌, ◌/◌, ◌%◌, List, [], ◌∷◌, ◌++◌, ◌==◌, if◌then◌else◌, length,
  replicate,
}

-- The bytes of an array of fixed size.
unfoldable pub be_bytes : ℕ → ℕ → List ℕ
be_bytes zero n = []
be_bytes (suc k) n = be_bytes k (n / 256) ++ (n % 256 ∷ [])

-- `big.Int.Bytes` on a number of at most `k` bytes: no leading zero, and nothing for 0.
unfoldable pub min_bytes : ℕ → ℕ → List ℕ
min_bytes zero n = []
min_bytes (suc k) n = if n == 0 then [] else min_bytes k (n / 256) ++ (n % 256 ∷ [])

-- `new(big.Int).SetUint64(v).Bytes()`
unfoldable pub big_bytes : ℕ → List ℕ
big_bytes v = min_bytes 8 v

-- The number that a byte string spells.
unfoldable pub from_bytes : ℕ → List ℕ → ℕ
from_bytes acc [] = acc
from_bytes acc (b ∷ bs) = from_bytes (acc * 256 + b) bs

-- What a hash has absorbed after a sequence of `Write`s.
unfoldable pub written : List (List ℕ) → List ℕ
written [] = []
written (chunk ∷ chunks) = chunk ++ written chunks
