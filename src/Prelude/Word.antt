-- ===== src/Prelude/Word.antt =====
-- Go's fixed-width integers: `uint64` as a number below 2 ^ 64, `int` as an integer that wraps.
use Prim.Native.Nat.{ℕ, ◌+◌, ◌-◌, ◌*◌, ◌%◌, ◌^◌, ◌<◌}
use inso_validator.Prelude.Tests.{ltb, if◌then◌else◌}
use inso_validator.Prelude.Int.{ℤ, pos, negsuc}

abbrev pub IsU64 : ℕ → Type 0
IsU64 n = n < 2 ^ 64

abbrev pub add_u64 : ℕ → ℕ → ℕ
add_u64 a b = (a + b) % 2 ^ 64

abbrev pub mul_u64 : ℕ → ℕ → ℕ
mul_u64 a b = a * b % 2 ^ 64

-- The value of a 64-bit `int` whose exact result is given.
unfoldable pub wrap_int : ℤ → ℤ
wrap_int (pos n) = let r = n % 2 ^ 64 in if ltb r (2 ^ 63) then pos r else negsuc (2 ^ 64 - r - 1)
wrap_int (negsuc n) =
    let r = n % 2 ^ 64 in if ltb r (2 ^ 63) then negsuc r else pos (2 ^ 64 - r - 1)
