-- ===== src/Prelude/Be.antt =====
-- Big-endian encodings of machine words, as `to_be_bytes` and `from_be_bytes` have them.
use package.tortue.Prelude.Lists.{Bytes, All}
use Prim.Native.Nat.{ℕ, ◌+◌, ◌*◌, ◌/◌, ◌%◌, ◌^◌, ◌<◌}
use mathlib.Core.Path.{◌≡◌}
use mathlib.Core.List.{[], ◌∷◌, ◌++◌}
use native.Mathlib.Omega.{arith}

-- A list of bytes: every item is below 256.
abbrev pub IsBytes : Bytes → Type 0
IsBytes = All (λ b. b < 256)

abbrev pub to_be_bytes16 : ℕ → Bytes
to_be_bytes16 n = (n / 256 % 256) ∷ (n % 256) ∷ []

abbrev pub to_be_bytes32 : ℕ → Bytes
to_be_bytes32 n = (n / 16777216 % 256) ∷ (n / 65536 % 256) ∷ (n / 256 % 256) ∷ (n % 256) ∷ []

abbrev pub to_be_bytes64 : ℕ → Bytes
to_be_bytes64 n = to_be_bytes32 (n / 4294967296) ++ to_be_bytes32 n

-- `from_be_bytes` on a slice of any width.
abbrev pub from_be : ℕ → Bytes → ℕ
from_be acc [] = acc
from_be acc (b ∷ bs) = from_be (acc * 256 + b) bs

abbrev pub from_be_bytes : Bytes → ℕ
from_be_bytes = from_be 0

pub from_be-to_be32 : (n : ℕ) → n < 2 ^ 32 → from_be_bytes (to_be_bytes32 n) ≡ n
from_be-to_be32 n h = omega arith

pub from_be-to_be16 : (n : ℕ) → n < 2 ^ 16 → from_be_bytes (to_be_bytes16 n) ≡ n
from_be-to_be16 n h = omega arith

from_be_32 : (acc n : ℕ) → from_be acc (to_be_bytes32 n) ≡ acc * 4294967296 + n % 4294967296
from_be_32 acc n = omega arith

pub from_be-to_be64 : (n : ℕ) → n < 2 ^ 64 → from_be_bytes (to_be_bytes64 n) ≡ n
from_be-to_be64 n h = omega (
  arith,
  from_be_32 0 (n / 4294967296),
  from_be_32 (from_be 0 (to_be_bytes32 (n / 4294967296))) n,
)
