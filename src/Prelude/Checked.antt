-- ===== src/Prelude/Checked.antt =====
-- std's checked sums and products of 64 bits, and slices that may be out of range.
use package.tortue.Prelude.Tests.{leb, ltb, if◌then◌else◌}
use package.tortue.Prelude.Lists.{length, take, drop}
use Prim.Native.Nat.{ℕ, ◌+◌, ◌*◌, ◌^◌, ◌≤◌, ◌<◌}
use mathlib.Core.Path.{◌≡◌}
use mathlib.Core.Option.{Option, none, some}
use mathlib.Core.List.{List}
use native.Mathlib.Omega.{arith}

-- `checked_add` and `checked_mul`
abbrev pub checked_add : ℕ → ℕ → Option ℕ
checked_add a b = if ltb (a + b) (2 ^ 64) then some (a + b) else none

abbrev pub checked_mul : ℕ → ℕ → Option ℕ
checked_mul a b = if ltb (a * b) (2 ^ 64) then some (a * b) else none

-- `s.get(start..start + len)`, or the slice itself where `none` is a panic.
abbrev pub slice {ℓ} : {A : Type ℓ} → ℕ → ℕ → List A → Option (List A)
slice start len s = if leb (start + len) (length s) then some (take len (drop start s)) else none

pub slice_in_range {ℓ} :
    {A : Type ℓ} (o m n : ℕ) (s : List A)
    → m ≡ n
    → o + n ≤ length s
    → slice o m s ≡ some (take n (drop o s))
slice_in_range o m n s e h = rw e (ground arith)

pub checked_add_in_range : (a b : ℕ) → a + b < 2 ^ 64 → checked_add a b ≡ some (a + b)
checked_add_in_range a b h = ground arith
