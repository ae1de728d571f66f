-- ===== src/Prelude/Bits.antt =====
-- Bits of one byte, from the most significant one, by tables over all bytes; and `|` bit by bit.
use package.tortue.Prelude.Tests.{◌==◌, ltb}
use Prim.Native.Nat.{ℕ, zero, suc, ◌-◌, ◌/◌, ◌^◌, ◌<◌, bit_and, bit_or}
use mathlib.Core.Path.{◌≡◌, refl, sym}
use mathlib.Core.Bool.{Bool, true, false, not, ◌&&◌, ◌||◌}
use native.Mathlib.Omega.{arith}

-- `1u8 << (7 - offset)`
abbrev pub mask : ℕ → ℕ
mask offset = 2 ^ (7 - offset)

-- `byte & mask != 0`
unfoldable pub test : ℕ → ℕ → Bool
test byte offset = not (bit_and byte (mask offset) == 0)

-- `!mask`, on eight bits
abbrev pub complement : ℕ → ℕ
complement m = 255 - m

abbrev pub same : Bool → Bool → Bool
same true b = b
same false b = not b

same-eq : (a b : Bool) → same a b ≡ true → a ≡ b
same-eq true b h = sym h
same-eq false true h = h
same-eq false false h = refl

and_right : (a b : Bool) → (a && b) ≡ true → b ≡ true
and_right true b h = h
and_right false b h = ground arith

-- Tables: a property of all numbers under a bound, found by evaluation.
table : ℕ → (ℕ → Bool) → Bool
table zero row = true
table (suc k) row = row k && table k row

table_row : (k : ℕ) (row : ℕ → Bool) (i : ℕ) → table k row ≡ true → i < k → row i ≡ true
unfolding table
table_row (suc k) row i full below = ground (arith, table_row k row i)
table_row zero row i full below = elim below [ ]

-- A property of a byte and two offsets.
all_bytes : (ℕ → ℕ → ℕ → Bool) → Bool
unfolding table
all_bytes p = table 256 (λ x. table 8 (λ i. table 8 (λ j. p x i j)))

all_bytes_sound :
    (p : ℕ → ℕ → ℕ → Bool) (x i j : ℕ)
    → all_bytes p ≡ true
    → x < 256
    → i < 8
    → j < 8
    → p x i j ≡ true
unfolding all_bytes
all_bytes_sound p x i j h hx hi hj =
    table_row 8 (λ k. p x i k) j
      (table_row 8 (λ l. table 8 (λ k. p x l k)) i
        (table_row 256 (λ y. table 8 (λ l. table 8 (λ k. p y l k))) x h hx) hi)
      hj

set_table : all_bytes (λ x i j. same (test (bit_or x (mask i)) j) (i == j || test x j)) ≡ true
unfolding all_bytes test
set_table = refl

unset_table :
    all_bytes (λ x i j. same (test (bit_and x (complement (mask i))) j) (not (i == j) && test x j))
    ≡ true
unfolding all_bytes test
unset_table = refl

range_table :
    all_bytes (λ x i j. ltb (bit_or x (mask i)) 256 && ltb (bit_and x (complement (mask i))) 256)
    ≡ true
unfolding all_bytes
range_table = refl

-- The iterator's test, `(byte >> (7 - i)) & 1 == 1`, is the other one.
shift_table : all_bytes (λ x i j. same (bit_and (x / 2 ^ (7 - i)) 1 == 1) (test x i)) ≡ true
unfolding all_bytes test
shift_table = refl

module _ (x i : ℕ) (hx : x < 256) (hi : i < 8) where
  pub test-set : (j : ℕ) → j < 8 → test (bit_or x (mask i)) j ≡ (i == j || test x j)
  test-set j hj = same-eq _ _ (all_bytes_sound _ x i j set_table hx hi hj)

  pub test-unset :
      (j : ℕ) → j < 8 → test (bit_and x (complement (mask i))) j ≡ (not (i == j) && test x j)
  test-unset j hj = same-eq _ _ (all_bytes_sound _ x i j unset_table hx hi hj)

  pub set_range : bit_or x (mask i) < 256
  set_range = ground (arith, all_bytes_sound _ x i i range_table hx hi hi)

  pub unset_range : bit_and x (complement (mask i)) < 256
  unset_range = ground (arith, all_bytes_sound _ x i i range_table hx hi hi)

  pub test_shift : (bit_and (x / 2 ^ (7 - i)) 1 == 1) ≡ test x i
  test_shift = same-eq _ _ (all_bytes_sound _ x i i shift_table hx hi hi)

-- `|` of two bytes, for every pair of bytes.
or_table :
    table 256 (λ x. table 256 (λ y.
      ltb (bit_or x y) 256 && table 8 (λ j. same (test (bit_or x y) j) (test x j || test y j))))
    ≡ true
unfolding table test
or_table = refl

module _ (x y : ℕ) (hx : x < 256) (hy : y < 256) where
  or_row :
      (ltb (bit_or x y) 256 && table 8 (λ j. same (test (bit_or x y) j) (test x j || test y j)))
      ≡ true
  or_row =
      table_row 256
        (λ z.
          ltb (bit_or x z) 256 && table 8 (λ j. same (test (bit_or x z) j) (test x j || test z j)))
        y
        (table_row 256
          (λ w. table 256 (λ z.
            ltb (bit_or w z) 256
            && table 8 (λ j. same (test (bit_or w z) j) (test w j || test z j))))
          x or_table hx)
        hy

  pub or_range : bit_or x y < 256
  or_range = ground (arith, or_row)

  pub test-or : (j : ℕ) → j < 8 → test (bit_or x y) j ≡ (test x j || test y j)
  test-or j hj = same-eq _ _ (
      table_row 8 (λ k. same (test (bit_or x y) k) (test x k || test y k)) j (and_right _ _ or_row)
        hj)

zero_table : table 8 (λ j. same (test 0 j) false) ≡ true
unfolding table test
zero_table = refl

pub test_zero : (j : ℕ) → j < 8 → test 0 j ≡ false
test_zero j hj = same-eq _ _ (table_row 8 (λ k. same (test 0 k) false) j zero_table hj)

zero_or_table : table 256 (λ y. bit_or 0 y == y) ≡ true
unfolding table
zero_or_table = refl

pub zero-or : (y : ℕ) → y < 256 → bit_or 0 y ≡ y
zero-or y h = ground (arith, table_row 256 (λ z. bit_or 0 z == z) y zero_or_table h)
