-- ===== src/Bitfield/Laws.antt =====
-- The bitfield as a set: what each operation does to every bit.
use tortue.Prelude.{
  ℕ, zero, suc, ◌/◌, ◌%◌, ◌≤◌, ◌<◌, Bytes, [], ◌∷◌, Bool, true, false, not, ◌&&◌, ◌||◌, ok, err,
  leb, ◌==◌, if◌then◌else◌, length, get_or, set, replicate, ◌≡◌, refl, ap, arith, length-set,
  length-replicate,
}
use tortue.Prelude.Be.{IsBytes}
use tortue.Prelude.Bits.{
  test_zero, mask, complement, test, test-set, test-unset, set_range, unset_range,
}
use tortue.Bitfield.{
  Bitfield, piece_out_of_range, div_ceil, new, check_bit, set_bit, unset_bit, has_bit,
}
use Prim.Native.Nat.{bit_and, bit_or}

-- Storage for the pieces and no more, of bytes.
pub record IsValid (b : Bitfield) : Type 0 where
  pub sized : length b.data_bytes ≡ div_ceil b.pieces 8
  pub in_range : IsBytes b.data_bytes

-- The bit at an index of the storage, whether or not it stands for a piece.
unfoldable pub bit_at : Bytes → ℕ → Bool
bit_at s i = test (get_or s (i / 8) 0) (i % 8)

get_or-set :
    (s : Bytes) (i j v : ℕ)
    → i < length s
    → get_or (set s i v) j 0 ≡ (if i == j then v else get_or s j 0)
get_or-set [] i j v h = elim h [ ]
get_or-set (x ∷ s) zero zero v h = refl
get_or-set (x ∷ s) zero (suc j) v h = ground arith
get_or-set (x ∷ s) (suc i) zero v h = ground arith
get_or-set (x ∷ s) (suc i) (suc j) v h = ground (arith, get_or-set s i j v)

pub get_or-IsBytes : (s : Bytes) (i : ℕ) → IsBytes s → get_or s i 0 < 256
get_or-IsBytes [] i h = omega arith
get_or-IsBytes (x ∷ s) zero h = h.0
get_or-IsBytes (x ∷ s) (suc i) h = get_or-IsBytes s i h.1

set-IsBytes : (s : Bytes) (i v : ℕ) → v < 256 → IsBytes s → IsBytes (set s i v)
set-IsBytes [] i v h k = tt
set-IsBytes (x ∷ s) zero v h k = (h, k.1)
set-IsBytes (x ∷ s) (suc i) v h k = (k.0, set-IsBytes s i v h k.1)

replicate-IsBytes : (n : ℕ) → IsBytes (replicate n 0)
replicate-IsBytes zero = tt
replicate-IsBytes (suc n) = (omega arith, replicate-IsBytes n)

pub new-IsValid : (n : ℕ) → IsValid (new n)
unfolding new
new-IsValid n = record {
  sized = length-replicate (div_ceil n 8) 0;
  in_range = replicate-IsBytes (div_ceil n 8);
}

-- A write at the byte of bit `i` changes that byte's bits only.
bit_at-set :
    (s : Bytes) (i j v : ℕ)
    → i / 8 < length s
    → bit_at (set s (i / 8) v) j ≡ (if i / 8 == j / 8 then test v (j % 8) else bit_at s j)
unfolding bit_at
bit_at-set s i j v h = ground (arith, get_or-set s (i / 8) (j / 8) v h)

same_place : (i j : ℕ) → (i == j) ≡ ((i / 8 == j / 8) && (i % 8 == j % 8))
same_place i j = ground arith

module _ (s : Bytes) (i : ℕ) (valid : IsBytes s) (h : i / 8 < length s) where
  old : ℕ
  old = get_or s (i / 8) 0

  pub bit_at_or :
      (j : ℕ)
      → bit_at (set s (i / 8) (bit_or (get_or s (i / 8) 0) (mask (i % 8)))) j
        ≡ (i == j || bit_at s j)
  unfolding bit_at
  bit_at_or j = ground (
    arith,
    bit_at-set s i j (bit_or (get_or s (i / 8) 0) (mask (i % 8))) h,
    same_place i j,
    test-set (get_or s (i / 8) 0) (i % 8) (get_or-IsBytes s (i / 8) valid) (omega arith) (j % 8)
        (omega arith),
  )

  pub bit_at_and :
      (j : ℕ)
      → bit_at (set s (i / 8) (bit_and (get_or s (i / 8) 0) (complement (mask (i % 8))))) j
        ≡ (not (i == j) && bit_at s j)
  unfolding bit_at
  bit_at_and j = ground (
    arith,
    bit_at-set s i j (bit_and (get_or s (i / 8) 0) (complement (mask (i % 8)))) h,
    same_place i j,
    test-unset (get_or s (i / 8) 0) (i % 8) (get_or-IsBytes s (i / 8) valid) (omega arith) (j % 8)
        (omega arith),
  )

pub has_bit-bit_at :
    (b : Bitfield) (j : ℕ)
    → has_bit b j ≡ (if leb b.pieces j then err piece_out_of_range else ok (bit_at b.data_bytes j))
unfolding has_bit check_bit bit_at test
has_bit-bit_at b j = ground arith

module _ (b : Bitfield) (i : ℕ) (c : Bitfield) where
  set_bit_inv :
      set_bit b i ≡ ok c
      → (i < b.pieces)
        × (c.data_bytes
            ≡ set b.data_bytes (i / 8) (bit_or (get_or b.data_bytes (i / 8) 0) (mask (i % 8))))
        × (c.pieces ≡ b.pieces)
  unfolding set_bit
  set_bit_inv e = ground arith

  unset_bit_inv :
      unset_bit b i ≡ ok c
      → (i < b.pieces)
        × (c.data_bytes
            ≡ set b.data_bytes
                (i / 8)
                (bit_and (get_or b.data_bytes (i / 8) 0) (complement (mask (i % 8)))))
        × (c.pieces ≡ b.pieces)
  unfolding unset_bit
  unset_bit_inv e = ground arith

module _ (b : Bitfield) (i : ℕ) (c : Bitfield) (v : IsValid b) where
  -- The storage reaches as far as the pieces.
  index_in_range : i < b.pieces → i / 8 < length b.data_bytes
  index_in_range h = omega (arith, v.sized)

  pub set_bit-IsValid : set_bit b i ≡ ok c → IsValid c × (c.pieces ≡ b.pieces)
  set_bit-IsValid e =
      let (h, d, p) = set_bit_inv b i c e in
      (
        record {
          sized = omega (
            arith,
            v.sized,
            ap length d,
            length-set b.data_bytes (i / 8) (bit_or (get_or b.data_bytes (i / 8) 0) (mask (i % 8))),
          );
          in_range = rw d (
              set-IsBytes b.data_bytes (i / 8) _
                (set_range _ _ (get_or-IsBytes b.data_bytes (i / 8) v.in_range) (omega arith))
                v.in_range);
        },
        p,
      )

  pub unset_bit-IsValid : unset_bit b i ≡ ok c → IsValid c × (c.pieces ≡ b.pieces)
  unset_bit-IsValid e =
      let (h, d, p) = unset_bit_inv b i c e in
      (
        record {
          sized = omega (
            arith,
            v.sized,
            ap length d,
            length-set b.data_bytes (i / 8)
                (bit_and (get_or b.data_bytes (i / 8) 0) (complement (mask (i % 8)))),
          );
          in_range = rw d (
              set-IsBytes b.data_bytes (i / 8) _
                (unset_range _ _ (get_or-IsBytes b.data_bytes (i / 8) v.in_range) (omega arith))
                v.in_range);
        },
        p,
      )

  -- In a valid bitfield a successful `set_bit` sets the bit of its index, and changes what
  -- `has_bit` answers at no other index.
  pub has_bit-set_bit :
      (j : ℕ) → set_bit b i ≡ ok c → has_bit c j ≡ (if i == j then ok true else has_bit b j)
  has_bit-set_bit j e =
      let (h, d, p) = set_bit_inv b i c e in
      ground (
        arith,
        has_bit-bit_at b j,
        has_bit-bit_at c j,
        ap (λ s. bit_at s j) d,
        bit_at_or b.data_bytes i v.in_range (index_in_range h) j,
      )

  -- In a valid bitfield a successful `unset_bit` clears the bit of its index, and changes what
  -- `has_bit` answers at no other index.
  pub has_bit-unset_bit :
      (j : ℕ) → unset_bit b i ≡ ok c → has_bit c j ≡ (if i == j then ok false else has_bit b j)
  has_bit-unset_bit j e =
      let (h, d, p) = unset_bit_inv b i c e in
      ground (
        arith,
        has_bit-bit_at b j,
        has_bit-bit_at c j,
        ap (λ s. bit_at s j) d,
        bit_at_and b.data_bytes i v.in_range (index_in_range h) j,
      )

-- Each of the three fails on an index past the pieces, and on no other.
pub out_of_range :
    (b : Bitfield) (i : ℕ)
    → b.pieces ≤ i
    → (set_bit b i ≡ err piece_out_of_range)
      × (unset_bit b i ≡ err piece_out_of_range)
      × (has_bit b i ≡ err piece_out_of_range)
unfolding set_bit unset_bit has_bit
out_of_range b i h = ground arith

pub set_bit_succeeds : (b : Bitfield) (i : ℕ) → i < b.pieces → (c : Bitfield) × (set_bit b i ≡ ok c)
unfolding set_bit
set_bit_succeeds b i h = (
  record b {
    data_bytes = set b.data_bytes (i / 8) (bit_or (get_or b.data_bytes (i / 8) 0) (mask (i % 8)));
  },
  ground arith,
)

pub get_or-replicate : (m k : ℕ) → get_or {A = ℕ} (replicate m 0) k 0 ≡ 0
get_or-replicate zero k = refl
get_or-replicate (suc m) zero = refl
get_or-replicate (suc m) (suc k) = get_or-replicate m k

bit_at-new : (n j : ℕ) → bit_at (new n).data_bytes j ≡ false
unfolding new bit_at
bit_at-new n j = rw (get_or-replicate (div_ceil n 8) (j / 8)) (test_zero (j % 8) (omega arith))

pub has_bit-new : (n j : ℕ) → j < n → has_bit (new n) j ≡ ok false
unfolding new
has_bit-new n j h = ground (arith, has_bit-bit_at (new n) j, bit_at-new n j)
