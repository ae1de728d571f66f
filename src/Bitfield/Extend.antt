-- ===== src/Bitfield/Extend.antt =====
-- A bitfield received whole, and the loops over all the pieces.
use tortue.Prelude.{
  ℕ, zero, suc, ◌+◌, ◌*◌, ◌/◌, ◌%◌, ◌≤◌, ◌<◌, Bytes, [], ◌∷◌, true, ◌&&◌, ◌||◌, ok, err, leb, ltb,
  ◌==◌, if◌then◌else◌, length, get_or, replicate, ◌≡◌, refl, ap, arith, length-replicate,
}
use tortue.Prelude.Be.{IsBytes}
use tortue.Prelude.Bits.{zero-or, test-or, or_range}
use tortue.Bitfield.{
  Bitfield, piece_out_of_range, new, set_bit, has_bit, set_from, set_all, after, or_bytes,
  extend_bytes, try_from,
}
use Prim.Native.Nat.{bit_or}
use tortue.Bitfield.Laws.{
  IsValid, bit_at, has_bit-bit_at, get_or-IsBytes, set_bit-IsValid, has_bit-set_bit,
  set_bit_succeeds,
}

or_bytes-get_or :
    (s t : Bytes) (k : ℕ)
    → length t ≡ length s
    → get_or (or_bytes s t) k 0 ≡ bit_or (get_or s k 0) (get_or t k 0)
unfolding or_bytes
or_bytes-get_or [] [] k h = refl
or_bytes-get_or [] (v ∷ t) k h = absurd (omega arith)
or_bytes-get_or (d ∷ s) [] k h = absurd (omega arith)
or_bytes-get_or (d ∷ s) (v ∷ t) zero h = refl
or_bytes-get_or (d ∷ s) (v ∷ t) (suc k) h = or_bytes-get_or s t k (omega arith)

or_bytes-IsBytes :
    (s t : Bytes)
    → length t ≡ length s
    → IsBytes s
    → IsBytes t
    → IsBytes (or_bytes s t) × (length (or_bytes s t) ≡ length s)
unfolding or_bytes
or_bytes-IsBytes [] [] h a b = (tt, refl)
or_bytes-IsBytes [] (v ∷ t) h a b = absurd (omega arith)
or_bytes-IsBytes (d ∷ s) [] h a b = absurd (omega arith)
or_bytes-IsBytes (d ∷ s) (v ∷ t) h a b =
    let (rest, len) = or_bytes-IsBytes s t (omega arith) a.1 b.1 in
    ((or_range d v a.0 b.0, rest), omega arith)

bit_at-or_bytes :
    (s t : Bytes) (j : ℕ)
    → length t ≡ length s
    → IsBytes s
    → IsBytes t
    → bit_at (or_bytes s t) j ≡ (bit_at s j || bit_at t j)
unfolding bit_at
bit_at-or_bytes s t j h a b =
    rw (or_bytes-get_or s t (j / 8) h)
      (test-or _ _ (get_or-IsBytes s (j / 8) a) (get_or-IsBytes t (j / 8) b) (j % 8) (omega arith))

extend_bytes_inv :
    (b c : Bitfield) (t : Bytes)
    → extend_bytes b t ≡ ok c
    → (length t ≡ length b.data_bytes)
      × (c.data_bytes ≡ or_bytes b.data_bytes t)
      × (c.pieces ≡ b.pieces)
unfolding extend_bytes
extend_bytes_inv b c t e = ground arith

module _ (b c : Bitfield) (t : Bytes) (v : IsValid b) (w : IsBytes t)
    (e : extend_bytes b t ≡ ok c) where
  pub extend_bytes-IsValid : IsValid c
  extend_bytes-IsValid =
      let (h, d, p) = extend_bytes_inv b c t e in
      let (r, len) = or_bytes-IsBytes b.data_bytes t h v.in_range w in
      record { sized = omega (arith, v.sized, ap length d); in_range = rw d r }

  -- A successful `extend_bytes` on a valid bitfield is the union: a bit is set afterwards exactly
  -- if it was set before or is set in the bytes, and the range of indices is the old one.
  pub has_bit-extend_bytes :
      (j : ℕ)
      → has_bit c j ≡ (
          if leb b.pieces j
          then err piece_out_of_range
          else ok (bit_at b.data_bytes j || bit_at t j))
  has_bit-extend_bytes j =
      let (h, d, p) = extend_bytes_inv b c t e in
      ground (
        arith,
        has_bit-bit_at c j,
        ap (λ s. bit_at s j) d,
        bit_at-or_bytes b.data_bytes t j h v.in_range w,
      )

or_bytes-zeros : (t : Bytes) → IsBytes t → or_bytes (replicate (length t) 0) t ≡ t
unfolding or_bytes
or_bytes-zeros [] w = refl
or_bytes-zeros (x ∷ t) w = ground (arith, zero-or x w.0, or_bytes-zeros t w.1)

new_bytes : (n : ℕ) → (new (n * 8)).data_bytes ≡ replicate n 0
unfolding new
new_bytes n = ap (λ k. replicate k 0) (omega arith)

pub try_from_made :
    (t : Bytes) → IsBytes t → try_from t ≡ ok (record { data_bytes = t; pieces = length t * 8 })
unfolding try_from extend_bytes new
try_from_made t w =
    ground (arith, new_bytes (length t), length-replicate {A = ℕ} (length t) 0, or_bytes-zeros t w)

-- A bitfield received from a peer never fails to convert: the result is valid, and the bits that it
-- has are those of the bytes, the most significant first.
pub has_bit-try_from :
    (t : Bytes) (j : ℕ)
    → IsBytes t
    → j < length t * 8
    → (c : Bitfield) × (try_from t ≡ ok c) × IsValid c × (has_bit c j ≡ ok (bit_at t j))
has_bit-try_from t j w h = (
  made,
  try_from_made t w,
  record { sized = omega arith; in_range = w },
  ground (arith, has_bit-bit_at made j),
)
  where
    made : Bitfield
    made = record { data_bytes = t; pieces = length t * 8 }

module _ (b : Bitfield) (v : IsValid b) where
  after_set :
      (i j : ℕ)
      → i < b.pieces
      → let c = after b (set_bit b i) in
        IsValid c
        × (c.pieces ≡ b.pieces)
        × (has_bit c j ≡ (if i == j then ok true else has_bit b j))
  after_set i j h =
      let (c, e) = set_bit_succeeds b i h in
      rw e
        ((set_bit-IsValid b i c v e).0, (set_bit-IsValid b i c v e).1, has_bit-set_bit b i c v j e)

set_from-has_bit :
    (rounds i : ℕ) (b : Bitfield) (j : ℕ)
    → IsValid b
    → i + rounds ≤ b.pieces
    → has_bit (set_from rounds i b) j
      ≡ (if leb i j && ltb j (i + rounds) then ok true else has_bit b j)
unfolding set_from
set_from-has_bit zero i b j v h = ground arith
set_from-has_bit (suc rounds) i b j v h =
    let (w, p, s) = after_set b v i j (omega arith) in
    ground (arith, s, p, set_from-has_bit rounds (i + 1) (after b (set_bit b i)) j w (omega arith))

-- After `set_all` every piece's bit is set.
pub has_bit-set_all :
    (b : Bitfield) (j : ℕ) → IsValid b → j < b.pieces → has_bit (set_all b) j ≡ ok true
unfolding set_all
has_bit-set_all b j v h = ground (arith, set_from-has_bit b.pieces 0 b j v (omega arith))
