-- ===== src/Swarm/PieceLaws.antt =====
-- One piece: what its blocks hold at any time, and how a block ends it.
use tortue.Prelude.{
  ℕ, zero, suc, ◌-◌, ◌*◌, ◌<◌, ◌≤◌, min, Bytes, List, [], ◌∷◌, ◌++◌, some, done, length, get_elem?,
  set, replicate, length-append, length-replicate, ◌≡◌, refl, arith,
}
use tortue.Net.{block_size}
use tortue.Bitfield.{div_ceil}
use tortue.Swarm.Piece.{BlockState, missing, received, partial, complete, Piece, new, concat, clear}

-- How many blocks are received.
unfoldable pub count : List BlockState → ℕ
count [] = 0
count (missing ∷ bs) = count bs
count (received d ∷ bs) = suc (count bs)

-- Each received block fills its place in a piece of the length given.
unfoldable pub Sized : ℕ → List BlockState → Type 0
Sized n [] = Unit {0}
Sized n (missing ∷ bs) = Sized (n - block_size) bs
Sized n (received d ∷ bs) = (length d ≡ min n block_size) × Sized (n - block_size) bs

-- The blocks of a piece not yet verified: as many as cover it, each of its place's size, counted, and
-- not all received but in an empty piece.
pub record InProgress (n : ℕ) (bs : List BlockState) (r : ℕ) : Type 0 where
  pub covered : length bs ≡ div_ceil n block_size
  pub counted : r ≡ count bs
  pub sized : Sized n bs
  pub open_ended : 0 < n → r < length bs

unfoldable pub IsValid : Piece → Type 0
IsValid p = elim p.state [ partial bs r ↦ InProgress p.len bs r | complete ↦ Unit {0} ]

count-replicate : (n : ℕ) → count (replicate n missing) ≡ 0
unfolding count
count-replicate zero = refl
count-replicate (suc n) = count-replicate n

replicate-Sized : (n k : ℕ) → Sized n (replicate k missing)
unfolding Sized
replicate-Sized n zero = tt
replicate-Sized n (suc k) = replicate-Sized (n - block_size) k

pub new-IsValid : (hash : Bytes) (n : ℕ) → IsValid (new hash n)
unfolding IsValid new
new-IsValid hash n = record {
  covered = length-replicate (div_ceil n block_size) missing;
  counted = omega (arith, count-replicate (div_ceil n block_size));
  sized = replicate-Sized n (div_ceil n block_size);
  open_ended = λ h. omega (arith, length-replicate (div_ceil n block_size) missing);
}

pub length-clear : (bs : List BlockState) → length (clear bs) ≡ length bs
length-clear [] = refl
length-clear (b ∷ bs) = omega (arith, length-clear bs)

pub count-clear : (bs : List BlockState) → count (clear bs) ≡ 0
unfolding count
count-clear [] = refl
count-clear (b ∷ bs) = count-clear bs

pub clear-Sized : (n : ℕ) (bs : List BlockState) → Sized n (clear bs)
unfolding Sized
clear-Sized n [] = tt
clear-Sized n (b ∷ bs) = clear-Sized (n - block_size) bs

pub count_le : (bs : List BlockState) → count bs ≤ length bs
unfolding count
count_le [] = omega arith
count_le (missing ∷ bs) = omega (arith, count_le bs)
count_le (received d ∷ bs) = omega (arith, count_le bs)

pub count-set :
    (bs : List BlockState) (i : ℕ) (d : Bytes)
    → get_elem? bs i ≡ some missing
    → count (set bs i (received d)) ≡ suc (count bs)
unfolding count
count-set [] i d h = cc
count-set (missing ∷ bs) zero d h = refl
count-set (received e ∷ bs) zero d h = cc
count-set (missing ∷ bs) (suc i) d h = count-set bs i d h
count-set (received e ∷ bs) (suc i) d h = omega (arith, count-set bs i d h)

pub set-Sized :
    (n : ℕ) (bs : List BlockState) (i : ℕ) (d : Bytes)
    → Sized n bs
    → length d ≡ min (n - i * block_size) block_size
    → Sized n (set bs i (received d))
unfolding Sized
set-Sized n [] i d s h = tt
set-Sized n (missing ∷ bs) zero d s h = (omega arith, s)
set-Sized n (received e ∷ bs) zero d s h = (omega arith, s.1)
set-Sized n (missing ∷ bs) (suc i) d s h = set-Sized (n - block_size) bs i d s (omega arith)
set-Sized n (received e ∷ bs) (suc i) d s h =
    (s.0, set-Sized (n - block_size) bs i d s.1 (omega arith))

-- All blocks being there, they make the piece.
pub concat_full :
    (n : ℕ) (bs : List BlockState)
    → length bs ≡ div_ceil n block_size
    → Sized n bs
    → count bs ≡ length bs
    → (buf : Bytes) × (concat bs ≡ done buf) × (length buf ≡ n)
unfolding Sized count concat
concat_full n [] c s h = ([], refl, omega arith)
concat_full n (missing ∷ bs) c s h = absurd (omega (arith, count_le bs))
concat_full n (received d ∷ bs) c s h =
    let (buf, e, l) = concat_full (n - block_size) bs (omega arith) s.1 (omega arith) in
    (d ++ buf, rw e refl, omega (arith, length-append d buf))
