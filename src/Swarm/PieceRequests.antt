-- ===== src/Swarm/PieceRequests.antt =====
-- The blocks that a piece asks for, and where they lie in it.
use tortue.Prelude.{
  ℕ, zero, suc, ◌+◌, ◌-◌, ◌*◌, ◌<◌, ◌≤◌, min, Bytes, List, [], ◌∷◌, Bool, true, false, some, ok,
  length, nat_eq, get_elem?, ◌≡◌, refl, arith, lt_of_get_elem?, ◌↔◌,
}
use tortue.Prelude.Dict.{contains}
use tortue.Net.{block_size}
use tortue.Swarm.Piece.{
  BlockState, missing, received, PieceState, partial, complete, Piece, missing_from,
  unreceived_blocks, block_length, blocks_total, is_complete,
}
use tortue.Swarm.PieceLaws.{count, IsValid}

unfoldable pub awaits : List BlockState → ℕ → Bool
awaits [] j = false
awaits (missing ∷ bs) zero = true
awaits (received d ∷ bs) zero = false
awaits (b ∷ bs) (suc j) = awaits bs j

awaits-missing :
    (bs : List BlockState) (j : ℕ) → (awaits bs j ≡ true) ↔ (get_elem? bs j ≡ some missing)
unfolding awaits
awaits-missing [] j = ground arith
awaits-missing (missing ∷ bs) zero = ground arith
awaits-missing (received d ∷ bs) zero = ground arith
awaits-missing (b ∷ bs) (suc j) = awaits-missing bs j

missing_from-above :
    (i : ℕ) (bs : List BlockState) (j : ℕ) → j < i → contains j (missing_from i bs) ≡ false
unfolding missing_from
missing_from-above i [] j h = refl
missing_from-above i (missing ∷ bs) j h =
    ground (arith, missing_from-above (i + 1) bs j (omega arith))
missing_from-above i (received d ∷ bs) j h = missing_from-above (i + 1) bs j (omega arith)

contains-missing_from :
    (i : ℕ) (bs : List BlockState) (j k : ℕ)
    → j ≡ i + k
    → contains j (missing_from i bs) ≡ awaits bs k
unfolding missing_from awaits
contains-missing_from i [] j k h = refl
contains-missing_from i (missing ∷ bs) j zero h = ground arith
contains-missing_from i (missing ∷ bs) j (suc k) h =
    ground (arith, contains-missing_from (i + 1) bs j k (omega arith))
contains-missing_from i (received d ∷ bs) j zero h = missing_from-above (i + 1) bs j (omega arith)
contains-missing_from i (received d ∷ bs) j (suc k) h =
    contains-missing_from (i + 1) bs j k (omega arith)

first_missing :
    (bs : List BlockState) → count bs < length bs → (j : ℕ) × (get_elem? bs j ≡ some missing)
unfolding count
first_missing [] h = elim h [ ]
first_missing (missing ∷ bs) h = (0, refl)
first_missing (received d ∷ bs) h = let (j, e) = first_missing bs (omega arith) in (suc j, e)

-- A block is asked for just when it is within a piece in progress and not received.
unfoldable pub Wants : Piece → ℕ → Type 0
Wants p j = elim p.state [ partial bs r ↦ get_elem? bs j ≡ some missing | complete ↦ ⊥ ]

Wants-at :
    (s : PieceState) (n : ℕ) (hash : Bytes) (j : ℕ)
    → (contains j (unreceived_blocks (record { len = n; expected_hash = hash; state = s })) ≡ true)
      ↔ Wants (record { len = n; expected_hash = hash; state = s }) j
unfolding unreceived_blocks Wants
Wants-at (partial bs r) n hash j =
    ground (arith, contains-missing_from 0 bs j j (omega arith), awaits-missing bs j)
Wants-at complete n hash j = ground arith

pub unreceived_blocks-Wants :
    (p : Piece) (j : ℕ) → (contains j (unreceived_blocks p) ≡ true) ↔ Wants p j
unreceived_blocks-Wants p j = Wants-at p.state p.len p.expected_hash j

progress_at :
    (s : PieceState) (n : ℕ) (hash : Bytes)
    → IsValid (record { len = n; expected_hash = hash; state = s })
    → is_complete (record { len = n; expected_hash = hash; state = s }) ≡ false
    → 0 < n
    → (j : ℕ) × (j < blocks_total (record { len = n; expected_hash = hash; state = s }))
      × Wants (record { len = n; expected_hash = hash; state = s }) j
unfolding Wants IsValid is_complete blocks_total
progress_at (partial bs r) n hash v c h =
    let (j, e) = first_missing bs (omega (arith, v.counted, v.open_ended h)) in
    (j, omega (arith, v.covered, lt_of_get_elem? bs j missing e), e)
progress_at complete n hash v c h = absurd (ground arith)

-- A valid piece that is not empty and not complete asks for a block, one of those that cover it.
pub incomplete-Wants :
    (p : Piece)
    → IsValid p
    → is_complete p ≡ false
    → 0 < p.len
    → (j : ℕ) × (j < blocks_total p) × (contains j (unreceived_blocks p) ≡ true)
incomplete-Wants p v c h =
    let (j, l, w) = progress_at p.state p.len p.expected_hash v c h in
    (j, l, (unreceived_blocks-Wants p j).1 w)

length_at :
    (s : PieceState) (n : ℕ) (hash : Bytes) (i : ℕ)
    → IsValid (record { len = n; expected_hash = hash; state = s })
    → is_complete (record { len = n; expected_hash = hash; state = s }) ≡ false
    → i < blocks_total (record { len = n; expected_hash = hash; state = s })
    → (l : ℕ) × (block_length (record { len = n; expected_hash = hash; state = s }) i ≡ ok l)
      × (0 < l)
      × (l ≤ block_size)
      × (i * block_size + l ≡ min n ((i + 1) * block_size))
unfolding IsValid is_complete blocks_total block_length
length_at (partial bs r) n hash i v c h = (
  min (n - i * block_size) block_size,
  ground (arith, v.covered),
  omega arith,
  omega arith,
  omega arith,
)
length_at complete n hash i v c h = absurd (ground arith)

-- Each block of a valid incomplete piece has a length, of at least 1 and at most 16 KiB, and ends
-- at the next block's offset or, the last one, at the piece's end: the subtraction does not
-- underflow.
pub block_length-tiles :
    (p : Piece) (i : ℕ)
    → IsValid p
    → is_complete p ≡ false
    → i < blocks_total p
    → (l : ℕ) × (block_length p i ≡ ok l)
      × (0 < l)
      × (l ≤ block_size)
      × (i * block_size + l ≡ min p.len ((i + 1) * block_size))
block_length-tiles p i v c h = length_at p.state p.len p.expected_hash i v c h
