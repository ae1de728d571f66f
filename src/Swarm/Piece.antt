-- ===== src/Swarm/Piece.antt =====
-- domain/swarm/piece_manager.rs, `Piece`: one piece, received block by block.
use tortue.Prelude.{
  ℕ, ◌+◌, ◌-◌, ◌*◌, min, Bytes, List, [], ◌∷◌, ◌++◌, Bool, true, false, not, Option, none, some,
  Result, ok, err, Exit, done, panicked, and_then, ltb, leb, ◌==◌, if◌then◌else◌, length, get_elem?,
  set, replicate, bytes_beq,
}
use tortue.Net.{block_size}
use tortue.Bitfield
use tortue.Bitfield.{div_ceil}

pub data Error : Type 0 where
  in_bitfield : Bitfield.Error → Error
  -- expected, actual
  invalid_block_size : ℕ → ℕ → Error
  invalid_block_index : ℕ → Error
  invalid_piece_index : ℕ → Error
  unaligned_block_offset : ℕ → Error

pub data BlockState : Type 0 where
  missing : BlockState
  received : Bytes → BlockState

-- The blocks and the number of those received; nothing is kept of a complete piece.
pub data PieceState : Type 0 where
  partial : List BlockState → ℕ → PieceState
  complete : PieceState

pub record Piece : Type 0 where
  pub len : ℕ
  pub expected_hash : Bytes
  pub state : PieceState

unfoldable pub new : Bytes → ℕ → Piece
new expected_hash piece_length = record {
  len = piece_length;
  expected_hash = expected_hash;
  state = partial (replicate (div_ceil piece_length block_size) missing) 0;
}

abbrev pub is_missing : BlockState → Bool
is_missing missing = true
is_missing (received d) = false

-- The indices of the missing blocks, the first block having the index given.
unfoldable pub missing_from : ℕ → List BlockState → List ℕ
missing_from i [] = []
missing_from i (missing ∷ bs) = i ∷ missing_from (i + 1) bs
missing_from i (received d ∷ bs) = missing_from (i + 1) bs

unfoldable pub unreceived_blocks : Piece → List ℕ
unfolding missing_from
unreceived_blocks p = elim p.state [ partial bs r ↦ missing_from 0 bs | complete ↦ [] ]

-- The subtraction is the source's where the offset is within the piece, as it is for every block.
unfoldable pub block_length : Piece → ℕ → Result Error ℕ
block_length p i = elim p.state [
  | complete ↦ ok 0
  | partial bs r ↦
      if leb (length bs) i
      then err (invalid_block_index i)
      else ok (min (p.len - i * block_size) block_size)
]

unfoldable pub blocks_total : Piece → ℕ
blocks_total p = div_ceil p.len block_size

unfoldable pub blocks_received : Piece → ℕ
unfolding blocks_total
blocks_received p = elim p.state [ partial bs r ↦ r | complete ↦ blocks_total p ]

unfoldable pub is_complete : Piece → Bool
is_complete p = elim p.state [ partial bs r ↦ false | complete ↦ true ]

unfoldable pub is_partial : Piece → Bool
is_partial p = elim p.state [ partial bs r ↦ ltb 0 r | complete ↦ false ]

-- The loop over the blocks, `unreachable!` on a missing one.
unfoldable pub concat : List BlockState → Exit Bytes
concat [] = done []
concat (missing ∷ bs) = panicked
concat (received d ∷ bs) = and_then (concat bs) (λ rest. done (d ++ rest))

unfoldable pub buffer : Piece → Exit (Option Bytes)
unfolding concat
buffer p = elim p.state [
  | complete ↦ done none
  | partial bs r ↦ if r == length bs then and_then (concat bs) (λ b. done (some b)) else done none
]

abbrev pub clear : List BlockState → List BlockState
clear [] = []
clear (b ∷ bs) = missing ∷ clear bs

unfoldable pub reset : Piece → Piece
reset p = elim p.state [ complete ↦ p | partial bs r ↦ record p { state = partial (clear bs) 0 } ]

-- The digest is the sha1 crate's.
module _ (sha1 : Bytes → Bytes) where
  unfoldable pub verify_piece_hash : Bytes → Bytes → Bool
  verify_piece_hash expected buf = bytes_beq (sha1 buf) expected

  -- The end of `Piece::receive_block`, once the block is stored.
  unfoldable pub finish : Piece → Exit (Option Bytes × Piece)
  unfolding buffer reset verify_piece_hash
  finish p = and_then (buffer p) (λ b. elim b [
    | none ↦ done (none, p)
    | some buf ↦
        if verify_piece_hash p.expected_hash buf
        then done (some buf, record p { state = complete })
        else done (none, reset p)
  ])

  -- An error leaves the piece as it was.
  unfoldable pub receive_block : ℕ → Bytes → Piece → Exit (Result Error (Option Bytes) × Piece)
  unfolding block_length finish
  receive_block i data_bytes p = elim p.state [
    | complete ↦ done (ok none, p)
    | partial bs r ↦ elim (block_length p i) [
      | err e ↦ done (err e, p)
      | ok expected ↦
          if not (length data_bytes == expected)
          then done (err (invalid_block_size expected (length data_bytes)), p)
          else elim (get_elem? bs i) [
            | none ↦ panicked
            | some (received d) ↦ done (ok none, p)
            | some missing ↦
                and_then
                  (finish (record p { state = partial (set bs i (received data_bytes)) (r + 1) }))
                  (λ x. done (ok x.0, x.1))
          ]
    ]
  ]
