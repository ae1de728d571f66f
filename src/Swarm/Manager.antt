-- ===== src/Swarm/Manager.antt =====
-- domain/swarm/piece_manager.rs, `PieceManager`: the pieces of a torrent, and the bitfield of those
-- that are complete.
use tortue.Prelude.{
  ℕ, ◌+◌, ◌-◌, ◌*◌, ◌/◌, ◌%◌, ◌^◌, Bytes, List, [], ◌∷◌, Bool, false, not, ◌&&◌, Option, none, some,
  Result, ok, err, Exit, done, panicked, and_then, ltb, leb, ◌==◌, if◌then◌else◌, length, get_elem?,
  set, all, map, is_empty,
}
use tortue.Net.{block_size, BlockRange}
use tortue.Bitfield
use tortue.Bitfield.{Bitfield, set_bit, into_vec}
use tortue.Swarm.Piece
use tortue.Swarm.Piece.{
  Piece, Error, in_bitfield, invalid_block_size, invalid_piece_index, unaligned_block_offset,
  is_complete, is_partial, blocks_total, blocks_received,
}

pub record CompletedPiece : Type 0 where
  pub range : BlockRange
  pub data_bytes : Bytes

pub record PieceManager : Type 0 where
  pub pieces : List Piece
  pub bitfield : Bitfield

-- The loop of `new` from piece `i` on. The last piece has what is left of the total: where the
-- subtraction underflows, it panics, or the allocation of the blocks of a length near 2^64 does.
unfoldable pub pieces_from : ℕ → ℕ → ℕ → List Bytes → Exit (List Piece)
pieces_from piece_length total i [] = done []
pieces_from piece_length total i (h ∷ hs) =
    let rest = pieces_from piece_length total (i + 1) hs in
    if is_empty hs
    then (if ltb total (i * piece_length)
        then panicked
        else done (Piece.new h (total - i * piece_length) ∷ []))
    else and_then rest (λ ps. done (Piece.new h piece_length ∷ ps))

-- The hashes, the piece length and the total size are the metainfo's.
unfoldable pub new : List Bytes → ℕ → ℕ → Exit PieceManager
unfolding pieces_from
new hashes piece_length total =
    and_then (pieces_from piece_length total 0 hashes)
      (λ ps. done (record { pieces = ps; bitfield = Bitfield.new (length hashes) }))

unfoldable pub bitfield_bytes : PieceManager → Bytes
bitfield_bytes m = into_vec m.bitfield

abbrev or_zero : Result Error ℕ → ℕ
or_zero (ok n) = n
or_zero (err e) = 0

-- `block_length` has a value at each of them.
unfoldable pub unreceived_blocks : PieceManager → ℕ → List BlockRange
unreceived_blocks m i = elim (get_elem? m.pieces i) [
  | none ↦ []
  | some p ↦
      map
        (λ b. record {
          piece_index = i;
          piece_offset = b * block_size;
          len = or_zero (Piece.block_length p b);
        })
        (Piece.unreceived_blocks p)
]

unfoldable pub needed_from : ℕ → List Piece → List ℕ
needed_from i [] = []
needed_from i (p ∷ ps) =
    let rest = needed_from (i + 1) ps in if is_complete p then rest else i ∷ rest

unfoldable pub needed_pieces : PieceManager → List ℕ
unfolding needed_from
needed_pieces m = needed_from 0 m.pieces

unfoldable pub all_complete : PieceManager → Bool
all_complete m = all is_complete m.pieces

abbrev pub sum : List ℕ → ℕ
sum [] = 0
sum (n ∷ ns) = n + sum ns

abbrev complete_lengths : List Piece → List ℕ
complete_lengths [] = []
complete_lengths (p ∷ ps) =
    let rest = complete_lengths ps in if is_complete p then p.len ∷ rest else rest

unfoldable pub available_bytes : PieceManager → ℕ
available_bytes m = sum (complete_lengths m.pieces)

unfoldable pub piece_is_partial : PieceManager → ℕ → Bool
piece_is_partial m i = elim (get_elem? m.pieces i) [ none ↦ false | some p ↦ is_partial p ]

unfoldable pub has_no_piece : PieceManager → Bool
has_no_piece m = all (λ p. not (is_complete p)) m.pieces

unfoldable pub total_blocks : PieceManager → ℕ
total_blocks m = sum (map blocks_total m.pieces)

unfoldable pub received_blocks : PieceManager → ℕ
received_blocks m = sum (map blocks_received m.pieces)

-- `p.receive_block(…)?`, then the bitfield: the piece is changed also where the bitfield refuses.
unfoldable pub complete_piece :
    ℕ
    → Result Error (Option Bytes)
    → PieceManager
    → Result Error (Option CompletedPiece) × PieceManager
complete_piece i (err e) m = (err e, m)
complete_piece i (ok none) m = (ok none, m)
complete_piece i (ok (some buf)) m = elim (set_bit m.bitfield i) [
  | err e ↦ (err (in_bitfield e), m)
  | ok c ↦ (
    ok (
        some (record {
          range = record { piece_index = i; piece_offset = 0; len = length buf };
          data_bytes = buf;
        })),
    record m { bitfield = c },
  )
]

module _ (sha1 : Bytes → Bytes) where
  unfoldable pub receive_block :
      BlockRange → Bytes → PieceManager → Exit (Result Error (Option CompletedPiece) × PieceManager)
  unfolding complete_piece
  receive_block range d m =
      if not (length d == range.len)
      then done (err (invalid_block_size range.len (length d)), m)
      else if not (range.piece_offset % block_size == 0)
      then done (err (unaligned_block_offset range.piece_offset), m)
      else elim (get_elem? m.pieces range.piece_index) [
        | none ↦ done (err (invalid_piece_index range.piece_index), m)
        | some p ↦ and_then (Piece.receive_block sha1 (range.piece_offset / block_size) d p) (λ x.
            done (
              complete_piece range.piece_index x.0
                (record m { pieces = set m.pieces range.piece_index x.1 })))
      ]

-- `checked_add`: `usize` has 64 bits.
unfoldable pub valid_upload_range : PieceManager → BlockRange → Bool
valid_upload_range m range = elim (get_elem? m.pieces range.piece_index) [
  | none ↦ false
  | some p ↦
      is_complete p
      && ltb 0 range.len
      && leb range.len block_size
      && ltb (range.piece_offset + range.len) (2 ^ 64)
      && leb (range.piece_offset + range.len) p.len
]
