-- ===== src/Swarm/Tests.antt =====
-- The theorems about the swarm at a torrent of one small piece and a peer that has it. The hash is
-- a stand-in: the length.
use tortue.Prelude.{
  ℕ, zero, suc, ◌+◌, ◌*◌, ◌<◌, ◌≤◌, Bytes, [], ◌∷◌, true, false, Option, none, some, Result, ok,
  done, length, nat_eq, get_elem?, ◌≡◌, ◌≢◌, refl, sym, ap, ◌∙◌, subst, arith, min, ◌⊎◌,
}
use tortue.Prelude.Dict.{contains}
use tortue.Net.{BlockRange, addr_eq, range_eq, block_size}
use tortue.Bitfield
use tortue.Bitfield.{Bitfield, has_bit}
use tortue.Swarm.Piece
use tortue.Swarm.Piece.{
  Piece, PieceState, BlockState, missing, received, partial, complete, is_complete, blocks_total,
  block_length, unreceived_blocks,
}
use tortue.Swarm.PieceLaws
use tortue.Swarm.PieceLaws.{new-IsValid}
use tortue.Swarm.Manager
use tortue.Swarm.Manager.{PieceManager, CompletedPiece, receive_block, valid_upload_range}
use tortue.Swarm.ManagerLaws
use tortue.Swarm.ManagerLaws.{Has, valid_upload_range-within}
use tortue.Swarm.ManagerStep.{receive_block-IsValid, receive_block-Has, receive_block-completed}
use tortue.Swarm.ManagerNew.{new_tiles, hashes, lens}
use tortue.Swarm.PieceReceive.{Same, receive_block_total}
use tortue.Swarm.PieceEffects.{held, receive_block-verified, held-receive_block}
use tortue.Swarm.PieceRequests.{incomplete-Wants, block_length-tiles}
use tortue.Prelude.Bits

-- In the place of sha1.
abbrev pub hash : Bytes → Bytes
hash s = length s ∷ []

abbrev pub first_piece : Piece
first_piece = record { len = 3; expected_hash = 3 ∷ []; state = partial (missing ∷ []) 0 }

abbrev pub manager : PieceManager
manager = record {
  pieces = first_piece ∷ [];
  bitfield = record { data_bytes = 0 ∷ []; pieces = 1 };
}

only : {A : Type 0} (q : A) (i : ℕ) (p : A) → get_elem? (q ∷ []) i ≡ some p → (i ≡ 0) × (p ≡ q)
only q zero p h = (refl, cc)
only q (suc i) p h = absurd (cc)

first_piece-IsValid : PieceLaws.IsValid first_piece
unfolding PieceLaws.IsValid PieceLaws.Sized PieceLaws.count
first_piece-IsValid = record {
  covered = refl;
  counted = refl;
  sized = tt;
  open_ended = λ h. omega arith;
}

no_bit : has_bit manager.bitfield 0 ≡ ok (is_complete first_piece)
unfolding has_bit is_complete
no_bit = refl

pub manager-IsValid : ManagerLaws.IsValid manager
manager-IsValid = record {
  each = λ i p g. subst PieceLaws.IsValid (sym (only first_piece i p g).1) first_piece-IsValid;
  bits = record { sized = refl; in_range = (omega arith, tt) };
  bit_count = refl;
  agree = λ i p g.
      ap (has_bit manager.bitfield) (only first_piece i p g).0
      ∙ no_bit
      ∙ ap (λ x. ok (is_complete x)) (sym (only first_piece i p g).1);
}

abbrev pub range : BlockRange
range = record { piece_index = 0; piece_offset = 0; len = 3 }

abbrev verified : Piece
verified = record { len = 3; expected_hash = 3 ∷ []; state = complete }

abbrev whole : CompletedPiece
whole = record { range = range; data_bytes = 7 ∷ 8 ∷ 9 ∷ [] }

abbrev finished : PieceManager
finished = record {
  pieces = verified ∷ [];
  bitfield = record { data_bytes = 128 ∷ []; pieces = 1 };
}

piece_taken :
    Piece.receive_block hash 0 (7 ∷ 8 ∷ 9 ∷ []) first_piece
    ≡ done (ok (some (7 ∷ 8 ∷ 9 ∷ [])), verified)
unfolding Piece.receive_block
piece_taken = refl

receive_block-verified_case :
    (hash (7 ∷ 8 ∷ 9 ∷ []) ≡ 3 ∷ [])
    × (length {A = ℕ} (7 ∷ 8 ∷ 9 ∷ []) ≡ 3)
    × (is_complete first_piece ≡ false)
    × (is_complete verified ≡ true)
receive_block-verified_case =
    receive_block-verified hash first_piece 0 (7 ∷ 8 ∷ 9 ∷ []) (7 ∷ 8 ∷ 9 ∷ []) verified
      first_piece-IsValid piece_taken

receive_block_total_case :
    (res : Result Piece.Error (Option Bytes)) × (q : Piece) × (Piece.receive_block hash 5
        (1 ∷ [])
        first_piece
      ≡ done (res, q))
    × Same hash first_piece q
    × PieceLaws.IsValid q
receive_block_total_case = receive_block_total hash first_piece 5 (1 ∷ []) first_piece-IsValid

-- A piece of two blocks, the second of two bytes.
abbrev two_blocks : Piece
two_blocks = record {
  len = 16386;
  expected_hash = 3 ∷ [];
  state = partial (missing ∷ missing ∷ []) 0;
}

abbrev second_held : Piece
second_held = record {
  len = 16386;
  expected_hash = 3 ∷ [];
  state = partial (missing ∷ received (5 ∷ 6 ∷ []) ∷ []) 1;
}

two_blocks-IsValid : PieceLaws.IsValid two_blocks
unfolding PieceLaws.IsValid PieceLaws.Sized PieceLaws.count
two_blocks-IsValid = record {
  covered = refl;
  counted = refl;
  sized = tt;
  open_ended = λ h. omega arith;
}

second_taken : Piece.receive_block hash 1 (5 ∷ 6 ∷ []) two_blocks ≡ done (ok none, second_held)
unfolding Piece.receive_block
second_taken = refl

held-receive_block_case :
    (held second_held 0 ≡ held two_blocks 0)
    ⊎ (is_complete second_held ≡ true)
    ⊎ ((buf : Bytes) × (length buf ≡ 16386) × (hash buf ≢ 3 ∷ []) × (held second_held 0 ≡ none))
held-receive_block_case =
    held-receive_block hash two_blocks 1 0 (5 ∷ 6 ∷ []) (ok none) second_held two_blocks-IsValid
      (omega arith) second_taken

not_complete : is_complete two_blocks ≡ false
unfolding is_complete
not_complete = refl

incomplete-Wants_case :
    (j : ℕ) × (j < blocks_total two_blocks) × (contains j (unreceived_blocks two_blocks) ≡ true)
incomplete-Wants_case = incomplete-Wants two_blocks two_blocks-IsValid not_complete (omega arith)

two_in_all : 1 < blocks_total two_blocks
unfolding blocks_total
two_in_all = omega arith

block_length-tiles_case :
    (l : ℕ) × (block_length two_blocks 1 ≡ ok l)
    × (0 < l)
    × (l ≤ block_size)
    × (1 * block_size + l ≡ min 16386 ((1 + 1) * block_size))
block_length-tiles_case = block_length-tiles two_blocks 1 two_blocks-IsValid not_complete two_in_all

block_taken : receive_block hash range (7 ∷ 8 ∷ 9 ∷ []) manager ≡ done (ok (some whole), finished)
unfolding receive_block Piece.receive_block Bitfield.set_bit
block_taken = refl

receive_block-IsValid_example :
    (res : Result Piece.Error (Option CompletedPiece)) × (n : PieceManager) × (receive_block hash
        range
        (7 ∷ [])
        manager
      ≡ done (res, n))
    × ManagerLaws.IsValid n
    × (length n.pieces ≡ 1)
receive_block-IsValid_example = receive_block-IsValid hash manager range (7 ∷ []) manager-IsValid

receive_block-completed_example :
    (p : Piece) × (get_elem? manager.pieces 0 ≡ some p)
    × (range ≡ record { piece_index = 0; piece_offset = 0; len = p.len })
    × (length {A = ℕ} (7 ∷ 8 ∷ 9 ∷ []) ≡ p.len)
    × (hash (7 ∷ 8 ∷ 9 ∷ []) ≡ p.expected_hash)
    × Has finished 0
receive_block-completed_example =
    receive_block-completed hash manager range (7 ∷ 8 ∷ 9 ∷ []) whole finished manager-IsValid
      block_taken

verified_bit : has_bit finished.bitfield 0 ≡ ok (is_complete verified)
unfolding has_bit is_complete Bits.test
verified_bit = refl

finished-IsValid : ManagerLaws.IsValid finished
unfolding PieceLaws.IsValid
finished-IsValid = record {
  each = λ i p g. subst PieceLaws.IsValid (sym (only verified i p g).1) tt;
  bits = record { sized = refl; in_range = (omega arith, tt) };
  bit_count = refl;
  agree = λ i p g.
      ap (has_bit finished.bitfield) (only verified i p g).0
      ∙ verified_bit
      ∙ ap (λ x. ok (is_complete x)) (sym (only verified i p g).1);
}

-- The block comes again, with other bytes.
taken_again : receive_block hash range (1 ∷ 1 ∷ 1 ∷ []) finished ≡ done (ok none, finished)
unfolding receive_block Piece.receive_block
taken_again = refl

finished-Has : Has finished 0
unfolding Has is_complete
finished-Has = (verified, refl, refl)

receive_block-Has_example : Has finished 0
receive_block-Has_example =
    receive_block-Has hash finished range (1 ∷ 1 ∷ 1 ∷ []) (ok none) finished 0 finished-IsValid
      taken_again finished-Has

upload_fits : valid_upload_range finished range ≡ true
unfolding valid_upload_range is_complete
upload_fits = refl

valid_upload_range-within_case :
    (p : Piece) × (get_elem? finished.pieces 0 ≡ some p)
    × (is_complete p ≡ true)
    × (0 + 3 ≤ p.len)
    × (0 < 3)
    × (3 ≤ block_size)
valid_upload_range-within_case = valid_upload_range-within finished range upload_fits

new_tiles_example :
    (m : PieceManager) × (Manager.new ((1 ∷ []) ∷ (2 ∷ []) ∷ []) 16384 20000 ≡ done m)
    × ManagerLaws.IsValid m
    × (hashes m.pieces ≡ (1 ∷ []) ∷ (2 ∷ []) ∷ [])
    × (lens m.pieces ≡ 20000)
    × (Manager.has_no_piece m ≡ true)
new_tiles_example = new_tiles (1 ∷ []) ((2 ∷ []) ∷ []) 16384 20000 (omega arith)
