-- ===== src/Disk/StorageLaws.antt =====
-- Where a block stands in the content, and how the opened files tile it.
use tortue.Prelude.{ℕ, ◌+◌, ◌*◌, ◌^◌, ◌≤◌, ◌<◌, ok, ◌≡◌, ◌↔◌, sym, ap, ◌∙◌, arith}
use tortue.Net.{BlockRange}
use tortue.Disk.Storage.{DiskStorage, storage_offset}

-- The block is one of a piece, not empty, and ends within its piece and within the content.
pub record IsInside (s : DiskStorage) (r : BlockRange) : Type 0 where
  pub piece : r.piece_index < s.piece_count
  pub nonempty : 0 < r.len
  pub in_piece : r.piece_offset + r.len ≤ s.piece_length
  pub in_content : r.piece_index * s.piece_length + r.piece_offset + r.len ≤ s.total_size

pub IsInside-of_offset :
    (s : DiskStorage) (r : BlockRange) (n : ℕ)
    → storage_offset s r ≡ ok n
    → IsInside s r × (n ≡ r.piece_index * s.piece_length + r.piece_offset)
unfolding storage_offset
IsInside-of_offset s r n h = (
  record {
    piece = ground arith;
    nonempty = ground arith;
    in_piece = ground arith;
    in_content = ground arith;
  },
  ground arith,
)

offset_of_IsInside :
    (s : DiskStorage) (r : BlockRange)
    → s.piece_length < 2 ^ 64
    → s.total_size < 2 ^ 64
    → IsInside s r
    → storage_offset s r ≡ ok (r.piece_index * s.piece_length + r.piece_offset)
unfolding storage_offset
offset_of_IsInside s r hp ht v = ground arith

-- `storage_offset` gives an offset exactly for the blocks that are not empty, of a piece of the
-- torrent, and within that piece and the content, and the offset is the piece's start and the
-- offset in it: its checked sums and products refuse nothing else.
pub storage_offset-IsInside :
    (s : DiskStorage) (r : BlockRange) (n : ℕ)
    → s.piece_length < 2 ^ 64
    → s.total_size < 2 ^ 64
    → (storage_offset s r ≡ ok n)
      ↔ (IsInside s r × (n ≡ r.piece_index * s.piece_length + r.piece_offset))
storage_offset-IsInside s r n hp ht =
    (IsInside-of_offset s r n, λ h. offset_of_IsInside s r hp ht h.0 ∙ ap ok (sym h.1))

-- Blocks of different pieces share no byte of the content.
pub storage_offset-disjoint :
    (s : DiskStorage) (p q : BlockRange) (m n : ℕ)
    → storage_offset s p ≡ ok m
    → storage_offset s q ≡ ok n
    → p.piece_index < q.piece_index
    → m + p.len ≤ n
storage_offset-disjoint s p q m n hp hq lt =
    let (vp, ep) = IsInside-of_offset s p m hp in
    let (vq, eq) = IsInside-of_offset s q n hq in grind arith
