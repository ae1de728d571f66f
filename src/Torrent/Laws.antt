-- ===== src/Torrent/Laws.antt =====
-- What `validate` lets through, and the blocks that metadata is served in.
use tortue.Prelude.{
  drop_all, drop-drop, ℕ, zero, suc, ◌+◌, ◌*◌, ◌%◌, ◌^◌, ◌<◌, ◌≤◌, Bytes, [], ◌++◌, ok, err, leb,
  if◌then◌else◌, length, take, drop, ◌≡◌, refl, arith, take-append-drop, ap, sym, Bool-cases, inl,
  inr, ◌∙◌,
}
use tortue.Torrent.{
  Metainfo, invalid_metainfo_size, validate, total_size, info_bytes_block, max_torrent_size,
}

-- The blocks from number `i` on, `n` of them, in a row.
unfoldable pub blocks : ℕ → ℕ → Metainfo → Bytes
blocks zero i m = []
blocks (suc n) i m = info_bytes_block i m ++ blocks n (i + 1) m

beyond :
    (l start : ℕ) (s : Bytes)
    → l ≡ length s
    → (if leb l start then [] else take 16384 (drop start s)) ≡ take 16384 (drop start s)
beyond l start s h = elim (Bool-cases (leb l start)) [
  | inl e ↦ rw e (sym (ap (take 16384) (drop_all start s (ground (arith, e, h)))))
  | inr e ↦ rw e refl
]

-- A block is what the info dictionary has there, where the product does not wrap around.
info_bytes_block_lem :
    (i : ℕ) (m : Metainfo)
    → i * 16384 < 2 ^ 64
    → info_bytes_block i m ≡ take 16384 (drop (i * 16384) m.info_bytes)
unfolding info_bytes_block
info_bytes_block_lem i m h =
    let unwrapped : i * 16384 % 2 ^ 64 ≡ i * 16384 = omega arith in
    rw unwrapped (beyond (length m.info_bytes) (i * 16384) m.info_bytes refl)

pub blocks_from :
    (n i : ℕ) (m : Metainfo)
    → (i + n) * 16384 ≤ 2 ^ 64
    → length m.info_bytes ≤ (i + n) * 16384
    → blocks n i m ≡ drop (i * 16384) m.info_bytes
unfolding blocks
blocks_from zero i m h l = sym (drop_all (i * 16384) m.info_bytes (omega arith))
blocks_from (suc n) i m h l =
    rw (info_bytes_block_lem i m (omega arith), blocks_from n (i + 1) m (omega arith) (omega arith))
      (ap (λ t. take 16384 (drop (i * 16384) m.info_bytes) ++ t)
          (sym (drop-drop (i * 16384) 16384 ((i + 1) * 16384) m.info_bytes (omega arith)))
        ∙ take-append-drop 16384 (drop (i * 16384) m.info_bytes))

-- The metadata blocks in order make the info dictionary, where they cover it and their offsets fit
-- 64 bits.
pub blocks-info_bytes :
    (n : ℕ) (m : Metainfo)
    → n * 16384 ≤ 2 ^ 64
    → length m.info_bytes ≤ n * 16384
    → blocks n 0 m ≡ m.info_bytes
blocks-info_bytes n m h l = blocks_from n 0 m (omega arith) (omega arith)

pub validate-bounds :
    (m : Metainfo)
    → validate m ≡ ok tt
    → (total_size m < m.piece_length * length m.pieces) × (total_size m ≤ max_torrent_size)
unfolding validate
validate-bounds m h = (ground arith, ground arith)

-- A torrent whose pieces are all full, the total size being the piece length times their number, is
-- refused as not coherent.
pub validate-full_last_piece :
    (m : Metainfo)
    → total_size m ≡ m.piece_length * length m.pieces
    → validate m ≡ err invalid_metainfo_size
unfolding validate
validate-full_last_piece m h = ground (arith, h)
