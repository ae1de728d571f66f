-- ===== src/Torrent/Tests.antt =====
-- The metainfo theorems at concrete torrents.
use tortue.Prelude.{ℕ, [], ◌∷◌, none, ok, err, ◌≡◌, ◌≤◌, ◌<◌, refl, arith, codes}
use tortue.Torrent.{Metainfo, single, total_size, validate, max_torrent_size, invalid_metainfo_size}
use tortue.Torrent.Laws.{blocks, blocks-info_bytes, validate-bounds, validate-full_last_piece}

-- Two pieces of four bytes.
abbrev of_size : ℕ → Metainfo
of_size n = record {
  name = codes "x";
  announce = [];
  comment = none;
  created_by = none;
  created_at = none;
  url_list = none;
  info_bytes = codes "de";
  info_hash = [];
  piece_length = 4;
  pieces = (1 ∷ []) ∷ (2 ∷ []) ∷ [];
  mode = single n;
}

blocks-info_bytes_case : blocks 2 0 (of_size 7) ≡ codes "de"
blocks-info_bytes_case = blocks-info_bytes 2 (of_size 7) (omega arith) (omega arith)

seven_valid : validate (of_size 7) ≡ ok tt
unfolding validate
seven_valid = refl

validate-bounds_example : (total_size (of_size 7) < 8) × (total_size (of_size 7) ≤ max_torrent_size)
validate-bounds_example = validate-bounds (of_size 7) seven_valid

-- Both pieces full.
eight : total_size (of_size 8) ≡ 8
unfolding total_size
eight = refl

validate-full_last_piece_example : validate (of_size 8) ≡ err invalid_metainfo_size
validate-full_last_piece_example = validate-full_last_piece (of_size 8) eight
