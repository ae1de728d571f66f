-- ===== src/Torrent.antt =====
-- domain/torrent.rs: the metainfo of a torrent, its total size and the blocks of its info dictionary.
pub mod Laws
pub mod Parse
pub mod ParseLaws
pub mod Announces
pub mod Trackers
pub mod Says
pub mod InfoLaws
pub mod Describe
pub mod Fetched
pub mod ParseTests
pub mod Tests
use tortue.Prelude.{
  ℕ, zero, suc, ◌+◌, ◌-◌, ◌*◌, ◌%◌, ◌^◌, Bytes, List, [], ◌∷◌, Bool, Option, Result, ok, err, leb,
  ltb, if◌then◌else◌, length, take, drop,
}
use tortue.Prelude.Int.{ℤ}
use tortue.Bencode.Value

pub record File : Type 0 where
  pub len : ℕ
  pub path : List Bytes

pub data Mode : Type 0 where
  single : ℕ → Mode
  multiple : List File → Mode

pub record Metainfo : Type 0 where
  pub name : Bytes
  pub announce : List Bytes
  pub comment : Option Bytes
  pub created_by : Option Bytes
  pub created_at : Option ℤ
  pub url_list : Option (List Bytes)
  pub info_bytes : Bytes
  pub info_hash : Bytes
  pub piece_length : ℕ
  pub pieces : List Bytes
  pub mode : Mode

pub data Error : Type 0 where
  bencode : Value.Error → Error
  invalid_utf8 unexpected_type negative_length invalid_pieces_length : Error
  invalid_metainfo_size torrent_too_large : Error

abbrev pub metadata_piece_size : ℕ
metadata_piece_size = 16384

abbrev pub max_torrent_size : ℕ
max_torrent_size = 42949672960

abbrev pub sum_lengths : List File → ℕ
sum_lengths [] = 0
sum_lengths (f ∷ fs) = f.len + sum_lengths fs

-- The sum is `u64`'s, which wraps around.
unfoldable pub total_size : Metainfo → ℕ
total_size m = elim m.mode [ single n ↦ n | multiple files ↦ sum_lengths files % 2 ^ 64 ]

-- The product is `usize`'s, which wraps around.
unfoldable pub info_bytes_block : ℕ → Metainfo → Bytes
info_bytes_block piece m =
    let start = piece * metadata_piece_size % 2 ^ 64 in
    if leb (length m.info_bytes) start
    then []
    else take metadata_piece_size (drop start m.info_bytes)

unfoldable pub validate : Metainfo → Result Error (Unit {0})
unfolding total_size
validate m =
    let max_expected_size = m.piece_length * length m.pieces % 2 ^ 64 in
    if leb max_expected_size (total_size m)
    then err invalid_metainfo_size
    else if ltb max_torrent_size (total_size m)
    then err torrent_too_large
    else ok tt
