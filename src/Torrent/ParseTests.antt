-- ===== src/Torrent/ParseTests.antt =====
-- The parser of metainfo at a torrent of seven bytes in two pieces.
use tortue.Prelude.{ℕ, Bytes, [], ◌∷◌, ok, err, replicate, codes, true, ◌≡◌, refl, arith}
use tortue.Bencode.Value.{
  Bencode, bytes, list, dict, no_entries, entry, item, no_items, WellFormed, key_not_found, cmp,
}
use tortue.Bencode.Utf8.{is_utf8}
use tortue.Bencode.Access.{get}
use tortue.Bencode.Encoder.{encode}
use tortue.Torrent.{Metainfo, single, validate}
use tortue.Torrent.Parse.{Info, try_from, parse_announces, parse_info}
use tortue.Torrent.Trackers.{trackers, parse_announces-trackers}
use tortue.Torrent.ParseLaws.{IsCoherent, try_from-IsCoherent}
use tortue.Torrent.Describe.{
  info_value, file_root, described, try_from-file_root, parse_info-info_value,
}

abbrev digest : Bytes → Bytes
digest d = d

abbrev hash : ℕ → Bytes
hash n = replicate 20 n

abbrev pub info : Info
info = record { name = codes "x"; piece_length = 4; pieces = hash 1 ∷ hash 2 ∷ []; mode = single 7 }

abbrev main : Bytes
main = codes "u"

abbrev pub torrent_file : Bencode
torrent_file = file_root main info

abbrev pub torrent : Metainfo
torrent = described digest main info

pub torrent_file-WellFormed : WellFormed torrent_file
unfolding WellFormed info_value cmp
torrent_file-WellFormed = (
  ((refl, tt), (tt, tt)),
  (
    omega arith,
    omega arith,
    (
      omega arith,
      (
        ((refl, (refl, (refl, tt))), ((refl, (refl, tt)), ((refl, tt), (tt, tt)))),
        (
          omega arith,
          omega arith,
          (omega arith, omega arith, (omega arith, omega arith, (omega arith, omega arith, tt))),
        ),
      ),
      tt,
    ),
  ),
)

texts : (is_utf8 (codes "u") ≡ true) × (is_utf8 (codes "x") ≡ true)
unfolding is_utf8
texts = (refl, refl)

torrent-validated : validate torrent ≡ ok tt
unfolding validate
torrent-validated = refl

try_from-file_root_example : try_from digest (encode torrent_file) ≡ ok torrent
try_from-file_root_example =
    try_from-file_root digest main info torrent_file-WellFormed texts.0 texts.1 (refl, (refl, tt))
      tt torrent-validated

pub accepted : try_from digest (encode torrent_file) ≡ ok torrent
accepted =
    try_from-file_root digest main info torrent_file-WellFormed texts.0 texts.1 (refl, (refl, tt))
      tt torrent-validated

try_from-IsCoherent_example : IsCoherent digest torrent
try_from-IsCoherent_example = try_from-IsCoherent digest (encode torrent_file) torrent accepted

pub info_found : get torrent_file (codes "info") ≡ ok (info_value info)
unfolding get
info_found = refl

pub announce_missing : get (info_value info) (codes "announce") ≡ err key_not_found
unfolding get info_value
announce_missing = refl

-- Three tiers, one of which is no list, and addresses that are repeated.
abbrev root : Bencode
root = dict (
    entry (codes "announce") (bytes (codes "a")) (
      entry (codes "announce-list")
        (list (
          item (list (item (bytes (codes "b")) (item (bytes (codes "a")) no_items))) (
            item (bytes (codes "c")) (
              item (list (item (bytes (codes "d")) (item (bytes (codes "b")) no_items)))
                no_items))))
        no_entries))

parse_announces-trackers_example : parse_announces root ≡ trackers root
parse_announces-trackers_example = parse_announces-trackers root

abd : parse_announces root ≡ ok (codes "a" ∷ codes "b" ∷ codes "d" ∷ [])
unfolding parse_announces is_utf8
abd = refl

parse_info-info_value_example : parse_info (info_value info) ≡ ok info
parse_info-info_value_example = parse_info-info_value info texts.1 (refl, (refl, tt)) tt
