-- ===== src/Torrent/Describe.antt =====
-- A torrent file as BEP 3 describes it, against which `Metainfo::try_from` is checked.
use tortue.Prelude.{
  ℕ, ◌*◌, ◌/◌, ◌%◌, Bytes, List, [], ◌∷◌, none, some, ok, codes, true, length, length-append, All,
  ◌≡◌, refl, ◌∙◌, arith, take_exactly, drop_exactly,
}
use tortue.Prelude.Int.{pos}
use tortue.Prelude.Chunks.{chunks, chunks_exact, flatten}
use tortue.Bencode.Value.{
  Bencode, Items, Entries, int, bytes, list, dict, no_entries, entry, no_items, item, WellFormed,
}
use tortue.Bencode.Utf8.{is_utf8}
use tortue.Bencode.Access.{get, find, get_utf8, get_int, get_list, get_bytes}
use tortue.Bencode.Encoder.{encode}
use tortue.Torrent.Fetched.{try_from_decoded}
use tortue.Torrent.{validate, Metainfo, Mode, single, multiple, File}
use tortue.Torrent.ParseLaws.{IsHash, decode_encoded, of_root-accepts}
use tortue.Torrent.Says.{path_items}
use tortue.Torrent.Parse.{
  parse_pieces, Info, parse_info, path_of, file_of, files_of, bytes_to_str, try_from, assemble,
  info_hash, parse_announces, parse_url_list, visit_all, merged, tiers_of, url_list_of,
}

abbrev file_value : File → Bencode
file_value f = dict (
    entry (codes "length") (int (pos f.len))
      (entry (codes "path") (list (path_items f.path)) no_entries))

abbrev file_items : List File → Items
file_items [] = no_items
file_items (f ∷ fs) = item (file_value f) (file_items fs)

abbrev mode_entry : Mode → Entries → Entries
mode_entry (single n) es = entry (codes "length") (int (pos n)) es
mode_entry (multiple files) es = entry (codes "files") (list (file_items files)) es

-- The info dictionary of a torrent.
unfoldable pub info_value : Info → Bencode
info_value i = dict (
    mode_entry i.mode (
      entry (codes "name") (bytes i.name) (
        entry (codes "piece length") (int (pos i.piece_length))
          (entry (codes "pieces") (bytes (flatten i.pieces)) no_entries))))

abbrev pub IsText : Bytes → Type 0
IsText s = is_utf8 s ≡ true

abbrev pub IsTextFile : File → Type 0
IsTextFile f = All IsText f.path

abbrev pub IsTextMode : Mode → Type 0
IsTextMode (single n) = Unit
IsTextMode (multiple files) = All IsTextFile files

bytes_to_str-text : (s : Bytes) → IsText s → bytes_to_str (bytes s) ≡ some s
unfolding bytes_to_str
bytes_to_str-text s h = rw h refl

path_of-items : (ss : List Bytes) → All IsText ss → path_of (path_items ss) ≡ ok ss
unfolding path_of
path_of-items [] h = refl
path_of-items (s ∷ ss) h = rw (bytes_to_str-text s h.0, path_of-items ss h.1) refl

file_of-value : (f : File) → IsTextFile f → file_of (file_value f) ≡ ok f
unfolding file_of
file_of-value f h = rw (path_of-items f.path h) refl

files_of-items : (fs : List File) → All IsTextFile fs → files_of (file_items fs) ≡ ok fs
unfolding files_of
files_of-items [] h = refl
files_of-items (f ∷ fs) h = rw (file_of-value f h.0, files_of-items fs h.1) refl

length-flatten : (hs : List Bytes) → All IsHash hs → length (flatten hs) ≡ length hs * 20
length-flatten [] h = refl
length-flatten (x ∷ hs) h = omega (arith, length-append x (flatten hs), length-flatten hs h.1, h.0)

chunks-flatten : (hs : List Bytes) → All IsHash hs → chunks (length hs) 20 (flatten hs) ≡ hs
unfolding chunks
chunks-flatten [] h = refl
chunks-flatten (x ∷ hs) h =
    rw
      (
        take_exactly 20 x (flatten hs) h.0,
        drop_exactly 20 x (flatten hs) h.0,
        chunks-flatten hs h.1,
      )
      refl

parse_pieces-flatten : (hs : List Bytes) → All IsHash hs → parse_pieces (flatten hs) ≡ ok hs
unfolding parse_pieces chunks_exact
parse_pieces-flatten hs h =
    let whole : length (flatten hs) % 20 ≡ 0 = omega (arith, length-flatten hs h) in
    let many : length (flatten hs) / 20 ≡ length hs = omega (arith, length-flatten hs h) in
    rw (whole, many, chunks-flatten hs h) refl

abbrev made : Bytes → ℕ → List Bytes → Mode → Info
made n l ps m = record { name = n; piece_length = l; pieces = ps; mode = m }

parse_info-made :
    (n : Bytes) (l : ℕ) (ps : List Bytes) (m : Mode)
    → IsText n
    → All IsHash ps
    → IsTextMode m
    → parse_info (info_value (made n l ps m)) ≡ ok (made n l ps m)
unfolding parse_info info_value get find get_utf8 get_bytes get_int
parse_info-made n l ps (single k) t h m = rw (t, parse_pieces-flatten ps h) refl
parse_info-made n l ps (multiple fs) t h m =
    rw (t, parse_pieces-flatten ps h, files_of-items fs m) refl

-- The info dictionary of any torrent whose names are UTF-8 and whose hashes have 20 bytes is read
-- back from its value.
pub parse_info-info_value :
    (i : Info)
    → IsText i.name
    → All IsHash i.pieces
    → IsTextMode i.mode
    → parse_info (info_value i) ≡ ok i
parse_info-info_value i t h m = parse_info-made i.name i.piece_length i.pieces i.mode t h m

-- A whole file: an announce address and an info dictionary.
abbrev pub file_root : Bytes → Info → Bencode
file_root main i =
    dict (entry (codes "announce") (bytes main) (entry (codes "info") (info_value i) no_entries))

parse_announces-main :
    (main : Bytes) (i : Info) → IsText main → parse_announces (file_root main i) ≡ ok (main ∷ [])
unfolding parse_announces merged tiers_of visit_all get get_utf8 get_bytes get_list find
parse_announces-main main i h = rw h refl

module _ (sha1 : Bytes → Bytes) where
  abbrev pub described : Bytes → Info → Metainfo
  described main i = record {
    name = i.name;
    announce = main ∷ [];
    comment = none;
    created_by = none;
    created_at = none;
    url_list = none;
    info_bytes = encode (info_value i);
    info_hash = sha1 (encode (info_value i));
    piece_length = i.piece_length;
    pieces = i.pieces;
    mode = i.mode;
  }

  -- The file that BEP 3 prescribes for a torrent, where its numbers and lengths fit 64 bits, its
  -- names are UTF-8, its hashes have 20 bytes and its sizes pass `validate`, is parsed to that
  -- torrent, the info bytes and the info hash being those of its info dictionary.
  pub try_from-file_root :
      (main : Bytes) (i : Info)
      → WellFormed (file_root main i)
      → IsText main
      → IsText i.name
      → All IsHash i.pieces
      → IsTextMode i.mode
      → validate (described main i) ≡ ok tt
      → try_from sha1 (encode (file_root main i)) ≡ ok (described main i)
  unfolding assemble info_hash get get_utf8 get_bytes get_int get_list find parse_url_list
      url_list_of
  try_from-file_root main i w t n h m v =
      try_from_decoded sha1 (encode (file_root main i)) (file_root main i)
        (decode_encoded (file_root main i) w)
      ∙ of_root-accepts sha1 (file_root main i) (main ∷ []) (info_value i) i
          (parse_announces-main main i t) refl (parse_info-info_value i n h m) v
