-- ===== src/Torrent/Parse.antt =====
-- domain/torrent.rs, `Metainfo::try_from` and the functions that it calls.
use tortue.Prelude.{
  bytes_eq, ℕ, ◌%◌, Bytes, List, [], ◌∷◌, ◌++◌, Option, none, some, Result, ok, err, ◌>>=◌, map_err,
  ok_or, to_option, codes, length, is_empty, if◌then◌else◌, ◌==◌,
}
use tortue.Prelude.Int.{ℤ, pos, negsuc}
use tortue.Prelude.Chunks.{chunks_exact, flatten}
use tortue.Prelude.Dict.{contains, add}
use tortue.Bencode.Value
use tortue.Bencode.Value.{Bencode, Items, bytes, list, int, no_items, item}
use tortue.Bencode.Access.{get, get_utf8, get_int, get_list, get_bytes}
use tortue.Bencode.Utf8.{is_utf8}
use tortue.Bencode.Decoder
use tortue.Bencode.Encoder.{encode}
use tortue.Torrent.{
  Metainfo, Mode, single, multiple, File, Error, bencode, invalid_utf8, unexpected_type,
  negative_length, invalid_pieces_length, validate,
}

abbrev pub piece_hash_len : ℕ
piece_hash_len = 20

-- `usize` and `u64` hold every `i64` that is not negative.
abbrev pub to_u64 : ℤ → Result Error ℕ
to_u64 (pos n) = ok n
to_u64 (negsuc n) = err negative_length

abbrev pub to_usize : ℤ → Result Error ℕ
to_usize (pos n) = ok n
to_usize (negsuc n) = err negative_length

unfoldable pub bytes_to_str : Bencode → Option Bytes
unfolding is_utf8
bytes_to_str (bytes b) = if is_utf8 b then some b else none
bytes_to_str _ = none

abbrev pub keep {ℓ} : {A : Type ℓ} → Option A → List A → List A
keep none rest = rest
keep (some a) rest = a ∷ rest

-- `filter_map(bytes_to_str)`
unfoldable pub strings : Items → List Bytes
unfolding bytes_to_str
strings no_items = []
strings (item v xs) = keep (bytes_to_str v) (strings xs)

-- The body of the `filter_map` over the tiers.
abbrev pub nonempty : List Bytes → Option (List Bytes)
nonempty urls = if is_empty urls then none else some urls

unfoldable pub tier_urls : Bencode → Option (List Bytes)
unfolding strings
tier_urls (list urls) = nonempty (strings urls)
tier_urls _ = none

unfoldable pub parse_announce_list : Items → List (List Bytes)
unfolding tier_urls
parse_announce_list no_items = []
parse_announce_list (item tier tiers) = keep (tier_urls tier) (parse_announce_list tiers)

-- The variables of the loop over the tracker addresses.
pub record Announces : Type 0 where
  pub seen : List Bytes
  pub announces : List Bytes

-- One round: `seen.insert(url)` says whether the address is new.
unfoldable pub visit : Bytes → Announces → Announces
visit url a =
    if contains url a.seen
    then a
    else record { seen = add url a.seen; announces = a.announces ++ url ∷ [] }

unfoldable pub visit_all : List Bytes → Announces → Announces
unfolding visit
visit_all [] a = a
visit_all (url ∷ urls) a = visit_all urls (visit url a)

unfoldable pub tiers_of : Result Value.Error Items → List (List Bytes)
unfolding parse_announce_list
tiers_of (ok tiers) = parse_announce_list tiers
tiers_of (err e) = []

unfoldable pub merged : Bytes → List (List Bytes) → List Bytes
unfolding visit_all
merged main tiers =
    (visit_all (flatten tiers) (record { seen = add main []; announces = main ∷ [] })).announces

unfoldable pub parse_announces : Bencode → Result Error (List Bytes)
unfolding merged tiers_of get_utf8 get_list
parse_announces root = do
  main_announce ← map_err bencode (get_utf8 root (codes "announce"))
  ok (merged main_announce (tiers_of (get_list root (codes "announce-list"))))

unfoldable pub url_list_of : Result Value.Error Items → Option (List Bytes)
unfolding strings
url_list_of (ok urls) = nonempty (strings urls)
url_list_of (err e) = none

unfoldable pub parse_url_list : Bencode → Option (List Bytes)
unfolding url_list_of get_list
parse_url_list root = url_list_of (get_list root (codes "url-list"))

unfoldable pub parse_pieces : Bytes → Result Error (List Bytes)
unfolding chunks_exact
parse_pieces s =
    if length s % piece_hash_len == 0
    then ok (chunks_exact piece_hash_len s)
    else err invalid_pieces_length

-- `collect` of the path's components, up to the first that is no string.
unfoldable pub path_of : Items → Result Error (List Bytes)
unfolding bytes_to_str
path_of no_items = ok []
path_of (item c cs) = do
  name ← ok_or (bytes_to_str c) invalid_utf8
  names ← path_of cs
  ok (name ∷ names)

-- `File::try_from`
unfoldable pub file_of : Bencode → Result Error File
unfolding path_of get_int get_list
file_of b = do
  z ← map_err bencode (get_int b (codes "length"))
  n ← to_u64 z
  components ← map_err bencode (get_list b (codes "path"))
  names ← path_of components
  ok (record { len = n; path = names })

unfoldable pub files_of : Items → Result Error (List File)
unfolding file_of
files_of no_items = ok []
files_of (item b bs) = do f ← file_of b; fs ← files_of bs; ok (f ∷ fs)

-- The match on `info.get(b"length")`.
unfoldable pub mode_of : Bencode → Result Value.Error Bencode → Result Error Mode
unfolding files_of get_list
mode_of info (ok (int z)) = do n ← to_u64 z; ok (single n)
mode_of info (ok _) = err unexpected_type
mode_of info (err e) = do
  entries ← map_err bencode (get_list info (codes "files"))
  files ← files_of entries
  ok (multiple files)

pub record Info : Type 0 where
  pub name : Bytes
  pub piece_length : ℕ
  pub pieces : List Bytes
  pub mode : Mode

unfoldable pub parse_info : Bencode → Result Error Info
unfolding get get_utf8 get_int get_bytes parse_pieces mode_of
parse_info info = do
  name ← map_err bencode (get_utf8 info (codes "name"))
  z ← map_err bencode (get_int info (codes "piece length"))
  piece_length ← to_usize z
  joined ← map_err bencode (get_bytes info (codes "pieces"))
  pieces ← parse_pieces joined
  mode ← mode_of info (get info (codes "length"))
  ok (record { name = name; piece_length = piece_length; pieces = pieces; mode = mode })

module _ (sha1 : Bytes → Bytes) where
  unfoldable pub info_hash : Bencode → Bytes × Bytes
  info_hash info = let encoded_info = encode info in (sha1 encoded_info, encoded_info)

  -- The value that the struct expression of `try_from` builds.
  unfoldable pub assemble : Bencode → List Bytes → Bencode → Info → Metainfo
  unfolding info_hash get_utf8 get_int parse_url_list
  assemble root announce info i = record {
    name = i.name;
    announce = announce;
    comment = to_option (get_utf8 root (codes "comment"));
    created_by = to_option (get_utf8 root (codes "created by"));
    created_at = to_option (get_int root (codes "creation date"));
    url_list = parse_url_list root;
    info_bytes = (info_hash info).1;
    info_hash = (info_hash info).0;
    piece_length = i.piece_length;
    pieces = i.pieces;
    mode = i.mode;
  }

  unfoldable pub of_root : Bencode → Result Error Metainfo
  unfolding get parse_announces parse_info assemble validate
  of_root root = do
    announce ← parse_announces root
    info ← map_err bencode (get root (codes "info"))
    i ← parse_info info
    let metainfo = assemble root announce info i
    valid ← validate metainfo
    ok metainfo

  unfoldable pub try_from : Bytes → Result Error Metainfo
  unfolding of_root
  try_from input = do root ← map_err bencode (Decoder.decode input); of_root root
