-- ===== src/Torrent/InfoLaws.antt =====
-- The parser of an info dictionary in domain/torrent.rs, against the dictionary's entries.
use tortue.Prelude.{
  length, ◌*◌, ◌/◌, ◌%◌, ◌==◌, All, arith, Bytes, List, [], ◌∷◌, Bool, true, false, Option, none,
  some, Result, ok, err, >>=-eq-ok, ok-injective, map_err, map_err-eq-ok, if-eq-ok, ok_or, codes,
  if◌then◌else◌, ◌≡◌, refl, ap, ◌∙◌, subst,
}
use tortue.Prelude.Chunks.{flatten, chunks, chunks_exact, All-chunks, length-chunks, flatten-chunks}
use tortue.Bencode.Value
use tortue.Bencode.Value.{
  Bencode, Items, Entries, int, bytes, list, dict, no_entries, entry, no_items, item, key_not_found,
  invalid_string,
}
use tortue.Bencode.Utf8.{is_utf8}
use tortue.Bencode.Access.{get, get_bytes, get_utf8, get_int, get_list}
use tortue.Torrent.{Mode, single, multiple, File, bencode, invalid_utf8}
use tortue.Torrent.Parse.{
  Info, parse_info, mode_of, files_of, file_of, path_of, parse_pieces, bytes_to_str, to_u64,
  to_usize,
}
use tortue.Torrent.Says.{
  path_items, FileSays, FilesSay, ModeSays, InfoSays, get-eq-ok, get-eq-err, get_bytes-eq-ok,
  get_int-eq-ok, get_list-eq-ok, get_utf8-eq-ok, to_u64-eq-ok, to_usize-eq-ok,
}

-- The hashes are the pieces string cut into twenties.
pub parse_pieces-cuts :
    (s : Bytes) (hs : List Bytes)
    → parse_pieces s ≡ ok hs
    → (flatten hs ≡ s) × All (λ h. length h ≡ 20) hs × (length hs * 20 ≡ length s)
unfolding parse_pieces chunks_exact
parse_pieces-cuts s hs h =
    let (e, same) = if-eq-ok (length s % 20 == 0) (chunks (length s / 20) 20 s) hs _ h in
    let whole : length s ≡ length s / 20 * 20 = ground (arith, e) in
    subst (λ k. (flatten k ≡ s) × All (λ h. length h ≡ 20) k × (length k * 20 ≡ length s)) same
      (
        flatten-chunks (length s / 20) 20 s whole,
        All-chunks (length s / 20) 20 s (omega (arith, whole)),
        omega (arith, whole, length-chunks (length s / 20) 20 s),
      )

bytes_to_str-eq-some : (v : Bencode) (s : Bytes) → bytes_to_str v ≡ some s → v ≡ bytes s
unfolding bytes_to_str
bytes_to_str-eq-some (bytes b) s h = ap bytes (taken (is_utf8 b) h)
  where
    taken : (t : Bool) → (if t then some b else none) ≡ some s → b ≡ s
    taken true g = cc
    taken false g = cc
bytes_to_str-eq-some (int z) s h = cc
bytes_to_str-eq-some (list xs) s h = cc
bytes_to_str-eq-some (dict es) s h = cc

text_of : (v : Bencode) (s : Bytes) → ok_or (bytes_to_str v) invalid_utf8 ≡ ok s → v ≡ bytes s
text_of v s h = bytes_to_str-eq-some v s (some_of (bytes_to_str v) h)
  where
    some_of : (o : Option Bytes) → ok_or o invalid_utf8 ≡ ok s → o ≡ some s
    some_of none g = cc
    some_of (some t) g = cc

path_of-eq-ok : (cs : Items) (path : List Bytes) → path_of cs ≡ ok path → cs ≡ path_items path
unfolding path_of
path_of-eq-ok no_items path h = ap path_items (ok-injective [] path h)
path_of-eq-ok (item c cs) path h =
    let (name, e₁, h₁) = >>=-eq-ok (ok_or (bytes_to_str c) invalid_utf8) _ h in
    let (names, e₂, h₂) = >>=-eq-ok (path_of cs) _ h₁ in
    ap (λ v. item v cs) (text_of c name e₁)
    ∙ ap (λ xs. item (bytes name) xs) (path_of-eq-ok cs names e₂)
    ∙ ap path_items (ok-injective (name ∷ names) path h₂)

file_of-Says : (b : Bencode) (f : File) → file_of b ≡ ok f → FileSays b f
unfolding file_of get_int get
file_of-Says (dict es) f h =
    let (z, e₁, h₁) = >>=-eq-ok (map_err bencode (get_int (dict es) (codes "length"))) _ h in
    let (n, e₂, h₂) = >>=-eq-ok (to_u64 z) _ h₁ in
    let (components, e₃, h₃) =
      >>=-eq-ok (map_err bencode (get_list (dict es) (codes "path"))) _ h₂ in
    let (names, e₄, h₄) = >>=-eq-ok (path_of components) _ h₃ in
    subst (FileSays (dict es)) (ok-injective _ f h₄) (
      get_int-eq-ok es (codes "length") z (map_err-eq-ok bencode _ z e₁)
          ∙ ap (λ y. some (int y)) (to_u64-eq-ok z n e₂),
      get_list-eq-ok es (codes "path") components (map_err-eq-ok bencode _ components e₃)
          ∙ ap (λ cs. some (list cs)) (path_of-eq-ok components names e₄),
    )
file_of-Says (int z) f h = cc
file_of-Says (bytes b) f h = cc
file_of-Says (list xs) f h = cc

files_of-Say : (bs : Items) (fs : List File) → files_of bs ≡ ok fs → FilesSay bs fs
unfolding files_of
files_of-Say no_items fs h = subst (FilesSay no_items) (ok-injective [] fs h) tt
files_of-Say (item b bs) fs h =
    let (f, e₁, h₁) = >>=-eq-ok (file_of b) _ h in
    let (rest, e₂, h₂) = >>=-eq-ok (files_of bs) _ h₁ in
    subst (FilesSay (item b bs)) (ok-injective (f ∷ rest) fs h₂)
      (file_of-Says b f e₁, files_of-Say bs rest e₂)

mode_of-Says :
    (es : Entries) (r : Result Value.Error Bencode) (mode : Mode)
    → get (dict es) (codes "length") ≡ r
    → mode_of (dict es) r ≡ ok mode
    → ModeSays es mode
unfolding mode_of
mode_of-Says es (ok (int z)) mode g h =
    let (n, e₁, h₁) = >>=-eq-ok (to_u64 z) _ h in
    subst (ModeSays es) (ok-injective (single n) mode h₁)
      (get-eq-ok es (codes "length") (int z) g ∙ ap (λ y. some (int y)) (to_u64-eq-ok z n e₁))
mode_of-Says es (ok (bytes b)) mode g h = cc
mode_of-Says es (ok (list xs)) mode g h = cc
mode_of-Says es (ok (dict ds)) mode g h = cc
mode_of-Says es (err e) mode g h =
    let (entries, e₁, h₁) = >>=-eq-ok (map_err bencode (get_list (dict es) (codes "files"))) _ h in
    let (files, e₂, h₂) = >>=-eq-ok (files_of entries) _ h₁ in
    subst (ModeSays es) (ok-injective (multiple files) mode h₂) (
      get-eq-err es (codes "length") e g,
      entries,
      get_list-eq-ok es (codes "files") entries (map_err-eq-ok bencode _ entries e₁),
      files_of-Say entries files e₂,
    )

pub parse_info-Says : (info : Bencode) (i : Info) → parse_info info ≡ ok i → InfoSays info i
unfolding parse_info get_utf8 get_bytes get
parse_info-Says (dict es) i h =
    let (name, e₁, h₁) = >>=-eq-ok (map_err bencode (get_utf8 (dict es) (codes "name"))) _ h in
    let (z, e₂, h₂) = >>=-eq-ok (map_err bencode (get_int (dict es) (codes "piece length"))) _ h₁ in
    let (len, e₃, h₃) = >>=-eq-ok (to_usize z) _ h₂ in
    let (joined, e₄, h₄) =
      >>=-eq-ok (map_err bencode (get_bytes (dict es) (codes "pieces"))) _ h₃ in
    let (pieces, e₅, h₅) = >>=-eq-ok (parse_pieces joined) _ h₄ in
    let (mode, e₆, h₆) = >>=-eq-ok (mode_of (dict es) (get (dict es) (codes "length"))) _ h₅ in
    subst (InfoSays (dict es)) (ok-injective _ i h₆) (
      get_utf8-eq-ok es (codes "name") name (map_err-eq-ok bencode _ name e₁),
      get_int-eq-ok es (codes "piece length") z (map_err-eq-ok bencode _ z e₂)
          ∙ ap (λ y. some (int y)) (to_usize-eq-ok z len e₃),
      joined,
      get_bytes-eq-ok es (codes "pieces") joined (map_err-eq-ok bencode _ joined e₄),
      (parse_pieces-cuts joined pieces e₅).0,
      mode_of-Says es _ mode refl e₆,
    )
parse_info-Says (int z) i h = cc
parse_info-Says (bytes b) i h = cc
parse_info-Says (list xs) i h = cc
