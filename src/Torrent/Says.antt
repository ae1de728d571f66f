-- ===== src/Torrent/Says.antt =====
-- What an info dictionary says of a torrent, entry by entry, in domain/torrent.rs.
use tortue.Prelude.{
  ℕ, Bytes, List, [], ◌∷◌, Option, none, some, Result, ok, err, ok-injective, if-eq-ok, ok_or,
  codes, if◌then◌else◌, ◌≡◌, refl, sym, ap, ◌∙◌,
}
use tortue.Prelude.Int.{ℤ, pos, negsuc}
use tortue.Prelude.Chunks.{flatten}
use tortue.Bencode.Value
use tortue.Bencode.Value.{
  Bencode, Items, Entries, int, bytes, list, dict, no_entries, entry, no_items, item, key_not_found,
  invalid_string,
}
use tortue.Bencode.Utf8.{is_utf8}
use tortue.Bencode.Access.{
  find, get, get_bytes, get_utf8, get_int, get_list, as_bytes, as_int, as_list,
}
use tortue.Torrent.{Mode, single, multiple, File}
use tortue.Torrent.Trackers.{lookup, find-lookup}
use tortue.Torrent.Parse.{Info, to_u64, to_usize}

abbrev pub path_items : List Bytes → Items
path_items [] = no_items
path_items (s ∷ ss) = item (bytes s) (path_items ss)

abbrev pub FileSays : Bencode → File → Type 0
FileSays (dict es) f =
    (lookup (codes "length") es ≡ some (int (pos f.len)))
    × (lookup (codes "path") es ≡ some (list (path_items f.path)))
FileSays (int z) f = ⊥
FileSays (bytes b) f = ⊥
FileSays (list xs) f = ⊥

abbrev pub FilesSay : Items → List File → Type 0
FilesSay no_items [] = Unit
FilesSay (item b bs) (f ∷ fs) = FileSays b f × FilesSay bs fs
FilesSay no_items (f ∷ fs) = ⊥
FilesSay (item b bs) [] = ⊥

-- A torrent of one file has a `length`, one of several files has none and lists them in `files`.
abbrev pub ModeSays : Entries → Mode → Type 0
ModeSays es (single n) = lookup (codes "length") es ≡ some (int (pos n))
ModeSays es (multiple fs) =
    (lookup (codes "length") es ≡ none)
    × (items : Items) × (lookup (codes "files") es ≡ some (list items))
    × FilesSay items fs

abbrev pub InfoSays : Bencode → Info → Type 0
InfoSays (dict es) i =
    (lookup (codes "name") es ≡ some (bytes i.name))
    × (lookup (codes "piece length") es ≡ some (int (pos i.piece_length)))
    × (joined : Bytes) × (lookup (codes "pieces") es ≡ some (bytes joined))
    × (flatten i.pieces ≡ joined)
    × ModeSays es i.mode
InfoSays (int z) i = ⊥
InfoSays (bytes b) i = ⊥
InfoSays (list xs) i = ⊥

ok_or-eq-ok : (o : Option Bencode) (e : Value.Error) (v : Bencode) → ok_or o e ≡ ok v → o ≡ some v
ok_or-eq-ok none e v h = cc
ok_or-eq-ok (some w) e v h = cc

pub get-eq-ok :
    (es : Entries) (k : Bytes) (v : Bencode) → get (dict es) k ≡ ok v → lookup k es ≡ some v
unfolding get
get-eq-ok es k v h = sym (find-lookup k es) ∙ ok_or-eq-ok (find k es) key_not_found v h

pub get-eq-err :
    (es : Entries) (k : Bytes) (e : Value.Error) → get (dict es) k ≡ err e → lookup k es ≡ none
unfolding get
get-eq-err es k e h = sym (find-lookup k es) ∙ none_of (find k es) h
  where
    none_of : (o : Option Bencode) → ok_or o key_not_found ≡ err e → o ≡ none
    none_of none g = refl
    none_of (some w) g = cc

bytes_of :
    (r : Result Value.Error Bencode) (b : Bytes)
    → elim r [ ok w ↦ as_bytes w | err e ↦ err e ] ≡ ok b
    → r ≡ ok (bytes b)
bytes_of (ok (bytes c)) b h = cc
bytes_of (ok (int z)) b h = cc
bytes_of (ok (list xs)) b h = cc
bytes_of (ok (dict es)) b h = cc
bytes_of (err e) b h = cc

int_of :
    (r : Result Value.Error Bencode) (z : ℤ)
    → elim r [ ok w ↦ as_int w | err e ↦ err e ] ≡ ok z
    → r ≡ ok (int z)
int_of (ok (bytes c)) z h = cc
int_of (ok (int y)) z h = cc
int_of (ok (list xs)) z h = cc
int_of (ok (dict es)) z h = cc
int_of (err e) z h = cc

list_of :
    (r : Result Value.Error Bencode) (xs : Items)
    → elim r [ ok w ↦ as_list w | err e ↦ err e ] ≡ ok xs
    → r ≡ ok (list xs)
list_of (ok (bytes c)) xs h = cc
list_of (ok (int z)) xs h = cc
list_of (ok (list ys)) xs h = cc
list_of (ok (dict es)) xs h = cc
list_of (err e) xs h = cc

utf8_of :
    (r : Result Value.Error Bytes) (s : Bytes)
    → elim r [ ok b ↦ if is_utf8 b then ok b else err invalid_string | err e ↦ err e ] ≡ ok s
    → r ≡ ok s
utf8_of (ok b) s h = ap ok (if-eq-ok (is_utf8 b) b s invalid_string h).1
utf8_of (err e) s h = cc

module _ (es : Entries) (k : Bytes) where
  pub get_bytes-eq-ok : (b : Bytes) → get_bytes (dict es) k ≡ ok b → lookup k es ≡ some (bytes b)
  unfolding get_bytes
  get_bytes-eq-ok b h = get-eq-ok es k (bytes b) (bytes_of (get (dict es) k) b h)

  pub get_int-eq-ok : (z : ℤ) → get_int (dict es) k ≡ ok z → lookup k es ≡ some (int z)
  unfolding get_int
  get_int-eq-ok z h = get-eq-ok es k (int z) (int_of (get (dict es) k) z h)

  pub get_list-eq-ok : (xs : Items) → get_list (dict es) k ≡ ok xs → lookup k es ≡ some (list xs)
  unfolding get_list
  get_list-eq-ok xs h = get-eq-ok es k (list xs) (list_of (get (dict es) k) xs h)

  pub get_utf8-eq-ok : (s : Bytes) → get_utf8 (dict es) k ≡ ok s → lookup k es ≡ some (bytes s)
  unfolding get_utf8
  get_utf8-eq-ok s h = get_bytes-eq-ok s (utf8_of (get_bytes (dict es) k) s h)

pub to_u64-eq-ok : (z : ℤ) (n : ℕ) → to_u64 z ≡ ok n → z ≡ pos n
to_u64-eq-ok (pos m) n h = ap pos (ok-injective m n h)
to_u64-eq-ok (negsuc m) n h = cc

pub to_usize-eq-ok : (z : ℤ) (n : ℕ) → to_usize z ≡ ok n → z ≡ pos n
to_usize-eq-ok (pos m) n h = ap pos (ok-injective m n h)
to_usize-eq-ok (negsuc m) n h = cc
