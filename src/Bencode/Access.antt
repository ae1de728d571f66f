-- ===== src/Bencode/Access.antt =====
-- domain/bencode.rs, the accessors of a dictionary.
use tortue.Prelude.{Bytes, Option, none, some, Result, ok, err, if◌then◌else◌, bytes_beq, ok_or}
use tortue.Prelude.Int.{ℤ}
use tortue.Bencode.Value.{
  Error, key_not_found, type_mismatch, invalid_string, Bencode, Items, Entries, int, bytes, list,
  dict, no_entries, entry,
}
use tortue.Bencode.Utf8.{is_utf8}

-- `BTreeMap::get`
unfoldable pub find : Bytes → Entries → Option Bencode
find k no_entries = none
find k (entry j v es) = if bytes_beq j k then some v else find k es

unfoldable pub get : Bencode → Bytes → Result Error Bencode
unfolding find
get (dict es) key = ok_or (find key es) key_not_found
get _ key = err type_mismatch

abbrev pub as_bytes : Bencode → Result Error Bytes
as_bytes (bytes b) = ok b
as_bytes _ = err type_mismatch

abbrev pub as_int : Bencode → Result Error ℤ
as_int (int z) = ok z
as_int _ = err type_mismatch

abbrev pub as_list : Bencode → Result Error Items
as_list (list xs) = ok xs
as_list _ = err type_mismatch

unfoldable pub get_bytes : Bencode → Bytes → Result Error Bytes
unfolding get
get_bytes v key = elim (get v key) [ ok w ↦ as_bytes w | err e ↦ err e ]

unfoldable pub get_int : Bencode → Bytes → Result Error ℤ
unfolding get
get_int v key = elim (get v key) [ ok w ↦ as_int w | err e ↦ err e ]

unfoldable pub get_list : Bencode → Bytes → Result Error Items
unfolding get
get_list v key = elim (get v key) [ ok w ↦ as_list w | err e ↦ err e ]

unfoldable pub get_utf8 : Bencode → Bytes → Result Error Bytes
unfolding get_bytes is_utf8
get_utf8 v key = elim (get_bytes v key) [
  | ok b ↦ if is_utf8 b then ok b else err invalid_string
  | err e ↦ err e
]
