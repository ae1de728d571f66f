-- ===== src/Message/Handshake.antt =====
-- domain/message.rs, `ExtensionHandshake`, and the conversions of integers by `as`.
use tortue.Prelude.{
  ℕ, ◌-◌, ◌^◌, Bytes, List, [], ◌∷◌, Option, none, some, Result, ok, err, ltb, leb, if◌then◌else◌,
  codes,
}
use tortue.Prelude.Int.{ℤ, pos, negsuc}
use tortue.Bencode.Value.{Error, Bencode, Entries, int, dict, no_entries, entry, insert}
use tortue.Bencode.Utf8.{is_utf8}
use tortue.Bencode.Encoder.{encode}
use tortue.Bencode.Access.{get, get_int}

-- `usize as i64`
abbrev pub as_i64 : ℕ → ℤ
as_i64 n = if ltb n (2 ^ 63) then pos n else negsuc (2 ^ 64 - n - 1)

-- `i64 as usize`
abbrev pub as_usize : ℤ → ℕ
as_usize (pos n) = n
as_usize (negsuc n) = 2 ^ 64 - 1 - n

-- `usize::try_from`
abbrev pub usize_try_from : ℤ → Option ℕ
usize_try_from (pos n) = some n
usize_try_from (negsuc n) = none

-- `extensions` is a `HashMap`: its pairs, in the order of an iteration.
pub record ExtensionHandshake : Type 0 where
  pub extensions : List (Bytes × ℕ)
  pub metadata_size : Option ℕ

-- The closure of `filter_map`: names are UTF-8 and identifiers fit a byte.
abbrev pub extension_id : Bytes → Bencode → Option ℕ
extension_id k (int (pos n)) = if is_utf8 k then if leb n 255 then some n else none else none
extension_id k _ = none

unfoldable pub extensions_of : Entries → List (Bytes × ℕ)
unfolding is_utf8
extensions_of no_entries = []
extensions_of (entry k v es) =
    let more = extensions_of es in
    elim (extension_id k v) [ some id ↦ (k, id) ∷ more | none ↦ more ]

abbrev pub extensions_field : Result Error Bencode → List (Bytes × ℕ)
extensions_field r = elim r [ ok (dict m) ↦ extensions_of m | _ ↦ [] ]

abbrev pub size_field : Result Error ℤ → Option ℕ
size_field (ok v) = usize_try_from v
size_field (err e) = none

unfoldable pub from_bencode : Bencode → ExtensionHandshake
unfolding extensions_of get get_int
from_bencode payload = record {
  extensions = extensions_field (get payload (codes "m"));
  metadata_size = size_field (get_int payload (codes "metadata_size"));
}

-- The loop that fills the dictionary `m`.
unfoldable pub fill : List (Bytes × ℕ) → Entries → Entries
unfolding insert
fill [] m = m
fill ((name, id) ∷ more) m = fill more (insert name (int (as_i64 id)) m)

abbrev pub with_size : Option ℕ → Entries → Entries
with_size none d = d
with_size (some n) d = insert (codes "metadata_size") (int (as_i64 n)) d

unfoldable pub encode_handshake : ExtensionHandshake → Bytes
unfolding fill
encode_handshake hs = encode (
    dict (
      with_size hs.metadata_size
        (insert (codes "m") (dict (fill hs.extensions no_entries)) no_entries)))
