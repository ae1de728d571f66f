-- ===== src/Message/HandshakeRoundTrip.antt =====
-- The extension handshake through its dictionary and back.
use tortue.Prelude.{
  ℕ, ◌^◌, ◌≤◌, ◌<◌, Bytes, List, [], ◌∷◌, true, Option, none, some, ok, length, ◌≡◌, refl, arith,
  ◌∙◌, codes, append-nil,
}
use tortue.Prelude.Int.{pos}
use tortue.Bencode.Value.{
  Bencode, Entries, int, dict, no_entries, entry, insert, cmp, IsSorted, WellFormed,
  WellFormedEntries,
}
use tortue.Bencode.Utf8.{is_utf8}
use tortue.Bencode.Encoder
use tortue.Bencode.Decoder
use tortue.Bencode.Keys.{append, append-entry, insert_last}
use tortue.Bencode.RoundTrip.{Before, Before-step, Before-nothing, append_nothing, decode-encode}
use tortue.Message.Handshake.{
  ExtensionHandshake, extensions_of, from_bencode, fill, with_size, encode_handshake, as_i64,
}

-- The dictionary `m` of a table of extensions.
unfoldable pub entries_of : List (Bytes × ℕ) → Entries
entries_of [] = no_entries
entries_of ((name, id) ∷ more) = entry name (int (pos id)) (entries_of more)

-- The names are Rust strings, and the identifiers bytes.
abbrev pub AreExtensions : List (Bytes × ℕ) → Type 0
AreExtensions [] = Unit
AreExtensions ((name, id) ∷ more) =
    (is_utf8 name ≡ true) × (id ≤ 255) × (length name < 2 ^ 64) × AreExtensions more

abbrev pub SizeFits : Option ℕ → Type 0
SizeFits none = Unit
SizeFits (some n) = n < 2 ^ 63

-- A handshake, its table listed in the order of the names.
pub record IsCanonical (hs : ExtensionHandshake) : Type 0 where
  pub ordered : IsSorted (entries_of hs.extensions)
  pub typed : AreExtensions hs.extensions
  pub sized : SizeFits hs.metadata_size

fill-entries_of :
    (xs : List (Bytes × ℕ)) (m : Entries)
    → AreExtensions xs
    → IsSorted (entries_of xs)
    → Before m (entries_of xs)
    → fill xs m ≡ append m (entries_of xs)
unfolding fill entries_of
fill-entries_of [] m t s b = rw (append_nothing m) refl
fill-entries_of ((name, id) ∷ more) m t s b =
    rw (as_i64-id id (t.1), insert_last name (int (pos id)) m b.0)
      (fill-entries_of more _ t.3 s.1 (Before-step m name (int (pos id)) (entries_of more) b.1 s.0)
        ∙ append-entry m name (int (pos id)) (entries_of more))
  where
    as_i64-id : (n : ℕ) → n ≤ 255 → as_i64 n ≡ pos n
    as_i64-id n h = ground arith

extensions_of-entries_of :
    (xs : List (Bytes × ℕ)) → AreExtensions xs → extensions_of (entries_of xs) ≡ xs
unfolding extensions_of entries_of
extensions_of-entries_of [] t = refl
extensions_of-entries_of ((name, id) ∷ more) t = ground (arith, extensions_of-entries_of more t.3)

entries_of-WellFormed :
    (xs : List (Bytes × ℕ)) → AreExtensions xs → WellFormedEntries (entries_of xs)
unfolding WellFormed entries_of
entries_of-WellFormed [] t = tt
entries_of-WellFormed ((name, id) ∷ more) t = (t.2, omega arith, entries_of-WellFormed more t.3)

abbrev size_entries : Option ℕ → Entries
size_entries none = no_entries
size_entries (some n) = entry (codes "metadata_size") (int (pos n)) no_entries

abbrev dictionary : ExtensionHandshake → Bencode
dictionary hs =
    dict (entry (codes "m") (dict (entries_of hs.extensions)) (size_entries hs.metadata_size))

with_size_lem :
    (o : Option ℕ) (m : Bencode)
    → SizeFits o
    → with_size o (insert (codes "m") m no_entries) ≡ entry (codes "m") m (size_entries o)
unfolding insert cmp
with_size_lem none m h = refl
with_size_lem (some n) m h = ground arith

encode_handshake-dictionary :
    (hs : ExtensionHandshake)
    → IsCanonical hs
    → encode_handshake hs ≡ Encoder.encode (dictionary hs)
unfolding encode_handshake append
encode_handshake-dictionary hs c =
    rw (fill-entries_of hs.extensions no_entries c.typed c.ordered (Before-nothing _))
      (rw (with_size_lem hs.metadata_size (dict (entries_of hs.extensions)) c.sized) refl)

size-WellFormed : (o : Option ℕ) → SizeFits o → WellFormedEntries (size_entries o)
unfolding WellFormed
size-WellFormed none h = tt
size-WellFormed (some n) h = (omega arith, h, tt)

size-Sorted : (o : Option ℕ) (m : Bencode) → IsSorted (entry (codes "m") m (size_entries o))
unfolding cmp
size-Sorted none m = (tt, tt)
size-Sorted (some n) m = ((refl, tt), (tt, tt))

dictionary-WellFormed : (hs : ExtensionHandshake) → IsCanonical hs → WellFormed (dictionary hs)
unfolding WellFormed
dictionary-WellFormed hs c = (
  size-Sorted hs.metadata_size (dict (entries_of hs.extensions)),
  (
    omega arith,
    (c.ordered, entries_of-WellFormed hs.extensions c.typed),
    size-WellFormed hs.metadata_size c.sized,
  ),
)

from_bencode-dictionary :
    (xs : List (Bytes × ℕ)) (o : Option ℕ)
    → AreExtensions xs
    → SizeFits o
    → from_bencode (dict (entry (codes "m") (dict (entries_of xs)) (size_entries o)))
      ≡ record { extensions = xs; metadata_size = o }
unfolding from_bencode
from_bencode-dictionary xs none t h = rw (extensions_of-entries_of xs t) refl
from_bencode-dictionary xs (some n) t h = rw (extensions_of-entries_of xs t) refl

-- An extension handshake whose names are UTF-8 and listed in order, whose identifiers fit a byte
-- and whose metadata size fits 63 bits is read back from its encoding.
pub decode-encode_handshake :
    (hs : ExtensionHandshake)
    → IsCanonical hs
    → (v : Bencode) × (Decoder.decode (encode_handshake hs) ≡ ok v) × (from_bencode v ≡ hs)
decode-encode_handshake hs c = (
  dictionary hs,
  rw (encode_handshake-dictionary hs c)
      (rw append-nil at (decode-encode (dictionary hs) [] (dictionary-WellFormed hs c))),
  from_bencode-dictionary hs.extensions hs.metadata_size c.typed c.sized,
)
