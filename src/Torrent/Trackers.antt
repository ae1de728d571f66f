-- ===== src/Torrent/Trackers.antt =====
-- The tracker addresses of a torrent file, described by the values that it holds.
use tortue.Prelude.{
  Bytes, List, [], ◌∷◌, ◌++◌, Option, none, some, Result, ok, err, ◌>>=◌, map_err, ok_or, codes,
  bytes_beq, if◌then◌else◌, ◌≡◌, refl, ap, ◌∙◌, Bool-cases, inl, inr,
}
use tortue.Prelude.Chunks.{flatten}
use tortue.Bencode.Value.{
  Bencode, Items, Entries, int, bytes, list, dict, no_entries, entry, no_items, item, key_not_found,
  type_mismatch, invalid_string,
}
use tortue.Bencode.Utf8.{is_utf8}
use tortue.Bencode.Access.{find, get, get_bytes, get_utf8, get_list}
use tortue.Torrent.{Error, bencode}
use tortue.Torrent.Parse.{
  bytes_to_str, keep, strings, nonempty, tier_urls, parse_announce_list, tiers_of, parse_announces,
}
use tortue.Torrent.Announces.{first_occurrences, parse_announces-merged}

-- The value of a key.
abbrev pub lookup : Bytes → Entries → Option Bencode
lookup k no_entries = none
lookup k (entry j v es) = if bytes_beq j k then some v else lookup k es

-- The strings of a list that are UTF-8.
unfoldable pub texts : Items → List Bytes
texts no_items = []
texts (item (bytes b) xs) = if is_utf8 b then b ∷ texts xs else texts xs
texts (item (int z) xs) = texts xs
texts (item (list ys) xs) = texts xs
texts (item (dict es) xs) = texts xs

-- The addresses of all tiers; what is no list is no tier.
unfoldable pub addresses : Items → List Bytes
unfolding texts
addresses no_items = []
addresses (item (list urls) tiers) = texts urls ++ addresses tiers
addresses (item (bytes b) tiers) = addresses tiers
addresses (item (int z) tiers) = addresses tiers
addresses (item (dict es) tiers) = addresses tiers

-- `announce-list`: missing or malformed, it counts as empty.
unfoldable pub listed : Option Bencode → List Bytes
unfolding addresses
listed none = []
listed (some (list tiers)) = addresses tiers
listed (some (bytes b)) = []
listed (some (int z)) = []
listed (some (dict es)) = []

-- `announce`: it must be there, a string, and UTF-8.
unfoldable pub announced : Option Bencode → Result Error Bytes
announced none = err (bencode key_not_found)
announced (some (bytes b)) = if is_utf8 b then ok b else err (bencode invalid_string)
announced (some (int z)) = err (bencode type_mismatch)
announced (some (list xs)) = err (bencode type_mismatch)
announced (some (dict es)) = err (bencode type_mismatch)

unfoldable pub trackers : Bencode → Result Error (List Bytes)
unfolding listed announced first_occurrences
trackers (dict es) = announced (lookup (codes "announce") es) >>= λ main.
    ok (first_occurrences (main ∷ listed (lookup (codes "announce-list") es)))
trackers (bytes b) = err (bencode type_mismatch)
trackers (int z) = err (bencode type_mismatch)
trackers (list xs) = err (bencode type_mismatch)

pub find-lookup : (k : Bytes) (es : Entries) → find k es ≡ lookup k es
unfolding find
find-lookup k no_entries = refl
find-lookup k (entry j v es) = ap (λ t. if bytes_beq j k then some v else t) (find-lookup k es)

strings-texts : (xs : Items) → strings xs ≡ texts xs
unfolding strings texts bytes_to_str
strings-texts no_items = refl
strings-texts (item (bytes b) xs) = elim (Bool-cases (is_utf8 b)) [
  | inl e ↦ rw e (ap (λ t. b ∷ t) (strings-texts xs))
  | inr e ↦ rw e (strings-texts xs)
]
strings-texts (item (int z) xs) = strings-texts xs
strings-texts (item (list ys) xs) = strings-texts xs
strings-texts (item (dict es) xs) = strings-texts xs

flatten-keep :
    (s : List Bytes) (rest : List (List Bytes))
    → flatten (keep (nonempty s) rest) ≡ s ++ flatten rest
flatten-keep [] rest = refl
flatten-keep (b ∷ s) rest = refl

addresses_lem : (tiers : Items) → flatten (parse_announce_list tiers) ≡ addresses tiers
unfolding parse_announce_list tier_urls addresses
addresses_lem no_items = refl
addresses_lem (item (list urls) tiers) =
    flatten-keep (strings urls) (parse_announce_list tiers)
    ∙ ap (λ t. t ++ flatten (parse_announce_list tiers)) (strings-texts urls)
    ∙ ap (λ t. texts urls ++ t) (addresses_lem tiers)
addresses_lem (item (bytes b) tiers) = addresses_lem tiers
addresses_lem (item (int z) tiers) = addresses_lem tiers
addresses_lem (item (dict es) tiers) = addresses_lem tiers

get_lem :
    (k : Bytes) (es : Entries) (o : Option Bencode)
    → lookup k es ≡ o
    → get (dict es) k ≡ ok_or o key_not_found
unfolding get
get_lem k es o h = ap (λ p. ok_or p key_not_found) (find-lookup k es ∙ h)

listed_lem :
    (k : Bytes) (es : Entries) (o : Option Bencode)
    → lookup k es ≡ o
    → flatten (tiers_of (get_list (dict es) k)) ≡ listed o
unfolding listed tiers_of get_list
listed_lem k es none h = rw (get_lem k es none h, get_list) refl
listed_lem k es (some (list tiers)) h =
    rw (get_lem k es (some (list tiers)) h, get_list) (addresses_lem tiers)
listed_lem k es (some (bytes b)) h = rw (get_lem k es (some (bytes b)) h, get_list) refl
listed_lem k es (some (int z)) h = rw (get_lem k es (some (int z)) h, get_list) refl
listed_lem k es (some (dict ds)) h = rw (get_lem k es (some (dict ds)) h, get_list) refl

announced_lem :
    (k : Bytes) (es : Entries) (o : Option Bencode)
    → lookup k es ≡ o
    → map_err bencode (get_utf8 (dict es) k) ≡ announced o
unfolding announced get_utf8 get_bytes
announced_lem k es none h = rw (get_lem k es none h, get_utf8, get_bytes, map_err) refl
announced_lem k es (some (bytes b)) h = elim (Bool-cases (is_utf8 b)) [
  | inl e ↦ rw (get_lem k es (some (bytes b)) h, e, get_utf8, get_bytes, map_err) refl
  | inr e ↦ rw (get_lem k es (some (bytes b)) h, e, get_utf8, get_bytes, map_err) refl
]
announced_lem k es (some (int z)) h =
    rw (get_lem k es (some (int z)) h, get_utf8, get_bytes, map_err) refl
announced_lem k es (some (list xs)) h =
    rw (get_lem k es (some (list xs)) h, get_utf8, get_bytes, map_err) refl
announced_lem k es (some (dict ds)) h =
    rw (get_lem k es (some (dict ds)) h, get_utf8, get_bytes, map_err) refl

-- The tracker addresses of a file are its announce address, which must be a string of UTF-8, and
-- then those of the lists in `announce-list`, in order, each where it occurs first and never again;
-- what is no string of UTF-8 in a tier and what is no list among the tiers is passed over, a
-- missing or malformed `announce-list` counts as empty, and a missing or malformed announce address
-- is an error, as is a file that is no dictionary.
pub parse_announces-trackers : (root : Bencode) → parse_announces root ≡ trackers root
unfolding trackers parse_announces get_utf8 get_bytes get
parse_announces-trackers (dict es) =
    parse_announces-merged (dict es)
    ∙ ap
        (λ r. r >>= λ main. ok (
          first_occurrences
            (main ∷ flatten (tiers_of (get_list (dict es) (codes "announce-list"))))))
        (announced_lem (codes "announce") es _ refl)
    ∙ ap
        (λ t.
          announced (lookup (codes "announce") es) >>= λ main. ok (first_occurrences (main ∷ t)))
        (listed_lem (codes "announce-list") es _ refl)
parse_announces-trackers (bytes b) = refl
parse_announces-trackers (int z) = refl
parse_announces-trackers (list xs) = refl
