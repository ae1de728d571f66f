-- ===== src/Torrent/Fetched.antt =====
-- `Metainfo::try_from` on the bytes of an info dictionary, which are what a magnet link's peers send.
use tortue.Prelude.{Bytes, ok, err, ◌>>=◌, map_err, codes, ◌≡◌, refl, ap, sym, ◌∙◌}
use tortue.Bencode.Value.{Bencode, key_not_found}
use tortue.Bencode.Access.{get, get_utf8, get_bytes}
use tortue.Bencode.Decoder
use tortue.Bencode.Encoder.{encode}
use tortue.Bencode.Decoded.{decode-WellFormed}
use tortue.Prelude.{>>=-eq-err, ok-injective}
use tortue.Torrent.{Metainfo, bencode}
use tortue.Torrent.Parse.{parse_announces, assemble, info_hash, of_root, try_from}
use tortue.Torrent.ParseLaws.{of_root-eq-ok, get-WellFormed, decode_encoded}

get_utf8-missing :
    (v : Bencode) (key : Bytes) → get v key ≡ err key_not_found → get_utf8 v key ≡ err key_not_found
unfolding get_utf8 get_bytes
get_utf8-missing v key h = rw (h, get_utf8, get_bytes) refl

-- A dictionary without an announce address is no torrent file.
pub of_root-no_announce :
    (sha1 : Bytes → Bytes) (root : Bencode)
    → get root (codes "announce") ≡ err key_not_found
    → of_root sha1 root ≡ err (bencode key_not_found)
unfolding of_root parse_announces
of_root-no_announce sha1 root h = >>=-eq-err (parse_announces root) _ (
    >>=-eq-err (map_err bencode (get_utf8 root (codes "announce"))) _
      (ap (map_err bencode) (get_utf8-missing root (codes "announce") h)))

pub try_from_decoded :
    (sha1 : Bytes → Bytes) (input : Bytes) (root : Bencode)
    → Decoder.decode input ≡ ok root
    → try_from sha1 input ≡ of_root sha1 root
unfolding try_from
try_from_decoded sha1 input root d = ap (λ r. map_err bencode r >>= of_root sha1) d

-- The info bytes of a torrent that was accepted are themselves refused by `try_from`, as a
-- dictionary without the key `announce`, unless the info dictionary happens to have that key.
pub try_from-info_bytes :
    (sha1 : Bytes → Bytes) (input : Bytes) (root info : Bencode) (m : Metainfo)
    → Decoder.decode input ≡ ok root
    → get root (codes "info") ≡ ok info
    → get info (codes "announce") ≡ err key_not_found
    → try_from sha1 input ≡ ok m
    → try_from sha1 m.info_bytes ≡ err (bencode key_not_found)
unfolding assemble info_hash
try_from-info_bytes sha1 input root info m d g n h =
    let accepted : of_root sha1 root ≡ ok m = sym (try_from_decoded sha1 input root d) ∙ h in
    let (announce, inner, i, _, g', _, same, _) = of_root-eq-ok sha1 root m accepted in
    let one : inner ≡ info = ok-injective inner info (sym g' ∙ g) in
    let well = get-WellFormed root (codes "info") info (decode-WellFormed input root d) g in
    let stored : m.info_bytes ≡ encode info =
      ap (λ (k : Metainfo). k.info_bytes) same ∙ ap encode one in
    rw stored (
      try_from_decoded sha1 (encode info) info (decode_encoded info well)
      ∙ of_root-no_announce sha1 info n)
