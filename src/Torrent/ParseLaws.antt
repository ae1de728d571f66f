-- ===== src/Torrent/ParseLaws.antt =====
-- What `Metainfo::try_from` guarantees of a torrent that it accepts.
use tortue.Prelude.{
  ◌*◌, ◌≤◌, ◌<◌, Bytes, List, [], ok, >>=-eq-ok, >>=-of-ok, ok-injective, map_err, map_err-eq-ok,
  codes, length, All, ◌≡◌, refl, sym, ap, subst, arith, ok_or, append-nil, bytes_beq, Bool-cases,
  inl, inr,
}
use tortue.Bencode.Value
use tortue.Bencode.Value.{
  Bencode, Entries, int, bytes, list, dict, no_entries, entry, WellFormed, WellFormedEntries,
  key_not_found,
}
use tortue.Bencode.Access.{find, get, get_utf8, get_int, get_bytes}
use tortue.Bencode.Decoder
use tortue.Bencode.Encoder.{encode}
use tortue.Bencode.RoundTrip.{decode-encode}
use tortue.Bencode.Decoded.{decode-WellFormed}
use tortue.Torrent.{Metainfo, bencode, validate, total_size, max_torrent_size}
use tortue.Torrent.Laws.{validate-bounds}
use tortue.Torrent.Says.{InfoSays}
use tortue.Torrent.InfoLaws.{parse_pieces-cuts, parse_info-Says}
use tortue.Torrent.Parse.{
  parse_pieces, Info, parse_info, parse_announces, assemble, info_hash, of_root, try_from, to_usize,
  mode_of,
}

abbrev pub IsHash : Bytes → Type 0
IsHash h = length h ≡ 20

parse_info-hashes : (info : Bencode) (i : Info) → parse_info info ≡ ok i → All IsHash i.pieces
unfolding parse_info
parse_info-hashes info i h =
    let (name, _, h₁) = >>=-eq-ok (map_err bencode (get_utf8 info (codes "name"))) _ h in
    let (z, _, h₂) = >>=-eq-ok (map_err bencode (get_int info (codes "piece length"))) _ h₁ in
    let (len, _, h₃) = >>=-eq-ok (to_usize z) _ h₂ in
    let (joined, _, h₄) = >>=-eq-ok (map_err bencode (get_bytes info (codes "pieces"))) _ h₃ in
    let (pieces, cut, h₅) = >>=-eq-ok (parse_pieces joined) _ h₄ in
    let (mode, _, h₆) = >>=-eq-ok (mode_of info (get info (codes "length"))) _ h₅ in
    subst (λ (j : Info). All IsHash j.pieces) (ok-injective _ i h₆)
      (parse_pieces-cuts joined pieces cut).1

module _ (sha1 : Bytes → Bytes) where
  -- What `of_root` has read when it accepts.
  pub of_root-eq-ok :
      (root : Bencode) (m : Metainfo)
      → of_root sha1 root ≡ ok m
      → (announce : List Bytes) × (info : Bencode) × (i : Info) × (parse_announces root
          ≡ ok announce)
        × (get root (codes "info") ≡ ok info)
        × (parse_info info ≡ ok i)
        × (m ≡ assemble sha1 root announce info i)
        × (validate m ≡ ok tt)
  unfolding of_root
  of_root-eq-ok root m h =
      let (announce, e₁, h₁) = >>=-eq-ok (parse_announces root) _ h in
      let (info, e₂, h₂) = >>=-eq-ok (map_err bencode (get root (codes "info"))) _ h₁ in
      let (i, e₃, h₃) = >>=-eq-ok (parse_info info) _ h₂ in
      let (valid, e₄, h₄) = >>=-eq-ok (validate (assemble sha1 root announce info i)) _ h₃ in
      let same = ok-injective _ m h₄ in
      (
        announce,
        info,
        i,
        e₁,
        map_err-eq-ok bencode (get root (codes "info")) info e₂,
        e₃,
        sym same,
        subst (λ k. validate k ≡ ok tt) same e₄,
      )

  -- And what it needs to accept.
  pub of_root-accepts :
      (root : Bencode) (announce : List Bytes) (info : Bencode) (i : Info)
      → parse_announces root ≡ ok announce
      → get root (codes "info") ≡ ok info
      → parse_info info ≡ ok i
      → validate (assemble sha1 root announce info i) ≡ ok tt
      → of_root sha1 root ≡ ok (assemble sha1 root announce info i)
  unfolding of_root
  of_root-accepts root announce info i a g p v = >>=-of-ok (parse_announces root) announce _ a (
      >>=-of-ok (map_err bencode (get root (codes "info"))) info _ (ap (map_err bencode) g) (
        >>=-of-ok (parse_info info) i _ p
          (>>=-of-ok (validate (assemble sha1 root announce info i)) tt _ v refl)))

pub decode_encoded : (v : Bencode) → WellFormed v → Decoder.decode (encode v) ≡ ok v
decode_encoded v w =
    subst (λ s. Decoder.decode s ≡ ok v) (append-nil (encode v)) (decode-encode v [] w)

find-WellFormed :
    (key : Bytes) (es : Entries) (v : Bencode)
    → WellFormedEntries es
    → ok_or (find key es) key_not_found ≡ ok v
    → WellFormed v
unfolding find WellFormed
find-WellFormed key no_entries v w h = cc
find-WellFormed key (entry k x es) v w h = elim (Bool-cases (bytes_beq k key)) [
  | inl e ↦ subst WellFormed (ok-injective {E = Value.Error} x v (ground (arith, e, h))) w.1
  | inr e ↦ find-WellFormed key es v w.2 (ground (arith, e, h))
]

pub get-WellFormed :
    (root : Bencode) (key : Bytes) (v : Bencode)
    → WellFormed root
    → get root key ≡ ok v
    → WellFormed v
unfolding get WellFormed
get-WellFormed (dict es) key v w h = find-WellFormed key es v w.1 h
get-WellFormed (int z) key v w h = cc
get-WellFormed (bytes b) key v w h = cc
get-WellFormed (list xs) key v w h = cc

abbrev pub info_of : Metainfo → Info
info_of m = record {
  name = m.name;
  piece_length = m.piece_length;
  pieces = m.pieces;
  mode = m.mode;
}

-- A torrent as `try_from` leaves it.
pub record IsCoherent (sha1 : Bytes → Bytes) (m : Metainfo) : Type 0 where
  pub hashes : All IsHash m.pieces
  pub info_hash : m.info_hash ≡ sha1 m.info_bytes
  pub room : total_size m < m.piece_length * length m.pieces
  pub bounded : total_size m ≤ max_torrent_size
  pub info : (v : Bencode) × (Decoder.decode m.info_bytes ≡ ok v) × InfoSays v (info_of m)

-- A torrent that is accepted, whatever the file: its hashes have 20 bytes each, its info hash is
-- the digest of its info bytes, its size is below the piece length times the number of hashes and
-- at most 40 GiB, and its info bytes decode to a dictionary whose `name`, `piece length` and
-- `pieces` are its name, its piece length and its hashes one after the other, and whose `length` is
-- that of its one file, or which has no `length` and whose `files` have the `length` and the `path`
-- of each of its files, in order.
pub try_from-IsCoherent :
    (sha1 : Bytes → Bytes) (input : Bytes) (m : Metainfo)
    → try_from sha1 input ≡ ok m
    → IsCoherent sha1 m
unfolding try_from assemble info_hash
try_from-IsCoherent sha1 input m h =
    let (root, e, h₁) = >>=-eq-ok (map_err bencode (Decoder.decode input)) _ h in
    let decoded = map_err-eq-ok bencode (Decoder.decode input) root e in
    let (announce, info, i, e₁, e₂, e₃, same, valid) = of_root-eq-ok sha1 root m h₁ in
    let well = get-WellFormed root (codes "info") info (decode-WellFormed input root decoded) e₂ in
    let read : Decoder.decode (encode info) ≡ ok info = decode_encoded info well in
    let bounds = validate-bounds m valid in
    record {
      hashes =
          subst (λ (k : Metainfo). All IsHash k.pieces) (sym same) (parse_info-hashes info i e₃);
      info_hash = subst (λ (k : Metainfo). k.info_hash ≡ sha1 k.info_bytes) (sym same) refl;
      room = bounds.0;
      bounded = bounds.1;
      info =
          subst
            (λ (k : Metainfo).
              (v : Bencode) × (Decoder.decode k.info_bytes ≡ ok v) × InfoSays v (info_of k))
            (sym same) (info, read, parse_info-Says info i e₃);
    }
