-- ===== src/Message/Pex.antt =====
-- domain/message.rs, `UtPexMessage` and `parse_socket_addrs`: peer exchange.
use tortue.Prelude.{
  ℕ, ◌%◌, Bytes, List, [], ◌∷◌, ◌++◌, map, Bool, true, false, Result, ok, err, map_err, codes,
  ◌>>=◌, ◌==◌, ◌||◌, bytes_beq, if◌then◌else◌, length, take, drop, is_empty,
}
use tortue.Prelude.Chunks.{chunks_exact}
use tortue.Prelude.Be.{to_be_bytes16, from_be_bytes}
use tortue.Prelude.Dict.{contains, add}
use tortue.Net.{SocketAddr, v4, v6, addr_eq}
use tortue.Bencode.Value.{Bencode, Entries, int, bytes, list, dict, no_entries, entry, insert}
use tortue.Bencode.Decoder
use tortue.Bencode.Encoder
use tortue.Message.Types.{Error, invalid_message, bencode}

abbrev pub addr_v4 : Bytes → SocketAddr
addr_v4 c = v4 (take 4 c) (from_be_bytes (drop 4 c))

abbrev pub addr_v6 : Bytes → SocketAddr
addr_v6 c = v6 (take 16 c) (from_be_bytes (drop 16 c))

unfoldable pub parse_socket_addrs : Bytes → Result Error (List SocketAddr)
unfolding chunks_exact
parse_socket_addrs s =
    if length s % 6 == 0
    then ok (map addr_v4 (chunks_exact 6 s))
    else if length s % 18 == 0
    then ok (map addr_v6 (chunks_exact 18 s))
    else err invalid_message

-- `HashSet::insert` of each.
unfoldable pub insert_all : List SocketAddr → List SocketAddr → List SocketAddr
insert_all [] s = s
insert_all (a ∷ more) s = insert_all more (add a s)

-- The variables of the loop over the dictionary.
pub record Fields : Type 0 where
  pub added : List SocketAddr
  pub dropped : List SocketAddr
  pub has_pex_field : Bool

abbrev pub no_fields : Fields
no_fields = record { added = []; dropped = []; has_pex_field = false }

-- One round: the match on the key of a byte string.
unfoldable pub field : Bytes → Bytes → Fields → Result Error Fields
unfolding parse_socket_addrs insert_all
field key value f =
    if bytes_beq key (codes "added6") || bytes_beq key (codes "added")
    then (do
      addrs ← parse_socket_addrs value
      ok (record f { added = insert_all addrs f.added; has_pex_field = true }))
    else if bytes_beq key (codes "dropped6") || bytes_beq key (codes "dropped")
    then (do
      addrs ← parse_socket_addrs value
      ok (record f { dropped = insert_all addrs f.dropped; has_pex_field = true }))
    else ok f

unfoldable pub fields : Entries → Fields → Result Error Fields
unfolding field
fields no_entries f = ok f
fields (entry key (bytes value) es) f = do g ← field key value f; fields es g
fields (entry key (int z) es) f = fields es f
fields (entry key (list xs) es) f = fields es f
fields (entry key (dict d) es) f = fields es f

-- `filter` and `collect`: what was added and not dropped.
unfoldable pub remaining : List SocketAddr → List SocketAddr → List SocketAddr
remaining dropped [] = []
remaining dropped (a ∷ added) =
    let rest = remaining dropped added in if contains a dropped then rest else a ∷ rest

abbrev pub finish : Fields → Result Error (List SocketAddr)
finish f = if f.has_pex_field then ok (remaining f.dropped f.added) else err invalid_message

abbrev pub of_value : Bencode → Result Error (List SocketAddr)
of_value (dict d) = do f ← fields d no_fields; finish f
of_value _ = err invalid_message

-- The value is `addrs`, a `HashSet`.
unfoldable pub decode : Bytes → Result Error (List SocketAddr)
unfolding fields remaining
decode payload = do value ← map_err bencode (Decoder.decode payload); of_value value

abbrev pub compact : Bytes → ℕ → Bytes
compact octets port = octets ++ to_be_bytes16 port

-- The buffer `added`, for IPv4.
unfoldable pub compact_v4 : List SocketAddr → Bytes
compact_v4 [] = []
compact_v4 (v4 a p ∷ more) = compact a p ++ compact_v4 more
compact_v4 (v6 a p ∷ more) = compact_v4 more

-- The buffer `added6`, for IPv6.
unfoldable pub compact_v6 : List SocketAddr → Bytes
compact_v6 [] = []
compact_v6 (v4 a p ∷ more) = compact_v6 more
compact_v6 (v6 a p ∷ more) = compact a p ++ compact_v6 more

abbrev pub insert_nonempty : Bytes → Bytes → Entries → Entries
insert_nonempty key buffer es = if is_empty buffer then es else insert key (bytes buffer) es

unfoldable pub encode : List SocketAddr → Bytes
unfolding compact_v4 compact_v6 insert
encode addrs =
    let with_v4 = insert_nonempty (codes "added") (compact_v4 addrs) no_entries in
    Encoder.encode (dict (insert_nonempty (codes "added6") (compact_v6 addrs) with_v4))
