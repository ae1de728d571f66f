-- ===== src/Swarm/Extensions.antt =====
-- domain/swarm.rs: peer exchange and the serving of metadata.
use tortue.Prelude.{
  ℕ, Bytes, List, [], ◌∷◌, none, some, Result, ok, err, ◌==◌, if◌then◌else◌, length, codes,
  bytes_eq,
}
use tortue.Prelude.Dict.{add}
use tortue.Net.{SocketAddr, addr_eq, range_eq}
use tortue.Message.Types
use tortue.Message.Types.{
  Message, keep_alive, choke, unchoke, interested, not_interested, have, bitfield, request, piece,
  cancel, extension_handshake, extension, suggest_piece, have_all, have_none, reject_request,
  allowed_fast, unimplemented, affects_scheduling,
}
use tortue.Message.Metadata
use tortue.Message.Metadata.{UtMetadataMessage, data_block}
use tortue.Message.Pex
use tortue.Torrent.{info_bytes_block}
use tortue.Swarm.State.{Swarm, Output, send_to_peer}
use tortue.Swarm.Registry.{PeerRegistry, peer_extension_id}
use tortue.Swarm.Connections.{on_discovered}

abbrev pub union : List SocketAddr → List SocketAddr → List SocketAddr
union s [] = s
union s (a ∷ t) = union (add a s) t

abbrev pub pex_messages : List SocketAddr → Bytes → PeerRegistry → List Output
pex_messages [] payload r = []
pex_messages (a ∷ others) payload r =
    let rest = pex_messages others payload r in
    elim (peer_extension_id a (codes "ut_pex") r) [
      | none ↦ rest
      | some id ↦ send_to_peer a (extension id payload) ∷ rest
    ]

unfoldable pub on_pex : Swarm → List Output
on_pex s =
    let addrs = union s.peer_registry.seeders s.peer_registry.leechers in
    pex_messages addrs (Pex.encode addrs) s.peer_registry

abbrev pub serve_metadata : SocketAddr → Swarm → Result Types.Error UtMetadataMessage → List Output
serve_metadata a s (ok (Metadata.request i)) =
    elim (peer_extension_id a (codes "ut_metadata") s.peer_registry) [
      | none ↦ []
      | some id ↦
          send_to_peer a (
            extension id (
              Metadata.encode
                (data_block i (length s.metainfo.info_bytes) (info_bytes_block i s.metainfo))))
          ∷ []
    ]
serve_metadata a s _ = []

abbrev pub discover_from : Swarm → Result Types.Error (List SocketAddr) → List Output
discover_from s (ok addrs) = on_discovered addrs s
discover_from s (err e) = []

-- `UT_METADATA_EXT_ID` is 1, `UT_PEX_EXT_ID` 2.
unfoldable pub on_extension_message : SocketAddr → ℕ → Bytes → Swarm → List Output
on_extension_message a ext_id payload s =
    if ext_id == 1
    then serve_metadata a s (Metadata.decode payload)
    else if ext_id == 2
    then discover_from s (Pex.decode payload)
    else []
