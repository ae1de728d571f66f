-- ===== src/Swarm/Connections.antt =====
-- domain/swarm.rs: peers found, connected and gone.
use tortue.Prelude.{
  Bytes, List, [], ◌∷◌, ◌++◌, Bool, true, false, not, ◌&&◌, none, some, ltb, if◌then◌else◌,
  bytes_eq,
}
use tortue.Net.{SocketAddr, addr_eq, range_eq}
use tortue.Peer.{PeerId, ConnectionDirection, PeerExtensions, inbound, outbound, direction_beq}
use tortue.Message.Types.{Message, bitfield, have_all, have_none}
use tortue.Swarm.State.{Swarm, Output, connect_peer, disconnect_peer, send_to_peer}
use tortue.Swarm.Registry.{PeerRegistry, connected, disconnected, contains_addr, connection_for}
use tortue.Swarm.Assignments.{release_peer}
use tortue.Swarm.Manager.{PieceManager, all_complete, has_no_piece, bitfield_bytes}
use tortue.Swarm.Plan.{interest}
use tortue.Swarm.Uploads.{cancel_peer_uploads}

unfoldable pub on_disconnected : SocketAddr → Swarm → List Output × Swarm
on_disconnected a s = cancel_peer_uploads a (record s {
  peer_registry = disconnected a s.peer_registry;
  block_assignments = release_peer a s.block_assignments;
})

unfoldable pub unknown_addrs : List SocketAddr → PeerRegistry → List Output
unknown_addrs [] r = []
unknown_addrs (a ∷ others) r =
    let rest = unknown_addrs others r in
    if not (contains_addr a r) then connect_peer a ∷ rest else rest

unfoldable pub on_discovered : List SocketAddr → Swarm → List Output
unfolding unknown_addrs
on_discovered addrs s = if all_complete s.pieces then [] else unknown_addrs addrs s.peer_registry

-- The order on the identifiers, byte by byte.
unfoldable pub bytes_gt : Bytes → Bytes → Bool
bytes_gt [] t = false
bytes_gt (x ∷ s) [] = true
bytes_gt (x ∷ s) (y ∷ t) = if ltb y x then true else if ltb x y then false else bytes_gt s t

unfoldable pub prefered_direction : PeerId → Swarm → ConnectionDirection
prefered_direction id s = if bytes_gt s.client_id id then outbound else inbound

-- The message that tells a new peer what is here.
unfoldable pub announcement : PeerExtensions → PieceManager → Message
announcement e m =
    if e.fast && all_complete m
    then have_all
    else if e.fast && has_no_piece m
    then have_none
    else bitfield (bitfield_bytes m)

-- The end of `on_connected`, the new connection being accepted.
unfoldable pub accept :
    SocketAddr → ConnectionDirection → PeerId → PeerExtensions → Swarm → List Output × Swarm
accept a direction id e s =
    let r = connected a id direction e s.peer_registry in
    (
      send_to_peer a (announcement e s.pieces) ∷ interest a r,
      record s { block_assignments = release_peer a s.block_assignments; peer_registry = r },
    )

unfoldable pub on_connected :
    SocketAddr → ConnectionDirection → PeerId → PeerExtensions → Swarm → List Output × Swarm
on_connected a direction id e s = elim (connection_for id s.peer_registry) [
  | none ↦ accept a direction id e s
  | some old ↦
      let old_addr = old.0 in
      let gone = on_disconnected old_addr s in
      let accepted = accept a direction id e gone.1 in
      if direction_beq direction old.1
      then (disconnect_peer a ∷ [], s)
      else if not (direction_beq direction (prefered_direction id s))
      then (disconnect_peer a ∷ [], s)
      else (gone.0 ++ disconnect_peer old_addr ∷ accepted.0, accepted.1)
]
