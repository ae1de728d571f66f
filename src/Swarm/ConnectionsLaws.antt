-- ===== src/Swarm/ConnectionsLaws.antt =====
-- Peers that come and go leave a valid swarm.
use tortue.Prelude.{Bool-cases, Option-cases, inl, inr}
use tortue.Net.{SocketAddr, addr_eq, range_eq}
use tortue.Peer.{PeerId, ConnectionDirection, PeerExtensions, direction_beq}
use tortue.Swarm.State.{Swarm}
use tortue.Swarm.Registry.{connection_for}
use tortue.Swarm.RegistryInvariant.{connected-IsValid, disconnected-IsValid}
use tortue.Swarm.AssignmentsLaws.{release_peer-Capped}
use tortue.Swarm.Invariant.{IsValid, cancel_peer_uploads-IsValid}
use tortue.Swarm.Connections.{accept, on_connected, on_disconnected, prefered_direction}

pub on_disconnected-IsValid :
    (a : SocketAddr) (s : Swarm) → IsValid s → IsValid (on_disconnected a s).1
unfolding on_disconnected
on_disconnected-IsValid a s v = cancel_peer_uploads-IsValid a _ (record {
  pieces = v.pieces;
  registry = disconnected-IsValid a s.peer_registry v.registry;
  capped = release_peer-Capped a s.block_assignments v.capped;
  uploads = v.uploads;
})

accept-IsValid :
    (a : SocketAddr) (d : ConnectionDirection) (id : PeerId) (e : PeerExtensions) (s : Swarm)
    → IsValid s
    → IsValid (accept a d id e s).1
unfolding accept
accept-IsValid a d id e s v = record {
  pieces = v.pieces;
  registry = connected-IsValid a id d e s.peer_registry v.registry;
  capped = release_peer-Capped a s.block_assignments v.capped;
  uploads = v.uploads;
}

pub on_connected-IsValid :
    (a : SocketAddr) (d : ConnectionDirection) (id : PeerId) (e : PeerExtensions) (s : Swarm)
    → IsValid s
    → IsValid (on_connected a d id e s).1
unfolding on_connected
on_connected-IsValid a d id e s v = elim (Option-cases (connection_for id s.peer_registry)) [
  | inl g ↦ rw (g, on_connected) (accept-IsValid a d id e s v)
  | inr (old, g) ↦ elim (Bool-cases (direction_beq d old.1)) [
    | inl f ↦ rw (g, f, on_connected) v
    | inr f ↦ elim (Bool-cases (direction_beq d (prefered_direction id s))) [
      | inr k ↦ rw (g, f, k, on_connected) v
      | inl k ↦
          rw (g, f, k, on_connected)
            (accept-IsValid a d id e (on_disconnected old.0 s).1
              (on_disconnected-IsValid old.0 s v))
    ]
  ]
]
