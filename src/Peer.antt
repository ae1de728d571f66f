-- ===== src/Peer.antt =====
-- domain/peer.rs: who a peer is and what it supports.
pub mod Handshake
pub mod Event
pub mod HandshakeLaws
pub mod Reconnect
pub mod ReconnectLaws
pub mod Tests
use tortue.Prelude.{Bytes, Bool, true, false}

abbrev pub PeerId : Type 0
PeerId = Bytes

pub data ConnectionDirection : Type 0 where
  inbound outbound : ConnectionDirection

abbrev pub direction_beq : ConnectionDirection → ConnectionDirection → Bool
direction_beq inbound inbound = true
direction_beq outbound outbound = true
direction_beq _ _ = false

pub record PeerExtensions : Type 0 where
  pub dht : Bool
  pub fast : Bool
