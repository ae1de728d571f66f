-- ===== src/Peer/Event.antt =====
-- domain/peer.rs, `PeerEvent`: what a connection tells its driver.
use tortue.Peer.{PeerId, ConnectionDirection, PeerExtensions}
use tortue.Message.Types.{Message}

pub data PeerEvent : Type 0 where
  connected : ConnectionDirection → PeerId → PeerExtensions → PeerEvent
  disconnected : PeerEvent
  message_received : Message → PeerEvent
