-- ===== src/Swarm/State.antt =====
-- domain/swarm.rs: the inputs, the outputs and the state of the swarm.
use tortue.Prelude.{ℕ, Bytes, List, [], Bool, true, false, Exit, done, and_then, length}
use tortue.Net.{SocketAddr, BlockRange}
use tortue.Peer.{PeerId, ConnectionDirection, PeerExtensions}
use tortue.Message.Types.{Message}
use tortue.Torrent.{Metainfo, total_size}
use tortue.Swarm.Registry
use tortue.Swarm.Registry.{PeerRegistry, peer_stats}
use tortue.Swarm.Assignments.{BlockAssignments, requests_in_flight}
use tortue.Swarm.Manager
use tortue.Swarm.Manager.{PieceManager, total_blocks, received_blocks, available_bytes}

pub data SwarmStatus : Type 0 where
  active stopped download_only upload_only : SwarmStatus

unfoldable pub download : SwarmStatus → Bool
download stopped = false
download download_only = true
download upload_only = false
download active = true

unfoldable pub upload : SwarmStatus → Bool
upload stopped = false
upload download_only = false
upload upload_only = true
upload active = true

pub data Tick : Type 0 where
  block_tick pex_tick : Tick

pub data Input : Type 0 where
  peers_discovered : List SocketAddr → Input
  peer_connected : PeerId → ConnectionDirection → SocketAddr → PeerExtensions → Input
  peer_disconnected : SocketAddr → Input
  message_received : SocketAddr → Message → Input
  local_piece : ℕ → Bytes → Input
  upload_read_completed : ℕ → BlockRange → Bytes → Input
  set_status : SwarmStatus → Input
  tick : Tick → Input

pub data Output : Type 0 where
  connect_peer disconnect_peer : SocketAddr → Output
  send_to_peer : SocketAddr → Message → Output
  write_piece : BlockRange → Bytes → Output
  read_for_upload : ℕ → BlockRange → Output
  cancel_upload_read : ℕ → Output
  broadcast : Message → Output
  completed : Output

pub record PendingRead : Type 0 where
  pub id : ℕ
  pub peers : List SocketAddr

pub record Swarm : Type 0 where
  pub client_id : PeerId
  pub metainfo : Metainfo
  pub peer_registry : PeerRegistry
  pub block_assignments : BlockAssignments
  pub pieces : PieceManager
  pub status : SwarmStatus
  pub downloaded_bytes : ℕ
  pub uploaded_bytes : ℕ
  pub pending_reads : List (BlockRange × PendingRead)
  pub next_upload_read_id : ℕ

-- `Self { … }` in `new`.
abbrev pub begun : PeerId → Metainfo → PieceManager → Swarm
begun client_id metainfo pieces = record {
  client_id = client_id;
  metainfo = metainfo;
  peer_registry = Registry.new (length metainfo.pieces);
  block_assignments = [];
  pieces = pieces;
  status = active;
  downloaded_bytes = 0;
  uploaded_bytes = 0;
  pending_reads = [];
  next_upload_read_id = 0;
}

unfoldable pub new : PeerId → Metainfo → Exit Swarm
new client_id metainfo =
    and_then (Manager.new metainfo.pieces metainfo.piece_length (total_size metainfo))
      (λ pieces. done (begun client_id metainfo pieces))

-- The rates, which the adapter fills in, are left out.
pub record SwarmSnapshot : Type 0 where
  pub status : SwarmStatus
  pub blocks_total : ℕ
  pub blocks_done : ℕ
  pub blocks_in_flight : ℕ
  pub bytes_total : ℕ
  pub bytes_available : ℕ
  pub bytes_downloaded : ℕ
  pub bytes_uploaded : ℕ
  pub seeders : List SocketAddr
  pub leechers : List SocketAddr
  pub peers : List (SocketAddr × ℕ × ℕ)

unfoldable pub snapshot : Swarm → SwarmSnapshot
snapshot s = record {
  status = s.status;
  blocks_total = total_blocks s.pieces;
  blocks_done = received_blocks s.pieces;
  blocks_in_flight = requests_in_flight s.block_assignments;
  bytes_total = total_size s.metainfo;
  bytes_available = available_bytes s.pieces;
  bytes_downloaded = s.downloaded_bytes;
  bytes_uploaded = s.uploaded_bytes;
  seeders = s.peer_registry.seeders;
  leechers = s.peer_registry.leechers;
  peers = peer_stats s.peer_registry;
}
