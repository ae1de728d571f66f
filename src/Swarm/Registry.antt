-- ===== src/Swarm/Registry.antt =====
-- domain/swarm/peer_registry.rs, `PeerState` and `PeerRegistry`: the connected peers.
use tortue.Prelude.{
  ℕ, ◌+◌, ◌%◌, ◌^◌, Bytes, List, [], ◌∷◌, Bool, true, false, not, ◌&&◌, ◌||◌, Option, none, some,
  Result, ok, err, if◌then◌else◌, length, nat_eq, bytes_eq,
}
use tortue.Prelude.Dict.{get, insert, remove, contains_key, contains, add, discard}
use tortue.Net.{SocketAddr, addr_eq, addr_beq}
use tortue.Peer.{PeerId, ConnectionDirection, PeerExtensions}
use tortue.Bitfield
use tortue.Message.Handshake.{ExtensionHandshake}
use tortue.Message.Types.{
  Message, choke, unchoke, interested, not_interested, have, bitfield, request, piece,
  extension_handshake, suggest_piece, have_all, have_none, allowed_fast, needs_fast,
}
use tortue.Swarm.Availability
use tortue.Swarm.Availability.{
  PieceAvailability, record_piece, record_all, remove_peer, is_seeder, peers_for,
}

pub record PeerState : Type 0 where
  pub id : PeerId
  pub peer_choking : Bool
  pub peer_interested : Bool
  pub allowed : List ℕ
  pub suggested : List ℕ
  pub fast : Bool
  pub extensions : Option ExtensionHandshake
  pub bytes_uploaded : ℕ
  pub bytes_downloaded : ℕ

unfoldable pub new_peer : PeerId → PeerExtensions → PeerState
new_peer id extensions = record {
  id = id;
  peer_choking = true;
  peer_interested = false;
  allowed = [];
  suggested = [];
  fast = extensions.fast;
  extensions = none;
  bytes_uploaded = 0;
  bytes_downloaded = 0;
}

-- `PeerState::apply`; a `u64` counter wraps around.
unfoldable pub apply_to_peer : Message → PeerState → PeerState
apply_to_peer choke p = record p { peer_choking = true }
apply_to_peer unchoke p = record p { peer_choking = false }
apply_to_peer interested p = record p { peer_interested = true }
apply_to_peer not_interested p = record p { peer_interested = false }
apply_to_peer (extension_handshake hs) p = record p { extensions = some hs }
apply_to_peer (allowed_fast i) p = record p { allowed = add i p.allowed }
apply_to_peer (suggest_piece i) p = record p { suggested = add i p.suggested }
apply_to_peer (piece range d) p = record p {
  bytes_downloaded = (p.bytes_downloaded + length d) % 2 ^ 64;
}
apply_to_peer (request range) p = record p {
  bytes_uploaded = (p.bytes_uploaded + range.len) % 2 ^ 64;
}
apply_to_peer _ p = p

unfoldable pub peer_can_serve : ℕ → PeerState → Bool
peer_can_serve i p = not p.peer_choking || contains i p.allowed

pub data RejectReason : Type 0 where
  unknown_peer protocol_violation : RejectReason

pub record PeerRegistry : Type 0 where
  pub peers : List (SocketAddr × PeerState)
  pub by_id : List (PeerId × (SocketAddr × ConnectionDirection))
  pub availability : PieceAvailability
  pub seeders : List SocketAddr
  pub leechers : List SocketAddr

unfoldable pub new : ℕ → PeerRegistry
new total = record {
  peers = [];
  by_id = [];
  availability = Availability.new total;
  seeders = [];
  leechers = [];
}

unfoldable pub connected :
    SocketAddr → PeerId → ConnectionDirection → PeerExtensions → PeerRegistry → PeerRegistry
connected addr id direction extensions r = record r {
  peers = insert addr (new_peer id extensions) r.peers;
  by_id = insert id (addr, direction) r.by_id;
}

-- `is_some_and(|(active_addr, _)| *active_addr == addr)`
abbrev pub is_at : SocketAddr → Option (SocketAddr × ConnectionDirection) → Bool
is_at addr none = false
is_at addr (some (active, direction)) = addr_beq active addr

unfoldable pub disconnected : SocketAddr → PeerRegistry → PeerRegistry
disconnected addr r = record {
  peers = remove addr r.peers;
  by_id = elim (get addr r.peers) [
    | none ↦ r.by_id
    | some p ↦ if is_at addr (get p.id r.by_id) then remove p.id r.by_id else r.by_id
  ];
  availability = remove_peer addr r.availability;
  seeders = discard addr r.seeders;
  leechers = discard addr r.leechers;
}

unfoldable pub contains_addr : SocketAddr → PeerRegistry → Bool
contains_addr addr r = contains_key addr r.peers

unfoldable pub connection_for : PeerId → PeerRegistry → Option (SocketAddr × ConnectionDirection)
connection_for id r = get id r.by_id

unfoldable pub declare_interest : SocketAddr → PeerRegistry → Option Message
declare_interest addr r = if contains_key addr r.peers then some interested else none

unfoldable pub peer_extension_id : SocketAddr → Bytes → PeerRegistry → Option ℕ
peer_extension_id addr name r = elim (get addr r.peers) [
  | none ↦ none
  | some p ↦ elim p.extensions [ none ↦ none | some hs ↦ get name hs.extensions ]
]

-- `for piece in &bf`
abbrev pub record_items : List ℕ → SocketAddr → PieceAvailability → PieceAvailability
record_items [] addr a = a
record_items (i ∷ is) addr a = record_items is addr (record_piece i addr a)

abbrev pub record_bitfield :
    Result Bitfield.Error Bitfield.Bitfield → SocketAddr → PieceAvailability → PieceAvailability
record_bitfield (ok b) addr a = record_items (Bitfield.items b) addr a
record_bitfield (err e) addr a = a

-- What `apply` does to the availability.
unfoldable pub apply_to_availability : SocketAddr → Message → PieceAvailability → PieceAvailability
apply_to_availability addr (bitfield bits) a =
    record_bitfield (Bitfield.try_from bits) addr (remove_peer addr a)
apply_to_availability addr (have i) a = record_piece i addr a
apply_to_availability addr have_all a = record_all addr a
apply_to_availability addr have_none a = remove_peer addr a
apply_to_availability addr _ a = a

unfoldable pub classify : SocketAddr → PeerRegistry → PeerRegistry
classify addr r =
    if is_seeder addr r.availability
    then record r { seeders = add addr r.seeders; leechers = discard addr r.leechers }
    else record r { leechers = add addr r.leechers; seeders = discard addr r.seeders }

unfoldable pub apply : SocketAddr → Message → PeerRegistry → Result RejectReason PeerRegistry
apply addr msg r = elim (get addr r.peers) [
  | none ↦ err unknown_peer
  | some p ↦
      if needs_fast msg && not p.fast
      then err protocol_violation
      else ok (
          classify addr (record r {
            peers = insert addr (apply_to_peer msg p) r.peers;
            availability = apply_to_availability addr msg r.availability;
          }))
]

unfoldable pub peers_with : ℕ → PeerRegistry → List SocketAddr
peers_with i r = peers_for i r.availability

unfoldable pub rarity : ℕ → PeerRegistry → ℕ
rarity i r = Availability.rarity i r.availability

unfoldable pub can_serve : SocketAddr → ℕ → PeerRegistry → Bool
can_serve addr i r = elim (get addr r.peers) [ none ↦ false | some p ↦ peer_can_serve i p ]

abbrev pub any_suggests : ℕ → List (SocketAddr × PeerState) → Bool
any_suggests i [] = false
any_suggests i ((addr, p) ∷ ps) = contains i p.suggested || any_suggests i ps

unfoldable pub is_suggested : ℕ → PeerRegistry → Bool
is_suggested i r = any_suggests i r.peers

abbrev pub unchoked_of : List (SocketAddr × PeerState) → List SocketAddr
unchoked_of [] = []
unchoked_of ((addr, p) ∷ ps) =
    let rest = unchoked_of ps in if p.peer_choking then rest else addr ∷ rest

unfoldable pub unchoked : PeerRegistry → List SocketAddr
unchoked r = unchoked_of r.peers

abbrev pub stats_of : List (SocketAddr × PeerState) → List (SocketAddr × ℕ × ℕ)
stats_of [] = []
stats_of ((addr, p) ∷ ps) = (addr, p.bytes_uploaded, p.bytes_downloaded) ∷ stats_of ps

unfoldable pub peer_stats : PeerRegistry → List (SocketAddr × ℕ × ℕ)
peer_stats r = stats_of r.peers
