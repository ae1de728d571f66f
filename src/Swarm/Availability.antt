-- ===== src/Swarm/Availability.antt =====
-- domain/swarm/peer_registry.rs, `PieceAvailability`: which peers have which piece.
use tortue.Prelude.{
  ℕ, zero, suc, ◌+◌, ◌-◌, ◌^◌, List, [], ◌∷◌, Bool, true, false, ◌&&◌, Option, none, some,
  if◌then◌else◌, length, is_empty, nat_eq,
}
use tortue.Prelude.Dict.{get, insert, contains, add, discard}
use tortue.Net.{SocketAddr, addr_eq}

pub record PieceAvailability : Type 0 where
  pub by_piece : List (ℕ × List SocketAddr)
  pub total_pieces : ℕ

unfoldable pub new : ℕ → PieceAvailability
new total = record { by_piece = []; total_pieces = total }

abbrev pub or_default : Option (List SocketAddr) → List SocketAddr
or_default none = []
or_default (some peers) = peers

unfoldable pub record_piece : ℕ → SocketAddr → PieceAvailability → PieceAvailability
record_piece i addr a = record a {
  by_piece = insert i (add addr (or_default (get i a.by_piece))) a.by_piece;
}

-- `for piece in 0..self.total_pieces`, with the rounds that are left.
unfoldable pub record_from : ℕ → ℕ → SocketAddr → PieceAvailability → PieceAvailability
record_from zero i addr a = a
record_from (suc rounds) i addr a = record_from rounds (i + 1) addr (record_piece i addr a)

unfoldable pub record_all : SocketAddr → PieceAvailability → PieceAvailability
record_all addr a = record_from a.total_pieces 0 addr a

-- `retain`: a piece that nobody else has is dropped.
unfoldable pub remove_from_each :
    SocketAddr → List (ℕ × List SocketAddr) → List (ℕ × List SocketAddr)
remove_from_each addr [] = []
remove_from_each addr ((i, peers) ∷ m) =
    let rest = remove_from_each addr m in
    if is_empty (discard addr peers) then rest else (i, discard addr peers) ∷ rest

unfoldable pub remove_peer : SocketAddr → PieceAvailability → PieceAvailability
remove_peer addr a = record a { by_piece = remove_from_each addr a.by_piece }

unfoldable pub has : ℕ → SocketAddr → PieceAvailability → Bool
has i addr a = elim (get i a.by_piece) [ none ↦ false | some peers ↦ contains addr peers ]

unfoldable pub has_from : ℕ → ℕ → SocketAddr → PieceAvailability → Bool
has_from zero i addr a = true
has_from (suc rounds) i addr a = has i addr a && has_from rounds (i + 1) addr a

unfoldable pub is_seeder : SocketAddr → PieceAvailability → Bool
is_seeder addr a = has_from a.total_pieces 0 addr a

unfoldable pub peers_for : ℕ → PieceAvailability → List SocketAddr
peers_for i a = or_default (get i a.by_piece)

-- `usize::MAX` for a piece that no peer is known to have.
unfoldable pub rarity : ℕ → PieceAvailability → ℕ
rarity i a = elim (get i a.by_piece) [ none ↦ 2 ^ 64 - 1 | some peers ↦ length peers ]
