-- ===== src/Swarm/AvailabilityLaws.antt =====
-- The availability as a relation between pieces and peers.
use tortue.Prelude.{
  ℕ, zero, suc, ◌+◌, List, [], ◌∷◌, Bool, true, false, ◌&&◌, ◌||◌, Option, none, some,
  if◌then◌else◌, is_empty, nat_eq, ◌==◌, ◌<◌, ◌≤◌, leb, ltb, ◌≡◌, refl, arith, Bool-cases, inl, inr,
  ==_iff,
}
use tortue.Prelude.Dict.{
  get, insert, contains, contains_key, add, discard, get-insert, contains-add, contains-discard,
}
use tortue.Net.{SocketAddr, addr_eq, addr_beq, addr_beq_iff}
use tortue.Swarm.Availability.{
  PieceAvailability, or_default, record_piece, record_from, record_all, remove_from_each,
  remove_peer, has, has_from, is_seeder,
}

-- A table has each key once.
unfoldable pub Distinct : List (ℕ × List SocketAddr) → Type 0
Distinct [] = Unit {0}
Distinct ((i, peers) ∷ m) = (contains_key i m ≡ false) × Distinct m

contains_key-insert :
    (i j : ℕ) (v : List SocketAddr) (m : List (ℕ × List SocketAddr))
    → contains_key j (insert i v m) ≡ (i == j || contains_key j m)
contains_key-insert i j v [] = refl
contains_key-insert i j v ((k, w) ∷ m) = ground (arith, contains_key-insert i j v m)

insert-Distinct :
    (i : ℕ) (v : List SocketAddr) (m : List (ℕ × List SocketAddr))
    → Distinct m
    → Distinct (insert i v m)
unfolding Distinct
insert-Distinct i v [] d = (refl, tt)
insert-Distinct i v ((k, w) ∷ m) d = elim (Bool-cases (k == i)) [
  | inl e ↦ rw e (ground (arith, d.0), d.1)
  | inr e ↦ rw e (ground (arith, contains_key-insert i k v m, d.0, e), insert-Distinct i v m d.1)
]

contains_key-remove_from_each :
    (a : SocketAddr) (i : ℕ) (m : List (ℕ × List SocketAddr))
    → contains_key i m ≡ false
    → contains_key i (remove_from_each a m) ≡ false
unfolding remove_from_each
contains_key-remove_from_each a i [] h = refl
contains_key-remove_from_each a i ((k, w) ∷ m) h =
    ground (arith, contains_key-remove_from_each a i m)

remove_from_each-Distinct :
    (a : SocketAddr) (m : List (ℕ × List SocketAddr)) → Distinct m → Distinct (remove_from_each a m)
unfolding remove_from_each Distinct
remove_from_each-Distinct a [] d = tt
remove_from_each-Distinct a ((k, w) ∷ m) d = elim (Bool-cases (is_empty (discard a w))) [
  | inl e ↦ rw e (remove_from_each-Distinct a m d.1)
  | inr e ↦ rw e (contains_key-remove_from_each a k m d.0, remove_from_each-Distinct a m d.1)
]

get_absent : (i : ℕ) (m : List (ℕ × List SocketAddr)) → contains_key i m ≡ false → get i m ≡ none
get_absent i [] h = refl
get_absent i ((k, w) ∷ m) h = ground (arith, get_absent i m)

abbrev pub holds : Option (List SocketAddr) → SocketAddr → Bool
holds none d = false
holds (some peers) d = contains d peers

empty-contains : (s : List SocketAddr) (d : SocketAddr) → is_empty s ≡ true → contains d s ≡ false
empty-contains [] d h = refl
empty-contains (x ∷ s) d h = absurd (cc)

holds-remove_from_each :
    (a d : SocketAddr) (j : ℕ) (m : List (ℕ × List SocketAddr))
    → Distinct m
    → holds (get j (remove_from_each a m)) d ≡ (if addr_beq a d then false else holds (get j m) d)
unfolding remove_from_each Distinct
holds-remove_from_each a d j [] h = ground arith
holds-remove_from_each a d j ((k, w) ∷ m) h = ground (
  arith,
  holds-remove_from_each a d j m h.1,
  contains-discard a d w,
  addr_beq_iff a d,
  empty-contains (discard a w) d,
  get_absent k (remove_from_each a m),
  contains_key-remove_from_each a k m h.0,
  ==_iff k j,
)

module _ (a d : SocketAddr) (j : ℕ) (v : PieceAvailability) where
  pub has-record_piece :
      (i : ℕ) → has j d (record_piece i a v) ≡ (i == j && addr_beq a d || has j d v)
  unfolding has record_piece
  has-record_piece i = ground (
    arith,
    get-insert i j (add a (or_default (get i v.by_piece))) v.by_piece,
    contains-add a d (or_default (get i v.by_piece)),
  )

  pub has-remove_peer :
      Distinct v.by_piece → has j d (remove_peer a v) ≡ (if addr_beq a d then false else has j d v)
  unfolding has remove_peer
  has-remove_peer h = ground (arith, holds-remove_from_each a d j v.by_piece h)

pub record_piece-Distinct :
    (i : ℕ) (a : SocketAddr) (v : PieceAvailability)
    → Distinct v.by_piece
    → Distinct (record_piece i a v).by_piece
unfolding record_piece
record_piece-Distinct i a v h =
    insert-Distinct i (add a (or_default (get i v.by_piece))) v.by_piece h

pub remove_peer-Distinct :
    (a : SocketAddr) (v : PieceAvailability)
    → Distinct v.by_piece
    → Distinct (remove_peer a v).by_piece
unfolding remove_peer
remove_peer-Distinct a v h = remove_from_each-Distinct a v.by_piece h

pub record_from-Distinct :
    (rounds i : ℕ) (a : SocketAddr) (v : PieceAvailability)
    → Distinct v.by_piece
    → Distinct (record_from rounds i a v).by_piece
unfolding record_from
record_from-Distinct zero i a v h = h
record_from-Distinct (suc rounds) i a v h =
    record_from-Distinct rounds (i + 1) a (record_piece i a v) (record_piece-Distinct i a v h)

has-record_from :
    (rounds i : ℕ) (a d : SocketAddr) (j : ℕ) (v : PieceAvailability)
    → has j d (record_from rounds i a v)
      ≡ (leb i j && ltb j (i + rounds) && addr_beq a d || has j d v)
unfolding record_from
has-record_from zero i a d j v = ground arith
has-record_from (suc rounds) i a d j v =
    ground
      (arith, has-record_from rounds (i + 1) a d j (record_piece i a v), has-record_piece a d j v i)

-- `record_all` adds each piece of the torrent to the peer's.
pub has-record_all :
    (a d : SocketAddr) (j : ℕ) (v : PieceAvailability)
    → has j d (record_all a v) ≡ (ltb j v.total_pieces && addr_beq a d || has j d v)
unfolding record_all
has-record_all a d j v = ground (arith, has-record_from v.total_pieces 0 a d j v)

-- Whether a peer is a seeder depends on its own pieces only.
pub has_from-congr :
    (rounds i : ℕ) (d : SocketAddr) (v w : PieceAvailability)
    → ((j : ℕ) → has j d v ≡ has j d w)
    → has_from rounds i d v ≡ has_from rounds i d w
unfolding has_from
has_from-congr zero i d v w h = refl
has_from-congr (suc rounds) i d v w h = ground (arith, h i, has_from-congr rounds (i + 1) d v w h)

has_from-all :
    (rounds i : ℕ) (d : SocketAddr) (v : PieceAvailability)
    → ((j : ℕ) → i ≤ j → j < i + rounds → has j d v ≡ true)
    → has_from rounds i d v ≡ true
unfolding has_from
has_from-all zero i d v h = refl
has_from-all (suc rounds) i d v h = ground (
  arith,
  h i (omega arith) (omega arith),
  has_from-all rounds (i + 1) d v (λ j k l. h j (omega arith) (omega arith)),
)

pub is_seeder-record_all :
    (a : SocketAddr) (v : PieceAvailability)
    → (record_all a v).total_pieces ≡ v.total_pieces
    → is_seeder a (record_all a v) ≡ true
unfolding is_seeder
is_seeder-record_all a v h =
    has_from-all (record_all a v).total_pieces 0 a (record_all a v)
      (λ j k l. ground (arith, has-record_all a a j v, addr_beq_iff a a))
