-- ===== src/Swarm/RegistryLaws.antt =====
-- What a message does to the registry: a peer changes its own entry only, and every known peer is
-- a seeder or a leecher as its pieces say.
use tortue.Prelude.{
  ℕ, zero, suc, ◌+◌, ◌*◌, Bytes, List, [], ◌∷◌, false, ◌&&◌, ◌||◌, length, Result, ok, err, nat_eq,
  ◌≡◌, refl, arith, inl, inr, ◌⊎◌, ◌∙◌,
}
use tortue.Prelude.Be.{IsBytes}
use tortue.Prelude.Dict.{contains}
use tortue.Net.{SocketAddr, addr_eq, addr_beq, addr_beq_iff}
use tortue.Bitfield
use tortue.Bitfield.Laws.{bit_at}
use tortue.Bitfield.Extend.{try_from_made}
use tortue.Bitfield.Iterator.{contains-items}
use tortue.Message.Types.{
  Message, keep_alive, choke, unchoke, interested, not_interested, have, bitfield, request, piece,
  cancel, extension_handshake, extension, suggest_piece, have_all, have_none, reject_request,
  allowed_fast, unimplemented,
}
use tortue.Swarm.Availability.{
  PieceAvailability, record_piece, record_from, record_all, remove_peer, has,
}
use tortue.Swarm.AvailabilityLaws.{
  Distinct, has-record_piece, has-remove_peer, record_piece-Distinct, remove_peer-Distinct,
  record_from-Distinct, has-record_all,
}
use tortue.Swarm.Registry.{record_items, record_bitfield, apply_to_availability}

has-record_items :
    (is : List ℕ) (a d : SocketAddr) (j : ℕ) (v : PieceAvailability)
    → has j d (record_items is a v) ≡ (contains j is && addr_beq a d || has j d v)
has-record_items [] a d j v = refl
has-record_items (i ∷ is) a d j v =
    ground (arith, has-record_items is a d j (record_piece i a v), has-record_piece a d j v i)

record_items-kept :
    (is : List ℕ) (a : SocketAddr) (v : PieceAvailability)
    → Distinct v.by_piece
    → Distinct (record_items is a v).by_piece
      × ((record_items is a v).total_pieces ≡ v.total_pieces)
unfolding record_piece
record_items-kept [] a v h = (h, refl)
record_items-kept (i ∷ is) a v h =
    record_items-kept is a (record_piece i a v) (record_piece-Distinct i a v h)

record_from-total :
    (rounds i : ℕ) (a : SocketAddr) (v : PieceAvailability)
    → (record_from rounds i a v).total_pieces ≡ v.total_pieces
unfolding record_from record_piece
record_from-total zero i a v = refl
record_from-total (suc rounds) i a v = record_from-total rounds (i + 1) a (record_piece i a v)

has-record_bitfield :
    (r : Result Bitfield.Error Bitfield.Bitfield) (a d : SocketAddr) (j : ℕ) (v : PieceAvailability)
    → addr_beq a d ≡ false
    → has j d (record_bitfield r a v) ≡ has j d v
has-record_bitfield (ok b) a d j v n = ground (arith, has-record_items (Bitfield.items b) a d j v)
has-record_bitfield (err e) a d j v n = refl

record_bitfield-kept :
    (r : Result Bitfield.Error Bitfield.Bitfield) (a : SocketAddr) (v : PieceAvailability)
    → Distinct v.by_piece
    → Distinct (record_bitfield r a v).by_piece
      × ((record_bitfield r a v).total_pieces ≡ v.total_pieces)
record_bitfield-kept (ok b) a v h = record_items-kept (Bitfield.items b) a v h
record_bitfield-kept (err e) a v h = (h, refl)

-- The five ways in which a message changes the availability.
abbrev Kind : Message → Type 0
Kind msg =
    ((bits : Bytes) × ((a : SocketAddr) (v : PieceAvailability)
        → apply_to_availability a msg v
          ≡ record_bitfield (Bitfield.try_from bits) a (remove_peer a v)))
    ⊎ ((i : ℕ) × ((a : SocketAddr) (v : PieceAvailability)
          → apply_to_availability a msg v ≡ record_piece i a v))
    ⊎ ((a : SocketAddr) (v : PieceAvailability) → apply_to_availability a msg v ≡ record_all a v)
    ⊎ ((a : SocketAddr) (v : PieceAvailability) → apply_to_availability a msg v ≡ remove_peer a v)
    ⊎ ((a : SocketAddr) (v : PieceAvailability) → apply_to_availability a msg v ≡ v)

kind : (msg : Message) → Kind msg
unfolding apply_to_availability
kind (bitfield bits) = inl (bits, λ a v. refl)
kind (have i) = inr (inl (i, λ a v. refl))
kind have_all = inr (inr (inl (λ a v. refl)))
kind have_none = inr (inr (inr (inl (λ a v. refl))))
kind keep_alive = inr (inr (inr (inr (λ a v. refl))))
kind choke = inr (inr (inr (inr (λ a v. refl))))
kind unchoke = inr (inr (inr (inr (λ a v. refl))))
kind interested = inr (inr (inr (inr (λ a v. refl))))
kind not_interested = inr (inr (inr (inr (λ a v. refl))))
kind (request r) = inr (inr (inr (inr (λ a v. refl))))
kind (piece r b) = inr (inr (inr (inr (λ a v. refl))))
kind (cancel r) = inr (inr (inr (inr (λ a v. refl))))
kind (extension_handshake e) = inr (inr (inr (inr (λ a v. refl))))
kind (extension e b) = inr (inr (inr (inr (λ a v. refl))))
kind (suggest_piece i) = inr (inr (inr (inr (λ a v. refl))))
kind (reject_request r) = inr (inr (inr (inr (λ a v. refl))))
kind (allowed_fast i) = inr (inr (inr (inr (λ a v. refl))))
kind unimplemented = inr (inr (inr (inr (λ a v. refl))))

-- A message leaves the pieces of every other peer as they were, where the availability has each
-- piece once.
pub apply_to_availability-other :
    (a d : SocketAddr) (msg : Message) (j : ℕ) (v : PieceAvailability)
    → Distinct v.by_piece
    → addr_beq a d ≡ false
    → has j d (apply_to_availability a msg v) ≡ has j d v
apply_to_availability-other a d msg j v h n = elim (kind msg) [
  | inl (bits, e) ↦ rw (e a v) (
      has-record_bitfield (Bitfield.try_from bits) a d j (remove_peer a v) n
      ∙ ground (arith, has-remove_peer a d j v h))
  | inr (inl (i, e)) ↦ rw (e a v) (ground (arith, has-record_piece a d j v i))
  | inr (inr (inl e)) ↦ rw (e a v) (ground (arith, has-record_all a d j v))
  | inr (inr (inr (inl e))) ↦ rw (e a v) (ground (arith, has-remove_peer a d j v h))
  | inr (inr (inr (inr e))) ↦ rw (e a v) refl
]

pub apply_to_availability-kept :
    (a : SocketAddr) (msg : Message) (v : PieceAvailability)
    → Distinct v.by_piece
    → Distinct (apply_to_availability a msg v).by_piece
      × ((apply_to_availability a msg v).total_pieces ≡ v.total_pieces)
unfolding record_piece record_all remove_peer
apply_to_availability-kept a msg v h = elim (kind msg) [
  | inl (bits, e) ↦ rw (e a v) (
      record_bitfield-kept (Bitfield.try_from bits) a (remove_peer a v)
        (remove_peer-Distinct a v h))
  | inr (inl (i, e)) ↦ rw (e a v) (record_piece-Distinct i a v h, refl)
  | inr (inr (inl e)) ↦
      rw (e a v)
        (record_from-Distinct v.total_pieces 0 a v h, record_from-total v.total_pieces 0 a v)
  | inr (inr (inr (inl e))) ↦ rw (e a v) (remove_peer-Distinct a v h, refl)
  | inr (inr (inr (inr e))) ↦ rw (e a v) (h, refl)
]

-- After a peer's bitfield the peer is known to have exactly the pieces whose bits are set, what was
-- known of it before being dropped.
pub has-bitfield :
    (a : SocketAddr) (bits : Bytes) (j : ℕ) (v : PieceAvailability)
    → Distinct v.by_piece
    → IsBytes bits
    → has j a (apply_to_availability a (bitfield bits) v) ≡ bit_at bits j
unfolding apply_to_availability
has-bitfield a bits j v h w =
    let made : Bitfield.Bitfield = record { data_bytes = bits; pieces = length bits * 8 } in
    rw (try_from_made bits w) (
      has-record_items (Bitfield.items made) a a j (remove_peer a v)
      ∙ ground (arith, has-remove_peer a a j v h, contains-items made j, addr_beq_iff a a))
