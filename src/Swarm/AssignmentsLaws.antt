-- ===== src/Swarm/AssignmentsLaws.antt =====
-- The requests in flight as a relation between blocks and peers, at most 32 to a peer.
use tortue.Prelude.{
  ℕ, List, [], ◌∷◌, false, if◌then◌else◌, length, ◌<◌, ◌≤◌, ◌&&◌, ◌||◌, ◌≡◌, arith, Option-cases,
  inl, inr, length-append,
}
use tortue.Prelude.Dict.{get, add, discard, get-insert, get-remove, contains-add, contains-discard}
use tortue.Net.{SocketAddr, BlockRange, addr_eq, range_eq, addr_beq, range_beq, addr_beq_iff}
use tortue.Swarm.Assignments.{
  BlockAssignments, max_in_flight_per_peer, or_default, assign, unassign, is_holder, release_peer,
  free_slots_for,
}

module _ (b c : BlockRange) (a d : SocketAddr) (m : BlockAssignments) where
  -- After `assign` the holders are those before and the one pair added.
  pub is_holder-assign :
      is_holder c d (assign b a m) ≡ (range_beq b c && addr_beq a d || is_holder c d m)
  unfolding is_holder assign
  is_holder-assign = ground (
    arith,
    get-insert a d (add b (or_default (get a m))) m,
    contains-add b c (or_default (get a m)),
    addr_beq_iff a d,
  )

  -- After `unassign` the holders are those before without the one pair.
  pub is_holder-unassign :
      is_holder c d (unassign b a m)
      ≡ (if range_beq b c && addr_beq a d then false else is_holder c d m)
  unfolding is_holder unassign
  is_holder-unassign = elim (Option-cases (get a m)) [
    | inl g ↦ ground (arith, g, addr_beq_iff a d)
    | inr (blocks, g) ↦ ground (
      arith,
      g,
      get-insert a d (discard b blocks) m,
      contains-discard b c blocks,
      addr_beq_iff a d,
    )
  ]

  -- `release_peer` takes away all of the peer's.
  pub is_holder-release_peer :
      is_holder c d (release_peer a m) ≡ (if addr_beq a d then false else is_holder c d m)
  unfolding is_holder release_peer
  is_holder-release_peer = ground (arith, get-remove a d m)

length-discard : (b : BlockRange) (s : List BlockRange) → length (discard b s) ≤ length s
length-discard b [] = omega arith
length-discard b (c ∷ s) = ground (arith, length-discard b s)

-- The number of the requests to a peer that are in flight.
abbrev pub in_flight : SocketAddr → BlockAssignments → ℕ
in_flight a m = length (or_default (get a m))

-- No peer has more requests than it has slots.
unfoldable pub Capped : BlockAssignments → Type 0
Capped m = (a : SocketAddr) → in_flight a m ≤ max_in_flight_per_peer

pub assign-Capped :
    (b : BlockRange) (a : SocketAddr) (m : BlockAssignments)
    → Capped m
    → 0 < free_slots_for a m
    → Capped (assign b a m)
unfolding Capped assign free_slots_for
assign-Capped b a m v h d = ground (
  arith,
  v d,
  get-insert a d (add b (or_default (get a m))) m,
  length-append (or_default (get a m)) (b ∷ []),
)

pub unassign-Capped :
    (b : BlockRange) (a : SocketAddr) (m : BlockAssignments) → Capped m → Capped (unassign b a m)
unfolding Capped unassign
unassign-Capped b a m v d = elim (Option-cases (get a m)) [
  | inl g ↦ ground (arith, v d, g)
  | inr (blocks, g) ↦
      ground (arith, v d, v a, g, get-insert a d (discard b blocks) m, length-discard b blocks)
]

pub release_peer-Capped :
    (a : SocketAddr) (m : BlockAssignments) → Capped m → Capped (release_peer a m)
unfolding Capped release_peer
release_peer-Capped a m v d = ground (arith, v d, get-remove a d m)
