-- ===== src/Swarm/RegistryInvariant.antt =====
-- The seeders and the leechers are known peers, sorted by the pieces that they have.
use tortue.Prelude.{
  ℕ, true, false, not, ◌&&◌, if◌then◌else◌, ok, ◌≡◌, refl, arith, Bool-cases, Option-cases, inl,
  inr, subst, ◌∙◌, ap, bytes_eq,
}
use tortue.Prelude.Dict.{
  get, insert, contains, contains_key, contains-add, contains-discard, contains_key-insert,
  contains_key-remove,
}
use tortue.Net.{SocketAddr, addr_eq, addr_beq, addr_beq_iff}
use tortue.Peer.{PeerId, ConnectionDirection, PeerExtensions}
use tortue.Message.Types.{Message, needs_fast}
use tortue.Swarm.Availability
use tortue.Swarm.Availability.{PieceAvailability, remove_peer, has, has_from, is_seeder}
use tortue.Swarm.AvailabilityLaws.{Distinct, has-remove_peer, remove_peer-Distinct, has_from-congr}
use tortue.Swarm.Registry.{
  PeerRegistry, apply_to_availability, new_peer, apply_to_peer, classify, apply, disconnected,
  connected, new,
}
use tortue.Swarm.RegistryLaws.{apply_to_availability-other, apply_to_availability-kept}

pub record IsValid (r : PeerRegistry) : Type 0 where
  pub distinct : Distinct r.availability.by_piece
  pub seeders_have :
      (a : SocketAddr)
      → contains a r.seeders ≡ true
      → (is_seeder a r.availability ≡ true) × (contains_key a r.peers ≡ true)
  pub leechers_lack :
      (a : SocketAddr)
      → contains a r.leechers ≡ true
      → (is_seeder a r.availability ≡ false) × (contains_key a r.peers ≡ true)

pub new-IsValid : (total : ℕ) → IsValid (new total)
unfolding new Availability.new Distinct
new-IsValid total = record {
  distinct = tt;
  seeders_have = λ a h. absurd (ground arith);
  leechers_lack = λ a h. absurd (ground arith);
}

is_seeder-congr :
    (d : SocketAddr) (v w : PieceAvailability)
    → v.total_pieces ≡ w.total_pieces
    → ((j : ℕ) → has j d v ≡ has j d w)
    → is_seeder d v ≡ is_seeder d w
unfolding is_seeder
is_seeder-congr d v w t h = ap (λ n. has_from n 0 d v) t ∙ has_from-congr w.total_pieces 0 d v w h

is_seeder-other :
    (a d : SocketAddr) (msg : Message) (v : PieceAvailability)
    → Distinct v.by_piece
    → addr_beq a d ≡ false
    → is_seeder d (apply_to_availability a msg v) ≡ is_seeder d v
is_seeder-other a d msg v h n =
    is_seeder-congr d (apply_to_availability a msg v) v (apply_to_availability-kept a msg v h).1
      (λ j. apply_to_availability-other a d msg j v h n)

is_seeder-remove_peer :
    (a d : SocketAddr) (v : PieceAvailability)
    → Distinct v.by_piece
    → addr_beq a d ≡ false
    → is_seeder d (remove_peer a v) ≡ is_seeder d v
unfolding remove_peer
is_seeder-remove_peer a d v h n =
    is_seeder-congr d (remove_peer a v) v refl
      (λ j. has-remove_peer a d j v h ∙ ap (λ b. if b then false else has j d v) n)

-- Re-sorting peer `a` is enough where nothing else changed.
classify-IsValid :
    (a : SocketAddr) (r s : PeerRegistry)
    → IsValid r
    → Distinct s.availability.by_piece
    → s.seeders ≡ r.seeders
    → s.leechers ≡ r.leechers
    → contains_key a s.peers ≡ true
    → ((d : SocketAddr) → contains_key d r.peers ≡ true → contains_key d s.peers ≡ true)
    → ((d : SocketAddr)
        → addr_beq a d ≡ false
        → is_seeder d s.availability ≡ is_seeder d r.availability)
    → IsValid (classify a s)
unfolding classify
classify-IsValid a r s v h e f k keep other = elim (Bool-cases (is_seeder a s.availability)) [
  | inl c ↦ rw c (record {
    distinct = h;
    seeders_have = λ d g. elim (Bool-cases (addr_beq a d)) [
      | inl m ↦
          subst (λ x. (is_seeder x s.availability ≡ true) × (contains_key x s.peers ≡ true))
            ((addr_beq_iff a d).0 m) (c, k)
      | inr n ↦
          let (p, q) = v.seeders_have d (ground (arith, contains-add a d s.seeders, e, n, g)) in
          (other d n ∙ p, keep d q)
    ];
    leechers_lack = λ d g. elim (Bool-cases (addr_beq a d)) [
      | inl m ↦ absurd (ground (arith, contains-discard a d s.leechers, m, g))
      | inr n ↦
          let (p, q) =
            v.leechers_lack d (ground (arith, contains-discard a d s.leechers, f, n, g)) in
          (other d n ∙ p, keep d q)
    ];
  })
  | inr c ↦ rw c (record {
    distinct = h;
    seeders_have = λ d g. elim (Bool-cases (addr_beq a d)) [
      | inl m ↦ absurd (ground (arith, contains-discard a d s.seeders, m, g))
      | inr n ↦
          let (p, q) = v.seeders_have d (ground (arith, contains-discard a d s.seeders, e, n, g)) in
          (other d n ∙ p, keep d q)
    ];
    leechers_lack = λ d g. elim (Bool-cases (addr_beq a d)) [
      | inl m ↦
          subst (λ x. (is_seeder x s.availability ≡ false) × (contains_key x s.peers ≡ true))
            ((addr_beq_iff a d).0 m) (c, k)
      | inr n ↦
          let (p, q) = v.leechers_lack d (ground (arith, contains-add a d s.leechers, f, n, g)) in
          (other d n ∙ p, keep d q)
    ];
  })
]

-- A message that is applied keeps the registry valid: each seeder is a known peer that has every
-- piece, each leecher a known peer that does not, and the availability has each piece once.
pub apply-IsValid :
    (a : SocketAddr) (msg : Message) (r s : PeerRegistry)
    → IsValid r
    → apply a msg r ≡ ok s
    → IsValid s
unfolding apply
apply-IsValid a msg r s v h = elim (Option-cases (get a r.peers)) [
  | inl g ↦ absurd (ground (arith, g, h))
  | inr (p, g) ↦ elim (Bool-cases (needs_fast msg && not p.fast)) [
    | inl c ↦ absurd (ground (arith, g, c, h))
    | inr c ↦
        let t : PeerRegistry = record r {
          peers = insert a (apply_to_peer msg p) r.peers;
          availability = apply_to_availability a msg r.availability;
        } in
        subst IsValid (ground (arith, g, c, h)) (
          classify-IsValid a r t v (apply_to_availability-kept a msg r.availability v.distinct).0
            refl refl
            (ground
              (arith, contains_key-insert a a (apply_to_peer msg p) r.peers, addr_beq_iff a a))
            (λ d k. ground (arith, contains_key-insert a d (apply_to_peer msg p) r.peers, k))
            (λ d n. is_seeder-other a d msg r.availability v.distinct n))
  ]
]

pub disconnected-IsValid :
    (a : SocketAddr) (r : PeerRegistry) → IsValid r → IsValid (disconnected a r)
unfolding disconnected remove_peer
disconnected-IsValid a r v = record {
  distinct = remove_peer-Distinct a r.availability v.distinct;
  seeders_have = λ d g. elim (Bool-cases (addr_beq a d)) [
    | inl m ↦ absurd (ground (arith, contains-discard a d r.seeders, m, g))
    | inr n ↦
        let (p, q) = v.seeders_have d (ground (arith, contains-discard a d r.seeders, n, g)) in
        (
          is_seeder-remove_peer a d r.availability v.distinct n ∙ p,
          ground (arith, contains_key-remove a d r.peers, n, q),
        )
  ];
  leechers_lack = λ d g. elim (Bool-cases (addr_beq a d)) [
    | inl m ↦ absurd (ground (arith, contains-discard a d r.leechers, m, g))
    | inr n ↦
        let (p, q) = v.leechers_lack d (ground (arith, contains-discard a d r.leechers, n, g)) in
        (
          is_seeder-remove_peer a d r.availability v.distinct n ∙ p,
          ground (arith, contains_key-remove a d r.peers, n, q),
        )
  ];
}

pub connected-IsValid :
    (a : SocketAddr) (id : PeerId) (dir : ConnectionDirection) (e : PeerExtensions)
    (r : PeerRegistry)
    → IsValid r
    → IsValid (connected a id dir e r)
unfolding connected
connected-IsValid a id dir e r v = record {
  distinct = v.distinct;
  seeders_have = λ d g.
      let (p, q) = v.seeders_have d g in
      (p, ground (arith, contains_key-insert a d (new_peer id e) r.peers, q));
  leechers_lack = λ d g.
      let (p, q) = v.leechers_lack d g in
      (p, ground (arith, contains_key-insert a d (new_peer id e) r.peers, q));
}

-- No peer is both.
pub IsValid-disjoint :
    (r : PeerRegistry) (a : SocketAddr)
    → IsValid r
    → contains a r.seeders ≡ true
    → contains a r.leechers ≡ false
IsValid-disjoint r a v h = elim (Bool-cases (contains a r.leechers)) [
  | inl g ↦ absurd (ground (arith, (v.seeders_have a h).0, (v.leechers_lack a g).0))
  | inr g ↦ g
]
