-- ===== src/Swarm/PlanRequests.antt =====
-- The requests of a plan, and what is in flight after it.
use tortue.Prelude.{
  ◌+◌, List, [], ◌∷◌, ◌++◌, true, false, Option, some, ◌==◌, ◌≡◌, arith, Bool-cases, ◌⊎◌, inl, inr,
  All, subst, sym,
}
use tortue.Prelude.Dict.{contains, contains_key}
use tortue.Net.{SocketAddr, BlockRange, addr_eq, range_eq, addr_beq, addr_beq_iff}
use tortue.Message.Types.{request, interested}
use tortue.Swarm.State.{Swarm, Output, send_to_peer, download}
use tortue.Swarm.Registry.{PeerRegistry, declare_interest, peers_with, can_serve, contains_addr}
use tortue.Swarm.Assignments.{BlockAssignments, assign, is_holder}
use tortue.Swarm.AssignmentsLaws.{Capped, assign-Capped, is_holder-assign}
use tortue.Swarm.Plan.{
  budget, wanted_blocks, eligible, filter_eligible, candidates, interest, run, started, plan,
  goes_on,
}
use tortue.Swarm.PlanLaws.{run-P, run_ends}

-- What a plan may send: interest to a known peer, and a wanted block's request to a peer that has the
-- piece, serves it, and was not asked for the block before.
unfoldable pub Asks : PeerRegistry → BlockAssignments → List BlockRange → Output → Type 0
Asks r m blocks (send_to_peer a interested) = contains_addr a r ≡ true
Asks r m blocks (send_to_peer a (request b)) =
    (contains b blocks ≡ true)
    × (contains a (peers_with b.piece_index r) ≡ true)
    × (can_serve a b.piece_index r ≡ true)
    × (is_holder b a m ≡ false)
Asks r m blocks _ = ⊥

filter_eligible_sound :
    (r : PeerRegistry) (m : BlockAssignments) (b : BlockRange) (a : SocketAddr)
    (s : List SocketAddr)
    → contains a (filter_eligible r m b s) ≡ true
    → (contains a s ≡ true) × (eligible r m b a ≡ true)
filter_eligible_sound r m b a [] h = absurd (ground arith)
filter_eligible_sound r m b a (x ∷ s) h = elim (Bool-cases (eligible r m b x)) [
  | inl e ↦ elim (Bool-cases (addr_beq x a)) [
    | inl f ↦ (ground (arith, f), subst (λ y. eligible r m b y ≡ true) ((addr_beq_iff x a).0 f) e)
    | inr f ↦
        let (p, q) = filter_eligible_sound r m b a s (ground (arith, h, e, f)) in
        (ground (arith, p), q)
  ]
  | inr e ↦
      let (p, q) = filter_eligible_sound r m b a s (ground (arith, h, e)) in (ground (arith, p), q)
]

All-append {ℓ} :
    {A : Type ℓ} (P : A → Type 0) (xs ys : List A) → All P xs → All P ys → All P (xs ++ ys)
All-append P [] ys p q = q
All-append P (x ∷ xs) ys p q = (p.0, All-append P xs ys p.1 q)

interest-cases :
    (a : SocketAddr) (r : PeerRegistry)
    → (interest a r ≡ [])
      ⊎ ((interest a r ≡ send_to_peer a interested ∷ []) × (contains_addr a r ≡ true))
unfolding declare_interest contains_addr
interest-cases a r = elim (Bool-cases (contains_key a r.peers)) [
  | inl e ↦ inr (ground (arith, e), e)
  | inr e ↦ inl (ground (arith, e))
]

interest-Asks :
    (r : PeerRegistry) (m : BlockAssignments) (blocks : List BlockRange) (a : SocketAddr)
    → All (Asks r m blocks) (interest a r)
unfolding Asks
interest-Asks r m blocks a = elim (interest-cases a r) [
  | inl e ↦ subst (All (Asks r m blocks)) (sym e) tt
  | inr (e, k) ↦ subst (All (Asks r m blocks)) (sym e) (k, tt)
]

-- The state of a plan that began with `m` in flight.
unfoldable Sound :
    PeerRegistry → BlockAssignments → List BlockRange → BlockAssignments → List Output → Type 0
Sound r m blocks n out =
    Capped n
    × ((b : BlockRange) (a : SocketAddr) → is_holder b a m ≡ true → is_holder b a n ≡ true)
    × All (Asks r m blocks) out

keep-Sound :
    (r : PeerRegistry) (m : BlockAssignments) (blocks : List BlockRange) (n : BlockAssignments)
    (out : List Output) (b : BlockRange) (a : SocketAddr)
    → contains b blocks ≡ true
    → contains a (candidates r n b) ≡ true
    → Sound r m blocks n out
    → Sound r m blocks (assign b a n) (out ++ interest a r ++ send_to_peer a (request b) ∷ [])
unfolding Sound candidates eligible Asks
keep-Sound r m blocks n out b a h c (cap, mono, asks) =
    let (there, fit) = filter_eligible_sound r n b a (peers_with b.piece_index r) c in
    (
      assign-Capped b a n cap (ground (arith, fit)),
      λ d e k. ground (arith, is_holder-assign b d a e n, mono d e k),
      All-append (Asks r m blocks) (out ++ interest a r) (send_to_peer a (request b) ∷ [])
          (All-append (Asks r m blocks) out (interest a r) asks (interest-Asks r m blocks a))
          ((h, there, ground (arith, fit), ground (arith, fit, mono b a)), tt),
    )

module _ {R : Type 0} (choose : List SocketAddr → R → Option SocketAddr × R)
    (picks : (c : List SocketAddr) (g : R) (a : SocketAddr)
      → (choose c g).0 ≡ some a
      → contains a c ≡ true)
    (g : R) (s : Swarm) where
  plan-Sound :
      Capped s.block_assignments
      → let out = plan choose g s in
        Sound s.peer_registry s.block_assignments
          (wanted_blocks s.pieces s.peer_registry)
          out.1.block_assignments
          out.0
  unfolding plan Sound started
  plan-Sound v = elim (Bool-cases (download s.status)) [
    | inr e ↦ rw e (v, λ b a k. k, tt)
    | inl e ↦ elim (Bool-cases (budget s.peer_registry s.block_assignments == 0)) [
      | inl f ↦ rw (e, f) (v, λ b a k. k, tt)
      | inr f ↦
          rw (e, f)
            (run-P choose s.peer_registry
              (Sound s.peer_registry s.block_assignments (wanted_blocks s.pieces s.peer_registry))
              (wanted_blocks s.pieces s.peer_registry) picks
              (keep-Sound s.peer_registry s.block_assignments
                (wanted_blocks s.pieces s.peer_registry))
              (budget s.peer_registry s.block_assignments + 1)
              (started s.block_assignments (budget s.peer_registry s.block_assignments) g)
              (v, λ b a k. k, tt))
    ]
  ]

  -- Where no peer has more than 32 requests in flight, none has after a plan, the random choice
  -- picking a member of its list.
  pub plan-Capped : Capped s.block_assignments → Capped (plan choose g s).1.block_assignments
  unfolding Sound
  plan-Capped v = (plan-Sound v).0

  -- A plan takes no request back: where no peer has more than 32 requests in flight, what is in
  -- flight before it is in flight after it.
  pub is_holder-plan :
      (b : BlockRange) (a : SocketAddr)
      → Capped s.block_assignments
      → is_holder b a s.block_assignments ≡ true
      → is_holder b a (plan choose g s).1.block_assignments ≡ true
  unfolding Sound
  is_holder-plan b a v = (plan-Sound v).1 b a

  -- Where no peer has more than 32 requests in flight, all that a plan sends is interest to a known
  -- peer, or the request of a block that is still missing to a peer that has its piece, serves it,
  -- and was not asked for the block before the plan.
  pub plan-Asks :
      Capped s.block_assignments
      → All
          (Asks s.peer_registry s.block_assignments (wanted_blocks s.pieces s.peer_registry))
          (plan choose g s).0
  unfolding Sound
  plan-Asks v = (plan-Sound v).2

  -- The fuel of `plan`, one round more than the budget, is enough: its loop ends by its own
  -- condition, at budget 0 or after a round without progress.
  pub plan_ends :
      let left = budget s.peer_registry s.block_assignments in
      goes_on choose s.peer_registry (
        run choose s.peer_registry
          (left + 1)
          (wanted_blocks s.pieces s.peer_registry)
          (started s.block_assignments left g))
      ≡ false
  unfolding started
  plan_ends =
      run_ends choose s.peer_registry (budget s.peer_registry s.block_assignments + 1)
        (wanted_blocks s.pieces s.peer_registry)
        (started s.block_assignments (budget s.peer_registry s.block_assignments) g) (omega arith)
