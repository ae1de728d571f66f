-- ===== src/Swarm/PlanLaws.antt =====
-- `plan` ends, keeps the cap of every peer, and requests a block only from a peer that has it, serves
-- it and was not asked for it before.
use tortue.Prelude.{
  ℕ, zero, suc, ◌+◌, ◌<◌, ◌≤◌, List, [], ◌∷◌, ◌++◌, true, false, Option, none, some, ◌==◌, length,
  ◌≡◌, refl, arith, Bool-cases, ◌⊎◌, inl, inr, ap, ◌∙◌,
}
use tortue.Prelude.Dict.{get, contains}
use tortue.Net.{SocketAddr, BlockRange, addr_eq, range_eq, range_beq_iff}
use tortue.Message.Types.{request}
use tortue.Swarm.State.{Output, send_to_peer}
use tortue.Swarm.Registry.{PeerRegistry, unchoked}
use tortue.Swarm.Assignments.{BlockAssignments, assign}
use tortue.Swarm.Plan.{
  Planning, candidates, interest, take_request, taken, visit, sweep_blocks, sweep_depths, sweep,
  goes_on, run, option_or_zero,
}

module _ {R : Type 0} (choose : List SocketAddr → R → Option SocketAddr × R)
    (r : PeerRegistry) where
  -- The budget does not grow, and progress is paid for.
  unfoldable Pays : Planning R → Planning R → Type 0
  Pays st u =
      (u.left ≤ st.left) × (u.progressed ≡ true → (st.progressed ≡ true) ⊎ (u.left < st.left))

  taken-Pays :
      (b : BlockRange) (x : Option SocketAddr × R) (st : Planning R)
      → 0 < st.left
      → Pays st (taken choose r b x st)
  unfolding Pays take_request
  taken-Pays b (none, rng) st h = (omega arith, λ p. inl p)
  taken-Pays b (some a, rng) st h = (omega arith, λ p. inr (omega (arith, h)))

  visit-Pays : (n : ℕ) (b : BlockRange) (st : Planning R) → Pays st (visit choose r n b st)
  unfolding visit Pays
  visit-Pays n b st = elim (Bool-cases (st.left == 0)) [
    | inl e ↦ rw e (omega arith, λ p. inl p)
    | inr e ↦ elim (Bool-cases (option_or_zero (get b st.holders) == n)) [
      | inr f ↦ rw (e, f) (omega arith, λ p. inl p)
      | inl f ↦
          rw (e, f)
            (taken-Pays b (choose (candidates r st.assignments b) st.rng) st (ground (arith, e)))
    ]
  ]

  Pays-trans : (s t u : Planning R) → Pays s t → Pays t u → Pays s u
  unfolding Pays
  Pays-trans s t u (a, p) (b, q) = (
    omega (arith, a, b),
    λ h. elim (q h) [
      | inl k ↦ elim (p k) [ inl g ↦ inl g | inr l ↦ inr (omega (arith, b, l)) ]
      | inr l ↦ inr (omega (arith, a, l))
    ],
  )

  sweep_blocks-Pays :
      (n : ℕ) (blocks : List BlockRange) (st : Planning R)
      → Pays st (sweep_blocks choose r n blocks st)
  unfolding sweep_blocks Pays
  sweep_blocks-Pays n [] st = (omega arith, λ p. inl p)
  sweep_blocks-Pays n (b ∷ blocks) st =
      Pays-trans st (visit choose r n b st) (sweep_blocks choose r n blocks (visit choose r n b st))
        (visit-Pays n b st) (sweep_blocks-Pays n blocks (visit choose r n b st))

  sweep_depths-Pays :
      (rounds n : ℕ) (blocks : List BlockRange) (st : Planning R)
      → Pays st (sweep_depths choose r rounds n blocks st)
  unfolding sweep_depths Pays
  sweep_depths-Pays zero n blocks st = (omega arith, λ p. inl p)
  sweep_depths-Pays (suc rounds) n blocks st =
      Pays-trans st (sweep_blocks choose r n blocks st)
        (sweep_depths choose r rounds (n + 1) blocks (sweep_blocks choose r n blocks st))
        (sweep_blocks-Pays n blocks st)
        (sweep_depths-Pays rounds (n + 1) blocks (sweep_blocks choose r n blocks st))

  sweep_lem :
      (blocks : List BlockRange) (st : Planning R)
      → (sweep choose r blocks st).progressed ≡ true
      → (sweep choose r blocks st).left < st.left
  unfolding sweep Pays
  sweep_lem blocks st h =
      let begun : Planning R = record st { progressed = false } in
      elim ((sweep_depths-Pays (length (unchoked r) + 1) 0 blocks begun).1 h) [
        | inl e ↦ absurd (ground (arith, e))
        | inr l ↦ l
      ]

  run_stops :
      (fuel : ℕ) (blocks : List BlockRange) (st : Planning R)
      → goes_on choose r st ≡ false
      → run choose r fuel blocks st ≡ st
  unfolding run
  run_stops zero blocks st h = refl
  run_stops (suc fuel) blocks st h = rw h refl

  -- With fuel past the budget, the loop ends by its own condition.
  pub run_ends :
      (fuel : ℕ) (blocks : List BlockRange) (st : Planning R)
      → st.left < fuel
      → goes_on choose r (run choose r fuel blocks st) ≡ false
  unfolding run
  run_ends zero blocks st h = elim h [ ]
  run_ends (suc fuel) blocks st h = elim (Bool-cases (goes_on choose r st)) [
    | inr e ↦ rw e e
    | inl e ↦ rw e (elim (Bool-cases (sweep choose r blocks st).progressed) [
      | inl p ↦
          run_ends fuel blocks (sweep choose r blocks st) (omega (arith, h, sweep_lem blocks st p))
      | inr p ↦
          let stopped : goes_on choose r (sweep choose r blocks st) ≡ false = ground (arith, p) in
          ap (goes_on choose r) (run_stops fuel blocks (sweep choose r blocks st) stopped) ∙ stopped
    ])
  ]

  -- A property of the loop's state that each request keeps, and that does not read the loop's flags,
  -- holds at its end.
  module _ (P : BlockAssignments → List Output → Type 0) (blocks : List BlockRange)
      (picks : (c : List SocketAddr) (g : R) (a : SocketAddr)
        → (choose c g).0 ≡ some a
        → contains a c ≡ true)
      (keep : (m : BlockAssignments) (out : List Output) (b : BlockRange) (a : SocketAddr)
        → contains b blocks ≡ true
        → contains a (candidates r m b) ≡ true
        → P m out
        → P (assign b a m) (out ++ interest a r ++ send_to_peer a (request b) ∷ [])) where
    taken-P :
        (b : BlockRange) (x : Option SocketAddr × R) (st : Planning R)
        → contains b blocks ≡ true
        → ((a : SocketAddr) → x.0 ≡ some a → contains a (candidates r st.assignments b) ≡ true)
        → P st.assignments st.outputs
        → P (taken choose r b x st).assignments (taken choose r b x st).outputs
    unfolding take_request
    taken-P b (none, rng) st h c p = p
    taken-P b (some a, rng) st h c p = keep st.assignments st.outputs b a h (c a refl) p

    visit-P :
        (n : ℕ) (b : BlockRange) (st : Planning R)
        → contains b blocks ≡ true
        → P st.assignments st.outputs
        → P (visit choose r n b st).assignments (visit choose r n b st).outputs
    unfolding visit
    visit-P n b st h p = elim (Bool-cases (st.left == 0)) [
      | inl e ↦ rw e p
      | inr e ↦ elim (Bool-cases (option_or_zero (get b st.holders) == n)) [
        | inr f ↦ rw (e, f) p
        | inl f ↦
            rw (e, f)
              (taken-P b (choose (candidates r st.assignments b) st.rng) st h
                (picks (candidates r st.assignments b) st.rng) p)
      ]
    ]

    sweep_blocks-P :
        (n : ℕ) (bs : List BlockRange) (st : Planning R)
        → ((b : BlockRange) → contains b bs ≡ true → contains b blocks ≡ true)
        → P st.assignments st.outputs
        → P (sweep_blocks choose r n bs st).assignments (sweep_blocks choose r n bs st).outputs
    unfolding sweep_blocks
    sweep_blocks-P n [] st h p = p
    sweep_blocks-P n (b ∷ bs) st h p =
        sweep_blocks-P n bs (visit choose r n b st) (λ c k. h c (ground (arith, k)))
          (visit-P n b st (h b (ground (arith, range_beq_iff b b))) p)

    sweep_depths-P :
        (rounds n : ℕ) (st : Planning R)
        → P st.assignments st.outputs
        → P
            (sweep_depths choose r rounds n blocks st).assignments
            (sweep_depths choose r rounds n blocks st).outputs
    unfolding sweep_depths
    sweep_depths-P zero n st p = p
    sweep_depths-P (suc rounds) n st p =
        sweep_depths-P rounds (n + 1) (sweep_blocks choose r n blocks st)
          (sweep_blocks-P n blocks st (λ c k. k) p)

    pub run-P :
        (fuel : ℕ) (st : Planning R)
        → P st.assignments st.outputs
        → P (run choose r fuel blocks st).assignments (run choose r fuel blocks st).outputs
    unfolding run sweep
    run-P zero st p = p
    run-P (suc fuel) st p = elim (Bool-cases (goes_on choose r st)) [
      | inr e ↦ rw e p
      | inl e ↦ rw e (
          run-P fuel (sweep choose r blocks st)
            (sweep_depths-P (length (unchoked r) + 1) 0 (record st { progressed = false }) p))
    ]
