-- ===== src/Swarm/Plan.antt =====
-- domain/swarm.rs, `Swarm::plan`: which blocks to request from whom. The random generator is the rand
-- crate's: a state and a choice from a list.
use tortue.Prelude.{
  ℕ, zero, suc, ◌+◌, ◌-◌, List, [], ◌∷◌, ◌++◌, Bool, true, false, not, ◌&&◌, Option, none, some,
  ltb, leb, ◌==◌, if◌then◌else◌, length,
}
use tortue.Prelude.Dict.{get}
use tortue.Net.{SocketAddr, BlockRange, addr_eq, range_eq}
use tortue.Message.Types.{request}
use tortue.Swarm.State.{Swarm, Output, send_to_peer, download}
use tortue.Swarm.Registry.{
  PeerRegistry, declare_interest, peers_with, can_serve, is_suggested, rarity, unchoked,
}
use tortue.Swarm.Assignments.{
  BlockAssignments, assign, is_holder, free_slots_for, holder_counts, count_up,
}
use tortue.Swarm.Manager.{PieceManager, needed_pieces, unreceived_blocks, piece_is_partial}

abbrev pub option_or_zero : Option ℕ → ℕ
option_or_zero none = 0
option_or_zero (some n) = n

abbrev free_slots : List SocketAddr → BlockAssignments → ℕ
free_slots [] m = 0
free_slots (a ∷ others) m = free_slots_for a m + free_slots others m

unfoldable pub budget : PeerRegistry → BlockAssignments → ℕ
budget r m = free_slots (unchoked r) m

-- The sort's key, `false` before `true`.
abbrev Key : Type 0
Key = Bool × Bool × ℕ

abbrev bool_lt : Bool → Bool → Bool
bool_lt false true = true
bool_lt _ _ = false

abbrev key_le : Key → Key → Bool
key_le (a, b, c) (d, e, f) =
    if bool_lt a d
    then true
    else if bool_lt d a
    then false
    else if bool_lt b e
    then true
    else if bool_lt e b
    then false
    else leb c f

unfoldable pub key : PieceManager → PeerRegistry → ℕ → Key
key pieces r i = (not (piece_is_partial pieces i), not (is_suggested i r), rarity i r)

-- A stable sort: an element stays before those of its key.
unfoldable pub insert_by : (ℕ → Key) → ℕ → List ℕ → List ℕ
insert_by f i [] = i ∷ []
insert_by f i (j ∷ js) =
    let rest = insert_by f i js in if key_le (f i) (f j) then i ∷ j ∷ js else j ∷ rest

unfoldable pub sort_by : (ℕ → Key) → List ℕ → List ℕ
sort_by f [] = []
sort_by f (i ∷ is) = insert_by f i (sort_by f is)

abbrev pub flat_blocks : PieceManager → List ℕ → List BlockRange
flat_blocks m [] = []
flat_blocks m (i ∷ is) = unreceived_blocks m i ++ flat_blocks m is

unfoldable pub wanted_blocks : PieceManager → PeerRegistry → List BlockRange
wanted_blocks pieces r = flat_blocks pieces (sort_by (key pieces r) (needed_pieces pieces))

-- The `filter` of `pick_peer`.
unfoldable pub eligible : PeerRegistry → BlockAssignments → BlockRange → SocketAddr → Bool
eligible r m range a =
    can_serve a range.piece_index r && ltb 0 (free_slots_for a m) && not (is_holder range a m)

abbrev pub filter_eligible :
    PeerRegistry → BlockAssignments → BlockRange → List SocketAddr → List SocketAddr
filter_eligible r m range [] = []
filter_eligible r m range (a ∷ others) =
    let rest = filter_eligible r m range others in if eligible r m range a then a ∷ rest else rest

unfoldable pub candidates : PeerRegistry → BlockAssignments → BlockRange → List SocketAddr
candidates r m range = filter_eligible r m range (peers_with range.piece_index r)

abbrev pub interest : SocketAddr → PeerRegistry → List Output
interest a r = elim (declare_interest a r) [ none ↦ [] | some m ↦ send_to_peer a m ∷ [] ]

-- The variables of the loop: the registry does not change in it.
pub record Planning (R : Type 0) : Type 0 where
  pub left : ℕ
  pub progressed : Bool
  pub holders : List (BlockRange × ℕ)
  pub assignments : BlockAssignments
  pub outputs : List Output
  pub rng : R

module _ {R : Type 0} (choose : List SocketAddr → R → Option SocketAddr × R)
    (r : PeerRegistry) where
  -- `send_request`, and the accounts of the loop.
  unfoldable pub take_request : BlockRange → SocketAddr → Planning R → Planning R
  take_request block a st = record {
    left = st.left - 1;
    progressed = true;
    holders = count_up block st.holders;
    assignments = assign block a st.assignments;
    outputs = st.outputs ++ interest a r ++ send_to_peer a (request block) ∷ [];
    rng = st.rng;
  }

  abbrev pub taken : BlockRange → Option SocketAddr × R → Planning R → Planning R
  taken block (none, rng) st = record st { rng = rng }
  taken block (some a, rng) st = take_request block a (record st { rng = rng })

  -- One round of the innermost loop: at budget 0 the source leaves the loops, and no round after it
  -- would change anything.
  unfoldable pub visit : ℕ → BlockRange → Planning R → Planning R
  visit replication block st =
      if st.left == 0
      then st
      else if not (option_or_zero (get block st.holders) == replication)
      then st
      else taken block (choose (candidates r st.assignments block) st.rng) st

  unfoldable pub sweep_blocks : ℕ → List BlockRange → Planning R → Planning R
  sweep_blocks replication [] st = st
  sweep_blocks replication (b ∷ blocks) st =
      sweep_blocks replication blocks (visit replication b st)

  -- `for replication in 0..=max_depth`, with the rounds that are left.
  unfoldable pub sweep_depths : ℕ → ℕ → List BlockRange → Planning R → Planning R
  sweep_depths zero replication blocks st = st
  sweep_depths (suc rounds) replication blocks st =
      sweep_depths rounds (replication + 1) blocks (sweep_blocks replication blocks st)

  unfoldable pub sweep : List BlockRange → Planning R → Planning R
  sweep blocks st =
      sweep_depths (length (unchoked r) + 1) 0 blocks (record st { progressed = false })

  abbrev pub goes_on : Planning R → Bool
  goes_on st = ltb 0 st.left && st.progressed

  -- The `while` loop, on fuel.
  unfoldable pub run : ℕ → List BlockRange → Planning R → Planning R
  run zero blocks st = st
  run (suc fuel) blocks st =
      let rest = run fuel blocks (sweep blocks st) in if goes_on st then rest else st

unfoldable pub started : {R : Type 0} → BlockAssignments → ℕ → R → Planning R
started m left rng = record {
  left = left;
  progressed = true;
  holders = holder_counts m;
  assignments = m;
  outputs = [];
  rng = rng;
}

-- Each round of the `while` loop but the last makes progress, which the budget pays for.
unfoldable pub plan :
    {R : Type 0} → (List SocketAddr → R → Option SocketAddr × R) → R → Swarm → List Output × Swarm
plan choose rng s =
    let left = budget s.peer_registry s.block_assignments in
    let ended =
      run choose s.peer_registry (left + 1) (wanted_blocks s.pieces s.peer_registry)
        (started s.block_assignments left rng) in
    if not (download s.status)
    then ([], s)
    else if left == 0
    then ([], s)
    else (ended.outputs, record s { block_assignments = ended.assignments })
