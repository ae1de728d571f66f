-- ===== src/Swarm/Assignments.antt =====
-- domain/swarm/block_assignment.rs: the requests in flight, by peer. The instants at which they were
-- made are written and never read: the table of a peer is the set of its blocks.
use tortue.Prelude.{ℕ, ◌+◌, ◌-◌, List, [], ◌∷◌, Bool, false, Option, none, some, length}
use tortue.Prelude.Dict.{get, insert, remove, contains, add, discard}
use tortue.Net.{SocketAddr, BlockRange, addr_eq, range_eq}

abbrev pub BlockAssignments : Type 0
BlockAssignments = List (SocketAddr × List BlockRange)

abbrev pub max_in_flight_per_peer : ℕ
max_in_flight_per_peer = 32

abbrev pub or_default : Option (List BlockRange) → List BlockRange
or_default none = []
or_default (some blocks) = blocks

unfoldable pub assign : BlockRange → SocketAddr → BlockAssignments → BlockAssignments
assign b addr m = insert addr (add b (or_default (get addr m))) m

unfoldable pub unassign : BlockRange → SocketAddr → BlockAssignments → BlockAssignments
unassign b addr m = elim (get addr m) [ none ↦ m | some blocks ↦ insert addr (discard b blocks) m ]

unfoldable pub is_holder : BlockRange → SocketAddr → BlockAssignments → Bool
is_holder b addr m = elim (get addr m) [ none ↦ false | some blocks ↦ contains b blocks ]

-- `*counts.entry(b).or_insert(0) += 1`
abbrev pub count_up : BlockRange → List (BlockRange × ℕ) → List (BlockRange × ℕ)
count_up b counts = insert b (elim (get b counts) [ none ↦ 1 | some n ↦ n + 1 ]) counts

unfoldable pub count_blocks : List BlockRange → List (BlockRange × ℕ) → List (BlockRange × ℕ)
count_blocks [] counts = counts
count_blocks (b ∷ blocks) counts = count_blocks blocks (count_up b counts)

unfoldable pub count_peers : BlockAssignments → List (BlockRange × ℕ) → List (BlockRange × ℕ)
unfolding count_blocks
count_peers [] counts = counts
count_peers ((addr, blocks) ∷ m) counts = count_peers m (count_blocks blocks counts)

unfoldable pub holder_counts : BlockAssignments → List (BlockRange × ℕ)
unfolding count_peers
holder_counts m = count_peers m []

unfoldable pub release_peer : SocketAddr → BlockAssignments → BlockAssignments
release_peer addr m = remove addr m

-- `map_or(0, …)`, then `saturating_sub`
unfoldable pub free_slots_for : SocketAddr → BlockAssignments → ℕ
free_slots_for addr m =
    max_in_flight_per_peer - elim (get addr m) [ none ↦ 0 | some blocks ↦ length blocks ]

unfoldable pub requests_in_flight : BlockAssignments → ℕ
requests_in_flight [] = 0
requests_in_flight ((addr, blocks) ∷ m) = length blocks + requests_in_flight m
