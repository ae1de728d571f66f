-- ===== src/Swarm/StepTests.antt =====
-- The swarm with one peer, which has the one piece and has unchoked us.
use tortue.Prelude.{
  ◌+◌, List, [], ◌∷◌, true, false, Option, none, some, ok, done, nat_eq, All, codes, ◌≡◌, refl,
  arith, if◌then◌else◌, ◌||◌, ◌&&◌, ◌⊎◌,
}
use tortue.Prelude.Dict.{contains}
use tortue.Net.{SocketAddr, v4, addr_eq, range_eq, range_beq, addr_beq, addr_beq_iff}
use tortue.Peer.{inbound, outbound}
use tortue.Bitfield.Laws.{bit_at}
use tortue.Message.Types.{piece, have_all, bitfield, needs_fast}
use tortue.Torrent.{Metainfo, single}
use tortue.Swarm.Availability
use tortue.Swarm.Availability.{PieceAvailability, has}
use tortue.Swarm.AvailabilityLaws.{Distinct}
use tortue.Swarm.Registry
use tortue.Swarm.Registry.{PeerRegistry, PeerState, apply, apply_to_availability}
use tortue.Swarm.RegistryLaws.{has-bitfield, apply_to_availability-other}
use tortue.Swarm.RegistryInvariant
use tortue.Swarm.RegistryInvariant.{apply-IsValid}
use tortue.Swarm.Assignments.{BlockAssignments, assign, unassign, is_holder}
use tortue.Swarm.AssignmentsLaws.{Capped, is_holder-assign, is_holder-unassign}
use tortue.Swarm.State
use tortue.Swarm.State.{Swarm, Output, begun, message_received}
use tortue.Swarm.Plan.{plan, budget, run, started, wanted_blocks, goes_on}
use tortue.Swarm.PlanRequests.{Asks, plan-Asks, plan-Capped, is_holder-plan, plan_ends}
use tortue.Swarm.Uploads.{pending}
use tortue.Swarm.Invariant
use tortue.Swarm.Step.{step, on_message_piece}
use tortue.Swarm.StepInvariant.{Fine, step-IsValid}
use tortue.Swarm.Connections.{prefered_direction}
use tortue.Swarm.Safety.{
  Verified, on_message_piece-Verified, new_swarm-IsValid, prefered_direction-opposite,
}
use tortue.Swarm.Tests.{hash, manager, manager-IsValid, range}

abbrev peer : SocketAddr
peer = v4 (10 ∷ 0 ∷ 0 ∷ 1 ∷ []) 6881

abbrev other_peer : SocketAddr
other_peer = v4 (10 ∷ 0 ∷ 0 ∷ 2 ∷ []) 6881

abbrev torrent : Metainfo
torrent = record {
  name = codes "x";
  announce = [];
  comment = none;
  created_by = none;
  created_at = none;
  url_list = none;
  info_bytes = codes "de";
  info_hash = [];
  piece_length = 16;
  pieces = (3 ∷ []) ∷ [];
  mode = single 3;
}

abbrev state : PeerState
state = record {
  id = 2 ∷ [];
  peer_choking = false;
  peer_interested = false;
  allowed = [];
  suggested = [];
  fast = true;
  extensions = none;
  bytes_uploaded = 0;
  bytes_downloaded = 0;
}

abbrev registry : PeerRegistry
registry = record {
  peers = (peer, state) ∷ [];
  by_id = (2 ∷ [], (peer, outbound)) ∷ [];
  availability = record { by_piece = (0, peer ∷ []) ∷ []; total_pieces = 1 };
  seeders = peer ∷ [];
  leechers = [];
}

-- Before its `HaveAll`.
abbrev registry_before : PeerRegistry
registry_before = record {
  peers = (peer, state) ∷ [];
  by_id = (2 ∷ [], (peer, outbound)) ∷ [];
  availability = record { by_piece = []; total_pieces = 1 };
  seeders = [];
  leechers = [];
}

registry_before-IsValid : RegistryInvariant.IsValid registry_before
unfolding Distinct
registry_before-IsValid = record {
  distinct = tt;
  seeders_have = λ a h. absurd (ground arith);
  leechers_lack = λ a h. absurd (ground arith);
}

applied : apply peer have_all registry_before ≡ ok registry
unfolding apply needs_fast Registry.apply_to_peer apply_to_availability Registry.classify
    Availability.is_seeder Availability.has Availability.record_all Availability.has_from
    Availability.record_from Availability.record_piece
applied = refl

registry-IsValid : RegistryInvariant.IsValid registry
registry-IsValid =
    apply-IsValid peer have_all registry_before registry registry_before-IsValid applied

apply-IsValid_case : RegistryInvariant.IsValid registry
apply-IsValid_case =
    apply-IsValid peer have_all registry_before registry registry_before-IsValid applied

available-Distinct : Distinct registry.availability.by_piece
unfolding Distinct
available-Distinct = (refl, tt)

has-bitfield_case :
    has 9 peer (apply_to_availability peer (bitfield (0 ∷ 64 ∷ [])) registry.availability)
    ≡ bit_at (0 ∷ 64 ∷ []) 9
has-bitfield_case =
    has-bitfield peer (0 ∷ 64 ∷ []) 9 registry.availability available-Distinct
      (omega arith, (omega arith, tt))

apply_to_availability-other_case :
    has 0 peer (apply_to_availability other_peer (bitfield (0 ∷ [])) registry.availability)
    ≡ has 0 peer registry.availability
apply_to_availability-other_case =
    apply_to_availability-other other_peer peer (bitfield (0 ∷ [])) 0 registry.availability
      available-Distinct refl

abbrev in_flight : BlockAssignments
in_flight = (peer, range ∷ []) ∷ []

is_holder-assign_case : is_holder range other_peer (assign range other_peer in_flight) ≡ (
    range_beq range range && addr_beq other_peer other_peer || is_holder range other_peer in_flight)
is_holder-assign_case = is_holder-assign range range other_peer other_peer in_flight

peer_unassigned : is_holder range peer (unassign range peer in_flight) ≡ (
    if range_beq range range && addr_beq peer peer then false else is_holder range peer in_flight)
peer_unassigned = is_holder-unassign range range peer peer in_flight

-- The first of the list, with no randomness.
abbrev first : List SocketAddr → Unit {0} → Option SocketAddr × Unit {0}
first [] g = (none, g)
first (a ∷ s) g = (some a, g)

first-picks :
    (c : List SocketAddr) (g : Unit {0}) (a : SocketAddr)
    → (first c g).0 ≡ some a
    → contains a c ≡ true
first-picks [] g a h = cc
first-picks (b ∷ s) g a h = ground (arith, h, addr_beq_iff b a)

-- The swarm, with `m` in flight.
abbrev with_requests : BlockAssignments → Swarm
with_requests m = record (begun (1 ∷ []) torrent manager) {
  peer_registry = registry;
  block_assignments = m;
}

none-Capped : Capped []
unfolding Capped
none-Capped a = omega arith

one-Capped : Capped in_flight
unfolding Capped
one-Capped a = ground arith

with_requests-IsValid : (m : BlockAssignments) → Capped m → Invariant.IsValid (with_requests m)
unfolding pending
with_requests-IsValid m c = record {
  pieces = manager-IsValid;
  registry = registry-IsValid;
  capped = c;
  uploads = record { few = omega arith; live = tt };
}

plan-Asks_example :
    All (Asks registry [] (wanted_blocks manager registry)) (plan first tt (with_requests [])).0
plan-Asks_example = plan-Asks first first-picks tt (with_requests []) none-Capped

plan-Capped_example : Capped (plan first tt (with_requests [])).1.block_assignments
plan-Capped_example = plan-Capped first first-picks tt (with_requests []) none-Capped

held_before : is_holder range peer in_flight ≡ true
unfolding is_holder
held_before = refl

is_holder-plan_case :
    is_holder range peer (plan first tt (with_requests in_flight)).1.block_assignments ≡ true
is_holder-plan_case =
    is_holder-plan first first-picks tt (with_requests in_flight) range peer one-Capped held_before

plan_ends_example :
    goes_on first registry (
      run first registry
        (budget registry [] + 1)
        (wanted_blocks manager registry)
        (started [] (budget registry []) tt))
    ≡ false
plan_ends_example = plan_ends first first-picks tt (with_requests [])

-- The block that was asked for comes.
step-IsValid_example : Fine (
    step hash first tt
      (message_received peer (piece range (7 ∷ 8 ∷ 9 ∷ [])))
      (with_requests in_flight))
step-IsValid_example =
    step-IsValid hash first first-picks tt (message_received peer (piece range (7 ∷ 8 ∷ 9 ∷ [])))
      (with_requests in_flight) (with_requests-IsValid in_flight one-Capped) (omega arith)

on_message_piece-Verified_example :
    (x : List Output × Swarm) × (on_message_piece hash peer range
        (7 ∷ 8 ∷ 9 ∷ [])
        (with_requests in_flight)
      ≡ done x)
    × All (Verified hash manager) x.0
on_message_piece-Verified_example =
    on_message_piece-Verified hash peer range (7 ∷ 8 ∷ 9 ∷ []) (with_requests in_flight)
      (with_requests-IsValid in_flight one-Capped)

new_swarm-IsValid_example :
    (s : Swarm) × (State.new (1 ∷ []) torrent ≡ done s) × Invariant.IsValid s
new_swarm-IsValid_example = new_swarm-IsValid (1 ∷ []) torrent (3 ∷ []) [] refl (omega arith)

prefered_direction-opposite_case :
    (prefered_direction (2 ∷ []) (begun (1 ∷ []) torrent manager) ≡ outbound
      × prefered_direction (1 ∷ []) (begun (2 ∷ []) torrent manager) ≡ inbound)
    ⊎ (prefered_direction (2 ∷ []) (begun (1 ∷ []) torrent manager) ≡ inbound
        × prefered_direction (1 ∷ []) (begun (2 ∷ []) torrent manager) ≡ outbound)
prefered_direction-opposite_case =
    prefered_direction-opposite (begun (1 ∷ []) torrent manager) (begun (2 ∷ []) torrent manager)
      refl (λ e. ground (arith, e))
