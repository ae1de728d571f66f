-- ===== src/Swarm/StepInvariant.antt =====
-- A step of the swarm neither panics nor breaks what holds of it.
use tortue.Prelude.{
  slice, ℕ, ◌+◌, ◌<◌, ◌^◌, List, [], ◌∷◌, true, Option, some, done, ◌==◌, ◌≡◌, refl, arith,
  Bool-cases, Option-cases, inl, inr, Bytes, Result, ok, err, subst, sym,
}
use tortue.Prelude.Dict.{contains}
use tortue.Net.{SocketAddr, BlockRange, addr_eq, range_eq}
use tortue.Message.Types.{
  Message, keep_alive, choke, unchoke, interested, not_interested, have, bitfield, request, piece,
  cancel, extension_handshake, extension, suggest_piece, have_all, have_none, reject_request,
  allowed_fast, unimplemented, affects_scheduling,
}
use tortue.Swarm.State.{
  Swarm, Input, Output, peers_discovered, peer_connected, peer_disconnected, message_received,
  local_piece, upload_read_completed, set_status, tick, block_tick, pex_tick, disconnect_peer,
  download,
}
use tortue.Swarm.Piece.{Error}
use tortue.Swarm.Manager.{PieceManager, CompletedPiece, unreceived_blocks}
use tortue.Swarm.ManagerLaws
use tortue.Swarm.ManagerReceive.{receive_block-Step}
use tortue.Swarm.Registry.{PeerRegistry, RejectReason, unknown_peer, protocol_violation, apply}
use tortue.Swarm.RegistryInvariant
use tortue.Swarm.RegistryInvariant.{apply-IsValid, connected-IsValid, disconnected-IsValid}
use tortue.Swarm.Assignments.{unassign, is_holder}
use tortue.Swarm.AssignmentsLaws.{unassign-Capped, release_peer-Capped}
use tortue.Swarm.Plan.{plan, budget}
use tortue.Swarm.PlanRequests.{plan-Capped}
use tortue.Swarm.Invariant.{
  IsValid, on_message_request-IsValid, on_upload_read_completed-IsValid, on_set_status-IsValid,
  cancel_upload-IsValid,
}
use tortue.Swarm.ConnectionsLaws.{on_connected-IsValid, on_disconnected-IsValid}
use tortue.Swarm.Step.{
  Outcome, receive_blocks, on_local_piece, received_piece, on_message_piece, handle, replan,
  on_message, step,
}

with_pieces :
    (s : Swarm) (m : PieceManager)
    → IsValid s
    → ManagerLaws.IsValid m
    → IsValid (record s { pieces = m })
with_pieces s m v w = record {
  pieces = w;
  registry = v.registry;
  capped = v.capped;
  uploads = v.uploads;
}

-- An outcome that is no panic, and leaves a valid swarm.
abbrev pub Fine : Outcome → Type 0
Fine o = (x : List Output × Swarm) × (o ≡ done x) × IsValid x.1

module _ (sha1 : Bytes → Bytes) where
  receive_blocks-IsValid :
      (ranges : List BlockRange) (d : Bytes) (m : PieceManager)
      → ManagerLaws.IsValid m
      → (n : PieceManager) × (receive_blocks sha1 ranges d m ≡ done n) × ManagerLaws.IsValid n
  unfolding receive_blocks ManagerLaws.Step
  receive_blocks-IsValid [] d m v = (m, refl, v)
  receive_blocks-IsValid (range ∷ ranges) d m v =
      elim (Option-cases (slice range.piece_offset range.len d)) [
        | inl g ↦ (m, ground (arith, g), v)
        | inr (block, g) ↦
            let (res, n, e, w) = receive_block-Step sha1 m range block v in
            let (k, f, u) = receive_blocks-IsValid ranges d n w.0 in (k, ground (arith, g, e, f), u)
      ]

  on_local_piece-Fine :
      (i : ℕ) (d : Bytes) (s : Swarm) → IsValid s → Fine (on_local_piece sha1 i d s)
  unfolding on_local_piece
  on_local_piece-Fine i d s v =
      let (n, e, w) = receive_blocks-IsValid (unreceived_blocks s.pieces i) d s.pieces v.pieces in
      (([], record s { pieces = n }), rw e refl, with_pieces s n v w)

  received_piece-IsValid :
      (d : Bytes) (s : Swarm) (res : Result Error (Option CompletedPiece)) (m : PieceManager)
      → IsValid s
      → ManagerLaws.IsValid m
      → IsValid (received_piece sha1 d s (res, m)).1
  unfolding received_piece
  received_piece-IsValid d s (err e) m v w = with_pieces s m v w
  received_piece-IsValid d s (ok c) m v w = record {
    pieces = w;
    registry = v.registry;
    capped = v.capped;
    uploads = v.uploads;
  }

  on_message_piece-Fine :
      (a : SocketAddr) (range : BlockRange) (d : Bytes) (s : Swarm)
      → IsValid s
      → Fine (on_message_piece sha1 a range d s)
  unfolding on_message_piece ManagerLaws.Step
  on_message_piece-Fine a range d s v = elim (Bool-cases (is_holder range a s.block_assignments)) [
    | inr e ↦ (([], s), rw e refl, v)
    | inl e ↦
        let t : Swarm = record s { block_assignments = unassign range a s.block_assignments } in
        let w : IsValid t = record {
          pieces = v.pieces;
          registry = v.registry;
          capped = unassign-Capped range a s.block_assignments v.capped;
          uploads = v.uploads;
        } in
        let (res, n, f, u) = receive_block-Step sha1 s.pieces range d v.pieces in
        (received_piece sha1 d t (res, n), rw (e, f) refl, received_piece-IsValid d t res n w u.0)
  ]

  handle-Fine :
      (a : SocketAddr) (msg : Message) (s : Swarm)
      → IsValid s
      → s.next_upload_read_id + 1 < 2 ^ 64
      → Fine (handle sha1 a msg s)
  unfolding handle
  handle-Fine a (bitfield bits) s v h = (_, refl, v)
  handle-Fine a (have i) s v h = (_, refl, v)
  handle-Fine a have_all s v h = (_, refl, v)
  handle-Fine a (suggest_piece i) s v h = (_, refl, v)
  handle-Fine a (allowed_fast i) s v h = (_, refl, v)
  handle-Fine a choke s v h = (
    _,
    refl,
    record {
      pieces = v.pieces;
      registry = v.registry;
      capped = release_peer-Capped a s.block_assignments v.capped;
      uploads = v.uploads;
    },
  )
  handle-Fine a (piece range d) s v h = on_message_piece-Fine a range d s v
  handle-Fine a interested s v h = (_, refl, v)
  handle-Fine a (request range) s v h = on_message_request-IsValid a range s v h
  handle-Fine a (extension e p) s v h = (_, refl, v)
  handle-Fine a (reject_request range) s v h = (
    _,
    refl,
    record {
      pieces = v.pieces;
      registry = v.registry;
      capped = unassign-Capped range a s.block_assignments v.capped;
      uploads = v.uploads;
    },
  )
  handle-Fine a (cancel range) s v h = (_, refl, cancel_upload-IsValid a range s v)
  handle-Fine a have_none s v h = (_, refl, v)
  handle-Fine a unchoke s v h = (_, refl, v)
  handle-Fine a not_interested s v h = (_, refl, v)
  handle-Fine a keep_alive s v h = (_, refl, v)
  handle-Fine a unimplemented s v h = (_, refl, v)
  handle-Fine a (extension_handshake hs) s v h = (_, refl, v)

  module _ {R : Type 0} (choose : List SocketAddr → R → Option SocketAddr × R)
      (picks : (c : List SocketAddr) (g : R) (a : SocketAddr)
        → (choose c g).0 ≡ some a
        → contains a c ≡ true)
      (g : R) where
    plan-pieces :
        (s : Swarm)
        → let t = (plan choose g s).1 in
          (t.pieces ≡ s.pieces)
          × (t.peer_registry ≡ s.peer_registry)
          × (t.pending_reads ≡ s.pending_reads)
          × (t.next_upload_read_id ≡ s.next_upload_read_id)
    unfolding plan
    plan-pieces s = elim (Bool-cases (download s.status)) [
      | inr e ↦ rw e (refl, refl, refl, refl)
      | inl e ↦ elim (Bool-cases (budget s.peer_registry s.block_assignments == 0)) [
        | inl f ↦ rw (e, f) (refl, refl, refl, refl)
        | inr f ↦ rw (e, f) (refl, refl, refl, refl)
      ]
    ]

    plan-IsValid : (s : Swarm) → IsValid s → IsValid (plan choose g s).1
    plan-IsValid s v =
        let (p, r, m, n) = plan-pieces s in
        record {
          pieces = subst ManagerLaws.IsValid (sym p) v.pieces;
          registry = subst RegistryInvariant.IsValid (sym r) v.registry;
          capped = plan-Capped choose picks g s v.capped;
          uploads = rw (m, n) v.uploads;
        }

    replan-IsValid :
        (msg : Message) (x : List Output × Swarm)
        → IsValid x.1
        → IsValid (replan sha1 choose msg g x).1
    replan-IsValid msg (out, s) v = elim (Bool-cases (affects_scheduling msg)) [
      | inl e ↦ rw e (plan-IsValid s v)
      | inr e ↦ rw e v
    ]

    on_message-Fine :
        (a : SocketAddr) (msg : Message) (s : Swarm)
        → IsValid s
        → s.next_upload_read_id + 1 < 2 ^ 64
        → (r : Result RejectReason PeerRegistry) → apply a msg s.peer_registry ≡ r
        → Fine (on_message sha1 choose g a msg s)
    unfolding on_message
    on_message-Fine a msg s v h (err unknown_peer) e = (([], s), ground (arith, e), v)
    on_message-Fine a msg s v h (err protocol_violation) e =
        ((disconnect_peer a ∷ [], s), ground (arith, e), v)
    on_message-Fine a msg s v h (ok r) e =
        let t : Swarm = record s { peer_registry = r } in
        let w : IsValid t = record {
          pieces = v.pieces;
          registry = apply-IsValid a msg s.peer_registry r v.registry e;
          capped = v.capped;
          uploads = v.uploads;
        } in
        let (x, f, u) = handle-Fine a msg t w h in
        (replan sha1 choose msg g x, rw (e, on_message) (rw f refl), replan-IsValid msg x u)

    -- From a valid swarm whose next read identifier is not the last of 64 bits, with a random
    -- choice that picks members of its list, a step on any input returns without a panic and leaves
    -- a valid swarm: pieces and bitfield agree, seeders and leechers are known peers sorted by what
    -- they have, no peer has more than 32 requests in flight, and at most 32 readers wait, each
    -- read with a reader and an identifier that was handed out.
    pub step-IsValid :
        (input : Input) (s : Swarm)
        → IsValid s
        → s.next_upload_read_id + 1 < 2 ^ 64
        → Fine (step sha1 choose g input s)
    unfolding step
    step-IsValid (peers_discovered addrs) s v h = (_, refl, v)
    step-IsValid (peer_connected id d a e) s v h = (_, refl, on_connected-IsValid a d id e s v)
    step-IsValid (peer_disconnected a) s v h = (_, refl, on_disconnected-IsValid a s v)
    step-IsValid (message_received a msg) s v h =
        on_message-Fine a msg s v h (apply a msg s.peer_registry) refl
    step-IsValid (local_piece i d) s v h = on_local_piece-Fine i d s v
    step-IsValid (upload_read_completed id range d) s v h =
        (_, refl, on_upload_read_completed-IsValid id range d s v)
    step-IsValid (set_status status) s v h = (_, refl, on_set_status-IsValid status s v)
    step-IsValid (tick block_tick) s v h = (_, refl, plan-IsValid s v)
    step-IsValid (tick pex_tick) s v h = (_, refl, v)
