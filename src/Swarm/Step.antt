-- ===== src/Swarm/Step.antt =====
-- domain/swarm.rs, `Swarm::step`: what the swarm does with an input.
use tortue.Prelude.{
  ℕ, ◌+◌, ◌%◌, ◌^◌, Bytes, List, [], ◌∷◌, ◌++◌, not, Option, none, some, Result, ok, err, Exit,
  done, and_then, if◌then◌else◌, length, bytes_eq, slice,
}
use tortue.Net.{SocketAddr, BlockRange, addr_eq, range_eq}
use tortue.Message.Types.{
  Message, keep_alive, choke, unchoke, interested, not_interested, have, bitfield, request, piece,
  cancel, extension_handshake, extension, suggest_piece, have_all, have_none, reject_request,
  allowed_fast, unimplemented, affects_scheduling,
}
use tortue.Swarm.State.{
  Swarm, Input, Output, peers_discovered, peer_connected, peer_disconnected, message_received,
  local_piece, upload_read_completed, set_status, tick, block_tick, pex_tick, disconnect_peer,
  send_to_peer, write_piece, broadcast, completed,
}
use tortue.Swarm.Registry.{unknown_peer, protocol_violation, apply}
use tortue.Swarm.Piece.{Error}
use tortue.Swarm.Assignments.{release_peer, unassign, is_holder}
use tortue.Swarm.Manager.{
  PieceManager, CompletedPiece, receive_block, unreceived_blocks, all_complete,
}
use tortue.Swarm.Plan.{interest, plan}
use tortue.Swarm.Uploads.{
  on_set_status, on_upload_read_completed, cancel_upload, on_message_request,
}
use tortue.Swarm.Connections.{on_disconnected, on_discovered, on_connected}
use tortue.Swarm.Extensions.{on_pex, on_extension_message}

abbrev pub Outcome : Type 0
Outcome = Exit (List Output × Swarm)

abbrev pub disconnects : List SocketAddr → List Output
disconnects [] = []
disconnects (a ∷ others) = disconnect_peer a ∷ disconnects others

-- What `on_message_piece` sends for a completed piece.
abbrev pub announce_piece : CompletedPiece → Swarm → List Output
announce_piece c s =
    broadcast (have c.range.piece_index)
    ∷ write_piece c.range c.data_bytes
    ∷ (if all_complete s.pieces then completed ∷ disconnects s.peer_registry.seeders else [])

module _ (sha1 : Bytes → Bytes) where
  -- `let _ = self.pieces.receive_block(…)` on each block that the data reaches.
  unfoldable pub receive_blocks : List BlockRange → Bytes → PieceManager → Exit PieceManager
  receive_blocks [] d m = done m
  receive_blocks (range ∷ ranges) d m = elim (slice range.piece_offset range.len d) [
    | none ↦ done m
    | some block ↦ and_then (receive_block sha1 range block m) (λ x. receive_blocks ranges d x.1)
  ]

  unfoldable pub on_local_piece : ℕ → Bytes → Swarm → Outcome
  on_local_piece i d s =
      and_then (receive_blocks (unreceived_blocks s.pieces i) d s.pieces)
        (λ m. done ([], record s { pieces = m }))

  -- The end of `on_message_piece`, after `receive_block`.
  unfoldable pub received_piece :
      Bytes → Swarm → Result Error (Option CompletedPiece) × PieceManager → List Output × Swarm
  received_piece d s (err e, m) = ([], record s { pieces = m })
  received_piece d s (ok c, m) =
      let t : Swarm = record s {
        pieces = m;
        downloaded_bytes = (s.downloaded_bytes + length d) % 2 ^ 64;
      } in
      (elim c [ none ↦ [] | some p ↦ announce_piece p t ], t)

  unfoldable pub on_message_piece : SocketAddr → BlockRange → Bytes → Swarm → Outcome
  on_message_piece a range d s =
      let t : Swarm = record s { block_assignments = unassign range a s.block_assignments } in
      if not (is_holder range a s.block_assignments)
      then done ([], s)
      else and_then (receive_block sha1 range d t.pieces) (λ x. done (received_piece d t x))

  -- The `match` of `on_message`, the registry having taken the message.
  unfoldable pub handle : SocketAddr → Message → Swarm → Outcome
  handle a (bitfield bits) s = done (interest a s.peer_registry, s)
  handle a (have i) s = done (interest a s.peer_registry, s)
  handle a have_all s = done (interest a s.peer_registry, s)
  handle a (suggest_piece i) s = done (interest a s.peer_registry, s)
  handle a (allowed_fast i) s = done (interest a s.peer_registry, s)
  handle a choke s = done ([], record s { block_assignments = release_peer a s.block_assignments })
  handle a (piece range d) s = on_message_piece a range d s
  handle a interested s = done (send_to_peer a unchoke ∷ [], s)
  handle a (request range) s = on_message_request a range s
  handle a (extension ext_id payload) s = done (on_extension_message a ext_id payload s, s)
  handle a (reject_request range) s =
      done ([], record s { block_assignments = unassign range a s.block_assignments })
  handle a (cancel range) s = done (cancel_upload a range s)
  handle a have_none s = done ([], s)
  handle a unchoke s = done ([], s)
  handle a not_interested s = done ([], s)
  handle a keep_alive s = done ([], s)
  handle a unimplemented s = done ([], s)
  handle a (extension_handshake hs) s = done ([], s)

  module _ {R : Type 0} (choose : List SocketAddr → R → Option SocketAddr × R) where
    abbrev pub replan : Message → R → List Output × Swarm → List Output × Swarm
    replan msg g (out, s) =
        let planned = plan choose g s in
        if affects_scheduling msg then (out ++ planned.0, planned.1) else (out, s)

    unfoldable pub on_message : R → SocketAddr → Message → Swarm → Outcome
    on_message g a msg s = elim (apply a msg s.peer_registry) [
      | err unknown_peer ↦ done ([], s)
      | err protocol_violation ↦ done (disconnect_peer a ∷ [], s)
      | ok r ↦ and_then (handle a msg (record s { peer_registry = r })) (λ x. done (replan msg g x))
    ]

    unfoldable pub step : R → Input → Swarm → Outcome
    step g (peers_discovered addrs) s = done (on_discovered addrs s, s)
    step g (peer_connected id direction a e) s = done (on_connected a direction id e s)
    step g (peer_disconnected a) s = done (on_disconnected a s)
    step g (message_received a msg) s = on_message g a msg s
    step g (local_piece i d) s = on_local_piece i d s
    step g (upload_read_completed id range d) s = done (on_upload_read_completed id range d s)
    step g (set_status status) s = done (on_set_status status s)
    step g (tick block_tick) s = done (plan choose g s)
    step g (tick pex_tick) s = done (on_pex s, s)
