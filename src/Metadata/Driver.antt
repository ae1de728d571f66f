-- ===== src/Metadata/Driver.antt =====
-- adapters/metadata_io.rs: the loop that feeds the fetch with what peers and trackers send.
use tortue.Prelude.{
  Bytes, List, [], ◌∷◌, ◌++◌, Option, none, some, Result, ok, err, is_empty, if◌then◌else◌,
}
use tortue.Prelude.Dict.{contains, add, discard}
use tortue.Net.{SocketAddr, addr_eq}
use tortue.Peer.Event.{PeerEvent}
use tortue.Message.Types.{Message}
use tortue.Metadata.{
  Metadata, Input, peers_discovered, peer_disconnected, message_received, Output, connect_peer,
  send_to_peer, finished, step, new,
}

-- What a channel gives: `none` when it is closed.
pub data Event : Type 0 where
  from_tracker : Option (List SocketAddr) → Event
  from_peer : Option (SocketAddr × PeerEvent) → Event

-- What the loop does outside: a connection that is started, a message that is put in a peer's queue.
pub data Effect : Type 0 where
  connecting : SocketAddr → Effect
  queued : SocketAddr → Message → Effect

-- `peer_cmds` by its keys; the info hash and the peers are the magnet link's.
pub record MetadataIo : Type 0 where
  pub info_hash : Bytes
  pub initial_peers : List SocketAddr
  pub peer_cmds : List SocketAddr

pub data Error : Type 0 where
  tracker_disconnected : Error

-- How far a run has come: a result, or the state in which it waits for another event.
pub data Outcome : Type 0 where
  returned : Result Error Bytes → Outcome
  waiting : MetadataIo → Metadata → Outcome

unfoldable pub handle_output : Output → MetadataIo → Option Bytes × List Effect × MetadataIo
handle_output (connect_peer a) io =
    (none, connecting a ∷ [], record io { peer_cmds = add a io.peer_cmds })
handle_output (send_to_peer a msg) io =
    (none, if contains a io.peer_cmds then queued a msg ∷ [] else [], io)
handle_output (finished items) io = (some items, [], io)

-- The `for` over the outputs of a step, which returns at the first `Done`.
unfoldable pub handle_outputs : List Output → MetadataIo → Option Bytes × List Effect × MetadataIo
unfolding handle_output
handle_outputs [] io = (none, [], io)
handle_outputs (out ∷ outs) io =
    let (found, effects, after) = handle_output out io in
    let rest = handle_outputs outs after in
    elim found [
      | some items ↦ (some items, effects, after)
      | none ↦ (rest.0, effects ++ rest.1, rest.2)
    ]

-- The `select!`: an input for the fetch, a round without one, or the end.
pub data Selected : Type 0 where
  input : Input → MetadataIo → Selected
  again : Selected
  ends : Result Error Bytes → Selected

unfoldable pub select : Event → MetadataIo → Selected
select (from_tracker (some addrs)) io = input (peers_discovered addrs) io
select (from_tracker none) io = ends (err tracker_disconnected)
select (from_peer none) io = ends (ok [])
select (from_peer (some (a, PeerEvent.connected direction id e))) io = again
select (from_peer (some (a, PeerEvent.disconnected))) io =
    input (peer_disconnected a) (record io { peer_cmds = discard a io.peer_cmds })
select (from_peer (some (a, PeerEvent.message_received msg))) io = input (message_received a msg) io

module _ (sha1 : Bytes → Bytes) where
  -- One step of the fetch, and what comes of its outputs.
  abbrev pub advance : Input → MetadataIo → Metadata → Option Bytes × List Effect × MetadataIo
  advance i io s = handle_outputs (step sha1 i s).0 io

  abbrev pub conclude : Option Bytes → List Effect → List Effect × Outcome → List Effect × Outcome
  conclude (some items) effects rest = (effects, returned (ok items))
  conclude none effects rest = (effects ++ rest.0, rest.1)

  -- The rest of the loop, for what was selected.
  abbrev pub proceed :
      Selected
      → MetadataIo
      → Metadata
      → (MetadataIo → Metadata → List Effect × Outcome)
      → List Effect × Outcome
  proceed again io s rest = rest io s
  proceed (ends result) io s rest = ([], returned result)
  proceed (input i next) io s rest =
      let x = advance i next s in conclude x.0 x.1 (rest x.2 (step sha1 i s).1)

  unfoldable pub run_loop : List Event → MetadataIo → Metadata → List Effect × Outcome
  unfolding select handle_outputs
  run_loop [] io s = ([], waiting io s)
  run_loop (event ∷ events) io s = proceed (select event io) io s (run_loop events)

  -- The peers that the link names are tried first.
  unfoldable pub run : List Event → MetadataIo → List Effect × Outcome
  unfolding run_loop
  run events io =
      let first =
        proceed (input (peers_discovered io.initial_peers) io) io (new io.info_hash)
          (run_loop events) in
      if is_empty io.initial_peers then run_loop events io (new io.info_hash) else first
