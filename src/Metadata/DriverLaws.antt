-- ===== src/Metadata/DriverLaws.antt =====
-- What the loop returns.
use tortue.Prelude.{
  Bytes, List, [], ◌∷◌, Option, none, some, ok, err, is_empty, All, ◌≡◌, refl, ◌∙◌, subst,
  Bool-cases, inl, inr,
}
use tortue.Net.{addr_eq}
use tortue.Peer.Event.{PeerEvent}
use tortue.Metadata.{
  Metadata, peers_discovered, Output, connect_peer, send_to_peer, finished, step, new,
}
use tortue.Metadata.Laws.{Fits, IsVerified, step-Good}
use tortue.Metadata.Driver.{
  Event, from_tracker, from_peer, Effect, MetadataIo, Outcome, returned, waiting, handle_output,
  handle_outputs, Selected, input, again, ends, select, advance, conclude, proceed, run_loop, run,
}

-- No channel of peer events is closed: the driver holds a sender of its own.
abbrev pub IsOpen : Event → Type 0
IsOpen (from_tracker addrs) = Unit
IsOpen (from_peer none) = ⊥
IsOpen (from_peer (some e)) = Unit

module _ (sha1 : Bytes → Bytes) where
  -- Bytes that are returned have the hash.
  abbrev pub IsFetched : Bytes → Outcome → Type 0
  IsFetched hash (returned (ok d)) = sha1 d ≡ hash
  IsFetched hash (returned (err e)) = Unit
  IsFetched hash (waiting io s) = Unit

  abbrev Found : Bytes → Option Bytes → Type 0
  Found hash none = Unit
  Found hash (some d) = sha1 d ≡ hash

  handle_outputs-Found :
      (hash : Bytes) (outs : List Output) (io : MetadataIo)
      → All (IsVerified sha1 hash) outs
      → Found hash (handle_outputs outs io).0
  unfolding handle_outputs handle_output
  handle_outputs-Found hash [] io h = tt
  handle_outputs-Found hash (connect_peer a ∷ outs) io h = handle_outputs-Found hash outs _ h.1
  handle_outputs-Found hash (send_to_peer a msg ∷ outs) io h = handle_outputs-Found hash outs io h.1
  handle_outputs-Found hash (finished d ∷ outs) io h = h.0

  abbrev Continues : Bytes → (MetadataIo → Metadata → List Effect × Outcome) → Type 0
  Continues hash rest =
      (io : MetadataIo) (s : Metadata)
      → s.info_hash ≡ hash
      → Fits s.total_size s.pieces
      → IsFetched hash (rest io s).1

  conclude-Fetched :
      (hash : Bytes) (found : Option Bytes) (effects : List Effect) (rest : List Effect × Outcome)
      → Found hash found
      → IsFetched hash rest.1
      → IsFetched hash (conclude sha1 found effects rest).1
  conclude-Fetched hash (some d) effects rest h k = h
  conclude-Fetched hash none effects rest h k = k

  -- The selection does not end the run with bytes.
  abbrev HasNoBytes : Selected → Type 0
  HasNoBytes (ends (ok d)) = ⊥
  HasNoBytes (ends (err e)) = Unit
  HasNoBytes again = Unit
  HasNoBytes (input i io) = Unit

  select-open : (e : Event) (io : MetadataIo) → IsOpen e → HasNoBytes (select e io)
  unfolding select
  select-open (from_tracker none) io h = tt
  select-open (from_tracker (some addrs)) io h = tt
  select-open (from_peer none) io h = absurd h
  select-open (from_peer (some (a, PeerEvent.connected direction id e))) io h = tt
  select-open (from_peer (some (a, PeerEvent.disconnected))) io h = tt
  select-open (from_peer (some (a, PeerEvent.message_received msg))) io h = tt

  proceed-Fetched :
      (hash : Bytes) (selected : Selected) (io : MetadataIo) (s : Metadata)
      (rest : MetadataIo → Metadata → List Effect × Outcome)
      → HasNoBytes selected
      → Continues hash rest
      → s.info_hash ≡ hash
      → Fits s.total_size s.pieces
      → IsFetched hash (proceed sha1 selected io s rest).1
  proceed-Fetched hash again io s rest h k e f = k io s e f
  proceed-Fetched hash (ends (ok d)) io s rest h k e f = absurd h
  proceed-Fetched hash (ends (err x)) io s rest h k e f = tt
  proceed-Fetched hash (input i next) io s rest h k e f =
      let good = step-Good sha1 i s f in
      let x = advance sha1 i next s in
      conclude-Fetched hash x.0 x.1 (rest x.2 (step sha1 i s).1)
        (handle_outputs-Found hash (step sha1 i s).0 next
          (subst (λ b. All (IsVerified sha1 b) (step sha1 i s).0) e good.verified))
        (k x.2 (step sha1 i s).1 (good.same_hash ∙ e) good.fits)

  run_loop-Fetched :
      (hash : Bytes) (events : List Event)
      → All IsOpen events
      → Continues hash (run_loop sha1 events)
  unfolding run_loop
  run_loop-Fetched hash [] all_open io s e f = tt
  run_loop-Fetched hash (event ∷ events) all_open io s e f =
      proceed-Fetched hash (select event io) io s (run_loop sha1 events)
        (select-open event io all_open.0) (run_loop-Fetched hash events all_open.1) e f

  -- Whatever trackers and peers send, the channel of peer events being open, bytes that the driver
  -- of the fetch returns have the info hash of the link.
  pub run-Fetched :
      (events : List Event) (io : MetadataIo)
      → All IsOpen events
      → IsFetched io.info_hash (run sha1 events io).1
  unfolding run new
  run-Fetched events io all_open = elim (Bool-cases (is_empty io.initial_peers)) [
    | inl e ↦ rw e (run_loop-Fetched io.info_hash events all_open io (new io.info_hash) refl refl)
    | inr e ↦ rw e (
        proceed-Fetched io.info_hash (input (peers_discovered io.initial_peers) io) io
          (new io.info_hash) (run_loop sha1 events) tt
          (run_loop-Fetched io.info_hash events all_open) refl refl)
  ]
