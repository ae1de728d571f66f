-- ===== src/Swarm/Uploads.antt =====
-- domain/swarm.rs: the reads that serve uploads, from the request to the block sent or the cancellation.
use tortue.Prelude.{
  ℕ, ◌+◌, ◌%◌, ◌^◌, Bytes, List, [], ◌∷◌, Bool, false, not, Option, none, some, Exit, done,
  panicked, ltb, leb, ◌==◌, if◌then◌else◌, length, is_empty,
}
use tortue.Prelude.Dict.{get, insert, remove, add, discard}
use tortue.Net.{SocketAddr, BlockRange, addr_eq, range_eq}
use tortue.Message.Types.{piece}
use tortue.Swarm.State.{
  Swarm, Output, PendingRead, SwarmStatus, send_to_peer, read_for_upload, cancel_upload_read,
  upload,
}
use tortue.Swarm.Registry.{contains_addr, PeerRegistry}
use tortue.Swarm.Manager.{valid_upload_range}

abbrev pub max_pending_uploads : ℕ
max_pending_uploads = 32

abbrev pub Reads : Type 0
Reads = List (BlockRange × PendingRead)

-- `drain`
abbrev pub cancel_all : Reads → List Output
cancel_all [] = []
cancel_all ((range, read) ∷ reads) = cancel_upload_read read.id ∷ cancel_all reads

-- `on_swarm_command`
unfoldable pub on_set_status : SwarmStatus → Swarm → List Output × Swarm
on_set_status status s =
    if upload status
    then ([], record s { status = status })
    else (cancel_all s.pending_reads, record s { status = status; pending_reads = [] })

-- The loop over the readers, with the count of the bytes uploaded.
unfoldable pub serve : List SocketAddr → PeerRegistry → BlockRange → Bytes → ℕ → List Output × ℕ
serve [] r range d uploaded = ([], uploaded)
serve (a ∷ others) r range d uploaded =
    let now = (uploaded + length d) % 2 ^ 64 in
    let skipped = serve others r range d uploaded in
    let served = serve others r range d now in
    if not (contains_addr a r)
    then skipped
    else (send_to_peer a (piece range d) ∷ served.0, served.1)

abbrev pub has_id : ℕ → Option PendingRead → Bool
has_id id none = false
has_id id (some read) = read.id == id

unfoldable pub on_upload_read_completed : ℕ → BlockRange → Bytes → Swarm → List Output × Swarm
on_upload_read_completed id range d s = elim (get range s.pending_reads) [
  | none ↦ ([], s)
  | some read ↦
      let t : Swarm = record s { pending_reads = remove range s.pending_reads } in
      let served = serve read.peers s.peer_registry range d s.uploaded_bytes in
      if not (read.id == id)
      then ([], s)
      else if not (upload s.status)
      then ([], t)
      else (served.0, record t { uploaded_bytes = served.1 })
]

unfoldable pub cancel_upload : SocketAddr → BlockRange → Swarm → List Output × Swarm
cancel_upload a range s = elim (get range s.pending_reads) [
  | none ↦ ([], s)
  | some read ↦
      let peers = discard a read.peers in
      if not (is_empty peers)
      then (
        [],
        record s { pending_reads = insert range (record read { peers = peers }) s.pending_reads },
      )
      else (
        cancel_upload_read read.id ∷ [],
        record s { pending_reads = remove range s.pending_reads },
      )
]

-- `retain`, with the outputs of its closure.
unfoldable pub without_peer : SocketAddr → Reads → List Output × Reads
without_peer a [] = ([], [])
without_peer a ((range, read) ∷ reads) =
    let rest = without_peer a reads in
    let peers = discard a read.peers in
    if is_empty peers
    then (cancel_upload_read read.id ∷ rest.0, rest.1)
    else (rest.0, (range, record read { peers = peers }) ∷ rest.1)

unfoldable pub cancel_peer_uploads : SocketAddr → Swarm → List Output × Swarm
cancel_peer_uploads a s =
    let kept = without_peer a s.pending_reads in (kept.0, record s { pending_reads = kept.1 })

unfoldable pub pending : Reads → ℕ
pending [] = 0
pending ((range, read) ∷ reads) = length read.peers + pending reads

-- `checked_add(1).expect(…)` on the identifiers.
unfoldable pub on_message_request : SocketAddr → BlockRange → Swarm → Exit (List Output × Swarm)
on_message_request a range s =
    if not (upload s.status)
    then done ([], s)
    else if not (valid_upload_range s.pieces range)
    then done ([], s)
    else if leb max_pending_uploads (pending s.pending_reads)
    then done ([], s)
    else elim (get range s.pending_reads) [
      | some read ↦ done (
        [],
        record s {
          pending_reads = insert range (record read { peers = add a read.peers }) s.pending_reads;
        },
      )
      | none ↦
          let id = s.next_upload_read_id in
          if not (ltb (id + 1) (2 ^ 64))
          then panicked
          else done (
            read_for_upload id range ∷ [],
            record s {
              next_upload_read_id = id + 1;
              pending_reads = insert range (record { id = id; peers = a ∷ [] }) s.pending_reads;
            },
          )
    ]
