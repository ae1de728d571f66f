-- ===== src/Swarm/Invariant.antt =====
-- What holds of the swarm after every step.
use tortue.Prelude.{
  ℕ, ◌+◌, ◌<◌, ◌^◌, List, [], ◌∷◌, done, leb, ◌==◌, is_empty, ◌≡◌, refl, arith, Bool-cases,
  Option-cases, inl, inr, Bytes,
}
use tortue.Prelude.Dict.{get, insert, remove, add, discard}
use tortue.Net.{SocketAddr, BlockRange, addr_eq, range_eq}
use tortue.Swarm.State.{Swarm, Output, PendingRead, SwarmStatus, upload, read_for_upload}
use tortue.Swarm.Manager.{valid_upload_range}
use tortue.Swarm.ManagerLaws
use tortue.Swarm.RegistryInvariant
use tortue.Swarm.AssignmentsLaws.{Capped}
use tortue.Swarm.Uploads.{
  Reads, pending, without_peer, max_pending_uploads, on_message_request, on_upload_read_completed,
  on_set_status, cancel_upload, cancel_peer_uploads,
}
use tortue.Swarm.UploadsLaws.{
  IsBounded, pending-insert-some, pending-insert-none, pending-remove, insert-IsLive, remove-IsLive,
  later-IsLive, get-IsLive, without_peer-IsBounded, length-discard, length-add, grown, nonempty,
}

-- The pieces agree with the bitfield, the peers with the availability, no peer has more than 32
-- requests, and no more than 32 readers wait.
pub record IsValid (s : Swarm) : Type 0 where
  pub pieces : ManagerLaws.IsValid s.pieces
  pub registry : RegistryInvariant.IsValid s.peer_registry
  pub capped : Capped s.block_assignments
  pub uploads : IsBounded s.pending_reads s.next_upload_read_id

-- The handlers of the uploads change the pending reads only.
with_reads :
    (s : Swarm) (m : Reads) (n : ℕ)
    → IsValid s
    → IsBounded m n
    → IsValid (record s { pending_reads = m; next_upload_read_id = n })
with_reads s m n v b = record {
  pieces = v.pieces;
  registry = v.registry;
  capped = v.capped;
  uploads = b;
}

pub on_message_request-IsValid :
    (a : SocketAddr) (range : BlockRange) (s : Swarm)
    → IsValid s
    → s.next_upload_read_id + 1 < 2 ^ 64
    → (x : List Output × Swarm) × (on_message_request a range s ≡ done x) × IsValid x.1
unfolding on_message_request
on_message_request-IsValid a range s v h = elim (Bool-cases (upload s.status)) [
  | inr b ↦ (([], s), rw b refl, v)
  | inl b ↦ elim (Bool-cases (valid_upload_range s.pieces range)) [
    | inr c ↦ (([], s), rw (b, c) refl, v)
    | inl c ↦ elim (Bool-cases (leb max_pending_uploads (pending s.pending_reads))) [
      | inl d ↦ (([], s), rw (b, c, d) refl, v)
      | inr d ↦ elim (Option-cases (get range s.pending_reads)) [
        | inl g ↦
            let q : PendingRead = record { id = s.next_upload_read_id; peers = a ∷ [] } in
            let t : Swarm = record s {
              next_upload_read_id = s.next_upload_read_id + 1;
              pending_reads = insert range q s.pending_reads;
            } in
            (
              (read_for_upload s.next_upload_read_id range ∷ [], t),
              ground (arith, b, c, d, g, h),
              with_reads s (insert range q s.pending_reads) (s.next_upload_read_id + 1) v (record {
                few = ground (arith, pending-insert-none range q s.pending_reads g, d);
                live =
                    insert-IsLive (s.next_upload_read_id + 1) range q s.pending_reads
                      (later-IsLive s.next_upload_read_id (s.next_upload_read_id + 1)
                        s.pending_reads (omega arith) v.uploads.live)
                      (omega arith) (omega arith);
              }),
            )
        | inr (p, g) ↦
            let q : PendingRead = record p { peers = add a p.peers } in
            let (i, l) =
              get-IsLive s.next_upload_read_id range p s.pending_reads v.uploads.live g in
            (
              ([], record s { pending_reads = insert range q s.pending_reads }),
              ground (arith, b, c, d, g),
              with_reads s (insert range q s.pending_reads) s.next_upload_read_id v (record {
                few = ground (
                  arith,
                  pending-insert-some range q p s.pending_reads g,
                  d,
                  length-add a p.peers,
                );
                live =
                    insert-IsLive s.next_upload_read_id range q s.pending_reads v.uploads.live i
                      (omega (arith, l, grown a p.peers));
              }),
            )
      ]
    ]
  ]
]

pub on_upload_read_completed-IsValid :
    (id : ℕ) (range : BlockRange) (d : Bytes) (s : Swarm)
    → IsValid s
    → IsValid (on_upload_read_completed id range d s).1
unfolding on_upload_read_completed
on_upload_read_completed-IsValid id range d s v = elim (Option-cases (get range s.pending_reads)) [
  | inl g ↦ rw (g, on_upload_read_completed) v
  | inr (p, g) ↦
      let bounded : IsBounded (remove range s.pending_reads) s.next_upload_read_id = record {
        few = omega (arith, pending-remove range s.pending_reads, v.uploads.few);
        live = remove-IsLive s.next_upload_read_id range s.pending_reads v.uploads.live;
      } in
      let w = with_reads s (remove range s.pending_reads) s.next_upload_read_id v bounded in
      elim (Bool-cases (p.id == id)) [
        | inr e ↦ rw (g, e, on_upload_read_completed) v
        | inl e ↦ elim (Bool-cases (upload s.status)) [
          | inr f ↦ rw (g, e, f, on_upload_read_completed) w
          | inl f ↦
              rw (g, e, f, on_upload_read_completed)
                (record {
                  pieces = v.pieces;
                  registry = v.registry;
                  capped = v.capped;
                  uploads = bounded;
                })
        ]
      ]
]

pub on_set_status-IsValid :
    (status : SwarmStatus) (s : Swarm) → IsValid s → IsValid (on_set_status status s).1
unfolding on_set_status pending
on_set_status-IsValid status s v = elim (Bool-cases (upload status)) [
  | inl e ↦
      rw e (record {
        pieces = v.pieces;
        registry = v.registry;
        capped = v.capped;
        uploads = v.uploads;
      })
  | inr e ↦ rw e (record {
    pieces = v.pieces;
    registry = v.registry;
    capped = v.capped;
    uploads = record { few = omega arith; live = tt };
  })
]

pub cancel_upload-IsValid :
    (a : SocketAddr) (range : BlockRange) (s : Swarm)
    → IsValid s
    → IsValid (cancel_upload a range s).1
unfolding cancel_upload
cancel_upload-IsValid a range s v = elim (Option-cases (get range s.pending_reads)) [
  | inl g ↦ rw (g, cancel_upload) v
  | inr (p, g) ↦ elim (Bool-cases (is_empty (discard a p.peers))) [
    | inl e ↦
        rw (g, e, cancel_upload)
          (with_reads s (remove range s.pending_reads) s.next_upload_read_id v (record {
            few = omega (arith, pending-remove range s.pending_reads, v.uploads.few);
            live = remove-IsLive s.next_upload_read_id range s.pending_reads v.uploads.live;
          }))
    | inr e ↦
        let q : PendingRead = record p { peers = discard a p.peers } in
        let (i, l) = get-IsLive s.next_upload_read_id range p s.pending_reads v.uploads.live g in
        rw (g, e, cancel_upload)
          (with_reads s (insert range q s.pending_reads) s.next_upload_read_id v (record {
            few = omega (
              arith,
              pending-insert-some range q p s.pending_reads g,
              v.uploads.few,
              length-discard a p.peers,
            );
            live =
                insert-IsLive s.next_upload_read_id range q s.pending_reads v.uploads.live i
                  (nonempty (discard a p.peers) e);
          }))
  ]
]

pub cancel_peer_uploads-IsValid :
    (a : SocketAddr) (s : Swarm) → IsValid s → IsValid (cancel_peer_uploads a s).1
unfolding cancel_peer_uploads
cancel_peer_uploads-IsValid a s v =
    let (l, k) = without_peer-IsBounded a s.pending_reads s.next_upload_read_id v.uploads.live in
    with_reads s (without_peer a s.pending_reads).1 s.next_upload_read_id v
      (record { few = omega (arith, k, v.uploads.few); live = l })
