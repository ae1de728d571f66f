-- ===== src/Swarm/Safety.antt =====
-- What the swarm lets out: verified pieces, and one connection to a peer.
use tortue.Prelude.{
  ◌+◌, ◌*◌, ◌≤◌, ◌^◌, ◌%◌, List, [], ◌∷◌, Bool, true, false, not, Option, none, some, done,
  and_then, ◌==◌, if◌then◌else◌, length, ◌≡◌, ◌≢◌, refl, arith, Bool-cases, inl, inr, ◌⊎◌, All,
  Bytes, Result, ok, err, subst, sym, ap, get_elem?, ◌∙◌,
}
use tortue.Net.{SocketAddr, BlockRange}
use tortue.Peer.{PeerId, inbound, outbound}
use tortue.Torrent.{Metainfo, total_size}
use tortue.Swarm.State
use tortue.Swarm.State.{Swarm, begun, Output, write_piece, broadcast, completed, disconnect_peer}
use tortue.Swarm.Piece.{Piece, Error}
use tortue.Swarm.Manager
use tortue.Swarm.Manager.{PieceManager, CompletedPiece, all_complete, receive_block}
use tortue.Swarm.ManagerLaws.{Step}
use tortue.Swarm.ManagerReceive.{receive_block-Step}
use tortue.Swarm.ManagerNew.{new_tiles}
use tortue.Swarm.RegistryInvariant
use tortue.Swarm.Assignments.{unassign, is_holder}
use tortue.Swarm.AssignmentsLaws.{Capped}
use tortue.Swarm.Uploads.{pending}
use tortue.Swarm.Invariant.{IsValid}
use tortue.Swarm.Connections.{bytes_gt, prefered_direction}
use tortue.Swarm.Step.{on_message_piece, received_piece, announce_piece, disconnects}

ok_inj {ℓ κ} : {E : Type κ} {A : Type ℓ} {a b : A} → ◌≡◌ {A = Result E A} (ok a) (ok b) → a ≡ b
ok_inj h = cc

some_inj {ℓ} : {A : Type ℓ} {a b : A} → some a ≡ some b → a ≡ b
some_inj h = cc

module _ (sha1 : Bytes → Bytes) where
  -- A piece written is whole, and has the hash that the torrent gives for it.
  unfoldable pub Verified : PieceManager → Output → Type 0
  Verified m (write_piece range d) =
      (p : Piece) × (get_elem? m.pieces range.piece_index ≡ some p)
      × (sha1 d ≡ p.expected_hash)
      × (length d ≡ p.len)
      × (range.piece_offset ≡ 0)
      × (range.len ≡ length d)
  Verified m _ = Unit {0}

  disconnects-Verified : (m : PieceManager) (l : List SocketAddr) → All (Verified m) (disconnects l)
  unfolding Verified
  disconnects-Verified m [] = tt
  disconnects-Verified m (a ∷ l) = (tt, disconnects-Verified m l)

  announce_piece-Verified :
      (m : PieceManager) (c : CompletedPiece) (s : Swarm)
      → Verified m (write_piece c.range c.data_bytes)
      → All (Verified m) (announce_piece c s)
  unfolding Verified
  announce_piece-Verified m c s v = (tt, (v, end_of (all_complete s.pieces)))
    where
      end_of :
          (b : Bool)
          → All (Verified m) (if b then completed ∷ disconnects s.peer_registry.seeders else [])
      end_of true = (tt, disconnects-Verified m s.peer_registry.seeders)
      end_of false = tt

  received_piece-Verified :
      (d : Bytes) (s : Swarm) (range : BlockRange) (res : Result Error (Option CompletedPiece))
      (n : PieceManager)
      → Step sha1 s.pieces range res n
      → All (Verified s.pieces) (received_piece sha1 d s (res, n)).0
  unfolding received_piece Step Verified
  received_piece-Verified d s range (err e) n h = tt
  received_piece-Verified d s range (ok none) n h = tt
  received_piece-Verified d s range (ok (some c)) n (_, _, inl (_, inl e)) = absurd (cc)
  received_piece-Verified d s range (ok (some c)) n (_, _, inl (_, inr (_, e))) = absurd (cc)
  received_piece-Verified d s range (ok (some c)) n (_, _, inr (k, p, e, g, r, l, h, _, _)) =
      announce_piece-Verified s.pieces c
        (record s { pieces = n; downloaded_bytes = (s.downloaded_bytes + length d) % 2 ^ 64 })
        (subst (λ x. Verified s.pieces (write_piece x.range x.data_bytes))
          (sym (some_inj (ok_inj e)))
          (
            p,
            ap (λ k. get_elem? s.pieces.pieces k) (ap (λ x. x.piece_index) r) ∙ g,
            h,
            l,
            ap (λ x. x.piece_offset) r,
            ap (λ x. x.len) r ∙ sym l,
          ))

  -- Whatever block comes from whatever peer to a valid swarm, the handler returns, and each piece
  -- that it sends to the store is one of the torrent's, from offset 0, as long as that piece, and
  -- of the hash that the torrent gives for it.
  pub on_message_piece-Verified :
      (a : SocketAddr) (range : BlockRange) (d : Bytes) (s : Swarm)
      → IsValid s
      → (x : List Output × Swarm) × (on_message_piece sha1 a range d s ≡ done x)
        × All (Verified s.pieces) x.0
  unfolding on_message_piece
  on_message_piece-Verified a range d s v =
      elim (Bool-cases (is_holder range a s.block_assignments)) [
        | inr e ↦ (([], s), rw e refl, tt)
        | inl e ↦
            let t : Swarm = record s { block_assignments = unassign range a s.block_assignments } in
            let (res, n, f, u) = receive_block-Step sha1 s.pieces range d v.pieces in
            (
              received_piece sha1 d t (res, n),
              rw (e, f) refl,
              received_piece-Verified d t range res n u,
            )
      ]

-- A swarm begins without a panic, and valid, where the total size has room for a full piece for
-- each hash but the last.
pub new_swarm-IsValid :
    (id : PeerId) (t : Metainfo) (h : Bytes) (hs : List Bytes)
    → t.pieces ≡ h ∷ hs
    → length hs * t.piece_length ≤ total_size t
    → (s : Swarm) × (State.new id t ≡ done s) × IsValid s
unfolding State.new Capped pending
new_swarm-IsValid id t h hs e b =
    let (m, f, v, _, _, _) = new_tiles h hs t.piece_length (total_size t) b in
    (
      begun id t m,
      ap (λ k. and_then (Manager.new k t.piece_length (total_size t)) (λ p. done (begun id t p))) e
          ∙ ap (λ r. and_then r (λ p. done (begun id t p))) f,
      record {
        pieces = v;
        registry = RegistryInvariant.new-IsValid (length t.pieces);
        capped = λ a. omega arith;
        uploads = record { few = omega arith; live = tt };
      },
    )

bytes_gt-asym : (s t : Bytes) → length s ≡ length t → s ≢ t → bytes_gt s t ≡ not (bytes_gt t s)
unfolding bytes_gt
bytes_gt-asym [] [] l n = absurd (n refl)
bytes_gt-asym [] (y ∷ t) l n = absurd (omega (arith, l))
bytes_gt-asym (x ∷ s) [] l n = absurd (omega (arith, l))
bytes_gt-asym (x ∷ s) (y ∷ t) l n = elim (Bool-cases (x == y)) [
  | inl e ↦ ground (arith, e, bytes_gt-asym s t (omega (arith, l)) (λ f. n (ground (arith, e, f))))
  | inr e ↦ ground (arith, e)
]

-- Two ends of distinct identifiers of one length prefer the same of two connections between them:
-- outbound at the one is inbound at the other.
pub prefered_direction-opposite :
    (s t : Swarm)
    → length s.client_id ≡ length t.client_id
    → s.client_id ≢ t.client_id
    → (prefered_direction t.client_id s ≡ outbound × prefered_direction s.client_id t ≡ inbound)
      ⊎ (prefered_direction t.client_id s ≡ inbound × prefered_direction s.client_id t ≡ outbound)
unfolding prefered_direction
prefered_direction-opposite s t l n = ground (arith, bytes_gt-asym s.client_id t.client_id l n)
