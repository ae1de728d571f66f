-- ===== src/Swarm/UploadsLaws.antt =====
-- The pending reads: at most 32 readers, none without a reader, identifiers that were handed out.
use tortue.Prelude.{
  ℕ, ◌+◌, ◌<◌, ◌≤◌, List, [], ◌∷◌, false, none, some, length, is_empty, ◌≡◌, arith, Bool-cases, inl,
  inr, All, length-append, subst,
}
use tortue.Prelude.Dict.{get, insert, remove, add, discard}
use tortue.Net.{SocketAddr, BlockRange, addr_eq, range_eq, range_beq}
use tortue.Swarm.State.{PendingRead}
use tortue.Swarm.Uploads.{Reads, pending, without_peer, max_pending_uploads}

-- A read that is under way, of an identifier below the next.
abbrev pub IsLive : ℕ → BlockRange × PendingRead → Type 0
IsLive next (range, read) = (read.id < next) × (0 < length read.peers)

pub record IsBounded (reads : Reads) (next : ℕ) : Type 0 where
  pub few : pending reads ≤ max_pending_uploads
  pub live : All (IsLive next) reads

pub pending-insert-some :
    (k : BlockRange) (r q : PendingRead) (m : Reads)
    → get k m ≡ some q
    → pending (insert k r m) + length q.peers ≡ pending m + length r.peers
unfolding pending
pending-insert-some k r q [] h = cc
pending-insert-some k r q ((j, p) ∷ m) h = ground (arith, pending-insert-some k r q m)

pub pending-insert-none :
    (k : BlockRange) (r : PendingRead) (m : Reads)
    → get k m ≡ none
    → pending (insert k r m) ≡ pending m + length r.peers
unfolding pending
pending-insert-none k r [] h = omega arith
pending-insert-none k r ((j, p) ∷ m) h = ground (arith, pending-insert-none k r m)

pub pending-remove : (k : BlockRange) (m : Reads) → pending (remove k m) ≤ pending m
unfolding pending
pending-remove k [] = omega arith
pending-remove k ((j, p) ∷ m) = ground (arith, pending-remove k m)

pub insert-IsLive :
    (n : ℕ) (k : BlockRange) (r : PendingRead) (m : Reads)
    → All (IsLive n) m
    → r.id < n
    → 0 < length r.peers
    → All (IsLive n) (insert k r m)
insert-IsLive n k r [] v h l = ((h, l), tt)
insert-IsLive n k r ((j, p) ∷ m) v h l = elim (Bool-cases (range_beq j k)) [
  | inl e ↦ rw e ((h, l), v.1)
  | inr e ↦ rw e (v.0, insert-IsLive n k r m v.1 h l)
]

pub remove-IsLive :
    (n : ℕ) (k : BlockRange) (m : Reads) → All (IsLive n) m → All (IsLive n) (remove k m)
remove-IsLive n k [] v = tt
remove-IsLive n k ((j, p) ∷ m) v = elim (Bool-cases (range_beq j k)) [
  | inl e ↦ rw e (remove-IsLive n k m v.1)
  | inr e ↦ rw e (v.0, remove-IsLive n k m v.1)
]

pub later-IsLive : (n k : ℕ) (m : Reads) → n ≤ k → All (IsLive n) m → All (IsLive k) m
later-IsLive n k [] h v = tt
later-IsLive n k ((j, p) ∷ m) h v = ((omega (arith, h, v.0.0), v.0.1), later-IsLive n k m h v.1)

pub get-IsLive :
    (n : ℕ) (k : BlockRange) (r : PendingRead) (m : Reads)
    → All (IsLive n) m
    → get k m ≡ some r
    → (r.id < n) × (0 < length r.peers)
get-IsLive n k r [] v h = cc
get-IsLive n k r ((j, p) ∷ m) v h = elim (Bool-cases (range_beq j k)) [
  | inl e ↦
      subst {A = PendingRead} (λ x. (x.id < n) × (0 < length x.peers)) (ground (arith, e, h)) v.0
  | inr e ↦ get-IsLive n k r m v.1 (ground (arith, e, h))
]

pub length-discard : (a : SocketAddr) (s : List SocketAddr) → length (discard a s) ≤ length s
length-discard a [] = omega arith
length-discard a (b ∷ s) = ground (arith, length-discard a s)

pub length-add : (a : SocketAddr) (s : List SocketAddr) → length (add a s) ≤ length s + 1
length-add a s = ground (arith, length-append s (a ∷ []))

pub grown : (a : SocketAddr) (s : List SocketAddr) → length s ≤ length (add a s)
grown a s = ground (arith, length-append s (a ∷ []))

pub nonempty : (s : List SocketAddr) → is_empty s ≡ false → 0 < length s
nonempty [] h = absurd (ground arith)
nonempty (a ∷ s) h = omega arith

pub without_peer-IsBounded :
    (a : SocketAddr) (m : Reads) (n : ℕ)
    → All (IsLive n) m
    → All (IsLive n) (without_peer a m).1 × (pending (without_peer a m).1 ≤ pending m)
unfolding without_peer pending
without_peer-IsBounded a [] n v = (tt, omega arith)
without_peer-IsBounded a ((j, p) ∷ m) n v = elim (Bool-cases (is_empty (discard a p.peers))) [
  | inl e ↦ let (l, k) = without_peer-IsBounded a m n v.1 in rw e (l, omega (arith, k))
  | inr e ↦
      let (l, k) = without_peer-IsBounded a m n v.1 in
      rw e
        (((v.0.0, nonempty (discard a p.peers) e), l), omega (arith, k, length-discard a p.peers))
]
