-- ===== src/Swarm/PieceReceive.antt =====
-- `Piece::receive_block` on every branch.
use tortue.Prelude.{
  ℕ, zero, suc, ◌+◌, ◌-◌, ◌*◌, ◌<◌, ◌≤◌, min, Bytes, List, [], ◌∷◌, Option, none, some, Result, ok,
  err, done, leb, ◌==◌, length, get_elem?, set, bytes_beq, bytes_beq_iff, length-set, ◌≡◌, refl,
  arith, Bool-cases, ◌⊎◌, inl, inr, sym, subst, ◌≢◌,
}
use tortue.Net.{block_size}
use tortue.Bitfield.{div_ceil}
use tortue.Swarm.Piece.{
  Error, invalid_block_size, invalid_block_index, BlockState, missing, received, PieceState,
  partial, complete, Piece, block_length, concat, buffer, clear, reset, verify_piece_hash, finish,
  receive_block,
}
use tortue.Swarm.PieceLaws.{
  count, Sized, InProgress, IsValid, count-set, set-Sized, concat_full, length-clear, count-clear,
  clear-Sized, count_le,
}

slot-cases :
    (bs : List BlockState) (i : ℕ)
    → i < length bs
    → (get_elem? bs i ≡ some missing) ⊎ ((e : Bytes) × (get_elem? bs i ≡ some (received e)))
slot-cases [] i h = elim h [ ]
slot-cases (missing ∷ bs) zero h = inl refl
slot-cases (received e ∷ bs) zero h = inr (e, refl)
slot-cases (b ∷ bs) (suc i) h = slot-cases bs i (omega arith)

abbrev pub in_progress : ℕ → Bytes → List BlockState → ℕ → Piece
in_progress n hash bs r = record { len = n; expected_hash = hash; state = partial bs r }

module _ (sha1 : Bytes → Bytes) where
  -- What becomes of a piece of length `n` whose blocks are now `bs`, `r` of them received: it waits for more, it
  -- is verified, or all of it is asked for again.
  unfoldable pub Ends : ℕ → Bytes → List BlockState → ℕ → Option Bytes → Piece → Type 0
  Ends n hash bs r o q =
      ((r < length bs) × (o ≡ none) × (q.state ≡ partial bs r))
      ⊎ ((buf : Bytes) × (concat bs ≡ done buf)
          × (length buf ≡ n)
          × (((sha1 buf ≡ hash) × (o ≡ some buf) × (q.state ≡ complete))
              ⊎ ((sha1 buf ≢ hash) × (o ≡ none) × (q.state ≡ partial (clear bs) 0))))

  unfoldable pub Same : Piece → Piece → Type 0
  Same p q = (q.len ≡ p.len) × (q.expected_hash ≡ p.expected_hash)

  finish_lem :
      (n : ℕ) (hash : Bytes) (bs : List BlockState) (r : ℕ)
      → length bs ≡ div_ceil n block_size
      → r ≡ count bs
      → Sized n bs
      → (o : Option Bytes) × (q : Piece) × (finish sha1 (in_progress n hash bs r) ≡ done (o, q))
        × Same (in_progress n hash bs r) q
        × Ends n hash bs r o q
  unfolding finish buffer reset verify_piece_hash Ends Same
  finish_lem n hash bs r c k s = elim (Bool-cases (r == length bs)) [
    | inl e ↦
        let (buf, f, l) = concat_full n bs c s (ground (arith, count_le bs)) in
        elim (Bool-cases (bytes_beq (sha1 buf) hash)) [
          | inl v ↦ (
            some buf,
            record { len = n; expected_hash = hash; state = complete },
            rw (e, f, v) refl,
            (refl, refl),
            inr (buf, f, l, inl (ground (arith, bytes_beq_iff (sha1 buf) hash), refl, refl)),
          )
          | inr v ↦ (
            none,
            record { len = n; expected_hash = hash; state = partial (clear bs) 0 },
            rw (e, f, v) refl,
            (refl, refl),
            inr (buf, f, l, inr (ground (arith, bytes_beq_iff (sha1 buf) hash), refl, refl)),
          )
        ]
    | inr e ↦ (
      none,
      record { len = n; expected_hash = hash; state = partial bs r },
      rw e refl,
      (refl, refl),
      inl (ground (arith, count_le bs), refl, refl),
    )
  ]

  -- What `Piece::receive_block` returns for block `i`, and the piece that it leaves.
  unfoldable pub Receives :
      Piece → List BlockState → ℕ → ℕ → Bytes → Result Error (Option Bytes) → Piece → Type 0
  Receives p bs r i d res q =
      ((length bs ≤ i) × (res ≡ err (invalid_block_index i)) × (q ≡ p))
      ⊎ ((length d ≢ min (p.len - i * block_size) block_size)
          × (res ≡ err (invalid_block_size (min (p.len - i * block_size) block_size) (length d)))
          × (q ≡ p))
      ⊎ ((e : Bytes) × (get_elem? bs i ≡ some (received e)) × (res ≡ ok none) × (q ≡ p))
      ⊎ ((get_elem? bs i ≡ some missing)
          × (length d ≡ min (p.len - i * block_size) block_size)
          × ((o : Option Bytes) × (res ≡ ok o)
              × Ends p.len p.expected_hash (set bs i (received d)) (r + 1) o q))

  pub receive_block_cases :
      (n : ℕ) (hash : Bytes) (bs : List BlockState) (r i : ℕ) (d : Bytes)
      → InProgress n bs r
      → (res : Result Error (Option Bytes)) × (q : Piece) × (receive_block sha1 i d
            (in_progress n hash bs r)
          ≡ done (res, q))
        × Same (in_progress n hash bs r) q
        × Receives (in_progress n hash bs r) bs r i d res q
  unfolding receive_block block_length Receives Same
  receive_block_cases n hash bs r i d v = elim (Bool-cases (leb (length bs) i)) [
    | inl a ↦ (_, _, ground (arith, a), (refl, refl), inl (ground arith, refl, refl))
    | inr a ↦ elim (Bool-cases (length d == min (n - i * block_size) block_size)) [
      | inr b ↦ (_, _, ground (arith, a, b), (refl, refl), inr (inl (ground arith, refl, refl)))
      | inl b ↦ elim (slot-cases bs i (ground arith)) [
        | inr (e, g) ↦
            (_, _, ground (arith, a, b, g), (refl, refl), inr (inr (inl (e, g, refl, refl))))
        | inl g ↦
            let (o, q, f, same, ends) =
              finish_lem n hash (set bs i (received d)) (r + 1)
                (omega (arith, v.covered, length-set bs i (received d)))
                (omega (arith, v.counted, count-set bs i d g))
                (set-Sized n bs i d v.sized (ground arith)) in
            (
              _,
              _,
              ground (arith, a, b, g, f),
              same,
              inr (inr (inr (g, ground arith, (o, refl, ends)))),
            )
      ]
    ]
  ]

  leaves-IsValid :
      (n : ℕ) (hash : Bytes) (bs : List BlockState) (r : ℕ) (o : Option Bytes) (q : Piece)
      → q.len ≡ n
      → length bs ≡ div_ceil n block_size
      → r ≡ count bs
      → Sized n bs
      → Ends n hash bs r o q
      → IsValid q
  unfolding Ends IsValid
  leaves-IsValid n hash bs r o q w c k z ends = elim ends [
    | inl (l, _, e) ↦
        rw (e, w) (record { covered = c; counted = k; sized = z; open_ended = λ h. l })
    | inr (buf, _, _, inl (_, _, e)) ↦ rw e tt
    | inr (buf, _, _, inr (_, _, e)) ↦
        rw (e, w)
          (record {
            covered = omega (arith, c, length-clear bs);
            counted = omega (arith, count-clear bs);
            sized = clear-Sized n bs;
            open_ended = λ h. omega (arith, c, length-clear bs);
          })
  ]

  receives-IsValid :
      (n : ℕ) (hash : Bytes) (bs : List BlockState) (r i : ℕ) (d : Bytes)
      (res : Result Error (Option Bytes)) (q : Piece)
      → InProgress n bs r
      → Same (in_progress n hash bs r) q
      → Receives (in_progress n hash bs r) bs r i d res q
      → IsValid q
  unfolding Receives IsValid Same
  receives-IsValid n hash bs r i d res q v same out = elim out [
    | inl (_, _, e) ↦ subst IsValid (sym e) v
    | inr (inl (_, _, e)) ↦ subst IsValid (sym e) v
    | inr (inr (inl (_, _, _, e))) ↦ subst IsValid (sym e) v
    | inr (inr (inr (g, l, (o, _, ends)))) ↦
        leaves-IsValid n hash (set bs i (received d)) (r + 1) o q same.0
          (omega (arith, v.covered, length-set bs i (received d)))
          (omega (arith, v.counted, count-set bs i d g)) (set-Sized n bs i d v.sized l) ends
  ]

  total_at :
      (n : ℕ) (hash : Bytes) (s : PieceState) (i : ℕ) (d : Bytes)
      → IsValid (record { len = n; expected_hash = hash; state = s })
      → (res : Result Error (Option Bytes)) × (q : Piece) × (receive_block sha1 i d
            (record { len = n; expected_hash = hash; state = s })
          ≡ done (res, q))
        × Same (record { len = n; expected_hash = hash; state = s }) q
        × IsValid q
  unfolding IsValid receive_block Same
  total_at n hash complete i d v = (_, _, refl, (refl, refl), tt)
  total_at n hash (partial bs r) i d v =
      let (res, q, e, same, out) = receive_block_cases n hash bs r i d v in
      (res, q, e, same, receives-IsValid n hash bs r i d res q v same out)

  -- A block never makes a valid piece panic, and leaves a valid piece of the same length and hash.
  pub receive_block_total :
      (p : Piece) (i : ℕ) (d : Bytes)
      → IsValid p
      → (res : Result Error (Option Bytes)) × (q : Piece) × (receive_block sha1 i d p
          ≡ done (res, q))
        × Same p q
        × IsValid q
  receive_block_total p i d v = total_at p.len p.expected_hash p.state i d v
