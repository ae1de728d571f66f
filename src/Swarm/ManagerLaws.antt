-- ===== src/Swarm/ManagerLaws.antt =====
-- All the pieces: the bitfield says which are complete, and no block takes a piece back.
use tortue.Prelude.{
  ℕ, ◌+◌, ◌/◌, ◌<◌, ◌≤◌, Bytes, true, Option, none, some, Result, ok, err, done, ◌==◌,
  if◌then◌else◌, length, get_elem?, set, ◌≡◌, refl, sym, ◌∙◌, ap, subst, arith, ◌⊎◌, inl, inr,
  Bool-cases, Option-cases, length-set, get_elem?-set-cases, get_elem?-set_self, get_elem?-set_ne,
  lt_of_get_elem?, ==_iff,
}
use tortue.Net.{block_size, BlockRange}
use tortue.Bitfield.{Bitfield, set_bit, has_bit}
use tortue.Bitfield.Laws
use tortue.Bitfield.Laws.{set_bit-IsValid, has_bit-set_bit, set_bit_succeeds, new-IsValid}
use tortue.Swarm.Piece
use tortue.Swarm.Piece.{
  Piece, Error, invalid_block_size, invalid_piece_index, unaligned_block_offset, is_complete,
}
use tortue.Swarm.PieceLaws
use tortue.Swarm.PieceEffects.{Effect, receive_block-Effect}
use tortue.Swarm.Manager.{CompletedPiece, PieceManager, complete_piece, valid_upload_range}

-- Every piece is valid, and the bitfield has a bit for each, set where it is complete.
pub record IsValid (m : PieceManager) : Type 0 where
  pub each : (i : ℕ) (p : Piece) → get_elem? m.pieces i ≡ some p → PieceLaws.IsValid p
  pub bits : Laws.IsValid m.bitfield
  pub bit_count : m.bitfield.pieces ≡ length m.pieces
  pub agree :
      (i : ℕ) (p : Piece)
      → get_elem? m.pieces i ≡ some p
      → has_bit m.bitfield i ≡ ok (is_complete p)

pub some_inj {ℓ} : {A : Type ℓ} {a b : A} → some a ≡ some b → a ≡ b
some_inj h = cc

-- Piece `i` is there and complete.
unfoldable pub Has : PieceManager → ℕ → Type 0
Has m i = (p : Piece) × (get_elem? m.pieces i ≡ some p) × (is_complete p ≡ true)

module _ (sha1 : Bytes → Bytes) where
  -- A complete piece stays complete; an incomplete one becomes complete only with a verified buffer.
  pub completes :
      (p : Piece) (i : ℕ) (d : Bytes) (res : Result Error (Option Bytes)) (q : Piece)
      → PieceLaws.IsValid p
      → Piece.receive_block sha1 i d p ≡ done (res, q)
      → ((is_complete q ≡ is_complete p) × ((res ≡ ok none) ⊎ ((e : Error) × (res ≡ err e))))
        ⊎ ((buf : Bytes) × (res ≡ ok (some buf))
            × (length buf ≡ p.len)
            × (sha1 buf ≡ p.expected_hash)
            × (is_complete q ≡ true))
  unfolding Effect
  completes p i d res q v h = elim (receive_block-Effect sha1 p i d res q v h) [
    | inl (e, r) ↦ inl (ap is_complete e, r)
    | inr (inl (a, w, _, _)) ↦ inl (w, inl a)
    | inr (inr (inl (buf, a, _, _, w, _))) ↦ inl (w, inl a)
    | inr (inr (inr (buf, a, l, c, n, m))) ↦ inr (buf, a, l, c, n)
  ]

  -- What `receive_block` leaves: a valid manager, in which no complete piece is lost and a piece that is
  -- newly complete is the one returned, whole and verified.
  unfoldable pub Step :
      PieceManager → BlockRange → Result Error (Option CompletedPiece) → PieceManager → Type 0
  Step m range res n =
      IsValid n
      × (length n.pieces ≡ length m.pieces)
      × (((i : ℕ) (p q : Piece)
              → get_elem? m.pieces i ≡ some p
              → get_elem? n.pieces i ≡ some q
              → is_complete q ≡ is_complete p)
            × ((res ≡ ok none) ⊎ ((e : Error) × (res ≡ err e)))
          ⊎ (c : CompletedPiece) × (p : Piece) × (res ≡ ok (some c))
            × (get_elem? m.pieces range.piece_index ≡ some p)
            × (c.range ≡ record { piece_index = range.piece_index; piece_offset = 0; len = p.len })
            × (length c.data_bytes ≡ p.len)
            × (sha1 c.data_bytes ≡ p.expected_hash)
            × Has n range.piece_index
            × ((i : ℕ) → Has m i → Has n i))

  -- A piece put in the place of one, with the bitfield's bit for it.
  put-IsValid :
      (m : PieceManager) (i : ℕ) (p q : Piece) (b : Bitfield)
      → IsValid m
      → get_elem? m.pieces i ≡ some p
      → PieceLaws.IsValid q
      → Laws.IsValid b
      → b.pieces ≡ m.bitfield.pieces
      → ((j : ℕ) → has_bit b j ≡ (if i == j then ok (is_complete q) else has_bit m.bitfield j))
      → IsValid (record { pieces = set m.pieces i q; bitfield = b })
  put-IsValid m i p q b v g w bits count agree = record {
    each = λ j r h. elim (get_elem?-set-cases m.pieces i j q r h) [
      | inl (_, f) ↦ subst PieceLaws.IsValid (sym f) w
      | inr (_, f) ↦ v.each j r f
    ];
    bits = bits;
    bit_count = omega (arith, count, v.bit_count, length-set m.pieces i q);
    agree = λ j r h. elim (get_elem?-set-cases m.pieces i j q r h) [
      | inl (e, f) ↦ ground (arith, agree j, ap is_complete f)
      | inr (e, f) ↦ ground (arith, agree j, v.agree j r f)
    ];
  }

  same_complete :
      (m : PieceManager) (i : ℕ) (p q : Piece)
      → get_elem? m.pieces i ≡ some p
      → is_complete q ≡ is_complete p
      → (j : ℕ) (s t : Piece) → get_elem? m.pieces j ≡ some s
      → get_elem? (set m.pieces i q) j ≡ some t
      → is_complete t ≡ is_complete s
  same_complete m i p q g c j s t h k = elim (get_elem?-set-cases m.pieces i j q t k) [
    | inl (e, f) ↦
        ap is_complete f ∙ c ∙ ap is_complete (some_inj (sym g ∙ ap (get_elem? m.pieces) e ∙ h))
    | inr (_, f) ↦ ap is_complete (some_inj (sym f ∙ h))
  ]

  unchanged :
      (m : PieceManager) (range : BlockRange) (p q : Piece)
      (res : Result Error (Option CompletedPiece))
      → IsValid m
      → get_elem? m.pieces range.piece_index ≡ some p
      → PieceLaws.IsValid q
      → is_complete q ≡ is_complete p
      → (res ≡ ok none) ⊎ ((e : Error) × (res ≡ err e))
      → Step m range res (record m { pieces = set m.pieces range.piece_index q })
  unfolding Step
  unchanged m range p q res v g w c r = (
    put-IsValid m range.piece_index p q m.bitfield v g w v.bits refl
        (λ j. ground (arith, v.agree range.piece_index p g, c, ==_iff range.piece_index j)),
    length-set m.pieces range.piece_index q,
    inl (same_complete m range.piece_index p q g c, r),
  )

  gained :
      (m : PieceManager) (i : ℕ) (q : Piece)
      → i < length m.pieces
      → is_complete q ≡ true
      → (j : ℕ) → Has m j ⊎ (i ≡ j)
      → (b : Bitfield) → Has (record { pieces = set m.pieces i q; bitfield = b }) j
  unfolding Has
  gained m i q l c j h b = elim (Bool-cases (i == j)) [
    | inl e ↦ (
      q,
      ap (get_elem? (set m.pieces i q)) (sym ((==_iff i j).0 e))
          ∙ get_elem?-set_self m.pieces i q l,
      c,
    )
    | inr e ↦ elim h [
      | inl (p, f, d) ↦ (p, get_elem?-set_ne m.pieces i j q (ground (arith, e)) ∙ f, d)
      | inr f ↦ absurd (ground (arith, e, f))
    ]
  ]

  complete_some :
      (m : PieceManager) (i : ℕ) (buf : Bytes) (b : Bitfield)
      → set_bit m.bitfield i ≡ ok b
      → complete_piece i (ok (some buf)) m ≡ (
        ok (
            some (record {
              range = record { piece_index = i; piece_offset = 0; len = length buf };
              data_bytes = buf;
            })),
        record m { bitfield = b },
      )
  unfolding complete_piece
  complete_some m i buf b e = ground (arith, e)

  pub stored :
      (m : PieceManager) (range : BlockRange) (d : Bytes) (p : Piece)
      (res : Result Error (Option Bytes)) (q : Piece)
      → IsValid m
      → get_elem? m.pieces range.piece_index ≡ some p
      → PieceLaws.IsValid q
      → Piece.receive_block sha1 (range.piece_offset / block_size) d p ≡ done (res, q)
      → (out : Result Error (Option CompletedPiece)) × (n : PieceManager) × (complete_piece
            range.piece_index res
            (record m { pieces = set m.pieces range.piece_index q })
          ≡ (out, n))
        × Step m range out n
  unfolding complete_piece Step
  stored m range d p res q v g w h =
      elim (completes p (range.piece_offset / block_size) d res q (v.each range.piece_index p g)
        h) [
          | inl (c, inl a) ↦ (_, _, rw a refl, unchanged m range p q _ v g w c (inl refl))
          | inl (c, inr (e, a)) ↦ (_, _, rw a refl, unchanged m range p q _ v g w c (inr (e, refl)))
          | inr (buf, a, l, s, c) ↦
              let below = lt_of_get_elem? m.pieces range.piece_index p g in
              let (b, e) =
                set_bit_succeeds m.bitfield range.piece_index (omega (arith, v.bit_count, below)) in
              let (valid, count) = set_bit-IsValid m.bitfield range.piece_index b v.bits e in
              (
                _,
                _,
                rw a (
                    complete_some (record m { pieces = set m.pieces range.piece_index q })
                      range.piece_index buf b e),
                (
                  put-IsValid m range.piece_index p q b v g w valid count (λ j.
                      has_bit-set_bit m.bitfield range.piece_index b v.bits j e
                      ∙ ap (λ t. if range.piece_index == j then ok t else has_bit m.bitfield j)
                          (sym c)),
                  length-set m.pieces range.piece_index q,
                  inr (
                    _,
                    p,
                    refl,
                    g,
                    ap (λ k. record { piece_index = range.piece_index; piece_offset = 0; len = k })
                        l,
                    l,
                    s,
                    gained m range.piece_index q below c range.piece_index (inr refl) b,
                    λ j h. gained m range.piece_index q below c j (inl h) b,
                  ),
                ),
              )
        ]

-- A range that may be uploaded lies in a complete piece, is not empty, and is one block at most.
pub valid_upload_range-within :
    (m : PieceManager) (range : BlockRange)
    → valid_upload_range m range ≡ true
    → (p : Piece) × (get_elem? m.pieces range.piece_index ≡ some p)
      × (is_complete p ≡ true)
      × (range.piece_offset + range.len ≤ p.len)
      × (0 < range.len)
      × (range.len ≤ block_size)
unfolding valid_upload_range
valid_upload_range-within m range h = elim (Option-cases (get_elem? m.pieces range.piece_index)) [
  | inl g ↦ absurd (ground (arith, g))
  | inr (p, g) ↦ (p, g, ground (arith, g), ground (arith, g), ground (arith, g), ground (arith, g))
]
