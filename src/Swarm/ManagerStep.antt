-- ===== src/Swarm/ManagerStep.antt =====
-- `PieceManager::receive_block`: what a caller may rely on.
use tortue.Prelude.{
  ℕ, Bytes, Option, some, Result, ok, done, length, get_elem?, ◌≡◌, sym, ◌∙◌, ap, subst, inl, inr,
  get_elem?-in_range, lt_of_get_elem?, arith,
}
use tortue.Net.{BlockRange}
use tortue.Swarm.Piece.{Piece, Error}
use tortue.Swarm.Manager.{CompletedPiece, PieceManager, receive_block}
use tortue.Swarm.ManagerLaws.{IsValid, Has, Step}
use tortue.Swarm.ManagerReceive.{receive_block-Step}

done_inj {ℓ} : {A : Type ℓ} {a b : A} → done a ≡ done b → a ≡ b
done_inj h = cc

module _ (sha1 : Bytes → Bytes) (m : PieceManager) (range : BlockRange) (d : Bytes) where
  -- On a valid manager `receive_block` never panics, whatever the block, and leaves a valid manager
  -- of as many pieces.
  pub receive_block-IsValid :
      IsValid m
      → (res : Result Error (Option CompletedPiece)) × (n : PieceManager) × (receive_block sha1
            range d m
          ≡ done (res, n))
        × IsValid n
        × (length n.pieces ≡ length m.pieces)
  unfolding Step
  receive_block-IsValid v =
      let (res, n, e, s) = receive_block-Step sha1 m range d v in (res, n, e, s.0, s.1)

  module _ (res : Result Error (Option CompletedPiece)) (n : PieceManager) where
    Step-of : IsValid m → receive_block sha1 range d m ≡ done (res, n) → Step sha1 m range res n
    Step-of v h =
        let (r, k, e, s) = receive_block-Step sha1 m range d v in
        subst (λ x. Step sha1 m range x.0 x.1) (done_inj (sym e ∙ h)) s

    -- No block takes a complete piece back: what a valid manager has, it has after any
    -- `receive_block`.
    pub receive_block-Has :
        (i : ℕ) → IsValid m → receive_block sha1 range d m ≡ done (res, n) → Has m i → Has n i
    unfolding Step Has
    receive_block-Has i v h (p, g, c) =
        let (_, l, cases) = Step-of v h in
        elim cases [
          | inl (same, _) ↦
              let (q, k) =
                get_elem?-in_range n.pieces i (omega (arith, l, lt_of_get_elem? m.pieces i p g)) in
              (q, k, same i p q g k ∙ c)
          | inr (_, _, _, _, _, _, _, _, k) ↦ k i (p, g, c)
        ]

  -- A piece that a valid manager reports as completed is the one that the block belongs to, whole
  -- and of the torrent's hash, and the manager has it from then on.
  pub receive_block-completed :
      (c : CompletedPiece) (n : PieceManager)
      → IsValid m
      → receive_block sha1 range d m ≡ done (ok (some c), n)
      → (p : Piece) × (get_elem? m.pieces range.piece_index ≡ some p)
        × (c.range ≡ record { piece_index = range.piece_index; piece_offset = 0; len = p.len })
        × (length c.data_bytes ≡ p.len)
        × (sha1 c.data_bytes ≡ p.expected_hash)
        × Has n range.piece_index
  unfolding Step
  receive_block-completed c n v h =
      let (_, _, cases) = Step-of (ok (some c)) n v h in
      elim cases [
        | inl (_, inl e) ↦ absurd (cc)
        | inl (_, inr (_, e)) ↦ absurd (cc)
        | inr (k, p, e, g, r, l, f, has, _) ↦
            let same : k ≡ c = cc in
            (
              p,
              g,
              ap (λ x. x.range) (sym same) ∙ r,
              ap (λ x. length x.data_bytes) (sym same) ∙ l,
              ap (λ x. sha1 x.data_bytes) (sym same) ∙ f,
              has,
            )
      ]
