-- ===== src/Swarm/ManagerReceive.antt =====
-- `PieceManager::receive_block` on every branch.
use tortue.Prelude.{
  ◌/◌, ◌%◌, Bytes, Option, Result, err, done, ◌==◌, length, get_elem?, ◌≡◌, refl, sym, ◌∙◌, ap,
  arith, inl, inr, Bool-cases, Option-cases,
}
use tortue.Net.{block_size, BlockRange}
use tortue.Swarm.Piece.{
  Error, invalid_block_size, invalid_piece_index, unaligned_block_offset, is_complete,
}
use tortue.Swarm.PieceReceive.{receive_block_total}
use tortue.Swarm.Manager.{CompletedPiece, PieceManager, receive_block}
use tortue.Swarm.ManagerLaws.{IsValid, Step, stored, some_inj}

module _ (sha1 : Bytes → Bytes) where
  refused :
      (m : PieceManager) (range : BlockRange) (e : Error) → IsValid m → Step sha1 m range (err e) m
  unfolding Step
  refused m range e v =
      (v, refl, inl (λ j s t h k. ap is_complete (some_inj (sym k ∙ h)), inr (e, refl)))

  -- `receive_block` never panics on a valid manager, and does what `Step` says.
  pub receive_block-Step :
      (m : PieceManager) (range : BlockRange) (d : Bytes)
      → IsValid m
      → (res : Result Error (Option CompletedPiece)) × (n : PieceManager) × (receive_block sha1
            range d m
          ≡ done (res, n))
        × Step sha1 m range res n
  unfolding receive_block
  receive_block-Step m range d v = elim (Bool-cases (length d == range.len)) [
    | inr a ↦
        (err (invalid_block_size range.len (length d)), m, ground (arith, a), refused m range _ v)
    | inl a ↦ elim (Bool-cases (range.piece_offset % block_size == 0)) [
      | inr b ↦ (
        err (unaligned_block_offset range.piece_offset),
        m,
        ground (arith, a, b),
        refused m range _ v,
      )
      | inl b ↦ elim (Option-cases (get_elem? m.pieces range.piece_index)) [
        | inl g ↦ (
          err (invalid_piece_index range.piece_index),
          m,
          ground (arith, a, b, g),
          refused m range _ v,
        )
        | inr (p, g) ↦
            let (res, q, e, _, w) =
              receive_block_total sha1 p (range.piece_offset / block_size) d
                (v.each range.piece_index p g) in
            let (out, n, f, step) = stored sha1 m range d p res q v g w e in
            (out, n, ground (arith, a, b, g, e, f), step)
      ]
    ]
  ]
