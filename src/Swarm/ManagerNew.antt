-- ===== src/Swarm/ManagerNew.antt =====
-- `PieceManager::new`: the pieces tile the torrent.
use tortue.Prelude.{
  all, not, true, ℕ, zero, suc, ◌+◌, ◌-◌, ◌*◌, ◌≤◌, Bytes, List, [], ◌∷◌, false, Option, some, ok,
  done, length, get_elem?, ◌≡◌, refl, sym, ◌∙◌, ap, subst, arith, lt_of_get_elem?,
}
use tortue.Bitfield
use tortue.Bitfield.{Bitfield, has_bit}
use tortue.Bitfield.Laws
use tortue.Bitfield.Laws.{new-IsValid, has_bit-new}
use tortue.Swarm.Piece
use tortue.Swarm.Piece.{Piece, is_complete}
use tortue.Swarm.PieceLaws
use tortue.Swarm.Manager.{PieceManager, has_no_piece, pieces_from, new}
use tortue.Swarm.ManagerLaws.{IsValid}

some_inj {ℓ} : {A : Type ℓ} {a b : A} → some a ≡ some b → a ≡ b
some_inj h = cc

-- Fresh pieces of these lengths in all.
unfoldable Fresh : List Bytes → List Piece → Type 0
Fresh [] [] = Unit {0}
Fresh (h ∷ hs) (p ∷ ps) = ((n : ℕ) × (p ≡ Piece.new h n) × (p.len ≡ n)) × Fresh hs ps
Fresh _ _ = ⊥

abbrev pub lens : List Piece → ℕ
lens [] = 0
lens (p ∷ ps) = p.len + lens ps

pieces_from_lem :
    (piece_length total i : ℕ) (h : Bytes) (hs : List Bytes)
    → (i + length hs) * piece_length ≤ total
    → (ps : List Piece) × (pieces_from piece_length total i (h ∷ hs) ≡ done ps)
      × Fresh (h ∷ hs) ps
      × (i * piece_length + lens ps ≡ total)
unfolding pieces_from Fresh Piece.new
pieces_from_lem piece_length total i h [] b = (
  Piece.new h (total - i * piece_length) ∷ [],
  ground (arith, b),
  ((_, refl, refl), tt),
  ground (arith, b),
)
pieces_from_lem piece_length total i h (k ∷ hs) b =
    let (ps, e, f, s) = pieces_from_lem piece_length total (i + 1) k hs (omega (arith, b)) in
    (Piece.new h piece_length ∷ ps, rw e refl, ((_, refl, refl), f), omega (arith, s))

length-Fresh : (hs : List Bytes) (ps : List Piece) → Fresh hs ps → length ps ≡ length hs
unfolding Fresh
length-Fresh [] [] f = refl
length-Fresh [] (p ∷ ps) f = absurd f
length-Fresh (h ∷ hs) [] f = absurd f
length-Fresh (h ∷ hs) (p ∷ ps) f = ap suc (length-Fresh hs ps f.1)

-- The piece at an index has the hash at that index, and nothing of it is there.
get_elem?-Fresh :
    (hs : List Bytes) (ps : List Piece) (i : ℕ) (p : Piece)
    → Fresh hs ps
    → get_elem? ps i ≡ some p
    → PieceLaws.IsValid p × (is_complete p ≡ false) × (get_elem? hs i ≡ some p.expected_hash)
unfolding Fresh is_complete Piece.new
get_elem?-Fresh hs [] i p f g = cc
get_elem?-Fresh [] (q ∷ ps) i p f g = absurd f
get_elem?-Fresh (h ∷ hs) (q ∷ ps) zero p ((n, e, _), _) g =
    subst
      (λ r.
        PieceLaws.IsValid r
        × (is_complete r ≡ false)
        × (◌≡◌ {A = Option Bytes} (some h) (some r.expected_hash)))
      (sym e ∙ some_inj g) (PieceLaws.new-IsValid h n, refl, refl)
get_elem?-Fresh (h ∷ hs) (q ∷ ps) (suc i) p f g = get_elem?-Fresh hs ps i p f.1 g

abbrev pub hashes : List Piece → List Bytes
hashes [] = []
hashes (p ∷ ps) = p.expected_hash ∷ hashes ps

hashes-Fresh : (hs : List Bytes) (ps : List Piece) → Fresh hs ps → hashes ps ≡ hs
unfolding Fresh Piece.new
hashes-Fresh [] [] f = refl
hashes-Fresh [] (p ∷ ps) f = absurd f
hashes-Fresh (h ∷ hs) [] f = absurd f
hashes-Fresh (h ∷ hs) (p ∷ ps) ((n, e, _), f) =
    ground (arith, ap (λ x. x.expected_hash) e, hashes-Fresh hs ps f)

none_complete :
    (hs : List Bytes) (ps : List Piece) → Fresh hs ps → all (λ p. not (is_complete p)) ps ≡ true
unfolding Fresh Piece.new is_complete
none_complete [] [] f = refl
none_complete [] (p ∷ ps) f = absurd f
none_complete (h ∷ hs) [] f = absurd f
none_complete (h ∷ hs) (p ∷ ps) ((n, e, _), f) =
    ground (arith, ap is_complete e, none_complete hs ps f)

-- Where the total size has room for a full piece for each hash but the last, `new` does not panic:
-- the manager is valid, its pieces have the torrent's hashes in order, their lengths add up to the
-- total size, and none is complete.
pub new_tiles :
    (h : Bytes) (hs : List Bytes) (piece_length total : ℕ)
    → length hs * piece_length ≤ total
    → (m : PieceManager) × (new (h ∷ hs) piece_length total ≡ done m)
      × IsValid m
      × (hashes m.pieces ≡ h ∷ hs)
      × (lens m.pieces ≡ total)
      × (has_no_piece m ≡ true)
unfolding new Bitfield.new has_no_piece
new_tiles h hs piece_length total b =
    let (ps, e, f, s) = pieces_from_lem piece_length total 0 h hs (omega (arith, b)) in
    let m : PieceManager = record { pieces = ps; bitfield = Bitfield.new (length (h ∷ hs)) } in
    (
      m,
      rw e refl,
      record {
        each = λ i p g. (get_elem?-Fresh (h ∷ hs) ps i p f g).0;
        bits = Laws.new-IsValid (length (h ∷ hs));
        bit_count = refl ∙ sym (length-Fresh (h ∷ hs) ps f);
        agree = λ i p g.
            has_bit-new (length (h ∷ hs)) i
              (omega (arith, length-Fresh (h ∷ hs) ps f, lt_of_get_elem? ps i p g))
            ∙ ap ok (sym (get_elem?-Fresh (h ∷ hs) ps i p f g).1);
      },
      hashes-Fresh (h ∷ hs) ps f,
      omega (arith, s),
      none_complete (h ∷ hs) ps f,
    )
