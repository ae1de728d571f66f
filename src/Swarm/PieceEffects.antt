-- ===== src/Swarm/PieceEffects.antt =====
-- What a block does to a piece, seen from outside: the blocks held, the verified piece, the blocks
-- still to request.
use tortue.Prelude.{
  ℕ, zero, suc, Bytes, List, [], ◌∷◌, Bool, true, false, Option, none, some, Result, ok, err, done,
  length, get_elem?, set, ◌≡◌, ap, sym, ◌∙◌, refl, ◌⊎◌, inl, inr, lt_of_get_elem?, ◌≢◌,
  get_elem?-set_self, get_elem?-set_ne, subst,
}
use tortue.Swarm.Piece.{
  Error, BlockState, missing, received, PieceState, partial, complete, Piece, is_complete, clear,
  receive_block,
}
use tortue.Swarm.PieceLaws.{IsValid}
use tortue.Swarm.PieceReceive.{in_progress, Ends, Receives, receive_block_cases}

abbrev contents : Option BlockState → Option Bytes
contents (some (received d)) = some d
contents _ = none

abbrev held_in : PieceState → ℕ → Option Bytes
held_in (partial bs r) i = contents (get_elem? bs i)
held_in complete i = none

-- The bytes of block `i`, where a piece in progress has them.
unfoldable pub held : Piece → ℕ → Option Bytes
held p i = held_in p.state i

abbrev complete_in : PieceState → Bool
complete_in (partial bs r) = false
complete_in complete = true

done_inj {ℓ} : {A : Type ℓ} {a b : A} → done a ≡ done b → a ≡ b
done_inj h = cc

contents-clear : (bs : List BlockState) (j : ℕ) → contents (get_elem? (clear bs) j) ≡ none
contents-clear [] j = refl
contents-clear (b ∷ bs) zero = refl
contents-clear (b ∷ bs) (suc j) = contents-clear bs j

module _ (sha1 : Bytes → Bytes) where
  -- The four ways that a piece takes a block.
  unfoldable pub Effect : Piece → ℕ → Bytes → Result Error (Option Bytes) → Piece → Type 0
  Effect p i d res q =
      ((q ≡ p) × ((res ≡ ok none) ⊎ ((e : Error) × (res ≡ err e))))
      ⊎ ((res ≡ ok none)
          × (is_complete q ≡ is_complete p)
          × (held q i ≡ some d)
          × ((j : ℕ) → i ≢ j → held q j ≡ held p j))
      ⊎ ((buf : Bytes) × (res ≡ ok none)
          × (length buf ≡ p.len)
          × (sha1 buf ≢ p.expected_hash)
          × (is_complete q ≡ is_complete p)
          × ((j : ℕ) → held q j ≡ none))
      ⊎ ((buf : Bytes) × (res ≡ ok (some buf))
          × (length buf ≡ p.len)
          × (sha1 buf ≡ p.expected_hash)
          × (is_complete q ≡ true)
          × (is_complete p ≡ false))

  Effect-of_cases :
      (n : ℕ) (hash : Bytes) (bs : List BlockState) (r i : ℕ) (d : Bytes)
      (res : Result Error (Option Bytes)) (q : Piece)
      → Receives sha1 (in_progress n hash bs r) bs r i d res q
      → Effect (in_progress n hash bs r) i d res q
  unfolding Receives Effect Ends held is_complete
  Effect-of_cases n hash bs r i d res q out = elim out [
    | inl (_, a, e) ↦ inl (e, inr (_, a))
    | inr (inl (_, a, e)) ↦ inl (e, inr (_, a))
    | inr (inr (inl (_, _, a, e))) ↦ inl (e, inl a)
    | inr (inr (inr (g, _, (o, a, inl (l, b, e))))) ↦ inr (
        inl (
          a ∙ ap ok b,
          ap complete_in e,
          ap (λ s. held_in s i) e
              ∙ ap contents (get_elem?-set_self bs i (received d) (lt_of_get_elem? bs i missing g)),
          λ j h. ap (λ s. held_in s j) e ∙ ap contents (get_elem?-set_ne bs i j (received d) h),
        ))
    | inr (inr (inr (g, _, (o, a, inr (buf, f, l, inl (v, b, e)))))) ↦
        inr (inr (inr (buf, a ∙ ap ok b, l, v, ap complete_in e, refl)))
    | inr (inr (inr (g, _, (o, a, inr (buf, f, l, inr (v, b, e)))))) ↦ inr (
        inr (
          inl (
            buf,
            a ∙ ap ok b,
            l,
            v,
            ap complete_in e,
            λ j. ap (λ s. held_in s j) e ∙ contents-clear (set bs i (received d)) j,
          )))
  ]

  Effect-at :
      (n : ℕ) (hash : Bytes) (s : PieceState) (i : ℕ) (d : Bytes)
      (res : Result Error (Option Bytes)) (q : Piece)
      → IsValid (record { len = n; expected_hash = hash; state = s })
      → receive_block sha1 i d (record { len = n; expected_hash = hash; state = s }) ≡ done (res, q)
      → Effect (record { len = n; expected_hash = hash; state = s }) i d res q
  unfolding IsValid receive_block Effect
  Effect-at n hash complete i d res q v h =
      inl (ap (λ x. x.1) (sym (done_inj h)), inl (ap (λ x. x.0) (sym (done_inj h))))
  Effect-at n hash (partial bs r) i d res q v h =
      let (res', q', e, same, out) = receive_block_cases sha1 n hash bs r i d v in
      subst (λ x. Effect (in_progress n hash bs r) i d x.0 x.1) (done_inj (sym e ∙ h))
        (Effect-of_cases n hash bs r i d res' q' out)

  pub receive_block-Effect :
      (p : Piece) (i : ℕ) (d : Bytes) (res : Result Error (Option Bytes)) (q : Piece)
      → IsValid p
      → receive_block sha1 i d p ≡ done (res, q)
      → Effect p i d res q
  receive_block-Effect p i d res q v h = Effect-at p.len p.expected_hash p.state i d res q v h

  -- Where a valid piece returns a buffer, the buffer has the piece's length and hash, and the
  -- piece, incomplete before, is complete.
  pub receive_block-verified :
      (p : Piece) (i : ℕ) (d : Bytes) (buf : Bytes) (q : Piece)
      → IsValid p
      → receive_block sha1 i d p ≡ done (ok (some buf), q)
      → (sha1 buf ≡ p.expected_hash)
        × (length buf ≡ p.len)
        × (is_complete p ≡ false)
        × (is_complete q ≡ true)
  unfolding Effect
  receive_block-verified p i d buf q v h = elim (receive_block-Effect p i d _ q v h) [
    | inl (_, inl e) ↦ absurd (cc)
    | inl (_, inr (_, e)) ↦ absurd (cc)
    | inr (inl (e, _, _, _)) ↦ absurd (cc)
    | inr (inr (inl (_, e, _, _, _, _))) ↦ absurd (cc)
    | inr (inr (inr (b, e, l, k, c, n))) ↦
        let same : b ≡ buf = cc in (ap sha1 (sym same) ∙ k, ap length (sym same) ∙ l, n, c)
  ]

  -- Another block of a valid piece than the one received is left as it was, unless the piece is now
  -- complete, or the block is dropped, a buffer of the piece's length having another hash.
  pub held-receive_block :
      (p : Piece) (i j : ℕ) (d : Bytes) (res : Result Error (Option Bytes)) (q : Piece)
      → IsValid p
      → i ≢ j
      → receive_block sha1 i d p ≡ done (res, q)
      → (held q j ≡ held p j)
        ⊎ (is_complete q ≡ true)
        ⊎ ((buf : Bytes) × (length buf ≡ p.len) × (sha1 buf ≢ p.expected_hash) × (held q j ≡ none))
  unfolding Effect
  held-receive_block p i j d res q v n h = elim (receive_block-Effect p i d res q v h) [
    | inl (e, _) ↦ inl (ap (λ x. held x j) e)
    | inr (inl (_, _, _, k)) ↦ inl (k j n)
    | inr (inr (inl (buf, _, l, k, _, e))) ↦ inr (inr (buf, l, k, e j))
    | inr (inr (inr (_, _, _, _, c, _))) ↦ inr (inl c)
  ]
