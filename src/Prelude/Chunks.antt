-- ===== src/Prelude/Chunks.antt =====
-- std's `chunks_exact`.
use package.tortue.Prelude.Lists.{
  All, length, take, drop, length-take, length-drop, take-append-drop,
}
use Prim.Native.Nat.{ℕ, zero, suc, ◌*◌, ◌/◌, ◌≤◌}
use mathlib.Core.Path.{◌≡◌, refl, ap, ◌∙◌}
use mathlib.Core.List.{List, [], ◌∷◌, ◌++◌}
use native.Mathlib.Omega.{arith}

-- `chunks_exact(n)`, with the number of whole chunks.
unfoldable pub chunks {ℓ} : {A : Type ℓ} → ℕ → ℕ → List A → List (List A)
chunks zero n s = []
chunks (suc rounds) n s = take n s ∷ chunks rounds n (drop n s)

unfoldable pub chunks_exact {ℓ} : {A : Type ℓ} → ℕ → List A → List (List A)
unfolding chunks
chunks_exact n s = chunks (length s / n) n s

abbrev pub flatten {ℓ} : {A : Type ℓ} → List (List A) → List A
flatten [] = []
flatten (xs ∷ xss) = xs ++ flatten xss

module _ {ℓ} {A : Type ℓ} where
  pub All-chunks :
      (rounds n : ℕ) (s : List A)
      → rounds * n ≤ length s
      → All (λ c. length c ≡ n) (chunks rounds n s)
  unfolding chunks
  All-chunks zero n s h = tt
  All-chunks (suc rounds) n s h = (
    omega (arith, length-take n s),
    All-chunks rounds n (drop n s) (omega (arith, length-drop n s)),
  )

  pub length-chunks : (rounds n : ℕ) (s : List A) → length (chunks rounds n s) ≡ rounds
  unfolding chunks
  length-chunks zero n s = refl
  length-chunks (suc rounds) n s = ap suc (length-chunks rounds n (drop n s))

  pub flatten-chunks :
      (rounds n : ℕ) (s : List A) → length s ≡ rounds * n → flatten (chunks rounds n s) ≡ s
  unfolding chunks
  flatten-chunks zero n [] h = refl
  flatten-chunks zero n (x ∷ s) h = absurd (omega arith)
  flatten-chunks (suc rounds) n s h =
      ap (λ t. take n s ++ t) (flatten-chunks rounds n (drop n s) (omega (arith, length-drop n s)))
      ∙ take-append-drop n s
