-- ===== src/Prelude/Lists.antt =====
-- Lists measured and indexed by native numbers, under the library's names.
use Prim.Native.Nat.{ℕ, zero, suc, ◌+◌, ◌-◌, ◌<◌, ◌≤◌, min}
use Prim.Native.Char.{code}
use Prim.Native.String.{String}
use mathlib.Core.Bool.{Bool, true, false, ◌&&◌}
use mathlib.Core.Path.{◌≡◌, refl, ap, subst, sym, ◌∙◌}
use mathlib.Core.Logic.{◌≢◌, ◌⊎◌, inl, inr}
use mathlib.Core.List.{List, [], ◌∷◌, ◌++◌}
use mathlib.Core.Option.{Option, none, some}
use native.Mathlib.Omega.{arith}

abbrev pub Bytes : Type 0
Bytes = List ℕ

-- The bytes of an ASCII literal.
abbrev pub codes : String → Bytes
codes String.[] = []
codes (String.◌∷◌ c s) = code c ∷ codes s

module _ {ℓ} {A : Type ℓ} where
  abbrev pub length : List A → ℕ
  length [] = 0
  length (x ∷ xs) = suc (length xs)

  abbrev pub get_elem? : List A → ℕ → Option A
  get_elem? [] i = none
  get_elem? (x ∷ xs) zero = some x
  get_elem? (x ∷ xs) (suc i) = get_elem? xs i

  -- A write out of bounds changes nothing.
  abbrev pub set : List A → ℕ → A → List A
  set [] i v = []
  set (x ∷ xs) zero v = v ∷ xs
  set (x ∷ xs) (suc i) v = x ∷ set xs i v

  abbrev pub get_or : List A → ℕ → A → A
  get_or [] i d = d
  get_or (x ∷ xs) zero d = x
  get_or (x ∷ xs) (suc i) d = get_or xs i d

  abbrev pub take : ℕ → List A → List A
  take zero xs = []
  take (suc n) [] = []
  take (suc n) (x ∷ xs) = x ∷ take n xs

  abbrev pub drop : ℕ → List A → List A
  drop zero xs = xs
  drop (suc n) [] = []
  drop (suc n) (x ∷ xs) = drop n xs

  abbrev pub replicate : ℕ → A → List A
  replicate zero a = []
  replicate (suc n) a = a ∷ replicate n a

  abbrev pub is_empty : List A → Bool
  is_empty [] = true
  is_empty (x ∷ xs) = false

  abbrev pub all : (A → Bool) → List A → Bool
  all p [] = true
  all p (x ∷ xs) = p x && all p xs

  abbrev pub All {κ} : (A → Type κ) → List A → Type κ
  All P [] = Unit {κ}
  All P (x ∷ xs) = P x × All P xs

  pub length-append : (xs ys : List A) → length (xs ++ ys) ≡ length xs + length ys
  length-append [] ys = omega arith
  length-append (x ∷ xs) ys = omega (arith, length-append xs ys)

  pub length-set : (xs : List A) (i : ℕ) (v : A) → length (set xs i v) ≡ length xs
  length-set [] i v = refl
  length-set (x ∷ xs) zero v = refl
  length-set (x ∷ xs) (suc i) v = ap suc (length-set xs i v)

  pub get_elem?-set_self :
      (xs : List A) (i : ℕ) (v : A) → i < length xs → get_elem? (set xs i v) i ≡ some v
  get_elem?-set_self [] i v h = elim h [ ]
  get_elem?-set_self (x ∷ xs) zero v h = refl
  get_elem?-set_self (x ∷ xs) (suc i) v h = get_elem?-set_self xs i v (omega arith)

  pub get_elem?-set_ne :
      (xs : List A) (i j : ℕ) (v : A) → i ≢ j → get_elem? (set xs i v) j ≡ get_elem? xs j
  get_elem?-set_ne [] i j v h = refl
  get_elem?-set_ne (x ∷ xs) zero zero v h = absurd (h refl)
  get_elem?-set_ne (x ∷ xs) zero (suc j) v h = refl
  get_elem?-set_ne (x ∷ xs) (suc i) zero v h = refl
  get_elem?-set_ne (x ∷ xs) (suc i) (suc j) v h = get_elem?-set_ne xs i j v (λ e. h (ap suc e))

  pub lt_of_get_elem? : (xs : List A) (i : ℕ) (v : A) → get_elem? xs i ≡ some v → i < length xs
  lt_of_get_elem? [] i v h = absurd (grind arith)
  lt_of_get_elem? (x ∷ xs) zero v h = omega arith
  lt_of_get_elem? (x ∷ xs) (suc i) v h = omega (arith, lt_of_get_elem? xs i v h)

  pub take-append-drop : (n : ℕ) (xs : List A) → take n xs ++ drop n xs ≡ xs
  take-append-drop zero xs = refl
  take-append-drop (suc n) [] = refl
  take-append-drop (suc n) (x ∷ xs) = ap (λ t. x ∷ t) (take-append-drop n xs)

  pub length-take : (n : ℕ) (xs : List A) → length (take n xs) ≡ min n (length xs)
  length-take zero xs = omega arith
  length-take (suc n) [] = omega arith
  length-take (suc n) (x ∷ xs) = omega (arith, length-take n xs)

  pub length-drop : (n : ℕ) (xs : List A) → length (drop n xs) ≡ length xs - n
  length-drop zero xs = omega arith
  length-drop (suc n) [] = omega arith
  length-drop (suc n) (x ∷ xs) = omega (arith, length-drop n xs)

  pub length-replicate : (n : ℕ) (a : A) → length (replicate n a) ≡ n
  length-replicate zero a = refl
  length-replicate (suc n) a = ap suc (length-replicate n a)

  pub take_all : (n : ℕ) (s : List A) → length s ≤ n → take n s ≡ s
  take_all zero [] h = refl
  take_all zero (x ∷ s) h = absurd (omega arith)
  take_all (suc n) [] h = refl
  take_all (suc n) (x ∷ s) h = ap (λ t. x ∷ t) (take_all n s (omega arith))

  pub drop_all : (n : ℕ) (s : List A) → length s ≤ n → drop n s ≡ []
  drop_all zero [] h = refl
  drop_all zero (x ∷ s) h = absurd (omega arith)
  drop_all (suc n) [] h = refl
  drop_all (suc n) (x ∷ s) h = drop_all n s (omega arith)

  -- Two numbers that are equal, or both reach the end.
  pub take_eq_of :
      (n m : ℕ) (s : List A) → (n ≡ m) ⊎ ((length s ≤ n) × (length s ≤ m)) → take n s ≡ take m s
  take_eq_of n m s (inl e) = ap (λ k. take k s) e
  take_eq_of n m s (inr (h, g)) = take_all n s h ∙ sym (take_all m s g)

  pub take-append :
      (n k : ℕ) (s t : List A) → k ≡ n - length s → take n (s ++ t) ≡ take n s ++ take k t
  take-append zero zero s t h = refl
  take-append zero (suc k) s t h = absurd (omega (arith, h))
  take-append (suc n) k [] t h = let e : suc n ≡ k = omega (arith, h) in ap (λ m. take m t) e
  take-append (suc n) k (x ∷ s) t h = ap (λ r. x ∷ r) (take-append n k s t (omega (arith, h)))

  pub drop-append :
      (n k : ℕ) (s t : List A) → k ≡ n - length s → drop n (s ++ t) ≡ drop n s ++ drop k t
  drop-append n k [] t h =
      let e : n ≡ k = omega (arith, h) in rw (drop_all n [] (omega arith)) (ap (λ m. drop m t) e)
  drop-append zero zero (x ∷ s) t h = refl
  drop-append zero (suc k) (x ∷ s) t h = absurd (omega (arith, h))
  drop-append (suc n) k (x ∷ s) t h = drop-append n k s t (omega (arith, h))

  pub take_append_left : (xs ys : List A) → take (length xs) (xs ++ ys) ≡ xs
  take_append_left [] ys = refl
  take_append_left (x ∷ xs) ys = ap (λ t. x ∷ t) (take_append_left xs ys)

  pub drop_append_left : (xs ys : List A) → drop (length xs) (xs ++ ys) ≡ ys
  drop_append_left [] ys = refl
  drop_append_left (x ∷ xs) ys = drop_append_left xs ys

  pub drop-drop : (n k m : ℕ) (s : List A) → m ≡ n + k → drop k (drop n s) ≡ drop m s
  drop-drop zero k m s h = ap (λ i. drop i s) (omega (arith, h))
  drop-drop (suc n) k zero s h = absurd (omega arith)
  drop-drop (suc n) zero (suc m) [] h = refl
  drop-drop (suc n) (suc k) (suc m) [] h = refl
  drop-drop (suc n) k (suc m) (x ∷ s) h = drop-drop n k m s (omega arith)

  pub take_exactly : (n : ℕ) (xs ys : List A) → length xs ≡ n → take n (xs ++ ys) ≡ xs
  take_exactly n xs ys h = subst (λ m. take m (xs ++ ys) ≡ xs) h (take_append_left xs ys)

  pub drop_exactly : (n : ℕ) (xs ys : List A) → length xs ≡ n → drop n (xs ++ ys) ≡ ys
  drop_exactly n xs ys h = subst (λ m. drop m (xs ++ ys) ≡ ys) h (drop_append_left xs ys)

  pub get_elem?-in_range :
      (xs : List A) (i : ℕ) → i < length xs → (v : A) × (get_elem? xs i ≡ some v)
  get_elem?-in_range [] i h = elim h [ ]
  get_elem?-in_range (x ∷ xs) zero h = (x, refl)
  get_elem?-in_range (x ∷ xs) (suc i) h = get_elem?-in_range xs i (omega arith)

  pub get_elem?-set-cases :
      (xs : List A) (i j : ℕ) (v r : A)
      → get_elem? (set xs i v) j ≡ some r
      → ((i ≡ j) × (r ≡ v)) ⊎ ((i ≢ j) × (get_elem? xs j ≡ some r))
  get_elem?-set-cases [] i j v r h = absurd (cc)
  get_elem?-set-cases (x ∷ xs) zero zero v r h = inl (refl, cc)
  get_elem?-set-cases (x ∷ xs) zero (suc j) v r h = inr (omega arith, h)
  get_elem?-set-cases (x ∷ xs) (suc i) zero v r h = inr (omega arith, h)
  get_elem?-set-cases (x ∷ xs) (suc i) (suc j) v r h = elim (get_elem?-set-cases xs i j v r h) [
    | inl (e, f) ↦ inl (ap suc e, f)
    | inr (n, f) ↦ inr (omega arith, f)
  ]
