-- ===== src/Bencode/Keys.antt =====
-- The order on keys, and dictionaries built by insertion.
use tortue.Prelude.{◌^◌, ◌<◌, Bytes, [], ◌∷◌, ◌≡◌, refl, ap, arith, length, ◌⊎◌, inl, inr}
use tortue.Bencode.Value.{
  Bencode, Entries, no_entries, entry, cmp, insert, AllKeys, IsSorted, WellFormed,
  WellFormedEntries,
}
use Prim.Native.Nat.{Ordering}

pub cmp_flip : (s t : Bytes) → cmp s t ≡ Ordering.lt → cmp t s ≡ Ordering.gt
unfolding cmp
cmp_flip [] [] h = ground arith
cmp_flip [] (b ∷ t) h = refl
cmp_flip (a ∷ s) [] h = ground arith
cmp_flip (a ∷ s) (b ∷ t) h = ground (arith, cmp_flip s t)

pub cmp_flip_gt : (s t : Bytes) → cmp s t ≡ Ordering.gt → cmp t s ≡ Ordering.lt
unfolding cmp
cmp_flip_gt [] [] h = ground arith
cmp_flip_gt [] (b ∷ t) h = ground arith
cmp_flip_gt (a ∷ s) [] h = refl
cmp_flip_gt (a ∷ s) (b ∷ t) h = ground (arith, cmp_flip_gt s t)

pub cmp-eq : (s t : Bytes) → cmp s t ≡ Ordering.eq → s ≡ t
unfolding cmp
cmp-eq [] [] h = refl
cmp-eq [] (b ∷ t) h = ground arith
cmp-eq (a ∷ s) [] h = ground arith
cmp-eq (a ∷ s) (b ∷ t) h = ground (arith, cmp-eq s t)

pub cmp_trans :
    (s t u : Bytes) → cmp s t ≡ Ordering.lt → cmp t u ≡ Ordering.lt → cmp s u ≡ Ordering.lt
unfolding cmp
cmp_trans [] [] u h k = ground arith
cmp_trans [] (b ∷ t) [] h k = ground arith
cmp_trans [] (b ∷ t) (c ∷ u) h k = refl
cmp_trans (a ∷ s) [] u h k = ground arith
cmp_trans (a ∷ s) (b ∷ t) [] h k = ground arith
cmp_trans (a ∷ s) (b ∷ t) (c ∷ u) h k = ground (arith, cmp_trans s t u)

unfoldable pub append : Entries → Entries → Entries
append no_entries fs = fs
append (entry k v es) fs = entry k v (append es fs)

pub append-entry :
    (es : Entries) (k : Bytes) (v : Bencode) (fs : Entries)
    → append (append es (entry k v no_entries)) fs ≡ append es (entry k v fs)
unfolding append
append-entry no_entries k v fs = refl
append-entry (entry j w es) k v fs = ap (entry j w) (append-entry es k v fs)

-- A key above all others is inserted at the end.
pub insert_last :
    (k : Bytes) (v : Bencode) (es : Entries)
    → AllKeys (λ j. cmp k j ≡ Ordering.gt) es
    → insert k v es ≡ append es (entry k v no_entries)
unfolding insert append
insert_last k v no_entries h = refl
insert_last k v (entry j w es) h = ground (arith, insert_last k v es h.1)

pub AllKeys-append :
    (P : Bytes → Type 0) (es fs : Entries) → AllKeys P es → AllKeys P fs → AllKeys P (append es fs)
unfolding append
AllKeys-append P no_entries fs h k = k
AllKeys-append P (entry j v es) fs h k = (h.0, AllKeys-append P es fs h.1 k)

AllKeys-map :
    (P Q : Bytes → Type 0) (es : Entries) → ((j : Bytes) → P j → Q j) → AllKeys P es → AllKeys Q es
AllKeys-map P Q no_entries f h = tt
AllKeys-map P Q (entry j v es) f h = (f j h.0, AllKeys-map P Q es f h.1)

AllKeys-insert :
    (P : Bytes → Type 0) (k : Bytes) (v : Bencode) (es : Entries)
    → P k
    → AllKeys P es
    → AllKeys P (insert k v es)
unfolding insert
AllKeys-insert P k v no_entries p h = (p, tt)
AllKeys-insert P k v (entry j w es) p h =
    elim (cmp k j)
      as (λ o. AllKeys P (elim o [
        | Ordering.lt ↦ entry k v (entry j w es)
        | Ordering.gt ↦ entry j w (insert k v es)
        | Ordering.eq ↦ entry j v es
      ])) [
        | Ordering.lt ↦ (p, (h.0, h.1))
        | Ordering.gt ↦ (h.0, AllKeys-insert P k v es p h.1)
        | Ordering.eq ↦ (h.0, h.1)
      ]

Ordering-cases : (o : Ordering) → (o ≡ Ordering.lt) ⊎ ((o ≡ Ordering.gt) ⊎ (o ≡ Ordering.eq))
Ordering-cases Ordering.lt = inl refl
Ordering-cases Ordering.gt = inr (inl refl)
Ordering-cases Ordering.eq = inr (inr refl)

-- An insertion keeps the keys strictly ascending.
pub insert-IsSorted :
    (k : Bytes) (v : Bencode) (es : Entries) → IsSorted es → IsSorted (insert k v es)
unfolding insert
insert-IsSorted k v no_entries h = (tt, tt)
insert-IsSorted k v (entry j w es) h = elim (Ordering-cases (cmp k j)) [
  | inl e ↦ rw (e, insert) ((e, AllKeys-map _ _ es (λ i. cmp_trans k j i e) h.0), h)
  | inr (inl e) ↦
      rw (e, insert) (AllKeys-insert _ k v es (cmp_flip_gt k j e) h.0, insert-IsSorted k v es h.1)
  | inr (inr e) ↦ rw (e, insert) h
]

pub insert-WellFormed :
    (k : Bytes) (v : Bencode) (es : Entries)
    → length k < 2 ^ 64
    → WellFormed v
    → WellFormedEntries es
    → WellFormedEntries (insert k v es)
unfolding insert WellFormed
insert-WellFormed k v no_entries hk hv h = (hk, hv, tt)
insert-WellFormed k v (entry j w es) hk hv h = elim (Ordering-cases (cmp k j)) [
  | inl e ↦ rw (e, insert) (hk, hv, h)
  | inr (inl e) ↦ rw (e, insert) (h.0, h.1, insert-WellFormed k v es hk hv h.2)
  | inr (inr e) ↦ rw (e, insert) (h.0, hv, h.2)
]
