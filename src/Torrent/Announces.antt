-- ===== src/Torrent/Announces.antt =====
-- The tracker addresses of a torrent: `parse_announces` against its description.
use tortue.Prelude.{
  Bytes, List, [], ◌∷◌, ◌++◌, true, false, ◌||◌, if◌then◌else◌, ok, ◌>>=◌, >>=-congr, map_err,
  codes, bytes_eq, bytes_beq, bytes_beq_iff, ◌≡◌, refl, sym, ap, ◌∙◌, arith, append_assoc,
  append-nil, Bool-cases, inl, inr,
}
use tortue.Prelude.Chunks.{flatten}
use tortue.Prelude.Dict.{contains, discard}
use tortue.Bencode.Value.{Bencode}
use tortue.Bencode.Access.{get_utf8, get_list}
use tortue.Torrent.{bencode}
use tortue.Torrent.Parse.{Announces, visit, visit_all, merged, tiers_of, parse_announces}

-- The first occurrence of each item, in order.
unfoldable pub first_occurrences : List Bytes → List Bytes
first_occurrences [] = []
first_occurrences (x ∷ xs) = x ∷ discard x (first_occurrences xs)

without : List Bytes → List Bytes → List Bytes
without seen [] = []
without seen (x ∷ xs) = let rest = without seen xs in if contains x seen then rest else x ∷ rest

without_none : (xs : List Bytes) → without [] xs ≡ xs
unfolding without
without_none [] = refl
without_none (x ∷ xs) = ap (λ t. x ∷ t) (without_none xs)

without-discard :
    (u : Bytes) (seen xs : List Bytes)
    → contains u seen ≡ true
    → without seen (discard u xs) ≡ without seen xs
unfolding without
without-discard u seen [] h = refl
without-discard u seen (x ∷ xs) h =
    ground (arith, h, bytes_beq_iff x u, without-discard u seen xs h)

contains-snoc :
    (x u : Bytes) (seen : List Bytes)
    → contains x (seen ++ u ∷ []) ≡ (contains x seen || bytes_beq u x)
contains-snoc x u [] = ground arith
contains-snoc x u (s ∷ seen) = ground (arith, contains-snoc x u seen)

without-snoc :
    (u : Bytes) (seen xs : List Bytes) → without (seen ++ u ∷ []) xs ≡ without seen (discard u xs)
unfolding without
without-snoc u seen [] = refl
without-snoc u seen (x ∷ xs) =
    ground
      (arith, bytes_beq_iff x u, bytes_beq_iff u x, contains-snoc x u seen, without-snoc u seen xs)

visit_seen : (u : Bytes) (a : Announces) → contains u a.seen ≡ true → visit u a ≡ a
unfolding visit
visit_seen u a h = rw h refl

abbrev extended : Bytes → Announces → Announces
extended u a = record { seen = a.seen ++ u ∷ []; announces = a.announces ++ u ∷ [] }

visit_new : (u : Bytes) (a : Announces) → contains u a.seen ≡ false → visit u a ≡ extended u a
unfolding visit
visit_new u a h = rw h refl

visit_all-without :
    (urls : List Bytes) (a : Announces)
    → (visit_all urls a).announces ≡ a.announces ++ without a.seen (first_occurrences urls)
unfolding visit_all without first_occurrences
visit_all-without [] a = sym (append-nil a.announces)
visit_all-without (u ∷ urls) a = elim (Bool-cases (contains u a.seen)) [
  | inl e ↦ rw e (
      ap (λ b. (visit_all urls b).announces) (visit_seen u a e)
      ∙ visit_all-without urls a
      ∙ ap (λ t. a.announces ++ t) (sym (without-discard u a.seen (first_occurrences urls) e)))
  | inr e ↦ rw e (
      ap (λ b. (visit_all urls b).announces) (visit_new u a e)
      ∙ visit_all-without urls (extended u a)
      ∙ append_assoc a.announces (u ∷ []) (without (extended u a).seen (first_occurrences urls))
      ∙ ap (λ t. a.announces ++ u ∷ t) (without-snoc u a.seen (first_occurrences urls)))
]

merged-first_occurrences :
    (main : Bytes) (tiers : List (List Bytes))
    → merged main tiers ≡ first_occurrences (main ∷ flatten tiers)
unfolding first_occurrences visit_all merged
merged-first_occurrences main tiers =
    visit_all-without (flatten tiers) (record { seen = main ∷ []; announces = main ∷ [] })
    ∙ ap (λ t. main ∷ t)
        (without-snoc main [] (first_occurrences (flatten tiers))
          ∙ without_none (discard main (first_occurrences (flatten tiers))))

pub parse_announces-merged :
    (root : Bencode)
    → parse_announces root ≡ (
        map_err bencode (get_utf8 root (codes "announce")) >>= λ main.
        ok (first_occurrences (main ∷ flatten (tiers_of (get_list root (codes "announce-list"))))))
unfolding parse_announces
parse_announces-merged root =
    >>=-congr (map_err bencode (get_utf8 root (codes "announce"))) _ _ λ main.
      ap ok (merged-first_occurrences main (tiers_of (get_list root (codes "announce-list"))))
