-- ===== src/Bitfield/Tests.antt =====
-- The bitfield theorems at concrete bitfields.
use tortue.Prelude.{[], ◌∷◌, true, false, ok, err, ◌≡◌, nat_eq, refl, arith}
use tortue.Prelude.Bits.{test}
use tortue.Bitfield.{
  Bitfield, piece_out_of_range, set_bit, unset_bit, has_bit, extend_bytes, try_from, set_all, items,
}
use tortue.Bitfield.Laws.{IsValid, bit_at, has_bit-set_bit, has_bit-unset_bit, out_of_range}
use tortue.Prelude.Dict.{contains}
use tortue.Bitfield.Iterator.{contains-items}
use tortue.Bitfield.Extend.{has_bit-extend_bytes, has_bit-try_from, has_bit-set_all}

-- Ten pieces: the first, the third and the last are set.
abbrev ten : Bitfield
ten = record { data_bytes = 160 ∷ 64 ∷ []; pieces = 10 }

ten-IsValid : IsValid ten
ten-IsValid = record { sized = refl; in_range = (omega arith, (omega arith, tt)) }

abbrev with_second : Bitfield
with_second = record { data_bytes = 224 ∷ 64 ∷ []; pieces = 10 }

abbrev without_third : Bitfield
without_third = record { data_bytes = 128 ∷ 64 ∷ []; pieces = 10 }

set_second : set_bit ten 1 ≡ ok with_second
unfolding set_bit
set_second = refl

unset_third : unset_bit ten 2 ≡ ok without_third
unfolding unset_bit
unset_third = refl

has_bit-set_bit_case : has_bit with_second 9 ≡ has_bit ten 9
has_bit-set_bit_case = has_bit-set_bit ten 1 with_second ten-IsValid 9 set_second

third_unset : has_bit without_third 2 ≡ ok false
third_unset = has_bit-unset_bit ten 2 without_third ten-IsValid 2 unset_third

-- The storage has a bit for it, and still index 10 is refused.
out_of_range_example :
    (set_bit ten 10 ≡ err piece_out_of_range)
    × (unset_bit ten 10 ≡ err piece_out_of_range)
    × (has_bit ten 10 ≡ err piece_out_of_range)
out_of_range_example = out_of_range ten 10 (omega arith)

abbrev joined : Bitfield
joined = record { data_bytes = 160 ∷ 192 ∷ []; pieces = 10 }

extended : extend_bytes ten (0 ∷ 128 ∷ []) ≡ ok joined
unfolding extend_bytes
extended = refl

has_bit-extend_bytes_example : has_bit joined 8 ≡ ok true
unfolding bit_at test
has_bit-extend_bytes_example =
    has_bit-extend_bytes ten joined (0 ∷ 128 ∷ []) ten-IsValid (omega arith, (omega arith, tt))
      extended 8

has_bit-try_from_case :
    (c : Bitfield) × (try_from (160 ∷ 64 ∷ []) ≡ ok c)
    × IsValid c
    × (has_bit c 9 ≡ ok (bit_at (160 ∷ 64 ∷ []) 9))
has_bit-try_from_case =
    has_bit-try_from (160 ∷ 64 ∷ []) 9 (omega arith, (omega arith, tt)) (omega arith)

has_bit-set_all_example : has_bit (set_all ten) 8 ≡ ok true
has_bit-set_all_example = has_bit-set_all ten 8 ten-IsValid (omega arith)

contains-items_example : contains 9 (items ten) ≡ bit_at (160 ∷ 64 ∷ []) 9
contains-items_example = contains-items ten 9
