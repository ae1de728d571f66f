-- ===== src/Bitfield/Iterator.antt =====
-- `BitfieldIter`: an iteration meets the bits that are set, and no others.
use tortue.Prelude.{
  ℕ, zero, suc, ◌+◌, ◌/◌, ◌%◌, ◌<◌, Bytes, [], ◌∷◌, false, ◌&&◌, leb, ◌==◌, get_or, ◌≡◌, refl,
  arith, nat_eq,
}
use tortue.Prelude.Dict.{contains, contains-append}
use tortue.Prelude.Bits.{test, test_zero}
use tortue.Bitfield.{Bitfield, byte_items, items_from, items}
use tortue.Bitfield.Laws.{bit_at}

contains-byte_items :
    (rounds k i b j : ℕ)
    → k + rounds ≡ 8
    → contains j (byte_items rounds k i b) ≡ (j / 8 == i && leb k (j % 8) && test b (j % 8))
unfolding byte_items
contains-byte_items zero k i b j h = ground arith
contains-byte_items (suc rounds) k i b j h =
    ground (arith, contains-byte_items rounds (k + 1) i b j (omega arith))

items_from-above : (i : ℕ) (s : Bytes) (j : ℕ) → j / 8 < i → contains j (items_from i s) ≡ false
unfolding items_from
items_from-above i [] j h = refl
items_from-above i (b ∷ s) j h = ground (
  arith,
  contains-append j (byte_items 8 0 i b) (items_from (i + 1) s),
  contains-byte_items 8 0 i b j (omega arith),
  items_from-above (i + 1) s j (omega arith),
)

contains-items_from :
    (i : ℕ) (s : Bytes) (j k : ℕ)
    → j / 8 ≡ i + k
    → contains j (items_from i s) ≡ test (get_or s k 0) (j % 8)
unfolding items_from
contains-items_from i [] j k h = ground (arith, test_zero (j % 8) (omega arith))
contains-items_from i (b ∷ s) j zero h = ground (
  arith,
  contains-append j (byte_items 8 0 i b) (items_from (i + 1) s),
  contains-byte_items 8 0 i b j (omega arith),
  items_from-above (i + 1) s j (omega arith),
)
contains-items_from i (b ∷ s) j (suc k) h = ground (
  arith,
  contains-append j (byte_items 8 0 i b) (items_from (i + 1) s),
  contains-byte_items 8 0 i b j (omega arith),
  contains-items_from (i + 1) s j k (omega arith),
)

pub contains-items : (b : Bitfield) (j : ℕ) → contains j (items b) ≡ bit_at b.data_bytes j
unfolding items bit_at
contains-items b j = contains-items_from 0 b.data_bytes j (j / 8) (omega arith)
