-- ===== src/Bitfield.antt =====
-- domain/bitfield.rs: a set of piece indices as bytes, the most significant bit first.
pub mod Tests
pub mod Laws
pub mod Extend
pub mod Iterator
use tortue.Prelude.{
  ℕ, zero, suc, ◌+◌, ◌-◌, ◌*◌, ◌/◌, ◌%◌, Bytes, List, [], ◌∷◌, Bool, Result, ok, err, ◌>>=◌, leb,
  ◌==◌, if◌then◌else◌, ◌++◌, length, get_or, set, replicate, not,
}
use tortue.Prelude.Bits.{mask, complement, test}
use Prim.Native.Nat.{bit_and, bit_or}

pub data Error : Type 0 where
  piece_out_of_range : Error

abbrev bits_per_byte : ℕ
bits_per_byte = 8

-- `usize::div_ceil`
abbrev pub div_ceil : ℕ → ℕ → ℕ
div_ceil n d = (n + d - 1) / d

pub record Bitfield : Type 0 where
  pub data_bytes : Bytes
  pub pieces : ℕ

unfoldable pub new : ℕ → Bitfield
new pieces = record { data_bytes = replicate (div_ceil pieces bits_per_byte) 0; pieces = pieces }

unfoldable pub check_bit : Bitfield → ℕ → Result Error (Unit {0})
check_bit b bit = if leb b.pieces bit then err piece_out_of_range else ok tt

unfoldable pub set_bit : Bitfield → ℕ → Result Error Bitfield
unfolding check_bit
set_bit b bit = do
  _ ← check_bit b bit
  let index = bit / bits_per_byte
  let offset = bit % bits_per_byte
  ok (record b {
    data_bytes = set b.data_bytes index (bit_or (get_or b.data_bytes index 0) (mask offset));
  })

unfoldable pub unset_bit : Bitfield → ℕ → Result Error Bitfield
unfolding check_bit
unset_bit b bit = do
  _ ← check_bit b bit
  let index = bit / bits_per_byte
  let offset = bit % bits_per_byte
  ok (record b {
    data_bytes =
        set b.data_bytes index (bit_and (get_or b.data_bytes index 0) (complement (mask offset)));
  })

unfoldable pub has_bit : Bitfield → ℕ → Result Error Bool
unfolding check_bit test
has_bit b bit = do
  _ ← check_bit b bit
  let index = bit / bits_per_byte
  let offset = bit % bits_per_byte
  ok (test (get_or b.data_bytes index 0) offset)

-- `let _ = …`: an error leaves the bitfield as it was.
abbrev after : Bitfield → Result Error Bitfield → Bitfield
after b (ok c) = c
after b (err e) = b

-- `for i in 0..self.pieces`, with the rounds that are left and the loop's variable.
unfoldable pub set_from : ℕ → ℕ → Bitfield → Bitfield
set_from zero i b = b
set_from (suc rounds) i b = set_from rounds (i + 1) (after b (set_bit b i))

unfoldable pub set_all : Bitfield → Bitfield
unfolding set_from
set_all b = set_from b.pieces 0 b

unfoldable pub unset_from : ℕ → ℕ → Bitfield → Bitfield
unset_from zero i b = b
unset_from (suc rounds) i b = unset_from rounds (i + 1) (after b (unset_bit b i))

unfoldable pub unset_all : Bitfield → Bitfield
unfolding unset_from
unset_all b = unset_from b.pieces 0 b

-- The loop over the bytes, of one length with the storage.
unfoldable pub or_bytes : Bytes → Bytes → Bytes
or_bytes (d ∷ ds) (v ∷ vs) = bit_or d v ∷ or_bytes ds vs
or_bytes ds _ = ds

unfoldable pub extend_bytes : Bitfield → Bytes → Result Error Bitfield
unfolding or_bytes
extend_bytes b bytes =
    if length bytes == length b.data_bytes
    then ok (record b { data_bytes = or_bytes b.data_bytes bytes })
    else err piece_out_of_range

unfoldable pub try_from : Bytes → Result Error Bitfield
unfolding new
try_from bytes = extend_bytes (new (length bytes * bits_per_byte)) bytes

unfoldable pub into_vec : Bitfield → Bytes
into_vec b = b.data_bytes

-- `BitfieldIter`: its two loops, which `next` leaves at an item and takes up behind it. The bits of a
-- byte from `bit_idx` on, with the rounds that are left.
unfoldable pub byte_items : ℕ → ℕ → ℕ → ℕ → List ℕ
byte_items zero bit_idx byte_idx byte = []
byte_items (suc rounds) bit_idx byte_idx byte =
    let rest = byte_items rounds (bit_idx + 1) byte_idx byte in
    if test byte bit_idx then (byte_idx * 8 + bit_idx) ∷ rest else rest

unfoldable pub items_from : ℕ → Bytes → List ℕ
items_from byte_idx [] = []
items_from byte_idx (byte ∷ bytes) = byte_items 8 0 byte_idx byte ++ items_from (byte_idx + 1) bytes

unfoldable pub items : Bitfield → List ℕ
items b = items_from 0 b.data_bytes
