-- ===== src/Bencode/Utf8.antt =====
-- `std::str::from_utf8`: which bytes are UTF-8. A Rust string is modelled by its bytes.
use tortue.Prelude.{
  ℕ, Bytes, List, [], ◌∷◌, Bool, true, false, ◌&&◌, Option, none, some, ltb, leb, ◌==◌,
  if◌then◌else◌, is_empty, codes, ◌≡◌, refl,
}

-- The ranges of the continuation bytes that must follow a leading byte.
abbrev pub Pending : Type 0
Pending = List (ℕ × ℕ)

abbrev tail_byte : ℕ × ℕ
tail_byte = (0x80, 0xbf)

-- The Unicode table of well-formed sequences, by the leading byte.
leading : ℕ → Option Pending
leading b =
    if ltb b 0x80
    then some []
    else if ltb b 0xc2
    then none
    else if ltb b 0xe0
    then some (tail_byte ∷ [])
    else if b == 0xe0
    then some ((0xa0, 0xbf) ∷ tail_byte ∷ [])
    else if b == 0xed
    then some ((0x80, 0x9f) ∷ tail_byte ∷ [])
    else if ltb b 0xf0
    then some (tail_byte ∷ tail_byte ∷ [])
    else if b == 0xf0
    then some ((0x90, 0xbf) ∷ tail_byte ∷ tail_byte ∷ [])
    else if ltb b 0xf4
    then some (tail_byte ∷ tail_byte ∷ tail_byte ∷ [])
    else if b == 0xf4
    then some ((0x80, 0x8f) ∷ tail_byte ∷ tail_byte ∷ [])
    else none

next : Pending → ℕ → Option Pending
unfolding leading
next [] b = leading b
next ((lo, hi) ∷ more) b = if leb lo b && leb b hi then some more else none

valid_after : Pending → Bytes → Bool
unfolding next
valid_after p [] = is_empty p
valid_after p (b ∷ s) = elim (next p b) [ none ↦ false | some q ↦ valid_after q s ]

unfoldable pub is_utf8 : Bytes → Bool
unfolding valid_after
is_utf8 = valid_after []

ascii_is_utf8 : is_utf8 (codes "created by") ≡ true
unfolding is_utf8
ascii_is_utf8 = refl

two_bytes : (is_utf8 (0xc3 ∷ 0xa9 ∷ []) ≡ true) × (is_utf8 (0xc3 ∷ []) ≡ false)
unfolding is_utf8
two_bytes = (refl, refl)

surrogate : is_utf8 (0xed ∷ 0xa0 ∷ 0x80 ∷ []) ≡ false
unfolding is_utf8
surrogate = refl
