-- ===== src/Bencode/Number.antt =====
-- `to_string` and `parse` of std for `i64` and `usize`, as domain/bencode.rs uses them.
use tortue.Prelude.{
  ℕ, zero, suc, ◌+◌, ◌-◌, ◌*◌, ◌/◌, ◌%◌, ◌^◌, ◌<◌, Bytes, [], ◌∷◌, ◌≡◌, refl, arith, Bool, true,
  false, ◌&&◌, Option, none, some, ltb, leb, ◌==◌, if◌then◌else◌, All, ◌≢◌,
}
use tortue.Prelude.Int.{ℤ, pos, negsuc}

abbrev pub is_digit : ℕ → Bool
is_digit c = leb b'0' c && leb c b'9'

-- The decimal digits of `n`, before `out`.
pub print_digits : ℕ → ℕ → Bytes → Bytes
print_digits zero n out = out
print_digits (suc f) n out =
    let digit = b'0' + n % 10 in
    let more = print_digits f (n / 10) (digit ∷ out) in if ltb n 10 then digit ∷ out else more

unfoldable pub usize_to_string : ℕ → Bytes
unfolding print_digits
usize_to_string n = print_digits (suc n) n []

unfoldable pub i64_to_string : ℤ → Bytes
unfolding usize_to_string
i64_to_string (pos n) = usize_to_string n
i64_to_string (negsuc n) = b'-' ∷ usize_to_string (suc n)

pub read_digits : ℕ → Bytes → Option ℕ
read_digits acc [] = some acc
read_digits acc (c ∷ s) = if is_digit c then read_digits (acc * 10 + (c - b'0')) s else none

-- At least one digit, and nothing else.
pub read_number : Bytes → Option ℕ
unfolding read_digits
read_number [] = none
read_number (c ∷ s) = read_digits 0 (c ∷ s)

abbrev pub below : ℕ → Option ℕ → Option ℕ
below bound none = none
below bound (some n) = if ltb n bound then some n else none

abbrev pub negate : ℕ → ℤ
negate zero = pos 0
negate (suc n) = negsuc n

abbrev pub to_pos : Option ℕ → Option ℤ
to_pos none = none
to_pos (some n) = some (pos n)

abbrev pub to_neg : Option ℕ → Option ℤ
to_neg none = none
to_neg (some n) = some (negate n)

-- `str::parse::<usize>`: an optional `+`, then digits; `none` past 64 bits.
unfoldable pub parse_usize : Bytes → Option ℕ
unfolding read_number
parse_usize [] = none
parse_usize (c ∷ s) = below (2 ^ 64) (if c == b'+' then read_number s else read_number (c ∷ s))

-- `str::parse::<i64>`: an optional sign, then digits; `none` outside the range.
unfoldable pub parse_i64 : Bytes → Option ℤ
unfolding read_number
parse_i64 [] = none
parse_i64 (c ∷ s) =
    if c == b'-'
    then to_neg (below (2 ^ 63 + 1) (read_number s))
    else to_pos (below (2 ^ 63) (if c == b'+' then read_number s else read_number (c ∷ s)))

-- The first byte is the digit zero.
abbrev pub starts_zero : Bytes → Bool
starts_zero [] = false
starts_zero (c ∷ s) = c == b'0'

read_digits-print_digits :
    (f n : ℕ) (out : Bytes) → n < f → read_digits 0 (print_digits f n out) ≡ read_digits n out
unfolding read_digits print_digits
read_digits-print_digits zero n out h = absurd (omega arith)
read_digits-print_digits (suc f) n out h =
    ground (arith, read_digits-print_digits f (n / 10) ((b'0' + n % 10) ∷ out))

print_digits-ne-nil : (f n : ℕ) (out : Bytes) → n < f → print_digits f n out ≢ []
unfolding print_digits
print_digits-ne-nil zero n out h = absurd (omega arith)
print_digits-ne-nil (suc f) n out h =
    ground (arith, print_digits-ne-nil f (n / 10) ((b'0' + n % 10) ∷ out))

read_number-digits : (s : Bytes) → s ≢ [] → read_number s ≡ read_digits 0 s
unfolding read_number
read_number-digits [] h = absurd (h refl)
read_number-digits (c ∷ s) h = refl

-- Reading back what was printed.
pub read_number-to_string : (n : ℕ) → read_number (usize_to_string n) ≡ some n
unfolding usize_to_string read_digits
read_number-to_string n = ground (
  arith,
  read_number-digits (print_digits (suc n) n []),
  print_digits-ne-nil (suc n) n [],
  read_digits-print_digits (suc n) n [],
)

abbrev pub AllDigits : Bytes → Type 0
AllDigits = All (λ c. is_digit c ≡ true)

print_digits-AllDigits : (f n : ℕ) (out : Bytes) → AllDigits out → AllDigits (print_digits f n out)
unfolding print_digits
print_digits-AllDigits zero n out h = h
print_digits-AllDigits (suc f) n out h =
    ground (arith, print_digits-AllDigits f (n / 10) ((b'0' + n % 10) ∷ out))

pub to_string-AllDigits : (n : ℕ) → AllDigits (usize_to_string n)
unfolding usize_to_string
to_string-AllDigits n = print_digits-AllDigits (suc n) n [] tt

print_digits_no_zero :
    (f n : ℕ) (out : Bytes) → n < f → 0 < n → starts_zero (print_digits f n out) ≡ false
unfolding print_digits
print_digits_no_zero zero n out h p = absurd (omega arith)
print_digits_no_zero (suc f) n out h p =
    ground (arith, print_digits_no_zero f (n / 10) ((b'0' + n % 10) ∷ out))

-- A positive number is printed with no leading zero.
pub to_string_no_zero : (n : ℕ) → 0 < n → starts_zero (usize_to_string n) ≡ false
unfolding usize_to_string
to_string_no_zero n p = print_digits_no_zero (suc n) n [] (omega arith) p

pub to_string-ne-nil : (n : ℕ) → usize_to_string n ≢ []
unfolding usize_to_string
to_string-ne-nil n = print_digits-ne-nil (suc n) n [] (omega arith)
