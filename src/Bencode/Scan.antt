-- ===== src/Bencode/Scan.antt =====
-- The decoder's scanning loops on what the encoder prints.
use tortue.Prelude.{
  ℕ, zero, suc, ◌^◌, ◌<◌, Bytes, [], ◌∷◌, ◌++◌, append_assoc, false, some, ok, ◌==◌, length, ◌≡◌,
  ◌≢◌, refl, arith, All, take_append_left, drop_append_left, length-append,
}
use tortue.Prelude.Int.{ℤ, pos, negsuc, IsI64}
use tortue.Bencode.Value.{int}
use tortue.Bencode.Number.{
  usize_to_string, i64_to_string, read_number, parse_usize, parse_i64, starts_zero, AllDigits,
  read_number-to_string, to_string-AllDigits, to_string_no_zero, to_string-ne-nil, below,
}
use tortue.Bencode.Token.{
  scan_len, scan_int, consume_byte, parse_len, parse_byte_string, parse_int, int_value,
  malformed_int,
}
use tortue.Bencode.Encoder.{encode_bytes, encode}

scan_len-digits : (s t : Bytes) → AllDigits s → scan_len (s ++ b':' ∷ t) ≡ ok (s, b':' ∷ t)
unfolding scan_len
scan_len-digits [] t h = refl
scan_len-digits (c ∷ s) t h = ground (arith, scan_len-digits s t h.1)

parse_usize-digits :
    (s : Bytes) → s ≢ [] → AllDigits s → parse_usize s ≡ below (2 ^ 64) (read_number s)
unfolding parse_usize
parse_usize-digits [] h d = absurd (h refl)
parse_usize-digits (c ∷ s) h d = ground arith

parse_usize-to_string : (n : ℕ) → n < 2 ^ 64 → parse_usize (usize_to_string n) ≡ some n
parse_usize-to_string n h =
    rw (parse_usize-digits _ (to_string-ne-nil n) (to_string-AllDigits n), read_number-to_string n)
      (ground arith)

-- A printed length is read back, with its colon.
pub parse_len-to_string :
    (n : ℕ) (t : Bytes) → n < 2 ^ 64 → parse_len (usize_to_string n ++ b':' ∷ t) ≡ ok (n, t)
unfolding parse_len consume_byte
parse_len-to_string n t h =
    rw (scan_len-digits _ t (to_string-AllDigits n), parse_len, parse_usize-to_string n h) refl

-- A printed byte string is read back, and what follows it is left.
pub parse_byte_string-encode_bytes :
    (b t : Bytes) → length b < 2 ^ 64 → parse_byte_string (encode_bytes b ++ t) ≡ ok (b, t)
unfolding parse_byte_string encode_bytes
parse_byte_string-encode_bytes b t h = rw (append_assoc (usize_to_string (length b)) (b':' ∷ b) t) (
    rw (parse_len-to_string (length b) (b ++ t) h, parse_byte_string)
      (ground (arith, length-append b t, take_append_left b t, drop_append_left b t)))

-- No byte closes an integer.
abbrev NoEnd : Bytes → Type 0
NoEnd = All (λ c. (c == b'e') ≡ false)

scan_int-NoEnd : (s t : Bytes) → NoEnd s → scan_int (s ++ b'e' ∷ t) ≡ ok (s, b'e' ∷ t)
unfolding scan_int
scan_int-NoEnd [] t h = refl
scan_int-NoEnd (c ∷ s) t h = ground (arith, scan_int-NoEnd s t h.1)

NoEnd-digits : (s : Bytes) → AllDigits s → NoEnd s
NoEnd-digits [] h = tt
NoEnd-digits (c ∷ s) h = (ground arith, NoEnd-digits s h.1)

i64_to_string-NoEnd : (z : ℤ) → NoEnd (i64_to_string z)
unfolding i64_to_string
i64_to_string-NoEnd (pos n) = NoEnd-digits _ (to_string-AllDigits n)
i64_to_string-NoEnd (negsuc n) = (refl, NoEnd-digits _ (to_string-AllDigits (suc n)))

-- Digits that do not start with zero are no malformed integer.
malformed-digits :
    (s : Bytes) → s ≢ [] → AllDigits s → starts_zero s ≡ false → malformed_int s ≡ false
unfolding malformed_int
malformed-digits [] h d z = absurd (h refl)
malformed-digits (c ∷ s) h d z = ground arith

parse_i64-digits :
    (s : Bytes) (n : ℕ)
    → s ≢ []
    → AllDigits s
    → read_number s ≡ some n
    → n < 2 ^ 63
    → parse_i64 s ≡ some (pos n)
unfolding parse_i64
parse_i64-digits [] n h d r b = absurd (h refl)
parse_i64-digits (c ∷ s) n h d r b = ground arith

int_value-pos : (n : ℕ) → n < 2 ^ 63 → int_value (usize_to_string n) ≡ ok (pos n)
unfolding int_value
int_value-pos zero h = unfold usize_to_string parse_i64 in refl
int_value-pos (suc n) h =
    let s = usize_to_string (suc n) in
    rw
      (
        malformed-digits s (to_string-ne-nil (suc n)) (to_string-AllDigits (suc n))
            (to_string_no_zero (suc n) (omega arith)),
        parse_i64-digits s (suc n) (to_string-ne-nil (suc n)) (to_string-AllDigits (suc n))
            (read_number-to_string (suc n)) h,
      )
      refl

int_value-neg : (n : ℕ) → n < 2 ^ 63 → int_value (b'-' ∷ usize_to_string (suc n)) ≡ ok (negsuc n)
unfolding int_value malformed_int parse_i64
int_value-neg n h = ground (arith, to_string_no_zero (suc n), read_number-to_string (suc n))

pub int_value-to_string : (z : ℤ) → IsI64 z → int_value (i64_to_string z) ≡ ok z
unfolding i64_to_string
int_value-to_string (pos n) h = int_value-pos n h
int_value-to_string (negsuc n) h = int_value-neg n h

-- A printed integer is read back, and what follows it is left.
pub parse_int-encode :
    (z : ℤ) (t : Bytes) → IsI64 z → parse_int (encode (int z) ++ t) ≡ ok (int z, t)
unfolding parse_int encode consume_byte
parse_int-encode z t h = rw (append_assoc (i64_to_string z) (b'e' ∷ []) t) (
    rw (scan_int-NoEnd _ t (i64_to_string-NoEnd z), parse_int)
      (rw (int_value-to_string z h, parse_int) refl))
