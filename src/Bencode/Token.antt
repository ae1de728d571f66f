-- ===== src/Bencode/Token.antt =====
-- domain/bencode.rs, `Decoder`: integers, lengths and byte strings. The state, `input` and
-- `position`, is the part of the input that is not read yet, `input[position..]`: the code reads at
-- the position and moves it forward only. So `peek_byte` is a match on that part.
use tortue.Prelude.{
  ℕ, Bytes, [], ◌∷◌, Bool, false, ◌&&◌, ◌||◌, Result, ok, err, ok_or, map_err, ltb, ◌==◌,
  if◌then◌else◌, length, take, drop, is_empty, ◌>>=◌,
}
use tortue.Prelude.Int.{ℤ}
use tortue.Bencode.Value.{
  Error, unexpected_eof, unexpected_byte, invalid_integer, invalid_string_length, invalid_dict_key,
  Bencode, int, bytes,
}
use tortue.Bencode.Number.{is_digit, parse_usize, parse_i64, starts_zero}

-- What the state is: the bytes that are not read yet.
abbrev pub Decoder {ℓ} : Type ℓ → Type ℓ
Decoder A = Bytes → Result Error (A × Bytes)

unfoldable pub consume_byte : ℕ → Bytes → Result Error Bytes
consume_byte expected [] = err unexpected_eof
consume_byte expected (found ∷ s) =
    if found == expected then ok s else err (unexpected_byte expected found)

-- The `while` loop of `parse_int`: up to the closing `e`, which is not consumed.
unfoldable pub scan_int : Decoder Bytes
scan_int [] = err unexpected_eof
scan_int (c ∷ s) =
    if c == b'e' then ok ([], c ∷ s) else (do (t, rest) ← scan_int s; ok (c ∷ t, rest))

abbrev pub starts_minus_zero : Bytes → Bool
starts_minus_zero [] = false
starts_minus_zero (c ∷ s) = (c == b'-') && starts_zero s

unfoldable pub malformed_int : Bytes → Bool
malformed_int s = is_empty s || starts_minus_zero s || starts_zero s && ltb 1 (length s)

-- Bytes that are not UTF-8 are refused by `parse` with the same error as by `from_utf8`.
unfoldable pub int_value : Bytes → Result Error ℤ
unfolding malformed_int
int_value s = if malformed_int s then err invalid_integer else ok_or (parse_i64 s) invalid_integer

unfoldable pub parse_int : Decoder Bencode
parse_int input = do
  body ← consume_byte b'i' input
  (s, rest) ← scan_int body
  value ← int_value s
  after ← consume_byte b'e' rest
  ok (int value, after)

-- The loop of `parse_len`: digits up to the colon, which is not consumed.
unfoldable pub scan_len : Decoder Bytes
scan_len [] = err unexpected_eof
scan_len (c ∷ s) =
    if c == b':'
    then ok ([], c ∷ s)
    else if is_digit c
    then (do (t, rest) ← scan_len s; ok (c ∷ t, rest))
    else err invalid_string_length

unfoldable pub parse_len : Decoder ℕ
parse_len input = do
  (s, rest) ← scan_len input
  len ← ok_or (parse_usize s) invalid_string_length
  after ← consume_byte b':' rest
  ok (len, after)

unfoldable pub parse_byte_string : Decoder Bytes
parse_byte_string input = do
  (len, rest) ← parse_len input
  if ltb (length rest) len then err unexpected_eof else ok (take len rest, drop len rest)

unfoldable pub parse_bytes : Decoder Bencode
parse_bytes input = do (b, rest) ← parse_byte_string input; ok (bytes b, rest)

unfoldable pub parse_key : Decoder Bytes
parse_key input = map_err (λ _. invalid_dict_key) (parse_byte_string input)
