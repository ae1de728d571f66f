-- ===== src/Bencode/Decoder.antt =====
-- domain/bencode.rs, `Decoder`: lists, dictionaries and the dispatch between them, and `decode`.
use tortue.Prelude.{
  ℕ, zero, suc, ◌+◌, ◌*◌, Bytes, [], ◌∷◌, Result, ok, err, ◌==◌, if◌then◌else◌, length,
}
use tortue.Bencode.Value.{
  Error, unexpected_eof, invalid_token, Bencode, Items, Entries, list, dict, no_items, item,
  no_entries, insert,
}
use tortue.Bencode.Number.{is_digit}
use tortue.Bencode.Token.{consume_byte, parse_int, parse_bytes, parse_key}

-- A run of the decoder on bounded fuel.
pub data Run {ℓ} (A : Type ℓ) : Type ℓ where
  returns : Result Error A → Run A
  out_of_fuel : Run A

infixl 5 ◌>>=◌
abbrev pub ◌>>=◌ {ℓ κ} : {A : Type ℓ} {B : Type κ} → Run A → (A → Run B) → Run B
returns (ok a) >>= f = f a
returns (err e) >>= f = returns (err e)
out_of_fuel >>= f = out_of_fuel

-- `parse_list`, with its loop as an argument.
unfoldable pub parse_list : (Bytes → Run (Items × Bytes)) → Bytes → Run (Bencode × Bytes)
unfolding consume_byte
parse_list loop input = do
  body ← returns (consume_byte b'l' input)
  (elements, rest) ← loop body
  after ← returns (consume_byte b'e' rest)
  returns (ok (list elements, after))

unfoldable pub parse_dict : (Bytes → Run (Entries × Bytes)) → Bytes → Run (Bencode × Bytes)
unfolding consume_byte
parse_dict loop input = do
  body ← returns (consume_byte b'd' input)
  (entries, rest) ← loop body
  after ← returns (consume_byte b'e' rest)
  returns (ok (dict entries, after))

unfoldable mutual
  -- The dispatch on the first byte.
  pub parse : ℕ → Bytes → Run (Bencode × Bytes)
  parse zero input = out_of_fuel
  parse (suc f) [] = returns (err unexpected_eof)
  parse (suc f) (c ∷ s) =
      let as_list = parse_list (parse_items f) (c ∷ s) in
      let as_dict = parse_dict (parse_entries f no_entries) (c ∷ s) in
      if c == b'i'
      then returns (parse_int (c ∷ s))
      else if c == b'l'
      then as_list
      else if c == b'd'
      then as_dict
      else if is_digit c
      then returns (parse_bytes (c ∷ s))
      else returns (err (invalid_token c))

  -- The loop of `parse_list`.
  pub parse_items : ℕ → Bytes → Run (Items × Bytes)
  parse_items zero input = out_of_fuel
  parse_items (suc f) [] = returns (err unexpected_eof)
  parse_items (suc f) (c ∷ s) =
      let more = (do
        (v, rest) ← parse f (c ∷ s)
        (vs, rest') ← parse_items f rest
        returns (ok (item v vs, rest'))) in
      if c == b'e' then returns (ok (no_items, c ∷ s)) else more

  -- The loop of `parse_dict`, which inserts into the map at hand.
  pub parse_entries : ℕ → Entries → Bytes → Run (Entries × Bytes)
  parse_entries zero built input = out_of_fuel
  parse_entries (suc f) built [] = returns (err unexpected_eof)
  parse_entries (suc f) built (c ∷ s) =
      let more = (do
        (key, rest) ← returns (parse_key (c ∷ s))
        (v, rest') ← parse f rest
        parse_entries f (insert key v built) rest') in
      if c == b'e' then returns (ok (built, c ∷ s)) else more

-- Two calls for each byte, and one more.
abbrev pub enough : Bytes → ℕ
enough input = 2 * length input + 1

abbrev pub result {ℓ} : {A : Type ℓ} → Run A → Result Error A
result (returns r) = r
result out_of_fuel = err unexpected_eof

-- The value, and the input behind it: `&data[decoder.position..]`.
unfoldable pub decode_with_rest : Bytes → Result Error (Bencode × Bytes)
unfolding parse
decode_with_rest input = result (parse (enough input) input)

-- What follows the value is ignored.
unfoldable pub decode : Bytes → Result Error Bencode
unfolding decode_with_rest
decode input = elim (decode_with_rest input) [ ok (v, rest) ↦ ok v | err e ↦ err e ]
