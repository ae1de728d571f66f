-- ===== src/Bencode/Decoded.antt =====
-- What the decoder returns on every input: it always finishes within its fuel, and a value that it
-- returns is well formed.
use tortue.Prelude.{
  ℕ, zero, suc, ◌+◌, ◌-◌, ◌*◌, ◌^◌, ◌≤◌, ◌<◌, Bytes, List, [], ◌∷◌, ◌++◌, Bool, true, false, Result,
  ok, err, Option, none, some, ltb, ◌==◌, if◌then◌else◌, length, take, drop, ◌≡◌, ◌≢◌, refl, ap,
  sym, subst, arith, length-take, length-drop, Bool-cases, Option-cases, ◌⊎◌, inl, inr, min,
  take-append-drop, ltb→lt, ok_or, map_err,
}
use tortue.Prelude.Int.{IsI64}
use tortue.Bencode.Value.{
  Error, Bencode, Items, Entries, no_entries, insert, IsSorted, WellFormed, WellFormedItems,
  WellFormedEntries,
}
use tortue.Bencode.Number.{parse_usize, parse_i64, is_digit}
use tortue.Bencode.Token.{
  consume_byte, scan_int, scan_len, int_value, parse_int, parse_len, parse_bytes, parse_byte_string,
  parse_key, malformed_int,
}
use tortue.Prelude
use tortue.Bencode.Decoder
use tortue.Bencode.Decoder.{
  Run, returns, out_of_fuel, parse_list, parse_dict, parse, parse_items, parse_entries, enough,
  result, decode_with_rest, decode,
}
use tortue.Bencode.Encoder.{encode}
use tortue.Bencode.RoundTrip.{decode_with_rest-encode}
use tortue.Bencode.Keys.{insert-IsSorted, insert-WellFormed}

-- A result that, if it is a value, has the property.
abbrev pub Ensures : {A : Type 0} → (A → Type 0) → Result Error A → Type 0
Ensures P (ok a) = P a
Ensures P (err e) = Unit

-- The same of a run, which in any case ends within its fuel.
abbrev pub Finishes : {A : Type 0} → (A → Type 0) → Run A → Type 0
Finishes P (returns r) = Ensures P r
Finishes P out_of_fuel = ⊥

consume_byte-shorter :
    (c : ℕ) (s : Bytes) → Ensures (λ t. length s ≡ suc (length t)) (consume_byte c s)
unfolding consume_byte
consume_byte-shorter c [] = tt
consume_byte-shorter c (d ∷ s) = ground arith

scan_int-shorter : (s : Bytes) → Ensures (λ p. length p.1 ≤ length s) (scan_int s)
unfolding scan_int
scan_int-shorter [] = tt
scan_int-shorter (c ∷ s) = ground (arith, scan_int-shorter s)

scan_len-shorter : (s : Bytes) → Ensures (λ p. length p.1 ≤ length s) (scan_len s)
unfolding scan_len
scan_len-shorter [] = tt
scan_len-shorter (c ∷ s) = ground (arith, scan_len-shorter s)

int_value-IsI64 : (s : Bytes) → Ensures IsI64 (int_value s)
unfolding int_value parse_i64
int_value-IsI64 [] = unfold malformed_int in tt
int_value-IsI64 (c ∷ s) = ground arith

parse_usize_bound : (s : Bytes) (n : ℕ) → parse_usize s ≡ some n → n < 2 ^ 64
unfolding parse_usize
parse_usize_bound [] n h = absurd (ground arith)
parse_usize_bound (c ∷ s) n h = ground arith

Ensures-bind :
    {A B : Type 0} {P : A → Type 0} (Q : B → Type 0) (r : Result Error A) (f : A → Result Error B)
    → Ensures P r
    → ((a : A) → P a → Ensures Q (f a))
    → Ensures Q (Prelude.◌>>=◌ r f)
Ensures-bind Q (ok a) f h k = k a h
Ensures-bind Q (err e) f h k = tt

Finishes-bind :
    {A B : Type 0} {P : A → Type 0} (Q : B → Type 0) (r : Run A) (f : A → Run B)
    → Finishes P r
    → ((a : A) → P a → Finishes Q (f a))
    → Finishes Q (Decoder.◌>>=◌ r f)
Finishes-bind Q (returns (ok a)) f h k = k a h
Finishes-bind Q (returns (err e)) f h k = tt
Finishes-bind Q out_of_fuel f h k = absurd h

Finishes-if :
    {A : Type 0} (P : A → Type 0) (b : Bool) (x y : Run A)
    → Finishes P x
    → Finishes P y
    → Finishes P (if b then x else y)
Finishes-if P true x y hx hy = hx
Finishes-if P false x y hx hy = hy

ok_or-Ensures :
    {A : Type 0} {P : A → Type 0} (o : Option A) (e : Error)
    → ((a : A) → o ≡ some a → P a)
    → Ensures P (ok_or o e)
ok_or-Ensures none e h = tt
ok_or-Ensures (some a) e h = h a refl

-- A value read off `s` in a well-formed state, and less input left.
abbrev Reads {ℓ} : {A : Type ℓ} → (A → Type 0) → Bytes → A × Bytes → Type 0
Reads W s p = W p.0 × (length p.1 < length s)

parse_int-Ensures : (s : Bytes) → Ensures (Reads WellFormed s) (parse_int s)
unfolding parse_int WellFormed
parse_int-Ensures s =
    Ensures-bind _ (consume_byte b'i' s) _ (consume_byte-shorter b'i' s) λ body e₁.
      Ensures-bind _ (scan_int body) _ (scan_int-shorter body) λ (t, rest) e₂.
        Ensures-bind _ (int_value t) _ (int_value-IsI64 t) λ z w.
          Ensures-bind _ (consume_byte b'e' rest) _ (consume_byte-shorter b'e' rest)
            λ after e₃. (w, omega arith)

parse_len-Ensures : (s : Bytes) → Ensures (Reads (λ n. n < 2 ^ 64) s) (parse_len s)
unfolding parse_len
parse_len-Ensures s = Ensures-bind _ (scan_len s) _ (scan_len-shorter s) λ (t, rest) e₁.
    Ensures-bind _ (ok_or (parse_usize t) _) _
      (ok_or-Ensures (parse_usize t) _ (parse_usize_bound t))
      λ n b.
        Ensures-bind _ (consume_byte b':' rest) _ (consume_byte-shorter b':' rest)
          λ after e₂. (b, omega arith)

parse_byte_string-Ensures :
    (s : Bytes) → Ensures (Reads (λ b. length b < 2 ^ 64) s) (parse_byte_string s)
unfolding parse_byte_string
parse_byte_string-Ensures s =
    Ensures-bind _ (parse_len s) _ (parse_len-Ensures s)
      λ (n, rest) h. ground (arith, length-take n rest, length-drop n rest)

parse_bytes-Ensures : (s : Bytes) → Ensures (Reads WellFormed s) (parse_bytes s)
unfolding parse_bytes WellFormed
parse_bytes-Ensures s =
    Ensures-bind _ (parse_byte_string s) _ (parse_byte_string-Ensures s) λ p h. h

map_err-Ensures :
    {A : Type 0} (P : A → Type 0) (g : Error → Error) (r : Result Error A)
    → Ensures P r
    → Ensures P (map_err g r)
map_err-Ensures P g (ok a) h = h
map_err-Ensures P g (err e) h = tt

parse_key-Ensures : (s : Bytes) → Ensures (Reads (λ b. length b < 2 ^ 64) s) (parse_key s)
unfolding parse_key
parse_key-Ensures s = map_err-Ensures _ _ (parse_byte_string s) (parse_byte_string-Ensures s)

parse_list-Finishes :
    (loop : Bytes → Run (Items × Bytes)) (s : Bytes)
    → ((t : Bytes)
        → length s ≡ suc (length t)
        → Finishes (λ p. WellFormedItems p.0 × (length p.1 ≤ length t)) (loop t))
    → Finishes (Reads WellFormed s) (parse_list loop s)
unfolding parse_list WellFormed
parse_list-Finishes loop s h =
    Finishes-bind _ (returns (consume_byte b'l' s)) _ (consume_byte-shorter b'l' s) λ body e₁.
      Finishes-bind _ (loop body) _ (h body e₁) λ (xs, rest) w.
        Finishes-bind _ (returns (consume_byte b'e' rest)) _ (consume_byte-shorter b'e' rest)
          λ after e₂. (w.0, omega arith)

abbrev Map : Entries → Type 0
Map es = IsSorted es × WellFormedEntries es

parse_dict-Finishes :
    (loop : Bytes → Run (Entries × Bytes)) (s : Bytes)
    → ((t : Bytes)
        → length s ≡ suc (length t)
        → Finishes (λ p. Map p.0 × (length p.1 ≤ length t)) (loop t))
    → Finishes (Reads WellFormed s) (parse_dict loop s)
unfolding parse_dict WellFormed
parse_dict-Finishes loop s h =
    Finishes-bind _ (returns (consume_byte b'd' s)) _ (consume_byte-shorter b'd' s) λ body e₁.
      Finishes-bind _ (loop body) _ (h body e₁) λ (es, rest) w.
        Finishes-bind _ (returns (consume_byte b'e' rest)) _ (consume_byte-shorter b'e' rest)
          λ after e₂. (w.0, omega arith)

Finishes-weaken :
    (m n : ℕ) (r : Run (Entries × Bytes))
    → m ≤ n
    → Finishes (λ p. Map p.0 × (length p.1 ≤ m)) r
    → Finishes (λ p. Map p.0 × (length p.1 ≤ n)) r
Finishes-weaken m n (returns (ok p)) h w = (w.0, omega arith)
Finishes-weaken m n (returns (err e)) h w = tt
Finishes-weaken m n out_of_fuel h w = w

mutual
  unfolding parse WellFormed

  parse-Finishes :
      (f : ℕ) (s : Bytes) → 2 * length s < f → Finishes (Reads WellFormed s) (parse f s)
  parse-Finishes zero s h = absurd (omega arith)
  parse-Finishes (suc f) [] h = tt
  parse-Finishes (suc f) (c ∷ s) h = Finishes-if _ (c == b'i') _ _ (parse_int-Ensures (c ∷ s)) (
      Finishes-if _ (c == b'l') _ _
        (parse_list-Finishes (parse_items f) (c ∷ s)
          (λ t e. parse_items-Finishes f t (omega arith)))
        (Finishes-if _ (c == b'd') _ _
          (parse_dict-Finishes (parse_entries f no_entries) (c ∷ s)
            (λ t e. parse_entries-Finishes f no_entries t (tt, tt) (omega arith)))
          (Finishes-if _ (is_digit c) _ _ (parse_bytes-Ensures (c ∷ s)) tt)))

  parse_items-Finishes :
      (f : ℕ) (s : Bytes)
      → suc (2 * length s) < f
      → Finishes (λ p. WellFormedItems p.0 × (length p.1 ≤ length s)) (parse_items f s)
  parse_items-Finishes zero s h = absurd (omega arith)
  parse_items-Finishes (suc f) [] h = tt
  parse_items-Finishes (suc f) (c ∷ s) h =
      Finishes-if _ (c == b'e') _ _ (tt, omega arith)
        (Finishes-bind _ (parse f (c ∷ s)) _ (parse-Finishes f (c ∷ s) (omega arith)) λ (v, t) w.
          Finishes-bind _ (parse_items f t) _ (parse_items-Finishes f t (omega arith))
            λ (vs, u) ws. ((w.0, ws.0), omega arith))

  parse_entries-Finishes :
      (f : ℕ) (es : Entries) (s : Bytes)
      → Map es
      → suc (2 * length s) < f
      → Finishes (λ p. Map p.0 × (length p.1 ≤ length s)) (parse_entries f es s)
  parse_entries-Finishes zero es s m h = absurd (omega arith)
  parse_entries-Finishes (suc f) es [] m h = tt
  parse_entries-Finishes (suc f) es (c ∷ s) m h =
      Finishes-if _ (c == b'e') _ _ (m, omega arith)
        (Finishes-bind _ (returns (parse_key (c ∷ s))) _ (parse_key-Ensures (c ∷ s)) λ (k, t) b.
          Finishes-bind _ (parse f t) _ (parse-Finishes f t (omega arith)) λ (v, u) w.
            Finishes-weaken (length u) (length (c ∷ s)) (parse_entries f (insert k v es) u)
              (omega arith)
              (parse_entries-Finishes f (insert k v es) u
                (insert-IsSorted k v es m.0, insert-WellFormed k v es b.0 w.0 m.1) (omega arith)))

parse-Finishes' : (input : Bytes) → Finishes (Reads WellFormed input) (parse (enough input) input)
parse-Finishes' input = parse-Finishes (enough input) input (omega arith)

ne_of_Finishes : {A : Type 0} (P : A → Type 0) (r : Run A) → Finishes P r → r ≢ out_of_fuel
ne_of_Finishes P (returns x) h = cc
ne_of_Finishes P out_of_fuel h = absurd h

-- On every input the decoder stops, with a value or an error, within two calls for each byte and
-- one more, so that the bound on the calls changes no result.
pub parse_terminates : (input : Bytes) (f : ℕ) → 2 * length input < f → parse f input ≢ out_of_fuel
parse_terminates input f h = ne_of_Finishes _ (parse f input) (parse-Finishes f input h)

result-Ensures : {A : Type 0} (P : A → Type 0) (r : Run A) → Finishes P r → Ensures P (result r)
result-Ensures P (returns x) h = h
result-Ensures P out_of_fuel h = absurd h

Ensures-ok :
    {A : Type 0} (P : A → Type 0) (r : Result Error A) (a : A) → Ensures P r → r ≡ ok a → P a
Ensures-ok P (ok b) a h e = subst P (cc) h
Ensures-ok P (err x) a h e = cc

-- A value that the decoder returns is well formed: integers fit `i64`, lengths 64 bits, and every
-- dictionary has its keys strictly ascending, in whatever order they stood in the input; and at
-- least one byte was consumed.
pub decode_with_rest-WellFormed :
    (input : Bytes) (v : Bencode) (rest : Bytes)
    → decode_with_rest input ≡ ok (v, rest)
    → WellFormed v × (length rest < length input)
unfolding decode_with_rest
decode_with_rest-WellFormed input v rest e =
    Ensures-ok (Reads WellFormed input) (decode_with_rest input) (v, rest)
      (result-Ensures _ (parse (enough input) input) (parse-Finishes' input)) e

-- A decoded value is well-formed: its numbers fit 64 bits, its strings have a length that fits 64
-- bits, and its dictionaries are sorted without a key twice, whatever the order in the input.
pub decode-WellFormed : (input : Bytes) (v : Bencode) → decode input ≡ ok v → WellFormed v
unfolding decode
decode-WellFormed input v e =
    Ensures-ok WellFormed (decode input) v
      (through (decode_with_rest input)
        (result-Ensures _ (parse (enough input) input) (parse-Finishes' input)))
      e
  where
    through :
        (r : Result Error (Bencode × Bytes))
        → Ensures (Reads WellFormed input) r
        → Ensures WellFormed (elim r [ ok (w, rest) ↦ ok w | err x ↦ err x ])
    through (ok p) h = h.0
    through (err x) h = tt

-- Encoding what was decoded gives a canonical form: it decodes, whatever follows it, to that value,
-- and leaves what follows it.
pub decode_normal :
    (input : Bytes) (v : Bencode) (t : Bytes)
    → decode input ≡ ok v
    → decode_with_rest (encode v ++ t) ≡ ok (v, t)
decode_normal input v t e = decode_with_rest-encode v t (decode-WellFormed input v e)
