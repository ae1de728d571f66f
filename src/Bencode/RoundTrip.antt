-- ===== src/Bencode/RoundTrip.antt =====
-- What the encoder prints, the decoder reads back.
use tortue.Prelude.{
  ℕ, zero, suc, ◌*◌, ◌^◌, ◌<◌, Bytes, [], ◌∷◌, ◌++◌, append_assoc, Bool, true, false, ok, ◌==◌,
  if◌then◌else◌, length, ◌≡◌, ◌≢◌, ◌∙◌, refl, ap, arith, length-append,
}
use tortue.Prelude.Int.{ℤ}
use tortue.Bencode.Value.{
  Bencode, Items, Entries, int, bytes, list, dict, no_items, item, no_entries, entry, cmp, insert,
  AllKeys, IsSorted, WellFormed, WellFormedItems, WellFormedEntries,
}
use tortue.Bencode.Number.{AllDigits, usize_to_string, to_string-AllDigits, to_string-ne-nil}
use tortue.Bencode.Token.{consume_byte, parse_bytes, parse_key}
use tortue.Bencode.Decoder.{
  returns, ◌>>=◌, parse_list, parse_dict, parse, parse_items, parse_entries, enough,
  decode_with_rest, decode,
}
use tortue.Bencode.Encoder.{encode_bytes, encode, encode_items, encode_entries}
use tortue.Bencode.Keys.{append, append-entry, insert_last, AllKeys-append, cmp_flip}
use tortue.Bencode.Scan.{parse_byte_string-encode_bytes, parse_int-encode}
use Prim.Native.Nat.{Ordering}

-- The first byte is there, and is not the closing `e`.
abbrev opens : Bytes → Bool
opens [] = false
opens (c ∷ s) = if c == b'e' then false else true

opens-digits : (s t : Bytes) → s ≢ [] → AllDigits s → opens (s ++ t) ≡ true
opens-digits [] t h d = absurd (h refl)
opens-digits (c ∷ s) t h d = ground arith

opens-encode_bytes : (b t : Bytes) → opens (encode_bytes b ++ t) ≡ true
unfolding encode_bytes
opens-encode_bytes b t = rw (append_assoc (usize_to_string (length b)) (b':' ∷ b) t) (
    opens-digits _ (b':' ∷ (b ++ t)) (to_string-ne-nil (length b)) (to_string-AllDigits (length b)))

opens-encode : (v : Bencode) (t : Bytes) → opens (encode v ++ t) ≡ true
unfolding encode
opens-encode (int z) t = refl
opens-encode (bytes b) t = opens-encode_bytes b t
opens-encode (list xs) t = refl
opens-encode (dict es) t = refl

length_of_opens : (s : Bytes) → opens (s ++ []) ≡ true → 0 < length s
length_of_opens [] h = absurd (ground arith)
length_of_opens (c ∷ s) h = omega arith

pub length-encode_pos : (v : Bencode) → 0 < length (encode v)
length-encode_pos v = length_of_opens (encode v) (opens-encode v [])

length-encode_bytes_pos : (b : Bytes) → 0 < length (encode_bytes b)
length-encode_bytes_pos b = length_of_opens (encode_bytes b) (opens-encode_bytes b [])

parse-digits :
    (f : ℕ) (s t : Bytes)
    → s ≢ []
    → AllDigits s
    → parse (suc f) (s ++ t) ≡ returns (parse_bytes (s ++ t))
unfolding parse
parse-digits f [] t h d = absurd (h refl)
parse-digits f (c ∷ s) t h d = ground arith

parse-encode_bytes :
    (f : ℕ) (b t : Bytes)
    → length b < 2 ^ 64
    → parse (suc f) (encode_bytes b ++ t) ≡ returns (ok (bytes b, t))
unfolding parse_bytes
parse-encode_bytes f b t h =
    first_step ∙ ap returns (rw (parse_byte_string-encode_bytes b t h, parse_bytes) refl)
  where
    first_step : parse (suc f) (encode_bytes b ++ t) ≡ returns (parse_bytes (encode_bytes b ++ t))
    first_step =
        unfold encode_bytes in
        rw (append_assoc (usize_to_string (length b)) (b':' ∷ b) t) (
          parse-digits f _ (b':' ∷ (b ++ t)) (to_string-ne-nil (length b))
            (to_string-AllDigits (length b)))

parse_items_more :
    (f : ℕ) (s : Bytes)
    → opens s ≡ true
    → parse_items (suc f) s
      ≡ (parse f s >>= λ p. parse_items f p.1 >>= λ q. returns (ok (item p.0 q.0, q.1)))
unfolding parse
parse_items_more f [] h = absurd (ground arith)
parse_items_more f (c ∷ s) h = ground arith

parse_entries_more :
    (f : ℕ) (es : Entries) (s : Bytes)
    → opens s ≡ true
    → parse_entries (suc f) es s ≡ (
        returns (parse_key s) >>= λ p. parse f p.1 >>= λ q. parse_entries f (insert p.0 q.0 es) q.1)
unfolding parse
parse_entries_more f es [] h = absurd (ground arith)
parse_entries_more f es (c ∷ s) h = ground arith

-- Every key of the first map is below every key of the second.
abbrev pub Before : Entries → Entries → Type 0
Before es fs = AllKeys (λ k. AllKeys (λ j. cmp k j ≡ Ordering.gt) es) fs

pub Before-step :
    (es : Entries) (k : Bytes) (v : Bencode) (fs : Entries)
    → Before es fs
    → AllKeys (λ j. cmp k j ≡ Ordering.lt) fs
    → Before (append es (entry k v no_entries)) fs
Before-step es k v no_entries h s = tt
Before-step es k v (entry j w fs) h s = (
  AllKeys-append _ es (entry k v no_entries) h.0 (cmp_flip k j s.0, tt),
  Before-step es k v fs h.1 s.1,
)

pub append_nothing : (es : Entries) → append es no_entries ≡ es
unfolding append
append_nothing no_entries = refl
append_nothing (entry k v es) = ap (entry k v) (append_nothing es)

pub Before-nothing : (fs : Entries) → Before no_entries fs
Before-nothing no_entries = tt
Before-nothing (entry k v fs) = (tt, Before-nothing fs)

-- A list is read when its items are, and a dictionary when its entries are.
parse_list_body :
    (f : ℕ) (xs : Items) (s t : Bytes)
    → parse_items f s ≡ returns (ok (xs, b'e' ∷ t))
    → parse (suc f) (b'l' ∷ s) ≡ returns (ok (list xs, t))
unfolding parse parse_list consume_byte
parse_list_body f xs s t h = rw h refl

parse_dict_body :
    (f : ℕ) (es : Entries) (s t : Bytes)
    → parse_entries f no_entries s ≡ returns (ok (append no_entries es, b'e' ∷ t))
    → parse (suc f) (b'd' ∷ s) ≡ returns (ok (dict es, t))
unfolding parse parse_dict consume_byte append
parse_dict_body f es s t h = rw h refl

parse_int_body :
    (f : ℕ) (z : ℤ) (t : Bytes)
    → WellFormed (int z)
    → parse (suc f) (encode (int z) ++ t) ≡ returns (ok (int z, t))
unfolding parse encode WellFormed
parse_int_body f z t w = ap returns (parse_int-encode z t w)

parse_items_end :
    (f : ℕ) (t : Bytes) → parse_items (suc f) (b'e' ∷ t) ≡ returns (ok (no_items, b'e' ∷ t))
unfolding parse
parse_items_end f t = refl

parse_entries_end :
    (f : ℕ) (es : Entries) (t : Bytes)
    → parse_entries (suc f) es (b'e' ∷ t) ≡ returns (ok (append es no_entries, b'e' ∷ t))
unfolding parse
parse_entries_end f es t = rw (append_nothing es) refl

parse_key-encode_bytes :
    (k t : Bytes) → length k < 2 ^ 64 → parse_key (encode_bytes k ++ t) ≡ ok (k, t)
unfolding parse_key
parse_key-encode_bytes k t h = rw (parse_byte_string-encode_bytes k t h) refl

mutual
  unfolding encode WellFormed

  parse-encode_fuel :
      (v : Bencode) (f : ℕ) (t : Bytes)
      → WellFormed v
      → 2 * length (encode v) < f
      → parse f (encode v ++ t) ≡ returns (ok (v, t))
  parse-encode_fuel v zero t w h = absurd (omega arith)
  parse-encode_fuel (int z) (suc f) t w h = parse_int_body f z t w
  parse-encode_fuel (bytes b) (suc f) t w h = parse-encode_bytes f b t w
  parse-encode_fuel (list xs) (suc f) t w h =
      parse_list_body f xs _ t (parse_items-encode xs f t w (omega arith))
  parse-encode_fuel (dict es) (suc f) t w h =
      parse_dict_body f es _ t
        (parse_entries-encode es f no_entries t w.0 w.1 (Before-nothing es) (omega arith))

  parse_items-encode :
      (xs : Items) (f : ℕ) (t : Bytes)
      → WellFormedItems xs
      → suc (2 * length (encode_items xs)) < f
      → parse_items f (encode_items xs ++ t) ≡ returns (ok (xs, b'e' ∷ t))
  parse_items-encode xs zero t w h = absurd (omega arith)
  parse_items-encode no_items (suc f) t w h = parse_items_end f t
  parse_items-encode (item v xs) (suc f) t w h = rw (append_assoc (encode v) (encode_items xs) t) (
      rw
        (
          parse_items_more f _ (opens-encode v (encode_items xs ++ t)),
          parse-encode_fuel v f (encode_items xs ++ t) w.0
              (omega (arith, length-append (encode v) (encode_items xs), length-encode_pos v)),
          parse_items-encode xs f t w.1
              (omega (arith, length-append (encode v) (encode_items xs), length-encode_pos v)),
        )
        refl)

  parse_entries-encode :
      (fs : Entries) (f : ℕ) (es : Entries) (t : Bytes)
      → IsSorted fs
      → WellFormedEntries fs
      → Before es fs
      → suc (2 * length (encode_entries fs)) < f
      → parse_entries f es (encode_entries fs ++ t) ≡ returns (ok (append es fs, b'e' ∷ t))
  parse_entries-encode fs zero es t s w b h = absurd (omega arith)
  parse_entries-encode no_entries (suc f) es t s w b h = parse_entries_end f es t
  parse_entries-encode (entry k v fs) (suc f) es t s w b h =
      rw
        (
          append_assoc (encode_bytes k) (encode v ++ encode_entries fs) t,
          append_assoc (encode v) (encode_entries fs) t,
        )
        (rw
          (
            parse_entries_more f es _ (opens-encode_bytes k (encode v ++ (encode_entries fs ++ t))),
            parse_key-encode_bytes k (encode v ++ (encode_entries fs ++ t)) w.0,
            parse-encode_fuel v f (encode_entries fs ++ t) w.1 (
                omega (
                  arith,
                  length-append (encode_bytes k) (encode v ++ encode_entries fs),
                  length-append (encode v) (encode_entries fs),
                  length-encode_pos v,
                )),
            insert_last k v es b.0,
            parse_entries-encode fs f (append es (entry k v no_entries)) t s.1 w.2
                (Before-step es k v fs b.1 s.0)
                (omega (
                  arith,
                  length-append (encode_bytes k) (encode v ++ encode_entries fs),
                  length-append (encode v) (encode_entries fs),
                  length-encode_pos v,
                )),
            append-entry es k v fs,
          )
          refl)

-- A well-formed value that is printed in front of any bytes is read back, and those bytes are left.
pub decode_with_rest-encode :
    (v : Bencode) (t : Bytes) → WellFormed v → decode_with_rest (encode v ++ t) ≡ ok (v, t)
unfolding decode_with_rest
decode_with_rest-encode v t w =
    rw
      (parse-encode_fuel v (enough (encode v ++ t)) t w (omega (arith, length-append (encode v) t)))
      refl

-- Decoding an encoded well-formed value, whatever bytes follow it, gives that value.
pub decode-encode : (v : Bencode) (t : Bytes) → WellFormed v → decode (encode v ++ t) ≡ ok v
unfolding decode
decode-encode v t w = rw (decode_with_rest-encode v t w, decode) refl

-- Two well-formed values of which one's encoding is a prefix of the other's are equal, and so is
-- what follows: no two values print alike, and no encoding is a proper prefix of another.
pub encode-injective :
    (v w : Bencode) (s t : Bytes)
    → WellFormed v
    → WellFormed w
    → encode v ++ s ≡ encode w ++ t
    → (v ≡ w) × (s ≡ t)
encode-injective v w s t wv ww e = (
  cc (decode_with_rest-encode v s wv, decode_with_rest-encode w t ww),
  cc (decode_with_rest-encode v s wv, decode_with_rest-encode w t ww),
)
