-- ===== src/Bencode/Tests.antt =====
-- The bencode theorems at concrete values.
use tortue.Prelude.{◌++◌, codes, ok, ◌≡◌, ◌≢◌, refl, arith}
use tortue.Prelude.Int.{pos}
use tortue.Bencode.Number
use tortue.Bencode.Token
use tortue.Bencode.Decoder
use tortue.Bencode.Value
use tortue.Bencode.Value.{
  Bencode, int, bytes, list, dict, item, no_items, entry, no_entries, WellFormed, cmp,
}
use tortue.Bencode.Decoder.{decode, decode_with_rest, parse, out_of_fuel}
use tortue.Bencode.Encoder.{encode}
use tortue.Bencode.RoundTrip.{decode-encode, encode-injective}
use tortue.Bencode.Decoded.{parse_terminates, decode-WellFormed, decode_normal}

abbrev torrent : Bencode
torrent = dict (
    entry (codes "info") (list (item (int (pos 7)) (item (bytes (codes "ab")) no_items)))
      (entry (codes "name") (bytes (codes "x")) no_entries))

torrent-WellFormed : WellFormed torrent
unfolding WellFormed cmp
torrent-WellFormed = (
  ((refl, tt), (tt, tt)),
  (omega arith, (omega arith, (omega arith, tt)), (omega arith, omega arith, tt)),
)

decode-encode_example : decode (encode torrent ++ codes "tail") ≡ ok torrent
decode-encode_example = decode-encode torrent (codes "tail") torrent-WellFormed

encode-injective_case : (torrent ≡ torrent) × (codes "e" ≡ codes "e")
encode-injective_case =
    encode-injective torrent torrent (codes "e") (codes "e") torrent-WellFormed torrent-WellFormed
      refl

-- The second list is not closed.
parse_terminates_example : parse 13 (codes "llei1e") ≢ out_of_fuel
parse_terminates_example = parse_terminates (codes "llei1e") 13 (omega arith)

unsorted :
    decode (codes "d1:bi2e1:ai1ee")
    ≡ ok (dict (entry (codes "a") (int (pos 1)) (entry (codes "b") (int (pos 2)) no_entries)))
unfolding decode Decoder.parse_dict Token.parse_key Token.parse_byte_string Token.parse_len
    Token.scan_len Number.parse_usize Token.parse_int Token.scan_int Token.int_value
    Number.parse_i64 Value.insert cmp
unsorted = refl

decode-WellFormed_example :
    WellFormed (dict (entry (codes "a") (int (pos 1)) (entry (codes "b") (int (pos 2)) no_entries)))
decode-WellFormed_example = decode-WellFormed (codes "d1:bi2e1:ai1ee") _ unsorted

decode_normal_case :
    decode_with_rest (
      encode (dict (entry (codes "a") (int (pos 1)) (entry (codes "b") (int (pos 2)) no_entries)))
      ++ codes "x")
    ≡ ok (
      dict (entry (codes "a") (int (pos 1)) (entry (codes "b") (int (pos 2)) no_entries)),
      codes "x",
    )
decode_normal_case = decode_normal (codes "d1:bi2e1:ai1ee") _ (codes "x") unsorted

-- A sign hides a leading zero and a second sign's place from the checks.
plus_accepted : decode (codes "i+05e") ≡ ok (int (pos 5))
unfolding decode Token.parse_int Token.consume_byte Token.scan_int Token.int_value Number.parse_i64
plus_accepted = refl
