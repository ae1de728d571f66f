-- ===== src/Message/Metadata.antt =====
-- domain/message.rs, `UtMetadataMessage`: the payloads of the metadata extension.
use tortue.Prelude.{
  ℕ, zero, suc, ◌^◌, ◌<◌, Bytes, [], ◌++◌, append-nil, Result, ok, map_err, codes, ◌>>=◌, ◌≡◌, refl,
  arith,
}
use tortue.Prelude.Int.{ℤ, pos}
use tortue.Bencode.Value.{Bencode, Entries, int, dict, no_entries, entry, insert, cmp, WellFormed}
use tortue.Bencode.Access.{get_int}
use tortue.Bencode.Decoder
use tortue.Bencode.Encoder
use tortue.Bencode.RoundTrip.{decode_with_rest-encode}
use tortue.Message.Types.{Error, bencode}
use tortue.Message.Handshake.{as_i64, as_usize}

pub data UtMetadataMessage : Type 0 where
  request : ℕ → UtMetadataMessage
  data_block : ℕ → ℕ → Bytes → UtMetadataMessage
  reject : ℕ → UtMetadataMessage
  unimplemented : UtMetadataMessage

unfoldable pub int_field : Bencode → Bytes → Result Error ℤ
unfolding get_int
int_field v key = map_err bencode (get_int v key)

-- The match on `msg_type`.
unfoldable pub decode_kind : ℤ → ℕ → Bencode → Bytes → Result Error UtMetadataMessage
unfolding int_field
decode_kind (pos zero) p v rest = ok (request p)
decode_kind (pos (suc zero)) p v rest = do
  total_size ← int_field v (codes "total_size")
  ok (data_block p (as_usize total_size) rest)
decode_kind (pos (suc (suc zero))) p v rest = ok (reject p)
decode_kind _ p v rest = ok unimplemented

unfoldable pub decode : Bytes → Result Error UtMetadataMessage
unfolding decode_kind
decode payload = do
  (v, rest) ← map_err bencode (Decoder.decode_with_rest payload)
  msg_type ← int_field v (codes "msg_type")
  p ← int_field v (codes "piece")
  decode_kind msg_type (as_usize p) v rest

-- The dictionary with its first two entries.
abbrev start : ℕ → ℕ → Entries
start kind p =
    insert (codes "piece") (int (as_i64 p)) (insert (codes "msg_type") (int (pos kind)) no_entries)

unfoldable pub encode : UtMetadataMessage → Bytes
unfolding insert
encode (request p) = Encoder.encode (dict (start 0 p))
encode (data_block p total_size d) =
    Encoder.encode (dict (insert (codes "total_size") (int (as_i64 total_size)) (start 1 p))) ++ d
encode (reject p) = Encoder.encode (dict (start 2 p))
encode unimplemented = []

-- Piece numbers and sizes that an `i64` holds.
abbrev pub IsSent : UtMetadataMessage → Type 0
IsSent (request p) = p < 2 ^ 63
IsSent (data_block p total_size d) = (p < 2 ^ 63) × (total_size < 2 ^ 63)
IsSent (reject p) = p < 2 ^ 63
IsSent unimplemented = ⊥

as_i64_small : (n : ℕ) → n < 2 ^ 63 → as_i64 n ≡ pos n
as_i64_small n h = ground arith

abbrev two_entries : ℕ → ℕ → Entries
two_entries kind p =
    entry (codes "msg_type") (int (pos kind)) (entry (codes "piece") (int (pos p)) no_entries)

abbrev three_entries : ℕ → ℕ → Entries
three_entries p total_size = entry (codes "msg_type") (int (pos 1)) (
    entry (codes "piece") (int (pos p))
      (entry (codes "total_size") (int (pos total_size)) no_entries))

start_lem : (kind p : ℕ) → p < 2 ^ 63 → start kind p ≡ two_entries kind p
unfolding insert cmp
start_lem kind p h = rw (as_i64_small p h) refl

start_total_lem :
    (p total_size : ℕ)
    → p < 2 ^ 63
    → total_size < 2 ^ 63
    → insert (codes "total_size") (int (as_i64 total_size)) (start 1 p) ≡ three_entries p total_size
unfolding insert cmp
start_total_lem p total_size h k = rw (as_i64_small p h, as_i64_small total_size k) refl

two-WellFormed : (kind p : ℕ) → kind < 3 → p < 2 ^ 63 → WellFormed (dict (two_entries kind p))
unfolding WellFormed cmp
two-WellFormed kind p h k =
    (((refl, tt), (tt, tt)), (omega arith, omega arith, (omega arith, k, tt)))

three-WellFormed :
    (p total_size : ℕ)
    → p < 2 ^ 63
    → total_size < 2 ^ 63
    → WellFormed (dict (three_entries p total_size))
unfolding WellFormed cmp
three-WellFormed p total_size h k = (
  ((refl, (refl, tt)), ((refl, tt), (tt, tt))),
  (omega arith, omega arith, (omega arith, h, (omega arith, k, tt))),
)

-- A payload made of a dictionary and the bytes behind it.
decode_parts :
    (payload rest : Bytes) (v : Bencode) (kind : ℤ) (p : ℕ)
    → Decoder.decode_with_rest payload ≡ ok (v, rest)
    → int_field v (codes "msg_type") ≡ ok kind
    → int_field v (codes "piece") ≡ ok (pos p)
    → decode payload ≡ decode_kind kind p v rest
unfolding decode
decode_parts payload rest v kind p e₁ e₂ e₃ = rw (e₁, decode) (rw (e₂, e₃) refl)

decode_two :
    (kind p : ℕ)
    → kind < 3
    → p < 2 ^ 63
    → decode (Encoder.encode (dict (start kind p)))
      ≡ decode_kind (pos kind) p (dict (two_entries kind p)) []
decode_two kind p h k = rw (start_lem kind p k) (
    decode_parts _ [] (dict (two_entries kind p)) (pos kind) p
      (rw append-nil at (decode_with_rest-encode _ [] (two-WellFormed kind p h k)))
      (unfold int_field in refl) (unfold int_field in refl))

-- Every metadata message that is sent, with numbers below 2^63, is decoded from its encoding, the
-- data behind the dictionary included.
pub decode-encode_metadata : (m : UtMetadataMessage) → IsSent m → decode (encode m) ≡ ok m
unfolding encode decode_kind
decode-encode_metadata (request p) h = decode_two 0 p (omega arith) h
decode-encode_metadata (data_block p total_size d) h = rw (start_total_lem p total_size h.0 h.1) (
    decode_parts _ d (dict (three_entries p total_size)) (pos 1) p
      (decode_with_rest-encode _ d (three-WellFormed p total_size h.0 h.1))
      (unfold int_field in refl) (unfold int_field in refl))
decode-encode_metadata (reject p) h = decode_two 2 p (omega arith) h
decode-encode_metadata unimplemented h = absurd h
