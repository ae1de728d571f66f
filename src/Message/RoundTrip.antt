-- ===== src/Message/RoundTrip.antt =====
-- Messages through the wire format and back.
use tortue.Prelude.{
  ℕ, ◌+◌, ◌-◌, ◌%◌, ◌^◌, ◌≤◌, ◌<◌, Bytes, ◌∷◌, ◌++◌, false, ok, ltb, length, ◌≡◌, ◌≢◌, refl, ap,
  arith, length-append, take_append_left, drop_append_left,
}
use tortue.Prelude.Be.{to_be_bytes32, from_be_bytes}
use tortue.Net.{BlockRange}
use tortue.Message.Handshake.{ExtensionHandshake, encode_handshake}
use tortue.Message.HandshakeRoundTrip.{IsCanonical, decode-encode_handshake}
use tortue.Message.Types.{
  Message, keep_alive, choke, unchoke, interested, not_interested, have, bitfield, request, piece,
  cancel, extension_handshake, extension, suggest_piece, have_all, have_none, reject_request,
  allowed_fast, unimplemented,
}
use tortue.Message.Codec.{
  u32_bytes, range_bytes, encode, decode, decode_extension, decode_range, decode_index,
  decode_piece,
}
use tortue.Message.Frame.{max_message_size, frame, read_exact, read_from}

abbrev pub RangeFits : BlockRange → Type 0
RangeFits r = (r.piece_index < 2 ^ 32) × (r.piece_offset < 2 ^ 32) × (r.len < 2 ^ 32)

-- The messages that the wire format can carry: numbers fit 32 bits, a block's length is its data's,
-- the identifier zero is the handshake's, and a placeholder for what is not implemented is not sent.
abbrev pub IsWire : Message → Type 0
IsWire (have p) = p < 2 ^ 32
IsWire (request r) = RangeFits r
IsWire (piece r d) = (r.piece_index < 2 ^ 32) × (r.piece_offset < 2 ^ 32) × (r.len ≡ length d)
IsWire (cancel r) = RangeFits r
IsWire (extension_handshake hs) = IsCanonical hs
IsWire (extension ext_id payload) = ext_id ≢ 0
IsWire (suggest_piece p) = p < 2 ^ 32
IsWire (reject_request r) = RangeFits r
IsWire (allowed_fast p) = p < 2 ^ 32
IsWire unimplemented = ⊥
IsWire _ = Unit

decode_index-u32 :
    (make : ℕ → Message) (p : ℕ) → p < 2 ^ 32 → decode_index make (u32_bytes p) ≡ ok (make p)
decode_index-u32 make p h = ap (λ n. ok (make n)) (omega arith)

decode_range-bytes :
    (make : BlockRange → Message) (r : BlockRange)
    → RangeFits r
    → decode_range make (range_bytes r) ≡ ok (make r)
decode_range-bytes make r h =
    λ i. ok (make (record { piece_index = index i; piece_offset = offset i; len = size i }))
  where
    index : from_be_bytes (u32_bytes r.piece_index) ≡ r.piece_index
    index = omega arith

    offset : from_be_bytes (u32_bytes r.piece_offset) ≡ r.piece_offset
    offset = omega arith

    size : from_be_bytes (u32_bytes r.len) ≡ r.len
    size = omega arith

decode_piece-bytes :
    (r : BlockRange) (d : Bytes)
    → IsWire (piece r d)
    → decode_piece (u32_bytes r.piece_index ++ (u32_bytes r.piece_offset ++ d)) ≡ ok (piece r d)
decode_piece-bytes r d w = let fits : length d + 8 - 8 ≡ r.len = omega arith in ground (arith, fits)

decode_extension-handshake :
    (hs : ExtensionHandshake)
    → IsCanonical hs
    → decode_extension (0 ∷ encode_handshake hs) ≡ ok (extension_handshake hs)
unfolding decode_extension
decode_extension-handshake hs c = let (v, e, s) = decode-encode_handshake hs c in rw e (rw s refl)

-- Every message that the wire format can carry is decoded from its encoding: its numbers fit 32
-- bits, a block's length is its data's, the identifier of an extension message is not 0, and a
-- handshake is canonical.
pub decode-encode_message : (m : Message) → IsWire m → decode (encode m) ≡ ok m
unfolding decode encode
decode-encode_message keep_alive w = refl
decode-encode_message choke w = refl
decode-encode_message unchoke w = refl
decode-encode_message interested w = refl
decode-encode_message not_interested w = refl
decode-encode_message (have p) w = decode_index-u32 have p w
decode-encode_message (bitfield bits) w = refl
decode-encode_message (request r) w = decode_range-bytes request r w
decode-encode_message (piece r d) w = decode_piece-bytes r d w
decode-encode_message (cancel r) w = decode_range-bytes cancel r w
decode-encode_message (extension_handshake hs) w = decode_extension-handshake hs w
decode-encode_message (extension ext_id payload) w = ground arith
decode-encode_message (suggest_piece p) w = decode_index-u32 suggest_piece p w
decode-encode_message have_all w = refl
decode-encode_message have_none w = refl
decode-encode_message (reject_request r) w = decode_range-bytes reject_request r w
decode-encode_message (allowed_fast p) w = decode_index-u32 allowed_fast p w
decode-encode_message unimplemented w = absurd w

read_exact-append : (s t : Bytes) (n : ℕ) → n ≡ length s → read_exact n (s ++ t) ≡ ok (s, t)
unfolding read_exact
read_exact-append s t n h =
    rw h (ground (arith, length-append s t, take_append_left s t, drop_append_left s t))

read_from_parts :
    (stream header body payload rest : Bytes) (n : ℕ) (m : Message)
    → read_exact 4 stream ≡ ok (header, body)
    → from_be_bytes header ≡ n
    → ltb max_message_size n ≡ false
    → read_exact n body ≡ ok (payload, rest)
    → decode payload ≡ ok m
    → read_from stream ≡ ok (m, rest)
unfolding read_from
read_from_parts stream header body payload rest n m e₁ e₂ gate e₃ e₄ =
    rw (e₁, read_from) (rw (e₂, gate, e₃, e₄) refl)

ltb-false : (a b : ℕ) → b ≤ a → ltb a b ≡ false
ltb-false a b h = ground arith

-- A framed message that the wire format can carry, of at most a mebibyte, is read off the front of
-- the stream, whatever follows it.
pub read_from-frame :
    (m : Message) (rest : Bytes)
    → IsWire m
    → length (encode m) ≤ max_message_size
    → read_from (frame m ++ rest) ≡ ok (m, rest)
unfolding frame
read_from-frame m rest w h =
    let n = length (encode m) in
    read_from_parts _ (to_be_bytes32 (n % 2 ^ 32)) (encode m ++ rest) (encode m) rest n m
      (read_exact-append (to_be_bytes32 (n % 2 ^ 32)) (encode m ++ rest) 4 refl) (omega arith)
      (ltb-false max_message_size n h) (read_exact-append (encode m) rest n refl)
      (decode-encode_message m w)
