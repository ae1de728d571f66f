-- ===== src/Message/Codec.antt =====
-- domain/message.rs, `Message::encode` and `Message::decode`.
use tortue.Prelude.{
  ℕ, ◌-◌, ◌%◌, ◌^◌, Bytes, [], ◌∷◌, ◌++◌, Result, ok, err, map_err, ltb, ◌==◌, if◌then◌else◌,
  length, take, drop, is_empty, ◌>>=◌,
}
use tortue.Prelude.Be.{to_be_bytes32, from_be_bytes}
use tortue.Bencode.Decoder
use tortue.Net.{BlockRange}
use tortue.Message.Handshake.{from_bencode, encode_handshake}
use tortue.Message.Types.{
  Error, invalid_message, bencode, Message, keep_alive, choke, unchoke, interested, not_interested,
  have, bitfield, request, piece, cancel, extension_handshake, extension, suggest_piece, have_all,
  have_none, reject_request, allowed_fast, unimplemented,
}

-- `(n as u32).to_be_bytes()`
abbrev pub u32_bytes : ℕ → Bytes
u32_bytes n = to_be_bytes32 (n % 2 ^ 32)

abbrev pub range_bytes : BlockRange → Bytes
range_bytes r = u32_bytes r.piece_index ++ (u32_bytes r.piece_offset ++ u32_bytes r.len)

unfoldable pub encode : Message → Bytes
encode keep_alive = []
encode choke = 0 ∷ []
encode unchoke = 1 ∷ []
encode interested = 2 ∷ []
encode not_interested = 3 ∷ []
encode (have p) = 4 ∷ u32_bytes p
encode (bitfield bits) = 5 ∷ bits
encode (request r) = 6 ∷ range_bytes r
encode (piece r d) = 7 ∷ (u32_bytes r.piece_index ++ (u32_bytes r.piece_offset ++ d))
encode (cancel r) = 8 ∷ range_bytes r
encode (extension_handshake hs) = 20 ∷ 0 ∷ encode_handshake hs
encode (extension ext_id payload) = 20 ∷ ext_id ∷ payload
encode have_all = 14 ∷ []
encode have_none = 15 ∷ []
encode (suggest_piece p) = 13 ∷ u32_bytes p
encode (reject_request r) = 16 ∷ range_bytes r
encode (allowed_fast p) = 17 ∷ u32_bytes p
encode unimplemented = []

-- The callers have tested the length, so that the slice is there.
abbrev pub read_u32 : Bytes → ℕ → ℕ
read_u32 payload offset = from_be_bytes (take 4 (drop offset payload))

abbrev pub decode_index : (ℕ → Message) → Bytes → Result Error Message
decode_index make payload =
    if length payload == 4 then ok (make (read_u32 payload 0)) else err invalid_message

abbrev pub decode_range : (BlockRange → Message) → Bytes → Result Error Message
decode_range make payload =
    if length payload == 12
    then ok (
        make (record {
          piece_index = read_u32 payload 0;
          piece_offset = read_u32 payload 4;
          len = read_u32 payload 8;
        }))
    else err invalid_message

abbrev pub decode_piece : Bytes → Result Error Message
decode_piece payload =
    if ltb (length payload) 8
    then err invalid_message
    else ok (
        piece
          (record {
            piece_index = read_u32 payload 0;
            piece_offset = read_u32 payload 4;
            len = length payload - 8;
          })
          (drop 8 payload))

abbrev pub decode_empty : Message → Bytes → Result Error Message
decode_empty m payload = if is_empty payload then ok m else err invalid_message

unfoldable pub decode_extension : Bytes → Result Error Message
unfolding from_bencode
decode_extension [] = err invalid_message
decode_extension (ext_id ∷ payload) =
    if ext_id == 0
    then (do
      bencoded ← map_err bencode (Decoder.decode payload)
      ok (extension_handshake (from_bencode bencoded)))
    else ok (extension ext_id payload)

unfoldable pub decode : Bytes → Result Error Message
unfolding decode_extension
decode [] = ok keep_alive
decode (msg_id ∷ payload) =
    if msg_id == 0
    then ok choke
    else if msg_id == 1
    then ok unchoke
    else if msg_id == 2
    then ok interested
    else if msg_id == 3
    then ok not_interested
    else if msg_id == 4
    then decode_index have payload
    else if msg_id == 5
    then ok (bitfield payload)
    else if msg_id == 6
    then decode_range request payload
    else if msg_id == 7
    then decode_piece payload
    else if msg_id == 8
    then decode_range cancel payload
    else if msg_id == 20
    then decode_extension payload
    else if msg_id == 13
    then decode_index suggest_piece payload
    else if msg_id == 14
    then decode_empty have_all payload
    else if msg_id == 15
    then decode_empty have_none payload
    else if msg_id == 16
    then decode_range reject_request payload
    else if msg_id == 17
    then decode_index allowed_fast payload
    else ok unimplemented
