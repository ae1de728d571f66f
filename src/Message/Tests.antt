-- ===== src/Message/Tests.antt =====
-- The round trips of the messages at concrete messages.
use tortue.Prelude.{Bytes, List, [], ◌∷◌, ◌++◌, some, ok, codes, All, length, ◌≡◌, ◌≤◌, refl, arith}
use tortue.Net.{SocketAddr, v4, BlockRange}
use tortue.Bencode.Value
use tortue.Bencode.Value.{Bencode, cmp}
use tortue.Bencode.Decoder
use tortue.Bencode.Token
use tortue.Bencode.Number
use tortue.Bencode.Utf8.{is_utf8}
use tortue.Message.Handshake.{ExtensionHandshake, from_bencode, encode_handshake}
use tortue.Message.HandshakeRoundTrip.{IsCanonical, decode-encode_handshake, entries_of}
use tortue.Message.Types.{piece, request}
use tortue.Message.Codec.{decode, encode}
use tortue.Message.RoundTrip.{decode-encode_message, read_from-frame}
use tortue.Message.Frame.{frame, read_from, max_message_size}
use tortue.Message.Metadata
use tortue.Message.Metadata.{data_block, decode-encode_metadata}
use tortue.Message.Pex
use tortue.Message.PexRoundTrip.{decode-encode_v4}
use tortue.Message.PexLaws.{IsV4, decode-IsV4}

abbrev second_block : BlockRange
second_block = record { piece_index = 3; piece_offset = 16384; len = 2 }

decode-encode_message_case :
    decode (encode (piece second_block (8 ∷ 9 ∷ []))) ≡ ok (piece second_block (8 ∷ 9 ∷ []))
decode-encode_message_case =
    decode-encode_message (piece second_block (8 ∷ 9 ∷ [])) (omega arith, omega arith, refl)

short : length (encode (request second_block)) ≤ max_message_size
unfolding encode
short = omega arith

read_from-frame_example :
    read_from (frame (request second_block) ++ 1 ∷ 2 ∷ []) ≡ ok (request second_block, 1 ∷ 2 ∷ [])
read_from-frame_example =
    read_from-frame (request second_block) (1 ∷ 2 ∷ []) (omega arith, omega arith, omega arith)
      short

abbrev handshake : ExtensionHandshake
handshake = record {
  extensions = (codes "ut_metadata", 1) ∷ (codes "ut_pex", 2) ∷ [];
  metadata_size = some 31235;
}

handshake-IsCanonical : IsCanonical handshake
unfolding entries_of cmp is_utf8
handshake-IsCanonical = record {
  ordered = ((refl, tt), (tt, tt));
  typed = (refl, omega arith, omega arith, (refl, omega arith, omega arith, tt));
  sized = omega arith;
}

decode-encode_handshake_example :
    (v : Bencode) × (Decoder.decode (encode_handshake handshake) ≡ ok v)
    × (from_bencode v ≡ handshake)
decode-encode_handshake_example = decode-encode_handshake handshake handshake-IsCanonical

decode-encode_metadata_case :
    Metadata.decode (Metadata.encode (data_block 1 20000 (7 ∷ 101 ∷ [])))
    ≡ ok (data_block 1 20000 (7 ∷ 101 ∷ []))
decode-encode_metadata_case =
    decode-encode_metadata (data_block 1 20000 (7 ∷ 101 ∷ [])) (omega arith, omega arith)

abbrev two_peers : List SocketAddr
two_peers = v4 (10 ∷ 0 ∷ 0 ∷ 1 ∷ []) 6881 ∷ v4 (10 ∷ 0 ∷ 0 ∷ 2 ∷ []) 51413 ∷ []

decode-encode_v4_case : Pex.decode (Pex.encode two_peers) ≡ ok two_peers
decode-encode_v4_case =
    decode-encode_v4 two_peers (λ e. cc) ((refl, omega arith), ((refl, omega arith), tt))
      (refl, (refl, tt)) (omega arith)

-- One IPv6 address, that the source reads as three of IPv4.
abbrev one_v6 : Bytes
one_v6 = codes "d6:added618:abcdefghijklmnopqre"

abbrev three_v4 : List SocketAddr
three_v4 = v4 (codes "abcd") 25958 ∷ v4 (codes "ghij") 27500 ∷ v4 (codes "mnop") 29042 ∷ []

read_as_three : Pex.decode one_v6 ≡ ok three_v4
unfolding Pex.decode Decoder.decode Decoder.parse_dict Token.parse_key Token.parse_byte_string
    Token.parse_len Token.scan_len Number.parse_usize Token.parse_bytes Value.insert
read_as_three = refl

decode-IsV4_example : All IsV4 three_v4
decode-IsV4_example = decode-IsV4 one_v6 three_v4 read_as_three
