-- ===== src/Tracker/HttpLaws.antt =====
-- The reply of an HTTP tracker against BEP 3 and BEP 23.
use tortue.Prelude.{
  ℕ, ◌^◌, ◌<◌, Bytes, List, All, Option, ok, >>=-of-ok, map_err, codes, ◌≡◌, refl, ap, ◌∙◌, arith,
}
use tortue.Prelude.Int.{pos}
use tortue.Net.{SocketAddr}
use tortue.Bencode.Value.{Bencode, int, bytes, dict, no_entries, entry, WellFormed}
use tortue.Bencode.Access.{find, get, get_bytes, get_int, get_list}
use tortue.Bencode.Decoder
use tortue.Bencode.Encoder.{encode}
use tortue.Message.Pex.{compact_v4}
use tortue.Message.PexLaws.{FitsV4, parse_socket_addrs-compact_v4}
use tortue.Torrent.ParseLaws.{decode_encoded}
use tortue.Tracker.{bencode}
use tortue.Tracker.Http.{unsigned, peers_of, reply, parse_response}

-- An answer with its peers in compact form.
abbrev pub compact_answer : ℕ → List SocketAddr → Bencode
compact_answer interval peers = dict (
    entry (codes "interval") (int (pos interval))
      (entry (codes "peers") (bytes (compact_v4 peers)) no_entries))

unsigned_fits : (w n : ℕ) → n < 2 ^ w → unsigned w (pos n) ≡ ok n
unsigned_fits w n h = ground arith

module _ (parse_ip : Bytes → Option (ℕ → SocketAddr)) where
  parse_response_decoded :
      (s : Bytes) (v : Bencode)
      → Decoder.decode s ≡ ok v
      → parse_response parse_ip s ≡ reply parse_ip v (get_bytes v (codes "failure reason"))
  unfolding parse_response
  parse_response_decoded s v h =
      >>=-of-ok (map_err bencode (Decoder.decode s)) v _ (ap (map_err bencode) h) refl

  reply-compact_answer :
      (interval : ℕ) (peers : List SocketAddr)
      → interval < 2 ^ 32
      → All FitsV4 peers
      → reply parse_ip
          (compact_answer interval peers)
          (get_bytes (compact_answer interval peers) (codes "failure reason"))
        ≡ ok (record { interval = interval; peers = peers })
  unfolding find get get_bytes get_int get_list peers_of
  reply-compact_answer interval peers h f =
      rw (unsigned_fits 32 interval h, parse_socket_addrs-compact_v4 peers f) refl

  -- The answer of an HTTP tracker, an interval below 2^32 and IPv4 peers in compact form, is read
  -- as it was meant, where its lengths fit 64 bits.
  pub parse_response-compact_answer :
      (interval : ℕ) (peers : List SocketAddr)
      → WellFormed (compact_answer interval peers)
      → interval < 2 ^ 32
      → All FitsV4 peers
      → parse_response parse_ip (encode (compact_answer interval peers))
        ≡ ok (record { interval = interval; peers = peers })
  parse_response-compact_answer interval peers w h f =
      parse_response_decoded (encode (compact_answer interval peers))
        (compact_answer interval peers) (decode_encoded (compact_answer interval peers) w)
      ∙ reply-compact_answer interval peers h f
