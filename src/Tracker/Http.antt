-- ===== src/Tracker/Http.antt =====
-- adapters/tracker_io.rs, `HttpTransport`: the reply of an HTTP tracker.
use tortue.Prelude.{
  ℕ, ◌^◌, Bytes, List, [], ◌∷◌, Option, Result, ok, err, ◌>>=◌, map_err, ok_or, ltb, codes,
  if◌then◌else◌,
}
use tortue.Prelude.Int.{ℤ, pos, negsuc}
use tortue.Net.{SocketAddr}
use tortue.Bencode.Value
use tortue.Bencode.Value.{Bencode, Items, no_items, item}
use tortue.Bencode.Access.{get_bytes, get_int, get_list}
use tortue.Bencode.Utf8.{is_utf8}
use tortue.Bencode.Decoder
use tortue.Message.Pex.{parse_socket_addrs}
use tortue.Tracker.{TrackerResponse, Error, bencode, message, invalid_response, tracker_failure}

-- `u32::try_from` and `u16::try_from`
abbrev pub unsigned : ℕ → ℤ → Result Error ℕ
unsigned w (pos n) = if ltb n (2 ^ w) then ok n else err invalid_response
unsigned w (negsuc n) = err invalid_response

-- `str::from_utf8`
unfoldable pub text : Bytes → Result Error Bytes
unfolding is_utf8
text s = if is_utf8 s then ok s else err invalid_response

-- The parser of addresses, std's `IpAddr::from_str`, gives an address that takes a port.
module _ (parse_ip : Bytes → Option (ℕ → SocketAddr)) where
  unfoldable pub parse_peer : Bencode → Result Error SocketAddr
  unfolding get_bytes get_int text
  parse_peer peer = do
    ip_raw ← map_err bencode (get_bytes peer (codes "ip"))
    ip_str ← text ip_raw
    ip ← ok_or (parse_ip ip_str) invalid_response
    z ← map_err bencode (get_int peer (codes "port"))
    port ← unsigned 16 z
    ok (ip port)

  unfoldable pub parse_peers_list : Items → Result Error (List SocketAddr)
  unfolding parse_peer
  parse_peers_list no_items = ok []
  parse_peers_list (item peer peers) = do
    addr ← parse_peer peer
    addrs ← parse_peers_list peers
    ok (addr ∷ addrs)

  -- The match on the two readings of `peers`.
  unfoldable pub peers_of :
      Result Value.Error Bytes → Result Value.Error Items → Result Error (List SocketAddr)
  unfolding parse_socket_addrs parse_peers_list
  peers_of (ok compact) _ = map_err message (parse_socket_addrs compact)
  peers_of (err e) (ok peers) = parse_peers_list peers
  peers_of (err e) (err f) = err invalid_response

  abbrev pub reply : Bencode → Result Value.Error Bytes → Result Error TrackerResponse
  reply decoded (ok reason) = err tracker_failure
  reply decoded (err e) = do
    z ← map_err bencode (get_int decoded (codes "interval"))
    interval ← unsigned 32 z
    peers ← peers_of (get_bytes decoded (codes "peers")) (get_list decoded (codes "peers"))
    ok (record { interval = interval; peers = peers })

  unfoldable pub parse_response : Bytes → Result Error TrackerResponse
  unfolding get_bytes get_int get_list peers_of
  parse_response s = do
    decoded ← map_err bencode (Decoder.decode s)
    reply decoded (get_bytes decoded (codes "failure reason"))
