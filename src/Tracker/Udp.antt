-- ===== src/Tracker/Udp.antt =====
-- adapters/tracker_io.rs, `UdpTransport`: the packets of the UDP tracker protocol.
use tortue.Prelude.{
  ℕ, ◌+◌, ◌-◌, ◌^◌, Bytes, List, [], ◌∷◌, ◌++◌, not, Result, ok, err, ◌>>=◌, map_err, ltb, ◌==◌,
  if◌then◌else◌, length, take, drop, replicate,
}
use tortue.Prelude.Be.{to_be_bytes16, to_be_bytes32, to_be_bytes64, from_be_bytes}
use tortue.Message.Pex.{parse_socket_addrs}
use tortue.Tracker.{AnnounceRequest, TrackerResponse, Error, invalid_response, message, as_udp_code}

abbrev pub protocol_id : ℕ
protocol_id = 0x41727101980

abbrev pub action_connect : ℕ
action_connect = 0

abbrev pub action_announce : ℕ
action_announce = 1

-- `buf[start..start + s.len()].copy_from_slice(s)`
abbrev pub copy_at : ℕ → Bytes → Bytes → Bytes
copy_at start s buf = take start buf ++ s ++ drop (start + length s) buf

-- The copies of a builder, by their offsets, in order.
unfoldable pub fill : List (ℕ × Bytes) → Bytes → Bytes
fill [] buf = buf
fill ((start, s) ∷ more) buf = fill more (copy_at start s buf)

abbrev pub connect_fields : ℕ → List (ℕ × Bytes)
connect_fields tx_id =
    (0, to_be_bytes64 protocol_id)
    ∷ (8, to_be_bytes32 action_connect)
    ∷ (12, to_be_bytes32 tx_id)
    ∷ []

unfoldable pub build_connect_request : ℕ → Bytes
unfolding fill
build_connect_request tx_id = fill (connect_fields tx_id) (replicate 16 0)

-- `bytes[start..start + n]` as a number.
abbrev pub number_at : ℕ → ℕ → Bytes → ℕ
number_at start n s = from_be_bytes (take n (drop start s))

unfoldable pub parse_connect_response : Bytes → ℕ → Result Error ℕ
parse_connect_response s expected_tx_id =
    let action = number_at 0 4 s in
    let tx_id = number_at 4 4 s in
    if ltb (length s) 16
    then err invalid_response
    else if not (action == action_connect)
    then err invalid_response
    else if not (tx_id == expected_tx_id)
    then err invalid_response
    else ok (number_at 8 8 s)

-- The last number but one, -1 as an `i32`, asks for the default number of peers.
abbrev pub announce_fields : ℕ → ℕ → ℕ → AnnounceRequest → List (ℕ × Bytes)
announce_fields connection_id tx_id key req =
    (0, to_be_bytes64 connection_id)
    ∷ (8, to_be_bytes32 action_announce)
    ∷ (12, to_be_bytes32 tx_id)
    ∷ (16, req.info_hash)
    ∷ (36, req.peer_id)
    ∷ (56, to_be_bytes64 req.stats.downloaded)
    ∷ (64, to_be_bytes64 req.stats.left)
    ∷ (72, to_be_bytes64 req.stats.uploaded)
    ∷ (80, to_be_bytes32 (as_udp_code req.event))
    ∷ (84, to_be_bytes32 0)
    ∷ (88, to_be_bytes32 key)
    ∷ (92, to_be_bytes32 (2 ^ 32 - 1))
    ∷ (96, to_be_bytes16 req.port)
    ∷ []

unfoldable pub build_announce_request : ℕ → ℕ → ℕ → AnnounceRequest → Bytes
unfolding fill
build_announce_request connection_id tx_id key req =
    fill (announce_fields connection_id tx_id key req) (replicate 98 0)

unfoldable pub parse_announce_response : Bytes → ℕ → Result Error TrackerResponse
unfolding parse_socket_addrs
parse_announce_response s expected_tx_id =
    let action = number_at 0 4 s in
    let tx_id = number_at 4 4 s in
    if ltb (length s) 20
    then err invalid_response
    else if not (action == action_announce)
    then err invalid_response
    else if not (tx_id == expected_tx_id)
    then err invalid_response
    else (do
      peers ← map_err message (parse_socket_addrs (drop 20 s))
      ok (record { interval = number_at 8 4 s; peers = peers }))

-- The size of the buffer that `recv` fills: the rest of a longer packet is lost.
abbrev pub buffer_size : ℕ
buffer_size = 4096

-- `UdpTransport::announce`. `exchange` sends a packet and receives one; the transactions and the key
-- are random numbers.
unfoldable pub announce :
    (Bytes → Result Error Bytes) → ℕ → ℕ → ℕ → AnnounceRequest → Result Error TrackerResponse
unfolding build_connect_request parse_connect_response build_announce_request
    parse_announce_response
announce exchange connect_tx announce_tx key req = do
  connected ← exchange (build_connect_request connect_tx)
  connection_id ← parse_connect_response (take buffer_size connected) connect_tx
  announced ← exchange (build_announce_request connection_id announce_tx key req)
  parse_announce_response (take buffer_size announced) announce_tx
