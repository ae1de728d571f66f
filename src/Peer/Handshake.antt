-- ===== src/Peer/Handshake.antt =====
-- domain/peer.rs, `Handshake`: the 68 bytes that open a connection.
use tortue.Prelude.{
  ℕ, Bytes, [], ◌∷◌, ◌++◌, Bool, not, Result, ok, err, codes, ◌==◌, bytes_beq, if◌then◌else◌,
  length, take, drop, get_or,
}
use tortue.Peer.{PeerId}
use Prim.Native.Nat.{bit_and, bit_or}

pub record Handshake : Type 0 where
  pub info_hash : Bytes
  pub peer_id : PeerId
  pub dht_protocol : Bool
  pub extension_protocol : Bool
  pub fast_extension : Bool

-- `InvalidHandshake`, with a constructor for each of its texts.
pub data Error : Type 0 where
  invalid_length invalid_protocol_length invalid_protocol : Error

abbrev pub handshake_len : ℕ
handshake_len = 68

abbrev pub pstr : Bytes
pstr = codes "BitTorrent protocol"

abbrev pub extension_protocol_mask : ℕ
extension_protocol_mask = 16

abbrev pub fast_extension_mask : ℕ
fast_extension_mask = 4

abbrev pub dht_protocol_mask : ℕ
dht_protocol_mask = 1

-- `if flag { byte |= mask }`
abbrev pub or_mask : Bool → ℕ → ℕ → ℕ
or_mask flag mask byte = if flag then bit_or byte mask else byte

-- The eight bytes from offset 20 on: the flags stand in bytes 25 and 27.
abbrev pub reserved : Handshake → Bytes
reserved h =
    0
    ∷ 0
    ∷ 0
    ∷ 0
    ∷ 0
    ∷ or_mask h.extension_protocol extension_protocol_mask 0
    ∷ 0
    ∷ or_mask h.dht_protocol dht_protocol_mask (or_mask h.fast_extension fast_extension_mask 0)
    ∷ []

unfoldable pub encode : Handshake → Bytes
encode h = length pstr ∷ pstr ++ reserved h ++ h.info_hash ++ h.peer_id

-- `byte & mask != 0`
abbrev pub has_mask : ℕ → ℕ → Bool
has_mask byte mask = not (bit_and byte mask == 0)

-- The fields of a buffer whose length and protocol are right.
unfoldable pub read_fields : Bytes → Handshake
read_fields buf = record {
  info_hash = take 20 (drop 28 buf);
  peer_id = take 20 (drop 48 buf);
  dht_protocol = has_mask (get_or buf 27 0) dht_protocol_mask;
  extension_protocol = has_mask (get_or buf 25 0) extension_protocol_mask;
  fast_extension = has_mask (get_or buf 27 0) fast_extension_mask;
}

unfoldable pub decode : Bytes → Result Error Handshake
decode buf =
    if not (length buf == handshake_len)
    then err invalid_length
    else if not (get_or buf 0 0 == length pstr)
    then err invalid_protocol_length
    else if not (bytes_beq (take 19 (drop 1 buf)) pstr)
    then err invalid_protocol
    else ok (read_fields buf)
