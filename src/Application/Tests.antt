-- ===== src/Application/Tests.antt =====
-- A magnet link whose one peer has the metadata, under a digest that is the bytes themselves.
use tortue.Prelude.{◌⊎◌, refl, Bytes, List, length, [], ◌∷◌, some, codes, err, ◌≡◌}
use tortue.Net.{SocketAddr, v4}
use tortue.Bencode.Value.{key_not_found}
use tortue.Bencode.Encoder.{encode}
use tortue.Torrent.{bencode}
use tortue.Torrent.Describe.{info_value}
use tortue.Torrent.ParseLaws.{decode_encoded}
use tortue.Torrent.Fetched.{try_from-info_bytes}
use tortue.Torrent.Parse.{try_from}
use tortue.Torrent.ParseTests.{
  info, torrent, torrent_file, torrent_file-WellFormed, accepted, info_found, announce_missing,
}
use tortue.Peer.Event.{PeerEvent}
use tortue.Message.Types.{extension_handshake, extension}
use tortue.Message.Handshake.{ExtensionHandshake}
use tortue.Message.Metadata as UtMetadata
use tortue.Message.Metadata.{data_block}
use tortue.Metadata.Driver.{run, MetadataIo, Event, from_peer}
use tortue.Application.{fetch_metadata}
use tortue.Application.Laws.{IsRefused, Collides, fetch_metadata-IsRefused}

abbrev digest : Bytes → Bytes
digest d = d

abbrev info_bytes : Bytes
info_bytes = torrent.info_bytes

abbrev peer : SocketAddr
peer = v4 (10 ∷ 0 ∷ 0 ∷ 1 ∷ []) 6881

abbrev link : MetadataIo
link = record { info_hash = info_bytes; initial_peers = peer ∷ []; peer_cmds = [] }

-- The peer announces the size and then sends the bytes.
abbrev hello : ExtensionHandshake
hello = record {
  extensions = (codes "ut_metadata", 1) ∷ [];
  metadata_size = some (length info_bytes);
}

abbrev events : List Event
events =
    from_peer (some (peer, PeerEvent.message_received (extension_handshake hello)))
    ∷ from_peer (
        some (
          peer,
          PeerEvent.message_received
              (extension 1 (UtMetadata.encode (data_block 0 (length info_bytes) info_bytes))),
        ))
    ∷ []

fetch_metadata-IsRefused_example :
    IsRefused (fetch_metadata digest events link)
    ⊎ Collides digest info_bytes (run digest events link).1
fetch_metadata-IsRefused_example =
    fetch_metadata-IsRefused digest (encode torrent_file) torrent_file (info_value info) torrent
      events link (decode_encoded torrent_file torrent_file-WellFormed) info_found announce_missing
      accepted refl (tt, (tt, tt))

try_from-info_bytes_case : try_from digest info_bytes ≡ err (bencode key_not_found)
try_from-info_bytes_case =
    try_from-info_bytes digest (encode torrent_file) torrent_file (info_value info) torrent
      (decode_encoded torrent_file torrent_file-WellFormed) info_found announce_missing accepted
