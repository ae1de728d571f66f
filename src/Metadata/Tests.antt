-- ===== src/Metadata/Tests.antt =====
-- A fetch of three bytes, with a digest that is the bytes themselves.
use tortue.Prelude.{ℕ, Bytes, List, [], ◌∷◌, none, some, codes, All, inl, refl}
use tortue.Net.{SocketAddr, v4}
use tortue.Torrent.{Metainfo, single}
use tortue.Peer.Event.{PeerEvent}
use tortue.Message.Types.{extension_handshake, extension}
use tortue.Message.Handshake.{ExtensionHandshake}
use tortue.Message.Metadata as UtMetadata
use tortue.Message.Metadata.{data_block}
use tortue.Metadata.{Input, peers_discovered, message_received, new, step}
use tortue.Metadata.Laws.{Good, step-Good}
use tortue.Metadata.Complete.{run}
use tortue.Metadata.Foreign.{IsUnfinished, run-Unfinished}
use tortue.Metadata.Driver
use tortue.Metadata.Driver.{MetadataIo, from_peer, from_tracker, returned}
use tortue.Metadata.DriverLaws.{IsFetched, run-Fetched}

abbrev digest : Bytes → Bytes
digest d = d

abbrev peer : SocketAddr
peer = v4 (127 ∷ 0 ∷ 0 ∷ 1 ∷ []) 6881

abbrev info : Bytes
info = 5 ∷ 6 ∷ 7 ∷ []

abbrev torrent : Metainfo
torrent = record {
  name = codes "x";
  announce = [];
  comment = none;
  created_by = none;
  created_at = none;
  url_list = none;
  info_bytes = info;
  info_hash = info;
  piece_length = 4;
  pieces = [];
  mode = single 3;
}

abbrev hello : ℕ → ExtensionHandshake
hello id = record { extensions = (codes "ut_metadata", id) ∷ []; metadata_size = some 3 }

step-Good_example : Good digest (new info) (step digest (peers_discovered (peer ∷ [])) (new info))
unfolding new
step-Good_example = step-Good digest (peers_discovered (peer ∷ [])) (new info) refl

-- The peer has numbered the extension 3, and answers under 1.
abbrev foreign : List Input
foreign =
    message_received peer (extension_handshake (hello 3))
    ∷ message_received peer (extension 1 (UtMetadata.encode (data_block 0 3 info)))
    ∷ []

run-Unfinished_example : All IsUnfinished (run digest foreign (new info)).0
run-Unfinished_example = run-Unfinished digest foreign info ((λ e. cc, λ e. cc), (inl refl, tt))

abbrev link : MetadataIo
link = record { info_hash = info; initial_peers = peer ∷ []; peer_cmds = [] }

run-Fetched_example :
    IsFetched digest info
      (Driver.run digest
        (from_peer (some (peer, PeerEvent.message_received (extension_handshake (hello 1))))
          ∷ from_tracker none
          ∷ [])
        link).1
run-Fetched_example =
    run-Fetched digest
      (from_peer (some (peer, PeerEvent.message_received (extension_handshake (hello 1))))
        ∷ from_tracker none
        ∷ [])
      link (tt, (tt, tt))
