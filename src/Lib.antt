-- ===== src/Lib.antt =====
-- tortue, a BitTorrent client: its domain, and the framing of the peer protocol.
--
-- The program is a set of pure state machines under tortue_lib/src/domain, which drivers under
-- tortue_lib/src/adapters feed with what comes from sockets, disks and timers. A peer's bytes are
-- framed by adapters/peer_io.rs, decoded by domain/message.rs, which reads and writes bencode
-- (domain/bencode.rs), and given to `Swarm::step` (domain/swarm.rs). The swarm keeps the pieces
-- (swarm/piece_manager.rs, on domain/bitfield.rs), the requests in flight (swarm/block_assignment.rs)
-- and the peers (swarm/peer_registry.rs), and answers with outputs that the drivers carry out.
--
--   Bencode    domain/bencode.rs. `Value` has the values, with lists and dictionaries as data types of
--              their own; `Number` std's printing and parsing of integers; `Token`, `Decoder`,
--              `Encoder` and `Access` the functions of the source.
--   Bitfield   domain/bitfield.rs, the iterator included.
--   Net, Peer  std's `SocketAddr`, domain/block.rs, and domain/peer.rs with its handshake of 68
--              bytes, `Handshake`; `Reconnect` is how adapters/peer_io.rs tries a peer again.
--   Message    domain/message.rs: `Codec` is `Message::encode` and `decode`, `Handshake`, `Metadata` and
--              `Pex` the extension messages; `Frame` is `frame` and `read_from` of adapters/peer_io.rs.
--   Torrent    domain/torrent.rs: `Metainfo`, its size, its validation and its metadata blocks; `Parse` is
--              `Metainfo::try_from`; `Describe` has the torrent files of BEP 3, `Says` the entries of an
--              info dictionary and `Trackers` the tracker addresses that it is checked against.
--   Swarm      domain/swarm.rs and domain/swarm/: `Piece` and `Manager` are piece_manager.rs,
--              `Assignments` block_assignment.rs, `Availability` and `Registry` peer_registry.rs;
--              `State`, `Uploads`, `Connections`, `Extensions`, `Plan` and `Step` are swarm.rs, one
--              function for each method.
--   Disk       adapters/disk_storage.rs: `Files` is the split of a block over the files, `Paths` the
--              paths of a torrent, `Create` the opening of its files, `Storage` the jobs that the worker
--              gets, `Flat` the content as one sequence of bytes, against which the worker is
--              specified.
--   Metadata   domain/metadata.rs, the state machine that fetches the metadata of a torrent, and
--              `Metadata.Driver`, the loop of adapters/metadata_io.rs that feeds it.
--   Tracker    domain/tracker.rs and adapters/tracker_io.rs: `Announce` is the loop of the client, `Udp`
--              its packets, `Http` the parser of an HTTP answer.
--   Magnet     domain/magnet.rs: the parser of a magnet link and of the info hash that it names.
--   Application  application/magnet.rs, the fetch of a magnet link's metadata and its parsing.
--   Prelude    what these share: tests, lists, results, hash tables as lists of pairs, bytes and bits.
--
-- State is passed on: a method on `&mut self` takes the state and returns it with its result, and
-- an error leaves the state as the source leaves it at that point. A call that may panic returns
-- `Exit`. A `HashMap` is a list of pairs and a `HashSet` a list: their order stands for the order
-- of iteration, which std leaves open. `usize` and `u64` have 64 bits: where the source adds or multiplies
-- without a check, the model wraps around.
--
-- The decoder of bencode runs on fuel, two calls for each byte and two more, and the loop of `plan` on
-- one round more than the budget; both are proved to be enough. All other loops are over lists or have
-- a number of rounds that the source gives.
--
-- Parameters: the digest is the sha1 crate's, any function on bytes here; the random choice of a peer is
-- the rand crate's, a choice from a list that carries a state, of which the theorems on plans assume
-- that a chosen peer is one of the list. tokio's files and directories are the records `FileIo` and
-- `DirectoryIo`, over any state of the disk, and `Works` and `Sizes` say what the theorems ask of them:
-- a read after a write or a resize. The calls of `DirectoryIo` that create directories and files or set
-- a length give back a state of the disk with their result, also when they fail. Each opened file is
-- a file of its own: two paths that name one file, by a link or by being equal, are not seen as one.
--
-- The random factor of the sleeps in `Reconnect`, of the rand crate too, is a function on delays, which
-- the theorem takes to be in its range. Parameters are also the decoders of hexadecimal and of percent
-- escapes in magnet links, of the crates hex and percent-encoding, and the parser of IP addresses in
-- text, for the HTTP answers that list their peers. A UDP tracker is a function from the packet that it
-- gets to the packet that it sends back, of which the client receives the first 4096 bytes, the size of
-- its buffer.
--
-- Not modelled: the asynchronous input and output of the drivers, the application's wiring and the
-- command line, texts of errors and debug output, the ratio shown as a float, the
-- URLs of trackers, and the loops around the swarm and the peers' sockets.
pub mod Prelude
pub mod Application
pub mod Bencode
pub mod Bitfield
pub mod Disk
pub mod Magnet
pub mod Message
pub mod Metadata
pub mod Net
pub mod Peer
pub mod Swarm
pub mod Torrent
pub mod Tracker
