-- ===== src/Application.antt =====
-- application/magnet.rs: a magnet link's metadata is fetched and parsed.
pub mod Laws
pub mod Tests
use tortue.Prelude.{Bytes, List, Result, ok, err, map_err, ◌>>=◌}
use tortue.Torrent
use tortue.Magnet
use tortue.Disk.Paths
use tortue.Disk.Files.{IoError}
use tortue.Torrent.{Metainfo}
use tortue.Torrent.Parse.{try_from}
use tortue.Metadata.Driver
use tortue.Metadata.Driver.{Event, Effect, MetadataIo, Outcome, returned, waiting, run}

-- Without the texts of `InvalidTorrentFile` and `Failed`; `invalid_torrent_file` has what its text is
-- made of.
pub data Error : Type 0 where
  io : IoError → Error
  disk_storage : Paths.Error → Error
  invalid_torrent_file : Torrent.Error → Error
  invalid_metainfo failed : Error
  metadata_fetch : Driver.Error → Error
  invalid_magnet : Magnet.Error → Error
  handle_closed : Error

-- A fetch that still waits for an event, or has come to its result.
pub data Fetch : Type 0 where
  unfinished : Fetch
  returns : Result Error Metainfo → Fetch

module _ (sha1 : Bytes → Bytes) where
  unfoldable pub parse_fetched : Outcome → Fetch
  unfolding try_from
  parse_fetched (waiting driver s) = unfinished
  parse_fetched (returned (err e)) = returns (err (metadata_fetch e))
  parse_fetched (returned (ok raw_info)) =
      returns (map_err invalid_torrent_file (try_from sha1 raw_info))

  -- What follows the start of the tasks: the fetch is run, and its bytes are parsed. The tasks of the
  -- trackers and the connections of the peers show in the events.
  unfoldable pub fetch_metadata : List Event → MetadataIo → Fetch
  unfolding parse_fetched run
  fetch_metadata events driver = parse_fetched (run sha1 events driver).1
