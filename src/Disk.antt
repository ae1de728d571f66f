-- ===== src/Disk.antt =====
-- adapters/disk_storage.rs: pieces in the files of a torrent.
pub mod Files
pub mod Storage
pub mod Create
pub mod Paths
pub mod Flat
pub mod WriteLaws
pub mod ReadLaws
pub mod Refinement
pub mod Opening
pub mod RoundTrip
pub mod StorageLaws
pub mod PathsLaws
pub mod Tests
