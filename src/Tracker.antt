-- ===== src/Tracker.antt =====
-- domain/tracker.rs, and from adapters/tracker_io.rs the errors and the codes of the events.
pub mod Udp
pub mod UdpLaws
pub mod UdpAnswers
pub mod Http
pub mod HttpLaws
pub mod Announce
pub mod AnnounceLaws
pub mod Tests
use tortue.Prelude.{ℕ, Bytes, List, Bool, Option, some, codes}
use tortue.Net.{SocketAddr}
use tortue.Bencode.Value
use tortue.Message.Types
use tortue.Swarm.State.{SwarmStatus}

pub data AnnounceEvent : Type 0 where
  started completed stopped : AnnounceEvent

pub record SessionStats : Type 0 where
  pub swarm_status : SwarmStatus
  pub uploaded : ℕ
  pub downloaded : ℕ
  pub left : ℕ

pub record AnnounceRequest : Type 0 where
  pub info_hash : Bytes
  pub peer_id : Bytes
  pub port : ℕ
  pub stats : SessionStats
  pub event : AnnounceEvent
  pub compact : Bool

pub record TrackerResponse : Type 0 where
  pub interval : ℕ
  pub peers : List SocketAddr

pub record Node : Type 0 where
  pub id : Bytes
  pub port : ℕ

-- Without the texts.
pub data Error : Type 0 where
  http_request udp_request tracker_failure invalid_response io : Error
  bencode : Value.Error → Error
  message : Types.Error → Error

unfoldable pub as_http_str : AnnounceEvent → Option Bytes
as_http_str started = some (codes "started")
as_http_str completed = some (codes "completed")
as_http_str stopped = some (codes "stopped")

unfoldable pub as_udp_code : AnnounceEvent → ℕ
as_udp_code completed = 1
as_udp_code started = 2
as_udp_code stopped = 3
