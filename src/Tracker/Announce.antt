-- ===== src/Tracker/Announce.antt =====
-- adapters/tracker_io.rs, `TrackerIO`: the loop that announces, with its interval and its backoff.
use tortue.Prelude.{
  ℕ, ◌*◌, Bytes, List, [], ◌∷◌, Option, none, some, Bool, true, false, Result, ok, err, ◌==◌,
  if◌then◌else◌, min, max,
}
use tortue.Net.{SocketAddr}
use tortue.Swarm.State.{upload}
use tortue.Tracker.{
  AnnounceEvent, started, completed, stopped, SessionStats, AnnounceRequest, TrackerResponse, Node,
  Error,
}

-- Durations are in seconds.
abbrev pub initial_backoff : ℕ
initial_backoff = 15

abbrev pub max_backoff : ℕ
max_backoff = 3600

pub record TrackerIo : Type 0 where
  pub info_hash : Bytes
  pub node : Node

-- The variables of the loop.
pub record Loop : Type 0 where
  pub interval : ℕ
  pub backoff : ℕ
  pub event : AnnounceEvent

abbrev pub begin : Loop
begin = record { interval = 0; backoff = initial_backoff; event = started }

-- What a round meets: the statistics under the lock, the tracker's answer, and whether the peers
-- find a receiver.
pub record Round : Type 0 where
  pub stats : SessionStats
  pub answer : Result Error TrackerResponse
  pub received : Bool

-- What a round does: it sleeps, announces, and sends on the peers of an answer.
pub record Announced : Type 0 where
  pub slept : ℕ
  pub request : AnnounceRequest
  pub sent : Option (List SocketAddr)

unfoldable pub next_event : SessionStats → AnnounceEvent → AnnounceEvent
unfolding upload
next_event stats event =
    let after_status = if upload stats.swarm_status then event else stopped in
    if stats.left == 0 then completed else after_status

unfoldable pub make_request : TrackerIo → SessionStats → AnnounceEvent → AnnounceRequest
make_request io stats event = record {
  info_hash = io.info_hash;
  peer_id = io.node.id;
  port = io.node.port;
  stats = stats;
  event = event;
  compact = true;
}

-- The match on the answer.
unfoldable pub after_answer : Result Error TrackerResponse → Loop → Loop
after_answer (ok resp) l = record l { backoff = initial_backoff; interval = max resp.interval 60 }
after_answer (err e) l = record l {
  interval = l.backoff;
  backoff = min (l.backoff * 2) max_backoff;
}

abbrev peers_sent : Result Error TrackerResponse → Option (List SocketAddr)
peers_sent (ok resp) = some resp.peers
peers_sent (err e) = none

-- The loop returns where an answer finds no receiver.
unfoldable pub ends : Round → Bool
ends r = elim r.answer [ ok resp ↦ if r.received then false else true | err e ↦ false ]

unfoldable pub announce : TrackerIo → Round → Loop → Announced × Loop
unfolding next_event make_request after_answer
announce io r l =
    let event = next_event r.stats l.event in
    (
      record {
        slept = l.interval;
        request = make_request io r.stats event;
        sent = peers_sent r.answer;
      },
      after_answer r.answer (record l { event = event }),
    )

unfoldable pub run : TrackerIo → List Round → Loop → List Announced
unfolding announce ends
run io [] l = []
run io (r ∷ rs) l =
    let (a, next) = announce io r l in
    let rest = run io rs next in a ∷ (if ends r then [] else rest)
