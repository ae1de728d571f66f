-- ===== src/Tracker/Tests.antt =====
-- The tracker client at concrete packets and rounds.
use tortue.Prelude.{
  ℕ, Bytes, List, [], ◌∷◌, All, Option, none, ok, err, true, false, replicate, length, ◌≡◌, ◌≤◌,
  refl, arith,
}
use tortue.Net.{SocketAddr, v4}
use tortue.Swarm.State.{active, download_only, upload}
use tortue.Tracker.{SessionStats, AnnounceRequest, started, io}
use tortue.Tracker.Udp.{build_announce_request, number_at, parse_announce_response}
use tortue.Tracker.UdpLaws.{
  IsSendable, read_announce, intended, read_announce-build_announce_request,
}
use tortue.Tracker.UdpAnswers.{
  announce_answer, parse_announce_response-answer, parse_announce_response-Answers,
}
use tortue.Tracker.Http.{parse_response}
use tortue.Tracker.HttpLaws.{compact_answer, parse_response-compact_answer}
use tortue.Bencode.Value.{WellFormed, cmp}
use tortue.Bencode.Encoder.{encode}
use tortue.Message.Pex.{compact_v4}
use tortue.Tracker.Announce.{TrackerIo, Round, begin, run}
use tortue.Tracker.AnnounceLaws.{
  slept_by, waits, slept_by-run-begin, NotStarted, run_never_restarts,
}

abbrev stats : SessionStats
stats = record { swarm_status = active; uploaded = 1; downloaded = 2; left = 3 }

abbrev request : AnnounceRequest
request = record {
  info_hash = replicate 20 7;
  peer_id = replicate 20 8;
  port = 1234;
  stats = stats;
  event = started;
  compact = true;
}

sendable : IsSendable 5 6 9 request
sendable = record {
  connection_id = omega arith;
  transaction_id = omega arith;
  key = omega arith;
  info_hash = refl;
  peer_id = refl;
  downloaded = omega arith;
  left = omega arith;
  uploaded = omega arith;
  port = omega arith;
}

read_announce-build_announce_request_example :
    read_announce (build_announce_request 5 6 9 request) ≡ intended 5 6 9 request
read_announce-build_announce_request_example =
    read_announce-build_announce_request 5 6 9 request sendable

abbrev peers : List SocketAddr
peers = v4 (10 ∷ 0 ∷ 0 ∷ 1 ∷ []) 6881 ∷ []

accepted :
    parse_announce_response (announce_answer 7 1800 1 2 peers) 7
    ≡ ok (record { interval = 1800; peers = peers })
accepted =
    parse_announce_response-answer 7 1800 1 2 peers (omega arith) (omega arith)
      ((refl, omega arith), tt)

parse_announce_response-Answers_case :
    (20 ≤ length (announce_answer 7 1800 1 2 peers))
    × (number_at 0 4 (announce_answer 7 1800 1 2 peers) ≡ 1)
    × (number_at 4 4 (announce_answer 7 1800 1 2 peers) ≡ 7)
    × (1800 ≡ number_at 8 4 (announce_answer 7 1800 1 2 peers))
parse_announce_response-Answers_case =
    parse_announce_response-Answers (announce_answer 7 1800 1 2 peers) 7
      (record { interval = 1800; peers = peers }) accepted

abbrev client : TrackerIo
client = record { info_hash = replicate 20 7; node = record { id = replicate 20 8; port = 1234 } }

abbrev failing : Round
failing = record { stats = stats; answer = err io; received = true }

abbrev answered : ℕ → Round
answered n = record {
  stats = stats;
  answer = ok (record { interval = n; peers = [] });
  received = true;
}

slept_by-run-begin_example :
    slept_by (run client (failing ∷ failing ∷ answered 5 ∷ failing ∷ []) begin)
    ≡ waits 0 0 (failing ∷ failing ∷ answered 5 ∷ failing ∷ [])
slept_by-run-begin_example =
    slept_by-run-begin client (failing ∷ failing ∷ answered 5 ∷ failing ∷ [])

slept :
    slept_by (run client (failing ∷ failing ∷ answered 5 ∷ failing ∷ []) begin)
    ≡ 0 ∷ 15 ∷ 30 ∷ 60 ∷ []
unfolding run
slept = refl

-- A swarm that only downloads, and then is active.
abbrev only_download : Round
only_download = record {
  stats = record stats { swarm_status = download_only };
  answer = err io;
  received = true;
}

upload_off : upload download_only ≡ false
unfolding upload
upload_off = refl

run_never_restarts_example :
    All NotStarted (run client (only_download ∷ answered 1800 ∷ answered 1800 ∷ []) begin)
run_never_restarts_example =
    run_never_restarts client only_download (answered 1800 ∷ answered 1800 ∷ []) begin upload_off

abbrev no_ip : Bytes → Option (ℕ → SocketAddr)
no_ip s = none

answer-WellFormed : WellFormed (compact_answer 1800 peers)
unfolding WellFormed compact_v4 cmp
answer-WellFormed =
    (((refl, tt), (tt, tt)), (omega arith, omega arith, (omega arith, omega arith, tt)))

parse_response-compact_answer_example :
    parse_response no_ip (encode (compact_answer 1800 peers))
    ≡ ok (record { interval = 1800; peers = peers })
parse_response-compact_answer_example =
    parse_response-compact_answer no_ip 1800 peers answer-WellFormed (omega arith)
      ((refl, omega arith), tt)
