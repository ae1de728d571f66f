-- ===== src/Tracker/UdpAnswers.antt =====
-- The UDP answers against BEP 15, and a whole announce.
use tortue.Prelude.{
  ℕ, ◌^◌, ◌≤◌, ◌<◌, Bytes, List, ◌++◌, All, Result, ok, length, drop, ◌≡◌, refl, ==_refl, ltb, not,
  false, ◌==◌, guard-eq-ok, >>=-eq-ok, if◌then◌else◌, ok-injective, map_err, sym, ap, arith,
}
use tortue.Prelude.Be.{to_be_bytes32, to_be_bytes64, from_be-to_be32, from_be-to_be64}
use tortue.Net.{SocketAddr}
use tortue.Message.Pex.{compact_v4, parse_socket_addrs}
use tortue.Message.PexLaws.{FitsV4, parse_socket_addrs-compact_v4}
use tortue.Tracker.{TrackerResponse, Error, invalid_response, message}
use tortue.Tracker.Udp.{number_at, parse_connect_response, parse_announce_response}

-- The answers of BEP 15.
abbrev pub connect_answer : ℕ → ℕ → Bytes
connect_answer tx c = to_be_bytes32 0 ++ (to_be_bytes32 tx ++ to_be_bytes64 c)

abbrev pub announce_answer : ℕ → ℕ → ℕ → ℕ → List SocketAddr → Bytes
announce_answer tx interval leechers seeders peers =
    to_be_bytes32 1
    ++ (to_be_bytes32 tx
        ++ (to_be_bytes32 interval
            ++ (to_be_bytes32 leechers ++ (to_be_bytes32 seeders ++ compact_v4 peers))))

ltb_long : (n m : ℕ) → n ≤ m → ltb m n ≡ false
ltb_long n m h = ground arith

-- The connection identifier of an answer is read, whatever follows it.
pub parse_connect_response-answer :
    (tx c : ℕ) (more : Bytes)
    → tx < 2 ^ 32
    → c < 2 ^ 64
    → parse_connect_response (connect_answer tx c ++ more) tx ≡ ok c
unfolding parse_connect_response
parse_connect_response-answer tx c more t h =
    rw
      (
        ltb_long 16 (length (connect_answer tx c ++ more)) (omega arith),
        from_be-to_be32 tx t,
        from_be-to_be64 c h,
        ==_refl tx,
      )
      refl

pub parse_announce_response-answer :
    (tx interval leechers seeders : ℕ) (peers : List SocketAddr)
    → tx < 2 ^ 32
    → interval < 2 ^ 32
    → All FitsV4 peers
    → parse_announce_response (announce_answer tx interval leechers seeders peers) tx
      ≡ ok (record { interval = interval; peers = peers })
unfolding parse_announce_response
parse_announce_response-answer tx interval leechers seeders peers u i f =
    rw
      (
        ltb_long 20 (length (announce_answer tx interval leechers seeders peers)) (omega arith),
        from_be-to_be32 tx u,
        ==_refl tx,
        parse_socket_addrs-compact_v4 peers f,
        from_be-to_be32 interval i,
      )
      refl

-- A tracker of BEP 15: it answers under the transaction that it reads in the packet.
abbrev pub tracker : ℕ → ℕ → ℕ → ℕ → List SocketAddr → Bytes → Result Error Bytes
tracker c interval leechers seeders peers s =
    if length s == 16
    then ok (connect_answer (number_at 12 4 s) c)
    else ok (announce_answer (number_at 12 4 s) interval leechers seeders peers)

-- An announce answer that is accepted has the 20 bytes of its header, the action of an announcement
-- and the transaction that was asked for, and its interval is the number at byte 8: an answer to
-- another request is refused.
pub parse_announce_response-Answers :
    (s : Bytes) (tx : ℕ) (r : TrackerResponse)
    → parse_announce_response s tx ≡ ok r
    → (20 ≤ length s)
      × (number_at 0 4 s ≡ 1)
      × (number_at 4 4 s ≡ tx)
      × (r.interval ≡ number_at 8 4 s)
unfolding parse_announce_response
parse_announce_response-Answers s tx r h =
    let (long, h₁) = guard-eq-ok (ltb (length s) 20) invalid_response _ r h in
    let (action, h₂) = guard-eq-ok (not (number_at 0 4 s == 1)) invalid_response _ r h₁ in
    let (same, h₃) = guard-eq-ok (not (number_at 4 4 s == tx)) invalid_response _ r h₂ in
    let (peers, _, h₄) = >>=-eq-ok (map_err message (parse_socket_addrs (drop 20 s))) _ h₃ in
    (
      ground (arith, long),
      ground (arith, action),
      ground (arith, same),
      ap (λ (k : TrackerResponse). k.interval) (sym (ok-injective _ r h₄)),
    )
