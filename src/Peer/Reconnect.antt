-- ===== src/Peer/Reconnect.antt =====
-- adapters/peer_io.rs, `TcpPeerIO::connect_with_retry`: the attempts to connect to a peer.
use tortue.Prelude.{ℕ, ◌+◌, ◌*◌, List, [], ◌∷◌, Bool, Result, ok, err, leb, if◌then◌else◌, min, max}

-- Durations are in nanoseconds, as std has them.
abbrev pub from_secs : ℕ → ℕ
from_secs n = n * 1000000000

abbrev pub reconnect_delay : ℕ
reconnect_delay = from_secs 4

abbrev pub max_reconnect_delay : ℕ
max_reconnect_delay = from_secs 90

abbrev pub max_attempts : ℕ
max_attempts = 5

-- What a round meets: the signal to cancel, the product of a delay with the round's random factor,
-- `mul_f64(jitter)`, and the attempt to connect.
pub record Round (C : Type 0) (E : Type 0) : Type 0 where
  pub cancelled : Bool
  pub jittered : ℕ → ℕ
  pub connect : Result E C

-- How the loop ends, or that it goes on after the rounds.
pub data Exit (C : Type 0) : Type 0 where
  connected : C → Exit C
  cancelled max_attempts_exceeded going_on : Exit C

abbrev pub next_delay : ℕ → ℕ
next_delay delay = min (max (delay * 2) reconnect_delay) max_reconnect_delay

module _ {C E : Type 0} where
  -- The match on the attempt, after the sleep.
  abbrev pub attempted : ℕ → Result E C → List ℕ × Exit C → List ℕ × Exit C
  attempted slept (ok c) rest = (slept ∷ [], connected c)
  attempted slept (err e) rest = (slept ∷ rest.0, rest.1)

  -- The sleeps, and the end.
  unfoldable pub connect_with_retry : List (Round C E) → ℕ → ℕ → List ℕ × Exit C
  connect_with_retry [] attempts delay = ([], going_on)
  connect_with_retry (r ∷ rs) attempts delay =
      let rest = connect_with_retry rs (attempts + 1) (next_delay delay) in
      if r.cancelled
      then ([], cancelled)
      else if leb max_attempts attempts
      then ([], max_attempts_exceeded)
      else attempted (r.jittered delay) r.connect rest
