-- ===== src/Peer/ReconnectLaws.antt =====
-- The sleeps of adapters/peer_io.rs before its attempts to connect.
use tortue.Prelude.{
  ℕ, zero, suc, ◌+◌, ◌*◌, ◌≤◌, List, [], ◌∷◌, All, map, Bool, true, false, Result, ok, err, leb,
  if◌then◌else◌, length, ◌≡◌, refl, sym, ap, subst, min, max, arith,
}
use tortue.Peer.Reconnect.{
  Round, Exit, cancelled, max_attempts_exceeded, from_secs, reconnect_delay, next_delay, attempted,
  connect_with_retry,
}

-- The delays of `k` attempts, from one on.
abbrev delays : ℕ → ℕ → List ℕ
delays zero d = []
delays (suc k) d = d ∷ delays k (next_delay d)

-- The random factor is of the range 0.8 to 1.2.
abbrev pub IsNear : ℕ → ℕ → Type 0
IsNear s d = (4 * d ≤ 5 * s) × (5 * s ≤ 6 * d)

-- At most as many sleeps as delays, each near its delay.
abbrev pub IsNearAll : List ℕ → List ℕ → Type 0
IsNearAll [] ds = Unit
IsNearAll (s ∷ ss) [] = ⊥
IsNearAll (s ∷ ss) (d ∷ ds) = IsNear s d × IsNearAll ss ds

-- A delay is of whole seconds, up to the maximum.
abbrev IsWhole : ℕ → Type 0
IsWhole d = (secs : ℕ) × (d ≡ from_secs secs) × (secs ≤ 90)

next_delay-IsWhole : (d : ℕ) → IsWhole d → IsWhole (next_delay d)
next_delay-IsWhole d w = (min (max (w.0 * 2) 4) 90, ground (arith, w), ground arith)

module _ {C : Type 0} where
  -- The sleeps follow the delays, one for each attempt.
  abbrev IsWithin : ℕ → ℕ → ℕ → List ℕ × Exit C → Type 0
  IsWithin n k d x = IsNearAll x.0 (delays k d) × (length x.0 ≡ n)

  guard-IsWithin :
      (b : Bool) (n k d : ℕ) (e : Exit C) (x : List ℕ × Exit C)
      → IsWithin n k d x
      → IsWithin (if b then 0 else n) k d (if b then ([], e) else x)
  guard-IsWithin true n k d e x h = (tt, refl)
  guard-IsWithin false n k d e x h = h

module _ {C E : Type 0} where
  -- The factor is `random_range(0.8..=1.2)`: a delay of whole seconds, up to the maximum, is
  -- multiplied by it, and what `mul_f64` rounds to a nanosecond is in the range too.
  abbrev pub IsJittered : Round C E → Type 0
  IsJittered r = (secs : ℕ) → secs ≤ 90 → IsNear (r.jittered (from_secs secs)) (from_secs secs)

  jittered-IsNear : (r : Round C E) (d : ℕ) → IsJittered r → IsWhole d → IsNear (r.jittered d) d
  jittered-IsNear r d j w = subst (λ e. IsNear (r.jittered e) e) (sym w.1) (j w.0 w.2)

  -- How many attempts are made of the `k` that are left: up to the first that connects, or to the
  -- signal to cancel.
  abbrev pub made : Result E C → ℕ → ℕ
  made (ok c) later = 1
  made (err e) later = suc later

  unfoldable pub attempts_of : ℕ → List (Round C E) → ℕ
  attempts_of zero rs = 0
  attempts_of (suc k) [] = 0
  attempts_of (suc k) (r ∷ rs) =
      let later = attempts_of k rs in if r.cancelled then 0 else made r.connect later

  attempted-IsWithin :
      (n k d s : ℕ) (r : Result E C) (rest : List ℕ × Exit C)
      → IsNear s d
      → IsWithin n k (next_delay d) rest
      → IsWithin (made r n) (suc k) d (attempted s r rest)
  attempted-IsWithin n k d s (ok c) rest near h = ((near, tt), refl)
  attempted-IsWithin n k d s (err e) rest near h = ((near, h.0), ap suc h.1)

  connect_with_retry-IsWithin :
      (rs : List (Round C E)) (attempts d k : ℕ)
      → All IsJittered rs
      → IsWhole d
      → attempts + k ≡ 5
      → IsWithin (attempts_of k rs) k d (connect_with_retry rs attempts d)
  unfolding connect_with_retry attempts_of
  connect_with_retry-IsWithin [] attempts d zero j w h = (tt, refl)
  connect_with_retry-IsWithin [] attempts d (suc k) j w h = (tt, refl)
  connect_with_retry-IsWithin (r ∷ rs) attempts d zero j w h =
      let full : leb 5 attempts ≡ true = ground (arith, h) in rw full (given_up r.cancelled)
    where
      given_up :
          (b : Bool)
          → IsWithin {C = C} 0 zero d (if b then ([], cancelled) else ([], max_attempts_exceeded))
      given_up true = (tt, refl)
      given_up false = (tt, refl)
  connect_with_retry-IsWithin (r ∷ rs) attempts d (suc k) j w h =
      let more : leb 5 attempts ≡ false = ground (arith, h) in
      rw more (
        guard-IsWithin r.cancelled _ (suc k) d _ _ (
          attempted-IsWithin (attempts_of k rs) k d (r.jittered d) r.connect
            (connect_with_retry rs (attempts + 1) (next_delay d)) (jittered-IsNear r d j.0 w)
            (connect_with_retry-IsWithin rs (attempts + 1) (next_delay d) k j.1
              (next_delay-IsWhole d w) (omega (arith, h)))))

  -- The sleeps before the attempts of a first connection follow the first ones of 0, 4, 8, 16 and
  -- 32 seconds, and those of a reconnection 4, 8, 16, 32 and 64, each between 0.8 and 1.2 times
  -- that delay, where the random factor of each round is of that range; there is one sleep for each
  -- attempt, and the attempts go on up to the first that connects, the signal to cancel, or the
  -- fifth.
  pub connect_with_retry-IsNearAll :
      (rs : List (Round C E)) (first : Bool)
      → All IsJittered rs
      → let sleeps = (connect_with_retry rs 0 (if first then 0 else reconnect_delay)).0 in
        IsNearAll sleeps
          (map from_secs (if first then 0 ∷ 4 ∷ 8 ∷ 16 ∷ 32 ∷ [] else 4 ∷ 8 ∷ 16 ∷ 32 ∷ 64 ∷ []))
        × (length sleeps ≡ attempts_of 5 rs)
  connect_with_retry-IsNearAll rs true j =
      connect_with_retry-IsWithin rs 0 0 5 j (0, refl, omega arith) refl
  connect_with_retry-IsNearAll rs false j =
      connect_with_retry-IsWithin rs 0 reconnect_delay 5 j (4, refl, omega arith) refl
