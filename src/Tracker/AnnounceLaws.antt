-- ===== src/Tracker/AnnounceLaws.antt =====
-- The loop that announces: how long it waits, and what it says.
use tortue.Prelude.{
  ℕ, suc, ◌*◌, ◌^◌, List, [], ◌∷◌, Bool, true, false, Result, ok, err, All, map, ◌==◌,
  if◌then◌else◌, min, max, ◌≡◌, ◌≢◌, refl, sym, ap, ◌∙◌, arith,
}
use tortue.Swarm.State.{upload}
use tortue.Tracker.{
  AnnounceEvent, started, completed, stopped, SessionStats, TrackerResponse, Error,
}
use tortue.Tracker.Announce.{
  TrackerIo, Loop, begin, Round, Announced, next_event, make_request, after_answer, ends, announce,
  run,
}

-- The backoff after `k` failures in a row: 15 seconds doubled `k` times, an hour at most.
abbrev pub backoff_after : ℕ → ℕ
backoff_after k = min (15 * 2 ^ k) 3600

abbrev after : Result Error TrackerResponse → ℕ → (ℕ → ℕ → List ℕ) → List ℕ
after (ok resp) k rest = rest (max resp.interval 60) 0
after (err e) k rest = rest (backoff_after k) (suc k)

-- The waits without the loop's state: `i` before this round, after `k` failures in a row.
unfoldable pub waits : ℕ → ℕ → List Round → List ℕ
unfolding ends
waits i k [] = []
waits i k (r ∷ rs) = i ∷ (if ends r then [] else after r.answer k (λ j m. waits j m rs))

abbrev pub slept_by : List Announced → List ℕ
slept_by = map (λ (a : Announced). a.slept)

slept_by-if :
    (b : Bool) (xs : List Announced)
    → slept_by (if b then [] else xs) ≡ (if b then [] else slept_by xs)
slept_by-if true xs = refl
slept_by-if false xs = refl

backoff_after-suc : (k : ℕ) → min (backoff_after k * 2) 3600 ≡ backoff_after (suc k)
backoff_after-suc k = omega arith

after_answer_lem :
    (answer : Result Error TrackerResponse) (l : Loop) (k : ℕ) (slept : Loop → List ℕ)
    (rest : ℕ → ℕ → List ℕ)
    → l.backoff ≡ backoff_after k
    → ((m : Loop) (j : ℕ) → m.backoff ≡ backoff_after j → slept m ≡ rest m.interval j)
    → slept (after_answer answer l) ≡ after answer k rest
unfolding after_answer
after_answer_lem (ok resp) l k slept rest h ih = ih (after_answer (ok resp) l) 0 refl
after_answer_lem (err e) l k slept rest h ih =
    ih (after_answer (err e) l) (suc k) (ap (λ b. min (b * 2) 3600) h ∙ backoff_after-suc k)
    ∙ ap (λ b. rest b (suc k)) h

slept_by-run :
    (io : TrackerIo) (rs : List Round) (l : Loop) (k : ℕ)
    → l.backoff ≡ backoff_after k
    → slept_by (run io rs l) ≡ waits l.interval k rs
unfolding run waits announce
slept_by-run io [] l k h = refl
slept_by-run io (r ∷ rs) l k h =
    let now : Loop = record l { event = next_event r.stats l.event } in
    ap (λ t. l.interval ∷ t)
      (slept_by-if (ends r) (run io rs (after_answer r.answer now))
        ∙ ap (λ t. if ends r then [] else t)
            (after_answer_lem r.answer now k (λ m. slept_by (run io rs m)) (λ j m. waits j m rs) h
              (slept_by-run io rs)))

-- How long the loop sleeps before each announce, whatever answers come: not at all before the
-- first; after an answer, its interval, a minute at least; after k failures in a row, 15 seconds
-- doubled k - 1 times, an hour at most; and a success starts the count again.
pub slept_by-run-begin :
    (io : TrackerIo) (rs : List Round) → slept_by (run io rs begin) ≡ waits 0 0 rs
slept_by-run-begin io rs = slept_by-run io rs begin 0 refl

abbrev pub NotStarted : Announced → Type 0
NotStarted a = a.request.event ≢ started

completed_ne_started : completed ≢ started
completed_ne_started h = cc

stopped_ne_started : stopped ≢ started
stopped_ne_started h = cc

true_ne_false : true ≢ false
true_ne_false h = cc

chosen_ne_started :
    (complete on : Bool) (e : AnnounceEvent)
    → (on ≡ true → e ≢ started)
    → (if complete then completed else if on then e else stopped) ≢ started
chosen_ne_started true on e h = completed_ne_started
chosen_ne_started false true e h = h refl
chosen_ne_started false false e h = stopped_ne_started

next_event-not_started :
    (stats : SessionStats) (e : AnnounceEvent) → e ≢ started → next_event stats e ≢ started
unfolding next_event
next_event-not_started stats e h =
    chosen_ne_started (stats.left == 0) (upload stats.swarm_status) e λ on. h

next_event-stopped :
    (stats : SessionStats) (e : AnnounceEvent)
    → upload stats.swarm_status ≡ false
    → next_event stats e ≢ started
unfolding next_event
next_event-stopped stats e h =
    chosen_ne_started (stats.left == 0) (upload stats.swarm_status) e
      λ on. absurd (true_ne_false (sym on ∙ h))

after_answer-event :
    (answer : Result Error TrackerResponse) (l : Loop) → (after_answer answer l).event ≡ l.event
unfolding after_answer
after_answer-event (ok resp) l = refl
after_answer-event (err e) l = refl

All-if :
    (b : Bool) (xs : List Announced) → All NotStarted xs → All NotStarted (if b then [] else xs)
All-if true xs h = tt
All-if false xs h = h

run-NotStarted :
    (io : TrackerIo) (rs : List Round) (l : Loop) → l.event ≢ started → All NotStarted (run io rs l)
unfolding run announce make_request
run-NotStarted io [] l h = tt
run-NotStarted io (r ∷ rs) l h =
    let now : Loop = record l { event = next_event r.stats l.event } in
    let still : next_event r.stats l.event ≢ started = next_event-not_started r.stats l.event h in
    (
      still,
      All-if (ends r) (run io rs (after_answer r.answer now)) (
          run-NotStarted io rs (after_answer r.answer now)
            (λ e. still (sym (after_answer-event r.answer now) ∙ e))),
    )

-- From an announce on that finds upload off, no announce says `started`, not when upload is on
-- again either.
pub run_never_restarts :
    (io : TrackerIo) (r : Round) (rs : List Round) (l : Loop)
    → upload r.stats.swarm_status ≡ false
    → All NotStarted (run io (r ∷ rs) l)
unfolding run announce make_request
run_never_restarts io r rs l h =
    let now : Loop = record l { event = next_event r.stats l.event } in
    let off : next_event r.stats l.event ≢ started = next_event-stopped r.stats l.event h in
    (
      off,
      All-if (ends r) (run io rs (after_answer r.answer now)) (
          run-NotStarted io rs (after_answer r.answer now)
            (λ e. off (sym (after_answer-event r.answer now) ∙ e))),
    )
