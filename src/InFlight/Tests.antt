-- ===== src/InFlight/Tests.antt =====
-- tower-in-flight-limit/src/lib.rs at limits of one and two, with a service that counts.
use pants_tower.Base.{
  ℕ, zero, suc, ◌+◌, ◌≤◌, ◌≡◌, ◌≢◌, ◌⊎◌, refl, Bool, true, false, some, [], ◌∷◌, arith,
}
use pants_tower.Service.{Poll, ready, not_ready, Future, Service}
use pants_tower.InFlight.{
  AtomicTask, Shared, InFlightLimit, ResponseFuture, Error, new, clone, register, dispatch, reserve,
  reserve_loop, poll_inner, reserve_round, poll_ready, call, poll, drop_future, after_poll_reserve,
  after_call_reserve,
}
use pants_tower.InFlight.Ops.{IsWithin, call-poll_ready}
use pants_tower.InFlight.Steps.{
  System, polling, calling, rests, tries, Reach, here, next, runs, begins, takes, clones, start,
  run_use, begin_use, end_use, put_back,
}
use pants_tower.InFlight.System.{held, in_flight, Reach-in_flight, Reach-release}

-- A task that waits is there or not.
abbrev wakeup : AtomicTask Bool
wakeup = record { register = λ t. true; notify = λ t. false }

-- A service is the number of its requests; a future is the polls that are left before it answers.
abbrev counter : Service ℕ ℕ ℕ ℕ
counter = record { poll_ready = λ s. (ready tt, s); call = λ s r. (r, s + 1) }

abbrev poll_delay : ℕ → Poll ℕ ℕ × ℕ
poll_delay zero = (ready 7, 0)
poll_delay (suc n) = (not_ready, n)

abbrev delay : Future ℕ ℕ ℕ
delay = record { poll = poll_delay }

abbrev cell : ℕ → ℕ → Shared Bool
cell max curr = record { max = max; curr = curr; task = false }

abbrev handle : Bool → InFlightLimit ℕ
handle reserved = record { inner = 0; reserved = reserved }

IsWithin-one : (curr : ℕ) → curr ≤ 2 → IsWithin (cell 2 curr)
IsWithin-one curr h = omega arith

ready_ne : (q : Poll (Unit {0}) (Error ℕ)) → q ≡ ready tt → q ≢ not_ready
ready_ne q e f = cc

call-poll_ready_example :
    let self' = (poll_ready wakeup counter (handle false) (cell 2 1)).1 in
    ((call wakeup counter self' (cell 2 2) 5).0.inner ≡ some (counter.call self'.inner 5).0)
    × ((call wakeup counter self' (cell 2 2) 5).1.reserved ≡ false)
    × ((call wakeup counter self' (cell 2 2) 5).2 ≡ cell 2 2)
unfolding poll_ready poll_inner after_poll_reserve register reserve reserve_loop reserve_round
call-poll_ready_example =
    call-poll_ready wakeup counter (handle false) (cell 2 1) (cell 2 2) 5 (ready_ne _ refl)

abbrev Users : Type 0
Users = System ℕ Bool ℕ ℕ

abbrev served_cell : Shared Bool
served_cell = record { max = 1; curr = 1; task = true }

abbrev sent : ResponseFuture ℕ
sent = record { inner = some 5 }

-- One handle still loops, for a request, when the request of the other is in flight.
abbrev served : Users
served = record {
  shared = served_cell;
  handles = rests (record { inner = 1; reserved = false }) ∷ tries (calling 9) 0 0 ∷ [];
  futures = sent ∷ [];
}

served_reached : Reach wakeup counter delay (start 0 1 false) served
unfolding start new clone run_use begin_use end_use put_back register poll_ready call
    after_poll_reserve after_call_reserve poll_inner dispatch reserve_round
served_reached =
    let a : Reach wakeup counter delay (start 0 1 false) _ =
      next here (clones (handle false) [] [] refl refl) in
    let b : Reach wakeup counter delay (start 0 1 false) _ =
      next a (begins (calling 9) 0 (rests (handle false) ∷ []) [] refl refl) in
    let c : Reach wakeup counter delay (start 0 1 false) _ =
      next b (begins polling 0 [] (tries (calling 9) 0 0 ∷ []) refl refl) in
    let d : Reach wakeup counter delay (start 0 1 false) _ =
      next c (takes polling 0 0 _ [] (tries (calling 9) 0 0 ∷ []) refl refl refl) in
    next d (runs (calling 5) (handle true) [] (tries (calling 9) 0 0 ∷ []) refl refl)

Reach-in_flight_example :
    (1 ≡ held served.handles + in_flight served.futures)
    × (held served.handles + in_flight served.futures ≤ 1)
Reach-in_flight_example =
    Reach-in_flight wakeup counter delay 1 0 false (omega arith) served_reached

Reach-release_example :
    let (p, f', sh') = poll wakeup delay sent served_cell in
    (1 ≤ 1)
    × ((drop_future wakeup sent served_cell).curr + 1 ≡ 1)
    × (((p ≡ not_ready) × (sh' ≡ served_cell)) ⊎ ((p ≢ not_ready) × (sh'.curr + 1 ≡ 1)))
    × (sh'.curr ≤ sh'.max)
    × ((drop_future wakeup f' sh').curr + 1 ≡ 1)
Reach-release_example =
    Reach-release wakeup counter delay 1 0 false sent 5 [] [] (omega arith) served_reached refl refl
