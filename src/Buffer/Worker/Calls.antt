-- ===== src/Buffer/Worker/Calls.antt =====
-- The worker of tower-buffer/src/lib.rs as a caller of the service that it drives.
use pants_tower.Base.{arith, ℕ, zero, suc, Bool, true, false, Option, none, some}
use pants_tower.Service.{Poll, ready, not_ready, err, DirectService}
use pants_tower.Machine.{Outcome, Allows, bind-Allows, bind, ◌>>=◌, return}
use pants_tower.Channels.{Mpsc, Oneshot}
use pants_tower.Protocol.{After}
use pants_tower.Buffer.{Message}
use pants_tower.Buffer.Worker.{
  Worker, Flow, continues, ends, is_alive, receive, or_else, next_in_queue, take_current,
  after_take, next_unless, poll_next_msg, after_close, close, after_service, advance, drive_in,
  drive, dispatch, put_back, shut, after_ready, offer, after_next, turn, unless_done, turns, poll,
}

-- A service that is driven too keeps `Idle`, where it is called only from `Armed`.
pub record DirectKeeps {S Req F E : Type 0} (svc : DirectService S Req F E)
    (Idle Armed : S → Type 0) : Type 0 where
  pub relax : (s : S) → Armed s → Idle s
  pub asked : (s : S) → Idle s → After Idle Armed (svc.poll_ready s).0 (svc.poll_ready s).1
  pub called : (s : S) (req : Req) → Armed s → Idle (svc.call s req).1
  pub driven : (s : S) → Idle s → Idle (svc.poll_service s).1
  pub closed : (s : S) → Idle s → Idle (svc.poll_close s).1

module _ {S Req F E H T Q O : Type 0} (svc : DirectService S Req F E)
    (mpsc : Mpsc T Q (Message Req H)) (oneshot : Oneshot H F O) (Idle Armed : S → Type 0)
    (keeps : DirectKeeps svc Idle Armed) where
  abbrev Turning : {A : Type 0} → Outcome (Worker S Req H Q O) A (Unit {0}) → Type 0
  Turning = Allows (λ a w. Idle w.service) (λ e w. Idle w.service)

  bind-Turning :
      {A B : Type 0} (o : Outcome (Worker S Req H Q O) A (Unit {0}))
      (f : A → Worker S Req H Q O → Outcome (Worker S Req H Q O) B (Unit {0}))
      → Turning o
      → ((a : A) (w : Worker S Req H Q O) → Idle w.service → Turning (f a w))
      → Turning (bind o f)
  bind-Turning o f h k =
      bind-Allows (λ a w. Idle w.service) (λ b w. Idle w.service) (λ e w. Idle w.service) o f h k

  is_alive-Turning :
      (msg : Message Req H) (w : Worker S Req H Q O)
      → Idle w.service
      → Turning (is_alive svc mpsc oneshot msg w)
  unfolding is_alive
  is_alive-Turning msg w h = ground arith

  receive-Turning : (w : Worker S Req H Q O) → Idle w.service → Turning (receive svc mpsc oneshot w)
  unfolding receive
  receive-Turning w h = ground arith

  abbrev Task : Type 0
  Task =
      Worker S Req H Q O → Outcome (Worker S Req H Q O) (Option (Option (Message Req H))) (Unit {0})

  or_else-Turning :
      (msg : Message Req H) (next : Task)
      → ((w : Worker S Req H Q O) → Idle w.service → Turning (next w))
      → (alive : Bool) (w : Worker S Req H Q O) → Idle w.service
      → Turning (or_else svc mpsc oneshot msg alive next w)
  unfolding or_else
  or_else-Turning msg next ih true w h = h
  or_else-Turning msg next ih false w h = ih w h

  received-Turning :
      (again : Task)
      → ((w : Worker S Req H Q O) → Idle w.service → Turning (again w))
      → (next : Option (Option (Message Req H))) (w : Worker S Req H Q O) → Idle w.service
      → Turning (
          let m : Task = elim next [
            | none ↦ return none
            | some none ↦ return (some none)
            | some (some msg) ↦
                (is_alive svc mpsc oneshot msg >>= λ alive.
                or_else svc mpsc oneshot msg alive again)
          ] in
          m w)
  received-Turning again ih none w h = h
  received-Turning again ih (some none) w h = h
  received-Turning again ih (some (some msg)) w h =
      bind-Turning (is_alive svc mpsc oneshot msg w) _ (is_alive-Turning msg w h)
        (or_else-Turning msg again ih)

  next_in_queue-Turning :
      (fuel : ℕ) (w : Worker S Req H Q O)
      → Idle w.service
      → Turning (next_in_queue svc mpsc oneshot fuel w)
  unfolding next_in_queue
  next_in_queue-Turning zero w h = tt
  next_in_queue-Turning (suc fuel) w h =
      bind-Turning (receive svc mpsc oneshot w) _ (receive-Turning w h)
        (received-Turning _ (next_in_queue-Turning fuel))

  after_take-Turning :
      (fuel : ℕ) (o : Option (Message Req H)) (w : Worker S Req H Q O)
      → Idle w.service
      → Turning (after_take svc mpsc oneshot fuel o w)
  unfolding after_take
  after_take-Turning fuel none w h = next_in_queue-Turning fuel w h
  after_take-Turning fuel (some msg) w h =
      bind-Turning (is_alive svc mpsc oneshot msg w) _ (is_alive-Turning msg w h)
        (or_else-Turning msg _ (next_in_queue-Turning fuel))

  next_unless-Turning :
      (finished : Bool) (fuel : ℕ) (w : Worker S Req H Q O)
      → Idle w.service
      → Turning (next_unless svc mpsc oneshot finished fuel w)
  unfolding next_unless take_current
  next_unless-Turning true fuel w h = h
  next_unless-Turning false fuel w h =
      after_take-Turning fuel w.current_message (record w { current_message = none }) h

  after_close-Turning :
      (p : Poll (Unit {0}) E) (w : Worker S Req H Q O)
      → Idle w.service
      → Turning (after_close svc mpsc oneshot p w)
  unfolding after_close
  after_close-Turning (ready u) w h = h
  after_close-Turning not_ready w h = h
  after_close-Turning (err e) w h = h

  after_service-Turning :
      (p : Poll (Unit {0}) E) (w : Worker S Req H Q O)
      → Idle w.service
      → Turning (after_service svc mpsc oneshot p w)
  unfolding after_service
  after_service-Turning (ready u) w h = h
  after_service-Turning not_ready w h = h
  after_service-Turning (err e) w h = h

  drive_in-Turning :
      (finished any : Bool) (w : Worker S Req H Q O)
      → Idle w.service
      → Turning (drive_in svc mpsc oneshot finished any w)
  unfolding drive_in close advance
  drive_in-Turning true any w h =
      after_close-Turning (svc.poll_close w.service).0 _ (keeps.closed w.service h)
  drive_in-Turning false true w h =
      after_service-Turning (svc.poll_service w.service).0 _ (keeps.driven w.service h)
  drive_in-Turning false false w h = tt

  drive-Turning :
      (any : Bool) (w : Worker S Req H Q O)
      → Idle w.service
      → Turning (drive svc mpsc oneshot any w)
  unfolding drive
  drive-Turning any w h = drive_in-Turning w.finish any w h

  put_back-Turning :
      (any : Bool) (msg : Message Req H) (w : Worker S Req H Q O)
      → Idle w.service
      → Turning (put_back svc mpsc oneshot any msg w)
  unfolding put_back
  put_back-Turning true msg w h = drive-Turning true (record w { current_message = some msg }) h
  put_back-Turning false msg w h = h

  after_ready-Turning :
      (any : Bool) (msg : Message Req H) (p : Poll (Unit {0}) E) (w : Worker S Req H Q O)
      → After Idle Armed p w.service
      → Turning (after_ready svc mpsc oneshot any msg p w)
  unfolding after_ready dispatch shut
  after_ready-Turning any msg (ready u) w h = keeps.called w.service msg.request h
  after_ready-Turning any msg not_ready w h = put_back-Turning any msg w h
  after_ready-Turning any msg (err e) w h = h

  after_next-Turning :
      (any : Bool) (next : Option (Option (Message Req H))) (w : Worker S Req H Q O)
      → Idle w.service
      → Turning (after_next svc mpsc oneshot any next w)
  unfolding after_next offer
  after_next-Turning any (some (some msg)) w h =
      after_ready-Turning any msg (svc.poll_ready w.service).0 _ (keeps.asked w.service h)
  after_next-Turning any (some none) w h = drive-Turning any (record w { finish = true }) h
  after_next-Turning true none w h = drive-Turning true w h
  after_next-Turning false none w h = h

  turn-Turning :
      (fuel : ℕ) (any : Bool) (w : Worker S Req H Q O)
      → Idle w.service
      → Turning (turn svc mpsc oneshot fuel any w)
  unfolding turn poll_next_msg
  turn-Turning fuel any w h =
      bind-Turning (next_unless svc mpsc oneshot w.finish fuel w) _
        (next_unless-Turning w.finish fuel w h) (after_next-Turning any)

  unless_done-Turning :
      (again : Bool → Worker S Req H Q O → Outcome (Worker S Req H Q O) Bool (Unit {0}))
      → ((any : Bool) (w : Worker S Req H Q O) → Idle w.service → Turning (again any w))
      → (flow : Flow) (w : Worker S Req H Q O) → Idle w.service
      → Turning (unless_done svc mpsc oneshot again flow w)
  unfolding unless_done
  unless_done-Turning again ih (continues any) w h = ih any w h
  unless_done-Turning again ih (ends done) w h = h

  turns-Turning :
      (skips fuel : ℕ) (any : Bool) (w : Worker S Req H Q O)
      → Idle w.service
      → Turning (turns svc mpsc oneshot skips fuel any w)
  unfolding turns
  turns-Turning skips zero any w h = tt
  turns-Turning skips (suc fuel) any w h =
      bind-Turning (turn svc mpsc oneshot skips any w) _ (turn-Turning skips any w h)
        (unless_done-Turning _ (turns-Turning skips fuel))

  -- A poll of the worker calls its service only after it has told that it is ready.
  pub poll-Turning :
      (skips fuel : ℕ) (w : Worker S Req H Q O)
      → Idle w.service
      → Turning (poll svc mpsc oneshot skips fuel w)
  unfolding poll
  poll-Turning skips fuel w h = turns-Turning skips fuel true w h
