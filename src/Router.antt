-- ===== src/Router.antt =====
-- tower-router/src/lib.rs: a router that has at most one request waiting for its route. The cell
-- that is borrowed, the routes and their services are parameters.
pub mod System
pub mod Borrowing
pub mod Dispatch
pub mod Calls
mod Tests
use pants_tower.Base.{◌≡◌, Bool, true, false, Option, none, some}
use pants_tower.Service.{
  Poll, ready, not_ready, err, map_err, Result, success, failure, Service, Future,
}
use pants_tower.Loop.{Turn, stop, again, crash, Answer, answers, loop}

-- `Borrow` of the futures_borrow crate: a cell with a value, that one guard at a time borrows.
-- `read` and `write` are what the guard does with the value, and `release` drops the guard.
pub record Borrow (B G T : Type 0) : Type 0 where
  pub poll_ready : B → Poll (Unit {0}) (Unit {0}) × B
  pub try_borrow : B → Option G × B
  pub read : B → T
  pub write : T → B → B
  pub release : G → B → B
  pub borrowed : B → Bool
  pub poll_ready_free : (b : B) → borrowed b ≡ false → (poll_ready b).0 ≡ ready tt
  pub poll_ready_taken : (b : B) → borrowed b ≡ true → (poll_ready b).0 ≡ not_ready
  pub borrowed-poll_ready : (b : B) → borrowed (poll_ready b).1 ≡ borrowed b
  pub try_borrow_free : (b : B) → borrowed b ≡ false → (g : G) × ((try_borrow b).0 ≡ some g)
  pub try_borrow_taken : (b : B) → borrowed b ≡ true → (try_borrow b).0 ≡ none
  pub borrowed-try_borrow : (b : B) → borrowed (try_borrow b).1 ≡ true
  pub borrowed-write : (t : T) (b : B) → borrowed (write t b) ≡ borrowed b
  pub borrowed-release : (g : G) (b : B) → borrowed (release g b) ≡ false
  pub read-write : (t : T) (b : B) → read (write t b) ≡ t
  pub read-release : (g : G) (b : B) → read (release g b) ≡ read b

-- `Recognize`: a route `R` is a reference into the recognizer, through which its service is read
-- and written.
pub record Recognize (T Req R S RE : Type 0) : Type 0 where
  pub recognize : T → Req → Result R RE × T
  pub service : R → T → S
  pub put : R → S → T → T
  pub service-put : (r : R) (s : S) (t : T) → service r (put r s t) ≡ s

pub data Error (E RE : Type 0) : Type 0 where
  inner : E → Error E RE
  route : RE → Error E RE
  not_ready_error : Error E RE

pub data ResponseState (Req R G F RE : Type 0) : Type 0 where
  dispatched : F → ResponseState Req R G F RE
  route_error : RE → ResponseState Req R G F RE
  queued : G → R → Req → ResponseState Req R G F RE
  refused : ResponseState Req R G F RE
  invalid : ResponseState Req R G F RE

pub record ResponseFuture (Req R G F RE : Type 0) : Type 0 where
  pub state : ResponseState Req R G F RE

module _ {B G T : Type 0} (cells : Borrow B G T) where
  -- The router is its cell. `none` is a panic.
  after_poll : Poll (Unit {0}) (Unit {0}) → Option Bool
  after_poll (ready u) = some true
  after_poll not_ready = some false
  after_poll (err e) = none

  unfoldable pub poll_ready : B → Option Bool × B
  unfolding after_poll
  poll_ready self = let (p, b) = cells.poll_ready self in (after_poll p, b)

module _ {B G T Req R S F RE : Type 0} (cells : Borrow B G T)
    (routes : Recognize T Req R S RE) where
  -- A guard that was not needed is dropped.
  after_recognize : G → Req → Result R RE → B → ResponseFuture Req R G F RE × B
  after_recognize g request (success r) b = (record { state = queued g r request }, b)
  after_recognize g request (failure e) b = (record { state = route_error e }, cells.release g b)

  after_borrow : Option G → Req → B → ResponseFuture Req R G F RE × B
  unfolding after_recognize
  after_borrow none request b = (record { state = refused }, b)
  after_borrow (some g) request b =
      let (recognized, t) = routes.recognize (cells.read b) request in
      after_recognize g request recognized (cells.write t b)

  unfoldable pub call : B → Req → ResponseFuture Req R G F RE × B
  unfolding after_borrow
  call self request = let (g, b) = cells.try_borrow self in after_borrow g request b

module _ {B G T Req R S F A E RE : Type 0} (cells : Borrow B G T) (routes : Recognize T Req R S RE)
    (svc : Service S Req F E) (fut : Future F A E) where
  abbrev pub Held : Type 0
  Held = ResponseFuture Req R G F RE × B

  -- The service is called through the guard, which is then dropped.
  dispatch : G → R → Req → Held → Held
  dispatch g r request (self, b) =
      let t = cells.read b in
      let (f, s) = svc.call (routes.service r t) request in
      (record { state = dispatched f }, cells.release g (cells.write (routes.put r s t) b))

  after_ready : G → R → Req → Poll (Unit {0}) E → Held → Turn Held A (Error E RE)
  unfolding dispatch
  after_ready g r request (ready u) h = again (dispatch g r request h)
  after_ready g r request not_ready h = stop not_ready h
  after_ready g r request (err e) h = stop (err (inner e)) h

  turn_in : ResponseState Req R G F RE → Held → Turn Held A (Error E RE)
  unfolding after_ready
  turn_in (dispatched f) (self, b) =
      let (p, f') = fut.poll f in stop (map_err inner p) (record { state = dispatched f' }, b)
  turn_in (queued g r request) (self, b) =
      let t = cells.read b in
      let (p, s) = svc.poll_ready (routes.service r t) in
      after_ready g r request p (self, cells.write (routes.put r s t) b)
  turn_in (route_error e) (self, b) = stop (err (route e)) (record { state = invalid }, b)
  turn_in refused (self, b) = stop (err not_ready_error) (record { state = invalid }, b)
  turn_in invalid (self, b) = crash

  turn : Held → Turn Held A (Error E RE)
  unfolding turn_in
  turn (self, b) = turn_in self.state (self, b)

  -- A request that is dispatched is polled in the second turn.
  unfoldable pub poll : Held → Answer Held A (Error E RE)
  unfolding turn loop
  poll = loop 2 turn

module _ {B G T Req R F RE : Type 0} (cells : Borrow B G T) where
  -- A response future that is dropped drops its guard.
  abbrev pub drop_state : ResponseState Req R G F RE → B → B
  drop_state (dispatched f) b = b
  drop_state (route_error e) b = b
  drop_state (queued g r request) b = cells.release g b
  drop_state refused b = b
  drop_state invalid b = b
