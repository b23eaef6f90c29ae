-- ===== src/Filter.antt =====
-- tower-filter/src/lib.rs. The `Arc<Counts>` that the filter and its response futures hold is one
-- cell, passed to every operation beside the object that it belongs to.
pub mod Capacity
mod Tests
use pants_tower.Base.{
  ℕ, zero, suc, ◌+◌, ◌-◌, ◌%◌, Bool, true, false, Option, none, some, ◌==◌, if◌then◌else◌,
  usize_mod,
}
use pants_tower.Service.{Poll, ready, not_ready, err, map_err, Future, Service}
use pants_tower.InFlight.{AtomicTask}
use pants_tower.Loop.{Turn, stop, again, Answer, answers, crashed, unfinished, loop}

pub data Error {ℓ} (T U : Type ℓ) : Type ℓ where
  rejected : T → Error T U
  inner : U → Error T U
  no_capacity : Error T U

pub record Predicate {ℓ} (P Req C : Type ℓ) : Type ℓ where
  pub check : P → Req → C × P

pub record Counts {ℓ} (T : Type ℓ) : Type ℓ where
  pub task : T
  pub rem : ℕ  -- AtomicUsize

pub record Filter {ℓ} (S P : Type ℓ) : Type ℓ where
  pub inner : S
  pub predicate : P

pub data State {ℓ} (Req F : Type ℓ) : Type ℓ where
  checking : Req → State Req F
  wait_ready : Req → State Req F
  wait_response : F → State Req F
  spent : State Req F

pub record ResponseInner {ℓ} (C S Req F : Type ℓ) : Type ℓ where
  pub state : State Req F
  pub check : C
  pub service : S

-- A poll of a response future that was refused fails; another is a `ResponseInner`.
pub record ResponseFuture {ℓ} (C S Req F : Type ℓ) : Type ℓ where
  pub inner : Option (ResponseInner C S Req F)

pub new {ℓ} : {S P T : Type ℓ} → S → P → ℕ → T → Filter S P × Counts T
new service predicate buffer task =
    (record { inner = service; predicate = predicate }, record { task = task; rem = buffer })

module _ {ℓ} {T S P U E : Type ℓ} (tasks : AtomicTask T) where
  pub poll_ready : Filter S P → Counts T → Poll (Unit {ℓ}) (Error U E) × Filter S P × Counts T
  poll_ready self counts =
      let counts' = record counts { task = tasks.register counts.task } in
      if counts'.rem == 0 then (not_ready, self, counts') else (ready tt, self, counts')

module _ {ℓ} {T S P C Req F : Type ℓ} (pred : Predicate P Req C) where
  pub call : Filter S P → Counts T → Req → ResponseFuture C S Req F × Filter S P × Counts T
  call self counts request =
      let (c, p) = pred.check self.predicate request in
      if counts.rem == 0 then (record { inner = none }, self, counts) else (
        record {
          inner = some (record { state = checking request; check = c; service = self.inner });
        },
        record self { predicate = p },
        record counts { rem = counts.rem - 1 },
      )

module _ {ℓ} {T S C Req F A U E : Type ℓ} (tasks : AtomicTask T) (checks : Future C (Unit {ℓ}) U)
    (svc : Service S Req F E) (fut : Future F A E) where
  -- `fetch_add`, which wraps.
  pub inc_rem : Counts T → Counts T
  inc_rem counts =
      let after = record counts { rem = (counts.rem + 1) % usize_mod } in
      if counts.rem == 0 then record after { task = tasks.notify counts.task } else after

  abbrev Held : Type ℓ
  Held = ResponseInner C S Req F × Counts T

  unfoldable pub after_check : Req → Poll (Unit {ℓ}) U → Held → Turn Held A (Error U E)
  after_check request (ready u) (self, counts) =
      again (record self { state = wait_ready request }, counts)
  after_check request not_ready (self, counts) =
      stop not_ready (record self { state = checking request }, counts)
  after_check request (err e) (self, counts) =
      stop (err (rejected e)) (record self { state = spent }, counts)

  unfoldable pub after_ready : Req → Poll (Unit {ℓ}) E → Held → Turn Held A (Error U E)
  after_ready request (ready u) (self, counts) =
      let (response, s') = svc.call self.service request in
      again (record self { state = wait_response response; service = s' }, inc_rem counts)
  after_ready request not_ready (self, counts) =
      stop not_ready (record self { state = wait_ready request }, counts)
  after_ready request (err e) (self, counts) =
      stop (err (inner e)) (record self { state = spent }, inc_rem counts)

  -- The body of the loop, in a state.
  unfoldable pub turn_in : State Req F → Held → Turn Held A (Error U E)
  turn_in (checking request) (self, counts) =
      let (p, c) = checks.poll self.check in
      after_check request p (record self { check = c }, counts)
  turn_in (wait_ready request) (self, counts) =
      let (p, s) = svc.poll_ready self.service in
      after_ready request p (record self { service = s }, counts)
  turn_in (wait_response response) (self, counts) =
      let (p, f) = fut.poll response in
      stop (map_err inner p) (record self { state = wait_response f }, counts)
  turn_in spent (self, counts) = stop (err no_capacity) (self, counts)

  unfoldable pub turn : Held → Turn Held A (Error U E)
  turn (self, counts) = turn_in self.state (self, counts)

  -- A request goes through three states at most.
  unfoldable pub poll_inner : Held → Answer Held A (Error U E)
  poll_inner = loop 3 turn

  wrap : Answer Held A (Error U E) → Answer (ResponseFuture C S Req F × Counts T) A (Error U E)
  wrap (answers p (self, counts)) = answers p (record { inner = some self }, counts)
  wrap crashed = crashed
  wrap unfinished = unfinished

  pub poll :
      ResponseFuture C S Req F × Counts T
      → Answer (ResponseFuture C S Req F × Counts T) A (Error U E)
  poll (self, counts) = elim self.inner [
    | some held ↦ wrap (poll_inner (held, counts))
    | none ↦ answers (err no_capacity) (self, counts)
  ]
