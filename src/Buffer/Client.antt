-- ===== src/Buffer/Client.antt =====
-- `Buffer` and `ResponseFuture` of tower-buffer/src/lib.rs.
pub mod Closing
use pants_tower.Base.{ℕ, Bool, true, false, Option, none, some, if◌then◌else◌}
use pants_tower.Service.{
  Poll, ready, not_ready, err, map_err, Result, success, failure, Future, Service, DirectService,
}
use pants_tower.Loop.{Turn, stop, again, Answer, loop}
use pants_tower.Channels.{Mpsc, Oneshot}
use pants_tower.Buffer.{Error, inner, closed, Message, Shared, directed}

-- A handle; `state` is in the shared cells. A clone has a clone of the sender.
pub record Buffer (T : Type 0) : Type 0 where
  pub tx : T

pub data ResponseState (H F : Type 0) : Type 0 where
  failed : ResponseState H F
  waits : H → ResponseState H F
  polls : F → ResponseState H F

pub record ResponseFuture (H F : Type 0) : Type 0 where
  pub state : ResponseState H F

-- `channel` makes a queue with one sender, and `spawn` the worker of the service.
new_direct :
    {S T Q O X : Type 0}
    → (ℕ → T × Q)
    → (S → Shared Q O → X → Result (Unit {0}) S × X)
    → S
    → ℕ
    → O
    → X
    → Result (Buffer T × Shared Q O) S × X
new_direct {Q} {O} channel spawn service bound oneshots x =
    let (tx, rx) = channel bound in
    let shared : Shared Q O = record { queue = rx; oneshots = oneshots; is_open = true } in
    let (spawned, x') = spawn service shared x in
    elim spawned [
      | success u ↦ (success (record { tx = tx }, shared), x')
      | failure s ↦ (failure s, x')
    ]

-- The same for a service that is not driven: `spawn` is given it as `directed` makes it.
with_executor :
    {S T Q O X Req F E : Type 0}
    → (ℕ → T × Q)
    → (DirectService S Req F E → S → Shared Q O → X → Result (Unit {0}) S × X)
    → Service S Req F E
    → S
    → ℕ
    → O
    → X
    → Result (Buffer T × Shared Q O) S × X
with_executor {Q} {O} channel spawn svc service bound oneshots x =
    let (tx, rx) = channel bound in
    let shared : Shared Q O = record { queue = rx; oneshots = oneshots; is_open = true } in
    let (spawned, x') = spawn (directed svc) service shared x in
    elim spawned [
      | success u ↦ (success (record { tx = tx }, shared), x')
      | failure s ↦ (failure s, x')
    ]

-- `Clone`. Cloning a sender may change the queue.
clone : {T Q O : Type 0} → (T → Q → T × Q) → Buffer T → Shared Q O → Buffer T × Shared Q O
clone clone_tx self shared =
    let (t, q) = clone_tx self.tx shared.queue in (record { tx = t }, record shared { queue = q })

module _ {Req E H T Q O : Type 0} (mpsc : Mpsc T Q (Message Req H)) where
  pub poll_ready : Buffer T → Shared Q O → Poll (Unit {0}) (Error E) × Buffer T × Shared Q O
  poll_ready self shared =
      let (p, t, q) = mpsc.poll_ready self.tx shared.queue in
      if shared.is_open
      then (map_err (λ e. closed) p, record { tx = t }, record shared { queue = q })
      else (err closed, self, shared)

module _ {Req F H T Q O : Type 0} (mpsc : Mpsc T Q (Message Req H)) (oneshot : Oneshot H F O) where
  unfoldable pub call : Buffer T → Shared Q O → Req → ResponseFuture H F × Buffer T × Shared Q O
  call self shared request =
      let (h, o) = oneshot.channel shared.oneshots in
      let (sent, t, q) =
        mpsc.try_send self.tx (record { request = request; tx = h }) shared.queue in
      let shared' = record shared { queue = q; oneshots = o } in
      elim sent [
        | success u ↦ (record { state = waits h }, record { tx = t }, shared')
        | failure e ↦
            (record { state = failed }, record { tx = t }, record shared' { is_open = false })
      ]

module _ {F A E H O : Type 0} (oneshot : Oneshot H F O) (fut : Future F A E) where
  abbrev pub Held : Type 0
  Held = ResponseFuture H F × O

  after_receive : H → Poll F (Unit {0}) → Held → Turn Held A (Error E)
  after_receive h (ready f) (self, o) = again (record { state = polls f }, o)
  after_receive h not_ready (self, o) = stop not_ready (self, o)
  after_receive h (err e) (self, o) = stop (err closed) (self, o)

  pub turn_in : ResponseState H F → Held → Turn Held A (Error E)
  unfolding after_receive
  turn_in failed (self, o) = stop (err closed) (self, o)
  turn_in (waits h) (self, o) = let (p, o') = oneshot.poll h o in after_receive h p (self, o')
  turn_in (polls f) (self, o) =
      let (p, f') = fut.poll f in stop (map_err inner p) (record { state = polls f' }, o)

  pub turn : Held → Turn Held A (Error E)
  unfolding turn_in
  turn (self, o) = turn_in self.state (self, o)

  -- A response that has come is polled in the second turn.
  unfoldable pub poll : Held → Answer Held A (Error E)
  unfolding turn loop
  poll = loop 2 turn
