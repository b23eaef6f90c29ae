-- ===== src/ChannelService.antt =====
-- examples/channel_service.rs: a service whose requests go through a bounded queue to a task, which
-- answers each after a fixed time through a oneshot. The channels, the timer and the pool are
-- parameters; time is in milliseconds.
pub mod Echo
mod Tests
use pants_tower.Base.{ℕ, ◌+◌, Option, none, some}
use pants_tower.Service.{Poll, ready, not_ready, err, map_err, Result, success, failure, Future}
use pants_tower.Loop.{Answer, answers, crashed}
use pants_tower.Channels.{Mpsc, Oneshot}

pub record ChannelService (T : Type 0) : Type 0 where
  pub tx : T

pub record NewChannelService : Type 0 where
  pub buffer : ℕ

pub record ResponseFuture (H : Type 0) : Type 0 where
  pub rx : Option H

pub data Error : Type 0 where
  at_capacity : Error
  failed : Error

-- A message: the request, and where its response goes.
abbrev pub Message : Type 0 → Type 0 → Type 0
Message Req H = Req × H

-- What the task does with a message: the future that it makes of it. The task is `for_each` of the
-- futures crate over the queue, with the next message once that future is done.
pub record Answering (Req H Z : Type 0) : Type 0 where
  pub sleep : Z
  pub message : Message Req H

new : ℕ → NewChannelService
new buffer = record { buffer = buffer }

-- `execute` of the pool may refuse the task.
new_service :
    {T Q X IoE PE : Type 0}
    → (ℕ → T × Q)
    → (Q → X → Result (Unit {0}) PE × X)
    → IoE
    → NewChannelService
    → X
    → Result (ChannelService T × Q) IoE × X
new_service channel execute other self x =
    let (tx, rx) = channel self.buffer in
    let (spawned, x') = execute rx x in
    elim spawned [
      | success u ↦ (success (record { tx = tx }, rx), x')
      | failure e ↦ (failure other, x')
    ]

module _ {T Q Req H O : Type 0} (mpsc : Mpsc T Q (Message Req H)) (oneshot : Oneshot H Req O) where
  pub poll_ready : ChannelService T → Q → Poll (Unit {0}) Error × ChannelService T × Q
  poll_ready self rx =
      let (p, t, q) = mpsc.poll_ready self.tx rx in (map_err (λ e. failed) p, record { tx = t }, q)

  pub call : ChannelService T → Q → O → Req → ResponseFuture H × ChannelService T × Q × O
  call self rx oneshots request =
      let (h, o) = oneshot.channel oneshots in
      let (sent, t, q) = mpsc.try_send self.tx (request, h) rx in
      elim sent [
        | success u ↦ (record { rx = some h }, record { tx = t }, q, o)
        | failure e ↦ (record { rx = none }, record { tx = t }, q, o)
      ]

module _ {H Req O : Type 0} (oneshot : Oneshot H Req O) where
  received : Poll Req (Unit {0}) → Poll Req Error
  received (ready v) = ready v
  received not_ready = not_ready
  received (err e) = err failed

  poll_in : Option H → O → Poll Req Error × O
  unfolding received
  poll_in none o = (err at_capacity, o)
  poll_in (some h) o = let (p, o') = oneshot.poll h o in (received p, o')

  pub poll : ResponseFuture H → O → Poll Req Error × ResponseFuture H × O
  unfolding poll_in
  poll self o = let (p, o') = poll_in self.rx o in (p, self, o')

-- The closure that the task is made of, and its future: a sleep, and then the message goes back.
-- `unwrap` panics where the timer fails.
unfoldable pub answering : {Req H Z : Type 0} → (ℕ → Z) → Message Req H → Answering Req H Z
answering sleep message = record { sleep = sleep 500; message = message }

module _ {H Req O Z X : Type 0} (oneshot : Oneshot H Req O) (timer : Future Z (Unit {0}) X) where
  abbrev pub Running : Type 0
  Running = Answering Req H Z × O

  after_sleep : Poll (Unit {0}) X → Running → Answer Running (Unit {0}) (Unit {0})
  after_sleep (ready u) (self, o) =
      let (request, h) = self.message in answers (ready tt) (self, (oneshot.send h request o).1)
  after_sleep not_ready (self, o) = answers not_ready (self, o)
  after_sleep (err e) (self, o) = crashed

  unfoldable pub poll_answering : Running → Answer Running (Unit {0}) (Unit {0})
  unfolding after_sleep
  poll_answering (self, o) =
      let (p, z) = timer.poll self.sleep in after_sleep p (record self { sleep = z }, o)
