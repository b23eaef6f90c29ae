-- ===== src/InFlight.antt =====
-- tower-in-flight-limit/src/lib.rs. The `Arc<Shared>` that the clones and their response futures
-- hold is one cell, passed to every operation beside the object that it belongs to.
pub mod Ops
pub mod Steps
pub mod System
mod Tests
use pants_tower.Base.{
  ℕ, zero, suc, ◌+◌, ◌-◌, ◌%◌, Bool, true, false, Option, none, some, ◌==◌, if◌then◌else◌,
  usize_mod,
}
use pants_tower.Service.{Poll, ready, not_ready, err, map_err, Future, Service}

pub data Error {ℓ} (E : Type ℓ) : Type ℓ where
  no_capacity : Error E
  upstream : E → Error E

-- `AtomicTask` of the futures crate: one cell with a task that waits.
pub record AtomicTask {ℓ} (T : Type ℓ) : Type ℓ where
  pub register : T → T
  pub notify : T → T

pub record Shared {ℓ} (T : Type ℓ) : Type ℓ where
  pub max : ℕ
  pub curr : ℕ  -- AtomicUsize
  pub task : T

-- `self.inner` and `self.state.reserved`.
pub record InFlightLimit {ℓ} (S : Type ℓ) : Type ℓ where
  pub inner : S
  pub reserved : Bool

pub record ResponseFuture {ℓ} (F : Type ℓ) : Type ℓ where
  pub inner : Option F

-- `AtomicUsize::compare_and_swap`: the value found, and the cell after it.
abbrev compare_and_swap : ℕ → ℕ → ℕ → ℕ × ℕ
compare_and_swap cell current new = (cell, if cell == current then new else cell)

-- One round of the loop in `reserve`, begun with the value `curr` of the local variable.
pub data Attempt {ℓ} (T : Type ℓ) : Type ℓ where
  refused : Attempt T
  taken : Shared T → Attempt T
  retry : ℕ → Attempt T

module _ {ℓ} {T : Type ℓ} where
  pub reserve_round : ℕ → Shared T → Attempt T
  reserve_round curr sh =
      if curr == sh.max
      then refused
      else let (actual, cell) = compare_and_swap sh.curr curr ((curr + 1) % usize_mod) in
        if actual == curr then taken (record sh { curr = cell }) else retry actual

  -- The loop, when nothing else writes to the cell between its rounds.
  reserve_loop : ℕ → ℕ → Shared T → Bool × Shared T
  reserve_loop zero curr sh = (false, sh)
  reserve_loop (suc fuel) curr sh = elim (reserve_round curr sh) [
    | refused ↦ (false, sh)
    | taken sh' ↦ (true, sh')
    | retry actual ↦ reserve_loop fuel actual sh
  ]

  pub reserve : Shared T → Bool × Shared T
  unfolding reserve_loop reserve_round
  reserve sh = reserve_loop 1 sh.curr sh

module _ {ℓ} {T : Type ℓ} (tasks : AtomicTask T) where
  -- `fetch_sub` wraps at zero.
  pub release : Shared T → Shared T
  release sh =
      let after = record sh { curr = (sh.curr + usize_mod - 1) % usize_mod } in
      if sh.curr == sh.max then record after { task = tasks.notify sh.task } else after

-- `InFlightLimit::new` builds the cell and the first handle to it.
pub new {ℓ} : {S T : Type ℓ} → S → ℕ → T → InFlightLimit S × Shared T
new inner max task =
    (record { inner = inner; reserved = false }, record { max = max; curr = 0; task = task })

module _ {ℓ} {S T Req F E : Type ℓ} (tasks : AtomicTask T) (svc : Service S Req F E) where
  unfoldable pub poll_inner : InFlightLimit S → Poll (Unit {ℓ}) (Error E) × InFlightLimit S
  poll_inner self =
      let (p, inner) = svc.poll_ready self.inner in
      (map_err upstream p, record self { inner = inner })

  -- `poll_ready` where there was no reservation, and `reserve` has answered.
  unfoldable pub after_poll_reserve :
      Bool → InFlightLimit S → Shared T → Poll (Unit {ℓ}) (Error E) × InFlightLimit S × Shared T
  unfolding poll_inner
  after_poll_reserve true self sh =
      let (p, self') = poll_inner (record self { reserved = true }) in (p, self', sh)
  after_poll_reserve false self sh = (not_ready, self, sh)

  unfoldable pub register : Shared T → Shared T
  register sh = record sh { task = tasks.register sh.task }

  unfoldable pub poll_ready :
      InFlightLimit S → Shared T → Poll (Unit {ℓ}) (Error E) × InFlightLimit S × Shared T
  unfolding poll_inner after_poll_reserve register
  poll_ready self sh =
      if self.reserved
      then (let (p, self') = poll_inner self in (p, self', sh))
      else let (held, sh') = reserve (register sh) in after_poll_reserve held self sh'

  unfoldable pub dispatch :
      InFlightLimit S → Shared T → Req → ResponseFuture F × InFlightLimit S × Shared T
  dispatch self sh request =
      let (f, inner) = svc.call self.inner request in
      (record { inner = some f }, record self { inner = inner }, sh)

  -- `call` where there was no reservation.
  unfoldable pub after_call_reserve :
      Bool → InFlightLimit S → Shared T → Req → ResponseFuture F × InFlightLimit S × Shared T
  unfolding dispatch
  after_call_reserve true self sh request = dispatch self sh request
  after_call_reserve false self sh request = (record { inner = none }, self, sh)

  unfoldable pub call :
      InFlightLimit S → Shared T → Req → ResponseFuture F × InFlightLimit S × Shared T
  unfolding dispatch after_call_reserve
  call self sh request =
      if self.reserved
      then dispatch (record self { reserved = false }) sh request
      else let (held, sh') = reserve sh in after_call_reserve held self sh' request

module _ {ℓ} {T F A E : Type ℓ} (tasks : AtomicTask T) (fut : Future F A E) where
  poll_some : F → Shared T → Poll A (Error E) × ResponseFuture F × Shared T
  poll_some f sh =
      let (p, f') = fut.poll f in
      elim p [
        | ready v ↦ (ready v, record { inner = none }, release tasks sh)
        | not_ready ↦ (not_ready, record { inner = some f' }, sh)
        | err e ↦ (err (upstream e), record { inner = none }, release tasks sh)
      ]

  pub poll : ResponseFuture F → Shared T → Poll A (Error E) × ResponseFuture F × Shared T
  unfolding poll_some
  poll self sh = elim self.inner [ some f ↦ poll_some f sh | none ↦ (err no_capacity, self, sh) ]

-- `Drop for ResponseFuture`.
pub drop_future {ℓ} : {T F : Type ℓ} → AtomicTask T → ResponseFuture F → Shared T → Shared T
drop_future tasks self sh = elim self.inner [ some f ↦ release tasks sh | none ↦ sh ]

-- `Clone` and `Drop` for `State`.
pub clone {ℓ} : {S : Type ℓ} → InFlightLimit S → InFlightLimit S
clone self = record self { reserved = false }

pub drop {ℓ} : {S T : Type ℓ} → AtomicTask T → InFlightLimit S → Shared T → Shared T
drop tasks self sh = if self.reserved then release tasks sh else sh
