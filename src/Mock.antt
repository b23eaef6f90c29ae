-- ===== src/Mock.antt =====
-- tower-mock/src/lib.rs: a mock service for tests, and the handle that receives its requests. The
-- queue and the oneshots are parameters; a map of tasks is a list of them by their keys.
pub mod Panics
pub mod Answers
mod Tests
use pants_tower.Base.{
  ℕ, ◌+◌, ◌-◌, ◌^◌, Bool, true, false, not, ◌&&◌, Option, none, some, List, [], ◌∷◌, map, ◌==◌,
  if◌then◌else◌,
}
use pants_tower.Service.{Poll, ready, not_ready, err, Result, success, failure}
use pants_tower.Machine.{Outcome, returns, panics, Method}
use pants_tower.Channels.{Oneshot}

pub data Error (E : Type 0) : Type 0 where
  closed : Error E
  no_capacity : Error E
  other : E → Error E

-- `id` and `can_send`; the rest of a mock is in the shared state and the queue.
pub record Mock : Type 0 where
  pub id : ℕ
  pub can_send : Bool

pub record State (K : Type 0) : Type 0 where
  pub rem : ℕ
  pub tasks : List (ℕ × K)
  pub is_closed : Bool
  pub next_clone_id : ℕ

pub record Request (T H : Type 0) : Type 0 where
  pub request : T
  pub respond : H

-- `HashMap` from ids to tasks.
module _ {K : Type 0} where
  abbrev pub contains_key : ℕ → List (ℕ × K) → Bool
  contains_key id [] = false
  contains_key id ((j, k) ∷ ks) = let rest = contains_key id ks in if j == id then true else rest

  abbrev pub remove : ℕ → List (ℕ × K) → List (ℕ × K)
  remove id [] = []
  remove id ((j, k) ∷ ks) = let rest = remove id ks in if j == id then rest else (j, k) ∷ rest

module _ {K : Type 0} where
  unfoldable pub new_state : State K
  new_state = record { rem = 2 ^ 64 - 1; tasks = []; is_closed = false; next_clone_id = 1 }

  pub new : Mock × State K
  unfolding new_state
  new = (record { id = 0; can_send = false }, new_state)

  -- `task` is the current one.
  poll_open : {E : Type 0} → K → Method (Mock × State K) (Poll (Unit {0}) (Error E)) (Unit {0})
  poll_open task (self, state) =
      if state.rem == 0
      then returns not_ready
          (self, record state { tasks = (self.id, task) ∷ remove self.id state.tasks })
      else if contains_key self.id state.tasks
      then panics
      else returns (ready tt) (record self { can_send = true }, state)

  unfoldable pub poll_ready :
      {E : Type 0} → K → Method (Mock × State K) (Poll (Unit {0}) (Error E)) (Unit {0})
  unfolding poll_open
  poll_ready task (self, state) =
      if state.is_closed
      then returns (err closed) (self, state)
      else if self.can_send
      then returns (ready tt) (self, state)
      else poll_open task (self, state)

  unfoldable pub clone : Mock → State K → Mock × State K
  clone self state = (
    record { id = state.next_clone_id; can_send = false },
    record state { next_clone_id = state.next_clone_id + 1 },
  )

  unfoldable pub drop : Mock → State K → State K
  drop self state = record state { tasks = remove self.id state.tasks }

  -- The tasks that are notified, with the new state.
  unfoldable pub allow : ℕ → State K → List K × State K
  allow num state =
      if num == 0
      then ([], record state { rem = num })
      else (map (λ k. k.1) state.tasks, record state { rem = num; tasks = [] })

  unfoldable pub drop_handle : State K → List K × State K
  drop_handle state = (map (λ k. k.1) state.tasks, record state { is_closed = true; tasks = [] })

module _ {T U E H O Q K : Type 0} (oneshot : Oneshot H (Result U E) O)
    (unbounded_send : Request T H → Q → Bool × Q) where
  -- The request is sent, with one unit of the capacity if there is one.
  send : T → Mock → State K → Q → O → Error H × Mock × State K × Q × O
  send request self state q o =
      let (h, o') = oneshot.channel o in
      let (sent, q') = unbounded_send (record { request = request; respond = h }) q in
      (
        if sent then other h else closed,
        record self { can_send = false },
        record state { rem = state.rem - 1 },
        q',
        o',
      )

  -- A response future is the `Error` that it holds.
  unfoldable pub call : T → Mock → State K → Q → O → Error H × Mock × State K × Q × O
  unfolding send
  call request self state q o =
      if state.is_closed
      then (closed, self, state, q, o)
      else if not self.can_send && (state.rem == 0)
      then (no_capacity, self, state, q, o)
      else send request self state q o

module _ {U E H O : Type 0} (oneshot : Oneshot H (Result U E) O) where
  unfoldable pub respond : H → U → O → O
  respond h response o = (oneshot.send h (success response) o).1

  unfoldable pub error : H → E → O → O
  error h e o = (oneshot.send h (failure e) o).1

  after_receive : Poll (Result U E) (Unit {0}) → Poll U (Error E)
  after_receive (ready (success v)) = ready v
  after_receive (ready (failure e)) = err (other e)
  after_receive not_ready = not_ready
  after_receive (err u) = err closed

  unfoldable pub poll : Error H → O → Poll U (Error E) × O
  unfolding after_receive
  poll (other h) o = let (p, o') = oneshot.poll h o in (after_receive p, o')
  poll no_capacity o = (err no_capacity, o)
  poll closed o = (err closed, o)
