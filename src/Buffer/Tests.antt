-- ===== src/Buffer/Tests.antt =====
-- tower-buffer/src/lib.rs with channels that are lists.
use pants_tower.Base.{ℕ, ◌+◌, ◌≡◌, refl, Bool, true, false, List, [], ◌∷◌, none, some, arith}
use pants_tower.Service.{ready, err, Future, DirectService}
use pants_tower.Machine.{Ends, returns}
use pants_tower.Loop.{answers}
use pants_tower.Channels.Lists.{lists, Slots, slots}
use pants_tower.Buffer.{closed, Message, Shared}
use pants_tower.Buffer.Client.{Buffer, failed, waits, polls, call, poll_ready, poll}
use pants_tower.Buffer.Client.Closing.{polls_ready, calls, run, poll_ready-call}
use pants_tower.Buffer.Worker
use pants_tower.Buffer.Worker.{Worker, continues, dispatch, poll_next_msg}
use pants_tower.Buffer.Worker.Order.{recorded, Kept, Settled}
use pants_tower.Protocol.{Watched, Unbroken}
use pants_tower.Buffer.Worker.Readiness.{watched_direct, poll-Unbroken}
use pants_tower.Buffer.System.{
  State, called, gone, requests, Ordered, Reach, starts, accepts, refuses,
}
use pants_tower.Buffer.System.Fifo.{Served, Reach-Served}
use pants_tower.Buffer.Delivery.{poll-dispatch}

-- A service that is always ready, and answers with the request.
abbrev echo : DirectService ℕ ℕ ℕ ℕ
echo = record {
  poll_ready = λ s. (ready tt, s);
  poll_service = λ s. (ready tt, s);
  poll_close = λ s. (ready tt, s);
  call = λ s r. (r, s + 1);
}

abbrev responses : Future ℕ ℕ ℕ
responses = record { poll = λ f. (ready f, f) }

abbrev message : Bool → ℕ → Message ℕ (Bool × ℕ)
message gone n = record { request = n; tx = (gone, n) }

abbrev cells : Shared (List (Message ℕ (Bool × ℕ))) Slots
cells = record { queue = message true 2 ∷ message false 3 ∷ []; oneshots = ([], 7); is_open = true }

-- One request at hand, one in the queue that nobody waits for any more, and one after it.
abbrev worker : Worker ℕ ℕ (Bool × ℕ) (List (Message ℕ (Bool × ℕ))) Slots
worker = record {
  current_message = some (message false 1);
  service = 0;
  finish = false;
  shared = cells;
}

abbrev recorder : Worker (ℕ × List ℕ) ℕ (Bool × ℕ) (List (Message ℕ (Bool × ℕ))) Slots
recorder = record {
  current_message = some (message false 1);
  service = (0, []);
  finish = false;
  shared = cells;
}

abbrev dropped : Bool × ℕ → Bool
dropped h = h.0

recorder-Kept : Kept echo (lists 5) slots dropped (1 ∷ 3 ∷ []) recorder
recorder-Kept = record { sent = refl; drained = λ e. absurd (cc e); agrees = λ h. refl }

abbrev handle : Buffer (Unit {0})
handle = record { tx = tt }

poll_ready-call_example :
    let (f, self', shared') = call (lists 2) slots handle cells 4 in
    (f.state ≡ failed)
    × ((poll_ready {E = ℕ}
          (lists 2)
          handle
          (run ℕ (lists 2) slots (polls_ready tt ∷ calls tt 5 ∷ []) shared')).0
        ≡ err closed)
poll_ready-call_example =
    poll_ready-call ℕ (lists 2) slots handle handle cells 4 (polls_ready tt ∷ calls tt 5 ∷ []) refl

poll-dispatch_example :
    (w' : Worker ℕ ℕ (Bool × ℕ) (List (Message ℕ (Bool × ℕ))) Slots) × (dispatch echo
        (lists 5)
        slots
        (message false 6)
        worker
      ≡ returns (continues true) w')
    × ((w'.service ≡ 1)
        × (poll slots responses (record { state = waits (false, 6) }, w'.shared.oneshots)
            ≡ answers
                (ready 6)
                (record { state = polls 6 }, (slots.poll (false, 6) w'.shared.oneshots).1)))
poll-dispatch_example = poll-dispatch echo (lists 5) slots responses (message false 6) worker refl

abbrev watched_recorder :
    Worker (Watched ℕ × List ℕ) ℕ (Bool × ℕ) (List (Message ℕ (Bool × ℕ))) Slots
watched_recorder = record {
  current_message = some (message false 1);
  service = (record { service = 0; armed = false; broken = false }, []);
  finish = false;
  shared = cells;
}

poll-Unbroken_example :
    Ends
      (λ done w'.
        Settled (watched_direct echo) (lists 5) slots dropped (1 ∷ 3 ∷ []) done w'
        × Unbroken w'.service.0)
      (λ e w'.
        Kept (watched_direct echo) (lists 5) slots dropped (1 ∷ 3 ∷ []) w' × Unbroken w'.service.0)
      (Worker.poll (recorded (watched_direct echo)) (lists 5) slots 4 8 watched_recorder)
poll-Unbroken_example =
    poll-Unbroken echo (lists 5) slots dropped (1 ∷ 3 ∷ []) 4 8 watched_recorder
      (record { sent = refl; drained = λ e. absurd (cc e); agrees = λ h. refl }) refl (omega arith)
      (omega arith)

abbrev fresh : State echo (lists 1) slots
fresh = record {
  current_message = none;
  service = (0, []);
  finish = false;
  shared = record { queue = []; oneshots = ([], 7); is_open = true };
}

-- The queue has room for the first of two calls.
abbrev once_called : State echo (lists 1) slots
once_called = called echo (lists 1) slots handle 4 fresh

abbrev twice_called : State echo (lists 1) slots
twice_called = called echo (lists 1) slots handle 5 once_called

twice_called-Reach : Reach echo (lists 1) slots twice_called (4 ∷ []) true
unfolding call
twice_called-Reach =
    refuses (accepts (starts {w = fresh} refl refl refl refl) handle 4 refl refl) handle 5 refl refl

Reach-Served_example :
    Ends
      (Served echo
        (lists 1)
        slots
        true
        (4 ∷ [])
        (gone echo (lists 1) slots twice_called.shared.oneshots))
      (λ e w'. Ordered echo (lists 1) slots true (requests echo (lists 1) slots w') (4 ∷ []))
      (Worker.poll (recorded echo) (lists 1) slots 3 6 twice_called)
unfolding call
Reach-Served_example =
    Reach-Served echo (lists 1) slots twice_called-Reach 3 6 (omega arith) (omega arith)
