-- ===== src/Buffer/Client/Closing.antt =====
-- How the handles of tower-buffer/src/lib.rs see that the buffer is closed.
use pants_tower.Base.{◌≡◌, false, List, [], ◌∷◌, arith}
use pants_tower.Service.{err, failure}
use pants_tower.Channels.{Mpsc, Oneshot}
use pants_tower.Buffer.{closed, Message, Shared}
use pants_tower.Buffer.Client.{Buffer, failed, poll_ready, call}

-- What a handle does, with the sender that it has then.
pub data Op (T Req : Type 0) : Type 0 where
  polls_ready : T → Op T Req
  calls : T → Req → Op T Req

module _ {Req F H T Q O : Type 0} (E : Type 0) (mpsc : Mpsc T Q (Message Req H))
    (oneshot : Oneshot H F O) where
  apply : Op T Req → Shared Q O → Shared Q O
  apply (polls_ready t) shared = (poll_ready {E = E} mpsc (record { tx = t }) shared).2
  apply (calls t request) shared = (call mpsc oneshot (record { tx = t }) shared request).2

  pub run : List (Op T Req) → Shared Q O → Shared Q O
  run [] shared = shared
  run (op ∷ ops) shared = run ops (apply op shared)

  is_open-poll_ready :
      (self : Buffer T) (shared : Shared Q O)
      → shared.is_open ≡ false
      → (poll_ready {E = E} mpsc self shared).2.is_open ≡ false
  unfolding poll_ready
  is_open-poll_ready self shared e = ground (arith, e)

  is_open-call :
      (self : Buffer T) (shared : Shared Q O) (request : Req)
      → shared.is_open ≡ false
      → (call mpsc oneshot self shared request).2.is_open ≡ false
  unfolding call
  is_open-call self shared request e = ground (arith, e)

  is_open-run :
      (ops : List (Op T Req)) (shared : Shared Q O)
      → shared.is_open ≡ false
      → (run ops shared).is_open ≡ false
  unfolding run apply
  is_open-run [] shared e = e
  is_open-run ((polls_ready t) ∷ ops) shared e =
      is_open-run ops (apply (polls_ready t) shared)
        (is_open-poll_ready (record { tx = t }) shared e)
  is_open-run ((calls t request) ∷ ops) shared e =
      is_open-run ops (apply (calls t request) shared)
        (is_open-call (record { tx = t }) shared request e)

  poll_ready_closed :
      (self : Buffer T) (shared : Shared Q O)
      → shared.is_open ≡ false
      → (poll_ready {E = E} mpsc self shared).0 ≡ err closed
  unfolding poll_ready
  poll_ready_closed self shared e = ground (arith, e)

  call_refused :
      (self : Buffer T) (shared : Shared Q O) (request : Req)
      → let (h, o) = oneshot.channel shared.oneshots in
        (mpsc.try_send self.tx (record { request = request; tx = h }) shared.queue).0 ≡ failure tt
        → ((call mpsc oneshot self shared request).0.state ≡ failed)
          × ((call mpsc oneshot self shared request).2.is_open ≡ false)
  unfolding call
  call_refused self shared request e = ground (arith, e)

  -- Where the queue refuses the message of a `call`, the response future has failed, and, whatever
  -- any handles do after that, `poll_ready` of every handle answers that the buffer is closed.
  pub poll_ready-call :
      (self other : Buffer T) (shared : Shared Q O) (request : Req) (ops : List (Op T Req))
      → let (h, o) = oneshot.channel shared.oneshots in
        (mpsc.try_send self.tx (record { request = request; tx = h }) shared.queue).0 ≡ failure tt
        → let (f, self', shared') = call mpsc oneshot self shared request in
          (f.state ≡ failed) × ((poll_ready {E = E} mpsc other (run ops shared')).0 ≡ err closed)
  poll_ready-call self other shared request ops e =
      let (f, c) = call_refused self shared request e in
      let shared' = (call mpsc oneshot self shared request).2 in
      (f, poll_ready_closed other (run ops shared') (is_open-run ops shared' c))
