-- ===== src/Buffer/Worker/Queue.antt =====
-- Which message the worker of tower-buffer/src/lib.rs takes.
use pants_tower.Base.{
  ℕ, zero, suc, ◌<◌, ◌≡◌, refl, sym, subst, ◌∙◌, inl, inr, Bool, true, false, List, [], ◌∷◌, Option,
  none, some, arith, length, Bool-cases, if◌then◌else◌, not,
}
use pants_tower.Service.{ready, not_ready, DirectService}
use pants_tower.Machine.{Outcome, returns, fails, panics, hangs, Ends, bind}
use pants_tower.Channels.{Mpsc, Oneshot}
use pants_tower.Buffer.{Message}
use pants_tower.Buffer.Worker.{
  Worker, is_alive, receive, or_else, next_in_queue, take_current, after_take, next_unless,
  poll_next_msg,
}

module _ {H Req : Type 0} (dropped : H → Bool) where
  -- The messages that somebody waits for.
  abbrev pub live : List (Message Req H) → List (Message Req H)
  live [] = []
  live (m ∷ ms) = if dropped m.tx then live ms else m ∷ live ms

abbrev pub optional : {A : Type 0} → Option A → List A → List A
optional none xs = xs
optional (some x) xs = x ∷ xs

module _ {S Req F E H T Q O : Type 0} (svc : DirectService S Req F E)
    (mpsc : Mpsc T Q (Message Req H)) (oneshot : Oneshot H F O) (dropped : H → Bool) where
  -- The messages that wait, the one at hand first.
  abbrev pub queued : Worker S Req H Q O → List (Message Req H)
  queued w = optional w.current_message (mpsc.contents w.shared.queue)

  abbrev pub Agrees : Worker S Req H Q O → Type 0
  Agrees w = (h : H) → oneshot.canceled h w.shared.oneshots ≡ dropped h

  -- What stays the same while a message is taken, and none is at hand.
  pub record Same (w w' : Worker S Req H Q O) : Type 0 where
    pub service : w'.service ≡ w.service
    pub finish : w'.finish ≡ w.finish
    pub is_open : w'.shared.is_open ≡ w.shared.is_open
    pub empty_handed : w'.current_message ≡ none
    pub agrees : Agrees w'

  -- The first of `ms` that is alive is taken with all before it, or there is none.
  abbrev pub Next :
      List (Message Req H) → Option (Option (Message Req H)) → Worker S Req H Q O → Type 0
  Next ms none w = (live dropped ms ≡ []) × (mpsc.contents w.shared.queue ≡ [])
  Next ms (some none) w = (live dropped ms ≡ []) × (mpsc.contents w.shared.queue ≡ [])
  Next ms (some (some m)) w =
      (live dropped ms ≡ m ∷ live dropped (mpsc.contents w.shared.queue))
      × (dropped m.tx ≡ false)
      × (length (mpsc.contents w.shared.queue) < length ms)

  checked : Message Req H → Worker S Req H Q O → Worker S Req H Q O
  checked m w = record w {
    shared = record (w.shared) { oneshots = (oneshot.poll_cancel m.tx w.shared.oneshots).1 };
  }

  is_alive_lem :
      (m : Message Req H) (w : Worker S Req H Q O)
      → Agrees w
      → is_alive svc mpsc oneshot m w ≡ returns (not (dropped m.tx)) (checked m w)
  unfolding is_alive checked
  is_alive_lem m w a = elim (Bool-cases (dropped m.tx)) [
    | inl e ↦ ground (arith, e, oneshot.poll_cancel_dropped m.tx w.shared.oneshots (a m.tx ∙ e))
    | inr e ↦ ground (arith, e, oneshot.poll_cancel_alive m.tx w.shared.oneshots (a m.tx ∙ e))
  ]

  checked-Same :
      (m : Message Req H) (w : Worker S Req H Q O)
      → Agrees w
      → w.current_message ≡ none
      → Same w (checked m w)
  unfolding checked
  checked-Same m w a e = record {
    service = refl;
    finish = refl;
    is_open = refl;
    empty_handed = e;
    agrees = λ h. oneshot.canceled-poll_cancel m.tx h w.shared.oneshots ∙ a h;
  }

  received : Worker S Req H Q O → Worker S Req H Q O
  received w = record w { shared = record (w.shared) { queue = (mpsc.poll w.shared.queue).1 } }

  receive_lem :
      (next : Option (Message Req H)) (w : Worker S Req H Q O)
      → (mpsc.poll w.shared.queue).0 ≡ ready next
      → receive svc mpsc oneshot w ≡ returns (some next) (received w)
  unfolding receive received
  receive_lem next w e = ground (arith, e)

  receive_nothing :
      (w : Worker S Req H Q O)
      → (mpsc.poll w.shared.queue).0 ≡ not_ready
      → receive svc mpsc oneshot w ≡ returns none (received w)
  unfolding receive received
  receive_nothing w e = ground (arith, e)

  Same-trans : {u v w : Worker S Req H Q O} → Same u v → Same v w → Same u w
  Same-trans p q = record {
    service = q.service ∙ p.service;
    finish = q.finish ∙ p.finish;
    is_open = q.is_open ∙ p.is_open;
    empty_handed = q.empty_handed;
    agrees = q.agrees;
  }

  received-Same :
      (w : Worker S Req H Q O) → Agrees w → w.current_message ≡ none → Same w (received w)
  unfolding received
  received-Same w a e = record {
    service = refl;
    finish = refl;
    is_open = refl;
    empty_handed = e;
    agrees = a;
  }

  abbrev pub Takes :
      List (Message Req H)
      → Worker S Req H Q O
      → Outcome (Worker S Req H Q O) (Option (Option (Message Req H))) (Unit {0})
      → Type 0
  Takes ms w = Ends (λ next w'. Same w w' × Next ms next w') (λ e w'. ⊥)

  -- The answer for a message that was looked at, from the answer for those after it.
  or_else-Takes :
      (fuel : ℕ) (m : Message Req H) (ms : List (Message Req H)) (w w' : Worker S Req H Q O)
      → Same w w'
      → mpsc.contents w'.shared.queue ≡ ms
      → ((v : Worker S Req H Q O)
          → mpsc.contents v.shared.queue ≡ ms
          → v.current_message ≡ none
          → Agrees v
          → Takes ms v (next_in_queue svc mpsc oneshot fuel v))
      → Takes (m ∷ ms) w (
          bind
            (is_alive svc mpsc oneshot m w')
            (λ alive. or_else svc mpsc oneshot m alive (next_in_queue svc mpsc oneshot fuel)))
  unfolding or_else checked
  or_else-Takes fuel m ms w w' s e ih =
      let s' : Same w (checked m w') = Same-trans s (checked-Same m w' s.agrees s.empty_handed) in
      rw (is_alive_lem m w' s.agrees) (elim (Bool-cases (dropped m.tx)) [
        | inl d ↦
            rw (d, or_else)
              (go (next_in_queue svc mpsc oneshot fuel (checked m w')) s' d
                (ih (checked m w') e s'.empty_handed s'.agrees))
        | inr d ↦ rw (d, or_else) (s', (ground (arith, d, e), d, ground (arith, e)))
      ])
    where
      go :
          (o : Outcome (Worker S Req H Q O) (Option (Option (Message Req H))) (Unit {0}))
          → Same w (checked m w')
          → dropped m.tx ≡ true
          → Takes ms (checked m w') o
          → Takes (m ∷ ms) w o
      go (returns none v) s d (t, (x, y)) = (Same-trans s t, (rw d x, y))
      go (returns (some none) v) s d (t, (x, y)) = (Same-trans s t, (rw d x, y))
      go (returns (some (some k)) v) s d (t, (x, y, z)) = (Same-trans s t, (rw d x, y, omega arith))
      go (fails u v) s d h = h
      go panics s d h = h
      go hangs s d h = h

  next_in_queue-Takes :
      (fuel : ℕ) (ms : List (Message Req H)) (w : Worker S Req H Q O)
      → mpsc.contents w.shared.queue ≡ ms
      → length ms < fuel
      → w.current_message ≡ none
      → Agrees w
      → Takes ms w (next_in_queue svc mpsc oneshot fuel w)
  unfolding next_in_queue received
  next_in_queue-Takes zero ms w e l c a = absurd (omega arith)
  next_in_queue-Takes (suc fuel) [] w e l c a =
      let (p, q) = mpsc.poll_none w.shared.queue e in
      let s = received-Same w a c in
      elim p [
        | inl none_left ↦ rw (receive_lem none w none_left) (s, (refl, q))
        | inr not_yet ↦ rw (receive_nothing w not_yet) (s, (refl, q))
      ]
  next_in_queue-Takes (suc fuel) (m ∷ ms) w e l c a =
      let (p, q) = mpsc.poll_some w.shared.queue m ms e in
      rw (receive_lem (some m) w p) (
        or_else-Takes fuel m ms w (received w) (received-Same w a c) q
          (λ v e' c' a'. next_in_queue-Takes fuel ms v e' (omega arith) c' a'))

  abbrev pub taken : Worker S Req H Q O → Worker S Req H Q O
  taken w = record w { current_message = none }

  -- The first message of all that wait, the one at hand included, that is alive is taken.
  after_take-Takes :
      (fuel : ℕ) (o : Option (Message Req H)) (w : Worker S Req H Q O)
      → length (mpsc.contents w.shared.queue) < fuel
      → w.current_message ≡ none
      → Agrees w
      → Takes (optional o (mpsc.contents w.shared.queue)) w (after_take svc mpsc oneshot fuel o w)
  unfolding after_take
  after_take-Takes fuel none w l c a =
      next_in_queue-Takes fuel (mpsc.contents w.shared.queue) w refl l c a
  after_take-Takes fuel (some m) w l c a =
      let s : Same w w = record {
        service = refl;
        finish = refl;
        is_open = refl;
        empty_handed = c;
        agrees = a;
      } in
      or_else-Takes fuel m (mpsc.contents w.shared.queue) w w s refl
        (λ v e c' a'. next_in_queue-Takes fuel (mpsc.contents w.shared.queue) v e l c' a')

  -- With fuel for more messages than the queue holds, and no shutdown begun, `poll_next_msg` does
  -- not fail or panic, and changes nothing but the queue and the message at hand. It takes the
  -- first message, of the one at hand and then those in the queue, that somebody waits for, with
  -- all before it; where nobody waits for any of them, it answers that there is no message and the
  -- queue is empty.
  pub poll_next_msg-Takes :
      (fuel : ℕ) (w : Worker S Req H Q O)
      → length (mpsc.contents w.shared.queue) < fuel
      → w.finish ≡ false
      → Agrees w
      → Takes (queued w) (taken w) (poll_next_msg svc mpsc oneshot fuel w)
  unfolding poll_next_msg next_unless take_current
  poll_next_msg-Takes fuel w l f a =
      subst (λ b. Takes (queued w) (taken w) (next_unless svc mpsc oneshot b fuel w)) (sym f)
        (after_take-Takes fuel w.current_message (taken w) l refl a)
