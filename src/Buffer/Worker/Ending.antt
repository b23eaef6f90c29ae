-- ===== src/Buffer/Worker/Ending.antt =====
-- `poll` of the worker of tower-buffer/src/lib.rs as a whole.
use pants_tower.Base.{
  ℕ, zero, suc, ◌+◌, ◌*◌, ◌≤◌, ◌<◌, ◌≡◌, refl, sym, ap, subst, Bool, true, false, List, arith,
  length, Bool-cases, inl, inr,
}
use pants_tower.Service.{DirectService}
use pants_tower.Machine.{Outcome, Ends, bind, bind-Ends, Ends-mono}
use pants_tower.Channels.{Mpsc, Oneshot}
use pants_tower.Buffer.{Message}
use pants_tower.Buffer.Worker.{
  Flow, continues, ends, poll_next_msg, next_unless, after_next, close, turn, unless_done, turns,
  poll,
}
use pants_tower.Buffer.Worker.Queue.{Next, poll_next_msg-Takes}
use pants_tower.Buffer.Worker.Order.{
  recorded, one, pending, Kept, Settled, Turned, TurnEnds, close-TurnEnds,
}
use pants_tower.Buffer.Worker.Turns.{State, Starts, waits_for, measure, after_next-TurnEnds}

one-le : (b : Bool) → one b ≤ 1
one-le true = omega arith
one-le false = omega arith

module _ {S Req F E H T Q O : Type 0} (svc : DirectService S Req F E)
    (mpsc : Mpsc T Q (Message Req H)) (oneshot : Oneshot H F O) (dropped : H → Bool)
    (all : List Req) where
  abbrev Loses : Unit {0} → State svc mpsc oneshot dropped all → Type 0
  Loses e w = Kept svc mpsc oneshot dropped all w

  -- A worker that is shutting down only closes the service.
  turn_finished :
      (skips : ℕ) (any : Bool) (w : State svc mpsc oneshot dropped all)
      → w.finish ≡ true
      → turn (recorded svc) mpsc oneshot skips any w
        ≡ close (recorded svc) mpsc oneshot (record w { finish = true })
  unfolding turn poll_next_msg next_unless after_next
  turn_finished skips any w f =
      ap
        (λ b.
          bind (next_unless (recorded svc) mpsc oneshot b skips w)
            (after_next (recorded svc) mpsc oneshot any))
        f

  turn-TurnEnds :
      (skips : ℕ) (any : Bool) (w : State svc mpsc oneshot dropped all)
      → Kept svc mpsc oneshot dropped all w
      → length (mpsc.contents w.shared.queue) < skips
      → TurnEnds svc mpsc oneshot dropped all
          (measure svc mpsc oneshot dropped all any w)
          (turn (recorded svc) mpsc oneshot skips any w)
  unfolding turn
  turn-TurnEnds skips any w k l =
      let n = measure svc mpsc oneshot dropped all any w in
      elim (Bool-cases w.finish) [
        | inl f ↦
            subst (TurnEnds svc mpsc oneshot dropped all n) (sym (turn_finished skips any w f)) (
              close-TurnEnds svc mpsc oneshot dropped all n (record w { finish = true })
                (record { sent = k.sent; drained = λ x. k.drained f; agrees = k.agrees }) refl)
        | inr f ↦
            bind-Ends
              (λ next w'.
                Starts svc mpsc oneshot dropped all w w'
                × Next (recorded svc) mpsc oneshot dropped
                    (waits_for svc mpsc oneshot dropped all w) next w')
              (Turned svc mpsc oneshot dropped all n) Loses
              (poll_next_msg (recorded svc) mpsc oneshot skips w) _
              (Ends-mono _ _ (λ e w'. ⊥) Loses (poll_next_msg (recorded svc) mpsc oneshot skips w)
                (poll_next_msg-Takes (recorded svc) mpsc oneshot dropped skips w l f k.agrees)
                (λ next w' h. h) (λ e w' h. absurd h))
              (λ next w' h.
                after_next-TurnEnds svc mpsc oneshot dropped all w k f any next w' h.0 h.1)
      ]

  contents-le :
      (w : State svc mpsc oneshot dropped all)
      → length (mpsc.contents w.shared.queue) ≤ pending svc mpsc oneshot dropped all w
  contents-le w = ground arith

  turns-Ends :
      (skips fuel : ℕ) (any : Bool) (w : State svc mpsc oneshot dropped all)
      → Kept svc mpsc oneshot dropped all w
      → pending svc mpsc oneshot dropped all w < skips
      → measure svc mpsc oneshot dropped all any w < fuel
      → Ends
          (Settled svc mpsc oneshot dropped all)
          Loses
          (turns (recorded svc) mpsc oneshot skips fuel any w)
  unfolding turns unless_done
  turns-Ends skips zero any w k l m = absurd (omega arith)
  turns-Ends skips (suc fuel) any w k l m =
      bind-Ends (Turned svc mpsc oneshot dropped all (measure svc mpsc oneshot dropped all any w))
        (Settled svc mpsc oneshot dropped all) Loses (turn (recorded svc) mpsc oneshot skips any w)
        _ (turn-TurnEnds skips any w k (omega (arith, contents-le w, l)))
        (next (turns (recorded svc) mpsc oneshot skips fuel) (turns-Ends skips fuel))
    where
      next :
          (again : Bool
            → State svc mpsc oneshot dropped all
            → Outcome (State svc mpsc oneshot dropped all) Bool (Unit {0}))
          → ((any' : Bool) (w' : State svc mpsc oneshot dropped all)
              → Kept svc mpsc oneshot dropped all w'
              → pending svc mpsc oneshot dropped all w' < skips
              → measure svc mpsc oneshot dropped all any' w' < fuel
              → Ends (Settled svc mpsc oneshot dropped all) Loses (again any' w'))
          → (flow : Flow) (w' : State svc mpsc oneshot dropped all)
          → Turned svc mpsc oneshot dropped all (measure svc mpsc oneshot dropped all any w) flow w'
          → Ends
              (Settled svc mpsc oneshot dropped all)
              Loses
              (unless_done (recorded svc) mpsc oneshot again flow w')
      next again ih (continues any') w' (k', l') =
          ih any' w' k' (omega (arith, one-le any, l')) (omega (arith, l'))
      next again ih (ends done) w' h = h

  -- For a service of any behaviour, a worker whose requests sent and waiting are, in their order,
  -- all that were asked and not given up by their callers, and fuel for more skipped messages than
  -- wait and for more than twice as many turns and one, `poll` neither panics nor runs out of
  -- fuel. It ends with all requests sent or waiting in that order; or done, with all of them sent
  -- in that order; or done with the buffer closed, and exactly the request at hand lost. Where it
  -- fails, none is lost.
  pub poll-Settled :
      (skips fuel : ℕ) (w : State svc mpsc oneshot dropped all)
      → Kept svc mpsc oneshot dropped all w
      → pending svc mpsc oneshot dropped all w < skips
      → 2 * pending svc mpsc oneshot dropped all w + 1 < fuel
      → Ends
          (Settled svc mpsc oneshot dropped all)
          (λ e w'. Kept svc mpsc oneshot dropped all w')
          (poll (recorded svc) mpsc oneshot skips fuel w)
  unfolding poll
  poll-Settled skips fuel w k l m = turns-Ends skips fuel true w k l m
