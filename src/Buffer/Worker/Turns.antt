-- ===== src/Buffer/Worker/Turns.antt =====
-- The turns of the worker of tower-buffer/src/lib.rs, from the next message to the end of `poll`.
use pants_tower.Base.{
  ℕ, ◌+◌, ◌*◌, ◌≤◌, ◌≡◌, refl, sym, ap, ◌∙◌, Bool, true, false, List, [], ◌∷◌, ◌++◌, map, Option,
  none, some, arith, length,
}
use mathlib.Core.List.{append_assoc}
use pants_tower.Service.{Poll, ready, not_ready, err, DirectService}
use pants_tower.Channels.{Mpsc, Oneshot}
use pants_tower.Buffer.{Message}
use pants_tower.Buffer.Worker.{dispatch, put_back, shut, after_ready, offer, after_next}
use pants_tower.Buffer.Worker.Queue.{live, optional, queued, Agrees, Same, Next, taken}
use pants_tower.Buffer.Worker.Order.{
  recorded, one, Recorder, waiting, pending, Kept, waits, broken, TurnEnds, close-TurnEnds,
  drive-TurnEnds,
}

module _ {S Req F E H T Q O : Type 0} (svc : DirectService S Req F E)
    (mpsc : Mpsc T Q (Message Req H)) (oneshot : Oneshot H F O) (dropped : H → Bool)
    (all : List Req) where
  abbrev pub State : Type 0
  State = Recorder svc mpsc oneshot dropped all

  -- The message `m` is in hand, in a turn that began with the measure `n`.
  record Holds (n : ℕ) (any : Bool) (m : Message Req H) (w : State) : Type 0 where
    sent : w.service.1 ++ m.request ∷ waiting svc mpsc oneshot dropped all w ≡ all
    alive : dropped m.tx ≡ false
    empty_handed : w.current_message ≡ none
    unfinished : w.finish ≡ false
    agrees : Agrees (recorded svc) mpsc oneshot dropped w
    fewer : 2 * length (mpsc.contents w.shared.queue) + 2 + one any ≤ n

  dispatch-TurnEnds :
      (n : ℕ) (any : Bool) (m : Message Req H) (w : State)
      → Holds n any m w
      → TurnEnds svc mpsc oneshot dropped all n (dispatch (recorded svc) mpsc oneshot m w)
  unfolding dispatch
  dispatch-TurnEnds n any m w h = (
    record {
      sent =
          append_assoc w.service.1 (m.request ∷ []) (waiting svc mpsc oneshot dropped all w)
          ∙ h.sent;
      drained = λ f. absurd (cc (h.unfinished));
      agrees = λ g. oneshot.canceled-send m.tx g _ w.shared.oneshots ∙ h.agrees g;
    },
    rw (h.empty_handed) (omega (arith, h.fewer)),
  )

  abbrev held : Message Req H → State → State
  held m w = record w { current_message = some m }

  waiting-held :
      (m : Message Req H) (w : State)
      → dropped m.tx ≡ false
      → w.current_message ≡ none
      → waiting svc mpsc oneshot dropped all (held m w)
        ≡ m.request ∷ waiting svc mpsc oneshot dropped all w
  waiting-held m w d e = ground (arith, d, e)

  held-Kept :
      (n : ℕ) (any : Bool) (m : Message Req H) (w : State)
      → Holds n any m w
      → Kept svc mpsc oneshot dropped all (held m w)
  held-Kept n any m w h = record {
    sent = ap (◌++◌ w.service.1) (waiting-held m w h.alive h.empty_handed) ∙ h.sent;
    drained = λ f. absurd (cc (h.unfinished));
    agrees = h.agrees;
  }

  put_back-TurnEnds :
      (n : ℕ) (any : Bool) (m : Message Req H) (w : State)
      → Holds n any m w
      → TurnEnds svc mpsc oneshot dropped all n (put_back (recorded svc) mpsc oneshot any m w)
  unfolding put_back
  put_back-TurnEnds n true m w h =
      drive-TurnEnds svc mpsc oneshot dropped all n (held m w) (held-Kept n true m w h) h.unfinished
        (omega (arith, h.fewer))
  put_back-TurnEnds n false m w h = waits refl (held-Kept n false m w h)

  after_ready-TurnEnds :
      (n : ℕ) (any : Bool) (m : Message Req H) (p : Poll (Unit {0}) E) (w : State)
      → Holds n any m w
      → TurnEnds svc mpsc oneshot dropped all n (after_ready (recorded svc) mpsc oneshot any m p w)
  unfolding after_ready shut
  after_ready-TurnEnds n any m (ready u) w h = dispatch-TurnEnds n any m w h
  after_ready-TurnEnds n any m not_ready w h = put_back-TurnEnds n any m w h
  after_ready-TurnEnds n any m (err e) w h = broken m.request refl refl h.sent

  offer-TurnEnds :
      (n : ℕ) (any : Bool) (m : Message Req H) (w : State)
      → Holds n any m w
      → TurnEnds svc mpsc oneshot dropped all n (offer (recorded svc) mpsc oneshot any m w)
  unfolding offer
  offer-TurnEnds n any m w h =
      after_ready-TurnEnds n any m (svc.poll_ready w.service.0).0
        (record w { service = ((recorded svc).poll_ready w.service).1 })
        (record {
          sent = h.sent;
          alive = h.alive;
          empty_handed = h.empty_handed;
          unfinished = h.unfinished;
          agrees = h.agrees;
          fewer = h.fewer;
        })

  abbrev pub measure : Bool → State → ℕ
  measure any w = 2 * pending svc mpsc oneshot dropped all w + one any

  abbrev pub Starts : State → State → Type 0
  Starts w w' =
      Same (recorded svc) mpsc oneshot dropped (taken (recorded svc) mpsc oneshot dropped w) w'

  abbrev pub waits_for : State → List (Message Req H)
  waits_for w = queued (recorded svc) mpsc oneshot dropped w

  module _ (w : State) (k : Kept svc mpsc oneshot dropped all w) (f : w.finish ≡ false) where
    sent_from :
        (w' : State) (ys : List (Message Req H))
        → Starts w w'
        → live dropped (waits_for w) ≡ ys
        → w'.service.1 ++ map (λ m. m.request) ys ≡ all
    sent_from w' ys s e =
        ap (λ x. x.1 ++ map (λ m. m.request) ys) s.service
        ∙ ap (λ ms. w.service.1 ++ map (λ m. m.request) ms) (sym e)
        ∙ k.sent

    nothing_waits :
        (w' : State) → Starts w w' → mpsc.contents w'.shared.queue ≡ [] → waits_for w' ≡ []
    nothing_waits w' s c = ap (λ o. optional o (mpsc.contents w'.shared.queue)) s.empty_handed ∙ c

    -- What is kept where nothing more waits.
    emptied :
        (w' : State) (fin : Bool)
        → Starts w w'
        → live dropped (waits_for w) ≡ []
        → mpsc.contents w'.shared.queue ≡ []
        → Kept svc mpsc oneshot dropped all (record w' { finish = fin })
    emptied w' fin s e c = record {
      sent =
          ap (λ ms. w'.service.1 ++ map (λ m. m.request) (live dropped ms)) (nothing_waits w' s c)
          ∙ sent_from w' [] s e;
      drained = λ x. nothing_waits w' s c;
      agrees = s.agrees;
    }

    pub after_next-TurnEnds :
        (any : Bool) (next : Option (Option (Message Req H))) (w' : State)
        → Starts w w'
        → Next (recorded svc) mpsc oneshot dropped (waits_for w) next w'
        → TurnEnds svc mpsc oneshot dropped all
            (measure any w)
            (after_next (recorded svc) mpsc oneshot any next w')
    unfolding after_next
    after_next-TurnEnds any (some (some m)) w' s (e, d, l) =
        let rest = mpsc.contents w'.shared.queue in
        offer-TurnEnds (measure any w) any m w' (record {
          sent =
              ap
                (λ o.
                  w'.service.1 ++ m.request ∷ map (λ m. m.request) (live dropped (optional o rest)))
                s.empty_handed
              ∙ sent_from w' (m ∷ live dropped rest) s e;
          alive = d;
          empty_handed = s.empty_handed;
          unfinished = s.finish ∙ f;
          agrees = s.agrees;
          fewer = omega (arith, l);
        })
    after_next-TurnEnds any (some none) w' s (e, c) =
        close-TurnEnds svc mpsc oneshot dropped all (measure any w) (record w' { finish = true })
          (emptied w' true s e c) refl
    after_next-TurnEnds true none w' s (e, c) =
        drive-TurnEnds svc mpsc oneshot dropped all (measure true w) w' (emptied w' w'.finish s e c)
          (s.finish ∙ f) (omega (arith, ap length (nothing_waits w' s c)))
    after_next-TurnEnds false none w' s (e, c) = waits refl (emptied w' w'.finish s e c)
