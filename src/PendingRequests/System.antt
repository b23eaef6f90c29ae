-- ===== src/PendingRequests/System.antt =====
-- A service of tower-balance/src/load/pending_requests.rs with the responses that it has given.
use pants_tower.Base.{
  ℕ, suc, ◌+◌, ◌≡◌, refl, sym, ap, subst, ◌∙◌, Option, none, some, List, [], ◌∷◌, ◌++◌, arith,
}
use pants_tower.Service.{Poll, ready, not_ready, err, Service, Future}
use pants_tower.Machine
use pants_tower.Machine.{hangs, Outcome, returns, panics}
use pants_tower.PendingRequests.{
  Handle, Instrument, InstrumentFuture, PendingRequests, new, load, call, take_handle, after_poll,
  poll, drop_held,
}

-- The service, the count of its `Arc`, and what is alive of its response futures and of their
-- outputs.
pub record System (S F I O : Type 0) : Type 0 where
  pub service : PendingRequests S I
  pub count : ℕ
  pub futures : List (InstrumentFuture F I)
  pub outputs : List O

abbrev pub start : {S F I O : Type 0} → S → I → System S F I O
start service instrument =
    let (self, count) = new service instrument in
    record { service = self; count = count; futures = []; outputs = [] }

abbrev pub one : Option Handle → ℕ
one none = 0
one (some h) = 1

abbrev pub waiting : {F I : Type 0} → List (InstrumentFuture F I) → ℕ
waiting [] = 0
waiting (f ∷ fs) = one f.held + waiting fs

waiting-append :
    {F I : Type 0} (xs ys : List (InstrumentFuture F I))
    → waiting (xs ++ ys) ≡ waiting xs + waiting ys
waiting-append [] ys = omega arith
waiting-append (x ∷ xs) ys = omega (arith, waiting-append xs ys)

abbrev given : {O E : Type 0} → Poll O E → List O
given (ready o) = o ∷ []
given not_ready = []
given (err e) = []

module _ {S I Req F V O E : Type 0} (svc : Service S Req F E) (fut : Future F V E)
    (instruments : Instrument I V O) where
  abbrev pub holding : List O → ℕ
  holding [] = 0
  holding (o ∷ os) = instruments.holds o + holding os

  holding-append : (xs ys : List O) → holding (xs ++ ys) ≡ holding xs + holding ys
  holding-append [] ys = omega arith
  holding-append (x ∷ xs) ys = omega (arith, holding-append xs ys)

  pub data Step (s t : System S F I O) : Type 0 where
    calls :
        (req : Req)
        → t ≡ (
            let (f, service, count) = call svc s.service req s.count in
            record s { service = service; count = count; futures = f ∷ s.futures })
        → Step s t
    -- A poll that does not panic, with a response or without one.
    polls :
        (f g : InstrumentFuture F I) (p : Poll O E) (count : ℕ)
        (before after : List (InstrumentFuture F I))
        → s.futures ≡ before ++ (f ∷ after)
        → poll fut instruments (f, s.count) ≡ returns p (g, count)
        → t ≡ record s {
          count = count;
          futures = before ++ (g ∷ after);
          outputs = given p ++ s.outputs;
        }
        → Step s t
    drops_future :
        (f : InstrumentFuture F I) (before after : List (InstrumentFuture F I))
        → s.futures ≡ before ++ (f ∷ after)
        → t ≡ record s { count = drop_held f.held s.count; futures = before ++ after }
        → Step s t
    drops_output :
        (o : O) (before after : List O)
        → s.outputs ≡ before ++ (o ∷ after)
        → t ≡ record s { count = instruments.drop_output o s.count; outputs = before ++ after }
        → Step s t

  pub data Reach (s : System S F I O) : System S F I O → Type 0 where
    here : Reach s s
    next : {t u : System S F I O} → Reach s t → Step t u → Reach s u

  -- The count is one for the service, and one for every handle.
  abbrev Inv : System S F I O → Type 0
  Inv s = s.count ≡ suc (waiting s.futures + holding s.outputs)

  -- A poll changes the count by the handles that it drops.
  abbrev Counts : ℕ → Outcome (InstrumentFuture F I × ℕ) (Poll O E) (Unit {0}) → Type 0
  Counts c (returns p (g, count)) = count ≡ one g.held + holding (given p) + c
  Counts c (Machine.fails e s) = Unit {0}
  Counts c panics = Unit {0}
  Counts c hangs = Unit {0}

  take_handle-Counts :
      (v : V) (h : Option Handle) (self : InstrumentFuture F I) (c : ℕ)
      → Counts c (take_handle fut instruments v h (self, c + one h))
  unfolding take_handle
  take_handle-Counts v none self c = tt
  take_handle-Counts v (some h) self c =
      omega (arith, instruments.holds-instrument self.instrument h v c)

  after_poll-Counts :
      (p : Poll V E) (self : InstrumentFuture F I) (c : ℕ)
      → Counts c (after_poll fut instruments p (self, c + one self.held))
  unfolding after_poll
  after_poll-Counts (ready v) self c = take_handle-Counts v self.held self c
  after_poll-Counts not_ready self c = omega arith
  after_poll-Counts (err e) self c = omega arith

  poll-Counts :
      (self : InstrumentFuture F I) (c : ℕ)
      → Counts c (poll fut instruments (self, c + one self.held))
  unfolding poll
  poll-Counts self c =
      after_poll-Counts (fut.poll self.future).0 (record self { future = (fut.poll self.future).1 })
        c

  counted :
      (f g : InstrumentFuture F I) (p : Poll O E) (n count c : ℕ)
      → n ≡ c + one f.held
      → poll fut instruments (f, n) ≡ returns p (g, count)
      → count ≡ one g.held + holding (given p) + c
  counted f g p n count c e q =
      subst (Counts c) (ap (λ m. poll fut instruments (f, m)) (sym e) ∙ q) (poll-Counts f c)

  drop_held_lem : (h : Option Handle) (c : ℕ) → drop_held h (c + one h) ≡ c
  drop_held_lem none c = omega arith
  drop_held_lem (some h) c = omega arith

  Step-Inv : {s t : System S F I O} → Step s t → Inv s → Inv t
  unfolding call
  Step-Inv (calls req e) v = subst Inv (sym e) (omega (arith, v))
  Step-Inv {s} (polls f g p count before after e q e') v =
      let w = ap waiting e ∙ waiting-append before (f ∷ after) in
      let c = suc (waiting before + waiting after + holding s.outputs) in
      subst Inv (sym e') (
        omega (
          arith,
          counted f g p s.count count c (omega (arith, v, w)) q,
          waiting-append before (g ∷ after),
          holding-append (given p) s.outputs,
        ))
  Step-Inv {s} (drops_future f before after e e') v =
      let w = ap waiting e ∙ waiting-append before (f ∷ after) in
      let c = suc (waiting before + waiting after + holding s.outputs) in
      let n : s.count ≡ c + one f.held = omega (arith, v, w) in
      subst Inv (sym e') (
        omega
          (arith, ap (drop_held f.held) n ∙ drop_held_lem f.held c, waiting-append before after))
  Step-Inv {s} (drops_output o before after e e') v =
      let w = ap holding e ∙ holding-append before (o ∷ after) in
      let c = suc (waiting s.futures + (holding before + holding after)) in
      let n : s.count ≡ c + instruments.holds o = omega (arith, v, w) in
      subst Inv (sym e') (
        omega (
          arith,
          ap (instruments.drop_output o) n ∙ instruments.drop_output-holds o c,
          holding-append before after,
        ))

  Reach-Inv : {s t : System S F I O} → Reach s t → Inv s → Inv t
  Reach-Inv here v = v
  Reach-Inv (next r step) v = Step-Inv step (Reach-Inv r v)

  -- In every state that a new service reaches, by any order of calls, polls of response futures
  -- that do not panic, and drops of response futures and of their outputs, its load is the number
  -- of the response futures that have not answered with a response and are alive, with the handles
  -- in the outputs that are alive.
  pub Reach-load :
      (service : S) (instrument : I) (t : System S F I O)
      → Reach (start service instrument) t
      → load t.service t.count ≡ waiting t.futures + holding t.outputs
  unfolding load new
  Reach-load service instrument t r = omega (arith, Reach-Inv r refl)
