-- ===== src/Router/Borrowing.antt =====
-- Who borrows the cell of tower-router/src/lib.rs.
use pants_tower.Base.{
  ℕ, zero, suc, ◌+◌, ◌≤◌, ◌≡◌, ◌⊎◌, refl, sym, ap, subst, ◌∙◌, Bool, true, false, some, List, [],
  ◌∷◌, ◌++◌, arith, Bool-cases, inl, inr,
}
use pants_tower.Service.{Poll, ready, not_ready, err, Result, success, failure, Service, Future}
use pants_tower.Loop.{Answer, answers, crashed, unfinished, Turn, stop, again, crash, loop}
use pants_tower.Router.System.{System, Step, polls_ready, calls, polls, drops, Reach, here, next}
use pants_tower.Router.{
  Borrow, Recognize, Error, ResponseState, dispatched, route_error, queued, refused, invalid,
  ResponseFuture, poll_ready, call, after_poll, after_recognize, after_borrow, dispatch,
  after_ready, turn_in, turn, poll, drop_state,
}

abbrev pub one : Bool → ℕ
one true = 1
one false = 0

abbrev pub is_queued : {Req R G F RE : Type 0} → ResponseState Req R G F RE → Bool
is_queued (queued g r request) = true
is_queued (dispatched f) = false
is_queued (route_error e) = false
is_queued refused = false
is_queued invalid = false

abbrev pub waiting : {Req R G F RE : Type 0} → List (ResponseFuture Req R G F RE) → ℕ
waiting [] = 0
waiting (f ∷ fs) = one (is_queued f.state) + waiting fs

waiting-append :
    {Req R G F RE : Type 0} (xs ys : List (ResponseFuture Req R G F RE))
    → waiting (xs ++ ys) ≡ waiting xs + waiting ys
waiting-append [] ys = omega arith
waiting-append (x ∷ xs) ys = omega (arith, waiting-append xs ys)

module _ {B G T Req R S F A E RE : Type 0} (cells : Borrow B G T) (routes : Recognize T Req R S RE)
    (svc : Service S Req F E) (fut : Future F A E) where
  -- The cell is borrowed by the one future whose request is queued, or by none.
  abbrev Inv : System B Req R G F RE → Type 0
  Inv s = one (cells.borrowed s.router) ≡ waiting s.futures

  -- `n` futures beside the one at hand are queued.
  abbrev Fits : ℕ → ResponseFuture Req R G F RE × B → Type 0
  Fits n (self, b) = one (cells.borrowed b) ≡ one (is_queued self.state) + n

  abbrev Holds : ℕ → Answer (ResponseFuture Req R G F RE × B) A (Error E RE) → Type 0
  Holds n (answers p h) = Fits n h
  Holds n crashed = Unit {0}
  Holds n unfinished = Unit {0}

  abbrev Turns : ℕ → Turn (ResponseFuture Req R G F RE × B) A (Error E RE) → Type 0
  Turns n (stop p h) = Fits n h
  Turns n (again h) = Fits n h
  Turns n crash = Unit {0}

  after_recognize-Fits :
      (g : G) (request : Req) (r : Result R RE) (b : B)
      → cells.borrowed b ≡ true
      → Fits 0 (after_recognize cells routes g request r b)
  unfolding after_recognize
  after_recognize-Fits g request (success r) b e = ap one e
  after_recognize-Fits g request (failure x) b e = ap one (cells.borrowed-release g b)

  call-Fits : (b : B) (request : Req) → Fits (one (cells.borrowed b)) (call cells routes b request)
  unfolding call after_borrow
  call-Fits b request = elim (Bool-cases (cells.borrowed b)) [
    | inl e ↦
        subst
          (λ o.
            Fits (one (cells.borrowed b))
              (after_borrow cells routes o request (cells.try_borrow b).1))
          (sym (cells.try_borrow_taken b e))
          (omega (arith, ap one (cells.borrowed-try_borrow b ∙ sym e)))
    | inr e ↦
        let (g, o) = cells.try_borrow_free b e in
        let b' = (cells.try_borrow b).1 in
        let t = (routes.recognize (cells.read b') request).1 in
        subst (λ n. Fits n (call cells routes b request)) (ap one (sym e))
          (subst (λ o. Fits 0 (after_borrow cells routes o request b')) (sym o)
            (after_recognize-Fits g request (routes.recognize (cells.read b') request).0
              (cells.write t b') (cells.borrowed-write t b' ∙ cells.borrowed-try_borrow b)))
  ]

  one_le : (b : Bool) → one b ≤ 1
  one_le true = omega arith
  one_le false = omega arith

  after_ready-Turns :
      (n : ℕ) (g : G) (r : R) (request : Req) (p : Poll (Unit {0}) E)
      (h : ResponseFuture Req R G F RE × B)
      → one (cells.borrowed h.1) ≡ 1 + n
      → is_queued h.0.state ≡ true
      → Turns n (after_ready cells routes svc fut g r request p h)
  unfolding after_ready dispatch
  after_ready-Turns n g r request (ready u) h e q =
      let (f, s) = svc.call (routes.service r (cells.read h.1)) request in
      let b = cells.write (routes.put r s (cells.read h.1)) h.1 in
      omega (arith, e, one_le (cells.borrowed h.1), ap one (cells.borrowed-release g b))
  after_ready-Turns n g r request not_ready h e q = rw (q, one) e
  after_ready-Turns n g r request (err x) h e q = rw (q, one) e

  turn_in-Turns :
      (n : ℕ) (state : ResponseState Req R G F RE) (self : ResponseFuture Req R G F RE) (b : B)
      → self.state ≡ state
      → one (cells.borrowed b) ≡ one (is_queued state) + n
      → Turns n (turn_in cells routes svc fut state (self, b))
  unfolding turn_in
  turn_in-Turns n (dispatched f) self b q e = e
  turn_in-Turns n (queued g r request) self b q e =
      let (p, s) = svc.poll_ready (routes.service r (cells.read b)) in
      let t = routes.put r s (cells.read b) in
      after_ready-Turns n g r request p (self, cells.write t b)
        (ap one (cells.borrowed-write t b) ∙ e) (ap is_queued q)
  turn_in-Turns n (route_error x) self b q e = e
  turn_in-Turns n refused self b q e = e
  turn_in-Turns n invalid self b q e = tt

  turn-Turns :
      (n : ℕ) (h : ResponseFuture Req R G F RE × B)
      → Fits n h
      → Turns n (turn cells routes svc fut h)
  unfolding turn
  turn-Turns n (self, b) e = turn_in-Turns n self.state self b refl e

  loop-Holds :
      (fuel n : ℕ) (h : ResponseFuture Req R G F RE × B)
      → Fits n h
      → Holds n (loop fuel (turn cells routes svc fut) h)
  unfolding loop
  loop-Holds zero n h e = tt
  loop-Holds (suc fuel) n h e =
      go (turn cells routes svc fut h) (turn-Turns n h e) (loop-Holds fuel n)
    where
      go :
          (t : Turn (ResponseFuture Req R G F RE × B) A (Error E RE))
          → Turns n t
          → ((h' : ResponseFuture Req R G F RE × B)
              → Fits n h'
              → Holds n (loop fuel (turn cells routes svc fut) h'))
          → Holds n (elim t [
            | stop p h' ↦ answers p h'
            | again h' ↦ loop fuel (turn cells routes svc fut) h'
            | crash ↦ crashed
          ])
      go (stop p h') k ih = k
      go (again h') k ih = ih h' k
      go crash k ih = tt

  poll-Fits :
      (n : ℕ) (f g : ResponseFuture Req R G F RE) (b b' : B) (p : Poll A (Error E RE))
      → Fits n (f, b)
      → poll cells routes svc fut (f, b) ≡ answers p (g, b')
      → Fits n (g, b')
  unfolding poll
  poll-Fits n f g b b' p e q = subst (Holds n) q (loop-Holds 2 n (f, b) e)

  drop_state-borrowed :
      (n : ℕ) (state : ResponseState Req R G F RE) (b : B)
      → one (cells.borrowed b) ≡ one (is_queued state) + n
      → one (cells.borrowed (drop_state cells state b)) ≡ n
  drop_state-borrowed n (dispatched f) b e = omega (arith, e)
  drop_state-borrowed n (route_error x) b e = omega (arith, e)
  drop_state-borrowed n (queued g r request) b e =
      omega (arith, e, one_le (cells.borrowed b), ap one (cells.borrowed-release g b))
  drop_state-borrowed n refused b e = omega (arith, e)
  drop_state-borrowed n invalid b e = omega (arith, e)

  Step-Inv : {s t : System B Req R G F RE} → Step cells routes svc fut s t → Inv s → Inv t
  unfolding poll_ready
  Step-Inv {s} (polls_ready e) v =
      subst Inv (sym e) (ap one (cells.borrowed-poll_ready s.router) ∙ v)
  Step-Inv {s} (calls request e) v =
      subst Inv (sym e) (omega (arith, call-Fits s.router request, v))
  Step-Inv {s} (polls f g p b before after e q e') v =
      let n = waiting before + waiting after in
      let w = ap waiting e ∙ waiting-append before (f ∷ after) in
      subst Inv (sym e') (
        omega (
          arith,
          poll-Fits n f g s.router b p (omega (arith, v, w)) q,
          waiting-append before (g ∷ after),
        ))
  Step-Inv {s} (drops f before after e e') v =
      let w = ap waiting e ∙ waiting-append before (f ∷ after) in
      subst Inv (sym e') (
        omega (
          arith,
          drop_state-borrowed (waiting before + waiting after) f.state s.router
              (omega (arith, v, w)),
          waiting-append before after,
        ))

  Reach-Inv : {s t : System B Req R G F RE} → Reach cells routes svc fut s t → Inv s → Inv t
  Reach-Inv here v = v
  Reach-Inv (next r step) v = Step-Inv step (Reach-Inv r v)

  ready_lem :
      (b : B) (n : ℕ)
      → one (cells.borrowed b) ≡ n
      → ((n ≡ 0) × ((poll_ready cells b).0 ≡ some true))
        ⊎ ((n ≡ 1) × ((poll_ready cells b).0 ≡ some false))
  unfolding poll_ready after_poll
  ready_lem b n e = elim (Bool-cases (cells.borrowed b)) [
    | inl q ↦ inr (sym e ∙ ap one q, ap (after_poll cells) (cells.poll_ready_taken b q))
    | inr q ↦ inl (sym e ∙ ap one q, ap (after_poll cells) (cells.poll_ready_free b q))
  ]

  -- In every state that a free router reaches, by any order of readiness polls, calls, polls of
  -- response futures that do not panic and drops of them, at most one response future holds a
  -- request that waits for its route; the router is ready where there is none, and not ready where
  -- there is one.
  pub Reach-poll_ready :
      (b : B) (t : System B Req R G F RE)
      → cells.borrowed b ≡ false
      → Reach cells routes svc fut (record { router = b; futures = [] }) t
      → ((waiting t.futures ≡ 0) × ((poll_ready cells t.router).0 ≡ some true))
        ⊎ ((waiting t.futures ≡ 1) × ((poll_ready cells t.router).0 ≡ some false))
  Reach-poll_ready b t e r = ready_lem t.router (waiting t.futures) (Reach-Inv r (ap one e))
