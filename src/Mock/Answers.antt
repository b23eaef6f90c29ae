-- ===== src/Mock/Answers.antt =====
-- A request of tower-mock/src/lib.rs from its call to its response.
use pants_tower.Base.{
  ◌≡◌, refl, ap, subst, ◌∙◌, Bool, true, false, ◌==◌, some, arith, if◌then◌else◌,
}
use pants_tower.Service.{Poll, ready, not_ready, err, Result, success, failure}
use pants_tower.Machine
use pants_tower.Machine.{Outcome, returns, panics, hangs}
use pants_tower.Channels.{Oneshot}
use pants_tower.Mock.{
  Error, closed, other, Mock, State, Request, contains_key, poll_ready, poll_open, send, call,
  respond, error, after_receive, poll,
}

module _ {K : Type 0} where
  -- A mock that is ready remembers it.
  abbrev Remembers :
      {E : Type 0} → Outcome (Mock × State K) (Poll (Unit {0}) (Error E)) (Unit {0}) → Type 0
  Remembers (returns (ready u) (m, s)) = m.can_send ≡ true
  Remembers (returns not_ready h) = Unit {0}
  Remembers (returns (err e) h) = Unit {0}
  Remembers (Machine.fails e s) = Unit {0}
  Remembers panics = Unit {0}
  Remembers hangs = Unit {0}

  if-Remembers :
      {E : Type 0} (b : Bool)
      (x y : Outcome (Mock × State K) (Poll (Unit {0}) (Error E)) (Unit {0}))
      → (b ≡ true → Remembers x)
      → Remembers y
      → Remembers (if b then x else y)
  if-Remembers true x y h k = h refl
  if-Remembers false x y h k = k

  poll_open-Remembers :
      (E : Type 0) (task : K) (m : Mock) (s : State K) → Remembers {E = E} (poll_open task (m, s))
  unfolding poll_open
  poll_open-Remembers E task m s =
      if-Remembers (s.rem == 0) _ _ (λ e. tt)
        (if-Remembers (contains_key m.id s.tasks) panics
          (returns (ready tt) (record m { can_send = true }, s)) (λ e. tt) refl)

  poll_ready-Remembers :
      (E : Type 0) (task : K) (m : Mock) (s : State K) → Remembers {E = E} (poll_ready task (m, s))
  unfolding poll_ready
  poll_ready-Remembers E task m s =
      if-Remembers s.is_closed _ _ (λ e. tt)
        (if-Remembers m.can_send _ _ (λ e. e) (poll_open-Remembers E task m s))

module _ {U E H O : Type 0} (oneshot : Oneshot H (Result U E) O) where
  poll_received :
      (h : H) (r : Result U E) (o : O)
      → oneshot.delivered h o ≡ some r
      → (poll oneshot (other h) o).0 ≡ after_receive oneshot (ready r)
  unfolding poll
  poll_received h r o e = ap (after_receive oneshot) (oneshot.poll_delivered h r o e)

module _ {T U E H O Q K : Type 0} (oneshot : Oneshot H (Result U E) O)
    (unbounded_send : Request T H → Q → Bool × Q) where
  call_ready :
      (request : T) (m : Mock) (s : State K) (q : Q) (o : O)
      → m.can_send ≡ true
      → s.is_closed ≡ false
      → call oneshot unbounded_send request m s q o ≡ send oneshot unbounded_send request m s q o
  unfolding call
  call_ready request m s q o e f = ground (arith, e, f)

  -- Where `poll_ready` has answered that the mock is ready, then the handle is not dropped, the
  -- queue takes the request of the call and the response is still awaited, the call is sent
  -- whatever the capacity is by then, and the response future answers with the value that the
  -- handle responds with, or with the error.
  pub poll-respond :
      (request : T) (task : K) (m m' : Mock) (s s' t : State K) (q : Q) (o o' : O) (v : U) (e : E)
      → poll_ready {E = E} task (m, s) ≡ returns (ready tt) (m', s')
      → t.is_closed ≡ false
      → let h = (oneshot.channel o).0 in
        let r : Request T H = record { request = request; respond = h } in
        (unbounded_send r q).0 ≡ true
        → oneshot.canceled h o' ≡ false
        → let (f, m'', t', q', o'') = call oneshot unbounded_send request m' t q o in
          (f ≡ other h)
          × (m''.can_send ≡ false)
          × (q' ≡ (unbounded_send r q).1)
          × ((poll oneshot f (respond oneshot h v o')).0 ≡ ready v)
          × ((poll oneshot f (error oneshot h e o')).0 ≡ err (other e))
  unfolding send respond error after_receive
  poll-respond request task m m' s s' t q o o' v e r c sent alive =
      let h = (oneshot.channel o).0 in
      let can : m'.can_send ≡ true = subst Remembers r (poll_ready-Remembers E task m s) in
      let k = call_ready request m' t q o can c in
      let f : (call oneshot unbounded_send request m' t q o).0 ≡ other h =
        ap (λ x. x.0) k ∙ ap (λ b. if b then other h else closed) sent in
      (
        f,
        ap (λ x. x.1.can_send) k,
        ap (λ x. x.3) k,
        ap (λ f. (poll oneshot f (respond oneshot h v o')).0) f
            ∙ poll_received oneshot h (success v) (respond oneshot h v o')
                (oneshot.delivered-send h (success v) o' alive),
        ap (λ f. (poll oneshot f (error oneshot h e o')).0) f
            ∙ poll_received oneshot h (failure e) (error oneshot h e o')
                (oneshot.delivered-send h (failure e) o' alive),
      )
