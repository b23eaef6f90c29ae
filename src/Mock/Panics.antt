-- ===== src/Mock/Panics.antt =====
-- The assertion in `poll_ready` of tower-mock/src/lib.rs.
use pants_tower.Base.{
  ℕ, ◌<◌, ◌≡◌, refl, sym, ap, subst, Bool, true, false, List, [], ◌∷◌, ◌++◌, arith, ◌==◌,
  Bool-cases, inl, inr, ◌&&◌, not, if◌then◌else◌,
}
use pants_tower.Service.{Poll, Result}
use pants_tower.Machine
use pants_tower.Machine.{Outcome, returns, panics, hangs}
use pants_tower.Channels.{Oneshot}
use pants_tower.Mock.{
  Error, Mock, State, Request, contains_key, remove, new_state, new, poll_ready, poll_open, clone,
  drop, allow, drop_handle, send, call,
}

-- The mocks that are alive, the state that they share, and the channels.
pub record System (K Q O : Type 0) : Type 0 where
  pub mocks : List Mock
  pub state : State K
  pub queue : Q
  pub oneshots : O

module _ {T U E H O Q K : Type 0} (oneshot : Oneshot H (Result U E) O)
    (unbounded_send : Request T H → Q → Bool × Q) where
  pub data Step (s t : System K Q O) : Type 0 where
    polls_ready :
        (task : K) (m m' : Mock) (p : Poll (Unit {0}) (Error E)) (state : State K)
        (before after : List Mock)
        → s.mocks ≡ before ++ (m ∷ after)
        → poll_ready task (m, s.state) ≡ returns p (m', state)
        → t ≡ record s { mocks = before ++ (m' ∷ after); state = state }
        → Step s t
    calls :
        (request : T) (m : Mock) (before after : List Mock)
        → s.mocks ≡ before ++ (m ∷ after)
        → t ≡ (
            let (f, m', state, q, o) =
              call oneshot unbounded_send request m s.state s.queue s.oneshots in
            record { mocks = before ++ (m' ∷ after); state = state; queue = q; oneshots = o })
        → Step s t
    clones :
        (m : Mock) (before after : List Mock)
        → s.mocks ≡ before ++ (m ∷ after)
        → t
          ≡ (let (m', state) = clone m s.state in record s { mocks = m' ∷ s.mocks; state = state })
        → Step s t
    drops :
        (m : Mock) (before after : List Mock)
        → s.mocks ≡ before ++ (m ∷ after)
        → t ≡ record s { mocks = before ++ after; state = drop m s.state }
        → Step s t
    allows : (num : ℕ) → t ≡ record s { state = (allow num s.state).1 } → Step s t
    drops_handle : t ≡ record s { state = (drop_handle s.state).1 } → Step s t
    -- The handle takes requests out and answers them.
    receives : (q : Q) (o : O) → t ≡ record s { queue = q; oneshots = o } → Step s t

  pub data Reach (s : System K Q O) : System K Q O → Type 0 where
    here : Reach s s
    next : {t u : System K Q O} → Reach s t → Step t u → Reach s u

-- No task is blocked while there is capacity.
abbrev Inv : {K : Type 0} → State K → Type 0
Inv state = 0 < state.rem → state.tasks ≡ []

module _ {K : Type 0} where
  Inv-clone : (m : Mock) (s : State K) → Inv s → Inv (clone m s).1
  unfolding clone
  Inv-clone m s v = v

  Inv-drop : (m : Mock) (s : State K) → Inv s → Inv (drop m s)
  unfolding drop
  Inv-drop m s v l = ap (remove m.id) (v l)

  Inv-allow : (num : ℕ) (s : State K) → Inv (allow num s).1
  unfolding allow
  Inv-allow num s l = ground (arith, l)

  Inv-drop_handle : (s : State K) → Inv (drop_handle s).1
  unfolding drop_handle
  Inv-drop_handle s l = refl

  abbrev Lets :
      {E : Type 0} → Outcome (Mock × State K) (Poll (Unit {0}) (Error E)) (Unit {0}) → Type 0
  Lets (returns p (m, s)) = Inv s
  Lets (Machine.fails e s) = ⊥
  Lets panics = ⊥
  Lets hangs = ⊥

  -- With capacity there is no task of this mock, or of any.
  contains_key_none :
      (s : State K) (id : ℕ) → Inv s → (s.rem == 0) ≡ false → contains_key id s.tasks ≡ false
  contains_key_none s id v e = ap (contains_key id) (v (ground (arith, e)))

  poll_open-Lets :
      (E : Type 0) (task : K) (m : Mock) (s : State K)
      → Inv s
      → Lets {E = E} (poll_open task (m, s))
  unfolding poll_open
  poll_open-Lets E task m s v = elim (Bool-cases (s.rem == 0)) [
    | inl e ↦ rw e (λ l. absurd (ground (arith, e, l)))
    | inr e ↦ rw (e, contains_key_none s m.id v e) v
  ]

  if-Lets :
      {E : Type 0} (b : Bool)
      (x y : Outcome (Mock × State K) (Poll (Unit {0}) (Error E)) (Unit {0}))
      → Lets x
      → Lets y
      → Lets (if b then x else y)
  if-Lets true x y h k = h
  if-Lets false x y h k = k

  poll_ready-Lets :
      (E : Type 0) (task : K) (m : Mock) (s : State K)
      → Inv s
      → Lets {E = E} (poll_ready task (m, s))
  unfolding poll_ready
  poll_ready-Lets E task m s v =
      if-Lets s.is_closed _ _ v (if-Lets m.can_send _ _ v (poll_open-Lets E task m s v))

  returned :
      {E : Type 0} (o : Outcome (Mock × State K) (Poll (Unit {0}) (Error E)) (Unit {0}))
      → Lets o
      → (p : Poll (Unit {0}) (Error E)) × (h : Mock × State K) × (o ≡ returns p h)
  returned (returns p h) l = (p, h, refl)
  returned (Machine.fails e h) l = absurd l
  returned panics l = absurd l
  returned hangs l = absurd l

module _ {T U E H O Q K : Type 0} (oneshot : Oneshot H (Result U E) O)
    (unbounded_send : Request T H → Q → Bool × Q) where
  Inv-send :
      (request : T) (m : Mock) (s : State K) (q : Q) (o : O)
      → Inv s
      → Inv (send oneshot unbounded_send request m s q o).2
  unfolding send
  Inv-send request m s q o v l = v (omega (arith, l))

  Inv-if :
      (b : Bool) (x y : Error H × Mock × State K × Q × O)
      → Inv x.2
      → Inv y.2
      → Inv (if b then x else y).2
  Inv-if true x y h k = h
  Inv-if false x y h k = k

  Inv-call :
      (request : T) (m : Mock) (s : State K) (q : Q) (o : O)
      → Inv s
      → Inv (call oneshot unbounded_send request m s q o).2
  unfolding call
  Inv-call request m s q o v =
      Inv-if s.is_closed _ _ v
        (Inv-if (not m.can_send && (s.rem == 0)) _ _ v (Inv-send request m s q o v))

  Step-Inv : {s t : System K Q O} → Step oneshot unbounded_send s t → Inv s.state → Inv t.state
  Step-Inv {s} (polls_ready task m m' p state before after e q f) v =
      subst (λ t. Inv t.state) (sym f) (subst Lets q (poll_ready-Lets E task m s.state v))
  Step-Inv {s} (calls request m before after e f) v =
      subst (λ t. Inv t.state) (sym f) (Inv-call request m s.state s.queue s.oneshots v)
  Step-Inv {s} (clones m before after e f) v =
      subst (λ t. Inv t.state) (sym f) (Inv-clone m s.state v)
  Step-Inv {s} (drops m before after e f) v =
      subst (λ t. Inv t.state) (sym f) (Inv-drop m s.state v)
  Step-Inv {s} (allows num f) v = subst (λ t. Inv t.state) (sym f) (Inv-allow num s.state)
  Step-Inv {s} (drops_handle f) v = subst (λ t. Inv t.state) (sym f) (Inv-drop_handle s.state)
  Step-Inv (receives q o f) v = subst (λ t. Inv t.state) (sym f) v

  Reach-Inv : {s t : System K Q O} → Reach oneshot unbounded_send s t → Inv s.state → Inv t.state
  Reach-Inv here v = v
  Reach-Inv (next r step) v = Step-Inv step (Reach-Inv r v)

  -- In every state that a new mock reaches, by any order of what its clones and its handle do, the
  -- assertion in `poll_ready` holds: it does not panic, for any mock and any current task.
  pub poll_ready_returns :
      (queue : Q) (oneshots : O) (t : System K Q O) (task : K) (m : Mock)
      → let (mock, state) = new {K = K} in
        Reach oneshot unbounded_send
          (record { mocks = mock ∷ []; state = state; queue = queue; oneshots = oneshots })
          t
        → (p : Poll (Unit {0}) (Error E)) × (h : Mock × State K) × (poll_ready task (m, t.state)
            ≡ returns p h)
  unfolding new new_state
  poll_ready_returns queue oneshots t task m r =
      returned (poll_ready task (m, t.state))
        (poll_ready-Lets E task m t.state (Reach-Inv r (λ l. refl)))
