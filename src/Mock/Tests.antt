-- ===== src/Mock/Tests.antt =====
-- tower-mock/src/lib.rs over a list as the queue, and oneshots that nobody drops.
use pants_tower.Base.{
  ℕ, ◌+◌, ◌≡◌, refl, ap, Bool, true, false, List, [], ◌∷◌, ◌++◌, length, Option, none, some, ◌==◌,
  if◌then◌else◌, arith,
}
use pants_tower.Service.{Poll, ready, not_ready, err, Result, success}
use pants_tower.Machine.{returns}
use pants_tower.Channels.{Oneshot}
use pants_tower.Mock.{
  Error, other, Mock, State, Request, new, new_state, poll_ready, allow, call, respond, error, poll,
}
use pants_tower.Mock.Panics.{System, Reach, here, next, polls_ready, allows, poll_ready_returns}
use pants_tower.Mock.Answers.{poll-respond}

-- The values that were sent, and the next name.
abbrev Slots : Type 0
Slots = List (ℕ × Result ℕ ℕ) × ℕ

abbrev value : ℕ → List (ℕ × Result ℕ ℕ) → Option (Result ℕ ℕ)
value n [] = none
value n ((k, f) ∷ xs) = if k == n then some f else value n xs

value_sent : (n : ℕ) (f : Result ℕ ℕ) (xs : List (ℕ × Result ℕ ℕ)) → value n ((n, f) ∷ xs) ≡ some f
value_sent n f xs = ground arith

abbrev fetch : Option (Result ℕ ℕ) → Poll (Result ℕ ℕ) (Unit {0})
fetch none = not_ready
fetch (some f) = ready f

none_dropped : {P : Type 0} → false ≡ true → P
none_dropped e = absurd (cc e)

abbrev slots : Oneshot ℕ (Result ℕ ℕ) Slots
slots = record {
  channel = λ o. (o.1, (o.0, o.1 + 1));
  send = λ h f o. (success tt, ((h, f) ∷ o.0, o.1));
  poll_cancel = λ h o. (not_ready, o);
  poll = λ h o. (fetch (value h o.0), o);
  canceled = λ h o. false;
  delivered = λ h o. value h o.0;
  canceled-channel = λ g o. refl;
  channel_alive = λ o. refl;
  canceled-poll_cancel = λ h g o. refl;
  canceled-send = λ h g f o. refl;
  poll_cancel_dropped = λ h o e. none_dropped e;
  poll_cancel_alive = λ h o e. refl;
  delivered-send = λ h f o e. value_sent h f o.0;
  poll_delivered = λ h f o e. ap fetch e;
}

abbrev push : Request ℕ ℕ → List (Request ℕ ℕ) → Bool × List (Request ℕ ℕ)
push r q = (true, q ++ r ∷ [])

abbrev state : ℕ → State ℕ
state rem = record { rem = rem; tasks = []; is_closed = false; next_clone_id = 1 }

abbrev mock : Bool → Mock
mock can_send = record { id = 0; can_send = can_send }

poll-respond_example :
    let (f, m, t, q, o) = call slots push 5 (mock true) (state 0) [] ([], 3) in
    (f ≡ other 3)
    × (m.can_send ≡ false)
    × (q ≡ (push (record { request = 5; respond = 3 }) []).1)
    × ((poll slots f (respond slots 3 8 ([], 4))).0 ≡ ready 8)
    × ((poll slots f (error slots 3 9 ([], 4))).0 ≡ err (other 9))
unfolding poll_ready
poll-respond_example =
    poll-respond slots push 5 7 (mock false) (mock true) (state 1) (state 1) (state 0) [] ([], 3)
      ([], 4) 8 9 refl refl refl refl

-- The mock waits while nothing is allowed.
abbrev blocked : State ℕ
blocked = record { rem = 0; tasks = (0, 7) ∷ []; is_closed = false; next_clone_id = 1 }

abbrev system : State ℕ → System ℕ (List (Request ℕ ℕ)) Slots
system s = record { mocks = mock false ∷ []; state = s; queue = []; oneshots = ([], 0) }

blocked-Reach :
    Reach slots push
      (record {
        mocks = (new {K = ℕ}).0 ∷ [];
        state = (new {K = ℕ}).1;
        queue = [];
        oneshots = ([], 0);
      })
      (system (state 2))
unfolding new new_state poll_ready allow
blocked-Reach =
    next
      (next (next here (allows 0 refl)) (polls_ready 7 _ _ not_ready blocked [] [] refl refl refl))
      (allows 2 refl)

poll_ready_returns_example :
    (p : Poll (Unit {0}) (Error ℕ)) × (h : Mock × State ℕ) × (poll_ready 7
        (mock false, (system (state 2)).state)
      ≡ returns p h)
poll_ready_returns_example =
    poll_ready_returns slots push [] ([], 0) (system (state 2)) 7 (mock false) blocked-Reach

-- Where one request is allowed, two mocks that have become ready send one each.
over_allowed :
    let s = (allow 1 (state 0)).1 in
    let (f, m, t, q, o) = call slots push 1 (mock true) s [] ([], 0) in
    let (g, n, u, r, p) = call slots push 2 (record { id = 1; can_send = true }) t q o in
    (poll_ready {E = ℕ} 7 (mock false, s) ≡ returns (ready tt) (mock true, s)) × (length r ≡ 2)
unfolding poll_ready allow call
over_allowed = (refl, refl)
