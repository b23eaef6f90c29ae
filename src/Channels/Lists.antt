-- ===== src/Channels/Lists.antt =====
-- Concrete channels: a queue as a list with a bound, and oneshots whose names say whether somebody
-- waits for them.
use pants_tower.Base.{
  ℕ, ◌+◌, ap, ◌≡◌, inr, refl, Bool, true, false, List, [], ◌∷◌, ◌++◌, Option, none, some, arith,
  ltb, length, ◌==◌, if◌then◌else◌,
}
use pants_tower.Service.{Poll, ready, not_ready, Result, success, failure}
use pants_tower.Channels.{Mpsc, Oneshot}

module _ {M : Type 0} (bound : ℕ) where
  abbrev push : M → List M → Result (Unit {0}) (Unit {0}) × Unit {0} × List M
  push m q = if ltb (length q) bound then (success tt, tt, q ++ m ∷ []) else (failure tt, tt, q)

  abbrev pop : List M → Poll (Option M) (Unit {0}) × List M
  pop [] = (not_ready, [])
  pop (m ∷ ms) = (ready (some m), ms)

  pub push_taken : (m : M) (q : List M) → (push m q).0 ≡ success tt → (push m q).2 ≡ q ++ m ∷ []
  push_taken m q e = ground arith

  pub push_refused : (m : M) (q : List M) → (push m q).0 ≡ failure tt → (push m q).2 ≡ q
  push_refused m q e = ground arith

  abbrev pub lists : Mpsc (Unit {0}) (List M) M
  lists = record {
    poll_ready = λ t q. (if ltb (length q) bound then ready tt else not_ready, t, q);
    try_send = λ t m q. push m q;
    poll = pop;
    contents = λ q. q;
    contents-try_send = λ t m q e. push_taken m q e;
    contents_refused = λ t m q e. push_refused m q e;
    poll_some = λ q m ms e. rw e (refl, refl);
    poll_none = λ q e. rw e (inr refl, refl);
  }

-- The values that were sent, and the next name.
abbrev pub Slots : Type 0
Slots = List (ℕ × ℕ) × ℕ

abbrev value : ℕ → List (ℕ × ℕ) → Option ℕ
value n [] = none
value n ((k, f) ∷ xs) = if k == n then some f else value n xs

value_sent : (n f : ℕ) (xs : List (ℕ × ℕ)) → value n ((n, f) ∷ xs) ≡ some f
value_sent n f xs = ground arith

abbrev store : Bool × ℕ → ℕ → Slots → Result (Unit {0}) ℕ × Slots
store (true, n) f o = (failure f, o)
store (false, n) f (xs, next) = (success tt, ((n, f) ∷ xs, next))

pub stored : (h : Bool × ℕ) (f : ℕ) (o : Slots) → h.0 ≡ false → value h.1 (store h f o).1.0 ≡ some f
stored (true, n) f o e = absurd (cc e)
stored (false, n) f (xs, next) e = value_sent n f xs

abbrev fetch : Option ℕ → Poll ℕ (Unit {0})
fetch none = not_ready
fetch (some f) = ready f

abbrev pub slots : Oneshot (Bool × ℕ) ℕ Slots
slots = record {
  channel = λ o. ((false, o.1), (o.0, o.1 + 1));
  send = store;
  poll_cancel = λ h o. (if h.0 then ready tt else not_ready, o);
  poll = λ h o. (fetch (value h.1 o.0), o);
  canceled = λ h o. h.0;
  delivered = λ h o. value h.1 o.0;
  canceled-channel = λ g o. refl;
  channel_alive = λ o. refl;
  canceled-poll_cancel = λ h g o. refl;
  canceled-send = λ h g f o. refl;
  poll_cancel_dropped = λ h o e. rw e refl;
  poll_cancel_alive = λ h o e. rw e refl;
  delivered-send = stored;
  poll_delivered = λ h f o e. ap fetch e;
}
