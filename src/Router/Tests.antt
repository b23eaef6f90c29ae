-- ===== src/Router/Tests.antt =====
-- tower-router/src/lib.rs with two counters as routes, for even and odd requests.
use pants_tower.Base.{
  ℕ, ◌+◌, ◌%◌, ◌≡◌, ◌⊎◌, refl, Bool, true, false, none, some, [], ◌∷◌, ◌==◌, if◌then◌else◌,
}
use pants_tower.Service.{ready, not_ready, success, failure, Service, Future}
use pants_tower.Router.{Borrow, Recognize, queued, refused, poll_ready, call, poll}
use pants_tower.Loop.{Ends}
use pants_tower.Protocol.{Watched, watched, Unbroken}
use pants_tower.Router.Calls.{Guards, Clean, poll-Clean}
use pants_tower.Router.System.{System, Reach, here, next, calls}
use pants_tower.Router.Borrowing.{waiting, Reach-poll_ready}
use pants_tower.Router.Dispatch.{Served, poll-call}

abbrev Cell : Type 0
Cell = Bool × (ℕ × ℕ)

abbrev cell : {T : Type 0} → Borrow (Bool × T) (Unit {0}) T
cell = record {
  poll_ready = λ b. (if b.0 then not_ready else ready tt, b);
  try_borrow = λ b. (if b.0 then none else some tt, (true, b.1));
  read = λ b. b.1;
  write = λ t b. (b.0, t);
  release = λ g b. (false, b.1);
  borrowed = λ b. b.0;
  poll_ready_free = λ b e. rw e refl;
  poll_ready_taken = λ b e. rw e refl;
  borrowed-poll_ready = λ b. refl;
  try_borrow_free = λ b e. (tt, rw e refl);
  try_borrow_taken = λ b e. rw e refl;
  borrowed-try_borrow = λ b. refl;
  borrowed-write = λ t b. refl;
  borrowed-release = λ g b. refl;
  read-write = λ t b. refl;
  read-release = λ g b. refl;
}

abbrev side : {S : Type 0} → Bool → S × S → S
side true t = t.0
side false t = t.1

abbrev put_side : {S : Type 0} → Bool → S → S × S → S × S
put_side true s t = (s, t.1)
put_side false s t = (t.0, s)

side-put_side : {S : Type 0} (r : Bool) (s : S) (t : S × S) → side r (put_side r s t) ≡ s
side-put_side true s t = refl
side-put_side false s t = refl

abbrev parity : {S : Type 0} → Recognize (S × S) ℕ Bool S ℕ
parity = record {
  recognize = λ t n. (if n == 9 then failure n else success (n % 2 == 0), t);
  service = side;
  put = put_side;
  service-put = side-put_side;
}

abbrev counter : Service ℕ ℕ ℕ ℕ
counter = record { poll_ready = λ s. (ready tt, s); call = λ s r. (r, s + 1) }

abbrev responses : Future ℕ ℕ ℕ
responses = record { poll = λ f. (ready f, f) }

poll-call_example :
    Served cell parity counter responses true 0 4
      (poll cell parity counter responses (call cell parity (false, (0, 0)) 4))
poll-call_example = poll-call cell parity counter responses (false, (0, 0)) 4 true refl refl refl

-- The second of two requests is refused while the first waits.
abbrev asked : System Cell ℕ Bool (Unit {0}) ℕ ℕ
asked = record {
  router = (true, (0, 0));
  futures = record { state = refused } ∷ record { state = queued tt true 4 } ∷ [];
}

asked-Reach :
    Reach cell parity counter responses (record { router = (false, (0, 0)); futures = [] }) asked
unfolding call
asked-Reach = next (next here (calls 4 refl)) (calls 5 refl)

Reach-poll_ready_example :
    ((waiting asked.futures ≡ 0) × ((poll_ready cell asked.router).0 ≡ some true))
    ⊎ ((waiting asked.futures ≡ 1) × ((poll_ready cell asked.router).0 ≡ some false))
Reach-poll_ready_example =
    Reach-poll_ready cell parity counter responses (false, (0, 0)) asked refl asked-Reach

abbrev Fresh : Watched ℕ × Watched ℕ → Type 0
Fresh t = Unbroken t.0 × Unbroken t.1

inside : (r : Bool) (t : Watched ℕ × Watched ℕ) → Fresh t → Unbroken (side r t)
inside true t h = h.0
inside false t h = h.1

put_back :
    (r : Bool) (s : Watched ℕ) (t : Watched ℕ × Watched ℕ)
    → Fresh t
    → Unbroken s
    → Fresh (put_side r s t)
put_back true s t h u = (u, h.1)
put_back false s t h u = (h.0, u)

parity-Guards : Guards parity Unbroken Fresh
parity-Guards = record { inside = inside; put_back = put_back }

abbrev unused : Watched ℕ
unused = record { service = 0; armed = false; broken = false }

poll-Clean_example : Ends (Clean cell parity counter responses Fresh parity-Guards) (
    poll cell parity
      (watched counter)
      responses
      (record { state = queued tt true 4 }, (true, (unused, unused))))
poll-Clean_example =
    poll-Clean cell parity counter responses Fresh parity-Guards
      (record { state = queued tt true 4 }) (true, (unused, unused)) tt (refl, refl)
