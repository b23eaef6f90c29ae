-- ===== src/Protocol.antt =====
-- What tower-service/src/lib.rs asks of a caller: a service is called only after it has answered
-- that it is ready. A middleware is a caller of the service that it wraps, so it is to ask this of
-- its own caller at most.
pub mod Wrappers
pub mod Gates
pub mod Stack
pub mod Responses
pub mod Checked
pub mod Connections
mod Tests
use pants_tower.Base.{ℕ, suc, ◌≡◌, refl, Bool, true, false, not, ◌||◌, List, [], ◌∷◌, if◌then◌else◌}
use pants_tower.Service.{Poll, ready, not_ready, err, Service}

-- What an answer to `poll_ready` leaves: `Armed` where it is that the service is ready.
abbrev pub After : {S E : Type 0} → (S → Type 0) → (S → Type 0) → Poll (Unit {0}) E → S → Type 0
After Idle Armed (ready u) s = Armed s
After Idle Armed not_ready s = Idle s
After Idle Armed (err e) s = Idle s

-- A service that keeps `Idle`, where it is called only from `Armed`, which its readiness brings.
pub record Keeps {S Req F E : Type 0} (svc : Service S Req F E) (Idle Armed : S → Type 0)
    : Type 0 where
  pub relax : (s : S) → Armed s → Idle s
  pub asked : (s : S) → Idle s → After Idle Armed (svc.poll_ready s).0 (svc.poll_ready s).1
  pub called : (s : S) (req : Req) → Armed s → Idle (svc.call s req).1

-- A service that is watched: whether it is ready for a call, and whether it was ever called
-- without being so.
pub record Watched (S : Type 0) : Type 0 where
  pub service : S
  pub armed : Bool
  pub broken : Bool

abbrev pub Unbroken : {S : Type 0} → Watched S → Type 0
Unbroken w = w.broken ≡ false

abbrev pub Ready : {S : Type 0} → Watched S → Type 0
Ready w = (w.broken ≡ false) × (w.armed ≡ true)

abbrev pub is_ready : {E : Type 0} → Poll (Unit {0}) E → Bool
is_ready (ready u) = true
is_ready not_ready = false
is_ready (err e) = false

pub watched_asked :
    {S E : Type 0} (p : Poll (Unit {0}) E) (s : S) (w : Watched S)
    → Unbroken w
    → After Unbroken Ready p (record w { service = s; armed = is_ready p })
watched_asked (ready u) s w e = (e, refl)
watched_asked not_ready s w e = e
watched_asked (err x) s w e = e

pub watched_called : {S : Type 0} (w : Watched S) → Ready w → w.broken || not w.armed ≡ false
watched_called w r = rw (r.0, r.1) refl

module _ {S Req F E : Type 0} (svc : Service S Req F E) where
  abbrev pub watched : Service (Watched S) Req F E
  watched = record {
    poll_ready = λ w. (
      (svc.poll_ready w.service).0,
      record w {
        service = (svc.poll_ready w.service).1;
        armed = is_ready (svc.poll_ready w.service).0;
      },
    );
    call = λ w req. (
      (svc.call w.service req).0,
      record {
        service = (svc.call w.service req).1;
        armed = false;
        broken = w.broken || not w.armed;
      },
    );
  }

  pub watched-Keeps : Keeps watched Unbroken Ready
  watched-Keeps = record {
    relax = λ w r. r.0;
    asked = λ w e. watched_asked (svc.poll_ready w.service).0 (svc.poll_ready w.service).1 w e;
    called = λ w req r. watched_called w r;
  }

-- What a caller wants to do. It asks, and it calls where the last answer was that the service is
-- ready and it has not called since; any other call it leaves out.
pub data Op (Req : Type 0) : Type 0 where
  asks : Op Req
  calls : Req → Op Req

module _ {S Req F E : Type 0} (svc : Service S Req F E) where
  unfoldable pub run : Bool → List (Op Req) → S → S
  run armed [] s = s
  run armed (asks ∷ ops) s = run (is_ready (svc.poll_ready s).0) ops (svc.poll_ready s).1
  run true ((calls req) ∷ ops) s = run false ops (svc.call s req).1
  run false ((calls req) ∷ ops) s = run false ops s

module _ {S Req F E : Type 0} (svc : Service S Req F E) (Idle Armed : S → Type 0)
    (keeps : Keeps svc Idle Armed) where
  abbrev Held : Bool → S → Type 0
  Held true = Armed
  Held false = Idle

  After-Held : (p : Poll (Unit {0}) E) (s : S) → After Idle Armed p s → Held (is_ready p) s
  After-Held (ready u) s h = h
  After-Held not_ready s h = h
  After-Held (err e) s h = h

  Held-Idle : (b : Bool) (s : S) → Held b s → Idle s
  Held-Idle true s h = keeps.relax s h
  Held-Idle false s h = h

  run-Held : (b : Bool) (ops : List (Op Req)) (s : S) → Held b s → Idle (run svc b ops s)
  unfolding run
  run-Held b [] s h = Held-Idle b s h
  run-Held b (asks ∷ ops) s h =
      let (p, s') = svc.poll_ready s in
      run-Held (is_ready p) ops s' (After-Held p s' (keeps.asked s (Held-Idle b s h)))
  run-Held true ((calls req) ∷ ops) s h =
      run-Held false ops (svc.call s req).1 (keeps.called s req h)
  run-Held false ((calls req) ∷ ops) s h = run-Held false ops s h

  pub run-Keeps : (ops : List (Op Req)) (s : S) → Idle s → Idle (run svc false ops s)
  run-Keeps ops s h = run-Held false ops s h

-- A service that is given a value by its environment for each operation: a time, a shared cell.
pub record Fed (X S Req F E : Type 0) : Type 0 where
  pub poll_ready : X → S → Poll (Unit {0}) E × S
  pub call : X → S → Req → F × S

-- All the values to come are a part of the state.
abbrev pub fed : {X S Req F E : Type 0} → Fed X S Req F E → Service (S × (ℕ → X)) Req F E
fed m = record {
  poll_ready =
      λ s. ((m.poll_ready (s.1 0) s.0).0, ((m.poll_ready (s.1 0) s.0).1, λ n. s.1 (suc n)));
  call = λ s req. ((m.call (s.1 0) s.0 req).0, ((m.call (s.1 0) s.0 req).1, λ n. s.1 (suc n)));
}

-- The same for every value that may be given.
pub record FedKeeps {X S Req F E : Type 0} (m : Fed X S Req F E) (Idle Armed : S → Type 0)
    : Type 0 where
  pub relax : (s : S) → Armed s → Idle s
  pub asked : (x : X) (s : S) → Idle s → After Idle Armed (m.poll_ready x s).0 (m.poll_ready x s).1
  pub called : (x : X) (s : S) (req : Req) → Armed s → Idle (m.call x s req).1

module _ {X S Req F E : Type 0} (m : Fed X S Req F E) (Idle Armed : S → Type 0)
    (keeps : FedKeeps m Idle Armed) where
  fed_asked :
      (p : Poll (Unit {0}) E) (s : S) (xs : ℕ → X)
      → After Idle Armed p s
      → After (λ (t : S × (ℕ → X)). Idle t.0) (λ t. Armed t.0) p (s, xs)
  fed_asked (ready u) s xs h = h
  fed_asked not_ready s xs h = h
  fed_asked (err e) s xs h = h

  pub fed-Keeps : Keeps (fed m) (λ t. Idle t.0) (λ t. Armed t.0)
  fed-Keeps = record {
    relax = λ t h. keeps.relax t.0 h;
    asked = λ t h.
        fed_asked (m.poll_ready (t.1 0) t.0).0 (m.poll_ready (t.1 0) t.0).1 (λ n. t.1 (suc n))
          (keeps.asked (t.1 0) t.0 h);
    called = λ t req h. keeps.called (t.1 0) t.0 req h;
  }

-- An answer whose error is changed leaves the same.
pub After-map :
    {S W E D : Type 0} (Idle Armed : S → Type 0) (Idle' Armed' : W → Type 0) (p : Poll (Unit {0}) E)
    (q : Poll (Unit {0}) D) (s : S) (w : W)
    → is_ready p ≡ is_ready q
    → (Idle s → Idle' w)
    → (Armed s → Armed' w)
    → After Idle Armed p s
    → After Idle' Armed' q w
After-map Idle Armed Idle' Armed' (ready u) (ready v) s w e i a h = a h
After-map Idle Armed Idle' Armed' (ready u) not_ready s w e i a h = absurd (cc e)
After-map Idle Armed Idle' Armed' (ready u) (err y) s w e i a h = absurd (cc e)
After-map Idle Armed Idle' Armed' not_ready (ready v) s w e i a h = absurd (cc e)
After-map Idle Armed Idle' Armed' not_ready not_ready s w e i a h = i h
After-map Idle Armed Idle' Armed' not_ready (err y) s w e i a h = i h
After-map Idle Armed Idle' Armed' (err x) (ready v) s w e i a h = absurd (cc e)
After-map Idle Armed Idle' Armed' (err x) not_ready s w e i a h = i h
After-map Idle Armed Idle' Armed' (err x) (err y) s w e i a h = i h
