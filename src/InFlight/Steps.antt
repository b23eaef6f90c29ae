-- ===== src/InFlight/Steps.antt =====
-- Many handles and response futures over one cell of tower-in-flight-limit/src/lib.rs. A step is
-- an operation that runs whole, or one round of the `reserve` loop of an operation, so that
-- the rounds of two loops, and whole operations between them, interleave.
use pants_tower.Base.{ℕ, ◌≡◌, Bool, true, false, List, [], ◌∷◌, ◌++◌}
use pants_tower.Service.{Future, Service}
use pants_tower.InFlight.{
  AtomicTask, Shared, InFlightLimit, ResponseFuture, refused, taken, retry, reserve_round, register,
  after_poll_reserve, after_call_reserve, poll_ready, call, poll, drop_future, clone, drop, new,
}

-- What the owner of a handle does with it.
pub data Use {ℓ} (Req : Type ℓ) : Type ℓ where
  polling : Use Req
  calling : Req → Use Req

-- A handle between its operations, or one with no reservation in the `reserve` loop of an
-- operation, with the local variable `curr` of that loop and the inner service.
pub data Handle {ℓ} (S Req : Type ℓ) : Type ℓ where
  rests : InFlightLimit S → Handle S Req
  tries : Use Req → ℕ → S → Handle S Req

pub record System {ℓ} (S T Req F : Type ℓ) : Type ℓ where
  pub shared : Shared T
  pub handles : List (Handle S Req)
  pub futures : List (ResponseFuture F)

abbrev pub unreserved {ℓ} : {S : Type ℓ} → S → InFlightLimit S
unreserved inner = record { inner = inner; reserved = false }

-- What an operation leaves: the response futures that it made, the handle and the cell.
abbrev pub Left {ℓ} : Type ℓ → Type ℓ → Type ℓ → Type ℓ
Left S T F = List (ResponseFuture F) × InFlightLimit S × Shared T

unfoldable pub put_back {ℓ} :
    {S T Req F : Type ℓ}
    → System S T Req F
    → List (Handle S Req)
    → List (Handle S Req)
    → Left S T F
    → System S T Req F
put_back s before after (fs, self, sh) = record {
  shared = sh;
  handles = before ++ (rests self ∷ after);
  futures = fs ++ s.futures;
}

module _ {ℓ} {S T Req F E : Type ℓ} (tasks : AtomicTask T) (svc : Service S Req F E) where
  -- An operation with no other access to the cell between its rounds.
  unfoldable pub run_use : Use Req → InFlightLimit S → Shared T → Left S T F
  run_use polling self sh = let (p, self', sh') = poll_ready tasks svc self sh in ([], self', sh')
  run_use (calling request) self sh =
      let (f, self', sh') = call tasks svc self sh request in (f ∷ [], self', sh')

  -- The start of an operation with no reservation, up to its `reserve` loop.
  unfoldable pub begin_use : Use Req → Shared T → Shared T
  begin_use polling sh = register tasks svc sh
  begin_use (calling request) sh = sh

  -- The rest of an operation after its `reserve` loop.
  unfoldable pub end_use : Bool → Use Req → InFlightLimit S → Shared T → Left S T F
  end_use got polling self sh =
      let (p, self', sh') = after_poll_reserve tasks svc got self sh in ([], self', sh')
  end_use got (calling request) self sh =
      let (f, self', sh') = after_call_reserve tasks svc got self sh request in (f ∷ [], self', sh')

module _ {ℓ} {S T Req F A E : Type ℓ} (tasks : AtomicTask T) (svc : Service S Req F E)
    (fut : Future F A E) where
  pub data Step (s t : System S T Req F) : Type ℓ where
    runs :
        (u : Use Req) (self : InFlightLimit S) (before after : List (Handle S Req))
        → s.handles ≡ before ++ (rests self ∷ after)
        → t ≡ put_back s before after (run_use tasks svc u self s.shared)
        → Step s t
    begins :
        (u : Use Req) (inner : S) (before after : List (Handle S Req))
        → s.handles ≡ before ++ (rests (unreserved inner) ∷ after)
        → t ≡ record s {
          shared = begin_use tasks svc u s.shared;
          handles = before ++ (tries u s.shared.curr inner ∷ after);
        }
        → Step s t
    loses :
        (u : Use Req) (curr : ℕ) (inner : S) (before after : List (Handle S Req))
        → s.handles ≡ before ++ (tries u curr inner ∷ after)
        → reserve_round curr s.shared ≡ refused
        → t ≡ put_back s before after (end_use tasks svc false u (unreserved inner) s.shared)
        → Step s t
    takes :
        (u : Use Req) (curr : ℕ) (inner : S) (sh : Shared T) (before after : List (Handle S Req))
        → s.handles ≡ before ++ (tries u curr inner ∷ after)
        → reserve_round curr s.shared ≡ taken sh
        → t ≡ put_back s before after (end_use tasks svc true u (unreserved inner) sh)
        → Step s t
    again :
        (u : Use Req) (curr actual : ℕ) (inner : S) (before after : List (Handle S Req))
        → s.handles ≡ before ++ (tries u curr inner ∷ after)
        → reserve_round curr s.shared ≡ retry actual
        → t ≡ record s { handles = before ++ (tries u actual inner ∷ after) }
        → Step s t
    clones :
        (self : InFlightLimit S) (before after : List (Handle S Req))
        → s.handles ≡ before ++ (rests self ∷ after)
        → t ≡ record s { handles = rests (clone self) ∷ s.handles }
        → Step s t
    drops :
        (self : InFlightLimit S) (before after : List (Handle S Req))
        → s.handles ≡ before ++ (rests self ∷ after)
        → t ≡ record s { shared = drop tasks self s.shared; handles = before ++ after }
        → Step s t
    polls_future :
        (f : ResponseFuture F) (before after : List (ResponseFuture F))
        → s.futures ≡ before ++ (f ∷ after)
        → t ≡ (
            let (p, f', sh) = poll tasks fut f s.shared in
            record s { shared = sh; futures = before ++ (f' ∷ after) })
        → Step s t
    drops_future :
        (f : ResponseFuture F) (before after : List (ResponseFuture F))
        → s.futures ≡ before ++ (f ∷ after)
        → t ≡ record s { shared = drop_future tasks f s.shared; futures = before ++ after }
        → Step s t

  pub data Reach (s : System S T Req F) : System S T Req F → Type ℓ where
    here : Reach s s
    next : {t u : System S T Req F} → Reach s t → Step t u → Reach s u

unfoldable pub start {ℓ} : {S T Req F : Type ℓ} → S → ℕ → T → System S T Req F
unfolding new
start inner max task =
    let (self, sh) = new inner max task in
    record { shared = sh; handles = rests self ∷ []; futures = [] }
