-- ===== src/InFlight/System.antt =====
-- The counts of the systems of tower-in-flight-limit/src/lib.rs: in every state that the steps
-- reach, the cell stands for the reservations of the handles and of the response futures.
use pants_tower.Base.{
  ℕ, ◌+◌, ◌≤◌, ◌<◌, ◌≡◌, ◌≢◌, refl, ap, ◌⊎◌, Bool, true, false, some, List, [], ◌∷◌, ◌++◌, arith,
  usize_mod,
}
use pants_tower.Service.{not_ready, Future, Service}
use pants_tower.InFlight.{
  AtomicTask, Shared, InFlightLimit, ResponseFuture, taken, reserve_round, register, poll,
  drop_future, clone,
}
use pants_tower.InFlight.Ops.{
  one, credit, IsWithin, release_lem, poll_ready-credit, call-credit, poll-credit,
  drop_future-credit, drop-credit, after_poll_reserve-credit, after_call_reserve-credit,
}
use pants_tower.InFlight.Steps.{
  Use, polling, calling, Handle, rests, tries, System, unreserved, Left, run_use, begin_use,
  end_use, put_back, Step, runs, begins, loses, takes, again, clones, drops, polls_future,
  drops_future, Reach, here, next, start,
}

abbrev held_one {ℓ} : {S Req : Type ℓ} → Handle S Req → ℕ
held_one (rests self) = one self.reserved
held_one (tries u curr inner) = 0

-- The reservations of the handles.
abbrev pub held {ℓ} : {S Req : Type ℓ} → List (Handle S Req) → ℕ
held [] = 0
held (h ∷ hs) = held_one h + held hs

-- The requests in flight: the response futures with an inner future.
abbrev pub in_flight {ℓ} : {F : Type ℓ} → List (ResponseFuture F) → ℕ
in_flight [] = 0
in_flight (f ∷ fs) = credit f.inner + in_flight fs

held-append {ℓ} :
    {S Req : Type ℓ} (xs ys : List (Handle S Req)) → held (xs ++ ys) ≡ held xs + held ys
held-append [] ys = omega arith
held-append (x ∷ xs) ys = omega (arith, held-append xs ys)

in_flight-append {ℓ} :
    {F : Type ℓ} (xs ys : List (ResponseFuture F))
    → in_flight (xs ++ ys) ≡ in_flight xs + in_flight ys
in_flight-append [] ys = omega arith
in_flight-append (x ∷ xs) ys = omega (arith, in_flight-append xs ys)

-- The cell counts the reservations: those of handles and those of requests in flight.
pub record Inv {ℓ} {S T Req F : Type ℓ} (max : ℕ) (s : System S T Req F) : Type 0 where
  pub limit : s.shared.max ≡ max
  pub within : IsWithin s.shared
  pub counted : s.shared.curr ≡ held s.handles + in_flight s.futures

-- What an operation that began with `held` reservations leaves.
Counts {ℓ} : {S T F : Type ℓ} → ℕ → Shared T → Left S T F → Type 0
Counts n sh (fs, self, sh') =
    (sh'.curr + n ≡ sh.curr + one self.reserved + in_flight fs) × (sh'.max ≡ sh.max) × IsWithin sh'

module _ {ℓ} {S T Req F A E : Type ℓ} (tasks : AtomicTask T) (svc : Service S Req F E)
    (fut : Future F A E) (max : ℕ) where
  round_taken :
      (curr : ℕ) (sh sh' : Shared T)
      → IsWithin sh
      → reserve_round curr sh ≡ taken sh'
      → (sh'.curr ≡ sh.curr + 1) × (sh'.max ≡ sh.max) × IsWithin sh'
  unfolding reserve_round
  round_taken curr sh sh' w h = ground arith

  run_use-Counts :
      (u : Use Req) (self : InFlightLimit S) (sh : Shared T)
      → IsWithin sh
      → Counts (one self.reserved) sh (run_use tasks svc u self sh)
  unfolding run_use Counts
  run_use-Counts polling self sh w = ground (arith, poll_ready-credit tasks svc self sh)
  run_use-Counts (calling request) self sh w = ground (arith, call-credit tasks svc self sh request)

  end_use_held :
      (got : Bool) (u : Use Req) (inner : S) (sh : Shared T)
      → IsWithin sh
      → let (fs, self, sh') = end_use tasks svc got u (unreserved inner) sh in
        (one self.reserved + in_flight fs ≡ one got) × (sh' ≡ sh)
  unfolding end_use
  end_use_held got polling inner sh w =
      ground (arith, after_poll_reserve-credit tasks svc got (unreserved inner) sh refl)
  end_use_held got (calling request) inner sh w =
      ground (arith, after_call_reserve-credit tasks svc got (unreserved inner) sh request refl)

  begin_use_lem :
      (u : Use Req) (sh : Shared T)
      → ((begin_use tasks svc u sh).curr ≡ sh.curr) × ((begin_use tasks svc u sh).max ≡ sh.max)
  unfolding begin_use register
  begin_use_lem polling sh = (refl, refl)
  begin_use_lem (calling request) sh = (refl, refl)

  clone_lem : (self : InFlightLimit S) → (clone self).reserved ≡ false
  unfolding clone
  clone_lem self = refl

  put_back_lem :
      (s : System S T Req F) (before after : List (Handle S Req)) (left : Left S T F)
      → let s' = put_back s before after left in
        (held s'.handles ≡ held before + (one left.1.reserved + held after))
        × (in_flight s'.futures ≡ in_flight left.0 + in_flight s.futures)
        × (s'.shared ≡ left.2)
  unfolding put_back
  put_back_lem s before after (fs, self, sh) =
      (held-append before (rests self ∷ after), in_flight-append fs s.futures, refl)

  end_use-Counts :
      (got : Bool) (u : Use Req) (inner : S) (sh sh' : Shared T)
      → sh'.curr ≡ sh.curr + one got
      → sh'.max ≡ sh.max
      → IsWithin sh'
      → Counts 0 sh (end_use tasks svc got u (unreserved inner) sh')
  unfolding Counts
  end_use-Counts got u inner sh sh' c m w = ground (arith, end_use_held got u inner sh' w)

  -- An operation on one of the handles keeps the invariant.
  put_back-Inv :
      (s : System S T Req F) (before after : List (Handle S Req)) (h : Handle S Req)
      → s.handles ≡ before ++ (h ∷ after)
      → (left : Left S T F) → Inv max s
      → Counts (held_one h) s.shared left
      → Inv max (put_back s before after left)
  unfolding Counts
  put_back-Inv s before after h e left v c =
      ground (arith, put_back_lem s before after left, held-append before (h ∷ after))

  Step-Inv : {s t : System S T Req F} → Step tasks svc fut s t → Inv max s → Inv max t
  Step-Inv {s} {t} (runs u self before after e f) v = rw f (
      put_back-Inv s before after (rests self) e (run_use tasks svc u self s.shared) v
        (run_use-Counts u self s.shared v.within))
  Step-Inv {s} {t} (begins u inner before after e f) v = ground (
    arith,
    held-append before (rests (unreserved inner) ∷ after),
    held-append before (tries u s.shared.curr inner ∷ after),
    begin_use_lem u s.shared,
  )
  Step-Inv {s} {t} (loses u curr inner before after e r f) v = rw f (
      put_back-Inv s before after (tries u curr inner) e _ v
        (end_use-Counts false u inner s.shared s.shared (omega arith) refl v.within))
  Step-Inv {s} {t} (takes u curr inner sh before after e r f) v =
      let (c, m, w) = round_taken curr s.shared sh v.within r in
      rw f (
        put_back-Inv s before after (tries u curr inner) e _ v
          (end_use-Counts true u inner s.shared sh c m w))
  Step-Inv {s} {t} (again u curr actual inner before after e r f) v = ground (
    arith,
    held-append before (tries u actual inner ∷ after),
    held-append before (tries u curr inner ∷ after),
  )
  Step-Inv {s} {t} (clones self before after e f) v = ground (arith, clone_lem self)
  Step-Inv {s} {t} (drops self before after e f) v = ground (
    arith,
    held-append before (rests self ∷ after),
    held-append before after,
    drop-credit tasks self s.shared,
  )
  Step-Inv {s} {t} (polls_future g before after e f) v = ground (
    arith,
    in_flight-append before (g ∷ after),
    in_flight-append before ((poll tasks fut g s.shared).1 ∷ after),
    poll-credit tasks fut g s.shared,
  )
  Step-Inv {s} {t} (drops_future g before after e f) v = ground (
    arith,
    in_flight-append before (g ∷ after),
    in_flight-append before after,
    drop_future-credit tasks fut g s.shared,
  )

  start-Inv :
      (inner : S) (task : T) → max < usize_mod → Inv {Req = Req} {F = F} max (start inner max task)
  unfolding start
  start-Inv inner task h = ground arith

  Reach-Inv : {s t : System S T Req F} → Inv max s → Reach tasks svc fut s t → Inv max t
  Reach-Inv v here = v
  Reach-Inv v (next r st) = Step-Inv st (Reach-Inv v r)

  -- In every state that a new limiter reaches, by any interleaving of `poll_ready` and `call` of
  -- its handles, which run whole or by the rounds of their `reserve` loops, of clones and drops of
  -- handles, and of polls and drops of response futures, the cell counts exactly the reservations
  -- that handles hold and the response futures with an inner future, and these are together at
  -- most `max`, where `max` fits in a `usize`.
  pub Reach-in_flight :
      (inner : S) (task : T) {s : System S T Req F}
      → max < usize_mod
      → Reach tasks svc fut (start inner max task) s
      → (s.shared.curr ≡ held s.handles + in_flight s.futures)
        × (held s.handles + in_flight s.futures ≤ max)
  Reach-in_flight inner task h r = ground (arith, Reach-Inv (start-Inv inner task h) r)

  -- A poll of a response future with an inner future leaves the cell alone, or gives back the
  -- reservation and takes the inner future out; a drop after it gives back what is left.
  poll_released :
      (f : ResponseFuture F) (x : F) (sh : Shared T)
      → IsWithin sh
      → 0 < sh.curr
      → f.inner ≡ some x
      → let (p, f', sh') = poll tasks fut f sh in
        (((p ≡ not_ready) × (sh' ≡ sh)) ⊎ ((p ≢ not_ready) × (sh'.curr + 1 ≡ sh.curr)))
        × (sh'.curr ≤ sh'.max)
        × ((drop_future tasks f' sh').curr + 1 ≡ sh.curr)
  unfolding poll drop_future
  poll_released f x sh w c e = ground (arith, release_lem tasks sh)

  -- In every state that a new limiter reaches, with `max` in a `usize`, for every response future
  -- with an inner future: the debug assertion of `release` holds, and a drop of the future takes
  -- exactly one from the cell. A poll of it is not ready and leaves the cell as it is, or is done
  -- and takes exactly one from the cell; the assertion holds after it too, and a drop after the
  -- poll leaves the cell exactly one below its value before the poll.
  pub Reach-release :
      (inner : S) (task : T) {s : System S T Req F} (f : ResponseFuture F) (x : F)
      (before after : List (ResponseFuture F))
      → max < usize_mod
      → Reach tasks svc fut (start inner max task) s
      → s.futures ≡ before ++ (f ∷ after)
      → f.inner ≡ some x
      → let (p, f', sh') = poll tasks fut f s.shared in
        (s.shared.curr ≤ s.shared.max)
        × ((drop_future tasks f s.shared).curr + 1 ≡ s.shared.curr)
        × (((p ≡ not_ready) × (sh' ≡ s.shared))
            ⊎ ((p ≢ not_ready) × (sh'.curr + 1 ≡ s.shared.curr)))
        × (sh'.curr ≤ sh'.max)
        × ((drop_future tasks f' sh').curr + 1 ≡ s.shared.curr)
  Reach-release inner task {s} f x before after h r l e =
      let v : Inv max s = Reach-Inv (start-Inv inner task h) r in
      let c : credit f.inner ≡ 1 = ap credit e in
      let n : 0 < s.shared.curr = ground (arith, in_flight-append before (f ∷ after), v) in
      (
        omega (arith, v.within.bounded),
        ground (arith, drop_future-credit tasks fut f s.shared v.within),
        (poll_released f x s.shared v.within n e).0,
        (poll_released f x s.shared v.within n e).1,
        (poll_released f x s.shared v.within n e).2,
      )
