-- ===== src/InFlight/Ops.antt =====
-- Each operation of tower-in-flight-limit/src/lib.rs, run with no other thread between its steps.
use pants_tower.Base.{
  ℕ, ◌+◌, ◌≤◌, ◌<◌, ◌≡◌, ◌≢◌, Bool, true, false, Option, none, some, arith, usize_mod,
}
use pants_tower.Service.{not_ready, Future, Service}
use pants_tower.InFlight.{
  AtomicTask, Shared, InFlightLimit, ResponseFuture, reserve, release, poll_ready, call, poll,
  drop_future, drop, after_poll_reserve, after_call_reserve,
}

-- The reservations that an object holds.
abbrev pub one : Bool → ℕ
one true = 1
one false = 0

abbrev pub credit {ℓ} : {F : Type ℓ} → Option F → ℕ
credit none = 0
credit (some f) = 1

pub record IsWithin {ℓ} {T : Type ℓ} (sh : Shared T) : Type 0 where
  pub bounded : sh.curr ≤ sh.max
  pub sized : sh.max < usize_mod

module _ {ℓ} {T : Type ℓ} where
  reserve_full : (sh : Shared T) → sh.curr ≡ sh.max → reserve sh ≡ (false, sh)
  unfolding reserve
  reserve_full sh h = ground arith

  reserve_free :
      (sh : Shared T)
      → IsWithin sh
      → sh.curr ≢ sh.max
      → reserve sh ≡ (true, record sh { curr = sh.curr + 1 })
  unfolding reserve
  reserve_free sh w h = ground arith

module _ {ℓ} {T : Type ℓ} (tasks : AtomicTask T) where
  -- The debug assertion of `release` holds, and the subtraction does not wrap.
  pub release_lem :
      (sh : Shared T)
      → IsWithin sh
      → 0 < sh.curr
      → ((release tasks sh).curr + 1 ≡ sh.curr)
        × ((release tasks sh).max ≡ sh.max)
        × IsWithin (release tasks sh)
  unfolding release
  release_lem sh w h = ground arith

module _ {ℓ} {S T Req F E : Type ℓ} (tasks : AtomicTask T) (svc : Service S Req F E) where
  -- For a cell within its limit, `poll_ready` counts the reservation that it makes, and no more:
  -- the cell less the reservation of the handle is as before, and stays within its limit.
  pub poll_ready-credit :
      (self : InFlightLimit S) (sh : Shared T)
      → IsWithin sh
      → let (p, self', sh') = poll_ready tasks svc self sh in
        (sh'.curr + one self.reserved ≡ sh.curr + one self'.reserved)
        × (sh'.max ≡ sh.max)
        × IsWithin sh'
  unfolding poll_ready
  poll_ready-credit self sh w = ground (
    arith,
    reserve_full (record sh { task = tasks.register sh.task }),
    reserve_free (record sh { task = tasks.register sh.task }),
  )

  -- For a cell within its limit, `call` counts the request that it dispatches, or takes the
  -- reservation of the handle for it: the cell less the reservations of the handle and of the
  -- response future is as before, and stays within its limit.
  pub call-credit :
      (self : InFlightLimit S) (sh : Shared T) (request : Req)
      → IsWithin sh
      → let (f, self', sh') = call tasks svc self sh request in
        (sh'.curr + one self.reserved ≡ sh.curr + one self'.reserved + credit f.inner)
        × (sh'.max ≡ sh.max)
        × IsWithin sh'
  unfolding call
  call-credit self sh request w = ground (arith, reserve_full sh, reserve_free sh)

  -- The rest of an operation keeps the count when the cell already has the reservation.
  pub after_poll_reserve-credit :
      (got : Bool) (self : InFlightLimit S) (sh : Shared T)
      → self.reserved ≡ false
      → let (p, self', sh') = after_poll_reserve tasks svc got self sh in
        (sh' ≡ sh) × (one self'.reserved ≡ one got)
  unfolding after_poll_reserve
  after_poll_reserve-credit true self sh h = ground arith
  after_poll_reserve-credit false self sh h = ground arith

  pub after_call_reserve-credit :
      (got : Bool) (self : InFlightLimit S) (sh : Shared T) (request : Req)
      → self.reserved ≡ false
      → let (f, self', sh') = after_call_reserve tasks svc got self sh request in
        (sh' ≡ sh) × (one self'.reserved ≡ 0) × (credit f.inner ≡ one got)
  unfolding after_call_reserve
  after_call_reserve-credit true self sh request h = ground arith
  after_call_reserve-credit false self sh request h = ground arith

  -- At the limit a handle with no reservation is turned away, and the inner service is not touched.
  poll_ready_full :
      (self : InFlightLimit S) (sh : Shared T)
      → self.reserved ≡ false
      → sh.curr ≡ sh.max
      → poll_ready tasks svc self sh
        ≡ (not_ready, self, record sh { task = tasks.register sh.task })
  unfolding poll_ready
  poll_ready_full self sh r h =
      ground (arith, reserve_full (record sh { task = tasks.register sh.task }))

  call_full :
      (self : InFlightLimit S) (sh : Shared T) (request : Req)
      → self.reserved ≡ false
      → sh.curr ≡ sh.max
      → call tasks svc self sh request ≡ (record { inner = none }, self, sh)
  unfolding call
  call_full self sh request r h = ground (arith, reserve_full sh)

  poll_ready-reserved :
      (self : InFlightLimit S) (sh : Shared T)
      → (poll_ready tasks svc self sh).0 ≢ not_ready
      → (poll_ready tasks svc self sh).1.reserved ≡ true
  unfolding poll_ready
  poll_ready-reserved self sh h = ground arith

  call_reserved :
      (self : InFlightLimit S) (sh : Shared T) (request : Req)
      → self.reserved ≡ true
      → ((call tasks svc self sh request).0.inner ≡ some (svc.call self.inner request).0)
        × ((call tasks svc self sh request).1.reserved ≡ false)
        × ((call tasks svc self sh request).2 ≡ sh)
  unfolding call
  call_reserved self sh request h = ground arith

  -- After a `poll_ready` that does not answer `NotReady`, the call that follows is dispatched to
  -- the inner service and uses the reservation up. It leaves the shared cell alone, whatever other
  -- handles have made of that in between.
  pub call-poll_ready :
      (self : InFlightLimit S) (sh later : Shared T) (request : Req)
      → (poll_ready tasks svc self sh).0 ≢ not_ready
      → let self' = (poll_ready tasks svc self sh).1 in
        ((call tasks svc self' later request).0.inner ≡ some (svc.call self'.inner request).0)
        × ((call tasks svc self' later request).1.reserved ≡ false)
        × ((call tasks svc self' later request).2 ≡ later)
  call-poll_ready self sh later request h =
      call_reserved (poll_ready tasks svc self sh).1 later request (poll_ready-reserved self sh h)

module _ {ℓ} {T F A E : Type ℓ} (tasks : AtomicTask T) (fut : Future F A E) where
  -- For a cell within its limit that counts the reservation of the response future, if it has one,
  -- a poll gives that back exactly when the inner future is done with: the cell less the
  -- reservation of the response future is as before, and stays within its limit.
  pub poll-credit :
      (self : ResponseFuture F) (sh : Shared T)
      → IsWithin sh
      → credit self.inner ≤ sh.curr
      → let (p, self', sh') = poll tasks fut self sh in
        (sh'.curr + credit self.inner ≡ sh.curr + credit self'.inner)
        × (sh'.max ≡ sh.max)
        × IsWithin sh'
  unfolding poll
  poll-credit self sh w h = ground (arith, release_lem tasks sh)

  pub drop_future-credit :
      (self : ResponseFuture F) (sh : Shared T)
      → IsWithin sh
      → credit self.inner ≤ sh.curr
      → ((drop_future tasks self sh).curr + credit self.inner ≡ sh.curr)
        × ((drop_future tasks self sh).max ≡ sh.max)
        × IsWithin (drop_future tasks self sh)
  unfolding drop_future
  drop_future-credit self sh w h = ground (arith, release_lem tasks sh)

-- The drop of a handle gives back its reservation.
pub drop-credit {ℓ} :
    {S T : Type ℓ} (tasks : AtomicTask T) (self : InFlightLimit S) (sh : Shared T)
    → IsWithin sh
    → one self.reserved ≤ sh.curr
    → ((drop tasks self sh).curr + one self.reserved ≡ sh.curr)
      × ((drop tasks self sh).max ≡ sh.max)
      × IsWithin (drop tasks self sh)
unfolding drop
drop-credit tasks self sh w h = ground (arith, release_lem tasks sh)
