-- ===== src/Filter/Capacity.antt =====
-- The capacity of tower-filter/src/lib.rs: what takes a unit of it, and what gives it back.
use pants_tower.Base.{
  ℕ, ◌+◌, ◌-◌, ◌≤◌, ◌<◌, ◌≡◌, ◌≢◌, refl, ap, ◌⊎◌, inl, inr, none, some, ◌==◌, usize_mod, arith,
  Bool-cases, List, [], ◌∷◌, subst, length,
}
use native.Mathlib.Decide.{ℕ_discrete as dec_eq}
use pants_tower.Service.{Poll, ready, not_ready, err, map_err, Future, Service}
use pants_tower.InFlight.{AtomicTask}
use pants_tower.Loop.{Turn, stop, again, crash, answers, crashed, loop, Keeps, Ends, loop-Ends}
use pants_tower.Filter.{
  Error, rejected, inner, no_capacity, Predicate, Counts, Filter, State, checking, wait_ready,
  wait_response, spent, ResponseInner, poll_ready, call, inc_rem, turn, turn_in, after_check,
  after_ready, poll_inner, wrap, poll,
}

-- A request takes its unit until the service has said that it is ready for it.
abbrev unit {ℓ} : {Req F : Type ℓ} → State Req F → ℕ
unit (checking r) = 1
unit (wait_ready r) = 1
unit (wait_response f) = 0
unit spent = 0

abbrev pub lost {ℓ} : {A U E : Type ℓ} → Poll A (Error U E) → ℕ
lost (ready a) = 0
lost not_ready = 0
lost (err (rejected e)) = 1
lost (err (inner e)) = 0
lost (err no_capacity) = 0

abbrev turns_left {ℓ} : {Req F : Type ℓ} → State Req F → ℕ
turns_left (checking r) = 2
turns_left (wait_ready r) = 1
turns_left (wait_response f) = 0
turns_left spent = 0

module _ {ℓ} {T S C Req F A U E : Type ℓ} (tasks : AtomicTask T) (checks : Future C (Unit {ℓ}) U)
    (svc : Service S Req F E) (fut : Future F A E) where
  -- The capacity that is left, with the unit of this request.
  abbrev pub capacity : ResponseInner C S Req F × Counts T → ℕ
  capacity (self, counts) = counts.rem + unit self.state

  Turned : ℕ → ℕ → Turn (ResponseInner C S Req F × Counts T) A (Error U E) → Type 0
  Turned n k =
      Keeps (λ h'. (capacity h' ≡ n) × (turns_left h'.0.state < k))
        (λ p h'. capacity h' + lost p ≡ n)

  inc_rem-rem :
      (c : Counts T) → c.rem + 1 < usize_mod → (inc_rem tasks checks svc fut c).rem ≡ c.rem + 1
  unfolding inc_rem
  inc_rem-rem c l = ground arith

  after_check-Turned :
      (r : Req) (p : Poll (Unit {ℓ}) U) (self : ResponseInner C S Req F) (counts : Counts T)
      → Turned (counts.rem + 1) 2 (after_check tasks checks svc fut r p (self, counts))
  unfolding after_check Turned
  after_check-Turned r (ready u) self counts = (refl, omega arith)
  after_check-Turned r not_ready self counts = omega arith
  after_check-Turned r (err e) self counts = omega arith

  after_ready-Turned :
      (r : Req) (p : Poll (Unit {ℓ}) E) (self : ResponseInner C S Req F) (counts : Counts T)
      → counts.rem + 1 < usize_mod
      → Turned (counts.rem + 1) 1 (after_ready tasks checks svc fut r p (self, counts))
  unfolding after_ready Turned
  after_ready-Turned r (ready u) self counts l = omega (arith, inc_rem-rem counts l)
  after_ready-Turned r not_ready self counts l = omega arith
  after_ready-Turned r (err e) self counts l = omega (arith, inc_rem-rem counts l)

  lost-map_err : (p : Poll A E) → lost {U = U} (map_err inner p) ≡ 0
  lost-map_err (ready a) = refl
  lost-map_err not_ready = refl
  lost-map_err (err e) = refl

  turn_in-Turned :
      (s : State Req F) (self : ResponseInner C S Req F) (counts : Counts T)
      → counts.rem + unit s < usize_mod
      → s ≡ self.state
      → Turned (counts.rem + unit s) (turns_left s) (turn_in tasks checks svc fut s (self, counts))
  unfolding turn_in Turned
  turn_in-Turned (checking r) self counts l e =
      unfold Turned in after_check-Turned r (checks.poll self.check).0 _ counts
  turn_in-Turned (wait_ready r) self counts l e =
      unfold Turned in after_ready-Turned r (svc.poll_ready self.service).0 _ counts l
  turn_in-Turned (wait_response f) self counts l e = omega (arith, lost-map_err (fut.poll f).0)
  turn_in-Turned spent self counts l e = omega (arith, ap unit e)

  -- One poll of a request's response future ends within its three turns and does not panic, where
  -- the capacity fits in a `usize`. The remaining capacity, with the unit that the request holds
  -- while it is checked or waits for the service, is as before, less one unit if the poll answers
  -- that the request was rejected.
  pub poll_inner-capacity :
      (h : ResponseInner C S Req F × Counts T)
      → capacity h < usize_mod
      → Ends (λ p h'. capacity h' + lost p ≡ capacity h) (poll_inner tasks checks svc fut h)
  unfolding poll_inner turn
  poll_inner-capacity h l =
      loop-Ends (λ h'. capacity h' ≡ capacity h) (λ h'. turns_left h'.0.state)
        (λ p h'. capacity h' + lost p ≡ capacity h) (turn tasks checks svc fut)
        (λ h' e.
          subst
            (λ n.
              Keeps (λ x. (capacity x ≡ n) × (turns_left x.0.state < turns_left h'.0.state))
                (λ p x. capacity x + lost p ≡ n) (turn tasks checks svc fut h'))
            e (unfold Turned in turn_in-Turned h'.0.state h'.0 h'.1 (omega (arith, e)) refl))
        3 h refl (turns_left-le h.0.state)
    where
      turns_left-le : (s : State Req F) → turns_left s < 3
      turns_left-le (checking r) = omega arith
      turns_left-le (wait_ready r) = omega arith
      turns_left-le (wait_response f) = omega arith
      turns_left-le spent = omega arith

module _ {ℓ} {T S P C Req F A U E : Type ℓ} (tasks : AtomicTask T) (pred : Predicate P Req C)
    (checks : Future C (Unit {ℓ}) U) (svc : Service S Req F E) (fut : Future F A E) where
  -- `call` refuses the request, with the capacity as it was, exactly where none is left, or else
  -- takes one unit of capacity for a request that is to be checked.
  call-capacity :
      (self : Filter S P) (counts : Counts T) (request : Req)
      → let (f, self', counts') = call pred self counts request in
        ((counts.rem ≡ 0) × (f.inner ≡ none) × (counts' ≡ counts))
        ⊎ ((held : ResponseInner C S Req F) × (f.inner ≡ some held)
            × (held.state ≡ checking request)
            × (capacity tasks checks svc fut (held, counts') ≡ counts.rem))
  unfolding call
  call-capacity self counts request = elim (Bool-cases (counts.rem == 0)) [
    | inl e ↦ rw e (inl (ground (arith, e), refl, refl))
    | inr e ↦ rw e (inr (_, refl, refl, ground (arith, e)))
  ]

  -- One request whose check fails at the first poll, and then its future is dropped.
  reject_one : Req → Filter S P × Counts T → Filter S P × Counts T
  reject_one request (self, counts) =
      let (f, self', counts') = call {F = F} pred self counts request in
      elim (poll tasks checks svc fut (f, counts')) [
        | answers p (f', counts'') ↦ (self', counts'')
        | _ ↦ (self', counts')
      ]

  pub reject_all : List Req → Filter S P × Counts T → Filter S P × Counts T
  reject_all [] s = s
  reject_all (r ∷ rs) s = reject_all rs (reject_one r s)

  poll_rejected :
      (r : Req) (c c' : C) (svc' : S) (u : U) (counts : Counts T)
      → checks.poll c ≡ (err u, c')
      → poll tasks checks svc fut (
        record { inner = some (record { state = checking r; check = c; service = svc' }) },
        counts,
      )
        ≡ answers
            (err (rejected u))
            (record { inner = some (record { state = spent; check = c'; service = svc' }) }, counts)
  unfolding poll poll_inner loop turn turn_in after_check wrap
  poll_rejected r c c' svc' u counts e =
      ap
        (λ x.
          wrap tasks checks svc fut
            (elim (after_check tasks checks svc fut r x.0
              (record { state = checking r; check = x.1; service = svc' }, counts)) [
                | stop p s' ↦ answers p s'
                | again s' ↦ loop 2 (turn tasks checks svc fut) s'
                | crash ↦ crashed
              ]))
        e

  poll_none :
      (counts : Counts T)
      → poll tasks checks svc fut (record { inner = none }, counts)
        ≡ answers (err no_capacity) (record { inner = none }, counts)
  unfolding poll
  poll_none counts = refl

  call_none :
      (r : Req) (self : Filter S P) (counts : Counts T)
      → counts.rem ≡ 0
      → call {F = F} pred self counts r ≡ (record { inner = none }, self, counts)
  unfolding call
  call_none r self counts z = ground arith

  call_some :
      (r : Req) (self : Filter S P) (counts : Counts T)
      → counts.rem ≢ 0
      → let (c, p) = pred.check self.predicate r in
        call {F = F} pred self counts r ≡ (
          record { inner = some (record { state = checking r; check = c; service = self.inner }) },
          record self { predicate = p },
          record counts { rem = counts.rem - 1 },
        )
  unfolding call
  call_some r self counts z = ground arith

  -- Every check of the predicate fails when it is first polled.
  abbrev pub Rejects : Type ℓ
  Rejects = (p : P) (r : Req) → (u : U) × (c : C) × (checks.poll (pred.check p r).0 ≡ (err u, c))

  module _ (rejects : Rejects) where
    reject_one-rem :
        (r : Req) (self : Filter S P) (counts : Counts T)
        → (reject_one r (self, counts)).1.rem ≡ counts.rem - 1
    unfolding reject_one
    reject_one-rem r self counts =
        let (u, c, e) = rejects self.predicate r in
        let c0 = (pred.check self.predicate r).0 in
        elim (dec_eq counts.rem 0) [
          | yes z ↦ rw (call_none r self counts z, reject_one) (rw (poll_none counts) (omega arith))
          | no z ↦
              rw (call_some r self counts z, reject_one)
                (rw (poll_rejected r c0 c self.inner u (record counts { rem = counts.rem - 1 }) e)
                  refl)
        ]

    -- Where every check fails at its first poll, at least as many requests, one after the other,
    -- as the filter has capacity leave it not ready, with no request left in flight: the unit of a
    -- rejected request does not come back.
    pub poll_ready-reject_all :
        (rs : List Req) (self : Filter S P) (counts : Counts T)
        → counts.rem ≤ length rs
        → let (self', counts') = reject_all rs (self, counts) in
          (poll_ready {U = U} {E = E} tasks self' counts').0 ≡ not_ready
    unfolding reject_all poll_ready
    poll_ready-reject_all [] self counts h = ground arith
    poll_ready-reject_all (r ∷ rs) self counts h =
        poll_ready-reject_all rs (reject_one r (self, counts)).0 (reject_one r (self, counts)).1
          (omega (arith, reject_one-rem r self counts))
