-- ===== src/Filter/Tests.antt =====
-- tower-filter/src/lib.rs with a predicate that lets only the request 0 through.
use pants_tower.Base.{ℕ, zero, suc, ◌+◌, ◌≡◌, refl, Bool, true, false, [], ◌∷◌, arith}
use pants_tower.Service.{Poll, ready, not_ready, err, Future, Service}
use pants_tower.InFlight.{AtomicTask}
use pants_tower.Filter.{Predicate, Counts, Filter, checking, ResponseInner, poll_ready}
use pants_tower.Filter.Capacity.{reject_all, Rejects, poll_ready-reject_all}

abbrev wakeup : AtomicTask Bool
wakeup = record { register = λ t. true; notify = λ t. false }

-- A check is the request.
abbrev zero_only : Predicate ℕ ℕ ℕ
zero_only = record { check = λ p r. (r, p + 1) }

abbrev poll_check : ℕ → Poll (Unit {0}) ℕ × ℕ
poll_check zero = (ready tt, 0)
poll_check (suc n) = (err n, suc n)

abbrev checks : Future ℕ (Unit {0}) ℕ
checks = record { poll = poll_check }

abbrev counter : Service ℕ ℕ ℕ ℕ
counter = record { poll_ready = λ s. (ready tt, s); call = λ s r. (r, s + 1) }

abbrev responses : Future ℕ ℕ ℕ
responses = record { poll = λ f. (ready f, f) }

abbrev counts : ℕ → Counts Bool
counts n = record { task = false; rem = n }

abbrev filter : Filter ℕ ℕ
filter = record { inner = 0; predicate = 0 }

abbrev asked : ResponseInner ℕ ℕ ℕ ℕ
asked = record { state = checking 0; check = 0; service = 3 }

-- A predicate whose checks all fail.
abbrev refusing : Predicate ℕ ℕ ℕ
refusing = record { check = λ p r. (suc r, p) }

refusing-Rejects : Rejects wakeup refusing checks counter responses
refusing-Rejects p r = (r, suc r, refl)

poll_ready-reject_all_example :
    let (self', counts') =
      reject_all wakeup refusing checks counter responses (1 ∷ 2 ∷ []) (filter, counts 2) in
    (poll_ready {U = ℕ} {E = ℕ} wakeup self' counts').0 ≡ not_ready
poll_ready-reject_all_example =
    poll_ready-reject_all wakeup refusing checks counter responses refusing-Rejects (1 ∷ 2 ∷ [])
      filter (counts 2) (omega arith)
