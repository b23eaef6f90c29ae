-- ===== src/RateLimit/Tests.antt =====
-- tower-rate-limit/src/lib.rs at two requests in ten nanoseconds.
use pants_tower.Base.{ℕ, zero, suc, ◌+◌, ◌-◌, ◌≡◌, List, [], ◌∷◌}
use Prim.Native.Nat.{min}
use pants_tower.Service.{Poll, ready, not_ready, Future, Service}
use pants_tower.RateLimit.{State, open_until, RateLimit}
use pants_tower.RateLimit.Calls.{left, calls, calls-left}

-- A sleep is the polls that are left before it fires.
abbrev poll_sleep : ℕ → Poll (Unit {0}) ℕ × ℕ
poll_sleep zero = (ready tt, 0)
poll_sleep (suc n) = (not_ready, n)

abbrev timer : Future ℕ (Unit {0}) ℕ
timer = record { poll = poll_sleep }

abbrev counter : Service ℕ ℕ ℕ ℕ
counter = record { poll_ready = λ s. (ready tt, s); call = λ s r. (r, s + 1) }

abbrev limiter : State ℕ → RateLimit ℕ ℕ
limiter state = record { inner = 0; rate = record { num = 2; per = 10 }; state = state }

abbrev requests : List (ℕ × ℕ)
requests = (1, 7) ∷ (2, 8) ∷ (30, 9) ∷ []

calls-left_example :
    let (n, self') = calls {E = ℕ} (λ d. d) counter requests (limiter (open_until 10 2)) in
    (n ≡ min 3 2) × (left self'.state ≡ 2 - 3)
calls-left_example = calls-left (λ d. d) counter requests (limiter (open_until 10 2))
