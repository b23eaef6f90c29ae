-- ===== src/Then/Tests.antt =====
-- tower-util/src/ext/then.rs with futures that take a number of polls.
use pants_tower.Base.{ℕ, zero, suc, ◌+◌, ◌≡◌, refl}
use pants_tower.Service.{Poll, ready, not_ready, err, Result, success, failure, Future, Service}
use pants_tower.Futures.{Pends}
use pants_tower.Then.{ThenFuture, future}
use pants_tower.Then.Order.{waiting, called, then-Pends}

-- A future is the polls that are left.
abbrev poll_delay : ℕ → Poll ℕ ℕ × ℕ
poll_delay zero = (ready 1, 0)
poll_delay (suc n) = (not_ready, n)

-- And one that fails in the end.
abbrev poll_failure : ℕ → Poll ℕ ℕ × ℕ
poll_failure zero = (err 0, 0)
poll_failure (suc n) = (not_ready, n)

abbrev fails : Future ℕ ℕ ℕ
fails = record { poll = poll_failure }

abbrev delay : Future ℕ ℕ ℕ
delay = record { poll = poll_delay }

abbrev call_result : ℕ → Result ℕ ℕ → ℕ × ℕ
call_result s (success r) = (r, s + 1)
call_result s (failure e) = (e + 1, s)

abbrev counter : Service ℕ (Result ℕ ℕ) ℕ ℕ
counter = record { poll_ready = λ s. (ready tt, s); call = call_result }

then-Pends_example :
    (t : ThenFuture ℕ ℕ ℕ) × Pends
      (future counter fails delay)
      (2 + 1)
      (waiting counter fails delay 5 2)
      t
    × ((future counter fails delay).poll t ≡ (ready 1, called counter fails delay 5 0 0))
then-Pends_example =
    then-Pends counter fails delay 2 1 5 2 0 0 (failure 0) 0 0 (ready 1) (1, refl, (0, refl, refl))
      refl (0, refl, refl) refl
