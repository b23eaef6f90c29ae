-- ===== src/AndThen/Tests.antt =====
-- tower-util/src/ext/and_then.rs with futures that take a number of polls.
use pants_tower.Base.{ℕ, zero, suc, ◌+◌, ◌≡◌, refl}
use pants_tower.Service.{Poll, ready, not_ready, Future, Service}
use pants_tower.Futures.{Pends}
use pants_tower.AndThen.{AndThenFuture, future}
use pants_tower.AndThen.Order.{waiting, called, and_then-Pends}

-- A future is the polls that are left.
abbrev poll_delay : ℕ → Poll ℕ ℕ × ℕ
poll_delay zero = (ready 1, 0)
poll_delay (suc n) = (not_ready, n)

abbrev delay : Future ℕ ℕ ℕ
delay = record { poll = poll_delay }

abbrev counter : Service ℕ ℕ ℕ ℕ
counter = record { poll_ready = λ s. (ready tt, s); call = λ s r. (r, s + 1) }

and_then-Pends_example :
    (t : AndThenFuture ℕ ℕ ℕ) × Pends
      (future counter delay delay)
      (2 + 1)
      (waiting counter delay delay 5 2)
      t
    × ((future counter delay delay).poll t ≡ (ready 1, called counter delay delay 6 0 0))
and_then-Pends_example =
    and_then-Pends counter delay delay 2 1 5 2 0 0 1 0 0 (ready 1) (1, refl, (0, refl, refl)) refl
      (0, refl, refl) refl
