-- ===== src/Timeout/Tests.antt =====
-- tower-timeout/src/lib.rs with futures that take a number of polls.
use pants_tower.Base.{ℕ, zero, suc, ◌≡◌, refl}
use pants_tower.Service.{Poll, ready, not_ready, err, Future}
use pants_tower.Futures.{Pends}
use pants_tower.Timeout.{timed_out, future}
use pants_tower.Timeout.Race.{both, response-Pends, sleep-Pends}

-- A future is the polls that are left.
abbrev poll_delay : ℕ → Poll ℕ ℕ × ℕ
poll_delay zero = (ready 1, 0)
poll_delay (suc n) = (not_ready, n)

abbrev delay : Future ℕ ℕ ℕ
delay = record { poll = poll_delay }

abbrev poll_sleep : ℕ → Poll (Unit {0}) ℕ × ℕ
poll_sleep zero = (ready tt, 0)
poll_sleep (suc n) = (not_ready, n)

abbrev timer : Future ℕ (Unit {0}) ℕ
timer = record { poll = poll_sleep }

response-Pends_example :
    Pends (future delay timer) 1 (both delay timer 1 1) (both delay timer 0 0)
    × ((future delay timer).poll (both delay timer 0 0) ≡ (ready 1, both delay timer 0 0))
response-Pends_example =
    response-Pends delay timer 1 1 0 0 1 0 (ready 1) (0, refl, refl) (0, refl, refl) (λ e. cc) refl

sleep-Pends_example :
    Pends (future delay timer) 1 (both delay timer 3 1) (both delay timer 2 0)
    × ((future delay timer).poll (both delay timer 2 0) ≡ (err timed_out, both delay timer 1 0))
sleep-Pends_example =
    sleep-Pends delay timer 1 3 2 1 1 0 0 (ready tt) (2, refl, refl) (0, refl, refl) (λ e. cc) refl
      refl
