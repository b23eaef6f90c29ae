-- ===== src/Reconnect/Tests.antt =====
-- tower-reconnect/src/lib.rs with connections that take a number of polls.
use pants_tower.Base.{ℕ, zero, suc, ◌+◌, ◌≡◌, refl}
use pants_tower.Service.{Poll, ready, not_ready, err, Future, Service}
use pants_tower.Loop.{answers, unfinished, loop}
use pants_tower.Reconnect.{
  Reconnect, idle, connected, poll_ready, turn, turn_in, after_maker, after_connection,
  after_service,
}
use pants_tower.Reconnect.Turns.{poll_ready_spins}

abbrev maker : Service ℕ ℕ ℕ ℕ
maker = record { poll_ready = λ m. (ready tt, m); call = λ m target. (target, m + 1) }

abbrev poll_connection : ℕ → Poll ℕ ℕ × ℕ
poll_connection zero = (ready 8, 0)
poll_connection (suc n) = (not_ready, n)

abbrev connection : Future ℕ ℕ ℕ
connection = record { poll = poll_connection }

abbrev counter : Service ℕ ℕ ℕ ℕ
counter = record { poll_ready = λ s. (ready tt, s); call = λ s r. (r, s + 1) }

abbrev fresh : Reconnect ℕ ℕ ℕ ℕ
fresh = record { mk_service = 0; state = idle; target = 0 }

abbrev linked : Reconnect ℕ ℕ ℕ ℕ
linked = record { mk_service = 1; state = connected 8; target = 0 }

fresh_ready : poll_ready maker connection counter 5 fresh ≡ answers (ready tt) linked
unfolding poll_ready loop turn turn_in after_maker after_connection after_service
fresh_ready = refl

-- A connection that is there at once, and a service that fails at once.
abbrev instant : Future ℕ ℕ ℕ
instant = record { poll = λ f. (ready f, f) }

abbrev dead : Service ℕ ℕ ℕ ℕ
dead = record { poll_ready = λ s. (err 1, s); call = λ s r. (r, s) }

poll_ready_spins_example : poll_ready maker instant dead 100 fresh ≡ unfinished
poll_ready_spins_example =
    poll_ready_spins maker instant dead (λ m. refl) (λ f. (f, refl)) (λ s. (1, refl)) 100 fresh
