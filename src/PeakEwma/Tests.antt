-- ===== src/PeakEwma/Tests.antt =====
-- tower-balance/src/load/peak_ewma.rs with natural numbers in place of the floating point ones.
use pants_tower.Base.{ℕ, ◌+◌, ◌-◌, ◌*◌, ◌≡◌, refl, ltb, some, [], ◌∷◌, arith}
use pants_tower.Service.{ready, Service}
use pants_tower.PeakEwma.{Floats, RttEstimate, PeakEwma, handle, call, load}
use pants_tower.PeakEwma.Clock.{System, Reach, here, next, calls, AllDrop, load-Reach}

abbrev naturals : Floats ℕ
naturals = record {
  of_nat = λ n. n;
  add = λ a b. a + b;
  sub = λ a b. a - b;
  mul = λ a b. a * b;
  div = λ a b. a;
  neg = λ a. 0;
  exp = λ a. 1;
  lt = ltb;
}

abbrev echo : Service ℕ ℕ ℕ ℕ
echo = record { poll_ready = λ s. (ready tt, s); call = λ s r. (r, s + 1) }

abbrev peak : ℕ → PeakEwma ℕ ℕ ℕ
peak s = record { service = s; decay_ns = 10; instrument = 0 }

abbrev fresh : RttEstimate ℕ
fresh = record { update_at = 2; rtt_ns = 5 }

abbrev asked : System ℕ ℕ ℕ
asked = record {
  service = peak 1;
  rtt = fresh;
  handles = record { sent_at = 4; decay_ns = 10 } ∷ [];
  clock = 4;
}

asked-Reach :
    Reach naturals echo (record { service = peak 0; rtt = fresh; handles = []; clock = 3 }) asked
unfolding call handle
asked-Reach = next here (calls 7 4 (omega arith) refl)

load-Reach_example :
    ((x : ℕ × RttEstimate ℕ) × (load naturals asked.service 2 5 6 asked.rtt ≡ some x))
    × AllDrop naturals 5 6 asked.rtt asked.handles
load-Reach_example =
    load-Reach naturals echo (peak 0) fresh 3 asked 2 5 6 (omega arith) asked-Reach (omega arith)
      (omega arith)
