-- ===== src/PendingRequests/Tests.antt =====
-- tower-balance/src/load/pending_requests.rs with responses that keep their handles.
use pants_tower.Base.{ℕ, ◌+◌, ◌-◌, ◌≡◌, refl, none, some, [], ◌∷◌, arith}
use pants_tower.Service.{ready, Service, Future}
use pants_tower.PendingRequests.{
  Handle, handle, Instrument, NoInstrument, no_instrument, new, load, call, poll,
}
use pants_tower.PendingRequests.System.{
  System, Reach, here, next, calls, polls, start, waiting, holding, Reach-load,
}

abbrev echo : Service ℕ ℕ ℕ ℕ
echo = record { poll_ready = λ s. (ready tt, s); call = λ s r. (r, s + 1) }

abbrev responses : Future ℕ ℕ ℕ
responses = record { poll = λ f. (ready f, f) }

abbrev into_handle : Instrument NoInstrument ℕ Handle
into_handle = record {
  instrument = λ i h v count. (h, count);
  drop_output = λ o count. count - 1;
  holds = λ o. 1;
  holds-instrument = λ i h v count. refl;
  drop_output-holds = λ o count. omega arith;
}

-- After two calls, of which the second is answered.
abbrev busy : System ℕ ℕ NoInstrument Handle
busy = record {
  service = record { service = 2; instrument = no_instrument };
  count = 3;
  futures =
      record { future = 8; held = none; instrument = no_instrument }
      ∷ record { future = 7; held = some handle; instrument = no_instrument }
      ∷ [];
  outputs = handle ∷ [];
}

busy-Reach : Reach echo responses into_handle (start 0 no_instrument) busy
unfolding call poll new
busy-Reach =
    next (next (next here (calls 7 refl)) (calls 8 refl))
      (polls _ _ (ready handle) 3 [] _ refl refl refl)

Reach-load_example :
    load busy.service busy.count
    ≡ waiting busy.futures + holding echo responses into_handle busy.outputs
Reach-load_example = Reach-load echo responses into_handle 0 no_instrument busy busy-Reach
