-- ===== src/Protocol/Tests.antt =====
-- Services that are watched, in a stack and in responses.
use pants_tower.Base.{
  ℕ, zero, suc, ◌+◌, ◌≡◌, refl, Bool, true, false, Option, none, some, List, [], ◌∷◌, arith, subst,
}
use pants_tower.Service.{Poll, ready, not_ready, err, Result, success, failure, Service, Future}
use pants_tower.Loop.{Meets, Ends}
use pants_tower.InFlight.{AtomicTask}
use pants_tower.Timeout.{Timeout}
use pants_tower.Retry
use pants_tower.Retry.{Policy, Retry}
use pants_tower.Retry.Progress.{Pends}
use pants_tower.Filter
use pants_tower.Filter.Capacity.{capacity, lost}
use pants_tower.Reconnect
use pants_tower.Reconnect.{Reconnect, idle}
use pants_tower.Reconnect.Turns.{Leaves}
use pants_tower.RateLimit
use pants_tower.RateLimit.{RateLimit, open_until}
use pants_tower.Protocol.{After, Op, asks, calls, Watched, watched, Unbroken, run}
use pants_tower.Protocol.Wrappers.{Inside}
use pants_tower.Protocol.Stack.{Limited, stacked, base, stacked-Unbroken}
use pants_tower.Protocol.Gates.{rate_limit_breaks}
use pants_tower.Protocol.Responses.{retry_poll-Unbroken}
use pants_tower.Protocol.Checked.{filter_poll-Unbroken}
use pants_tower.Protocol.Connections.{Clean, Waiting, poll_ready-Clean}

-- A service is the number of polls before it is ready; a call is answered with its request.
abbrev poll_worker : ℕ → Poll (Unit {0}) ℕ × ℕ
poll_worker zero = (ready tt, 0)
poll_worker (suc n) = (not_ready, n)

abbrev worker : Service ℕ ℕ ℕ ℕ
worker = record { poll_ready = poll_worker; call = λ s r. (r, s + 2) }

abbrev unused : ℕ → Watched ℕ
unused n = record { service = n; armed = false; broken = false }

abbrev wakeup : AtomicTask Bool
wakeup = record { register = λ t. true; notify = λ t. false }

abbrev retry_failure : {E : Type 0} → ℕ → ℕ → Result ℕ E → Option (Option ℕ)
retry_failure (suc n) request (failure e) = some (some n)
retry_failure zero request (failure e) = none
retry_failure n request (success r) = none

abbrev policy : {E : Type 0} → Policy ℕ ℕ ℕ E (Option ℕ)
policy = record { retry = retry_failure; clone_request = λ p r. some r }

abbrev stack : Timeout (Limited worker wakeup (λ d. d) policy) × (ℕ → ℕ)
stack = (
  record {
    inner = (
      record {
        inner = record { policy = 3; service = record { inner = some (unused 1) } };
        reserved = false;
      },
      λ n. record { max = 2; curr = 1; task = false },
    );
    timeout = 10;
  },
  λ n. n,
)

-- The first call comes too early, and is left out.
abbrev uses : List (Op ℕ)
uses = asks ∷ calls 4 ∷ asks ∷ calls 5 ∷ calls 6 ∷ []

stacked-Unbroken_example :
    Inside Unbroken
      (base worker wakeup
        (λ d. d)
        policy
        (run (stacked worker wakeup (λ d. d) policy) false uses stack)).inner
stacked-Unbroken_example = stacked-Unbroken worker wakeup (λ d. d) policy uses stack refl

abbrev poll_sleep : ℕ → Poll (Unit {0}) ℕ × ℕ
poll_sleep zero = (ready tt, 0)
poll_sleep (suc n) = (not_ready, n)

abbrev timer : Future ℕ (Unit {0}) ℕ
timer = record { poll = poll_sleep }

abbrev limiter : RateLimit (Watched ℕ) ℕ
limiter = record { inner = unused 1; rate = record { num = 2; per = 10 }; state = open_until 10 2 }

rate_limit_breaks_example :
    let (p, w') = RateLimit.poll_ready {E = ℕ} timer 5 limiter in
    (p ≡ ready tt) × ((RateLimit.call (λ d. d) (watched worker) 6 w' 7).1.inner.broken ≡ true)
rate_limit_breaks_example =
    rate_limit_breaks timer (λ d. d) worker (unused 1) (record { num = 2; per = 10 }) 10 2 5 6 7
      refl

-- A check that holds no policy fails; only the request 0 succeeds.
abbrev poll_check : Option ℕ → Poll ℕ (Unit {0}) × Option ℕ
poll_check (some n) = (ready n, some n)
poll_check none = (err tt, none)

abbrev checks : Future (Option ℕ) ℕ (Unit {0})
checks = record { poll = poll_check }

abbrev poll_response : ℕ → Poll ℕ ℕ × ℕ
poll_response zero = (ready 7, 0)
poll_response (suc n) = (err n, suc n)

abbrev responses : Future ℕ ℕ ℕ
responses = record { poll = poll_response }

abbrev retried : Retry.ResponseFuture ℕ (Watched ℕ) ℕ ℕ (Option ℕ) ℕ ℕ
retried = record {
  request = some 5;
  retry = record { policy = 2; service = unused 0 };
  state = Retry.called 5;
}

retry_poll-Unbroken_example :
    Meets
      (λ p self'.
        Pends policy (watched worker) responses checks p self' × Unbroken self'.retry.service)
      (Retry.poll policy (watched worker) responses checks 9 retried)
retry_poll-Unbroken_example = retry_poll-Unbroken policy worker responses checks 9 retried tt refl

abbrev poll_predicate : ℕ → Poll (Unit {0}) ℕ × ℕ
poll_predicate zero = (ready tt, 0)
poll_predicate (suc n) = (err n, suc n)

abbrev predicates : Future ℕ (Unit {0}) ℕ
predicates = record { poll = poll_predicate }

abbrev waiting : Filter.ResponseInner ℕ (Watched ℕ) ℕ ℕ × Filter.Counts Bool
waiting = (
  record { state = Filter.checking 0; check = 0; service = unused 0 },
  record { task = false; rem = 1 },
)

filter_poll-Unbroken_example :
    Ends
      (λ p h'.
        (capacity wakeup predicates (watched worker) responses h' + lost p ≡ 2)
        × Unbroken h'.0.service)
      (Filter.poll_inner wakeup predicates (watched worker) responses waiting)
filter_poll-Unbroken_example =
    filter_poll-Unbroken wakeup predicates worker responses waiting (omega arith) refl

-- A connection yields a service after a number of polls.
abbrev poll_connection : ℕ → Poll (Watched ℕ) ℕ × ℕ
poll_connection zero = (ready (unused 0), 0)
poll_connection (suc n) = (not_ready, n)

abbrev connection : Future ℕ (Watched ℕ) ℕ
connection = record { poll = poll_connection }

connection_yields : (f : ℕ) (s : Watched ℕ) → (poll_connection f).0 ≡ ready s → Unbroken s
connection_yields zero s e = let q : unused 0 ≡ s = cc in subst Unbroken q refl
connection_yields (suc f) s e = absurd (cc)

abbrev disconnected : Reconnect (Watched ℕ) ℕ (Watched ℕ) ℕ
disconnected = record { mk_service = unused 0; state = idle; target = 0 }

poll_ready-Clean_example :
    Meets
      (λ p self'.
        Leaves p self'.state
        × After Clean Waiting p self'
        × ((req : ℕ) → p ≡ ready tt → Clean (Reconnect.call (watched worker) self' req).1))
      (Reconnect.poll_ready (watched worker) connection (watched worker) 5 disconnected)
poll_ready-Clean_example =
    poll_ready-Clean worker connection worker connection_yields 5 disconnected (refl, tt)
