-- ===== src/Retry/Tests.antt =====
-- tower-retry/src/lib.rs with a policy that allows a number of retries.
use pants_tower.Base.{ℕ, zero, suc, ◌+◌, ◌≡◌, refl, ap, Option, none, some}
use pants_tower.Service.{Poll, ready, err, Result, success, failure, Future, Service}
use pants_tower.Retry.{
  answer, Policy, State, called, ResponseFuture, poll, poll_ready, turn, turn_in, after_call,
  decide, decide_on, consider, after_check, after_ready, resend,
}
use pants_tower.Loop.{answers, loop, Ends}
use pants_tower.Retry.Attempts.{attempts, trying, IsPrompt, poll-attempts}

-- A failure is tried again while retries are left; the check is the policy after it.
abbrev retry_failure : ℕ → ℕ → Result ℕ ℕ → Option (Option ℕ)
retry_failure (suc n) request (failure e) = some (some n)
retry_failure zero request (failure e) = none
retry_failure n request (success r) = none

abbrev limited : Policy ℕ ℕ ℕ ℕ (Option ℕ)
limited = record { retry = retry_failure; clone_request = λ p r. some r }

-- A check that holds no policy fails.
abbrev poll_check : Option ℕ → Poll ℕ (Unit {0}) × Option ℕ
poll_check (some n) = (ready n, some n)
poll_check none = (err tt, none)

abbrev checks : Future (Option ℕ) ℕ (Unit {0})
checks = record { poll = poll_check }

-- Requests are numbers, and only 0 succeeds.
abbrev poll_response : ℕ → Poll ℕ ℕ × ℕ
poll_response zero = (ready 7, 0)
poll_response (suc n) = (err n, suc n)

abbrev answers_at_once : Future ℕ ℕ ℕ
answers_at_once = record { poll = poll_response }

abbrev counter : Service ℕ ℕ ℕ ℕ
counter = record { poll_ready = λ s. (ready tt, s); call = λ s r. (r, s + 1) }

abbrev request : ℕ → State ℕ (Option ℕ) ℕ ℕ → ResponseFuture ℕ ℕ ℕ ℕ (Option ℕ) ℕ ℕ
request n state = record {
  request = some 5;
  retry = record { policy = n; service = 1 };
  state = state;
}

-- Two retries, and then the failure is the answer.
two_retries :
    poll limited counter answers_at_once checks 9 (request 2 (called 5))
    ≡ answers
        (err 4)
        (record { request = some 5; retry = record { policy = 0; service = 3 }; state = called 5 })
unfolding poll loop turn turn_in after_call decide decide_on consider after_check after_ready resend
    poll_ready
two_retries = refl

abbrev outcome : ℕ → Result ℕ ℕ
outcome zero = success 7
outcome (suc n) = failure n

responds : (f : ℕ) → poll_response f ≡ (answer (outcome f), f)
responds zero = refl
responds (suc n) = refl

approves : (c : Option ℕ) (policy : ℕ) → c ≡ some policy → poll_check c ≡ (ready policy, c)
approves none policy e = absurd (cc)
approves (some n) policy e = let q : n ≡ policy = cc in ap (λ k. (ready k, some n)) q

rejects : (c : Option ℕ) → c ≡ none → poll_check c ≡ (err tt, c)
rejects none e = refl
rejects (some n) e = absurd (cc)

prompt : IsPrompt limited counter answers_at_once checks outcome (λ c. c)
prompt = record {
  responds = responds;
  approves = approves;
  rejects = rejects;
  serves = λ s. refl;
  clones = λ policy req. refl;
}

two_attempts :
    attempts limited counter answers_at_once checks outcome (λ c. c) 3 2 1 5 5 ≡ some (failure 4)
unfolding attempts
two_attempts = refl

poll-attempts_example :
    Ends
      (λ p self. p ≡ err 4)
      (poll limited counter answers_at_once checks 9
        (trying limited counter answers_at_once checks outcome (λ c. c) 2 1 5 5))
poll-attempts_example =
    poll-attempts limited counter answers_at_once checks outcome (λ c. c) prompt 3 2 1 5 5
      (failure 4) two_attempts
