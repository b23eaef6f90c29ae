-- ===== src/Retry/Attempts.antt =====
-- tower-retry/src/lib.rs against a plain account of what a retry is.
use pants_tower.Base.{
  ℕ, zero, suc, ◌≡◌, refl, ap, ◌∙◌, sym, inl, inr, Option, none, some, Option-cases,
}
use pants_tower.Service.{ready, err, Result, Future, Service}
use pants_tower.Loop.{answers, Ends, loop_again}
use pants_tower.Retry.{Policy, called, checking, ResponseFuture, answer, turn, poll}
use pants_tower.Retry.Outcomes.{
  turn-called, decide_retries, poll_declined, poll_gave_up, poll_resends,
}

-- The turns of as many attempts.
abbrev pub turns : ℕ → ℕ
turns zero = 0
turns (suc n) = suc (suc (suc (turns n)))

module _ {P S Req F C R E : Type 0} (pol : Policy P Req R E C) (svc : Service S Req F E)
    (fut : Future F R E) (checks : Future C P (Unit {0})) (outcome : F → Result R E)
    (verdict : C → Option P) where
  -- Where a policy wants another attempt, `next` is made with the policy that it becomes.
  abbrev pub decided : Result R E → (P → Option (Result R E)) → Option P → Option (Result R E)
  decided r next none = some r
  decided r next (some policy) = next policy

  abbrev pub judged : Option C → Result R E → (P → Option (Result R E)) → Option (Result R E)
  judged none r next = some r
  judged (some c) r next = decided r next (verdict c)

  -- The result of at most this many attempts, of which `f` is the first.
  unfoldable pub attempts : ℕ → P → S → Req → F → Option (Result R E)
  attempts zero policy s req f = none
  attempts (suc n) policy s req f =
      judged (pol.retry policy req (outcome f)) (outcome f)
        (λ policy'. attempts n policy' (svc.call s req).1 req (svc.call s req).0)

  abbrev pub trying : P → S → Req → F → ResponseFuture P S Req F C R E
  trying policy s req f = record {
    request = some req;
    retry = record { policy = policy; service = s };
    state = called f;
  }

  -- Every future is ready at once, and so is the service.
  pub record IsPrompt : Type 0 where
    pub responds : (f : F) → fut.poll f ≡ (answer (outcome f), f)
    pub approves :
        (c : C) (policy : P) → verdict c ≡ some policy → checks.poll c ≡ (ready policy, c)
    pub rejects : (c : C) → verdict c ≡ none → checks.poll c ≡ (err tt, c)
    pub serves : (s : S) → svc.poll_ready s ≡ (ready tt, s)
    pub clones : (policy : P) (req : Req) → pol.clone_request policy req ≡ some req

  module _ (prompt : IsPrompt) where
    some-inj : {A : Type 0} {x y : A} → some x ≡ some y → x ≡ y
    some-inj e = cc e

    declined :
        (n : ℕ) (policy : P) (s : S) (req : Req) (f : F)
        → pol.retry policy req (outcome f) ≡ none
        → poll pol svc fut checks (turns (suc n)) (trying policy s req f)
          ≡ answers (answer (outcome f)) (trying policy s req f)
    declined n policy s req f w =
        poll_declined pol svc fut checks (suc (suc (turns n))) (trying policy s req f) f f
          (outcome f) refl (prompt.responds f) (inr (req, refl, w))

    rejected :
        (n : ℕ) (policy : P) (s : S) (req : Req) (f : F) (c : C)
        → pol.retry policy req (outcome f) ≡ some c
        → verdict c ≡ none
        → poll pol svc fut checks (turns (suc n)) (trying policy s req f)
          ≡ answers
              (answer (outcome f))
              (record (trying policy s req f) { state = checking c none })
    rejected n policy s req f c w v =
        poll_gave_up pol svc fut checks (suc (turns n)) (trying policy s req f) f f (outcome f) req
          c c refl (prompt.responds f) refl w (prompt.rejects c v)

    approved :
        (n : ℕ) (policy : P) (s : S) (req : Req) (f : F) (c : C) (policy' : P)
        → pol.retry policy req (outcome f) ≡ some c
        → verdict c ≡ some policy'
        → poll pol svc fut checks (turns (suc n)) (trying policy s req f)
          ≡ poll pol svc fut checks
              (turns n)
              (trying policy' (svc.call s req).1 req (svc.call s req).0)
    unfolding poll
    approved n policy s req f c policy' w v =
        let self = trying policy s req f in
        let self' = record self { state = checking c (some (outcome f)) } in
        loop_again (suc (suc (turns n))) (turn pol svc fut checks) self self' (
          turn-called pol svc fut checks self f f (outcome f) refl (prompt.responds f)
          ∙ decide_retries pol svc fut checks (outcome f) self req c refl w)
        ∙ poll_resends pol svc fut checks (turns n) self' req c c (outcome f) policy' s refl refl
            (prompt.approves c policy' v) (prompt.serves s)
        ∙ ap
            (λ o.
              poll pol svc fut checks (turns n)
                (record (trying policy' (svc.call s req).1 req (svc.call s req).0) { request = o }))
            (prompt.clones policy' req)

    -- Where the futures of the service and of the policy are ready at once, the service always is,
    -- and requests can be cloned, a poll with three turns for each attempt answers what a plain
    -- account of the attempts gives: the result of the first attempt after which the policy does
    -- not want another or its check fails, each attempt with the policy that the check before it
    -- gave and with the service as the call before it left it.
    pub poll-attempts :
        (n : ℕ) (policy : P) (s : S) (req : Req) (f : F) (r : Result R E)
        → attempts n policy s req f ≡ some r
        → Ends (λ p self. p ≡ answer r) (poll pol svc fut checks (turns n) (trying policy s req f))
    unfolding attempts
    poll-attempts zero policy s req f r e = absurd (cc)
    poll-attempts (suc n) policy s req f r e =
        let next : P → Option (Result R E) =
          λ policy'. attempts n policy' (svc.call s req).1 req (svc.call s req).0 in
        elim (Option-cases (pol.retry policy req (outcome f))) [
          | inl w ↦
              rw (declined n policy s req f w)
                (ap answer (some-inj (sym (ap (λ o. judged o (outcome f) next) w) ∙ e)))
          | inr (c, w) ↦
              let e' = sym (ap (λ o. judged o (outcome f) next) w) ∙ e in
              elim (Option-cases (verdict c)) [
                | inl v ↦
                    rw (rejected n policy s req f c w v)
                      (ap answer (some-inj (sym (ap (decided (outcome f) next) v) ∙ e')))
                | inr (policy', v) ↦ rw (approved n policy s req f c policy' w v) (
                    poll-attempts n policy' (svc.call s req).1 req (svc.call s req).0 r
                      (sym (ap (decided (outcome f) next) v) ∙ e'))
              ]
        ]
