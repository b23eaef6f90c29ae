-- ===== src/Retry/Outcomes.antt =====
-- How the attempts of tower-retry/src/lib.rs end.
use pants_tower.Base.{ℕ, suc, ◌≡◌, refl, ap, ◌∙◌, ◌⊎◌, inl, inr, none, some}
use pants_tower.Service.{ready, err, Result, success, failure, Future, Service}
use pants_tower.Loop.{stop, again, answers, loop_stop, loop_again}
use pants_tower.Retry.{
  Policy, called, checking, retrying, ResponseFuture, answer, poll_ready, consider, decide_on,
  decide, after_call, after_check, resend, after_ready, turn_in, turn, poll,
}

module _ {P S Req F C R E : Type 0} (pol : Policy P Req R E C) (svc : Service S Req F E)
    (fut : Future F R E) (checks : Future C P (Unit {0})) where
  after_call-answer :
      (r : Result R E) (self : ResponseFuture P S Req F C R E)
      → after_call pol svc fut checks (answer r) self ≡ decide pol svc fut checks r self
  unfolding after_call
  after_call-answer (success r) self = refl
  after_call-answer (failure x) self = refl

  pub turn-called :
      (self : ResponseFuture P S Req F C R E) (f f' : F) (r : Result R E)
      → self.state ≡ called f
      → fut.poll f ≡ (answer r, f')
      → turn pol svc fut checks self
        ≡ decide pol svc fut checks r (record self { state = called f' })
  unfolding turn turn_in
  turn-called self f f' r e h =
      ap (λ s. turn_in pol svc fut checks s self) e
      ∙ ap (λ x. after_call pol svc fut checks x.0 (record self { state = called x.1 })) h
      ∙ after_call-answer r (record self { state = called f' })

  -- The request was not cloned, or the policy does not want a retry.
  abbrev Declines : Result R E → ResponseFuture P S Req F C R E → Type 0
  Declines r self =
      (self.request ≡ none)
      ⊎ ((q : Req) × (self.request ≡ some q) × (pol.retry self.retry.policy q r ≡ none))

  decide_declined :
      (r : Result R E) (self : ResponseFuture P S Req F C R E)
      → Declines r self
      → decide pol svc fut checks r self ≡ stop (answer r) self
  unfolding decide decide_on consider
  decide_declined r self (inl e) = ap (λ o. decide_on pol svc fut checks o r self) e
  decide_declined r self (inr (q, e, n)) =
      ap (λ o. decide_on pol svc fut checks o r self) e
      ∙ ap (λ o. consider pol svc fut checks o r self) n

  pub decide_retries :
      (r : Result R E) (self : ResponseFuture P S Req F C R E) (q : Req) (c : C)
      → self.request ≡ some q
      → pol.retry self.retry.policy q r ≡ some c
      → decide pol svc fut checks r self ≡ again (record self { state = checking c (some r) })
  unfolding decide decide_on consider
  decide_retries r self q c e n =
      ap (λ o. decide_on pol svc fut checks o r self) e
      ∙ ap (λ o. consider pol svc fut checks o r self) n

  -- Where the service answers and the request could not be cloned, or the policy does not want a
  -- retry, the poll answers with the result of the service.
  pub poll_declined :
      (fuel : ℕ) (self : ResponseFuture P S Req F C R E) (f f' : F) (r : Result R E)
      → self.state ≡ called f
      → fut.poll f ≡ (answer r, f')
      → Declines r self
      → poll pol svc fut checks (suc fuel) self
        ≡ answers (answer r) (record self { state = called f' })
  unfolding poll
  poll_declined fuel self f f' r e h d =
      let self' = record self { state = called f' } in
      loop_stop fuel (turn pol svc fut checks) self self' (answer r)
        (turn-called self f f' r e h ∙ decide_declined r self' d)

  turn_gave_up :
      (self : ResponseFuture P S Req F C R E) (c c' : C) (r : Result R E)
      → self.state ≡ checking c (some r)
      → checks.poll c ≡ (err tt, c')
      → turn pol svc fut checks self ≡ stop (answer r) (record self { state = checking c' none })
  unfolding turn turn_in after_check
  turn_gave_up self c c' r e h =
      ap (λ s. turn_in pol svc fut checks s self) e
      ∙ ap (λ x. after_check pol svc fut checks x.0 x.1 (some r) self) h

  -- Where the service answers, the policy asks for a retry of the cloned request, and then the
  -- policy's future fails, the poll answers with the result that the service gave.
  pub poll_gave_up :
      (fuel : ℕ) (self : ResponseFuture P S Req F C R E) (f f' : F) (r : Result R E) (q : Req)
      (c c' : C)
      → self.state ≡ called f
      → fut.poll f ≡ (answer r, f')
      → self.request ≡ some q
      → pol.retry self.retry.policy q r ≡ some c
      → checks.poll c ≡ (err tt, c')
      → poll pol svc fut checks (suc (suc fuel)) self
        ≡ answers (answer r) (record self { state = checking c' none })
  unfolding poll
  poll_gave_up fuel self f f' r q c c' e h a n k =
      let self' = record self { state = called f' } in
      let self'' = record self { state = checking c (some r) } in
      loop_again (suc fuel) (turn pol svc fut checks) self self''
        (turn-called self f f' r e h ∙ decide_retries r self' q c a n)
      ∙ loop_stop fuel (turn pol svc fut checks) self'' (record self { state = checking c' none })
          (answer r) (turn_gave_up self'' c c' r refl k)

  turn_approved :
      (self : ResponseFuture P S Req F C R E) (c c' : C) (r : Result R E) (policy : P)
      → self.state ≡ checking c (some r)
      → checks.poll c ≡ (ready policy, c')
      → turn pol svc fut checks self
        ≡ again (record self { retry = record (self.retry) { policy = policy }; state = retrying })
  unfolding turn turn_in after_check
  turn_approved self c c' r policy e h =
      ap (λ s. turn_in pol svc fut checks s self) e
      ∙ ap (λ x. after_check pol svc fut checks x.0 x.1 (some r) self) h

  turn_resends :
      (self : ResponseFuture P S Req F C R E) (q : Req) (s : S)
      → self.state ≡ retrying
      → self.request ≡ some q
      → svc.poll_ready self.retry.service ≡ (ready tt, s)
      → let (f, s') = svc.call s q in
        turn pol svc fut checks self
        ≡ again (record {
          request = pol.clone_request self.retry.policy q;
          retry = record { policy = self.retry.policy; service = s' };
          state = called f;
        })
  unfolding turn turn_in after_ready poll_ready resend
  turn_resends self q s e a h =
      ap (λ s. turn_in pol svc fut checks s self) e
      ∙ ap
          (λ x.
            after_ready pol svc fut checks x.0
              (record self { retry = record (self.retry) { service = x.1 } }))
          h
      ∙ ap
          (λ o.
            resend pol svc fut checks o
              (record self { retry = record (self.retry) { service = s } }))
          a

  -- Where the policy's future approves and the service is ready, a poll sends the request again
  -- and goes on from its new response future, with the new policy in place and the request cloned
  -- once more by that policy.
  pub poll_resends :
      (fuel : ℕ) (self : ResponseFuture P S Req F C R E) (q : Req) (c c' : C) (r : Result R E)
      (policy : P) (s : S)
      → self.state ≡ checking c (some r)
      → self.request ≡ some q
      → checks.poll c ≡ (ready policy, c')
      → svc.poll_ready self.retry.service ≡ (ready tt, s)
      → let (f, s') = svc.call s q in
        poll pol svc fut checks (suc (suc fuel)) self
        ≡ poll pol svc fut checks fuel (record {
          request = pol.clone_request policy q;
          retry = record { policy = policy; service = s' };
          state = called f;
        })
  unfolding poll
  poll_resends fuel self q c c' r policy s e a k h =
      let approved : ResponseFuture P S Req F C R E = record self {
        retry = record (self.retry) { policy = policy };
        state = retrying;
      } in
      loop_again (suc fuel) (turn pol svc fut checks) self approved
        (turn_approved self c c' r policy e k)
      ∙ loop_again fuel (turn pol svc fut checks) approved _ (turn_resends approved q s refl a h)
