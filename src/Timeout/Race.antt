-- ===== src/Timeout/Race.antt =====
-- Which of the response and the sleep of tower-timeout/src/lib.rs comes first.
use pants_tower.Base.{ℕ, zero, suc, ◌≡◌, refl, ap, ◌∙◌}
use pants_tower.Service.{Poll, ready, not_ready, err, map_err, Future}
use pants_tower.Futures.{Pends}
use pants_tower.Timeout.{
  ResponseFuture, inner_error, timed_out, after_sleep, after_response, poll, future,
}

module _ {F Z A E X : Type 0} (fut : Future F A E) (timer : Future Z (Unit {0}) X) where
  abbrev pub both : F → Z → ResponseFuture F Z
  both f z = record { response = f; sleep = z }

  Pends-both :
      (n : ℕ) (f f' : F) (z z' : Z)
      → Pends fut n f f'
      → Pends timer n z z'
      → Pends (future fut timer) n (both f z) (both f' z')
  unfolding future poll after_response after_sleep
  Pends-both zero f f' z z' p q = ap (λ x. both x z) p ∙ ap (both f') q
  Pends-both (suc n) f f' z z' (g, e, p) (y, h, q) = (
    both g y,
    ap (λ x. after_response fut timer x.0 (both x.1 z)) e
        ∙ ap (λ x. (after_sleep fut timer x.0, both g x.1)) h,
    Pends-both n g f' y z' p q,
  )

  after_response_done :
      (r : Poll A E) (self : ResponseFuture F Z)
      → ¬ (r ≡ not_ready)
      → after_response fut timer r self ≡ (map_err inner_error r, self)
  unfolding after_response
  after_response_done (ready v) self h = refl
  after_response_done not_ready self h = absurd (h refl)
  after_response_done (err e) self h = refl

  -- Where response and sleep are both not ready for n polls, and the response then has a value or
  -- an error, the future is not ready for n polls and then answers with what the response has,
  -- whether or not the sleep is over, and does not poll the sleep again.
  pub response-Pends :
      (n : ℕ) (f f' f'' : F) (z z' : Z) (r : Poll A E)
      → Pends fut n f f'
      → Pends timer n z z'
      → ¬ (r ≡ not_ready)
      → fut.poll f' ≡ (r, f'')
      → Pends (future fut timer) n (both f z) (both f' z')
        × ((future fut timer).poll (both f' z') ≡ (map_err inner_error r, both f'' z'))
  unfolding future poll
  response-Pends n f f' f'' z z' r p q h e = (
    Pends-both n f f' z z' p q,
    ap (λ x. after_response fut timer x.0 (both x.1 z')) e ∙ after_response_done r (both f'' z') h,
  )

  after_sleep_done :
      (r : Poll (Unit {0}) X) → ¬ (r ≡ not_ready) → after_sleep fut timer r ≡ err timed_out
  unfolding after_sleep
  after_sleep_done (ready u) h = refl
  after_sleep_done not_ready h = absurd (h refl)
  after_sleep_done (err e) h = refl

  -- Where response and sleep are both not ready for n polls, and then the response is not ready
  -- once more while the sleep is over or fails, the future is not ready for n polls and then fails
  -- with a timeout.
  pub sleep-Pends :
      (n : ℕ) (f f' f'' : F) (z z' z'' : Z) (r : Poll (Unit {0}) X)
      → Pends fut n f f'
      → Pends timer n z z'
      → ¬ (r ≡ not_ready)
      → fut.poll f' ≡ (not_ready, f'')
      → timer.poll z' ≡ (r, z'')
      → Pends (future fut timer) n (both f z) (both f' z')
        × ((future fut timer).poll (both f' z') ≡ (err timed_out, both f'' z''))
  unfolding future poll after_response
  sleep-Pends n f f' f'' z z' z'' r p q h e k = (
    Pends-both n f f' z z' p q,
    ap (λ x. after_response fut timer x.0 (both x.1 z')) e
        ∙ ap (λ x. (after_sleep fut timer x.0, both f'' x.1)) k
        ∙ ap (λ x. (x, both f'' z'')) (after_sleep_done r h),
  )
