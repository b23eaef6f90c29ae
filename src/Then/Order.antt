-- ===== src/Then/Order.antt =====
-- The order of the two futures of tower-util/src/ext/then.rs.
use pants_tower.Base.{ℕ, zero, suc, ◌+◌, ◌≡◌, refl, ap, ◌∙◌, none, some}
use native.Mathlib.Nat.{zero-add, suc-add}
use pants_tower.Service.{Poll, ready, err, Result, success, failure, Future, Service}
use pants_tower.Futures.{Pends, Pends-alike}
use pants_tower.Then.{ThenFuture, poll_b, call_b, after_a, poll_in, poll, future}

module _ {B RA R FA FB EA E : Type 0} (svc_b : Service B (Result RA EA) FB E)
    (on_a : Future FA RA EA) (on_b : Future FB R E) where
  abbrev pub waiting : B → FA → ThenFuture B FA FB
  waiting b f = record { b = b; fut_b = none; fut_a = f }

  abbrev pub called : B → FB → FA → ThenFuture B FA FB
  called b g f = record { b = b; fut_b = some g; fut_a = f }

  -- An answer that is there.
  abbrev pub result : Result RA EA → Poll RA EA
  result (success v) = ready v
  result (failure e) = err e

  after_a-result :
      (v : Result RA EA) (self : ThenFuture B FA FB)
      → after_a svc_b on_a on_b (result v) self ≡ call_b svc_b on_a on_b v self
  unfolding after_a
  after_a-result (success v) self = refl
  after_a-result (failure e) self = refl

  Pends-called :
      (k : ℕ) (b : B) (f : FA) (g g' : FB)
      → Pends on_b k g g'
      → Pends (future svc_b on_a on_b) k (called b g f) (called b g' f)
  unfolding future poll poll_in poll_b
  Pends-called zero b f g g' p = ap (λ x. called b x f) p
  Pends-called (suc k) b f g g' (h, e, p) =
      (called b h f, ap (λ x. (x.0, called b x.1 f)) e, Pends-called k b f h g' p)

  -- The poll that calls the second service polls its future at once.
  poll_calls :
      (b : B) (f f' : FA) (v : Result RA EA)
      → on_a.poll f ≡ (result v, f')
      → (future svc_b on_a on_b).poll (waiting b f)
        ≡ (future svc_b on_a on_b).poll (called (svc_b.call b v).1 (svc_b.call b v).0 f')
  unfolding future poll poll_in poll_b call_b
  poll_calls b f f' v e =
      ap (λ x. after_a svc_b on_a on_b x.0 (waiting b x.1)) e ∙ after_a-result v (waiting b f')

  Pends-both :
      (n k : ℕ) (b : B) (f f' f'' : FA) (v : Result RA EA) (g : FB)
      → Pends on_a n f f'
      → on_a.poll f' ≡ (result v, f'')
      → Pends on_b k (svc_b.call b v).0 g
      → let chain = future svc_b on_a on_b in
        (t : ThenFuture B FA FB) × Pends chain (n + k) (waiting b f) t
        × (chain.poll t ≡ chain.poll (called (svc_b.call b v).1 g f''))
  unfolding future poll poll_in after_a
  Pends-both zero k b f f' f'' v g p e q = rw zero-add (
      Pends-alike (future svc_b on_a on_b) k (waiting b f)
        (called (svc_b.call b v).1 (svc_b.call b v).0 f'') (called (svc_b.call b v).1 g f'')
        (poll_calls b f f'' v (ap (λ x. on_a.poll x) p ∙ e))
        (Pends-called k (svc_b.call b v).1 f'' (svc_b.call b v).0 g q))
  Pends-both (suc n) k b f f' f'' v g (h, w, p) e q =
      let (t, r, s) = Pends-both n k b h f' f'' v g p e q in
      rw suc-add (t, (waiting b h, ap (λ x. after_a svc_b on_a on_b x.0 (waiting b x.1)) w, r), s)

  -- Where the first future is not ready for n polls and then answers, with a value or an error,
  -- and the future of the second service, called with that result, is not ready for k polls and
  -- then answers p, the chained future is not ready for n + k polls and then answers p, with the
  -- second service called once.
  pub then-Pends :
      (n k : ℕ) (b : B) (f f' f'' : FA) (v : Result RA EA) (g g' : FB) (p : Poll R E)
      → Pends on_a n f f'
      → on_a.poll f' ≡ (result v, f'')
      → Pends on_b k (svc_b.call b v).0 g
      → on_b.poll g ≡ (p, g')
      → (t : ThenFuture B FA FB) × Pends (future svc_b on_a on_b) (n + k) (waiting b f) t
        × ((future svc_b on_a on_b).poll t ≡ (p, called (svc_b.call b v).1 g' f''))
  unfolding future poll poll_in poll_b
  then-Pends n k b f f' f'' v g g' p h e q r =
      let (t, s, u) = Pends-both n k b f f' f'' v g h e q in
      (t, s, u ∙ ap (λ x. (x.0, called (svc_b.call b v).1 x.1 f'')) r)
