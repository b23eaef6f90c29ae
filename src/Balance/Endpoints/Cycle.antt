-- ===== src/Balance/Endpoints/Cycle.antt =====
-- The cycle of `poll_ready` and `call` of tower-balance/src/lib.rs over endpoints that are watched.
use pants_tower.Base.{ℕ, ◌≡◌, Bool, true, List, Option, ◌<◌, ◌≤◌, length, subst}
use pants_tower.Service.{Service}
use pants_tower.IndexMap.{IndexMap}
use pants_tower.Machine.{Ends, Ends-mono, Ends-Allows, Allows}
use pants_tower.Choose.{Choose}
use pants_tower.Choose.InRange.{IsInRange}
use pants_tower.Discover.{Discover, Change}
use pants_tower.Protocol.{Watched, watched, watched-Keeps, Unbroken, Ready}
use pants_tower.Balance.{Balance, Error, poll_ready, call}
use pants_tower.Balance.Moves.{members}
use pants_tower.Balance.Discovery.{Drains, changes, changes_once}
use pants_tower.Balance.Ready.{Inv, Settled, chosen, exhausted}
use pants_tower.Balance.Cycle.{poll_ready-Ends, call-Chosen}
use pants_tower.Balance.Endpoints.{Yields, Rests}
use pants_tower.Balance.Endpoints.Choice.{Picks, poll_ready-Picks, call-Rests}

module _ {D C K V M E DE Req F : Type 0} {dec : Discrete K} (maps : IndexMap K (Watched V) M dec)
    (disc : Discover D K (Watched V) DE) (strategy : Choose C M) (svc : Service V Req F E)
    (Fresh : D → Type 0) (yields : Yields disc (λ k. Unbroken) Fresh) where
  abbrev pub UnbrokenAll : Balance D C M → Type 0
  UnbrokenAll =
      Rests {E = E} maps disc strategy (watched svc) (λ k. Unbroken) (λ k. Ready)
        (λ k. watched-Keeps svc) Fresh yields

  abbrev pub Callable : Bool → Balance D C M → Type 0
  Callable found b =
      found ≡ true
      → (req : Req)
      → Ends (λ (f : F) b'. UnbrokenAll b') (λ (e : Error E DE) b'. ⊥)
          (call maps (watched svc).call req b)

  callable :
      (g : K → ℕ) (found : Bool) (b : Balance D C M)
      → ((k : K) → g k ≤ 1)
      → Settled maps g found b
      → Picks maps disc strategy
          (watched svc)
          (λ k. Unbroken)
          (λ k. Ready)
          (λ k. watched-Keeps svc)
          Fresh
          yields
          found
          b
      → Callable found b
  callable g found b o (chosen e c) p f req =
      let e' = (call-Chosen {E = E} {DE = DE} maps (watched svc).call g b req o c).6 in
      rw e' (
        subst (Allows (λ (f : F) b'. UnbrokenAll b') (λ (e : Error E DE) b'. UnbrokenAll b')) e' (
          call-Rests maps disc strategy (watched svc) (λ k. Unbroken) (λ k. Ready)
            (λ k. watched-Keeps svc) Fresh yields req b p.0 (p.1 f)))
  callable g found b o (exhausted e q z) p f req = absurd (cc)

  -- Over endpoints of which none was called too early, and a discovery that yields such endpoints:
  -- where the balancer holds its invariant, the chooser stays in range, the discovery yields
  -- finitely many changes and then stops, and there is fuel for more turns than changes,
  -- `poll_ready` ends with no endpoint called too early, through all its moves between the two
  -- maps. Where it returns that a service is chosen, the call that follows, for any request,
  -- returns and goes to an endpoint that has told to be ready; where it returns that none is, no
  -- service is ready. Where it fails, the balancer holds its invariant.
  pub poll_ready-Callable :
      (b : Balance D C M) (cs : List (Change K (Watched V))) (stop : Option DE) (fuel : ℕ)
      → Inv maps b
      → UnbrokenAll b
      → IsInRange maps strategy
      → Drains disc b.discover cs stop
      → length cs < fuel
      → Ends
          (λ found b'.
            Settled maps (changes dec cs (members maps b)) found b'
            × UnbrokenAll b'
            × Callable found b')
          (λ e b'. Inv maps b' × UnbrokenAll b')
          (poll_ready maps disc strategy (watched svc).poll_ready fuel b)
  poll_ready-Callable b cs stop fuel v u r d l =
      Ends-mono _ _ _ _ (poll_ready maps disc strategy (watched svc).poll_ready fuel b)
        (Ends-Allows _ _ _ _ _
          (poll_ready-Ends maps disc strategy (watched svc).poll_ready b v cs stop fuel r d l)
          (poll_ready-Picks maps disc strategy (watched svc) (λ k. Unbroken) (λ k. Ready)
            (λ k. watched-Keeps svc) Fresh yields fuel b u))
        (λ found b' h. (
          h.0,
          h.1.0,
          callable (changes dec cs (members maps b)) found b'
              (changes_once dec cs (members maps b) v.once) h.0 h.1,
        ))
        (λ e b' h. h)
