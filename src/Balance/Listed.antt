-- ===== src/Balance/Listed.antt =====
-- tower-balance/src/lib.rs with round robin over the static list of tower-discover/src/lib.rs.
use pants_tower.Base.{
  ℕ, ◌+◌, ◌<◌, ◌≡◌, ◌∙◌, Bool, false, ◌&&◌, if◌then◌else◌, ltb, leb, List, [], none, arith, length,
}
use native.Mathlib.Decide.{ℕ_discrete}
use pants_tower.Service.{Service}
use pants_tower.IndexMap.{IndexMap}
use pants_tower.Machine.{Ends, Ends-Allows, Ends-mono}
use pants_tower.Choose
use pants_tower.Choose.{RoundRobin}
use pants_tower.Choose.InRange.{round_robin-IsInRange}
use pants_tower.Discover.{new_list}
use pants_tower.Protocol.{Watched, watched}
use pants_tower.Balance.{Balance, new, round_robin, poll_ready}
use pants_tower.Balance.Moves.{members}
use pants_tower.Balance.Discovery.{changes}
use pants_tower.Balance.Ready.{Inv, Settled, chosen, exhausted}
use pants_tower.Balance.Cycle.{new-Inv}
use pants_tower.Balance.Endpoints.Choice.{poll_ready-Picks}
use pants_tower.IndexMap.Every.{Every}
use pants_tower.Balance.Endpoints.Cycle.{UnbrokenAll, Callable, poll_ready-Callable}
use pants_tower.Balance.Numbered.{
  listed, numbered, length-numbered, keys, poll_list-Drains, changes-numbered, AllUnused, Unused,
  listed-Yields, Own, Own-Keeps, Rest, Own-Yields, Rest-all,
}

module _ {V M E Req F : Type 0} (maps : IndexMap ℕ (Watched V) M ℕ_discrete)
    (svc : Service V Req F E) where
  Settled-members :
      {D C : Type 0} (g : ℕ → ℕ) (found : Bool) (b : Balance D C M) (k : ℕ)
      → Settled maps g found b
      → members maps b k ≡ g k
  Settled-members g found b k (chosen e c) = c.counted k
  Settled-members g found b k (exhausted e p z) = p.counted k

  none_ready :
      {D C : Type 0} (g : ℕ → ℕ) (found : Bool) (b : Balance D C M)
      → Settled maps g found b
      → found ≡ false
      → maps.entries b.ready ≡ []
  none_ready g found b (chosen e c) f = absurd (cc)
  none_ready g found b (exhausted e p z) f = ground (arith, z)

  -- Every endpoint is the service of the list that has its key as its number.
  abbrev pub IsListed : {D C : Type 0} → List (Watched V) → Balance D C M → Type 0
  IsListed vs b =
      Every (Own svc vs) (maps.entries b.ready) × Every (Own svc vs) (maps.entries b.not_ready)

  keys_lem :
      (vs : List (Watched V)) (k : ℕ)
      → (if leb 0 k && ltb k (0 + length vs)
          then 1
          else members maps (round_robin maps (new_list vs)) k)
        ≡ keys (length vs) k
  unfolding round_robin new
  keys_lem vs k = rw (maps.entries-empty) (ground arith)

  -- A balancer with round robin over a list of services, of which none was called too early,
  -- polled for the first time with more fuel than services, ends. However it ends, none of its
  -- endpoints was called too early, and the endpoint under each key is the service that the list
  -- has at that number, as polls and calls leave it. Where it returns, its keys are the numbers of
  -- the list, each once; a request that is then sent after it has told that it is ready goes to an
  -- endpoint that has told to be ready; and where it has told that it is not, its map of ready
  -- services is empty. Where it fails, it holds its invariant.
  pub poll_ready-round_robin :
      (vs : List (Watched V)) (fuel : ℕ)
      → AllUnused vs
      → length vs < fuel
      → Ends
          (λ found b'.
            ((k : ℕ) → members maps b' k ≡ keys (length vs) k)
            × IsListed vs b'
            × UnbrokenAll {E = E} {DE = Unit {0}} maps listed
                (Choose.round_robin maps)
                svc
                Unused
                listed-Yields
                b'
            × Callable {E = E} maps listed
                (Choose.round_robin maps)
                svc
                Unused
                listed-Yields
                found
                b'
            × (found ≡ false → maps.entries b'.ready ≡ []))
          (λ e b'.
            Inv maps b'
            × IsListed vs b'
            × UnbrokenAll {E = E} {DE = Unit {0}} maps listed
                (Choose.round_robin maps)
                svc
                Unused
                listed-Yields
                b')
          (poll_ready {E = E} maps listed
            (Choose.round_robin maps)
            (watched svc).poll_ready
            fuel
            (round_robin maps (new_list vs)))
  unfolding round_robin new_list new
  poll_ready-round_robin vs fuel u l =
      Ends-mono _ _ _ _
        (poll_ready {E = E} maps listed (Choose.round_robin maps) (watched svc).poll_ready fuel
          (round_robin maps (new_list vs)))
        (Ends-Allows _ _ _ _ _
          (poll_ready-Callable maps listed (Choose.round_robin maps) svc Unused listed-Yields
            (round_robin maps (new_list vs)) (numbered 0 vs) none fuel
            (new-Inv maps (new_list vs) (record { pos = 0 }))
            (record {
              ready = rw (maps.entries-empty) tt;
              not_ready = rw (maps.entries-empty) tt;
              fresh = u;
            })
            (round_robin-IsInRange maps) (poll_list-Drains 0 vs)
            (omega (arith, length-numbered 0 vs, l)))
          (poll_ready-Picks maps listed (Choose.round_robin maps) (watched svc) (Own svc vs)
            (Own svc vs) (Own-Keeps svc vs) (Rest svc vs) (Own-Yields svc vs) fuel
            (round_robin maps (new_list vs))
            (record {
              ready = rw (maps.entries-empty) tt;
              not_ready = rw (maps.entries-empty) tt;
              fresh = Rest-all svc vs;
            })))
        (λ found b' h. (
          λ k.
              Settled-members (changes ℕ_discrete (numbered 0 vs) none_yet) found b' k h.0.0
              ∙ changes-numbered 0 vs none_yet k
              ∙ keys_lem vs k,
          (h.1.0.ready, h.1.0.not_ready),
          h.0.1,
          h.0.2,
          none_ready _ found b' h.0.0,
        ))
        (λ e b' h. (h.0.0, (h.1.ready, h.1.not_ready), h.0.1))
    where
      none_yet : ℕ → ℕ
      none_yet = members maps (round_robin maps (new_list vs))
