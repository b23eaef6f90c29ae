-- ===== src/Balance/Tests.antt =====
-- tower-balance/src/lib.rs over a map that is a list of its entries.
use pants_tower.Base.{
  ℕ, zero, suc, ◌+◌, ◌≡◌, refl, false, subst, Option, none, some, List, [], ◌∷◌, get_elem?, set,
  arith,
}
use native.Mathlib.Decide.{ℕ_discrete}
use pants_tower.Service.{Poll, ready, not_ready, Service}
use pants_tower.Protocol.{Watched, watched, Unbroken}
use pants_tower.Balance.Endpoints.{Yields}
use pants_tower.Balance.Endpoints.Cycle.{UnbrokenAll, Callable, poll_ready-Callable}
use pants_tower.Balance.Driven.{poll_close}
use pants_tower.Balance.Driven.Closing.{close_times, poll_close-close_times}
use pants_tower.IndexMap.{IndexMap}
use pants_tower.IndexMap.Table.{Table, table, table_of, retaining}
use pants_tower.Machine.{returns, Ends}
use pants_tower.Choose.{RoundRobin, round_robin}
use pants_tower.Choose.InRange.{round_robin-IsInRange}
use pants_tower.Discover.{Discover, Change, insert, remove, new_list}
use pants_tower.Balance.{
  Balance, balance, poll_ready, call, update_from_discover, round_robin as balancer,
}
use pants_tower.Balance.Numbered.{listed, keys, Unused, listed-Yields}
use pants_tower.Balance.Listed.{IsListed, poll_ready-round_robin}
use pants_tower.Choose
use pants_tower.Balance.Moves.{members, Pending}
use pants_tower.Balance.Table.{endpoint, installs}
use pants_tower.Balance.Discovery.{changes, update_from_discover-Ends}
use pants_tower.Balance.Ready.{Inv, Chosen, Settled}
use pants_tower.Balance.Cycle.{poll_ready-Ends, call-Chosen}

abbrev poll_feed : List (Change ℕ ℕ) → Poll (Change ℕ ℕ) ℕ × List (Change ℕ ℕ)
poll_feed [] = (not_ready, [])
poll_feed (c ∷ cs) = (ready c, cs)

abbrev feed : Discover (List (Change ℕ ℕ)) ℕ ℕ ℕ
feed = record { poll = poll_feed }

-- A service is the number of polls before it is ready.
abbrev poll_worker : ℕ → Poll (Unit {0}) ℕ × ℕ
poll_worker zero = (ready tt, 0)
poll_worker (suc n) = (not_ready, n)

abbrev news : List (Change ℕ ℕ)
news = insert 3 0 ∷ remove 1 ∷ []

abbrev busy : Balance (List (Change ℕ ℕ)) RoundRobin Table
busy = record {
  discover = news;
  chooser = record { pos = 0 };
  chosen_ready_index = none;
  dispatched_ready_index = some 0;
  ready = (1, 2) ∷ [];
  not_ready = (2, 0) ∷ [];
}

busy-Inv : Inv table busy
busy-Inv = record {
  once = λ k. ground arith;
  chosen = λ i e. absurd (cc);
  dispatched = λ i e. ground arith;
}

poll_ready-Ends_example :
    Ends
      (Settled table (changes ℕ_discrete news (members table busy)))
      (λ e b'. Inv table b')
      (poll_ready {DE = ℕ} table feed (round_robin table) poll_worker 3 busy)
poll_ready-Ends_example =
    poll_ready-Ends table feed (round_robin table) poll_worker busy busy-Inv news none 3
      (round_robin-IsInRange table) (_, refl, (_, refl, (_, refl))) (omega arith)

abbrev idle : Balance (List (Change ℕ ℕ)) RoundRobin Table
idle = record busy { dispatched_ready_index = none }

abbrev stopped : Option ℕ
stopped = none

update_from_discover-Ends_example :
    Ends
      (λ u b'.
        Pending table (changes ℕ_discrete news (members table idle)) b'
        × ((k : ℕ) → endpoint table b' k ≡ installs ℕ_discrete news (endpoint table idle) k)
        × (stopped ≡ none))
      (λ e b'.
        Pending table (changes ℕ_discrete news (members table idle)) b'
        × ((k : ℕ) → endpoint table b' k ≡ installs ℕ_discrete news (endpoint table idle) k)
        × ((x : ℕ) × (stopped ≡ some x) × (e ≡ balance x)))
      (update_from_discover {E = ℕ} table feed (round_robin table) poll_worker 3 idle)
update_from_discover-Ends_example =
    update_from_discover-Ends table feed (round_robin table) poll_worker news stopped 3
      (members table idle) idle (_, refl, (_, refl, (_, refl))) (omega arith) (λ k. ground arith)
      (record { counted = λ k. refl; chosen = refl; dispatched = refl })

abbrev settled : Balance (List (Change ℕ ℕ)) RoundRobin Table
settled = record busy { chosen_ready_index = some 0; dispatched_ready_index = none }

settled-Chosen : Chosen table (members table settled) settled
settled-Chosen = record { counted = λ k. refl; dispatched = refl; index = (0, refl, omega arith) }

-- A call sends the request back and is a poll more before it is ready.
abbrev call_worker : ℕ → ℕ → ℕ × ℕ
call_worker svc request = (request, svc + 1)

call-Chosen_example :
    (i : ℕ) × (key : ℕ) × (svc : ℕ) × (b' : Balance (List (Change ℕ ℕ)) RoundRobin Table) × (some 0
      ≡ some i)
    × (get_elem? settled.ready i ≡ some (key, svc))
    × (call {E = ℕ} {DE = ℕ} table call_worker 9 settled ≡ returns 9 b')
    × (b'.ready ≡ set settled.ready i (key, svc + 1))
    × (b'.chosen_ready_index ≡ none)
    × (b'.dispatched_ready_index ≡ some i)
    × ((k : ℕ) → members table b' k ≡ members table settled k)
    × Inv table b'
call-Chosen_example =
    call-Chosen table call_worker (members table settled) settled 9 (λ k. ground arith)
      settled-Chosen

poll_close-close_times_example :
    let self' = close_times ℕ table retaining poll_worker 3 busy in
    (self'.ready ≡ [])
    × (self'.not_ready ≡ [])
    × ((poll_close {DE = ℕ} table retaining poll_worker self').0 ≡ ready tt)
poll_close-close_times_example =
    poll_close-close_times ℕ table retaining poll_worker 3 busy (tt, tt) (tt, tt)

abbrev poll_watched :
    List (Change ℕ (Watched ℕ)) → Poll (Change ℕ (Watched ℕ)) ℕ × List (Change ℕ (Watched ℕ))
poll_watched [] = (not_ready, [])
poll_watched (c ∷ cs) = (ready c, cs)

abbrev watched_feed : Discover (List (Change ℕ (Watched ℕ))) ℕ (Watched ℕ) ℕ
watched_feed = record { poll = poll_watched }

abbrev worker : Service ℕ ℕ ℕ ℕ
worker = record { poll_ready = poll_worker; call = call_worker }

abbrev unused : ℕ → Watched ℕ
unused n = record { service = n; armed = false; broken = false }

abbrev UnusedIn : List (Change ℕ (Watched ℕ)) → Type 0
UnusedIn [] = Unit {0}
UnusedIn (insert k v ∷ cs) = Unbroken v × UnusedIn cs
UnusedIn (remove k ∷ cs) = UnusedIn cs

watched_feed-yielded :
    (d : List (Change ℕ (Watched ℕ))) (k : ℕ) (v : Watched ℕ)
    → UnusedIn d
    → (poll_watched d).0 ≡ ready (insert k v)
    → Unbroken v
watched_feed-yielded [] k v h e = absurd (cc)
watched_feed-yielded (insert j w ∷ cs) k v h e = let q : w ≡ v = cc in subst Unbroken q h.0
watched_feed-yielded (remove j ∷ cs) k v h e = absurd (cc)

watched_feed-after : (d : List (Change ℕ (Watched ℕ))) → UnusedIn d → UnusedIn (poll_watched d).1
watched_feed-after [] h = tt
watched_feed-after (insert j w ∷ cs) h = h.1
watched_feed-after (remove j ∷ cs) h = h

watched_feed-Yields : Yields watched_feed (λ k. Unbroken) UnusedIn
watched_feed-Yields = record { yielded = watched_feed-yielded; after = watched_feed-after }

abbrev watched_news : List (Change ℕ (Watched ℕ))
watched_news = insert 3 (unused 0) ∷ remove 1 ∷ []

abbrev watched_table : IndexMap ℕ (Watched ℕ) (List (ℕ × Watched ℕ)) ℕ_discrete
watched_table = table_of (Watched ℕ)

abbrev watched_busy : Balance (List (Change ℕ (Watched ℕ))) RoundRobin (List (ℕ × Watched ℕ))
watched_busy = record {
  discover = watched_news;
  chooser = record { pos = 0 };
  chosen_ready_index = none;
  dispatched_ready_index = some 0;
  ready = (1, unused 2) ∷ [];
  not_ready = (2, unused 0) ∷ [];
}

poll_ready-Callable_example :
    Ends
      (λ found b'.
        Settled watched_table
          (changes ℕ_discrete watched_news (members watched_table watched_busy))
          found
          b'
        × UnbrokenAll {E = ℕ} watched_table watched_feed
            (round_robin watched_table)
            worker
            UnusedIn
            watched_feed-Yields
            b'
        × Callable {E = ℕ} {DE = ℕ} watched_table watched_feed
            (round_robin watched_table)
            worker
            UnusedIn
            watched_feed-Yields
            found
            b')
      (λ e b'.
        Inv watched_table b'
        × UnbrokenAll {E = ℕ} watched_table watched_feed
            (round_robin watched_table)
            worker
            UnusedIn
            watched_feed-Yields
            b')
      (poll_ready {DE = ℕ} watched_table watched_feed
        (round_robin watched_table)
        (watched worker).poll_ready
        3
        watched_busy)
poll_ready-Callable_example =
    poll_ready-Callable watched_table watched_feed (round_robin watched_table) worker UnusedIn
      watched_feed-Yields watched_busy watched_news none 3
      (record {
        once = λ k. ground arith;
        chosen = λ i e. absurd (cc);
        dispatched = λ i e. ground arith;
      })
      (record { ready = (refl, tt); not_ready = (refl, tt); fresh = (refl, tt) })
      (round_robin-IsInRange watched_table) (_, refl, (_, refl, (_, refl))) (omega arith)

abbrev services : List (Watched ℕ)
services = unused 0 ∷ unused 2 ∷ []

poll_ready-round_robin_example :
    Ends
      (λ found b'.
        ((k : ℕ) → members watched_table b' k ≡ keys 2 k)
        × IsListed watched_table worker services b'
        × UnbrokenAll {E = ℕ} {DE = Unit {0}} watched_table listed
            (Choose.round_robin watched_table)
            worker
            Unused
            listed-Yields
            b'
        × Callable {E = ℕ} watched_table listed
            (Choose.round_robin watched_table)
            worker
            Unused
            listed-Yields
            found
            b'
        × (found ≡ false → b'.ready ≡ []))
      (λ e b'.
        Inv watched_table b'
        × IsListed watched_table worker services b'
        × UnbrokenAll {E = ℕ} {DE = Unit {0}} watched_table listed
            (Choose.round_robin watched_table)
            worker
            Unused
            listed-Yields
            b')
      (poll_ready {E = ℕ} watched_table listed
        (Choose.round_robin watched_table)
        (watched worker).poll_ready
        3
        (balancer watched_table (new_list services)))
poll_ready-round_robin_example =
    poll_ready-round_robin watched_table worker services 3 (refl, (refl, tt)) (omega arith)
