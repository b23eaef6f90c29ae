-- ===== src/Balance/Ready.antt =====
-- The invariant of tower-balance/src/lib.rs, and the loops over its services.
use pants_tower.Base.{
  ℕ, zero, suc, ◌≤◌, ◌<◌, ◌≡◌, refl, inl, inr, Bool, true, false, Option, none, some, arith, length,
  Bool-cases, ◌==◌,
}
use pants_tower.Service.{Poll}
use pants_tower.IndexMap.{IndexMap}
use pants_tower.Machine.{Outcome, returns, fails, panics, hangs, Method, Ends, bind, bind-Ends}
use pants_tower.Choose.{Choose, replicas}
use pants_tower.Choose.InRange.{IsInRange}
use pants_tower.Discover.{Discover}
use pants_tower.Balance.{
  Balance, Error, choose_index, keep_choice, unless_found, choose_once, choose_and_poll_ready,
  poll_ready_index, promote_at, promote_below,
}
use pants_tower.Balance.Moves.{
  members, num_ready, Pending, Polled, Promoted, poll_ready_index-Polled, promote_at-Promoted,
}

module _ {K V M : Type 0} {dec : Discrete K} (maps : IndexMap K V M dec) where
  -- No endpoint is in the maps twice, and the indices that are held name ready services.
  pub record Inv {D C : Type 0} (b : Balance D C M) : Type 0 where
    pub once : (k : K) → members maps b k ≤ 1
    pub chosen : (i : ℕ) → b.chosen_ready_index ≡ some i → i < num_ready maps b
    pub dispatched : (i : ℕ) → b.dispatched_ready_index ≡ some i → i < num_ready maps b

  -- A ready service is chosen, and `g` counts the entries.
  pub record Chosen {D C : Type 0} (g : K → ℕ) (b : Balance D C M) : Type 0 where
    pub counted : (k : K) → members maps b k ≡ g k
    pub dispatched : b.dispatched_ready_index ≡ none
    pub index : (i : ℕ) × (b.chosen_ready_index ≡ some i) × (i < num_ready maps b)

  -- How the choice ends: with a service chosen, or with no ready service left.
  pub data Settled {D C : Type 0} (g : K → ℕ) (found : Bool) (b : Balance D C M) : Type 0 where
    chosen : found ≡ true → Chosen g b → Settled g found b
    exhausted : found ≡ false → Pending maps g b → num_ready maps b ≡ 0 → Settled g found b

  pub Pending-Inv :
      {D C : Type 0} (g : K → ℕ) (b : Balance D C M)
      → ((k : K) → g k ≤ 1)
      → Pending maps g b
      → Inv b
  Pending-Inv g b h p = record {
    once = λ k. omega (arith, p.counted k, h k);
    chosen = λ i e. absurd (cc (p.chosen));
    dispatched = λ i e. absurd (cc (p.dispatched));
  }

  pub Chosen-Inv :
      {D C : Type 0} (g : K → ℕ) (b : Balance D C M) → ((k : K) → g k ≤ 1) → Chosen g b → Inv b
  Chosen-Inv g b h p =
      let (j, e, l) = p.index in
      record {
        once = λ k. omega (arith, p.counted k, h k);
        chosen = λ i e'. ground (arith, e, l);
        dispatched = λ i e'. absurd (cc (p.dispatched));
      }

module _ {D C K V M E DE : Type 0} {dec : Discrete K} (maps : IndexMap K V M dec)
    (disc : Discover D K V DE) (strategy : Choose C M) (f : V → Poll (Unit {0}) E × V) (g : K → ℕ)
    (once : (k : K) → g k ≤ 1) where
  pub promote_below-Ends :
      (n : ℕ) (b : Balance D C M)
      → Pending maps g b
      → n ≤ length (maps.entries b.not_ready)
      → Ends
          (λ u b'. Pending maps g b')
          (λ e b'. Pending maps g b')
          (promote_below maps disc strategy f n b)
  unfolding promote_below
  promote_below-Ends zero b p h = p
  promote_below-Ends (suc i) b p h =
      go (promote_at maps disc strategy f i b)
        (promote_at-Promoted maps disc strategy f g once b i p (omega arith)) (promote_below-Ends i)
    where
      go :
          (o : Outcome (Balance D C M) (Unit {0}) (Error E DE))
          → Promoted maps disc strategy f g once i o
          → ((b' : Balance D C M)
              → Pending maps g b'
              → i ≤ length (maps.entries b'.not_ready)
              → Ends
                  (λ u b'. Pending maps g b')
                  (λ e b'. Pending maps g b')
                  (promote_below maps disc strategy f i b'))
          → Ends
              (λ u b'. Pending maps g b')
              (λ e b'. Pending maps g b')
              (bind o (λ u. promote_below maps disc strategy f i))
      go (returns u b') h k = k b' h.0 h.1
      go (fails e b') h k = h
      go panics h k = absurd h
      go hangs h k = absurd h

  -- A service is tried: it is chosen, or there is one ready service less.
  Tried : ℕ → Bool → Balance D C M → Type 0
  Tried n true b = Chosen maps g b
  Tried n false b = Pending maps g b × (suc (num_ready maps b) ≡ n)

  choose_index_lem :
      (b : Balance D C M)
      → IsInRange maps strategy
      → 0 < num_ready maps b
      → (i : ℕ) × (c : C) × (choose_index maps disc strategy f b
          ≡ returns i (record b { chooser = c }))
        × (i < num_ready maps b)
  unfolding choose_index replicas
  choose_index_lem b r h = elim (Bool-cases (maps.len b.ready == 1)) [
    | inl e ↦ (0, b.chooser, ground (arith, e), h)
    | inr e ↦
        let two : 2 ≤ num_ready maps b = ground (arith, maps.len_lem b.ready, e) in
        let r' = r b.chooser (record { map = b.ready }) two in
        (r'.0, r'.1, ground (arith, maps.len_lem b.ready, e, r'.2), r'.3)
  ]

  keep_choice-Tried :
      (i n : ℕ) (o : Outcome (Balance D C M) (Option Bool) (Error E DE))
      → Polled maps disc strategy f g n o
      → i < n
      → Ends (Tried n) (λ e b'. Pending maps g b') (bind o (keep_choice maps disc strategy f i))
  unfolding keep_choice Tried
  keep_choice-Tried i n (returns none b') h l = absurd h
  keep_choice-Tried i n (returns (some true) b') h l = record {
    counted = h.0.counted;
    dispatched = h.0.dispatched;
    index = (i, refl, omega (arith, h.1));
  }
  keep_choice-Tried i n (returns (some false) b') h l = h
  keep_choice-Tried i n (fails e b') h l = h
  keep_choice-Tried i n panics h l = absurd h
  keep_choice-Tried i n hangs h l = absurd h

  choose_once-Ends :
      (b : Balance D C M)
      → IsInRange maps strategy
      → Pending maps g b
      → 0 < num_ready maps b
      → Ends
          (Tried (num_ready maps b))
          (λ e b'. Pending maps g b')
          (choose_once maps disc strategy f b)
  unfolding choose_once
  choose_once-Ends b r p h =
      let (i, c, e, l) = choose_index_lem b r h in
      let b' = record b { chooser = c } in
      rw e (
        keep_choice-Tried i (num_ready maps b) (poll_ready_index maps disc strategy f i b')
          (poll_ready_index-Polled maps disc strategy f g once b' i
            (record { counted = p.counted; chosen = p.chosen; dispatched = p.dispatched }) l)
          l)

  -- Each turn settles or makes a ready service fewer, so the fuel is enough.
  pub choose_and_poll_ready-Ends :
      (fuel : ℕ) (b : Balance D C M)
      → IsInRange maps strategy
      → Pending maps g b
      → num_ready maps b < fuel
      → Ends
          (Settled maps g)
          (λ e b'. Pending maps g b')
          (choose_and_poll_ready maps disc strategy f fuel b)
  unfolding choose_and_poll_ready unless_found Tried
  choose_and_poll_ready-Ends zero b r p h = absurd (omega arith)
  choose_and_poll_ready-Ends (suc fuel) b r p h = elim (Bool-cases (maps.len b.ready == 0)) [
    | inl e ↦ rw e (exhausted refl p (ground (arith, maps.len_lem b.ready, e)))
    | inr e ↦
        let some_left : 0 < num_ready maps b = ground (arith, maps.len_lem b.ready, e) in
        rw e (
          bind-Ends (Tried (num_ready maps b)) (Settled maps g) (λ e b'. Pending maps g b')
            (choose_once maps disc strategy f b) _ (choose_once-Ends b r p some_left)
            (next (choose_and_poll_ready maps disc strategy f fuel)
              (λ b' p' l. choose_and_poll_ready-Ends fuel b' r p' l)))
  ]
    where
      next :
          (again : Method (Balance D C M) Bool (Error E DE))
          → ((b' : Balance D C M)
              → Pending maps g b'
              → num_ready maps b' < fuel
              → Ends (Settled maps g) (λ e b'. Pending maps g b') (again b'))
          → (found : Bool) (b' : Balance D C M) → Tried (num_ready maps b) found b'
          → Ends
              (Settled maps g)
              (λ e b'. Pending maps g b')
              (unless_found maps disc strategy f found again b')
      next again k true b' t = chosen refl t
      next again k false b' t = k b' t.0 (omega (arith, t.1))
