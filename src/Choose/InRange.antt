-- ===== src/Choose/InRange.antt =====
-- What the strategies of tower-balance/src/choose promise to the balancer.
use pants_tower.Base.{
  ℕ, zero, suc, List, [], ◌∷◌, ◌+◌, ◌-◌, ◌*◌, ◌%◌, ◌≤◌, ◌<◌, ◌≡◌, ◌≢◌, refl, ap, ◌∙◌, ◌⊎◌, inl, inr,
  true, false, none, some, length, get_elem?, get_elem?_lt, ltb, if◌then◌else◌, usize_mod, arith,
  Bool-cases,
}
use native.Mathlib.Nat.{add_assoc, mod-add-mod, mod-eq_of_lt, mod-eq-sub-mod}
use pants_tower.IndexMap.{IndexMap}
use pants_tower.Choose.{
  Replicas, Choose, Load, replica, RoundRobin, choose_next, round_robin, random_pair, lesser,
  choose_lesser,
}

-- Of two or more services the strategy chooses one, and does not panic.
module _ {K V M : Type 0} {dec : Discrete K} (maps : IndexMap K V M dec) where
  abbrev pub IsInRange : {C : Type 0} → Choose C M → Type 0
  IsInRange {C} strategy =
      (c : C) (r : Replicas M)
      → 2 ≤ length (maps.entries r.map)
      → (i : ℕ) × (c' : C) × (strategy.choose c r ≡ some (i, c'))
        × (i < length (maps.entries r.map))

  replica-lt : (r : Replicas M) (i : ℕ) → i < maps.len r.map → (x : V) × (replica maps r i ≡ some x)
  unfolding replica
  replica-lt r i h =
      let ((k, v), at) = get_elem?_lt (maps.entries r.map) i (omega (arith, maps.len_lem r.map)) in
      (v, ground (arith, at, maps.get_index_lem r.map i))

  -- Of two or more services the round-robin strategy chooses one by an index in range, with no
  -- panic.
  pub round_robin-IsInRange : IsInRange (round_robin maps)
  unfolding round_robin
  round_robin-IsInRange c r h =
      let n = maps.len r.map in
      let e = maps.len_lem r.map in
      (c.pos % n, record { pos = (c.pos % n + 1) % n }, refl, grind (arith, e))

-- Calls with the services unchanged.
pub choose_times :
    {K V M : Type 0} {dec : Discrete K} (maps : IndexMap K V M dec)
    → ℕ
    → RoundRobin
    → Replicas M
    → List ℕ
choose_times maps zero c r = []
choose_times maps (suc n) c r = elim (choose_next maps c r) [
  | none ↦ []
  | some (i, c') ↦ i ∷ choose_times maps n c' r
]

-- While the services stay, and there is one, the strategy goes round them: its choice number i is
-- `pos` + i modulo their number.
pub choose_times_lem :
    {K V M : Type 0} {dec : Discrete K} (maps : IndexMap K V M dec) (n i : ℕ) (c : RoundRobin)
    (r : Replicas M)
    → 0 < maps.len r.map
    → i < n
    → get_elem? (choose_times maps n c r) i ≡ some ((c.pos + i) % maps.len r.map)
unfolding choose_times choose_next
choose_times_lem maps zero i c r h l = absurd (omega arith)
choose_times_lem maps (suc n) zero c r h l = ap some (ap (λ x. x % maps.len r.map) (omega arith))
choose_times_lem maps (suc n) (suc i) c r h l =
    let len = maps.len r.map in
    choose_times_lem maps n i (record { pos = (c.pos % len + 1) % len }) r h (omega arith)
    ∙ ap some (turn c.pos i len)
  where
    turn : (p i len : ℕ) → ((p % len + 1) % len + i) % len ≡ (p + suc i) % len
    turn p i len =
        mod-add-mod (p % len + 1) len i
        ∙ ap (λ x. x % len) (add_assoc (p % len) 1 i)
        ∙ mod-add-mod p len (1 + i)
        ∙ ap (λ x. x % len) (omega arith)

wrap_distinct : (n x d : ℕ) → x < n → 0 < d → d < n → ((x + d) % n < n) × (x ≢ (x + d) % n)
wrap_distinct n x d h l k = elim (Bool-cases (ltb (x + d) n)) [
  | inl e ↦ ground (arith, mod-eq_of_lt {n = x + d} {m = n})
  | inr e ↦ ground (arith, mod-eq-sub-mod {n = x + d} {m = n}, mod-eq_of_lt {n = x + d - n} {m = n})
]

-- For two or more services, where twice their number fits in a `usize`, the two indices are in
-- range and differ.
random_pair_distinct :
    {R : Type 0} (gen : R → ℕ × R) (rng : R) (len : ℕ)
    → 2 ≤ len
    → 2 * len ≤ usize_mod
    → let (a, b, rng') = random_pair gen rng len in (a < len) × (b < len) × (a ≢ b)
unfolding random_pair
random_pair_distinct gen rng len h l =
    let (x, rng') = gen rng in
    let (y, rng'') = gen rng' in
    let idx0 = x % len in
    let delta = y % (len - 1) + 1 in
    let b : idx0 < len = grind arith in
    let b' : delta < len = grind arith in
    let unwrapped : (idx0 + delta) % usize_mod ≡ idx0 + delta = omega arith in
    let (c, d) = wrap_distinct len idx0 delta b (omega arith) b' in
    (b, rw unwrapped c, rw unwrapped d)

-- Of two or more services, where twice their number fits in a `usize`, the strategy draws two
-- distinct ones, does not panic, and chooses the first where its load compares as less or equal,
-- and the second otherwise. The index is in range.
pub choose_lesser_lem :
    {K V M L R : Type 0} {dec : Discrete K} (maps : IndexMap K V M dec) (loads : Load V L)
    (gen : R → ℕ × R) (rng : R) (r : Replicas M)
    → 2 ≤ maps.len r.map
    → 2 * maps.len r.map ≤ usize_mod
    → let (a, b, rng') = random_pair gen rng (maps.len r.map) in
      (x : V) × (y : V) × (i : ℕ) × (replica maps r a ≡ some x)
      × (replica maps r b ≡ some y)
      × (a ≢ b)
      × (choose_lesser maps loads gen rng r ≡ some (i, rng'))
      × (((loads.le (loads.load x) (loads.load y) ≡ true) × (i ≡ a))
          ⊎ ((loads.le (loads.load x) (loads.load y) ≡ false) × (i ≡ b)))
      × (i < maps.len r.map)
unfolding choose_lesser lesser
choose_lesser_lem maps loads gen rng r h l =
    let (a, b, rng') = random_pair gen rng (maps.len r.map) in
    let (ha, hb, ne) = random_pair_distinct gen rng (maps.len r.map) h l in
    let (x, ex) = replica-lt maps r a ha in
    let (y, ey) = replica-lt maps r b hb in
    let i : ℕ = if loads.le (loads.load x) (loads.load y) then a else b in
    (x, y, i, ex, ey, ne, ground (arith, ex, ey), ground arith, ground arith)
