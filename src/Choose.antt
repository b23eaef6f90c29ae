-- ===== src/Choose.antt =====
-- tower-balance/src/choose: the trait of a strategy, and the two strategies of the crate.
pub mod InRange
mod Tests
use pants_tower.Base.{
  ℕ, ◌+◌, ◌-◌, ◌%◌, Bool, true, false, Option, none, some, ltb, if◌then◌else◌, usize_mod,
}
use pants_tower.Service.{Result, success, failure}
use pants_tower.IndexMap.{IndexMap}

-- choose/mod.rs.
pub record Replicas (M : Type 0) : Type 0 where
  pub map : M

pub data TooFew : Type 0 where
  too_few : TooFew

-- `none` is a panic.
pub record Choose (C M : Type 0) : Type 0 where
  pub choose : C → Replicas M → Option (ℕ × C)

-- `Load` of load/mod.rs, with the comparison of its metric.
pub record Load (V L : Type 0) : Type 0 where
  pub load : V → L
  pub le : L → L → Bool

module _ {K V M : Type 0} {dec : Discrete K} (maps : IndexMap K V M dec) where
  unfoldable pub replicas : M → Result (Replicas M) TooFew
  replicas m = if ltb (maps.len m) 2 then failure too_few else success (record { map = m })

  -- `Index for Replicas`: out of bounds it panics.
  pub replica : Replicas M → ℕ → Option V
  replica r idx = elim (maps.get_index r.map idx) [ none ↦ none | some (key, svc) ↦ some svc ]

-- choose/round_robin.rs.
pub record RoundRobin : Type 0 where
  pub pos : ℕ

module _ {K V M : Type 0} {dec : Discrete K} (maps : IndexMap K V M dec) where
  pub choose_next : RoundRobin → Replicas M → Option (ℕ × RoundRobin)
  choose_next self nodes =
      let len = maps.len nodes.map in
      let idx = self.pos % len in some (idx, record { pos = (idx + 1) % len })

  pub round_robin : Choose RoundRobin M
  unfolding choose_next
  round_robin = record { choose = choose_next }

-- choose/p2c.rs. `gen` draws a `usize` from the random source.
pub random_pair : {R : Type 0} → (R → ℕ × R) → R → ℕ → ℕ × ℕ × R
random_pair gen rng len =
    let (x, rng') = gen rng in
    let (y, rng'') = gen rng' in
    let idx0 = x % len in
    let delta = y % (len - 1) + 1 in (idx0, ((idx0 + delta) % usize_mod) % len, rng'')

module _ {K V M L R : Type 0} {dec : Discrete K} (maps : IndexMap K V M dec) (loads : Load V L)
    (gen : R → ℕ × R) where
  lesser : ℕ → ℕ → Option V → Option V → Option ℕ
  lesser a b none y = none
  lesser a b (some x) none = none
  lesser a b (some x) (some y) = some (if loads.le (loads.load x) (loads.load y) then a else b)

  pub choose_lesser : R → Replicas M → Option (ℕ × R)
  choose_lesser rng r =
      let (a, b, rng') = random_pair gen rng (maps.len r.map) in
      elim (lesser a b (replica maps r a) (replica maps r b)) [
        | none ↦ none
        | some idx ↦ some (idx, rng')
      ]

  p2c : Choose R M
  unfolding choose_lesser
  p2c = record { choose = choose_lesser }
