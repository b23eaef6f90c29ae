-- ===== src/Budget/Expire.antt =====
-- The loop of `Bucket::expire` in tower-retry/src/budget.rs, and what it keeps.
use pants_tower.Base.{
  ℕ, zero, suc, ◌+◌, ◌-◌, ◌%◌, ◌≤◌, ◌<◌, ◌≡◌, List, length, set, arith, length-set,
}
use pants_tower.Base.Int.{ℤ, pos}
use pants_tower.Budget.{Bucket, zero_slots, expire}

-- The slots are ten, the current one is among them, and a window takes time.
pub record IsRing (b : Bucket) : Type 0 where
  pub ten : length b.slots ≡ 10
  pub inside : b.generation.index < 10
  pub ticking : 0 < b.window

zero_slots_ring :
    (fuel window diff idx : ℕ) (slots : List ℤ)
    → length slots ≡ 10
    → idx < 10
    → let (idx', slots') = zero_slots fuel window diff idx slots in
      (length slots' ≡ 10) × (idx' < 10)
unfolding zero_slots
zero_slots_ring zero window diff idx slots h i = (h, i)
zero_slots_ring (suc fuel) window diff idx slots h i = ground (
  arith,
  length-set slots idx (pos 0),
  zero_slots_ring fuel window (diff - window) ((idx + 1) % length slots) (set slots idx (pos 0)),
)

-- `expire` keeps ten slots, with the index of the current one among them, and a window that takes
-- time.
pub expire-IsRing : (now : ℕ) (b : Bucket) → IsRing b → IsRing (expire now b)
unfolding expire
expire-IsRing now b r =
    let d = now - b.generation.time in
    let slots = set b.slots b.generation.index b.writer in
    ground (
      arith,
      length-set b.slots b.generation.index b.writer,
      zero_slots_ring d b.window d ((b.generation.index + 1) % length slots) slots,
    )

-- Where a window takes time, and the fuel of the loop that clears slots is at least the time that
-- has passed, one more turn of fuel changes nothing.
zero_slots_enough :
    (fuel window diff idx : ℕ) (slots : List ℤ)
    → 0 < window
    → diff ≤ fuel
    → zero_slots (suc fuel) window diff idx slots ≡ zero_slots fuel window diff idx slots
unfolding zero_slots
zero_slots_enough zero window diff idx slots w h = ground arith
zero_slots_enough (suc fuel) window diff idx slots w h = ground (
  arith,
  zero_slots_enough fuel window (diff - window) ((idx + 1) % length slots) (set slots idx (pos 0)),
)
