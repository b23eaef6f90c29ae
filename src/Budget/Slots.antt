-- ===== src/Budget/Slots.antt =====
-- Which slots the loop of `Bucket::expire` in tower-retry/src/budget.rs clears.
use pants_tower.Base.{
  ℕ, zero, suc, ◌+◌, ◌-◌, ◌*◌, ◌%◌, ◌^◌, ◌≤◌, ◌<◌, ◌≡◌, refl, ◌≢◌, List, some, length, set,
  replicate, get_elem?, arith, length-set, get_elem?-set_self, get_elem?-set_ne, eq-replicate,
}
use pants_tower.Base.Int.{ℤ, pos, IsSmall, saturating_add, saturating_add_small, int_laws, ◌+ℤ◌}
use pants_tower.Budget.{Bucket, zero_slots, expire, sum, sum_slots}
use pants_tower.Budget.Expire.{IsRing, expire-IsRing}

zero_add_small : (m : ℕ) (a : ℤ) → IsSmall m a → m < 2 ^ 63 → saturating_add (pos 0) a ≡ a
zero_add_small m a h l =
    rw (saturating_add_small 0 m (pos 0) a (omega arith) h (omega arith)) (omega int_laws)

-- A slot that is clear stays so.
zero_slots_clear :
    (fuel window diff idx i : ℕ) (slots : List ℤ)
    → i < length slots
    → get_elem? slots i ≡ some (pos 0)
    → get_elem? (zero_slots fuel window diff idx slots).1 i ≡ some (pos 0)
unfolding zero_slots
zero_slots_clear zero window diff idx i slots b h = h
zero_slots_clear (suc fuel) window diff idx i slots b h = ground (
  arith,
  length-set slots idx (pos 0),
  get_elem?-set_self slots idx (pos 0),
  get_elem?-set_ne slots idx i (pos 0),
  zero_slots_clear fuel window (diff - window) ((idx + 1) % length slots) i (set slots idx (pos 0)),
)

-- Round j clears the slot j places after the first.
zero_slots_cleared :
    (fuel window diff idx j : ℕ) (slots : List ℤ)
    → length slots ≡ 10
    → idx < 10
    → 0 < window
    → diff ≤ fuel
    → (j + 1) * window < diff
    → get_elem? (zero_slots fuel window diff idx slots).1 ((idx + j) % 10) ≡ some (pos 0)
unfolding zero_slots
zero_slots_cleared zero window diff idx j slots l b w f h = absurd (omega arith)
zero_slots_cleared (suc fuel) window diff idx zero slots l b w f h =
    let e : (idx + 0) % 10 ≡ idx = omega arith in
    rw e (
      ground (
        arith,
        length-set slots idx (pos 0),
        get_elem?-set_self slots idx (pos 0),
        zero_slots_clear fuel window (diff - window) ((idx + 1) % length slots) idx
            (set slots idx (pos 0)),
      ))
zero_slots_cleared (suc fuel) window diff idx (suc j) slots l b w f h =
    let e : (idx + suc j) % 10 ≡ ((idx + 1) % 10 + j) % 10 = omega arith in
    rw e (
      ground (
        arith,
        length-set slots idx (pos 0),
        zero_slots_cleared fuel window (diff - window) ((idx + 1) % 10) j (set slots idx (pos 0)),
      ))

-- The slot m places after the first is kept while no more than m + 1 windows have passed.
zero_slots_kept :
    (fuel window diff idx m : ℕ) (slots : List ℤ)
    → length slots ≡ 10
    → idx < 10
    → m < 10
    → diff ≤ (m + 1) * window
    → get_elem? (zero_slots fuel window diff idx slots).1 ((idx + m) % 10)
      ≡ get_elem? slots ((idx + m) % 10)
unfolding zero_slots
zero_slots_kept zero window diff idx m slots l b mb h = refl
zero_slots_kept (suc fuel) window diff idx zero slots l b mb h = ground arith
zero_slots_kept (suc fuel) window diff idx (suc m) slots l b mb h =
    let e : (idx + suc m) % 10 ≡ ((idx + 1) % 10 + m) % 10 = omega arith in
    let ne : idx ≢ ((idx + 1) % 10 + m) % 10 = omega arith in
    rw e (
      ground (
        arith,
        ne,
        length-set slots idx (pos 0),
        get_elem?-set_ne slots idx (((idx + 1) % 10 + m) % 10) (pos 0),
        zero_slots_kept fuel window (diff - window) ((idx + 1) % 10) m (set slots idx (pos 0)),
      ))

-- Where at least one and at most ten windows have passed, `expire` leaves what the writer had
-- gathered in the slot of its generation, and the writer at zero.
expire_commits :
    (now : ℕ) (b : Bucket)
    → IsRing b
    → b.window ≤ now - b.generation.time
    → now - b.generation.time ≤ 10 * b.window
    → (get_elem? (expire now b).slots b.generation.index ≡ some b.writer)
      × ((expire now b).writer ≡ pos 0)
unfolding expire
expire_commits now b r h k =
    let g = b.generation.index in
    let d = now - b.generation.time in
    let back : ((g + 1) % 10 + 9) % 10 ≡ g = omega arith in
    ground (
      arith,
      back,
      length-set b.slots g b.writer,
      get_elem?-set_self b.slots g b.writer,
      zero_slots_kept d b.window d ((g + 1) % 10) 9 (set b.slots g b.writer),
    )

-- After more than ten windows every slot is clear.
expire_idle :
    (now : ℕ) (b : Bucket)
    → IsRing b
    → 10 * b.window < now - b.generation.time
    → (i : ℕ) → i < 10
    → get_elem? (expire now b).slots i ≡ some (pos 0)
unfolding expire
expire_idle now b r h i l =
    let g = b.generation.index in
    let d = now - b.generation.time in
    let j : ℕ = (i + 10 - (g + 1) % 10) % 10 in
    let there : ((g + 1) % 10 + j) % 10 ≡ i = omega arith in
    let late : (j + 1) * b.window < d = grind arith in
    ground (
      arith,
      there,
      late,
      length-set b.slots g b.writer,
      zero_slots_cleared d b.window d ((g + 1) % 10) j (set b.slots g b.writer),
    )

expire_late :
    (now : ℕ) (b : Bucket)
    → b.window ≤ now - b.generation.time
    → ((expire now b).writer ≡ pos 0) × ((expire now b).reserve ≡ b.reserve)
unfolding expire
expire_late now b h = ground arith

sum_slots-replicate : sum_slots (pos 0) (replicate 10 (pos 0)) ≡ pos 0
unfolding sum_slots saturating_add ◌+ℤ◌
sum_slots-replicate = refl

-- After more than ten windows with no use of a bucket with ten slots, and with a reserve far from
-- the ends of `isize`, the balance is the reserve again.
pub sum-expire_idle :
    (now : ℕ) (b : Bucket)
    → IsRing b
    → IsSmall (2 ^ 62) b.reserve
    → 10 * b.window < now - b.generation.time
    → sum (expire now b) ≡ b.reserve
unfolding sum
sum-expire_idle now b r s h =
    let cleared : (expire now b).slots ≡ replicate 10 (pos 0) =
      eq-replicate 10 (expire now b).slots (pos 0) (expire-IsRing now b r).ten
        (expire_idle now b r h) in
    let (w, res) = expire_late now b (omega arith) in
    rw (w, res, cleared, sum_slots-replicate, zero_add_small 0 (pos 0) (omega arith) (omega arith))
      (zero_add_small (2 ^ 62) b.reserve s (omega arith))
