-- ===== src/Budget.antt =====
-- tower-retry/src/budget.rs: a token bucket whose deposits expire slot by slot. Times are
-- nanoseconds of a clock that does not run backwards; every operation reads it once, as `now`.
pub mod Expire
pub mod Slots
pub mod Run
pub mod Window
mod Tests
use pants_tower.Base.{
  ℕ, zero, suc, ◌+◌, ◌-◌, ◌*◌, ◌/◌, ◌%◌, ◌^◌, Bool, true, false, ◌&&◌, List, [], ◌∷◌, Option, none,
  some, if◌then◌else◌, ltb, leb, length, set, replicate,
}
use pants_tower.Base.Int.{ℤ, pos, leb_ℤ, ◌-ℤ◌, saturating_add, saturating_mul, wrapping_add}
use pants_tower.Service.{Result, success, failure}

pub record Generation : Type 0 where
  pub index : ℕ
  pub time : ℕ

pub record Bucket : Type 0 where
  pub generation : Generation
  pub reserve : ℤ
  pub slots : List ℤ
  pub window : ℕ
  pub writer : ℤ

pub record Budget : Type 0 where
  pub bucket : Bucket
  pub deposit_amount : ℤ
  pub withdraw_amount : ℤ

pub data Overdrawn : Type 0 where
  overdrawn : Overdrawn

-- `while diff > window { slots[idx] = 0; diff -= window; idx += 1 }` with fuel.
pub zero_slots : ℕ → ℕ → ℕ → ℕ → List ℤ → ℕ × List ℤ
zero_slots zero window diff idx slots = (idx, slots)
zero_slots (suc fuel) window diff idx slots =
    let rest =
      zero_slots fuel window (diff - window) ((idx + 1) % length slots) (set slots idx (pos 0)) in
    if ltb window diff then rest else (idx, slots)

-- The time that has passed is fuel enough, since a window is not empty.
commit : ℕ → Bucket → Bucket
commit now b =
    let index = b.generation.index in
    let diff = now - b.generation.time in
    let slots = set b.slots index b.writer in
    let (idx, slots') = zero_slots diff b.window diff ((index + 1) % length slots) slots in
    record b { generation = record { index = idx; time = now }; slots = slots'; writer = pos 0 }

pub expire : ℕ → Bucket → Bucket
unfolding commit
expire now b = if ltb (now - b.generation.time) b.window then b else commit now b

-- `iter().fold(0, isize::saturating_add)`.
pub sum_slots : ℤ → List ℤ → ℤ
sum_slots acc [] = acc
sum_slots acc (x ∷ xs) = sum_slots (saturating_add acc x) xs

pub sum : Bucket → ℤ
sum b = saturating_add (saturating_add b.writer (sum_slots (pos 0) b.slots)) b.reserve

-- `writer.fetch_add(amt)`.
add_to_writer : ℤ → Bucket → Bucket
add_to_writer amt b = record b { writer = wrapping_add b.writer amt }

pub put : ℕ → ℤ → Bucket → Bucket
unfolding add_to_writer
put now amt b = add_to_writer amt (expire now b)

pub try_get : ℕ → ℤ → Bucket → Bool × Bucket
unfolding add_to_writer
try_get now amt b =
    let b' = expire now b in
    if leb_ℤ amt (sum b') then (true, add_to_writer (pos 0 -ℤ amt) b') else (false, b')

pub deposit : ℕ → Budget → Budget
deposit now self = record self { bucket = put now self.deposit_amount self.bucket }

pub withdraw : ℕ → Budget → Result (Unit {0}) Overdrawn × Budget
withdraw now self =
    let (granted, b) = try_get now self.withdraw_amount self.bucket in
    (if granted then success tt else failure overdrawn, record self { bucket = b })

-- The `f32` of `Budget::new`, and what it does with it. `recip a x` is `(a / x) as isize`.
pub record Percent (F : Type 0) : Type 0 where
  pub is_zero : F → Bool
  pub at_least_zero : F → Bool
  pub at_most_one : F → Bool
  pub at_most_thousand : F → Bool
  pub recip : ℕ → F → ℤ

abbrev pub second : ℕ
second = 1000000000

abbrev pub windows : ℕ
windows = 10

module _ {F : Type 0} (pc : Percent F) where
  -- `(deposit_amount, withdraw_amount)`.
  amounts : F → ℤ × ℤ
  amounts x =
      if pc.is_zero x
      then (pos 0, pos 1)
      else if pc.at_most_one x
      then (pos 1, pc.recip 1 x)
      else (pos 1000, pc.recip 1000 x)

  assertions : ℕ → ℕ → F → Bool
  assertions ttl min_per_sec x =
      leb second ttl
      && leb ttl (60 * second)
      && pc.at_least_zero x
      && pc.at_most_thousand x
      && ltb min_per_sec (2 ^ 31 - 1)

  -- `none` is a failed assertion.
  pub new : ℕ → ℕ → ℕ → F → Option Budget
  unfolding amounts assertions
  new now ttl min_per_sec x =
      let (d, w) = amounts x in
      if assertions ttl min_per_sec x
      then some (record {
        bucket = record {
          generation = record { index = 0; time = now };
          reserve = saturating_mul (saturating_mul (pos min_per_sec) (pos (ttl / second))) w;
          slots = replicate windows (pos 0);
          window = ttl / windows;
          writer = pos 0;
        };
        deposit_amount = d;
        withdraw_amount = w;
      })
      else none
