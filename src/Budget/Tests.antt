-- ===== src/Budget/Tests.antt =====
-- tower-retry/src/budget.rs with a deposit of one, a price of two, and a window of ten.
use pants_tower.Base.{ℕ, ◌*◌, ◌≡◌, refl, List, [], ◌∷◌, replicate, arith}
use pants_tower.Base.Int.{ℤ, pos, ◌+ℤ◌, ◌≤ℤ◌, saturating_add}
use pants_tower.Budget.{Bucket, Budget, expire, sum, sum_slots}
use pants_tower.Budget.Expire.{IsRing}
use pants_tower.Budget.Slots.{sum-expire_idle}
use pants_tower.Budget.Run.{IsModest}
use pants_tower.Budget.Window.{Op, deposits, withdraws, run, count_deposits, run-balance}

abbrev slots : List ℤ
slots = pos 4 ∷ pos 1 ∷ replicate 8 (pos 0)

abbrev bucket : Bucket
bucket = record {
  generation = record { index = 1; time = 100 };
  reserve = pos 3;
  slots = slots;
  window = 10;
  writer = pos 2;
}

bucket-IsRing : IsRing bucket
bucket-IsRing = omega arith

bucket-IsModest : IsModest 2 bucket
unfolding sum_slots saturating_add ◌+ℤ◌
bucket-IsModest = omega arith

fresh-IsModest : IsModest 2 (expire 105 bucket)
unfolding expire
fresh-IsModest = bucket-IsModest

abbrev budget : Budget
budget = record { bucket = bucket; deposit_amount = pos 1; withdraw_amount = pos 2 }

abbrev history : List (ℕ × Op)
history = (101, deposits) ∷ (105, withdraws) ∷ (109, withdraws) ∷ []

run-balance_example :
    let (n, b') = run history budget in
    sum b'.bucket +ℤ pos (2 * n) ≡ sum bucket +ℤ pos (1 * count_deposits history)
run-balance_example =
    run-balance 1 2 2 history budget refl refl bucket-IsModest (omega arith)
      (omega arith, (omega arith, (omega arith, tt)))

sum_nonneg : pos 0 ≤ℤ sum bucket
unfolding sum sum_slots saturating_add ◌+ℤ◌
sum_nonneg = omega arith

sum-expire_idle_example : sum (expire 201 bucket) ≡ pos 3
sum-expire_idle_example = sum-expire_idle 201 bucket bucket-IsRing (omega arith) (omega arith)
