-- ===== src/Budget/Run.antt =====
-- Deposits and withdrawals of tower-retry/src/budget.rs, one after the other.
use pants_tower.Base.{ℕ, ◌+◌, ◌^◌, ◌≤◌, ◌≡◌, true, false, arith, ◌⊎◌}
use pants_tower.Base.Int.{
  ℤ, pos, IsSmall, saturating_add_small, wrapping_add, wrapping_add_small, int_laws, ◌+ℤ◌, ◌-ℤ◌,
  ◌≤ℤ◌, +ℤ-IsSmall, +ℤ_parts, -ℤ_parts, eq_of_parts,
}
use pants_tower.Budget.{Bucket, expire, add_to_writer, sum, sum_slots, put, try_get}

-- No sum of the bucket comes near the ends of `isize`: the writer is within `m`.
pub record IsModest (m : ℕ) (b : Bucket) : Type 0 where
  pub writer : IsSmall m b.writer
  pub slots : IsSmall (2 ^ 60) (sum_slots (pos 0) b.slots)
  pub reserve : IsSmall (2 ^ 60) b.reserve

sum_modest :
    (m : ℕ) (b : Bucket)
    → IsModest m b
    → m ≤ 2 ^ 60
    → sum b ≡ b.writer +ℤ sum_slots (pos 0) b.slots +ℤ b.reserve
unfolding sum
sum_modest m b h l =
    let s = sum_slots (pos 0) b.slots in
    rw (saturating_add_small m (2 ^ 60) b.writer s h.writer h.slots (omega arith)) (
      saturating_add_small (m + 2 ^ 60) (2 ^ 60) (b.writer +ℤ s) b.reserve
        (+ℤ-IsSmall m (2 ^ 60) b.writer s h.writer h.slots) h.reserve (omega arith))

add_to_writer_lem :
    (m k : ℕ) (amt : ℤ) (b : Bucket)
    → IsModest m b
    → IsSmall k amt
    → m + k ≤ 2 ^ 60
    → (sum (add_to_writer amt b) ≡ sum b +ℤ amt) × IsModest (m + k) (add_to_writer amt b)
unfolding add_to_writer
add_to_writer_lem m k amt b h a l =
    let e : wrapping_add b.writer amt ≡ b.writer +ℤ amt =
      wrapping_add_small m k b.writer amt h.writer a (omega arith) in
    let small : IsSmall (m + k) (wrapping_add b.writer amt) =
      rw e (+ℤ-IsSmall m k b.writer amt h.writer a) in
    let modest : IsModest (m + k) (add_to_writer amt b) = record {
      writer = small;
      slots = h.slots;
      reserve = h.reserve;
    } in
    (
      rw (sum_modest (m + k) (add_to_writer amt b) modest l, sum_modest m b h (omega arith), e)
          (omega int_laws),
      modest,
    )

-- A deposit raises the balance by its amount, once what has expired is gone, and with counters far
-- from the ends of `isize`.
pub sum-put :
    (now m d : ℕ) (b : Bucket)
    → IsModest m (expire now b)
    → m + d ≤ 2 ^ 60
    → (sum (put now (pos d) b) ≡ sum (expire now b) +ℤ pos d) × IsModest (m + d) (put now (pos d) b)
unfolding put
sum-put now m d b h l = add_to_writer_lem m d (pos d) (expire now b) h (omega arith) l

-- Once what has expired is gone, and with counters far from the ends of `isize`, a withdrawal is
-- granted exactly when the balance covers it. Where it is granted, the balance falls by its
-- amount; where it is refused, nothing else changes.
pub sum-try_get :
    (now m w : ℕ) (b : Bucket)
    → IsModest m (expire now b)
    → m + w ≤ 2 ^ 60
    → let (granted, b') = try_get now (pos w) b in
      ((granted ≡ true)
        × (pos w ≤ℤ sum (expire now b))
        × (sum b' ≡ sum (expire now b) -ℤ pos w)
        × IsModest (m + w) b')
      ⊎ ((granted ≡ false) × (¬ (pos w ≤ℤ sum (expire now b))) × (b' ≡ expire now b))
unfolding try_get
sum-try_get now m w b h l = ground (
  arith,
  add_to_writer_lem m w (pos 0 -ℤ pos w) (expire now b) h,
  -ℤ_parts (pos 0) (pos w),
  +ℤ_parts (sum (expire now b)) (pos 0 -ℤ pos w),
  -ℤ_parts (sum (expire now b)) (pos w),
  eq_of_parts (sum (expire now b) +ℤ (pos 0 -ℤ pos w)) (sum (expire now b) -ℤ pos w),
)
