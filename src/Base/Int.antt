-- ===== src/Base/Int.antt =====
-- Signed integers over the native numbers, under the library's names, and the `isize` of a 64-bit
-- machine as the integers between its two ends.
use pants_tower.Base.{
  ℕ, suc, ◌+◌, ◌-◌, ◌*◌, ◌^◌, ◌≤◌, ◌<◌, ◌≡◌, Bool, arith, ltb, leb, if◌then◌else◌,
}

-- `negsuc n` is -(n + 1).
pub data ℤ : Type 0 where
  pos : ℕ → ℤ
  negsuc : ℕ → ℤ

abbrev pub pos_part : ℤ → ℕ
pos_part (pos n) = n
pos_part (negsuc n) = 0

abbrev pub neg_part : ℤ → ℕ
neg_part (pos n) = 0
neg_part (negsuc n) = suc n

-- a - b, as an integer.
abbrev pub sub_ℕ : ℕ → ℕ → ℤ
sub_ℕ a b = if leb b a then pos (a - b) else negsuc (b - a - 1)

infixl 65 ◌+ℤ◌ ◌-ℤ◌
infix 50 ◌≤ℤ◌
unfoldable pub ◌+ℤ◌ : ℤ → ℤ → ℤ
a +ℤ b = sub_ℕ (pos_part a + pos_part b) (neg_part a + neg_part b)

unfoldable pub ◌-ℤ◌ : ℤ → ℤ → ℤ
a -ℤ b = sub_ℕ (pos_part a + neg_part b) (neg_part a + pos_part b)

abbrev pub ◌≤ℤ◌ : ℤ → ℤ → Type 0
a ≤ℤ b = pos_part a + neg_part b ≤ pos_part b + neg_part a

abbrev pub leb_ℤ : ℤ → ℤ → Bool
leb_ℤ a b = leb (pos_part a + neg_part b) (pos_part b + neg_part a)

pub +ℤ_parts :
    (a b : ℤ)
    → pos_part (a +ℤ b) + neg_part a + neg_part b ≡ neg_part (a +ℤ b) + pos_part a + pos_part b
unfolding ◌+ℤ◌
+ℤ_parts a b = ground arith

pub -ℤ_parts :
    (a b : ℤ)
    → pos_part (a -ℤ b) + neg_part a + pos_part b ≡ neg_part (a -ℤ b) + pos_part a + neg_part b
unfolding ◌-ℤ◌
-ℤ_parts a b = ground arith

pub eq_of_parts : (a b : ℤ) → pos_part a + neg_part b ≡ pos_part b + neg_part a → a ≡ b
eq_of_parts a b h = ground arith

pub ruleset int_laws = (arith, +ℤ_parts, -ℤ_parts, eq_of_parts)

abbrev pub isize_max : ℤ
isize_max = pos (2 ^ 63 - 1)

abbrev pub isize_min : ℤ
isize_min = negsuc (2 ^ 63 - 1)

-- `isize::saturating_add`.
unfoldable pub saturating_add : ℤ → ℤ → ℤ
saturating_add a b =
    let c = a +ℤ b in
    if leb_ℤ c isize_min then isize_min else if leb_ℤ isize_max c then isize_max else c

-- The product, and `isize::saturating_mul`.
infixl 70 ◌*ℤ◌
unfoldable pub ◌*ℤ◌ : ℤ → ℤ → ℤ
a *ℤ b =
    sub_ℕ (pos_part a * pos_part b + neg_part a * neg_part b)
      (pos_part a * neg_part b + neg_part a * pos_part b)

unfoldable pub saturating_mul : ℤ → ℤ → ℤ
saturating_mul a b =
    let c = a *ℤ b in
    if leb_ℤ c isize_min then isize_min else if leb_ℤ isize_max c then isize_max else c

-- The addition of `AtomicIsize::fetch_add`, which wraps around.
unfoldable pub wrapping_add : ℤ → ℤ → ℤ
wrapping_add a b =
    let c = a +ℤ b in
    if leb_ℤ (pos (2 ^ 63)) c
    then c -ℤ pos (2 ^ 64)
    else if leb_ℤ c (negsuc (2 ^ 63))
    then c +ℤ pos (2 ^ 64)
    else c

-- An integer that lies between -m and m.
abbrev pub IsSmall : ℕ → ℤ → Type 0
IsSmall m a = (pos_part a ≤ m) × (neg_part a ≤ m)

pub saturating_add_small :
    (m k : ℕ) (a b : ℤ) → IsSmall m a → IsSmall k b → m + k < 2 ^ 63 → saturating_add a b ≡ a +ℤ b
unfolding saturating_add
saturating_add_small m k a b h h' s =
    ground (arith, +ℤ_parts a b, eq_of_parts (a +ℤ b) isize_min, eq_of_parts (a +ℤ b) isize_max)

pub wrapping_add_small :
    (m k : ℕ) (a b : ℤ) → IsSmall m a → IsSmall k b → m + k < 2 ^ 63 → wrapping_add a b ≡ a +ℤ b
unfolding wrapping_add
wrapping_add_small m k a b h h' s = ground (arith, +ℤ_parts a b)

pub +ℤ-IsSmall : (m k : ℕ) (a b : ℤ) → IsSmall m a → IsSmall k b → IsSmall (m + k) (a +ℤ b)
unfolding ◌+ℤ◌
+ℤ-IsSmall m k a b h h' = ground arith
