-- ===== src/IndexMap/Entries.antt =====
-- Lists of keys with values, changed the way that the documentation of the indexmap crate tells.
use pants_tower.Base.{
  Bool, if◌then◌else◌, ℕ, zero, suc, ◌+◌, ◌-◌, ◌≤◌, ◌<◌, ◌≡◌, ◌≢◌, refl, List, [], ◌∷◌, Option,
  none, some, arith, length, subst, get_elem?, set, ◌↔◌,
}
use mathlib.Core.Logic.{ite, if_pos, if_neg}

module _ {ℓ} {A : Type ℓ} where
  -- The last item goes to the front.
  abbrev pub last_to_front : A → List A → List A
  last_to_front x [] = x ∷ []
  last_to_front x (y ∷ ys) = elim (last_to_front y ys) [ [] ↦ x ∷ [] | z ∷ zs ↦ z ∷ x ∷ zs ]

  -- What is left when the first item is swapped with the last and taken off.
  abbrev pub close_gap : List A → List A
  close_gap [] = []
  close_gap (x ∷ xs) = last_to_front x xs

  abbrev pub swap_remove : List A → ℕ → List A
  swap_remove [] i = []
  swap_remove (x ∷ xs) zero = close_gap xs
  swap_remove (x ∷ xs) (suc i) = x ∷ swap_remove xs i

-- The entries are visited in their order, and those kept stay in it.
abbrev pub retained :
    {K V S : Type 0} → (K → V → S → Bool × V × S) → List (K × V) → S → List (K × V) × S
retained f [] s = ([], s)
retained f ((k, v) ∷ xs) s =
    let (kept, v', s') = f k v s in
    let (ys, s'') = retained f xs s' in (if kept then (k, v') ∷ ys else ys, s'')

module _ {K V : Type 0} (dec : Discrete K) where
  -- The entries with a key.
  abbrev pub count : K → List (K × V) → ℕ
  count k [] = 0
  count k ((j, v) ∷ xs) = let rest = count k xs in ite (dec j k) (suc rest) rest

  abbrev pub lookup : K → List (K × V) → Option V
  lookup k [] = none
  lookup k ((j, v) ∷ xs) = ite (dec j k) (some v) (lookup k xs)

  -- A key that is there keeps its place and gets the value; another comes last.
  abbrev pub upsert : K → V → List (K × V) → List (K × V)
  upsert k v [] = (k, v) ∷ []
  upsert k v ((j, w) ∷ xs) = ite (dec j k) ((j, v) ∷ xs) ((j, w) ∷ upsert k v xs)

  -- The entry of the key is swapped with the last and taken off.
  abbrev pub swap_erase : K → List (K × V) → List (K × V)
  swap_erase k [] = []
  swap_erase k ((j, w) ∷ xs) = ite (dec j k) (close_gap xs) ((j, w) ∷ swap_erase k xs)

module _ {ℓ} {A : Type ℓ} where
  length-last_to_front : (x : A) (xs : List A) → length (last_to_front x xs) ≡ suc (length xs)
  length-last_to_front x [] = refl
  length-last_to_front x (y ∷ ys) = ground (arith, length-last_to_front y ys)

  length-close_gap : (xs : List A) → length (close_gap xs) ≡ length xs
  length-close_gap [] = refl
  length-close_gap (x ∷ xs) = length-last_to_front x xs

  pub length-swap_remove :
      (xs : List A) (i : ℕ) → i < length xs → suc (length (swap_remove xs i)) ≡ length xs
  length-swap_remove [] i h = elim h [ ]
  length-swap_remove (x ∷ xs) zero h = omega (arith, length-close_gap xs)
  length-swap_remove (x ∷ xs) (suc i) h = omega (arith, length-swap_remove xs i)

module _ {K V : Type 0} (dec : Discrete K) where
  count-last_to_front :
      (k : K) (x : K × V) (xs : List (K × V))
      → count dec k (last_to_front x xs) ≡ count dec k (x ∷ xs)
  count-last_to_front k x [] = refl
  count-last_to_front k x (y ∷ ys) = ground (arith, count-last_to_front k y ys)

  count-close_gap : (k : K) (xs : List (K × V)) → count dec k (close_gap xs) ≡ count dec k xs
  count-close_gap k [] = refl
  count-close_gap k (x ∷ xs) = count-last_to_front k x xs

  pub count-swap_remove :
      (k j : K) (v : V) (xs : List (K × V)) (i : ℕ)
      → get_elem? xs i ≡ some (j, v)
      → count dec k (swap_remove xs i) + ite (dec j k) 1 0 ≡ count dec k xs
  count-swap_remove k j v [] i h = absurd (cc)
  count-swap_remove k j v ((l, w) ∷ xs) zero h = ground (arith, count-close_gap k xs)
  count-swap_remove k j v ((l, w) ∷ xs) (suc i) h = ground (arith, count-swap_remove k j v xs i)

  -- A write to a value moves no key.
  pub count-set :
      (k j : K) (v w : V) (xs : List (K × V)) (i : ℕ)
      → get_elem? xs i ≡ some (j, v)
      → count dec k (set xs i (j, w)) ≡ count dec k xs
  count-set k j v w [] i h = refl
  count-set k j v w ((l, u) ∷ xs) zero h = ground arith
  count-set k j v w ((l, u) ∷ xs) (suc i) h = ground (arith, count-set k j v w xs i)

  count-upsert_self :
      (k : K) (v : V) (xs : List (K × V))
      → count dec k (upsert dec k v xs) ≡ (1 - count dec k xs) + count dec k xs
  count-upsert_self k v [] = ground arith
  count-upsert_self k v ((l, w) ∷ xs) = ground (arith, count-upsert_self k v xs)

  count-upsert_ne :
      (j k : K) (v : V) (xs : List (K × V))
      → k ≢ j
      → count dec j (upsert dec k v xs) ≡ count dec j xs
  count-upsert_ne j k v [] h = ground arith
  count-upsert_ne j k v ((l, w) ∷ xs) h = ground (arith, count-upsert_ne j k v xs)

  pub count-upsert :
      (j k : K) (v : V) (xs : List (K × V))
      → count dec j (upsert dec k v xs) ≡ ite (dec k j) (1 - count dec j xs) 0 + count dec j xs
  count-upsert j k v xs = elim (dec k j) [
    | yes p ↦ rw (if_pos _ p) (
        subst (λ i. count dec i (upsert dec k v xs) ≡ (1 - count dec i xs) + count dec i xs) p
          (count-upsert_self k v xs))
    | no p ↦ rw (if_neg _ p) (omega (arith, count-upsert_ne j k v xs p))
  ]

  pub length-upsert :
      (k : K) (v : V) (xs : List (K × V))
      → count dec k xs ≡ 0
      → length (upsert dec k v xs) ≡ suc (length xs)
  length-upsert k v [] h = refl
  length-upsert k v ((l, w) ∷ xs) h = ground (arith, length-upsert k v xs)

  pub count-swap_erase :
      (j k : K) (xs : List (K × V))
      → count dec j (swap_erase dec k xs) ≡ ite (dec k j) (count dec j xs - 1) (count dec j xs)
  count-swap_erase j k [] = ground arith
  count-swap_erase j k ((l, w) ∷ xs) = ground (arith, count-swap_erase j k xs, count-close_gap j xs)

  pub lookup-count : (k : K) (xs : List (K × V)) → (lookup dec k xs ≡ none) ↔ (count dec k xs ≡ 0)
  lookup-count k [] = (λ h. refl, λ h. refl)
  lookup-count k ((l, w) ∷ xs) = ground (arith, lookup-count k xs)

  lookup-last_to_front :
      (k : K) (x : K × V) (xs : List (K × V))
      → count dec k (x ∷ xs) ≤ 1
      → lookup dec k (last_to_front x xs) ≡ lookup dec k (x ∷ xs)
  lookup-last_to_front k x [] h = refl
  lookup-last_to_front k (l, w) (y ∷ ys) h =
      ground (arith, lookup-last_to_front k y ys, count-last_to_front k y ys, lookup-count k ys)

  lookup-close_gap :
      (k : K) (xs : List (K × V))
      → count dec k xs ≤ 1
      → lookup dec k (close_gap xs) ≡ lookup dec k xs
  lookup-close_gap k [] h = refl
  lookup-close_gap k (x ∷ xs) h = lookup-last_to_front k x xs h

  pub lookup-upsert :
      (j k : K) (v : V) (xs : List (K × V))
      → lookup dec j (upsert dec k v xs) ≡ ite (dec k j) (some v) (lookup dec j xs)
  lookup-upsert j k v [] = refl
  lookup-upsert j k v ((l, w) ∷ xs) = ground (arith, lookup-upsert j k v xs)

  pub lookup-swap_erase :
      (j k : K) (xs : List (K × V))
      → count dec j xs ≤ 1
      → lookup dec j (swap_erase dec k xs) ≡ ite (dec k j) none (lookup dec j xs)
  lookup-swap_erase j k [] h = ground arith
  lookup-swap_erase j k ((l, w) ∷ xs) h =
      ground (arith, lookup-swap_erase j k xs, lookup-close_gap j xs, lookup-count j xs)

  pub count-get_elem? :
      (k : K) (v : V) (xs : List (K × V)) (i : ℕ)
      → get_elem? xs i ≡ some (k, v)
      → 1 ≤ count dec k xs
  count-get_elem? k v [] i h = absurd (cc)
  count-get_elem? k v ((l, w) ∷ xs) zero h = ground arith
  count-get_elem? k v ((l, w) ∷ xs) (suc i) h = ground (arith, count-get_elem? k v xs i)
