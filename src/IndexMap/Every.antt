-- ===== src/IndexMap/Every.antt =====
-- A property of every key with its value in a list of them.
use pants_tower.Base.{ℕ, zero, suc, ◌≡◌, List, [], ◌∷◌, some, get_elem?, set, subst, sym}
use mathlib.Core.Logic.{if_pos, if_neg}
use pants_tower.IndexMap.Entries.{last_to_front, close_gap, swap_remove, upsert, swap_erase}

abbrev pub Every : {K V : Type 0} → (K → V → Type 0) → List (K × V) → Type 0
Every P [] = Unit {0}
Every P ((k, v) ∷ xs) = P k v × Every P xs

module _ {K V : Type 0} (P : K → V → Type 0) where
  pub get_elem?-Every :
      (xs : List (K × V)) (i : ℕ) (k : K) (v : V)
      → get_elem? xs i ≡ some (k, v)
      → Every P xs
      → P k v
  get_elem?-Every [] i k v e h = absurd (cc)
  get_elem?-Every ((j, w) ∷ xs) zero k v e h = subst (λ (x : K × V). P x.0 x.1) (cc e) h.0
  get_elem?-Every ((j, w) ∷ xs) (suc i) k v e h = get_elem?-Every xs i k v e h.1

  pub set-Every :
      (xs : List (K × V)) (i : ℕ) (k : K) (v : V) → P k v → Every P xs → Every P (set xs i (k, v))
  set-Every [] i k v p h = tt
  set-Every ((j, w) ∷ xs) zero k v p h = (p, h.1)
  set-Every ((j, w) ∷ xs) (suc i) k v p h = (h.0, set-Every xs i k v p h.1)

  last_to_front-Every :
      (x : K × V) (xs : List (K × V)) → P x.0 x.1 → Every P xs → Every P (last_to_front x xs)
  last_to_front-Every x [] p h = (p, tt)
  last_to_front-Every x (y ∷ ys) p h = front (last_to_front y ys) (last_to_front-Every y ys h.0 h.1)
    where
      front :
          (zs : List (K × V)) → Every P zs → Every P (elim zs [ [] ↦ x ∷ [] | z ∷ zs ↦ z ∷ x ∷ zs ])
      front [] h = (p, tt)
      front (z ∷ zs) h = (h.0, (p, h.1))

  close_gap-Every : (xs : List (K × V)) → Every P xs → Every P (close_gap xs)
  close_gap-Every [] h = tt
  close_gap-Every (x ∷ xs) h = last_to_front-Every x xs h.0 h.1

  pub swap_remove-Every : (xs : List (K × V)) (i : ℕ) → Every P xs → Every P (swap_remove xs i)
  swap_remove-Every [] i h = tt
  swap_remove-Every (x ∷ xs) zero h = close_gap-Every xs h.1
  swap_remove-Every (x ∷ xs) (suc i) h = (h.0, swap_remove-Every xs i h.1)

  module _ (dec : Discrete K) where
    pub upsert-Every :
        (k : K) (v : V) (xs : List (K × V)) → P k v → Every P xs → Every P (upsert dec k v xs)
    upsert-Every k v [] p h = (p, tt)
    upsert-Every k v ((j, w) ∷ xs) p h = elim (dec j k) [
      | yes e ↦ rw (if_pos _ e) (subst (λ i. P i v) (sym e) p, h.1)
      | no e ↦ rw (if_neg _ e) (h.0, upsert-Every k v xs p h.1)
    ]

    pub swap_erase-Every : (k : K) (xs : List (K × V)) → Every P xs → Every P (swap_erase dec k xs)
    swap_erase-Every k [] h = tt
    swap_erase-Every k ((j, w) ∷ xs) h = elim (dec j k) [
      | yes e ↦ rw (if_pos _ e) (close_gap-Every xs h.1)
      | no e ↦ rw (if_neg _ e) (h.0, swap_erase-Every k xs h.1)
    ]
