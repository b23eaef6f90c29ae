-- ===== src/Discover.antt =====
-- tower-discover/src/lib.rs: what a discovery yields, and the two discoveries of the crate.
use pants_tower.Base.{ℕ, ◌+◌, List, [], ◌∷◌, Option, none, some}
use pants_tower.Service.{Poll, ready, not_ready, err}

pub data Change (K V : Type 0) : Type 0 where
  insert : K → V → Change K V
  remove : K → Change K V

pub record Discover (D K V E : Type 0) : Type 0 where
  pub poll : D → Poll (Change K V) E × D

-- The static list: an enumerated iterator, as the items that are left and the next number.
pub record Static (V : Type 0) : Type 0 where
  pub items : List V
  pub next : ℕ

unfoldable pub new_list : {V : Type 0} → List V → Static V
new_list services = record { items = services; next = 0 }

unfoldable pub poll_list : {V : Type 0} → Static V → Poll (Change ℕ V) (Unit {0}) × Static V
poll_list l = elim l.items [
  | [] ↦ (not_ready, l)
  | service ∷ rest ↦ (ready (insert l.next service), record { items = rest; next = l.next + 1 })
]

-- `Services`: a stream of changes, fused. `poll` of a stream answers `none` at its end.
poll_services :
    {S K V E : Type 0} → (S → Poll (Option (Change K V)) E × S) → S → Poll (Change K V) E × S
poll_services inner s =
    let (p, s') = inner s in
    elim p [
      | ready o ↦ elim o [ some c ↦ (ready c, s') | none ↦ (not_ready, s') ]
      | not_ready ↦ (not_ready, s')
      | err e ↦ (err e, s')
    ]
