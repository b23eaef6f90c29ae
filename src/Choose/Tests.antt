-- ===== src/Choose/Tests.antt =====
-- The strategies of tower-balance/src/choose over three services.
use pants_tower.Base.{
  ℕ, ◌+◌, ◌%◌, ◌<◌, ◌≡◌, ◌≢◌, ◌⊎◌, true, false, some, [], ◌∷◌, get_elem?, leb, arith,
}
use pants_tower.IndexMap.Table.{Table, table}
use pants_tower.Choose.{Replicas, Load, replica, random_pair, choose_lesser}
use pants_tower.Choose.InRange.{choose_times, choose_times_lem, choose_lesser_lem}

abbrev services : Replicas Table
services = record { map = (10, 4) ∷ (11, 2) ∷ (12, 9) ∷ [] }

-- A service is its load.
abbrev loads : Load ℕ ℕ
loads = record { load = λ v. v; le = leb }

abbrev draw : ℕ → ℕ × ℕ
draw n = (n, n + 1)

choose_times_lem_example :
    get_elem? (choose_times table 5 (record { pos = 1 }) services) 4 ≡ some ((1 + 4) % 3)
choose_times_lem_example =
    choose_times_lem table 5 4 (record { pos = 1 }) services (omega arith) (omega arith)

choose_lesser_lem_example :
    let (a, b, rng') = random_pair draw 7 3 in
    (x : ℕ) × (y : ℕ) × (i : ℕ) × (replica table services a ≡ some x)
    × (replica table services b ≡ some y)
    × (a ≢ b)
    × (choose_lesser table loads draw 7 services ≡ some (i, rng'))
    × (((leb x y ≡ true) × (i ≡ a)) ⊎ ((leb x y ≡ false) × (i ≡ b)))
    × (i < 3)
choose_lesser_lem_example =
    choose_lesser_lem table loads draw 7 services (omega arith) (omega arith)
