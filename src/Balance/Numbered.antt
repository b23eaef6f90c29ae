-- ===== src/Balance/Numbered.antt =====
-- The static list of tower-discover/src/lib.rs as what tower-balance/src/lib.rs discovers: which
-- keys it gives, and that each service keeps the number that it has in the list.
use pants_tower.Base.{
  ℕ, suc, ◌+◌, ◌≡◌, refl, ap, subst, ◌∙◌, ◌&&◌, if◌then◌else◌, ltb, leb, List, [], ◌∷◌, none, arith,
  length, some, get_elem?,
}
use native.Mathlib.Decide.{ℕ_discrete}
use pants_tower.Service.{Poll, ready, not_ready, err, Service}
use pants_tower.Discover.{Discover, Change, insert, Static, new_list, poll_list}
use pants_tower.Protocol.{Watched, watched, Unbroken, After, Keeps}
use pants_tower.Balance.Discovery.{Drains, changes}
use pants_tower.Balance.Endpoints.{Yields}

abbrev pub listed : {V : Type 0} → Discover (Static V) ℕ V (Unit {0})
listed = record { poll = poll_list }

-- The changes that the list yields.
abbrev pub numbered : {V : Type 0} → ℕ → List V → List (Change ℕ V)
numbered n [] = []
numbered n (v ∷ vs) = insert n v ∷ numbered (n + 1) vs

pub length-numbered : {V : Type 0} (n : ℕ) (vs : List V) → length (numbered n vs) ≡ length vs
length-numbered n [] = refl
length-numbered n (v ∷ vs) = ap suc (length-numbered (n + 1) vs)

-- The keys of the list.
abbrev pub keys : ℕ → ℕ → ℕ
keys n k = if ltb k n then 1 else 0

module _ {V : Type 0} where
  pub poll_list-Drains :
      (n : ℕ) (vs : List V) → Drains listed (record { items = vs; next = n }) (numbered n vs) none
  unfolding poll_list
  poll_list-Drains n [] = (_, refl)
  poll_list-Drains n (v ∷ vs) = (_, refl, poll_list-Drains (n + 1) vs)

  pub changes-numbered :
      (n : ℕ) (vs : List V) (g : ℕ → ℕ) (k : ℕ)
      → changes ℕ_discrete (numbered n vs) g k
        ≡ (if leb n k && ltb k (n + length vs) then 1 else g k)
  changes-numbered n [] g k = ground arith
  changes-numbered n (v ∷ vs) g k = changes-numbered (n + 1) vs _ k ∙ ground arith

-- No service of the list was called too early.
abbrev pub AllUnused : {V : Type 0} → List (Watched V) → Type 0
AllUnused [] = Unit {0}
AllUnused (v ∷ vs) = Unbroken v × AllUnused vs

abbrev pub Unused : {V : Type 0} → Static (Watched V) → Type 0
Unused l = AllUnused l.items

module _ {V : Type 0} where
  yielded :
      (n : ℕ) (vs : List (Watched V)) (k : ℕ) (v : Watched V)
      → AllUnused vs
      → (poll_list (record { items = vs; next = n })).0 ≡ ready (insert k v)
      → Unbroken v
  unfolding poll_list
  yielded n [] k v h e = absurd (cc)
  yielded n (w ∷ vs) k v h e = let q : w ≡ v = cc in subst Unbroken q h.0

  after :
      (n : ℕ) (vs : List (Watched V))
      → AllUnused vs
      → Unused (poll_list (record { items = vs; next = n })).1
  unfolding poll_list
  after n [] h = tt
  after n (w ∷ vs) h = h.1

  pub listed-Yields : Yields listed (λ k. Unbroken {S = V}) Unused
  listed-Yields = record {
    yielded = λ d k v h e. yielded d.next d.items k v h e;
    after = λ d h. after d.next d.items h;
  }

-- A service that polls and calls made of another.
pub data Stems {V Req F E : Type 0} (svc : Service V Req F E) (v : V) : V → Type 0 where
  itself : Stems svc v v
  polled : {w : V} → Stems svc v w → Stems svc v (svc.poll_ready w).1
  called : {w : V} (request : Req) → Stems svc v w → Stems svc v (svc.call w request).1

module _ {V Req F E : Type 0} (svc : Service V Req F E) (vs : List (Watched V)) where
  -- The service under a number is the one that the list has there, polled and called.
  abbrev pub Own : ℕ → Watched V → Type 0
  Own k w = (v : Watched V) × (get_elem? vs k ≡ some v) × Stems svc v.service w.service

  -- What is left of the list has the numbers that it had.
  pub Rest : Static (Watched V) → Type 0
  Rest l =
      (i : ℕ) (v : Watched V) → get_elem? l.items i ≡ some v → get_elem? vs (l.next + i) ≡ some v

  After-Own : (k : ℕ) (p : Poll (Unit {0}) E) (w : Watched V) → Own k w → After (Own k) (Own k) p w
  After-Own k (ready u) w h = h
  After-Own k not_ready w h = h
  After-Own k (err e) w h = h

  pub Own-Keeps : (k : ℕ) → Keeps (watched svc) (Own k) (Own k)
  Own-Keeps k = record {
    relax = λ w h. h;
    asked = λ w h.
        After-Own k (svc.poll_ready w.service).0 ((watched svc).poll_ready w).1
          (h.0, h.1, polled h.2);
    called = λ w request h. (h.0, h.1, called request h.2);
  }

  yielded-Own :
      (n : ℕ) (items : List (Watched V)) (k : ℕ) (v : Watched V)
      → Rest (record { items = items; next = n })
      → (poll_list (record { items = items; next = n })).0 ≡ ready (insert k v)
      → Own k v
  unfolding poll_list Rest
  yielded-Own n [] k v h e = absurd (cc)
  yielded-Own n (w ∷ items) k v h e =
      let there : get_elem? vs n ≡ some w =
        subst (λ j. get_elem? vs j ≡ some w) (omega arith) (h 0 w refl) in
      let q : n ≡ k = cc in (v, cc, itself)

  after-Own :
      (n : ℕ) (items : List (Watched V))
      → Rest (record { items = items; next = n })
      → Rest (poll_list (record { items = items; next = n })).1
  unfolding poll_list Rest
  after-Own n [] h = h
  after-Own n (w ∷ items) h =
      λ i v e. subst (λ j. get_elem? vs j ≡ some v) (omega arith) (h (suc i) v e)

  pub Own-Yields : Yields listed Own Rest
  Own-Yields = record {
    yielded = λ d k v h e. yielded-Own d.next d.items k v h e;
    after = λ d h. after-Own d.next d.items h;
  }

  pub Rest-all : Rest (new_list vs)
  unfolding Rest new_list
  Rest-all = λ i v e. subst (λ j. get_elem? vs j ≡ some v) (omega arith) e
