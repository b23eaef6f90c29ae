-- ===== src/Balance/Driven/Serving.antt =====
-- Which services `poll_service` of tower-balance/src/lib.rs polls.
use pants_tower.Base.{
  ℕ, zero, suc, ◌+◌, ◌≡◌, refl, sym, ap, subst, ◌∙◌, Bool, true, false, not, List, [], ◌∷◌, ◌++◌,
  some, ◌||◌, ◌&&◌, length, get_elem?, set, arith, if◌then◌else◌,
}
use mathlib.Core.List.{append_assoc}
use pants_tower.Service.{Poll, ready, not_ready, err, Result, success}
use pants_tower.IndexMap.{IndexMap}
use pants_tower.Balance.{Balance}
use pants_tower.Balance.Driven.{serve_in, serve, serve_all, after_both, after_ready, poll_service}

module _ {A : Type 0} where
  get_elem?-append :
      (xs : List A) (y : A) (ys : List A) → get_elem? (xs ++ y ∷ ys) (length xs) ≡ some y
  get_elem?-append [] y ys = refl
  get_elem?-append (x ∷ xs) y ys = ground (arith, get_elem?-append xs y ys)

  set-append :
      (xs : List A) (y z : A) (ys : List A) → set (xs ++ y ∷ ys) (length xs) z ≡ xs ++ z ∷ ys
  set-append [] y z ys = refl
  set-append (x ∷ xs) y z ys = ground (arith, set-append xs y z ys)

module _ {K V E : Type 0} (poll_one : V → Poll (Unit {0}) E × V) where
  -- Each service as its poll leaves it, in its place.
  abbrev pub polled : List (K × V) → List (K × V)
  polled [] = []
  polled ((k, v) ∷ xs) = (k, (poll_one v).1) ∷ polled xs

  abbrev pub all_ready : List (K × V) → Bool
  all_ready [] = true
  all_ready ((k, v) ∷ xs) =
      let rest = all_ready xs in
      elim (poll_one v).0 [ ready u ↦ rest | not_ready ↦ false | err e ↦ false ]

  abbrev pub none_fails : List (K × V) → Bool
  none_fails [] = true
  none_fails ((k, v) ∷ xs) =
      let rest = none_fails xs in
      elim (poll_one v).0 [ ready u ↦ rest | not_ready ↦ rest | err e ↦ false ]

  all_ready-append : (xs ys : List (K × V)) → all_ready (xs ++ ys) ≡ all_ready xs && all_ready ys
  all_ready-append [] ys = refl
  all_ready-append (x ∷ xs) ys = ground (arith, all_ready-append xs ys)

  none_fails-append :
      (xs ys : List (K × V))
      → none_fails (xs ++ ys) ≡ true
      → (none_fails xs ≡ true) × (none_fails ys ≡ true)
  none_fails-append [] ys e = (refl, e)
  none_fails-append (x ∷ xs) ys e = ground (arith, none_fails-append xs ys, e)

module _ {K V M E : Type 0} {dec : Discrete K} (maps : IndexMap K V M dec)
    (poll_one : V → Poll (Unit {0}) E × V) where
  serve-some :
      (n idx : ℕ) (any : Bool) (m : M) (k : K) (v : V)
      → maps.get_index m idx ≡ some (k, v)
      → serve maps poll_one (suc n) idx any m
        ≡ serve_in maps poll_one
            (poll_one v).0
            any
            (serve maps poll_one n (idx + 1))
            (maps.set_index m idx k (poll_one v).1)
  unfolding serve
  serve-some n idx any m k v e = rw (e, serve) refl

  Serves : List (K × V) → List (K × V) → Bool → Result Bool E × M → Type 0
  Serves xs ys any (r, m) =
      (r ≡ success (any || not (all_ready poll_one ys)))
      × (maps.entries m ≡ xs ++ polled poll_one ys)

  one_more :
      (xs ys : List (K × V)) (k : K) (v : V) (any any' : Bool) (r : Result Bool E × M)
      → (any' || not (all_ready poll_one ys)) ≡ (any || not (all_ready poll_one ((k, v) ∷ ys)))
      → Serves (xs ++ (k, (poll_one v).1) ∷ []) ys any' r
      → Serves xs ((k, v) ∷ ys) any r
  unfolding Serves
  one_more xs ys k v any any' r e (a, b) =
      (a ∙ ap success e, b ∙ append_assoc xs ((k, (poll_one v).1) ∷ []) (polled poll_one ys))

  length-snoc : {A : Type 0} (xs : List A) (x : A) → length (xs ++ x ∷ []) ≡ length xs + 1
  length-snoc [] x = refl
  length-snoc (y ∷ xs) x = omega (arith, length-snoc xs x)

  serve_in-polled :
      (p : Poll (Unit {0}) E) (xs ys : List (K × V)) (k : K) (v : V) (any : Bool) (m : M)
      (rest : Bool → M → Result Bool E × M)
      → (poll_one v).0 ≡ p
      → none_fails poll_one ((k, v) ∷ ys) ≡ true
      → ((any' : Bool)
          → none_fails poll_one ys ≡ true
          → Serves (xs ++ (k, (poll_one v).1) ∷ []) ys any' (rest any' m))
      → Serves xs ((k, v) ∷ ys) any (serve_in maps poll_one p any rest m)
  unfolding serve_in
  serve_in-polled (ready u) xs ys k v any m rest q f ih =
      one_more xs ys k v any any _ (ground (arith, q)) (ih any (ground (arith, q, f)))
  serve_in-polled not_ready xs ys k v any m rest q f ih =
      one_more xs ys k v any true _ (ground (arith, q)) (ih true (ground (arith, q, f)))
  serve_in-polled (err e) xs ys k v any m rest q f ih = absurd (ground (arith, q, f))

  entries-served :
      (xs ys : List (K × V)) (k : K) (v w : V) (m : M)
      → maps.entries m ≡ xs ++ (k, v) ∷ ys
      → maps.entries (maps.set_index m (length xs) k w) ≡ (xs ++ (k, w) ∷ []) ++ ys
  entries-served xs ys k v w m e =
      maps.entries-set_index m (length xs) k w
      ∙ ap (λ es. set es (length xs) (k, w)) e
      ∙ set-append xs (k, v) (k, w) ys
      ∙ sym (append_assoc xs ((k, w) ∷ []) ys)

  serve-polled :
      (n : ℕ) (xs ys : List (K × V)) (any : Bool) (m : M)
      → maps.entries m ≡ xs ++ ys
      → length ys ≡ n
      → none_fails poll_one ys ≡ true
      → Serves xs ys any (serve maps poll_one n (length xs) any m)
  unfolding serve Serves
  serve-polled zero xs [] any m e l f = (ground arith, e)
  serve-polled zero xs (y ∷ ys) any m e l f = absurd (omega arith)
  serve-polled (suc n) xs [] any m e l f = absurd (omega arith)
  serve-polled (suc n) xs ((k, v) ∷ ys) any m e l f =
      let v' = (poll_one v).1 in
      let m' = maps.set_index m (length xs) k v' in
      subst (Serves xs ((k, v) ∷ ys) any)
        (sym (
          serve-some n (length xs) any m k v (
            maps.get_index_lem m (length xs)
            ∙ ap (λ es. get_elem? es (length xs)) e
            ∙ get_elem?-append xs (k, v) ys)))
        (serve_in-polled (poll_one v).0 xs ys k v any m' (serve maps poll_one n (length xs + 1))
          refl f
          (λ any' f'.
            subst (λ i. Serves (xs ++ (k, v') ∷ []) ys any' (serve maps poll_one n i any' m'))
              (length-snoc xs (k, v'))
              (serve-polled n (xs ++ (k, v') ∷ []) ys any' m' (entries-served xs ys k v v' m e)
                (omega arith) f')))

  pub serve_all-polled :
      (any : Bool) (m : M)
      → none_fails poll_one (maps.entries m) ≡ true
      → let (r, m') = serve_all maps poll_one any m in
        (r ≡ success (any || not (all_ready poll_one (maps.entries m))))
        × (maps.entries m' ≡ polled poll_one (maps.entries m))
  unfolding serve_all Serves
  serve_all-polled any m f =
      serve-polled (maps.len m) [] (maps.entries m) any m refl (sym (maps.len_lem m)) f

module _ {D C K V M E : Type 0} {dec : Discrete K} (maps : IndexMap K V M dec)
    (poll_one : V → Poll (Unit {0}) E × V) where
  -- The balancer after both maps have been served, the second after `any` of the first.
  served : Bool → Balance D C M → Balance D C M
  served any self = record self {
    ready = (serve_all maps poll_one false self.ready).1;
    not_ready = (serve_all maps poll_one any self.not_ready).1;
  }

module _ {D C K V M E DE : Type 0} {dec : Discrete K} (maps : IndexMap K V M dec)
    (poll_one : V → Poll (Unit {0}) E × V) where
  after_both_lem :
      (b c : Bool) (self : Balance D C M)
      → after_both {DE = DE} maps poll_one (success ((false || not b) || not c)) self
        ≡ (if b && c then ready tt else not_ready, self)
  unfolding after_both
  after_both_lem true true self = refl
  after_both_lem true false self = refl
  after_both_lem false c self = refl

  poll_service_lem :
      (self : Balance D C M)
      → none_fails poll_one (maps.entries self.ready) ≡ true
      → none_fails poll_one (maps.entries self.not_ready) ≡ true
      → let b = all_ready poll_one (maps.entries self.ready) in
        let c = all_ready poll_one (maps.entries self.not_ready) in
        poll_service {DE = DE} maps poll_one self
        ≡ (if b && c then ready tt else not_ready, served maps poll_one (false || not b) self)
  unfolding poll_service after_ready served
  poll_service_lem self f g =
      let b = all_ready poll_one (maps.entries self.ready) in
      let any = false || not b in
      let self' = record self { ready = (serve_all maps poll_one false self.ready).1 } in
      ap (λ r. after_ready maps poll_one r self')
        (serve_all-polled maps poll_one false self.ready f).0
      ∙ ap (λ r. after_both maps poll_one r (served maps poll_one any self))
          (serve_all-polled maps poll_one any self.not_ready g).0
      ∙ after_both_lem b (all_ready poll_one (maps.entries self.not_ready))
          (served maps poll_one any self)

  -- Where no service fails, `poll_service` polls every service of both maps once, in its place,
  -- and answers that it is ready exactly where all of them do.
  poll_service-polled :
      (self : Balance D C M)
      → none_fails poll_one (maps.entries self.ready ++ maps.entries self.not_ready) ≡ true
      → let (p, self') = poll_service {DE = DE} maps poll_one self in
        let all = maps.entries self.ready ++ maps.entries self.not_ready in
        (p ≡ (if all_ready poll_one all then ready tt else not_ready))
        × (maps.entries self'.ready ≡ polled poll_one (maps.entries self.ready))
        × (maps.entries self'.not_ready ≡ polled poll_one (maps.entries self.not_ready))
  unfolding served
  poll_service-polled self f =
      let (fr, fn) =
        none_fails-append poll_one (maps.entries self.ready) (maps.entries self.not_ready) f in
      let e = poll_service_lem self fr fn in
      let any = false || not (all_ready poll_one (maps.entries self.ready)) in
      (
        ap (λ r. r.0) e
            ∙ ap (λ b. if b then ready tt else not_ready)
                (sym (
                  all_ready-append poll_one (maps.entries self.ready)
                    (maps.entries self.not_ready))),
        ap (λ r. maps.entries r.1.ready) e ∙ (serve_all-polled maps poll_one false self.ready fr).1,
        ap (λ r. maps.entries r.1.not_ready) e
            ∙ (serve_all-polled maps poll_one any self.not_ready fn).1,
      )
