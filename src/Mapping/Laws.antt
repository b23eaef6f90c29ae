-- ===== src/Mapping/Laws.antt =====
-- How the futures of tower-util/src/ext/map.rs and map_err.rs compose.
use pants_tower.Base.{◌≡◌, refl}
use pants_tower.Service.{Poll, ready, not_ready, err, map_err, Future}
use pants_tower.Mapping.{map_ready, poll_map, mapped, poll_map_err, mapped_err}

module _ {F A R T E : Type 0} (fut : Future F A E) where
  map_ready_twice :
      (f : A → R) (g : R → T) (p : Poll A E)
      → map_ready g (map_ready f p) ≡ map_ready (λ a. g (f a)) p
  unfolding map_ready
  map_ready_twice f g (ready a) = refl
  map_ready_twice f g not_ready = refl
  map_ready_twice f g (err e) = refl

  -- A future whose value is mapped by f and then by g answers a poll as the future does whose
  -- value is mapped by their composition, and leaves the inner future in the same state.
  poll-mapped :
      (f : A → R) (g : R → T) (x : F)
      → let (p, nested) =
          (mapped (mapped fut)).poll (record { f = g; fut = record { f = f; fut = x } }) in
        let (q, once) = (mapped fut).poll (record { f = λ a. g (f a); fut = x }) in
        (p ≡ q) × (nested.fut.fut ≡ once.fut)
  unfolding mapped poll_map
  poll-mapped f g x = (map_ready_twice f g (fut.poll x).0, refl)

module _ {F A R E D : Type 0} (fut : Future F A E) where
  map_ready-map_err :
      (f : A → R) (h : E → D) (p : Poll A E) → map_ready f (map_err h p) ≡ map_err h (map_ready f p)
  unfolding map_ready
  map_ready-map_err f h (ready a) = refl
  map_ready-map_err f h not_ready = refl
  map_ready-map_err f h (err e) = refl

  -- A future whose error is mapped and then its value answers a poll as the future does whose
  -- value is mapped first, and leaves the inner future in the same state.
  mapped-mapped_err :
      (f : A → R) (h : E → D) (x : F)
      → let (p, outer) =
          (mapped (mapped_err fut)).poll (record { f = f; fut = record { f = h; fut = x } }) in
        let (q, inner) =
          (mapped_err (mapped fut)).poll (record { f = h; fut = record { f = f; fut = x } }) in
        (p ≡ q) × (outer.fut.fut ≡ inner.fut.fut)
  unfolding mapped mapped_err poll_map poll_map_err
  mapped-mapped_err f h x = (map_ready-map_err f h (fut.poll x).0, refl)
