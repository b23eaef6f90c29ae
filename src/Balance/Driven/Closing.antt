-- ===== src/Balance/Driven/Closing.antt =====
-- How `poll_close` of tower-balance/src/lib.rs gets rid of the services.
use pants_tower.Base.{
  ℕ, zero, suc, ◌≡◌, refl, sym, ap, subst, ◌∙◌, List, [], ◌∷◌, Option, none, some, length, arith,
  if◌then◌else◌,
}
use pants_tower.Service.{Poll, ready, not_ready, err}
use pants_tower.IndexMap.{IndexMap, Retain}
use pants_tower.IndexMap.Entries.{retained}
use pants_tower.Balance.{Balance}
use pants_tower.Balance.Driven.{keep_in, keep, after_retain, poll_close}

-- What an answer to `poll_close` leaves of a list of services, and asks of a service.
abbrev left : {A E : Type 0} → Poll (Unit {0}) E → A → List A → List A
left (ready u) x xs = xs
left not_ready x xs = x ∷ xs
left (err e) x xs = xs

abbrev Unless : {E : Type 0} → Poll (Unit {0}) E → Type 0 → Type 0
Unless (ready u) P = Unit {0}
Unless not_ready P = P
Unless (err e) P = Unit {0}

-- The service closes, or fails to, within `n` polls.
abbrev pub Within : {V E : Type 0} → (V → Poll (Unit {0}) E × V) → ℕ → V → Type 0
Within close_one zero v = ⊥
Within close_one (suc n) v =
    let rest = Within close_one n (close_one v).1 in Unless (close_one v).0 rest

module _ {K V E : Type 0} (close_one : V → Poll (Unit {0}) E × V) where
  -- The services that are not ready to close, as their polls leave them.
  abbrev pub still_open : List (K × V) → List (K × V)
  still_open [] = []
  still_open ((k, v) ∷ xs) = left (close_one v).0 (k, (close_one v).1) (still_open xs)

  abbrev pub AllWithin : ℕ → List (K × V) → Type 0
  AllWithin n [] = Unit {0}
  AllWithin n ((k, v) ∷ xs) = Within close_one n v × AllWithin n xs

  AllWithin-left :
      (n : ℕ) (k : K) (v : V) (xs : List (K × V)) (p : Poll (Unit {0}) E)
      → Unless p (Within close_one n v)
      → AllWithin n xs
      → AllWithin n (left p (k, v) xs)
  AllWithin-left n k v xs (ready u) h hs = hs
  AllWithin-left n k v xs not_ready h hs = (h, hs)
  AllWithin-left n k v xs (err e) h hs = hs

  AllWithin-still_open :
      (n : ℕ) (xs : List (K × V)) → AllWithin (suc n) xs → AllWithin n (still_open xs)
  AllWithin-still_open n [] h = tt
  AllWithin-still_open n ((k, v) ∷ xs) (h, hs) =
      AllWithin-left n k (close_one v).1 (still_open xs) (close_one v).0 h
        (AllWithin-still_open n xs hs)

  AllWithin-zero : (xs : List (K × V)) → AllWithin 0 xs → xs ≡ []
  AllWithin-zero [] h = refl
  AllWithin-zero (x ∷ xs) (h, hs) = absurd h

  retained-keep :
      (xs : List (K × V)) (error : Option E)
      → (retained (keep close_one) xs error).0 ≡ still_open xs
  unfolding keep keep_in
  retained-keep [] error = refl
  retained-keep ((k, v) ∷ xs) error = go (close_one v).0 (retained-keep xs)
    where
      go :
          (p : Poll (Unit {0}) E)
          → ((s : Option E) → (retained (keep close_one) xs s).0 ≡ still_open xs)
          → let (kept, v', s) = keep_in p (close_one v).1 error in
            (if kept
              then (k, v') ∷ (retained (keep close_one) xs s).0
              else (retained (keep close_one) xs s).0)
            ≡ left p (k, (close_one v).1) (still_open xs)
      go (ready u) ih = ih error
      go not_ready ih = ap (◌∷◌ (k, (close_one v).1)) (ih error)
      go (err e) ih = ih (some e)

module _ {K V M E : Type 0} {dec : Discrete K} (maps : IndexMap K V M dec)
    (retain : Retain maps (Option E)) (close_one : V → Poll (Unit {0}) E × V) where
  entries_swept :
      (m : M) (error : Option E)
      → maps.entries (retain.retain (keep close_one) m error).0
        ≡ still_open close_one (maps.entries m)
  entries_swept m error =
      retain.entries-retain (keep close_one) m error
      ∙ retained-keep close_one (maps.entries m) error

  -- Nothing fails where there is nothing to close.
  no_error :
      (m : M) (error : Option E)
      → maps.entries m ≡ []
      → (retain.retain (keep close_one) m error).1 ≡ error
  no_error m error e =
      retain.retain-state (keep close_one) m error
      ∙ ap (λ es. (retained (keep close_one) es error).1) e

  len_swept :
      (m : M) (error : Option E)
      → maps.entries m ≡ []
      → maps.len (retain.retain (keep close_one) m error).0 ≡ 0
  len_swept m error e =
      maps.len_lem (retain.retain (keep close_one) m error).0
      ∙ ap length (entries_swept m error ∙ ap (still_open close_one) e)

module _ {D C K V M E : Type 0} {dec : Discrete K} (DE : Type 0) (maps : IndexMap K V M dec)
    (retain : Retain maps (Option E)) (close_one : V → Poll (Unit {0}) E × V) where
  -- The balancer when both maps have been gone through.
  swept : Balance D C M → Balance D C M
  swept self =
      let (m, error) = retain.retain (keep close_one) self.ready none in
      record self { ready = m; not_ready = (retain.retain (keep close_one) self.not_ready error).0 }

  after_retain_self :
      (error : Option E) (self : Balance D C M)
      → (after_retain {DE = DE} maps retain close_one error self).1 ≡ self
  unfolding after_retain
  after_retain_self none self = refl
  after_retain_self (some e) self = refl

  poll_close-swept :
      (self : Balance D C M) → (poll_close {DE = DE} maps retain close_one self).1 ≡ swept self
  unfolding poll_close swept
  poll_close-swept self = after_retain_self _ _

  after_retain_empty :
      (self : Balance D C M)
      → maps.len self.ready ≡ 0
      → maps.len self.not_ready ≡ 0
      → (after_retain {DE = DE} maps retain close_one none self).0 ≡ ready tt
  unfolding after_retain
  after_retain_empty self e f = ground (arith, e, f)

  poll_close_empty :
      (self : Balance D C M)
      → maps.entries self.ready ≡ []
      → maps.entries self.not_ready ≡ []
      → (poll_close {DE = DE} maps retain close_one self).0 ≡ ready tt
  unfolding poll_close swept
  poll_close_empty self e f =
      let error = (retain.retain (keep close_one) self.ready none).1 in
      ap (λ x. (after_retain {DE = DE} maps retain close_one x (swept self)).0)
        (no_error maps retain close_one self.not_ready error f
          ∙ no_error maps retain close_one self.ready none e)
      ∙ after_retain_empty (swept self) (len_swept maps retain close_one self.ready none e)
          (len_swept maps retain close_one self.not_ready error f)

  -- `poll_close`, `n` times.
  pub close_times : ℕ → Balance D C M → Balance D C M
  close_times zero self = self
  close_times (suc n) self = close_times n (poll_close {DE = DE} maps retain close_one self).1

  -- Where every service of both maps closes, or fails to, within n of its polls, n polls of
  -- `poll_close` leave both maps empty, and the next one answers that the balancer is closed.
  pub poll_close-close_times :
      (n : ℕ) (self : Balance D C M)
      → AllWithin close_one n (maps.entries self.ready)
      → AllWithin close_one n (maps.entries self.not_ready)
      → let self' = close_times n self in
        (maps.entries self'.ready ≡ [])
        × (maps.entries self'.not_ready ≡ [])
        × ((poll_close {DE = DE} maps retain close_one self').0 ≡ ready tt)
  unfolding close_times swept
  poll_close-close_times zero self r h =
      let e = AllWithin-zero close_one (maps.entries self.ready) r in
      let f = AllWithin-zero close_one (maps.entries self.not_ready) h in
      (e, f, poll_close_empty self e f)
  poll_close-close_times (suc n) self r h =
      poll_close-close_times n (poll_close {DE = DE} maps retain close_one self).1
        (subst (AllWithin close_one n)
          (sym (
            ap (λ s. maps.entries s.ready) (poll_close-swept self)
            ∙ entries_swept maps retain close_one self.ready none))
          (AllWithin-still_open close_one n (maps.entries self.ready) r))
        (subst (AllWithin close_one n)
          (sym (
            ap (λ s. maps.entries s.not_ready) (poll_close-swept self)
            ∙ entries_swept maps retain close_one self.not_ready
                (retain.retain (keep close_one) self.ready none).1))
          (AllWithin-still_open close_one n (maps.entries self.not_ready) h))
