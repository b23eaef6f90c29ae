-- ===== src/PeakEwma/Clock.antt =====
-- The debug assertions of tower-balance/src/load/peak_ewma.rs under a clock that does not go back.
use pants_tower.Base.{
  ℕ, ◌+◌, ◌-◌, ◌%◌, ◌^◌, ◌≤◌, ◌≡◌, refl, sym, subst, Bool, true, false, Option, none, some, List,
  [], ◌∷◌, ◌++◌, leb, arith, if◌then◌else◌,
}
use pants_tower.Service.{Service}
use pants_tower.PeakEwma.{
  Floats, RttEstimate, Handle, PeakEwma, update, decay, drop_handle, load, handle, call,
}

-- The service with its estimate, the handles that are alive, and the last reading of the clock.
pub record System (S R I : Type 0) : Type 0 where
  pub service : PeakEwma S R I
  pub rtt : RttEstimate R
  pub handles : List (Handle R)
  pub clock : ℕ

abbrev AllBefore : {R : Type 0} → ℕ → List (Handle R) → Type 0
AllBefore n [] = Unit {0}
AllBefore n (h ∷ hs) = (h.sent_at ≤ n) × AllBefore n hs

module _ {R : Type 0} where
  AllBefore-mono : (m n : ℕ) (hs : List (Handle R)) → m ≤ n → AllBefore m hs → AllBefore n hs
  AllBefore-mono m n [] l b = tt
  AllBefore-mono m n (h ∷ hs) l (a, b) = (omega (arith, a, l), AllBefore-mono m n hs l b)

  AllBefore-append :
      (n : ℕ) (before after : List (Handle R)) (h : Handle R)
      → AllBefore n (before ++ (h ∷ after))
      → (h.sent_at ≤ n) × AllBefore n (before ++ after)
  AllBefore-append n [] after h b = b
  AllBefore-append n (g ∷ gs) after h (a, b) =
      let (x, y) = AllBefore-append n gs after h b in (x, (a, y))

leb-true : (a b : ℕ) → a ≤ b → leb a b ≡ true
leb-true a b l = ground (arith, l)

module _ {R : Type 0} where
  -- The operation does not panic, and its estimate is of this time.
  abbrev At : ℕ → Option (R × RttEstimate R) → Type 0
  At now none = ⊥
  At now (some (e, rtt)) = rtt.update_at ≡ now

  some_of :
      (now : ℕ) (o : Option (R × RttEstimate R)) → At now o → (x : R × RttEstimate R) × (o ≡ some x)
  some_of now none h = absurd h
  some_of now (some x) h = (x, refl)

  if-At :
      (now : ℕ) (b : Bool) (o : Option (R × RttEstimate R))
      → b ≡ true
      → At now o
      → At now (if b then o else none)
  if-At now true o e h = h
  if-At now false o e h = absurd (cc e)

module _ {R : Type 0} (floats : Floats R) where
  update-At :
      (sent recv now : ℕ) (d : R) (rtt : RttEstimate R)
      → sent ≤ recv
      → rtt.update_at ≤ now
      → At now (update floats sent recv d now rtt)
  unfolding update
  update-At sent recv now d rtt l m =
      if-At now (leb sent recv) _ (leb-true sent recv l)
        (if-At now (leb rtt.update_at now) _ (leb-true rtt.update_at now m) refl)

  load-At :
      {S I : Type 0} (self : PeakEwma S R I) (count now later : ℕ) (rtt : RttEstimate R)
      → rtt.update_at ≤ later
      → At later (load floats self count now later rtt)
  unfolding load decay
  load-At self count now later rtt l =
      go (update floats now now self.decay_ns later rtt)
        (update-At now now later self.decay_ns rtt (omega arith) l)
    where
      go :
          (o : Option (R × RttEstimate R))
          → At later o
          → At later (elim o [
            | none ↦ none
            | some (e, rtt') ↦ some (
              floats.mul e (floats.of_nat (((count % 2 ^ 32 + 2 ^ 32 - 1) % 2 ^ 32 + 1) % 2 ^ 32)),
              rtt',
            )
          ])
      go none h = absurd h
      go (some (e, r)) h = h

  drop_handle-At :
      (h : Handle R) (now later : ℕ) (rtt : RttEstimate R)
      → h.sent_at ≤ now
      → rtt.update_at ≤ later
      → At later (drop_handle floats h now later rtt)
  unfolding drop_handle
  drop_handle-At h now later rtt l m = update-At h.sent_at now later h.decay_ns rtt l m

  -- Each of the handles can be dropped.
  abbrev pub AllDrop : ℕ → ℕ → RttEstimate R → List (Handle R) → Type 0
  AllDrop now later rtt [] = Unit {0}
  AllDrop now later rtt (h ∷ hs) =
      ((x : R × RttEstimate R) × (drop_handle floats h now later rtt ≡ some x))
      × AllDrop now later rtt hs

  all_drop :
      (n now later : ℕ) (rtt : RttEstimate R) (hs : List (Handle R))
      → n ≤ now
      → rtt.update_at ≤ later
      → AllBefore n hs
      → AllDrop now later rtt hs
  all_drop n now later rtt [] l m b = tt
  all_drop n now later rtt (h ∷ hs) l m (x, b) = (
    some_of later (drop_handle floats h now later rtt)
        (drop_handle-At h now later rtt (omega (arith, x, l)) m),
    all_drop n now later rtt hs l m b,
  )

module _ {S R I Req F E : Type 0} (floats : Floats R) (svc : Service S Req F E) where
  pub data Step (s t : System S R I) : Type 0 where
    calls :
        (req : Req) (now : ℕ)
        → s.clock ≤ now
        → t ≡ (
            let (f, service) = call svc s.service req now in
            record s { service = service; handles = f.handle ∷ s.handles; clock = now })
        → Step s t
    loads :
        (count now later : ℕ) (cost : R) (rtt : RttEstimate R)
        → s.clock ≤ now
        → now ≤ later
        → load floats s.service count now later s.rtt ≡ some (cost, rtt)
        → t ≡ record s { rtt = rtt; clock = later }
        → Step s t
    drops :
        (h : Handle R) (before after : List (Handle R)) (now later : ℕ) (e : R)
        (rtt : RttEstimate R)
        → s.clock ≤ now
        → now ≤ later
        → s.handles ≡ before ++ (h ∷ after)
        → drop_handle floats h now later s.rtt ≡ some (e, rtt)
        → t ≡ record s { rtt = rtt; handles = before ++ after; clock = later }
        → Step s t

  pub data Reach (s : System S R I) : System S R I → Type 0 where
    here : Reach s s
    next : {t u : System S R I} → Reach s t → Step t u → Reach s u

  abbrev Inv : System S R I → Type 0
  Inv s = (s.rtt.update_at ≤ s.clock) × AllBefore s.clock s.handles

  Step-Inv : {s t : System S R I} → Step s t → Inv s → Inv t
  unfolding call handle
  Step-Inv {s} (calls req now l f) (u, b) =
      subst Inv (sym f)
        (omega (arith, u, l), (omega arith, AllBefore-mono s.clock now s.handles l b))
  Step-Inv {s} (loads count now later cost rtt l m q f) (u, b) = subst Inv (sym f) (
    omega (
      arith,
      subst (At later) q (load-At floats s.service count now later s.rtt (omega (arith, u, l, m))),
    ),
    AllBefore-mono s.clock later s.handles (omega (arith, l, m)) b,
  )
  Step-Inv {s} (drops h before after now later e rtt l m w q f) (u, b) =
      let (x, c) = AllBefore-append s.clock before after h (subst (AllBefore s.clock) w b) in
      subst Inv (sym f) (
        omega (
          arith,
          subst (At later) q (
              drop_handle-At floats h now later s.rtt (omega (arith, x, l))
                (omega (arith, u, l, m))),
        ),
        AllBefore-mono s.clock later (before ++ after) (omega (arith, l, m)) c,
      )

  Reach-Inv : {s t : System S R I} → Reach s t → Inv s → Inv t
  Reach-Inv here v = v
  Reach-Inv (next r step) v = Step-Inv step (Reach-Inv r v)

  -- Under a clock that does not go back, in every state that a service reaches by calls, loads and
  -- drops of handles from an estimate that is not of a later time, the debug assertions of
  -- `update` hold for the next load, and for the drop of every handle that is alive, whatever the
  -- floating point numbers are.
  pub load-Reach :
      (service : PeakEwma S R I) (rtt : RttEstimate R) (clock : ℕ) (t : System S R I)
      (count now later : ℕ)
      → rtt.update_at ≤ clock
      → Reach (record { service = service; rtt = rtt; handles = []; clock = clock }) t
      → t.clock ≤ now
      → now ≤ later
      → ((x : R × RttEstimate R) × (load floats t.service count now later t.rtt ≡ some x))
        × AllDrop floats now later t.rtt t.handles
  load-Reach service rtt clock t count now later u r l m =
      let (v, b) = Reach-Inv r (u, tt) in
      (
        some_of later (load floats t.service count now later t.rtt)
            (load-At floats t.service count now later t.rtt (omega (arith, v, l, m))),
        all_drop floats t.clock now later t.rtt t.handles l (omega (arith, v, l, m)) b,
      )
