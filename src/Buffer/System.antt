-- ===== src/Buffer/System.antt =====
-- tower-buffer/src/lib.rs as a whole: the handles that call, the callers that take their responses
-- or give them up, and the polls of the worker, in any order.
pub mod Fifo
use pants_tower.Base.{
  ℕ, ◌+◌, ◌*◌, ◌<◌, ◌≡◌, refl, sym, ap, subst, ◌∙◌, Bool, true, false, List, [], ◌∷◌, ◌++◌, map,
  Option, none, some, arith, Bool-cases, inl, inr,
}
use mathlib.Core.List.{Sublist, Sublistᴰ}
use mathlib.Core.Logic.{∥∥₁_map}
use mathlib.Core.List.Sublist.{cons, cons-cons, trans, refl as sublist_refl}
use pants_tower.Service.{success, failure, DirectService}
use pants_tower.Machine.{Outcome, returns, Ends, Ends-mono}
use pants_tower.Channels.{Mpsc, Oneshot}
use pants_tower.Buffer.{Message, Shared}
use pants_tower.Buffer.Client.{Buffer, call}
use pants_tower.Buffer.Worker.{Worker, poll}
use pants_tower.Buffer.Worker.Queue.{live, optional}
use pants_tower.Buffer.Worker.Order.{recorded, waiting, pending, Kept, Settled}
use pants_tower.Buffer.Worker.Ending.{poll-Settled}
use pants_tower.Buffer.Delivery.{Kept-call}

module _ {S Req F E H T Q O : Type 0} (svc : DirectService S Req F E)
    (mpsc : Mpsc T Q (Message Req H)) (oneshot : Oneshot H F O) where
  abbrev pub State : Type 0
  State = Worker (S × List Req) Req H Q O

  -- The callers that have given up.
  abbrev pub gone : O → H → Bool
  gone o h = oneshot.canceled h o

  abbrev pub with_oneshots : State → O → State
  with_oneshots w o = record w { shared = record (w.shared) { oneshots = o } }

  abbrev pub called : Buffer T → Req → State → State
  called self request w = record w { shared = (call mpsc oneshot self w.shared request).2 }

  -- Does the queue take the message of a call?
  abbrev pub Taken : Buffer T → Req → State → Type 0
  Taken self request w =
      (mpsc.try_send self.tx
        (record { request = request; tx = (oneshot.channel w.shared.oneshots).0 }) w.shared.queue).0
      ≡ success tt

  abbrev pub Untaken : Buffer T → Req → State → Type 0
  Untaken self request w =
      (mpsc.try_send self.tx
        (record { request = request; tx = (oneshot.channel w.shared.oneshots).0 }) w.shared.queue).0
      ≡ failure tt

  -- The states with the requests that were accepted, and whether no caller has given up. A caller
  -- has a handle, so that the worker has not met the end of the queue where there is a call.
  pub data Reach : State → List Req → Bool → Type 0 where
    starts :
        {w : State}
        → w.current_message ≡ none
        → mpsc.contents w.shared.queue ≡ []
        → w.service.1 ≡ []
        → w.finish ≡ false
        → Reach w [] true
    accepts :
        {w : State} {accepted : List Req} {patient : Bool}
        → Reach w accepted patient
        → (self : Buffer T) (request : Req) → w.finish ≡ false
        → Taken self request w
        → Reach (called self request w) (accepted ++ request ∷ []) patient
    refuses :
        {w : State} {accepted : List Req} {patient : Bool}
        → Reach w accepted patient
        → (self : Buffer T) (request : Req) → w.finish ≡ false
        → Untaken self request w
        → Reach (called self request w) accepted patient
    receives :
        {w : State} {accepted : List Req} {patient : Bool}
        → Reach w accepted patient
        → (o : O) → ((h : H) → gone o h ≡ gone w.shared.oneshots h)
        → Reach (with_oneshots w o) accepted patient
    gives_up :
        {w : State} {accepted : List Req} {patient : Bool}
        → Reach w accepted patient
        → (o : O) → ((h : H) → gone w.shared.oneshots h ≡ true → gone o h ≡ true)
        → Reach (with_oneshots w o) accepted false
    runs :
        {w w' : State} {accepted : List Req} {patient : Bool}
        → Reach w accepted patient
        → (skips fuel : ℕ) → pending svc mpsc oneshot (gone w.shared.oneshots) accepted w < skips
        → 2 * pending svc mpsc oneshot (gone w.shared.oneshots) accepted w + 1 < fuel
        → poll (recorded svc) mpsc oneshot skips fuel w ≡ returns false w'
        → Reach w' accepted patient

  -- These requests are the accepted ones in their order, but for some that were given up.
  pub record Ordered (patient : Bool) (sent accepted : List Req) : Type 0 where
    pub in_order : Sublist sent accepted
    pub complete : patient ≡ true → sent ≡ accepted

  -- The requests that were sent, and those that wait and are waited for.
  abbrev pub requests : State → List Req
  requests w = w.service.1 ++ waiting svc mpsc oneshot (gone w.shared.oneshots) [] w

append-Sublist :
    {A : Type 0} (xs : List A) {ys zs : List A} → Sublist ys zs → Sublist (xs ++ ys) (xs ++ zs)
append-Sublist [] h = h
append-Sublist (x ∷ xs) h = cons-cons x (append-Sublist xs h)

Sublistᴰ-snoc :
    {A : Type 0} {xs ys : List A} (z : A) → Sublistᴰ xs ys → Sublistᴰ (xs ++ z ∷ []) (ys ++ z ∷ [])
Sublistᴰ-snoc z Sublistᴰ.slnil = Sublistᴰ.cons-cons refl Sublistᴰ.slnil
Sublistᴰ-snoc z (Sublistᴰ.cons h) = Sublistᴰ.cons (Sublistᴰ-snoc z h)
Sublistᴰ-snoc z (Sublistᴰ.cons-cons e h) = Sublistᴰ.cons-cons e (Sublistᴰ-snoc z h)

Sublist-snoc :
    {A : Type 0} {xs ys : List A} (z : A) → Sublist xs ys → Sublist (xs ++ z ∷ []) (ys ++ z ∷ [])
Sublist-snoc z h = ∥∥₁_map h (Sublistᴰ-snoc z)

module _ {H Req : Type 0} (before after : H → Bool)
    (grows : (h : H) → before h ≡ true → after h ≡ true) where
  live-Sublist :
      (ms : List (Message Req H))
      → Sublist (map (λ m. m.request) (live after ms)) (map (λ m. m.request) (live before ms))
  live-Sublist [] = sublist_refl []
  live-Sublist (m ∷ ms) = elim (Bool-cases (before m.tx)) [
    | inl b ↦ rw (b, grows m.tx b) (live-Sublist ms)
    | inr b ↦ elim (Bool-cases (after m.tx)) [
      | inl a ↦ rw (b, a) (cons m.request (live-Sublist ms))
      | inr a ↦ rw (b, a) (cons-cons m.request (live-Sublist ms))
    ]
  ]
