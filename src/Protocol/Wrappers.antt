-- ===== src/Protocol/Wrappers.antt =====
-- The middleware that forward: tower-timeout/src/lib.rs, tower-util/src/option.rs, either.rs and
-- ext/map.rs, map_err.rs and from_err.rs, tower-balance/src/load/constant.rs and
-- pending_requests.rs, and the `call` of tower-retry/src/lib.rs.
use pants_tower.Base.{ℕ, ◌≡◌, refl, Option, none, some, subst}
use pants_tower.Service.{Poll, ready, not_ready, err, map_err, Service}
use pants_tower.Protocol.{After, Keeps, FedKeeps, Fed, is_ready, After-map}
use pants_tower.Timeout
use pants_tower.Mapping
use pants_tower.Constant
use pants_tower.Optional
use pants_tower.PendingRequests
use pants_tower.Retry

pub is_ready-map_err :
    {E D : Type 0} (f : E → D) (p : Poll (Unit {0}) E) → is_ready p ≡ is_ready (map_err f p)
is_ready-map_err f (ready u) = refl
is_ready-map_err f not_ready = refl
is_ready-map_err f (err e) = refl

module _ {S Req F E : Type 0} (svc : Service S Req F E) where
  abbrev pub mapping : {A R : Type 0} → Service (Mapping.Map S A R) Req (Mapping.MapFuture F A R) E
  mapping = record { poll_ready = Mapping.poll_ready svc; call = Mapping.call svc }

  abbrev pub mapping_err :
      {D : Type 0} → Service (Mapping.MapErr S E D) Req (Mapping.MapErrFuture F E D) D
  mapping_err = record { poll_ready = Mapping.poll_ready_err svc; call = Mapping.call_err svc }

  abbrev pub constant : {L : Type 0} → Service (Constant.Constant S L) Req F E
  constant = record { poll_ready = Constant.poll_ready svc; call = Constant.call svc }

  abbrev pub optional :
      Service (Optional.OptionService S) Req (Optional.ResponseFuture F) (Optional.Error E)
  optional = record { poll_ready = Optional.poll_ready svc; call = Optional.call svc }

  -- The time of a call is the environment's.
  abbrev pub timeout :
      {Z : Type 0}
      → (ℕ → Z)
      → Fed ℕ (Timeout.Timeout S) Req (Timeout.ResponseFuture F Z) (Timeout.Error E)
  timeout delay = record {
    poll_ready = λ now w. Timeout.poll_ready svc w;
    call = λ now w req. Timeout.call svc delay now w req;
  }

  -- So is the count of the handles.
  abbrev pub pending :
      {I : Type 0}
      → Fed ℕ (PendingRequests.PendingRequests S I) Req (PendingRequests.InstrumentFuture F I) E
  pending = record {
    poll_ready = λ count w. PendingRequests.poll_ready svc w;
    call = λ count w req.
        ((PendingRequests.call svc w req count).0, (PendingRequests.call svc w req count).1);
  }

  module _ {P C R : Type 0} (pol : Retry.Policy P Req R E C) where
    abbrev pub retry : Service (Retry.Retry P S) Req (Retry.ResponseFuture P S Req F C R E) E
    retry = record { poll_ready = Retry.poll_ready pol svc; call = Retry.call pol svc }

-- Where there is no service, there is none to be called too early.
abbrev pub Inside : {S : Type 0} → (S → Type 0) → Option S → Type 0
Inside P none = Unit {0}
Inside P (some s) = P s

module _ {S Req F E : Type 0} (svc : Service S Req F E) (Idle Armed : S → Type 0)
    (keeps : Keeps svc Idle Armed) where
  -- The readiness of what holds a service, where it is that service's.
  abbrev Passes : {W D : Type 0} → (W → S) → S → Poll (Unit {0}) D → W → Type 0
  Passes get s p w = After (λ x. Idle (get x)) (λ x. Armed (get x)) p w

  pass :
      {W D : Type 0} (get : W → S) (s : S) (p : Poll (Unit {0}) D) (w : W)
      → Idle s
      → is_ready (svc.poll_ready s).0 ≡ is_ready p
      → (svc.poll_ready s).1 ≡ get w
      → Passes get s p w
  pass get s p w h e i =
      After-map Idle Armed (λ x. Idle (get x)) (λ x. Armed (get x)) (svc.poll_ready s).0 p
        (svc.poll_ready s).1 w e (λ h. subst Idle i h) (λ h. subst Armed i h) (keeps.asked s h)

  pub mapping-Keeps :
      {A R : Type 0}
      → Keeps (mapping svc {A = A} {R = R}) (λ w. Idle w.service) (λ w. Armed w.service)
  unfolding Mapping.poll_ready Mapping.call
  mapping-Keeps = record {
    relax = λ w h. keeps.relax w.service h;
    asked = λ w h. pass (λ x. x.service) w.service _ _ h refl refl;
    called = λ w req h. keeps.called w.service req h;
  }

  pub mapping_err-Keeps :
      {D : Type 0} → Keeps (mapping_err svc {D = D}) (λ w. Idle w.service) (λ w. Armed w.service)
  unfolding Mapping.poll_ready_err Mapping.call_err
  mapping_err-Keeps = record {
    relax = λ w h. keeps.relax w.service h;
    asked = λ w h. pass (λ x. x.service) w.service _ _ h (is_ready-map_err w.f _) refl;
    called = λ w req h. keeps.called w.service req h;
  }

  pub constant-Keeps :
      {L : Type 0} → Keeps (constant svc {L = L}) (λ w. Idle w.inner) (λ w. Armed w.inner)
  unfolding Constant.poll_ready Constant.call
  constant-Keeps = record {
    relax = λ w h. keeps.relax w.inner h;
    asked = λ w h. pass (λ x. x.inner) w.inner _ _ h refl refl;
    called = λ w req h. keeps.called w.inner req h;
  }

  module _ {P C R : Type 0} (pol : Retry.Policy P Req R E C) where
    pub retry-Keeps : Keeps (retry svc pol) (λ w. Idle w.service) (λ w. Armed w.service)
    unfolding Retry.poll_ready Retry.call
    retry-Keeps = record {
      relax = λ w h. keeps.relax w.service h;
      asked = λ w h. pass (λ x. x.service) w.service _ _ h refl refl;
      called = λ w req h. keeps.called w.service req h;
    }

  pub timeout-FedKeeps :
      {Z : Type 0} (delay : ℕ → Z)
      → FedKeeps (timeout svc delay) (λ w. Idle w.inner) (λ w. Armed w.inner)
  unfolding Timeout.poll_ready Timeout.call
  timeout-FedKeeps delay = record {
    relax = λ w h. keeps.relax w.inner h;
    asked = λ now w h. pass (λ x. x.inner) w.inner _ _ h (is_ready-map_err _ _) refl;
    called = λ now w req h. keeps.called w.inner req h;
  }

  pub pending-FedKeeps :
      {I : Type 0} → FedKeeps (pending svc {I = I}) (λ w. Idle w.service) (λ w. Armed w.service)
  unfolding PendingRequests.poll_ready PendingRequests.call
  pending-FedKeeps = record {
    relax = λ w h. keeps.relax w.service h;
    asked = λ count w h. pass (λ x. x.service) w.service _ _ h refl refl;
    called = λ count w req h. keeps.called w.service req h;
  }

  optional_asked :
      (o : Option S)
      → Inside Idle o
      → After
          (λ (w : Optional.OptionService S). Inside Idle w.inner)
          (λ (w : Optional.OptionService S). Inside Armed w.inner)
          (Optional.poll_ready_in svc o).0
          (record { inner = (Optional.poll_ready_in svc o).1 })
  unfolding Optional.poll_ready_in
  optional_asked none h = tt
  optional_asked (some s) h =
      After-map Idle Armed (λ (w : Optional.OptionService S). Inside Idle w.inner)
        (λ (w : Optional.OptionService S). Inside Armed w.inner) (svc.poll_ready s).0
        (map_err Optional.inner_error (svc.poll_ready s).0) (svc.poll_ready s).1 _
        (is_ready-map_err Optional.inner_error (svc.poll_ready s).0) (λ h. h) (λ h. h)
        (keeps.asked s h)

  optional_called :
      (o : Option S) (req : Req) → Inside Armed o → Inside Idle (Optional.call_in svc o req).1
  unfolding Optional.call_in
  optional_called none req h = tt
  optional_called (some s) req h = keeps.called s req h

  optional_relax : (o : Option S) → Inside Armed o → Inside Idle o
  optional_relax none h = tt
  optional_relax (some s) h = keeps.relax s h

  pub optional-Keeps : Keeps (optional svc) (λ w. Inside Idle w.inner) (λ w. Inside Armed w.inner)
  unfolding Optional.poll_ready Optional.call
  optional-Keeps = record {
    relax = λ w h. optional_relax w.inner h;
    asked = λ w h. optional_asked w.inner h;
    called = λ w req h. optional_called w.inner req h;
  }

module _ {A B Req FA FB E : Type 0} (svc_a : Service A Req FA E) (svc_b : Service B Req FB E) where
  abbrev pub either : Service (Optional.EitherService A B) Req (Optional.EitherService FA FB) E
  either = record {
    poll_ready = Optional.poll_ready_either svc_a svc_b;
    call = Optional.call_either svc_a svc_b;
  }

abbrev pub Chosen :
    {A B : Type 0} → (A → Type 0) → (B → Type 0) → Optional.EitherService A B → Type 0
Chosen P Q (Optional.first a) = P a
Chosen P Q (Optional.second b) = Q b

module _ {A B Req FA FB E : Type 0} (svc_a : Service A Req FA E) (svc_b : Service B Req FB E)
    (IdleA ArmedA : A → Type 0) (IdleB ArmedB : B → Type 0) (keeps_a : Keeps svc_a IdleA ArmedA)
    (keeps_b : Keeps svc_b IdleB ArmedB) where
  either_asked :
      (w : Optional.EitherService A B)
      → Chosen IdleA IdleB w
      → let (p, w') = Optional.poll_ready_either svc_a svc_b w in
        After (Chosen IdleA IdleB) (Chosen ArmedA ArmedB) p w'
  unfolding Optional.poll_ready_either
  either_asked (Optional.first a) h =
      After-map IdleA ArmedA (Chosen IdleA IdleB) (Chosen ArmedA ArmedB) (svc_a.poll_ready a).0 _
        (svc_a.poll_ready a).1 _ refl (λ h. h) (λ h. h) (keeps_a.asked a h)
  either_asked (Optional.second b) h =
      After-map IdleB ArmedB (Chosen IdleA IdleB) (Chosen ArmedA ArmedB) (svc_b.poll_ready b).0 _
        (svc_b.poll_ready b).1 _ refl (λ h. h) (λ h. h) (keeps_b.asked b h)

  either_relax : (w : Optional.EitherService A B) → Chosen ArmedA ArmedB w → Chosen IdleA IdleB w
  either_relax (Optional.first a) h = keeps_a.relax a h
  either_relax (Optional.second b) h = keeps_b.relax b h

  either_called :
      (w : Optional.EitherService A B) (req : Req)
      → Chosen ArmedA ArmedB w
      → Chosen IdleA IdleB (Optional.call_either svc_a svc_b w req).1
  unfolding Optional.call_either
  either_called (Optional.first a) req h = keeps_a.called a req h
  either_called (Optional.second b) req h = keeps_b.called b req h

  pub either-Keeps : Keeps (either svc_a svc_b) (Chosen IdleA IdleB) (Chosen ArmedA ArmedB)
  either-Keeps = record { relax = either_relax; asked = either_asked; called = either_called }
