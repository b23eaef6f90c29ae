-- ===== src/Optional.antt =====
-- tower-util/src/option.rs and either.rs.
use pants_tower.Base.{Option, none, some}
use pants_tower.Service.{Poll, ready, err, map_err, Future, Service}

pub record OptionService (S : Type 0) : Type 0 where
  pub inner : Option S

pub record ResponseFuture (F : Type 0) : Type 0 where
  pub inner : Option F

pub data Error (E : Type 0) : Type 0 where
  inner_error : E → Error E
  no_service : Error E

with_some : {S : Type 0} → S → OptionService S
with_some inner = record { inner = some inner }

with_none : {S : Type 0} → OptionService S
with_none = record { inner = none }

module _ {S Req F E : Type 0} (svc : Service S Req F E) where
  unfoldable pub poll_ready_in : Option S → Poll (Unit {0}) (Error E) × Option S
  poll_ready_in (some s) = let (p, s') = svc.poll_ready s in (map_err inner_error p, some s')
  poll_ready_in none = (ready tt, none)

  unfoldable pub poll_ready : OptionService S → Poll (Unit {0}) (Error E) × OptionService S
  unfolding poll_ready_in
  poll_ready self = let (p, s) = poll_ready_in self.inner in (p, record { inner = s })

  unfoldable pub call_in : Option S → Req → Option F × Option S
  call_in (some s) request = let (f, s') = svc.call s request in (some f, some s')
  call_in none request = (none, none)

  unfoldable pub call : OptionService S → Req → ResponseFuture F × OptionService S
  unfolding call_in
  call self request =
      let (f, s) = call_in self.inner request in (record { inner = f }, record { inner = s })

module _ {F A E : Type 0} (fut : Future F A E) where
  poll_in : Option F → Poll A (Error E) × Option F
  poll_in (some f) = let (p, f') = fut.poll f in (map_err inner_error p, some f')
  poll_in none = (err no_service, none)

  pub poll : ResponseFuture F → Poll A (Error E) × ResponseFuture F
  unfolding poll_in
  poll self = let (p, f) = poll_in self.inner in (p, record { inner = f })

pub data EitherService (A B : Type 0) : Type 0 where
  first : A → EitherService A B
  second : B → EitherService A B

module _ {A B Req FA FB E : Type 0} (svc_a : Service A Req FA E) (svc_b : Service B Req FB E) where
  unfoldable pub poll_ready_either : EitherService A B → Poll (Unit {0}) E × EitherService A B
  poll_ready_either (first s) = let (p, s') = svc_a.poll_ready s in (p, first s')
  poll_ready_either (second s) = let (p, s') = svc_b.poll_ready s in (p, second s')

  unfoldable pub call_either : EitherService A B → Req → EitherService FA FB × EitherService A B
  call_either (first s) request = let (f, s') = svc_a.call s request in (first f, first s')
  call_either (second s) request = let (f, s') = svc_b.call s request in (second f, second s')
