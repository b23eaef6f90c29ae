-- ===== src/Constant.antt =====
-- tower-balance/src/load/constant.rs: a service, or a discovery of services, with a load that does
-- not change.
use pants_tower.Base.{Bool}
use pants_tower.Service.{Poll, ready, not_ready, err, Service}
use pants_tower.Choose.{Load}
use pants_tower.Discover.{Change, insert, remove, Discover}

pub record Constant (T L : Type 0) : Type 0 where
  pub inner : T
  pub load : L

new : {T L : Type 0} → T → L → Constant T L
new inner load = record { inner = inner; load = load }

-- `le` compares the loads.
constant_load : {T L : Type 0} → (L → L → Bool) → Load (Constant T L) L
constant_load le = record { load = λ self. self.load; le = le }

module _ {S L Req F E : Type 0} (svc : Service S Req F E) where
  unfoldable pub poll_ready : Constant S L → Poll (Unit {0}) E × Constant S L
  poll_ready self = let (p, s) = svc.poll_ready self.inner in (p, record self { inner = s })

  unfoldable pub call : Constant S L → Req → F × Constant S L
  call self req = let (f, s) = svc.call self.inner req in (f, record self { inner = s })

-- A change with its service wrapped.
wrap : {K V L : Type 0} → L → Change K V → Change K (Constant V L)
unfolding new
wrap load (insert k svc) = insert k (new svc load)
wrap load (remove k) = remove k

wrap_poll : {K V L E : Type 0} → L → Poll (Change K V) E → Poll (Change K (Constant V L)) E
unfolding wrap
wrap_poll load (ready c) = ready (wrap load c)
wrap_poll load not_ready = not_ready
wrap_poll load (err e) = err e

module _ {D K V L E : Type 0} (disc : Discover D K V E) where
  poll : Constant D L → Poll (Change K (Constant V L)) E × Constant D L
  unfolding wrap_poll
  poll self =
      let (p, d) = disc.poll self.inner in (wrap_poll self.load p, record self { inner = d })
