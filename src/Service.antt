-- ===== src/Service.antt =====
-- tower-service/src/lib.rs and tower-direct-service/src/lib.rs: the traits that every middleware
-- implements and wraps. A method that takes `&mut self` returns its result with the new state of
-- `self`; what the environment will answer is part of that state.

-- `Poll<A, E>` of the futures crate: `Ok(Async::Ready(a))`, `Ok(Async::NotReady)` or `Err(e)`.
pub data Poll {ℓ κ} (A : Type ℓ) (E : Type κ) : Type (ℓ ⊔ κ) where
  ready : A → Poll A E
  not_ready : Poll A E
  err : E → Poll A E

-- `Result<A, E>` of the standard library.
pub data Result {ℓ κ} (A : Type ℓ) (E : Type κ) : Type (ℓ ⊔ κ) where
  success : A → Result A E
  failure : E → Result A E

abbrev pub map_err {ℓ κ μ} :
    {A : Type ℓ} {E : Type κ} {E' : Type μ} → (E → E') → Poll A E → Poll A E'
map_err f (ready a) = ready a
map_err f not_ready = not_ready
map_err f (err e) = err (f e)

-- `Future` of the futures crate, for futures of type `F`.
pub record Future {ℓ} (F A E : Type ℓ) : Type ℓ where
  pub poll : F → Poll A E × F

pub record Service {ℓ} (S Req F E : Type ℓ) : Type ℓ where
  pub poll_ready : S → Poll (Unit {ℓ}) E × S
  pub call : S → Req → F × S

pub record DirectService {ℓ} (S Req F E : Type ℓ) : Type ℓ where
  pub poll_ready : S → Poll (Unit {ℓ}) E × S
  pub poll_service : S → Poll (Unit {ℓ}) E × S
  pub poll_close : S → Poll (Unit {ℓ}) E × S
  pub call : S → Req → F × S
