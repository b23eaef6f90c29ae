-- ===== src/Channels.antt =====
-- The channels of the futures crate, as tower-buffer uses them: the operations, and what the crate
-- documents of them. A bounded queue is one cell, that its senders and its receiver share; the
-- oneshots are cells of one store, each with a name that both of its ends hold.
pub mod Lists
use pants_tower.Base.{◌≡◌, ◌⊎◌, Bool, true, false, List, [], ◌∷◌, ◌++◌, Option, none, some}
use pants_tower.Service.{Poll, ready, not_ready, Result, success, failure}

-- `T` is a sender, `Q` the cell, and `M` a message.
pub record Mpsc (T Q M : Type 0) : Type 0 where
  pub poll_ready : T → Q → Poll (Unit {0}) (Unit {0}) × T × Q
  pub try_send : T → M → Q → Result (Unit {0}) (Unit {0}) × T × Q
  pub poll : Q → Poll (Option M) (Unit {0}) × Q
  -- The messages that are sent and not yet received.
  pub contents : Q → List M
  pub contents-try_send :
      (t : T) (m : M) (q : Q)
      → (try_send t m q).0 ≡ success tt
      → contents (try_send t m q).2 ≡ contents q ++ m ∷ []
  pub contents_refused :
      (t : T) (m : M) (q : Q)
      → (try_send t m q).0 ≡ failure tt
      → contents (try_send t m q).2 ≡ contents q
  pub poll_some :
      (q : Q) (m : M) (ms : List M)
      → contents q ≡ m ∷ ms
      → ((poll q).0 ≡ ready (some m)) × (contents (poll q).1 ≡ ms)
  -- `none` where there is no sender any more.
  pub poll_none :
      (q : Q)
      → contents q ≡ []
      → (((poll q).0 ≡ ready none) ⊎ ((poll q).0 ≡ not_ready)) × (contents (poll q).1 ≡ [])

-- `H` is the name of a oneshot, `F` its value, and `O` the store.
pub record Oneshot (H F O : Type 0) : Type 0 where
  pub channel : O → H × O
  pub send : H → F → O → Result (Unit {0}) F × O
  pub poll_cancel : H → O → Poll (Unit {0}) (Unit {0}) × O
  pub poll : H → O → Poll F (Unit {0}) × O
  -- Is the receiver dropped, and what was sent and not yet received?
  pub canceled : H → O → Bool
  pub delivered : H → O → Option F
  pub canceled-channel : (g : H) (o : O) → canceled g (channel o).1 ≡ canceled g o
  pub channel_alive : (o : O) → canceled (channel o).0 (channel o).1 ≡ false
  pub canceled-poll_cancel : (h g : H) (o : O) → canceled g (poll_cancel h o).1 ≡ canceled g o
  pub canceled-send : (h g : H) (f : F) (o : O) → canceled g (send h f o).1 ≡ canceled g o
  pub poll_cancel_dropped : (h : H) (o : O) → canceled h o ≡ true → (poll_cancel h o).0 ≡ ready tt
  pub poll_cancel_alive : (h : H) (o : O) → canceled h o ≡ false → (poll_cancel h o).0 ≡ not_ready
  pub delivered-send :
      (h : H) (f : F) (o : O) → canceled h o ≡ false → delivered h (send h f o).1 ≡ some f
  pub poll_delivered : (h : H) (f : F) (o : O) → delivered h o ≡ some f → (poll h o).0 ≡ ready f
