-- ===== src/Router/System.antt =====
-- A router of tower-router/src/lib.rs with the response futures that it has given.
use pants_tower.Base.{◌≡◌, List, ◌∷◌, ◌++◌}
use pants_tower.Service.{Poll, Service, Future}
use pants_tower.Loop.{answers}
use pants_tower.Router.{
  Borrow, Recognize, Error, ResponseFuture, poll_ready, call, poll, drop_state,
}

-- The router with its response futures.
pub record System (B Req R G F RE : Type 0) : Type 0 where
  pub router : B
  pub futures : List (ResponseFuture Req R G F RE)

module _ {B G T Req R S F A E RE : Type 0} (cells : Borrow B G T) (routes : Recognize T Req R S RE)
    (svc : Service S Req F E) (fut : Future F A E) where
  pub data Step (s t : System B Req R G F RE) : Type 0 where
    polls_ready : t ≡ record s { router = (poll_ready cells s.router).1 } → Step s t
    calls :
        (request : Req)
        → t ≡ (
            let (f, b) = call cells routes s.router request in
            record s { router = b; futures = f ∷ s.futures })
        → Step s t
    polls :
        (f g : ResponseFuture Req R G F RE) (p : Poll A (Error E RE)) (b : B)
        (before after : List (ResponseFuture Req R G F RE))
        → s.futures ≡ before ++ (f ∷ after)
        → poll cells routes svc fut (f, s.router) ≡ answers p (g, b)
        → t ≡ record s { router = b; futures = before ++ (g ∷ after) }
        → Step s t
    drops :
        (f : ResponseFuture Req R G F RE) (before after : List (ResponseFuture Req R G F RE))
        → s.futures ≡ before ++ (f ∷ after)
        → t ≡ record s { router = drop_state cells f.state s.router; futures = before ++ after }
        → Step s t

  pub data Reach (s : System B Req R G F RE) : System B Req R G F RE → Type 0 where
    here : Reach s s
    next : {t u : System B Req R G F RE} → Reach s t → Step t u → Reach s u
