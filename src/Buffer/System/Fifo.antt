-- ===== src/Buffer/System/Fifo.antt =====
-- The order of the requests of tower-buffer/src/lib.rs, from the handles to the service.
use mathlib.Core.Path.{fun_ext}
use mathlib.Core.List.Sublist.{trans, refl as sublist_refl}
use pants_tower.Base.{
  ℕ, ◌+◌, ◌*◌, ◌<◌, ◌≡◌, refl, sym, ap, subst, ◌∙◌, Bool, true, false, List, [], ◌∷◌, ◌++◌, map,
  arith,
}
use pants_tower.Service.{DirectService}
use pants_tower.Machine.{Ends, Ends-mono}
use pants_tower.Channels.{Mpsc, Oneshot}
use pants_tower.Buffer.{Message}
use pants_tower.Buffer.Client.{Buffer, call}
use pants_tower.Buffer.Worker.{poll}
use pants_tower.Buffer.Worker.Queue.{live, optional}
use pants_tower.Buffer.Worker.Order.{
  recorded, waiting, pending, Kept, Settled, waits, finished, broken,
}
use pants_tower.Buffer.Worker.Ending.{poll-Settled}
use pants_tower.Buffer.Delivery.{Kept-call}
use pants_tower.Buffer.System.{
  State, gone, called, Untaken, Reach, starts, accepts, refuses, receives, gives_up, runs, Ordered,
  requests, append-Sublist, Sublist-snoc, live-Sublist,
}

module _ {S Req F E H T Q O : Type 0} (svc : DirectService S Req F E)
    (mpsc : Mpsc T Q (Message Req H)) (oneshot : Oneshot H F O) where
  abbrev W : Type 0
  W = State svc mpsc oneshot

  abbrev here : O → H → Bool
  here = gone svc mpsc oneshot

  abbrev asked : W → List Req
  asked = requests svc mpsc oneshot

  -- All that is asked of a state is kept by it.
  abbrev Keeps : W → Type 0
  Keeps w = Kept svc mpsc oneshot (here w.shared.oneshots) (asked w) w

  requests-Kept :
      (dropped : H → Bool) (all : List Req) (w : W)
      → Kept svc mpsc oneshot dropped all w
      → (asked w ≡ all) × Keeps w
  requests-Kept dropped all w k =
      let e : here w.shared.oneshots ≡ dropped = fun_ext k.agrees in
      (
        ap (λ d. w.service.1 ++ waiting svc mpsc oneshot d all w) e ∙ k.sent,
        record { sent = refl; drained = k.drained; agrees = λ h. refl },
      )

  record Holds (w : W) (accepted : List Req) (patient : Bool) : Type 0 where
    keeps : Keeps w
    ordered : Ordered svc mpsc oneshot patient (asked w) accepted

  call-Untaken :
      (self : Buffer T) (request : Req) (w : W)
      → Untaken svc mpsc oneshot self request w
      → let w' = called svc mpsc oneshot self request w in
        (mpsc.contents w'.shared.queue ≡ mpsc.contents w.shared.queue)
        × (w'.shared.oneshots ≡ (oneshot.channel w.shared.oneshots).1)
  unfolding call
  call-Untaken self request w e =
      let m : Message Req H = record {
        request = request;
        tx = (oneshot.channel w.shared.oneshots).0;
      } in
      ground (arith, e, mpsc.contents_refused self.tx m w.shared.queue e)

  Untaken-Kept :
      (self : Buffer T) (request : Req) (w : W)
      → Untaken svc mpsc oneshot self request w
      → Keeps w
      → w.finish ≡ false
      → Kept svc mpsc oneshot
          (here w.shared.oneshots)
          (asked w)
          (called svc mpsc oneshot self request w)
  Untaken-Kept self request w e k u =
      let (q, o) = call-Untaken self request w e in
      record {
        sent =
            ap
              (λ ms.
                w.service.1
                ++ map (λ m. m.request)
                    (live (here w.shared.oneshots) (optional w.current_message ms)))
              q;
        drained = λ f. absurd (cc u);
        agrees = λ h. ap (oneshot.canceled h) o ∙ oneshot.canceled-channel h w.shared.oneshots;
      }

  Ordered-snoc :
      (patient : Bool) (xs ys : List Req) (r : Req)
      → Ordered svc mpsc oneshot patient xs ys
      → Ordered svc mpsc oneshot patient (xs ++ r ∷ []) (ys ++ r ∷ [])
  Ordered-snoc patient xs ys r h = record {
    in_order = Sublist-snoc r h.in_order;
    complete = λ p. ap (λ zs. zs ++ r ∷ []) (h.complete p);
  }

  Holds-Kept :
      (dropped : H → Bool) (all accepted : List Req) (patient : Bool) (w : W)
      → Kept svc mpsc oneshot dropped all w
      → Ordered svc mpsc oneshot patient all accepted
      → Holds w accepted patient
  Holds-Kept dropped all accepted patient w k h =
      let (e, keeps) = requests-Kept dropped all w k in
      record {
        keeps = keeps;
        ordered = subst (λ xs. Ordered svc mpsc oneshot patient xs accepted) (sym e) h;
      }

  returns-Kept :
      (w' : W) (dropped : H → Bool) (all : List Req)
      → Settled svc mpsc oneshot dropped all false w'
      → Kept svc mpsc oneshot dropped all w'
  returns-Kept w' dropped all (waits e k) = k
  returns-Kept w' dropped all (finished e s) = absurd (cc)
  returns-Kept w' dropped all (broken r e o s) = absurd (cc)

  Reach-Holds :
      {w : W} {accepted : List Req} {patient : Bool}
      → Reach svc mpsc oneshot w accepted patient
      → Holds w accepted patient
  Reach-Holds {w} (starts c q s f) = record {
    keeps = record { sent = refl; drained = λ e. absurd (cc f); agrees = λ h. refl };
    ordered = rw (s, c, q) (record { in_order = sublist_refl []; complete = λ e. refl });
  }
  Reach-Holds (accepts {w} {accepted} {patient} r self request f t) =
      let h = Reach-Holds r in
      Holds-Kept (here w.shared.oneshots) (asked w ++ request ∷ []) _ patient _
        (Kept-call svc mpsc oneshot (here w.shared.oneshots) (asked w) self w request h.keeps f t)
        (Ordered-snoc patient (asked w) accepted request h.ordered)
  Reach-Holds (refuses {w} {accepted} {patient} r self request f t) =
      let h = Reach-Holds r in
      Holds-Kept (here w.shared.oneshots) (asked w) accepted patient _
        (Untaken-Kept self request w t h.keeps f) h.ordered
  Reach-Holds (receives {w} {accepted} {patient} r o e) =
      let h = Reach-Holds r in
      Holds-Kept (here w.shared.oneshots) (asked w) accepted patient _
        (record { sent = refl; drained = h.keeps.drained; agrees = e }) h.ordered
  Reach-Holds (gives_up {w} {accepted} r o g) =
      let h = Reach-Holds r in
      record {
        keeps = record { sent = refl; drained = h.keeps.drained; agrees = λ x. refl };
        ordered = record {
          in_order = trans (append-Sublist w.service.1 (live-Sublist _ _ g _)) h.ordered.in_order;
          complete = λ e. absurd (cc e);
        };
      }
  Reach-Holds (runs {w} {w'} {accepted} {patient} r skips fuel l m e) =
      let h = Reach-Holds r in
      Holds-Kept (here w.shared.oneshots) (asked w) accepted patient w'
        (returns-Kept w' (here w.shared.oneshots) (asked w) (
          subst
            (Ends (Settled svc mpsc oneshot (here w.shared.oneshots) (asked w))
              (λ e w'. Kept svc mpsc oneshot (here w.shared.oneshots) (asked w) w'))
            e
            (poll-Settled svc mpsc oneshot (here w.shared.oneshots) (asked w) skips fuel w h.keeps l
              m)))
        h.ordered

  -- How a poll ends: with requests sent and waiting; with all sent, at the end of the queue; or
  -- with the worker done and the buffer closed, so that the request at hand and those that still
  -- waited are dropped with it.
  pub data Served (patient : Bool) (accepted : List Req) (alive : H → Bool) (done : Bool) (w : W)
      : Type 0 where
    goes_on :
        done ≡ false
        → Ordered svc mpsc oneshot patient (asked w) accepted
        → Served patient accepted alive done w
    all_sent :
        done ≡ true
        → Ordered svc mpsc oneshot patient w.service.1 accepted
        → Served patient accepted alive done w
    cut_off :
        (request : Req)
        → done ≡ true
        → w.shared.is_open ≡ false
        → Ordered svc mpsc oneshot patient
            (w.service.1 ++ request ∷ waiting svc mpsc oneshot alive [] w)
            accepted
        → Served patient accepted alive done w

  Settled-Served :
      (dropped : H → Bool) (all accepted : List Req) (patient done : Bool) (w : W)
      → Ordered svc mpsc oneshot patient all accepted
      → Settled svc mpsc oneshot dropped all done w
      → Served patient accepted dropped done w
  Settled-Served dropped all accepted patient done w h (waits e k) =
      goes_on e (Holds-Kept dropped all accepted patient w k h).ordered
  Settled-Served dropped all accepted patient done w h (finished e s) =
      all_sent e (subst (λ xs. Ordered svc mpsc oneshot patient xs accepted) (sym s) h)
  Settled-Served dropped all accepted patient done w h (broken r e o s) =
      cut_off r e o (subst (λ xs. Ordered svc mpsc oneshot patient xs accepted) (sym s) h)

  -- In every state that the handles, their callers and the worker reach, in any order of calls
  -- that the queue takes or refuses, of responses taken or given up, and of polls of the worker,
  -- the next poll, with fuel for more skipped messages than wait and for more than twice as many
  -- turns and one, ends. Requests are said to be in order when they are accepted ones in the order
  -- in which they were accepted, each at most once, and all of them where no caller has given up.
  -- Either the worker goes on, and those that the service was called with and then those that wait
  -- are in order; or it is done at the end of the queue, and those that the service was called
  -- with are in order; or it is done with the buffer closed, and those that the service was called
  -- with, then the one at hand and those that still waited, which are dropped with the worker, are
  -- in order. Where the poll fails, those that the service was called with, and then those that
  -- still waited, which are dropped with the worker, are in order.
  pub Reach-Served :
      {w : W} {accepted : List Req} {patient : Bool}
      → Reach svc mpsc oneshot w accepted patient
      → (skips fuel : ℕ) → pending svc mpsc oneshot (here w.shared.oneshots) accepted w < skips
      → 2 * pending svc mpsc oneshot (here w.shared.oneshots) accepted w + 1 < fuel
      → Ends
          (Served patient accepted (here w.shared.oneshots))
          (λ e w'. Ordered svc mpsc oneshot patient (asked w') accepted)
          (poll (recorded svc) mpsc oneshot skips fuel w)
  Reach-Served {w} {accepted} {patient} r skips fuel l m =
      let h = Reach-Holds r in
      let alive = here w.shared.oneshots in
      Ends-mono (Settled svc mpsc oneshot alive (asked w)) _
        (λ e w'. Kept svc mpsc oneshot alive (asked w) w') _
        (poll (recorded svc) mpsc oneshot skips fuel w)
        (poll-Settled svc mpsc oneshot alive (asked w) skips fuel w h.keeps l m)
        (λ done w' s. Settled-Served alive (asked w) accepted patient done w' h.ordered s)
        (λ e w' k. (Holds-Kept alive (asked w) accepted patient w' k h.ordered).ordered)
