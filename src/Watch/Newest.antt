-- ===== src/Watch/Newest.antt =====
-- To which value the service of tower-watch/src/lib.rs is bound.
use pants_tower.Base.{
  ◌≡◌, ◌⊎◌, inl, inr, refl, sym, ap, subst, ◌∙◌, true, Option, none, some, List, [], ◌∷◌,
}
use pants_tower.Service.{Poll, ready, not_ready, err, Service}
use pants_tower.Watch.{
  Watch, Bind, WatchService, new, rebind, after_watch, poll_rebind, poll_inner, after_rebind,
  poll_ready, call,
}

-- What happens to a service and its watch.
pub data Op (T Req : Type 0) : Type 0 where
  stores : T → Op T Req
  polls_ready : Op T Req
  calls : Req → Op T Req

module _ {W T WE C S Req F E : Type 0} (watches : Watch W T WE) (binds : Bind C T S)
    (svc : Service S Req F E) where
  apply : Op T Req → WatchService W C S → WatchService W C S
  apply (stores t) self = record self { watch = watches.store t self.watch }
  apply polls_ready self = (poll_ready watches binds svc self).1
  apply (calls req) self = (call watches binds svc self req).1

  pub run : List (Op T Req) → WatchService W C S → WatchService W C S
  run [] self = self
  run (op ∷ ops) self = run ops (apply op self)

-- `Bound t s` says that `s` was bound to `t` once, which its own operations do not change.
pub record Binds {C T S Req F E : Type 0} (binds : Bind C T S) (svc : Service S Req F E)
    (Bound : T → S → Type 0) : Type 0 where
  pub bound-bind : (c : C) (t : T) → Bound t (binds.bind c t).0
  pub bound-poll_ready : (t : T) (s : S) → Bound t s → Bound t (svc.poll_ready s).1
  pub bound-call : (t : T) (s : S) (req : Req) → Bound t s → Bound t (svc.call s req).1

module _ {W T WE C S Req F E : Type 0} (watches : Watch W T WE) (binds : Bind C T S)
    (svc : Service S Req F E) (Bound : T → S → Type 0) (keeps : Binds binds svc Bound) where
  -- The service is bound to the newest value, unless a change of it is still to be notified.
  abbrev UpToDate : WatchService W C S → Type 0
  UpToDate self =
      (watches.changed self.watch ≡ true) ⊎ Bound (watches.current self.watch) self.inner

  abbrev Fresh : WatchService W C S → Type 0
  Fresh self = Bound (watches.current self.watch) self.inner

  rebind-Fresh : (self : WatchService W C S) → Fresh (rebind watches binds self)
  unfolding rebind
  rebind-Fresh self = keeps.bound-bind self.binder (watches.current self.watch)

  after_watch-Fresh :
      (p : Poll (Option (Unit {0})) WE) (self : WatchService W C S)
      → (p ≡ ready (some tt)) ⊎ Fresh self
      → Fresh (after_watch watches binds p self).1
  unfolding after_watch
  after_watch-Fresh (ready (some u)) self h = rebind-Fresh self
  after_watch-Fresh (ready none) self (inl e) = absurd (cc e)
  after_watch-Fresh (ready none) self (inr h) = h
  after_watch-Fresh not_ready self (inl e) = absurd (cc e)
  after_watch-Fresh not_ready self (inr h) = h
  after_watch-Fresh (err e) self (inl q) = absurd (cc q)
  after_watch-Fresh (err e) self (inr h) = h

  poll_rebind-Fresh :
      (self : WatchService W C S) → UpToDate self → Fresh (poll_rebind watches binds self).1
  unfolding poll_rebind
  poll_rebind-Fresh self (inl e) =
      after_watch-Fresh (watches.poll self.watch).0
        (record self { watch = (watches.poll self.watch).1 })
        (inl (watches.poll_changed self.watch e))
  poll_rebind-Fresh self (inr h) =
      after_watch-Fresh (watches.poll self.watch).0
        (record self { watch = (watches.poll self.watch).1 })
        (inr (subst (λ t. Bound t self.inner) (sym (watches.current-poll self.watch)) h))

  poll_inner-Fresh :
      (self : WatchService W C S) → Fresh self → Fresh (poll_inner watches binds svc self).1
  unfolding poll_inner
  poll_inner-Fresh self h = keeps.bound-poll_ready (watches.current self.watch) self.inner h

  after_rebind-Fresh :
      (p : Poll (Unit {0}) WE) (self : WatchService W C S)
      → Fresh self
      → Fresh (after_rebind watches binds svc p self).1
  unfolding after_rebind
  after_rebind-Fresh (ready u) self h = poll_inner-Fresh self h
  after_rebind-Fresh not_ready self h = poll_inner-Fresh self h
  after_rebind-Fresh (err e) self h = h

  poll_ready-Fresh :
      (self : WatchService W C S) → UpToDate self → Fresh (poll_ready watches binds svc self).1
  unfolding poll_ready
  poll_ready-Fresh self h =
      let (p, self') = poll_rebind watches binds self in
      after_rebind-Fresh p self' (poll_rebind-Fresh self h)

  watch-after_watch :
      (p : Poll (Option (Unit {0})) WE) (self : WatchService W C S)
      → (after_watch watches binds p self).1.watch ≡ self.watch
  unfolding after_watch rebind
  watch-after_watch (ready (some u)) self = refl
  watch-after_watch (ready none) self = refl
  watch-after_watch not_ready self = refl
  watch-after_watch (err e) self = refl

  watch-after_rebind :
      (p : Poll (Unit {0}) WE) (self : WatchService W C S)
      → (after_rebind watches binds svc p self).1.watch ≡ self.watch
  unfolding after_rebind poll_inner
  watch-after_rebind (ready u) self = refl
  watch-after_rebind not_ready self = refl
  watch-after_rebind (err e) self = refl

  current-poll_ready :
      (self : WatchService W C S)
      → watches.current (poll_ready watches binds svc self).1.watch ≡ watches.current self.watch
  unfolding poll_ready poll_rebind
  current-poll_ready self =
      let (p, w) = watches.poll self.watch in
      let (q, self') = poll_rebind watches binds self in
      ap watches.current
        (watch-after_rebind q self' ∙ watch-after_watch p (record self { watch = w }))
      ∙ watches.current-poll self.watch

  apply-UpToDate :
      (op : Op T Req) (self : WatchService W C S)
      → UpToDate self
      → UpToDate (apply watches binds svc op self)
  unfolding apply call
  apply-UpToDate (stores t) self h = inl (watches.changed-store t self.watch)
  apply-UpToDate polls_ready self h = inr (poll_ready-Fresh self h)
  apply-UpToDate (calls req) self (inl e) = inl e
  apply-UpToDate (calls req) self (inr h) =
      inr (keeps.bound-call (watches.current self.watch) self.inner req h)

  run-UpToDate :
      (ops : List (Op T Req)) (self : WatchService W C S)
      → UpToDate self
      → UpToDate (run watches binds svc ops self)
  unfolding run
  run-UpToDate [] self h = h
  run-UpToDate (op ∷ ops) self h =
      run-UpToDate ops (apply watches binds svc op self) (apply-UpToDate op self h)

  -- After a new service and any stores, readiness polls and calls, one more `poll_ready`, whatever
  -- it answers, leaves the inner service bound to the newest value that was stored.
  pub poll_ready-run :
      (watch : W) (binder : C) (ops : List (Op T Req))
      → let self = run watches binds svc ops (new watches binds watch binder) in
        let self' = (poll_ready watches binds svc self).1 in
        Bound (watches.current self.watch) self'.inner
  unfolding new
  poll_ready-run watch binder ops =
      let self = run watches binds svc ops (new watches binds watch binder) in
      subst (λ t. Bound t (poll_ready watches binds svc self).1.inner) (current-poll_ready self)
        (poll_ready-Fresh self (
          run-UpToDate ops (new watches binds watch binder)
            (inr (keeps.bound-bind binder (watches.current watch)))))
