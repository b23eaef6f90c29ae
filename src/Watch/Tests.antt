-- ===== src/Watch/Tests.antt =====
-- tower-watch/src/lib.rs with services that are the value they were bound to.
use pants_tower.Base.{ℕ, ◌≡◌, refl, Bool, true, false, some, [], ◌∷◌, if◌then◌else◌}
use pants_tower.Service.{ready, not_ready, Service}
use pants_tower.Watch.{Watch, Bind, new, poll_ready}
use pants_tower.Watch.Newest.{stores, polls_ready, calls, run, Binds, poll_ready-run}

-- The value, and whether it has changed.
abbrev cell : Watch (ℕ × Bool) ℕ (Unit {0})
cell = record {
  poll = λ w. (if w.1 then ready (some tt) else not_ready, (w.0, false));
  current = λ w. w.0;
  store = λ t w. (t, true);
  changed = λ w. w.1;
  current-store = λ t w. refl;
  current-poll = λ w. refl;
  changed-store = λ t w. refl;
  poll_changed = λ w e. rw e refl;
}

abbrev identity : Bind (Unit {0}) ℕ ℕ
identity = record { bind = λ c t. (t, c) }

abbrev answers : Service ℕ ℕ ℕ ℕ
answers = record { poll_ready = λ s. (ready tt, s); call = λ s r. (s, s) }

equal-Binds : Binds identity answers (λ t s. s ≡ t)
equal-Binds = record {
  bound-bind = λ c t. refl;
  bound-poll_ready = λ t s e. e;
  bound-call = λ t s req e. e;
}

poll_ready-run_example :
    let self =
      run cell identity answers
        (calls 1 ∷ polls_ready ∷ stores 3 ∷ stores 4 ∷ [])
        (new cell identity (1, false) tt) in
    (poll_ready cell identity answers self).1.inner ≡ self.watch.0
poll_ready-run_example =
    poll_ready-run cell identity answers (λ t s. s ≡ t) equal-Binds (1, false) tt
      (calls 1 ∷ polls_ready ∷ stores 3 ∷ stores 4 ∷ [])
