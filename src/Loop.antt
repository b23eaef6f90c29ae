-- ===== src/Loop.antt =====
-- The loops of the `poll` methods: a turn stops with an answer, goes on, or panics.
use pants_tower.Base.{ℕ, zero, suc, ◌<◌, ◌≡◌, arith}
use pants_tower.Service.{Poll}

pub data Turn {ℓ} (S A E : Type ℓ) : Type ℓ where
  stop : Poll A E → S → Turn S A E
  again : S → Turn S A E
  crash : Turn S A E

pub data Answer {ℓ} (S A E : Type ℓ) : Type ℓ where
  answers : Poll A E → S → Answer S A E
  crashed : Answer S A E
  unfinished : Answer S A E

unfoldable pub loop {ℓ} : {S A E : Type ℓ} → ℕ → (S → Turn S A E) → S → Answer S A E
loop zero turn s = unfinished
loop (suc fuel) turn s = elim (turn s) [
  | stop p s' ↦ answers p s'
  | again s' ↦ loop fuel turn s'
  | crash ↦ crashed
]

module _ {ℓ} {S A E : Type ℓ} where
  -- What a turn may be: going on keeps `I`, an answer satisfies `Q`, and it does not panic.
  abbrev pub Keeps : (S → Type 0) → (Poll A E → S → Type 0) → Turn S A E → Type 0
  Keeps I Q (stop p s) = Q p s
  Keeps I Q (again s) = I s
  Keeps I Q crash = ⊥

  -- What an answer of the loop may be. The loop may run on.
  abbrev pub Meets : (Poll A E → S → Type 0) → Answer S A E → Type 0
  Meets Q (answers p s) = Q p s
  Meets Q crashed = ⊥
  Meets Q unfinished = Unit {0}

  -- What it may be when the loop ends.
  abbrev pub Ends : (Poll A E → S → Type 0) → Answer S A E → Type 0
  Ends Q (answers p s) = Q p s
  Ends Q crashed = ⊥
  Ends Q unfinished = ⊥

module _ {ℓ} {S A E : Type ℓ} (I : S → Type 0) (Q : Poll A E → S → Type 0) (turn : S → Turn S A E)
    (keeps : (s : S) → I s → Keeps I Q (turn s)) where
  pub loop-Meets : (fuel : ℕ) (s : S) → I s → Meets Q (loop fuel turn s)
  unfolding loop
  loop-Meets zero s h = tt
  loop-Meets (suc fuel) s h = go (turn s) (keeps s h) (loop-Meets fuel)
    where
      go :
          (t : Turn S A E)
          → Keeps I Q t
          → ((s' : S) → I s' → Meets Q (loop fuel turn s'))
          → Meets Q
              (elim t [ stop p s' ↦ answers p s' | again s' ↦ loop fuel turn s' | crash ↦ crashed ])
      go (stop p s') k ih = k
      go (again s') k ih = ih s' k
      go crash k ih = absurd k

module _ {ℓ} {S A E : Type ℓ} (I : S → Type 0) (measure : S → ℕ) (Q : Poll A E → S → Type 0)
    (turn : S → Turn S A E)
    (keeps : (s : S) → I s → Keeps (λ s'. I s' × (measure s' < measure s)) Q (turn s)) where
  -- A loop whose measure falls ends within as many turns.
  pub loop-Ends : (fuel : ℕ) (s : S) → I s → measure s < fuel → Ends Q (loop fuel turn s)
  unfolding loop
  loop-Ends zero s i h = absurd (omega arith)
  loop-Ends (suc fuel) s i h =
      go (turn s) (keeps s i) (λ s' i' l. loop-Ends fuel s' i' (omega arith))
    where
      go :
          (t : Turn S A E)
          → Keeps (λ s'. I s' × (measure s' < measure s)) Q t
          → ((s' : S) → I s' → measure s' < measure s → Ends Q (loop fuel turn s'))
          → Ends Q
              (elim t [ stop p s' ↦ answers p s' | again s' ↦ loop fuel turn s' | crash ↦ crashed ])
      go (stop p s') k ih = k
      go (again s') k ih = ih s' k.0 k.1
      go crash k ih = absurd k

module _ {ℓ} {S A E : Type ℓ} (fuel : ℕ) (turn : S → Turn S A E) where
  pub loop_stop :
      (s s' : S) (p : Poll A E) → turn s ≡ stop p s' → loop (suc fuel) turn s ≡ answers p s'
  unfolding loop
  loop_stop s s' p e = rw (e, loop)

  pub loop_again : (s s' : S) → turn s ≡ again s' → loop (suc fuel) turn s ≡ loop fuel turn s'
  unfolding loop
  loop_again s s' e = rw (e, loop)

module _ {ℓ} {S A E : Type ℓ} where
  -- What a turn may be where it does not panic.
  abbrev pub Allows : (S → Type 0) → (Poll A E → S → Type 0) → Turn S A E → Type 0
  Allows I Q (stop p s) = Q p s
  Allows I Q (again s) = I s
  Allows I Q crash = Unit {0}

  -- What an answer may be where there is one.
  abbrev pub Allowed : (Poll A E → S → Type 0) → Answer S A E → Type 0
  Allowed Q (answers p s) = Q p s
  Allowed Q crashed = Unit {0}
  Allowed Q unfinished = Unit {0}

  pub Meets-Allowed :
      (Q R : Poll A E → S → Type 0) (a : Answer S A E)
      → Meets Q a
      → Allowed R a
      → Meets (λ p s. Q p s × R p s) a
  Meets-Allowed Q R (answers p s) h k = (h, k)
  Meets-Allowed Q R crashed h k = h
  Meets-Allowed Q R unfinished h k = tt

  pub Ends-Allowed :
      (Q R : Poll A E → S → Type 0) (a : Answer S A E)
      → Ends Q a
      → Allowed R a
      → Ends (λ p s. Q p s × R p s) a
  Ends-Allowed Q R (answers p s) h k = (h, k)
  Ends-Allowed Q R crashed h k = h
  Ends-Allowed Q R unfinished h k = h

module _ {ℓ} {S A E : Type ℓ} (I : S → Type 0) (Q : Poll A E → S → Type 0) (turn : S → Turn S A E)
    (allows : (s : S) → I s → Allows I Q (turn s)) where
  pub loop-Allowed : (fuel : ℕ) (s : S) → I s → Allowed Q (loop fuel turn s)
  unfolding loop
  loop-Allowed zero s h = tt
  loop-Allowed (suc fuel) s h = go (turn s) (allows s h) (loop-Allowed fuel)
    where
      go :
          (t : Turn S A E)
          → Allows I Q t
          → ((s' : S) → I s' → Allowed Q (loop fuel turn s'))
          → Allowed Q
              (elim t [ stop p s' ↦ answers p s' | again s' ↦ loop fuel turn s' | crash ↦ crashed ])
      go (stop p s') k ih = k
      go (again s') k ih = ih s' k
      go crash k ih = tt

module _ {ℓ} {S A E : Type ℓ} (Q R : Poll A E → S → Type 0) where
  pub Meets-mono :
      (a : Answer S A E) → ((p : Poll A E) (s : S) → Q p s → R p s) → Meets Q a → Meets R a
  Meets-mono (answers p s) f h = f p s h
  Meets-mono crashed f h = h
  Meets-mono unfinished f h = h
