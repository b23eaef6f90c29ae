-- ===== src/Machine.antt =====
-- A method on `&mut self` that may return early by `?` or panic, as a monad over the state. A
-- loop runs on fuel, and `hangs` is what it does when the fuel is out.
use pants_tower.Base.{Option, none, some}

pub data Outcome {ℓ} (S A E : Type ℓ) : Type ℓ where
  returns : A → S → Outcome S A E
  fails : E → S → Outcome S A E
  panics : Outcome S A E
  hangs : Outcome S A E

-- No outcome of this kind.
pub data No {ℓ} : Type ℓ where

abbrev pub Method {ℓ} : Type ℓ → Type ℓ → Type ℓ → Type ℓ
Method S A E = S → Outcome S A E

abbrev pub bind {ℓ} : {S A B E : Type ℓ} → Outcome S A E → (A → Method S B E) → Outcome S B E
bind (returns a s) f = f a s
bind (fails e s) f = fails e s
bind panics f = panics
bind hangs f = hangs

infixl 5 ◌>>=◌ ◌>>◌
abbrev pub ◌>>=◌ {ℓ} : {S A B E : Type ℓ} → Method S A E → (A → Method S B E) → Method S B E
◌>>=◌ m f s = bind (m s) f

abbrev pub ◌>>◌ {ℓ} : {S A B E : Type ℓ} → Method S A E → Method S B E → Method S B E
m >> k = m >>= λ _. k

abbrev pub return {ℓ} : {S A E : Type ℓ} → A → Method S A E
return a s = returns a s

-- `Option::expect`.
abbrev pub expect {ℓ} : {S A E : Type ℓ} → Option A → Method S A E
expect none s = panics
expect (some a) s = returns a s

abbrev pub modify {ℓ} : {S E : Type ℓ} → (S → S) → Method S (Unit {ℓ}) E
modify f s = returns tt (f s)

-- The method ends, with `P` of its result and the state, or with `Q` of its error and the state.
abbrev pub Ends {ℓ} :
    {S A E : Type ℓ} → (A → S → Type ℓ) → (E → S → Type ℓ) → Outcome S A E → Type ℓ
Ends P Q (returns a s) = P a s
Ends P Q (fails e s) = Q e s
Ends P Q panics = No
Ends P Q hangs = No

module _ {ℓ} {S A B E : Type ℓ} (P : A → S → Type ℓ) (R : B → S → Type ℓ) (Q : E → S → Type ℓ) where
  pub bind-Ends :
      (o : Outcome S A E) (f : A → Method S B E)
      → Ends P Q o
      → ((a : A) (s : S) → P a s → Ends R Q (f a s))
      → Ends R Q (bind o f)
  bind-Ends (returns a s) f h k = k a s h
  bind-Ends (fails e s) f h k = h
  bind-Ends panics f h k = elim h [ ]
  bind-Ends hangs f h k = elim h [ ]

module _ {ℓ} {S A E : Type ℓ} (P R : A → S → Type ℓ) (Q T : E → S → Type ℓ) where
  pub Ends-mono :
      (o : Outcome S A E)
      → Ends P Q o
      → ((a : A) (s : S) → P a s → R a s)
      → ((e : E) (s : S) → Q e s → T e s)
      → Ends R T o
  Ends-mono (returns a s) h k l = k a s h
  Ends-mono (fails e s) h k l = l e s h
  Ends-mono panics h k l = elim h [ ]
  Ends-mono hangs h k l = elim h [ ]

-- `P` of the result and the state, or `Q` of the error and the state, where the method ends.
abbrev pub Allows {ℓ} :
    {S A E : Type ℓ} → (A → S → Type ℓ) → (E → S → Type ℓ) → Outcome S A E → Type ℓ
Allows P Q (returns a s) = P a s
Allows P Q (fails e s) = Q e s
Allows P Q panics = Unit
Allows P Q hangs = Unit

module _ {ℓ} {S A B E : Type ℓ} (P : A → S → Type ℓ) (R : B → S → Type ℓ) (Q : E → S → Type ℓ) where
  pub bind-Allows :
      (o : Outcome S A E) (f : A → Method S B E)
      → Allows P Q o
      → ((a : A) (s : S) → P a s → Allows R Q (f a s))
      → Allows R Q (bind o f)
  bind-Allows (returns a s) f h k = k a s h
  bind-Allows (fails e s) f h k = h
  bind-Allows panics f h k = tt
  bind-Allows hangs f h k = tt

module _ {ℓ} {S A E : Type ℓ} (P R : A → S → Type ℓ) (Q T : E → S → Type ℓ) where
  pub Ends-Allows :
      (o : Outcome S A E)
      → Ends P Q o
      → Allows R T o
      → Ends (λ a s. P a s × R a s) (λ e s. Q e s × T e s) o
  Ends-Allows (returns a s) h k = (h, k)
  Ends-Allows (fails e s) h k = (h, k)
  Ends-Allows panics h k = h
  Ends-Allows hangs h k = h
