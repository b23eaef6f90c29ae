-- ===== src/Futures.antt =====
-- Futures that are polled again and again.
use pants_tower.Base.{ℕ, zero, suc, ◌≡◌, refl, ◌∙◌}
use pants_tower.Service.{not_ready, Future}

-- The next n polls of `f` answer that it is not ready, and leave `f'`.
abbrev pub Pends : {F A E : Type 0} → Future F A E → ℕ → F → F → Type 0
Pends fut zero f f' = f ≡ f'
Pends {F} fut (suc n) f f' = (g : F) × (fut.poll f ≡ (not_ready, g)) × Pends fut n g f'

-- Two states that poll alike are not ready as often.
pub Pends-alike :
    {F A E : Type 0} (fut : Future F A E) (n : ℕ) (f g h : F)
    → fut.poll f ≡ fut.poll g
    → Pends fut n g h
    → (h' : F) × Pends fut n f h' × (fut.poll h' ≡ fut.poll h)
Pends-alike fut zero f g h e p = (f, refl, rw (← p) e)
Pends-alike fut (suc n) f g h e (g', q, p) = (h, (g', e ∙ q, p), refl)
