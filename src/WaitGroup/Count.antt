-- ===== src/WaitGroup/Count.antt =====
-- Sums over the workers of the first `n` slots.
use php_parallax.Prelude.{
  ℕ, zero, suc, ◌+◌, ◌≤◌, ◌<◌, ◌≡◌, ◌≢◌, refl, arith, ◌==◌, Bool-cases, inl, inr,
}
use php_parallax.WaitGroup.Defs.{update}
use php_parallax.WaitGroup.Steps.{Worker, unborn, failed, started, ran, exited}

-- A worker that has not signalled and may still do so.
abbrev pub is_active : Worker → ℕ
is_active unborn = 1
is_active started = 1
is_active ran = 1
is_active failed = 0
is_active exited = 0

unfoldable pub active : ℕ → (ℕ → Worker) → ℕ
active zero f = 0
active (suc n) f = active n f + is_active (f n)

-- A write from `n` on does not count.
active_past : (n i : ℕ) (f : ℕ → Worker) (w : Worker) → n ≤ i → active n (update f i w) ≡ active n f
unfolding active
active_past zero i f w h = refl
active_past (suc n) i f w h = ground (arith, active_past n i f w)

pub active-update :
    (n i : ℕ) (f : ℕ → Worker) (w : Worker)
    → i < n
    → active n (update f i w) + is_active (f i) ≡ active n f + is_active w
unfolding active
active-update zero i f w h = absurd (omega arith)
active-update (suc n) i f w h = ground (arith, active-update n i f w, active_past n i f w)

pub active_next :
    (n : ℕ) (f : ℕ → Worker) (w : Worker) → active (suc n) (update f n w) ≡ active n f + is_active w
unfolding active
active_next n f w = ground (arith, active_past n n f w)

-- Where no worker is active, none of the first `n` is.
pub active_zero : (n i : ℕ) (f : ℕ → Worker) → active n f ≡ 0 → i < n → is_active (f i) ≡ 0
unfolding active
active_zero zero i f e h = absurd (omega arith)
active_zero (suc n) i f e h = ground (arith, active_zero n i f)

-- Where some worker is active, here is one.
pub active_some :
    (n : ℕ) (f : ℕ → Worker) → 0 < active n f → (i : ℕ) × (i < n) × (is_active (f i) ≢ 0)
unfolding active
active_some zero f h = absurd (omega arith)
active_some (suc n) f h = elim (Bool-cases (is_active (f n) == 0)) [
  | inl e ↦ let (i, lt, ne) = active_some n f (ground (arith, e)) in (i, omega arith, ne)
  | inr e ↦ (n, omega arith, ground (arith, e))
]
