-- ===== src/WaitGroup/Safety.antt =====
-- What every reachable state of the wait group promises to the caller.
use php_parallax.Prelude.{
  ℕ, suc, ◌≢◌, ltb→lt, ◌≤◌, ◌<◌, ◌≡◌, refl, subst, arith, false, Option, none, some, ltb, ◌⊎◌, inl,
  inr, Bool-cases,
}
use php_parallax.Prelude.Int.{pos}
use php_parallax.Value.{Value}
use php_parallax.WaitGroup.Defs.{Report, wg_get, wg_size}
use php_parallax.WaitGroup.Steps.{
  Worker, unborn, failed, started, ran, exited, sleeping, joining, System, Reach, start, later,
  idle, Step, return_wait, skip, join,
}
use php_parallax.WaitGroup.Count.{active, is_active, active_zero, active_some}
use php_parallax.WaitGroup.Invariant.{Counters, Threads}
use php_parallax.WaitGroup.Invariant.CounterSteps.{init-Counters, Step-Counters}
use php_parallax.WaitGroup.Invariant.ThreadSteps.{init-Threads, Step-Threads}
use php_parallax.WaitGroup.Invariant.DeliveredFacts.{report_of, Untouched, Delivered, Delivery}
use php_parallax.WaitGroup.Invariant.DeliverySteps.{init-Delivery, Step-Delivery}

module _ {U : Type 0} (Runs : ℕ → Value → Option U → Report U → Type 0) where
  Reach-all : {s : System U} → Reach Runs s → Counters s × Threads s × Delivery Runs s
  Reach-all start = (init-Counters, init-Threads, init-Delivery Runs)
  Reach-all (later r step) =
      let (c, h, d) = Reach-all r in
      (Step-Counters step c, Step-Threads step c h, Step-Delivery Runs step c h d)

-- A worker that is done: no thread was made for it, or its thread is behind `wg_signal_done`.
inactive-cases : (w : Worker) → is_active w ≡ 0 → (w ≡ failed) ⊎ (w ≡ exited)
inactive-cases unborn e = absurd (omega (arith, e))
inactive-cases failed e = inl refl
inactive-cases started e = absurd (omega (arith, e))
inactive-cases ran e = absurd (omega (arith, e))
inactive-cases exited e = inr refl

-- After any sequence of steps, none of which takes `remaining` above INT_MAX, the counter
-- `remaining` is the number of workers of the group that are yet to be created, yet to run, or yet
-- to signal.
pub remaining_counts :
    {U : Type 0} (Runs : ℕ → Value → Option U → Report U → Type 0) (s : System U)
    → Reach Runs s
    → s.wg.remaining ≡ pos (active s.wg.count s.workers)
remaining_counts Runs s r = (Reach-all Runs r).0.counted

active-cases : (w : Worker) → is_active w ≢ 0 → w ≢ unborn → (w ≡ started) ⊎ (w ≡ ran)
active-cases unborn a b = absurd (b refl)
active-cases failed a b = absurd (a refl)
active-cases started a b = inl refl
active-cases ran a b = inr refl
active-cases exited a b = absurd (a refl)

-- After any sequence of steps, an owner that sleeps in `wg_wait` waits for a thread of the group
-- that was created and is before or behind its runner but has not signalled yet: no wake-up is
-- lost, whatever the order of the steps.
pub sleeping_has_worker :
    {U : Type 0} (Runs : ℕ → Value → Option U → Report U → Type 0) (s : System U)
    → Reach Runs s
    → s.owner ≡ sleeping
    → (i : ℕ) × (i < s.wg.count) × ((s.workers i ≡ started) ⊎ (s.workers i ≡ ran))
sleeping_has_worker Runs s r o =
    let (c, h, d) = Reach-all Runs r in
    let (i, lt, ne) = active_some s.wg.count s.workers (c.asleep o) in
    (i, lt, active-cases (s.workers i) ne (λ e. cc (h.unmade i lt e, o)))

-- After any sequence of steps, none of which takes `remaining` above INT_MAX, an owner in the
-- second loop of `wg_wait` has a step that goes on: at a round within the group to the next round,
-- its `pthread_join` finding a thread that has exited, and past the group to the return.
pub joining_goes_on :
    {U : Type 0} (Runs : ℕ → Value → Option U → Report U → Type 0) (s : System U) (k : ℕ)
    → Reach Runs s
    → s.owner ≡ joining k
    → (t : System U) × Step Runs s t
      × (((k < s.wg.count) × (t.owner ≡ joining (suc k))) ⊎ ((s.wg.count ≤ k) × (t.owner ≡ idle)))
joining_goes_on Runs s k r o =
    let (c, h, d) = Reach-all Runs r in
    elim (Bool-cases (ltb k s.wg.count)) [
      | inr e ↦ (_, return_wait k o (ground (arith, e)), inr (ground (arith, e), refl))
      | inl e ↦
          let lt : k < s.wg.count = ltb→lt k s.wg.count e in
          elim (Bool-cases (s.wg.tasks k).thread_joinable) [
            | inr j ↦ (_, skip k o lt j, inl (lt, refl))
            | inl j ↦
                elim (inactive-cases (s.workers k)
                  (active_zero s.wg.count k s.workers (c.drained k o) lt)) [
                    | inl w ↦ absurd (cc (h.joinable k lt j, w))
                    | inr w ↦ (_, join k o lt j w, inl (lt, refl))
                  ]
          ]
    ]

-- What `wg_wait` leaves for the task of a slot: it is not to be joined, and either its thread was
-- never made and it is as `wg_go` made it, or its thread has exited and it holds a report.
abbrev pub Settled :
    {U : Type 0} → (ℕ → Value → Option U → Report U → Type 0) → System U → ℕ → Type 0
Settled Runs s i =
    ((s.wg.tasks i).thread_joinable ≡ false)
    × (((s.workers i ≡ failed) × Untouched Runs (s.inputs i) (s.wg.tasks i))
        ⊎ ((s.workers i ≡ exited)
            × Runs i (s.inputs i).0 (s.inputs i).1 (report_of (s.wg.tasks i))))

-- After any sequence of steps, when the owner is in the second loop of `wg_wait` at round `k` and
-- slot `i` is in the group and behind it, the task of slot `i` is not to be joined any more, and
-- either its thread could not be created, and it holds the arguments and user data passed to
-- `wg_go`, is not ok, and has neither result nor error; or its thread has exited, and what it holds
-- is a report that the runner may leave for slot `i` on those arguments and user data.
pub joined_is_Settled :
    {U : Type 0} (Runs : ℕ → Value → Option U → Report U → Type 0) (s : System U) (k i : ℕ)
    → Reach Runs s
    → s.owner ≡ joining k
    → i < k
    → i < s.wg.count
    → Settled Runs s i
joined_is_Settled Runs s k i r o behind lt =
    let (c, h, d) = Reach-all Runs r in
    let quiet : is_active (s.workers i) ≡ 0 =
      active_zero s.wg.count i s.workers (c.drained k o) lt in
    (
      h.joined i k o behind lt,
      elim (inactive-cases (s.workers i) quiet) [
        | inl e ↦ inl (e, subst (λ w. Delivered Runs i (s.inputs i) w (s.wg.tasks i)) e (d i lt))
        | inr e ↦ inr (e, subst (λ w. Delivered Runs i (s.inputs i) w (s.wg.tasks i)) e (d i lt))
      ],
    )

-- After any sequence of steps, the entries of the group are within its capacity, `wg_get` of a slot
-- from `wg_size` on is NULL, and of a slot below it is the task entered there, whose `slot` it is.
pub wg_get-slots :
    {U : Type 0} (Runs : ℕ → Value → Option U → Report U → Type 0) (s : System U)
    → Reach Runs s
    → (wg_size s.wg ≤ s.wg.cap)
      × ((i : ℕ) → wg_size s.wg ≤ i → wg_get s.wg i ≡ none)
      × ((i : ℕ)
          → i < wg_size s.wg
          → (wg_get s.wg i ≡ some (s.wg.tasks i)) × ((s.wg.tasks i).slot ≡ i))
unfolding wg_get
wg_get-slots Runs s r =
    let (c, h, d) = Reach-all Runs r in
    (c.in_bounds, λ i le. ground arith, λ i lt. (ground arith, h.slots i lt))
