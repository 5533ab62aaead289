-- ===== src/WaitGroup/Invariant/Facts.antt =====
-- The invariant, and what entering a task does.
use php_parallax.Prelude.{
  ℕ, suc, ◌≤◌, ◌<◌, ◌≡◌, Bool, true, false, if◌then◌else◌, ltb, ◌==◌, Bool-cases, inl, inr, done,
  ◌&&◌, arith,
}
use php_parallax.Prelude.Int.{pos, succ, ltz, i32_max}
use php_parallax.WaitGroup.Defs.{update, Task, WaitGroup, grow, enter_task}
use php_parallax.WaitGroup.Steps.{
  Worker, unborn, failed, sleeping, creating, created, joining, System,
}
use php_parallax.WaitGroup.Count.{active}

-- A thread was created for the task.
abbrev pub is_thread : Worker → Bool
is_thread unborn = false
is_thread failed = false
is_thread _ = true

module _ {U : Type 0} where
  -- The counter is the number of workers that have still to signal, and an owner that sleeps or
  -- has passed the loop is in step with it.
  pub record Counters (s : System U) : Type 0 where
    pub in_bounds : s.wg.count ≤ s.wg.cap
    pub counted : s.wg.remaining ≡ pos (active s.wg.count s.workers)
    pub asleep : s.owner ≡ sleeping → 0 < active s.wg.count s.workers
    pub drained : (k : ℕ) → s.owner ≡ joining k → active s.wg.count s.workers ≡ 0
    pub creates : (i : ℕ) → s.owner ≡ creating i → (i < s.wg.count) × (s.workers i ≡ unborn)

  -- Slots are indices, and what may be joined is a thread that was not joined.
  pub record Threads (s : System U) : Type 0 where
    pub slots : (i : ℕ) → i < s.wg.count → (s.wg.tasks i).slot ≡ i
    pub made : (i : ℕ) → s.owner ≡ created i → (i < s.wg.count) × (is_thread (s.workers i) ≡ true)
    pub unmade : (i : ℕ) → i < s.wg.count → s.workers i ≡ unborn → s.owner ≡ creating i
    pub joinable :
        (i : ℕ)
        → i < s.wg.count
        → (s.wg.tasks i).thread_joinable ≡ true
        → is_thread (s.workers i) ≡ true
    pub joined :
        (i k : ℕ)
        → s.owner ≡ joining k
        → i < k
        → i < s.wg.count
        → (s.wg.tasks i).thread_joinable ≡ false

  -- The state of the group with `t` entered.
  abbrev pub entered : WaitGroup U → Task U → ℕ → WaitGroup U
  entered wg t cap = record {
    remaining = succ wg.remaining;
    tasks = update wg.tasks wg.count (record t { slot = wg.count });
    count = suc wg.count;
    cap = cap;
  }

  pub enter_task-entered :
      (wg wg' : WaitGroup U) (t : Task U)
      → enter_task wg t ≡ done wg'
      → (cap : ℕ) × (wg' ≡ entered wg t cap) × (wg.count < cap)
  unfolding enter_task
  enter_task-entered wg wg' t e =
      let cap = (if wg.count == wg.cap then grow wg.cap else wg.cap) in
      elim (Bool-cases (ltb wg.count cap && ltz wg.remaining i32_max)) [
        | inl fits ↦ (cap, cc (rw fits at e), ground (arith, fits))
        | inr full ↦ absurd (cc (rw full at e))
      ]
