-- ===== src/Examples/Threads.antt =====
-- One task from `wg_go` to `wg_wait`, and the theorems of WaitGroup on the states it passes.
use php_parallax.Prelude.{ℕ, ◌≤◌, ◌<◌, ◌≡◌, refl, arith, true, Option, some, done, ◌⊎◌}
use php_parallax.Prelude.Int.{pos}
use php_parallax.Value.{Value, absent, long}
use php_parallax.WaitGroup.{
  update, WaitGroup, Report, new_task, wg_create, grow, enter_task, create_succeeded, run_task,
  wg_signal_done, mark_joined, unborn, started, ran, exited, idle, creating, sleeping, joining,
  System, init, Step, Reach, start, later, go, create, return_slot, run, signal, wait, sleep, pass,
  join,
}
use php_parallax.WaitGroup.Count.{active}
use php_parallax.WaitGroup.Safety.{
  remaining_counts, sleeping_has_worker, joining_goes_on, joined_is_Settled, Settled,
}

-- A runner that adds nothing and reports its arguments as the result.
abbrev Echo : ℕ → Value → Option ℕ → Report ℕ → Type 0
Echo slot args user_data r =
    r ≡ record { args = absent; user_data = user_data; ok = true; result = args; error = absent }

abbrev echoed : Report ℕ
echoed = record {
  args = absent;
  user_data = some 7;
  ok = true;
  result = long (pos 5);
  error = absent;
}

-- `wg_go` with the argument 5 and the user data 7.
abbrev entered_group : WaitGroup ℕ
entered_group = record {
  remaining = pos 1;
  tasks =
      update (wg_create {U = ℕ}).tasks 0 (record (new_task (long (pos 5)) (some 7)) { slot = 0 });
  count = 1;
  cap = 8;
}

entered : enter_task wg_create (new_task (long (pos 5)) (some 7)) ≡ done entered_group
unfolding enter_task grow
entered = refl

abbrev went : System ℕ
went = record {
  wg = entered_group;
  workers = update (init {U = ℕ}).workers 0 unborn;
  owner = creating 0;
  inputs = update (init {U = ℕ}).inputs 0 (long (pos 5), some 7);
}

went-Reach : Reach Echo went
went-Reach = later start (go (long (pos 5)) (some 7) refl entered)

abbrev slept : System ℕ
unfolding create_succeeded
slept = record went {
  wg = create_succeeded entered_group 0;
  workers = update went.workers 0 started;
  owner = sleeping;
}

slept-Reach : Reach Echo slept
unfolding create_succeeded
slept-Reach =
    later (later (later (later went-Reach (create 0 refl)) (return_slot 0 refl)) (wait refl))
      (sleep refl refl)

-- The worker runs and signals, which wakes the owner, and the owner joins it.
abbrev joined : System ℕ
unfolding create_succeeded run_task wg_signal_done mark_joined
joined = record slept {
  wg = mark_joined (wg_signal_done (run_task slept.wg 0 echoed)).0 0;
  workers = update (update slept.workers 0 ran) 0 exited;
  owner = joining 1;
}

joined-Reach : Reach Echo joined
unfolding create_succeeded run_task wg_signal_done mark_joined
joined-Reach =
    later
      (later
        (later (later slept-Reach (run 0 echoed (omega arith) refl refl))
          (signal 0 (omega arith) refl))
        (pass refl refl))
      (join 0 refl (omega arith) refl refl)

joined_is_Settled_example : Settled Echo joined 0
unfolding joined
joined_is_Settled_example =
    joined_is_Settled Echo joined 1 0 joined-Reach refl (omega arith) (omega arith)

sleeping_has_worker_example :
    (i : ℕ) × (i < 1) × ((slept.workers i ≡ started) ⊎ (slept.workers i ≡ ran))
unfolding slept
sleeping_has_worker_example = sleeping_has_worker Echo slept slept-Reach refl

joining_goes_on_example :
    (t : System ℕ) × Step Echo joined t
    × (((1 < joined.wg.count) × (t.owner ≡ joining 2)) ⊎ ((joined.wg.count ≤ 1) × (t.owner ≡ idle)))
unfolding joined
joining_goes_on_example = joining_goes_on Echo joined 1 joined-Reach refl

remaining_counts_example : slept.wg.remaining ≡ pos (active 1 slept.workers)
unfolding slept
remaining_counts_example = remaining_counts Echo slept slept-Reach
