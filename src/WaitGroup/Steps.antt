-- ===== src/WaitGroup/Steps.antt =====
-- One owner that calls `wg_go` and `wg_wait`, and the worker threads, interleaved in any order.
-- A step is a critical section, a call of pthreads, or a run of the runner.
use php_parallax.Prelude.{ℕ, suc, ◌≤◌, ◌<◌, ◌≡◌, Bool, true, false, Option, none, done}
use php_parallax.Value.{Value, absent}
use php_parallax.WaitGroup.Defs.{
  update, WaitGroup, Report, new_task, wg_create, enter_task, create_failed, create_succeeded,
  run_task, wg_signal_done, must_wait, mark_joined,
}

-- Where the thread of a task stands. `unborn`: not created yet; `failed`: creation failed;
-- `started`: before the runner; `ran`: before `wg_signal_done`; `exited`: behind it.
pub data Worker : Type 0 where
  unborn failed started ran exited : Worker

-- Where the owner stands: `creating` and `created` before and behind `pthread_create` in `wg_go`;
-- `testing` and `sleeping` in the loop of `wg_wait`; `joining` at round `i` of its second loop.
pub data Owner : Type 0 where
  idle testing sleeping : Owner
  creating created joining : ℕ → Owner

pub record System (U : Type 0) : Type 0 where
  pub wg : WaitGroup U
  pub workers : ℕ → Worker
  pub owner : Owner
  -- What was passed to `wg_go` for each slot.
  pub inputs : ℕ → Value × Option U

-- A broadcast wakes the owner from `pthread_cond_wait`.
abbrev pub wake : Bool → Owner → Owner
wake true sleeping = testing
wake _ o = o

module _ {U : Type 0} where
  abbrev pub init : System U
  init = record {
    wg = wg_create;
    workers = λ i. unborn;
    owner = idle;
    inputs = λ i. (absent, none);
  }

-- `Runs slot args user_data report`: the runner of the group, given this task, may leave `report`.
-- The worker and the owner share `thread_joinable`, which the runner does not use.
module _ {U : Type 0} (Runs : ℕ → Value → Option U → Report U → Type 0) where
  pub data Step (s : System U) : System U → Type 0 where
    -- `wg_go`
    go :
        {wg' : WaitGroup U} (args : Value) (user_data : Option U)
        → s.owner ≡ idle
        → enter_task s.wg (new_task args user_data) ≡ done wg'
        → Step s (record s {
          wg = wg';
          workers = update s.workers s.wg.count unborn;
          owner = creating s.wg.count;
          inputs = update s.inputs s.wg.count (args, user_data);
        })
    create :
        (i : ℕ)
        → s.owner ≡ creating i
        → Step s (record s { workers = update s.workers i started; owner = created i })
    fail :
        (i : ℕ)
        → s.owner ≡ creating i
        → Step s (record s {
          wg = create_failed s.wg i;
          workers = update s.workers i failed;
          owner = idle;
        })
    return_slot :
        (i : ℕ)
        → s.owner ≡ created i
        → Step s (record s { wg = create_succeeded s.wg i; owner = idle })
    -- `worker_thread`
    run :
        (i : ℕ) (r : Report U)
        → i < s.wg.count
        → s.workers i ≡ started
        → Runs (s.wg.tasks i).slot (s.wg.tasks i).args (s.wg.tasks i).user_data r
        → Step s (record s { wg = run_task s.wg i r; workers = update s.workers i ran })
    signal :
        (i : ℕ)
        → i < s.wg.count
        → s.workers i ≡ ran
        → Step s (record s {
          wg = (wg_signal_done s.wg).0;
          workers = update s.workers i exited;
          owner = wake (wg_signal_done s.wg).1 s.owner;
        })
    -- `wg_wait`
    wait : s.owner ≡ idle → Step s (record s { owner = testing })
    sleep : s.owner ≡ testing → must_wait s.wg ≡ true → Step s (record s { owner = sleeping })
    spurious : s.owner ≡ sleeping → Step s (record s { owner = testing })
    pass : s.owner ≡ testing → must_wait s.wg ≡ false → Step s (record s { owner = joining 0 })
    join :
        (i : ℕ)
        → s.owner ≡ joining i
        → i < s.wg.count
        → (s.wg.tasks i).thread_joinable ≡ true
        → s.workers i ≡ exited
        → Step s (record s { wg = mark_joined s.wg i; owner = joining (suc i) })
    skip :
        (i : ℕ)
        → s.owner ≡ joining i
        → i < s.wg.count
        → (s.wg.tasks i).thread_joinable ≡ false
        → Step s (record s { owner = joining (suc i) })
    return_wait :
        (i : ℕ) → s.owner ≡ joining i → s.wg.count ≤ i → Step s (record s { owner = idle })

  pub data Reach : System U → Type 0 where
    start : Reach init
    later : {s t : System U} → Reach s → Step s t → Reach t
