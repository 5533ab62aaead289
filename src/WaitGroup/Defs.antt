-- ===== src/WaitGroup/Defs.antt =====
-- The wait group, its tasks, and the operations, each critical section a function.
use php_parallax.Prelude.{
  ℕ, suc, ◌*◌, Bool, true, false, Option, none, some, if◌then◌else◌, ltb, leb, ◌==◌, ◌&&◌, Outcome,
  done, fault, ◌>>=◌,
}
use php_parallax.Prelude.Bits.{u64}
use php_parallax.Prelude.Int.{pred_int, is_zero, ℤ, pos, ltz, succ, i32_max}
use php_parallax.Value.{Value, absent}

-- A write to one place of an array.
abbrev pub update {ℓ} : {A : Type ℓ} → (ℕ → A) → ℕ → A → ℕ → A
update f i x j = if j == i then x else f j

-- `task_t`; `thread` itself is a `Worker` of the system, and NULL user data is `none`.
pub record Task (U : Type 0) : Type 0 where
  pub thread_joinable : Bool
  pub slot : ℕ
  pub args : Value
  pub user_data : Option U
  pub ok : Bool
  pub result : Value
  pub error : Value

-- `wait_group_t`: `tasks` holds its entries below `count`. The lock is held during one function.
pub record WaitGroup (U : Type 0) : Type 0 where
  pub remaining : ℤ
  pub tasks : ℕ → Task U
  pub count : ℕ
  pub cap : ℕ

-- What a runner leaves in its task.
pub record Report (U : Type 0) : Type 0 where
  pub args : Value
  pub user_data : Option U
  pub ok : Bool
  pub result : Value
  pub error : Value

module _ {U : Type 0} where
  -- `calloc`, then `args` and `user_data`.
  abbrev pub new_task : Value → Option U → Task U
  new_task args user_data = record {
    thread_joinable = false;
    slot = 0;
    args = args;
    user_data = user_data;
    ok = false;
    result = absent;
    error = absent;
  }

  abbrev pub wg_create : WaitGroup U
  wg_create = record { remaining = pos 0; tasks = λ i. new_task absent none; count = 0; cap = 0 }

-- The new capacity of `grow`, a size_t.
unfoldable pub grow : ℕ → ℕ
grow cap = if cap == 0 then 8 else u64 (cap * 2)

module _ {U : Type 0} where
  -- The first critical section of `wg_go`: the task enters at `count`, within the capacity, and
  -- `remaining++` is in the range of an int.
  unfoldable pub enter_task : WaitGroup U → Task U → Outcome (WaitGroup U)
  enter_task wg task =
      let cap' = if wg.count == wg.cap then grow wg.cap else wg.cap in
      if ltb wg.count cap' && ltz wg.remaining i32_max
      then done (record wg {
        remaining = succ wg.remaining;
        tasks = update wg.tasks wg.count (record task { slot = wg.count });
        count = suc wg.count;
        cap = cap';
      })
      else fault

  -- `pthread_create` failed for the task of slot `i`; nothing is signalled.
  unfoldable pub create_failed : WaitGroup U → ℕ → WaitGroup U
  create_failed wg i = record wg {
    remaining = pred_int wg.remaining;
    tasks = update wg.tasks i (record (wg.tasks i) { ok = false; thread_joinable = false });
  }

  unfoldable pub create_succeeded : WaitGroup U → ℕ → WaitGroup U
  create_succeeded wg i = record wg {
    tasks = update wg.tasks i (record (wg.tasks i) { thread_joinable = true });
  }

  -- `wg_go` as a whole: `created` says whether `pthread_create` succeeds, and `others` is what the
  -- workers do to the group between the first critical section and the end of the call.
  unfoldable pub wg_go :
      Bool → (WaitGroup U → WaitGroup U) → WaitGroup U → Value → Option U → Outcome (WaitGroup U)
  unfolding enter_task create_failed create_succeeded
  wg_go created others wg args user_data = enter_task wg (new_task args user_data) >>= λ wg'. done (
      if created
      then create_succeeded (others wg') wg.count
      else create_failed (others wg') wg.count)

  -- `wg->runner(task)` in `worker_thread`.
  unfoldable pub run_task : WaitGroup U → ℕ → Report U → WaitGroup U
  run_task wg i r = record wg {
    tasks = update wg.tasks i (record (wg.tasks i) {
      args = r.args;
      user_data = r.user_data;
      ok = r.ok;
      result = r.result;
      error = r.error;
    });
  }

  -- The new state, and whether the condition is broadcast.
  unfoldable pub wg_signal_done : WaitGroup U → WaitGroup U × Bool
  wg_signal_done wg =
      let left = pred_int wg.remaining in (record wg { remaining = left }, is_zero left)

  -- The test of the loop in `wg_wait`.
  abbrev pub must_wait : WaitGroup U → Bool
  must_wait wg = ltz (pos 0) wg.remaining

  -- `pthread_join` has returned for slot `i`.
  unfoldable pub mark_joined : WaitGroup U → ℕ → WaitGroup U
  mark_joined wg i = record wg {
    tasks = update wg.tasks i (record (wg.tasks i) { thread_joinable = false });
  }

  unfoldable pub wg_get : WaitGroup U → ℕ → Option (Task U)
  wg_get wg slot = if leb wg.count slot then none else some (wg.tasks slot)

  abbrev pub wg_size : WaitGroup U → ℕ
  wg_size wg = wg.count
