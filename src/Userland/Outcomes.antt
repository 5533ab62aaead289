-- ===== src/Userland/Outcomes.antt =====
-- The wait group with the worker of bridge_worker.c as its runner.
use php_parallax.Prelude.{ℕ, ◌≡◌, false, Option, some, ◌⊎◌}
use php_parallax.Value.{Value}
use php_parallax.WaitGroup.{Report, new_task, failed, exited, System}
use php_parallax.WaitGroup.Invariant.DeliveredFacts.{report_of, Untouched}
use php_parallax.Bridge.Materialise.{Engine}
use php_parallax.Bridge.Materialise.Classes.{Constructs}
use php_parallax.Bridge.Callable.{Callable}
use php_parallax.Bridge.Runner.Flow.{Runtime}
use php_parallax.Bridge.Runner.Main.{px_worker_main}
use php_parallax.Bridge.Runner.Verdict.{Verdict}

-- The reports that the worker may leave: those of `px_worker_main` in some world.
abbrev pub WorkerRuns :
    {e : Engine} → Runtime e → ℕ → Value → Option Callable → Report Callable → Type 0
WorkerRuns {e} r slot args user_data p =
    (w : e.World) × (w' : e.World) × (callable : Callable) × (user_data ≡ some callable)
    × (px_worker_main r w (new_task args user_data) callable ≡ some (w', p))

-- The classes under the names in what was passed to `wg_go` can be instantiated.
abbrev pub Makes : Engine → Value × Option Callable → Type 0
Makes e input =
    Constructs e input.0
    × ((callable : Callable) → input.1 ≡ some callable → Constructs e callable.closure_captures)

-- What is left of the task of a slot: as it was entered, where no thread could be made for it, or
-- a verdict on the arguments that were entered.
abbrev pub IsOver : {e : Engine} → Runtime e → System Callable → ℕ → Type 0
IsOver r s i =
    ((s.wg.tasks i).thread_joinable ≡ false)
    × (((s.workers i ≡ failed) × Untouched (WorkerRuns r) (s.inputs i) (s.wg.tasks i))
        ⊎ ((s.workers i ≡ exited)
            × ((s.wg.tasks i).args ≡ (s.inputs i).0)
            × Verdict (report_of (s.wg.tasks i))))
