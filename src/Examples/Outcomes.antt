-- ===== src/Examples/Outcomes.antt =====
-- One task of the worker, from `wg_go` to `wg_wait`.
use php_parallax.Prelude.{◌≡◌, refl, arith, [], ◌∷◌, none, some}
use php_parallax.Prelude.Int.{pos}
use php_parallax.Value.{Value, arr, nil}
use php_parallax.WaitGroup.{
  update, WaitGroup, Report, new_task, wg_create, create_succeeded, run_task, wg_signal_done,
  mark_joined, unborn, started, ran, exited, creating, idle, joining, System, init,
}
use php_parallax.Bridge.Types.{Zval, end, ok}
use php_parallax.Bridge.Capture.{
  capture_elements, array_to_value, zval_to_value_inner, px_zval_to_value,
}
use php_parallax.Bridge.Callable.{Callable, of_function}
use php_parallax.Bridge.Runner.Main.{px_worker_main}
use php_parallax.Bridge.Runner.Delivery.{Delivers, px_worker_main-Delivers}
use php_parallax.Examples.Machine.{knot_heap, engine, engine-ArrayLaws, runtime, blank_world}

abbrev no_arguments : Value
no_arguments = arr nil 0

abbrev recipe : Callable
recipe = of_function (102 ∷ [])

captured_none : px_zval_to_value knot_heap (Zval.array end) ≡ ok no_arguments
unfolding px_zval_to_value zval_to_value_inner array_to_value capture_elements
captured_none = refl

-- The worker on a task whose function returns 7.
run_seven :
    (w : engine.World) × (p : Report Callable) × (px_worker_main
        (runtime [] (Zval.long (pos 7)))
        blank_world
        (new_task no_arguments (some recipe))
        recipe
      ≡ some (w, p))
    × Delivers engine (Zval.long (pos 7)) p
run_seven =
    px_worker_main-Delivers engine (runtime [] (Zval.long (pos 7))) (λ w. Unit {0}) knot_heap
      (102 ∷ []) none no_arguments end (Zval.long (pos 7)) blank_world engine-ArrayLaws
      (record { release = λ w z h. refl; released = λ w z h. tt; exception = λ w h. refl }) refl tt
      tt tt (omega arith) captured_none tt (omega arith) (λ w h. (refl, tt))

abbrev reported : Report Callable
reported = run_seven.1

abbrev entered_group : WaitGroup Callable
entered_group = record {
  remaining = pos 1;
  tasks =
      update (wg_create {U = Callable}).tasks 0
        (record (new_task no_arguments (some recipe)) { slot = 0 });
  count = 1;
  cap = 8;
}

abbrev went : System Callable
went = record {
  wg = entered_group;
  workers = update (init {U = Callable}).workers 0 unborn;
  owner = creating 0;
  inputs = update (init {U = Callable}).inputs 0 (no_arguments, some recipe);
}

abbrev returned : System Callable
unfolding create_succeeded
returned = record went {
  wg = create_succeeded entered_group 0;
  workers = update went.workers 0 started;
  owner = idle;
}

abbrev finished : System Callable
unfolding create_succeeded run_task wg_signal_done mark_joined
finished = record returned {
  wg = mark_joined (wg_signal_done (run_task returned.wg 0 reported)).0 0;
  workers = update (update returned.workers 0 ran) 0 exited;
  owner = joining 1;
}
