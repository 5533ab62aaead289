-- ===== src/Examples/Tasks.antt =====
-- Tasks from `go` over the worker to `wait`.
use php_parallax.Prelude.{
  ◌≡◌, refl, arith, [], ◌∷◌, true, if◌then◌else◌, ◌==◌, Bool-cases, inl, inr, Option, none, some,
}
use php_parallax.Prelude.Int.{pos}
use php_parallax.Value.{
  Bytes, int_key, Value, long, arr, err, nil, item, value_arr_set_int, append_kv,
}
use php_parallax.WaitGroup.{WaitGroup, Task, Report, new_task, wg_create}
use php_parallax.Bridge.Types.{Zval, Table, end, entry, ok}
use php_parallax.Bridge.Capture.{
  set_entry, capture_element, capture_elements, array_to_value, zval_to_value_inner,
  px_zval_to_value,
}
use php_parallax.Bridge.Runner.Delivery.{Delivers, function_recipe, px_worker_main-Delivers}
use php_parallax.Bridge.Callable.{Callable}
use php_parallax.Bridge.Runner.Flow.{Exception}
use php_parallax.Bridge.Runner.Main.{px_worker_main}
use php_parallax.Bridge.Runner.Verdict.{Verdict}
use php_parallax.Userland.Calls.{WaitGroupObject}
use php_parallax.Userland.Wait.{php_wait}
use php_parallax.Bridge.Zend.{Run, Sound}
use php_parallax.Userland.Results.{Reports, Lists, php_wait-Lists}
use php_parallax.Examples.Machine.{
  knot_heap, engine, engine-ArrayLaws, results, results-AppendsNext, engine-Constructible, runtime,
  blank_world,
}

-- `[5]`
abbrev one_argument : Value
one_argument = arr (item (int_key (pos 0)) (long (pos 5)) nil) 4

abbrev thrown_one : Exception
thrown_one = record {
  class_name = some (69 ∷ []);
  message = some (Zval.string (109 ∷ []));
  code = none;
}

abbrev no_file : Bytes → Option Bytes
no_file name = none

abbrev fresh_object : WaitGroupObject
fresh_object = record { wg = some wg_create; bootstrap = none }

abbrev arguments : Option Table
arguments = some (entry (int_key (pos 0)) (Zval.long (pos 5)) end)

-- Two tasks: one that is ok with 7, and one with an error.
abbrev good_task : Task Callable
good_task = record (new_task one_argument none) { ok = true; result = long (pos 7) }

abbrev bad_task : Task Callable
bad_task = record (new_task one_argument none) { error = err none none (pos 0) none }

abbrev two_tasks : WaitGroup Callable
two_tasks = record {
  remaining = pos 0;
  tasks = λ i. if i == 0 then good_task else bad_task;
  count = 2;
  cap = 8;
}

two_tasks-Reports : Reports engine two_tasks
two_tasks-Reports i lt = elim (Bool-cases (i == 0)) [
  | inl first ↦ rw first (tt, tt)
  | inr second ↦ rw second (tt, engine-Constructible engine.worker_error_class)
]

php_wait-Lists_example :
    (run : Run engine.World Table) × (php_wait engine results
        (record { wg = some two_tasks; bootstrap = none })
      ≡ ok run)
    × ((w : engine.World) → Sound (Lists two_tasks) (run w))
php_wait-Lists_example =
    php_wait-Lists engine results results-AppendsNext (engine-Constructible results.result_class)
      (record { wg = some two_tasks; bootstrap = none }) two_tasks refl two_tasks-Reports

-- `[5]`, as it is captured.
abbrev five : Table
five = entry (int_key (pos 0)) (Zval.long (pos 5)) end

abbrev five_value : Value
five_value = arr (item (int_key (pos 0)) (long (pos 5)) nil) 1

captured_five : px_zval_to_value knot_heap (Zval.array five) ≡ ok five_value
unfolding px_zval_to_value zval_to_value_inner array_to_value capture_elements capture_element
    set_entry value_arr_set_int append_kv
captured_five = refl

px_worker_main-Delivers_example :
    (w : engine.World) × (p : Report Callable) × (px_worker_main
        (runtime [] (Zval.long (pos 7)))
        blank_world
        (new_task five_value (some (function_recipe (102 ∷ []) (some (98 ∷ [])))))
        (function_recipe (102 ∷ []) (some (98 ∷ [])))
      ≡ some (w, p))
    × Delivers engine (Zval.long (pos 7)) p
px_worker_main-Delivers_example =
    px_worker_main-Delivers engine (runtime [] (Zval.long (pos 7))) (λ w. Unit {0}) knot_heap
      (102 ∷ []) (some (98 ∷ [])) five_value five (Zval.long (pos 7)) blank_world engine-ArrayLaws
      (record { release = λ w z h. refl; released = λ w z h. tt; exception = λ w h. refl }) refl
      refl tt (tt, tt, tt, tt) (omega arith) captured_five tt (omega arith) (λ w h. (refl, tt))
