-- ===== src/Bridge/Runner/Main.antt =====
-- bridge_worker.c: `px_worker_main`.
use php_parallax.Prelude.{
  List, [], ◌∷◌, Bool, true, false, Option, none, some, if◌then◌else◌, not, ◌&&◌,
}
use php_parallax.Value.{CStr, Value, absent, until_nul}
use php_parallax.Value.Snapshot.{text}
use php_parallax.WaitGroup.{Task, Report}
use php_parallax.Bridge.Types.{Zval, Table, end, entry, Attempt, ok, thrown, broken}
use php_parallax.Bridge.Capture.{px_zval_to_value}
use php_parallax.Bridge.Materialise.{Engine}
use php_parallax.Bridge.Callable.{CallKind, unset, function, static_meth, closure, Callable}
use php_parallax.Bridge.Runner.Words.{
  runtime_exception, logic_error, error_class, startup_failed, not_an_array, call_failed,
  bailed_out,
}
use php_parallax.Bridge.Runner.Factory.{
  own_error, is_some, fail_with, take_captured, take_exception, surface_exception, materialise,
  make_closure,
}
use php_parallax.Bridge.Runner.Flow.{
  Exception, Runtime, Thread, Flow, next, shutdown, bailout, is_absent, ◌>>=◌, ◌>>◌, return, stop,
  invoke,
}

-- The zvals of a table, as ZEND_HASH_FOREACH_VAL visits them.
abbrev pub values : Table → List Zval
values end = []
values (entry k z ht) = z ∷ values ht

module _ {e : Engine} (r : Runtime e) where
  -- `callable_zv`
  unfoldable pub make_callable : CallKind → Callable → Thread e → Thread e × Flow Zval
  unfolding make_closure
  make_callable unset callable = return Zval.undef
  make_callable function callable = return (Zval.string (until_nul (text callable.fn_name)))
  make_callable static_meth callable = return (
      Zval.array (
        r.add_next_index (r.add_next_index end (Zval.string (until_nul (text callable.class_name))))
          (Zval.string (until_nul (text callable.fn_name)))))
  make_callable closure callable = make_closure r callable

  unfoldable pub check_args : Zval → Thread e → Thread e × Flow Table
  check_args (Zval.array ht) = return ht
  check_args _ = do fail_with (own_error logic_error not_an_array); stop

  unfoldable pub release_all : List Zval → Thread e → Thread e × Flow (Unit {0})
  release_all [] = return tt
  release_all (z ∷ zs) = do invoke (λ w. r.release w z); release_all zs

  -- The assignment to `task->result`; a refused value is NULL, with an exception.
  unfoldable pub store_result : Attempt Value → Thread e → Thread e × Flow (Unit {0})
  store_result (ok v) t = (record t { result = v }, next tt)
  store_result (thrown reason) t =
      (do invoke (λ w. r.throw_error w reason); λ t'. (record t' { result = absent }, next tt)) t
  store_result broken t = (t, Flow.broken)

  unfoldable pub return_value : Zval → Thread e → Thread e × Flow (Unit {0})
  unfolding store_result
  return_value retval t =
      (do store_result (px_zval_to_value (r.heap t.world) retval); invoke (λ w. r.release w retval))
        (record t { ok = true })

  -- The tests behind the call of the task.
  unfoldable pub finish : Bool → Zval → Thread e → Thread e × Flow (Unit {0})
  unfolding take_captured return_value surface_exception
  finish rc retval t =
      if not (is_absent t.captured)
      then (do take_captured; λ t. (record t { result = absent }, next tt)) t
      else if rc && not (is_some (r.exception t.world))
      then return_value retval t
      else surface_exception r (r.exception t.world) runtime_exception call_failed t

  -- The statements in `zend_first_try`.
  unfoldable pub run_callable : Callable → Value → Thread e → Thread e × Flow (Unit {0})
  unfolding materialise check_args make_callable release_all finish
  run_callable callable args = do
    args_zv ← materialise r args
    argv ← check_args args_zv
    callable_zv ← make_callable callable.kind callable
    (rc, retval) ← invoke (λ w. r.call_user_function w callable_zv (values argv))
    release_all (values argv)
    invoke (λ w. r.release w callable_zv)
    invoke (λ w. r.release w args_zv)
    finish rc retval

  -- `zend_catch`: the thread behind the try block, none behind undefined behaviour.
  unfoldable pub caught : Thread e × Flow (Unit {0}) → Option (Thread e)
  caught (t, next u) = some t
  caught (t, shutdown) = some t
  caught (t, bailout) = some (record t {
    ok = false;
    error = if is_absent t.error then own_error error_class bailed_out else t.error;
  })
  caught (t, Flow.broken) = none

  abbrev pub pending_bootstrap : Option Exception → Thread e → Thread e × Bool
  pending_bootstrap none t = (t, true)
  pending_bootstrap (some ex) t = ((take_exception r ex t).0, false)

  -- The bootstrap file, and whether the task goes on. A bailout is caught, and nothing is done about
  -- it. A pending exception ends the task; its release is outside of every try block.
  unfoldable pub load_bootstrap : CStr → Thread e → Thread e × Bool
  unfolding take_exception
  load_bootstrap none t = (t, true)
  load_bootstrap (some path) t =
      let loaded = (invoke (λ w. r.execute_scripts w (until_nul path)) t).0 in
      pending_bootstrap (r.exception loaded.world) loaded

  abbrev pub installed : Thread e → Thread e
  installed t = record t { world = r.install_handler t.world; captured = absent }

  -- From the installed handler to the end of the try block.
  unfoldable pub run_installed : Callable → Value → Thread e → Option (Thread e)
  unfolding run_callable caught
  run_installed callable args t = caught (run_callable callable args (installed t))

  -- Behind the start of the request; the payload is freed at the end.
  unfoldable pub run_request : Callable → Value → Thread e → Option (Thread e)
  unfolding load_bootstrap run_installed
  run_request callable args t =
      let (t', goes_on) = load_bootstrap callable.bootstrap t in
      if goes_on then run_installed callable args t' else some t'

  -- The end of the request.
  abbrev pub ended : Value → Option (Thread e) → Option (e.World × Report Callable)
  ended args none = none
  ended args (some t) = some (
    r.request_shutdown t.world,
    record { args = args; user_data = none; ok = t.ok; result = t.result; error = t.error },
  )

  abbrev pub fresh : Task Callable → e.World → Thread e
  fresh task w = record {
    world = w;
    captured = absent;
    ok = task.ok;
    result = task.result;
    error = task.error;
  }

  -- The task is as `wg_go` made it, with a payload; none is undefined behaviour. The payload of a
  -- request that does not start stays.
  unfoldable pub px_worker_main :
      e.World → Task Callable → Callable → Option (e.World × Report Callable)
  unfolding run_request
  px_worker_main w task callable =
      let (w', started) = r.request_startup w in
      if started
      then ended task.args (run_request callable task.args (fresh task w'))
      else some (
        w',
        record {
          args = task.args;
          user_data = some callable;
          ok = false;
          result = task.result;
          error = own_error runtime_exception startup_failed;
        },
      )
