-- ===== src/Bridge/Runner/Factory.antt =====
-- bridge_worker.c: the errors of a task, and the branch for closures.
use php_parallax.Prelude.{[], ◌∷◌, Bool, true, false, Option, none, some, if◌then◌else◌, ◌&&◌}
use php_parallax.Prelude.Int.{pos}
use php_parallax.Value.{Bytes, Value, absent, value_err, until_nul}
use php_parallax.Value.Snapshot.{text}
use php_parallax.Bridge.Types.{Zval, Heap}
use php_parallax.Bridge.Materialise.{Engine, px_value_to_zval}
use php_parallax.Bridge.Callable.{Callable}
use php_parallax.Bridge.Runner.Words.{
  compile_error, logic_error, not_compiled, no_closure, factory_failed,
}
use php_parallax.Bridge.Runner.Flow.{
  Exception, Runtime, Thread, Flow, next, exception_to_value, is_absent, ◌>>=◌, ◌>>◌, return, stop,
  invoke, capture_all, arrived,
}

-- `value_err` with no code and an empty trace.
abbrev pub own_error : Bytes → Bytes → Value
own_error cls msg = value_err (some cls) (some msg) (pos 0) (some [])

abbrev pub is_some {ℓ} : {A : Type ℓ} → Option A → Bool
is_some none = false
is_some (some a) = true

abbrev pub is_object : Zval → Bool
is_object (Zval.object id) = true
is_object _ = false

abbrev pub is_closure_object : Heap → Zval → Bool
is_closure_object heap (Zval.object id) = (heap.objects id).ce.is_closure
is_closure_object heap _ = false

module _ {e : Engine} where
  abbrev pub fail_with : Value → Thread e → Thread e × Flow (Unit {0})
  fail_with error t = (record t { ok = false; error = error }, next tt)

  unfoldable pub take_captured : Thread e → Thread e × Flow (Unit {0})
  take_captured t = (record t { ok = false; error = t.captured; captured = absent }, next tt)

module _ {e : Engine} (r : Runtime e) where
  unfoldable pub take_exception : Exception → Thread e → Thread e × Flow (Unit {0})
  take_exception ex t =
      invoke (λ w. r.release_exception w ex)
        (record t { world = r.clear_exception t.world; ok = false; error = exception_to_value ex })

  unfoldable pub surface_exception :
      Option Exception → Bytes → Bytes → Thread e → Thread e × Flow (Unit {0})
  unfolding take_exception
  surface_exception none cls msg = fail_with (own_error cls msg)
  surface_exception (some ex) cls msg = take_exception ex

  -- The captured error, or else the pending exception, or else an error of this class and message.
  unfoldable pub surface : Bytes → Bytes → Thread e → Thread e × Flow (Unit {0})
  unfolding take_captured surface_exception
  surface cls msg t =
      if is_absent t.captured
      then surface_exception (r.exception t.world) cls msg t
      else take_captured t

  -- `px_value_to_zval`, with the exceptions that the engine passes to the capture function.
  unfoldable pub materialise : Value → Thread e → Thread e × Flow Zval
  unfolding capture_all
  materialise v t =
      let (w, (handled, ending)) = px_value_to_zval e t.world v in
      arrived (record t { world = w; captured = capture_all t.captured handled }) ending

  unfoldable pub check_compiled : Option r.Code → Thread e → Thread e × Flow r.Code
  unfolding surface
  check_compiled none = do surface compile_error not_compiled; stop
  check_compiled (some op_array) = λ t.
      if is_some (r.exception t.world)
      then (do
        surface compile_error not_compiled
        invoke (λ w. r.destroy_op_array w op_array)
        stop)
          t
      else return op_array t

  unfoldable pub check_factory_exception :
      Option Exception → Zval → Thread e → Thread e × Flow (Unit {0})
  unfolding take_exception
  check_factory_exception (some ex) factory = do
    take_exception ex
    invoke (λ w. r.release w factory)
    stop
  check_factory_exception none factory = λ t.
      if is_closure_object (r.heap t.world) factory
      then return tt t
      else (do
        fail_with (own_error logic_error no_closure)
        invoke (λ w. r.release w factory)
        stop)
          t

  -- The tests behind the run of the compiled wrapper.
  unfoldable pub check_factory : Zval → Thread e → Thread e × Flow (Unit {0})
  unfolding take_captured check_factory_exception
  check_factory factory t =
      if is_absent t.captured
      then check_factory_exception (r.exception t.world) factory t
      else (do take_captured; invoke (λ w. r.release w factory); stop) t

  unfoldable pub check_inner : Bool → Zval → Thread e → Thread e × Flow Zval
  unfolding surface
  check_inner rc inner =
      if rc && is_object inner
      then return inner
      else (do surface logic_error factory_failed; invoke (λ w. r.release w inner); stop)

  -- The branch for PX_CALL_KIND_CLOSURE.
  unfoldable pub make_closure : Callable → Thread e → Thread e × Flow Zval
  unfolding check_compiled check_factory check_inner materialise
  make_closure callable = do
    compiled ← invoke (λ w. r.compile_string w (until_nul (text callable.closure_wrapper)))
    op_array ← check_compiled compiled
    factory ← invoke (λ w. r.execute w op_array)
    invoke (λ w. r.destroy_op_array w op_array)
    check_factory factory
    captures ← materialise callable.closure_captures
    (rc, inner) ← invoke (λ w. r.call_user_function w factory (captures ∷ []))
    invoke (λ w. r.release w captures)
    invoke (λ w. r.release w factory)
    check_inner rc inner
