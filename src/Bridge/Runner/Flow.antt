-- ===== src/Bridge/Runner/Flow.antt =====
-- bridge_worker.c: the calls of the engine on the worker's thread, and the state of that thread.
use php_parallax.Prelude.{List, [], ◌∷◌, Bool, true, false, Option, none, some, if◌then◌else◌}
use php_parallax.Prelude.Int.{ℤ, pos}
use php_parallax.Value.{Bytes, CStr, Value, absent, value_err}
use php_parallax.Bridge.Types.{Zval, Table, Heap, Thrown}
pub use php_parallax.Bridge.Zend.{Exception, Called}
use php_parallax.Bridge.Zend.{Ending, finished, bailed, faulted}
use php_parallax.Bridge.Materialise.{Engine}

-- What bridge_worker.c calls of the engine. FAILURE is `false`.
pub record Runtime (e : Engine) : Type 1 where
  pub Code : Type 0
  pub request_startup : e.World → e.World × Bool
  pub request_shutdown : e.World → e.World
  pub execute_scripts : e.World → Bytes → e.World × Called (Unit {0})
  pub install_handler : e.World → e.World
  pub compile_string : e.World → Bytes → e.World × Called (Option Code)
  pub execute : e.World → Code → e.World × Called Zval
  pub destroy_op_array : e.World → Code → e.World × Called (Unit {0})
  pub call_user_function : e.World → Zval → List Zval → e.World × Called (Bool × Zval)
  pub release : e.World → Zval → e.World × Called (Unit {0})
  pub exception : e.World → Option Exception  -- EG(exception)
  pub clear_exception : e.World → e.World
  pub release_exception : e.World → Exception → e.World × Called (Unit {0})
  pub throw_error : e.World → Thrown → e.World × Called (Unit {0})
  pub add_next_index : Table → Zval → Table
  pub heap : e.World → Heap

-- `captured` is `worker_captured_error`; the other fields are those of the task.
pub record Thread (e : Engine) : Type 0 where
  pub world : e.World
  pub captured : Value
  pub ok : Bool
  pub result : Value
  pub error : Value

-- How a statement ends: with a value, by `goto shutdown`, by a bailout, or in undefined behaviour.
pub data Flow (A : Type 0) : Type 0 where
  next : A → Flow A
  shutdown bailout broken : Flow A

abbrev pub message_of : Option Zval → CStr
message_of (some (Zval.string s)) = some s
message_of _ = none

abbrev pub code_of : Option Zval → ℤ
code_of (some (Zval.long i)) = i
code_of _ = pos 0

unfoldable pub exception_to_value : Exception → Value
exception_to_value ex = value_err ex.class_name (message_of ex.message) (code_of ex.code) none

abbrev pub is_absent : Value → Bool
is_absent absent = true
is_absent _ = false

-- `parallax_internal_capture_exception`, on `worker_captured_error`.
unfoldable pub capture_exception : Value → Exception → Value
unfolding exception_to_value
capture_exception captured ex = if is_absent captured then exception_to_value ex else captured

unfoldable pub capture_all : Value → List Exception → Value
unfolding capture_exception
capture_all captured [] = captured
capture_all captured (ex ∷ exs) = capture_all (capture_exception captured ex) exs

module _ {e : Engine} where
  unfoldable pub follow :
      {A B : Type 0} → Thread e × Flow A → (A → Thread e → Thread e × Flow B) → Thread e × Flow B
  follow (t, next a) f = f a t
  follow (t, shutdown) f = (t, shutdown)
  follow (t, bailout) f = (t, bailout)
  follow (t, broken) f = (t, broken)

  infixl 5 ◌>>=◌
  abbrev pub ◌>>=◌ :
      {A B : Type 0}
      → (Thread e → Thread e × Flow A)
      → (A → Thread e → Thread e × Flow B)
      → Thread e
      → Thread e × Flow B
  (m >>= f) t = follow (m t) f

  infixl 5 ◌>>◌
  abbrev pub ◌>>◌ :
      {A B : Type 0}
      → (Thread e → Thread e × Flow A)
      → (Thread e → Thread e × Flow B)
      → Thread e
      → Thread e × Flow B
  m >> k = m >>= (λ a. k)

  abbrev pub return : {A : Type 0} → A → Thread e → Thread e × Flow A
  return a t = (t, next a)

  -- `goto shutdown`
  abbrev pub stop : {A : Type 0} → Thread e → Thread e × Flow A
  stop t = (t, shutdown)

  abbrev pub answered : {A : Type 0} → Thread e → Option A → Thread e × Flow A
  answered t none = (t, bailout)
  answered t (some a) = (t, next a)

  -- A call of the engine, and the exceptions that it passes to the capture function.
  unfoldable pub invoke :
      {A : Type 0} → (e.World → e.World × Called A) → Thread e → Thread e × Flow A
  unfolding capture_all
  invoke call t =
      let (w, called) = call t.world in
      answered (record t { world = w; captured = capture_all t.captured called.handled })
        called.answer

  -- The end of a run of bridge.c.
  abbrev pub arrived : {A : Type 0} → Thread e → Ending A → Thread e × Flow A
  arrived t (finished a) = (t, next a)
  arrived t bailed = (t, bailout)
  arrived t faulted = (t, broken)
