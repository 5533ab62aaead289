-- ===== src/Bridge/Runner/Verdict.antt =====
-- How a task ends: with a result, or with an error.
use php_parallax.Prelude.{List, Bool, true, false, some, ◌≡◌, ◌⊎◌}
use php_parallax.Value.{Value, absent, IsValue}
use php_parallax.WaitGroup.{Report}
use php_parallax.Bridge.Types.{Zval, ok}
use php_parallax.Bridge.Capture.Wellformed.{IsZval, IsHeap}
use php_parallax.Bridge.Materialise.{Engine}
use php_parallax.Bridge.Callable.{Callable}
use php_parallax.Bridge.Runner.Flow.{Runtime, Thread, Flow}
use php_parallax.Bridge.Runner.Stages.{IsErr, At, Ends, refused, accepted}

-- What the engine documents: its data is well-formed, and a call returns a zval.
pub record IsRuntime {e : Engine} (r : Runtime e) : Type 0 where
  pub heap : (w : e.World) → IsHeap (r.heap w)
  pub returned :
      (w : e.World) (callable : Zval) (argv : List Zval) (rc : Bool) (z : Zval)
      → (r.call_user_function w callable argv).1.answer ≡ some (rc, z)
      → IsZval z

module _ {e : Engine} (r : Runtime e) where
  -- Ended, by either outcome.
  abbrev Over : Thread e → Type 0
  Over t = At accepted t ⊎ At refused t

-- A task that succeeded has a result, or NULL, and no error; one that did not has an error.
pub data Verdict {U : Type 0} : Report U → Type 0 where
  succeeded : {p : Report U} → p.ok ≡ true → p.error ≡ absent → IsValue p.result → Verdict p
  erred : {p : Report U} → p.ok ≡ false → IsErr p.error → Verdict p
