-- ===== src/Bridge/Runner/Ends.antt =====
-- The errors of a task, and the branch for closures: an error goes to `shutdown`.
use php_parallax.Prelude.{Bool, Option, none, some, ◌&&◌, refl, inl, inr, Bool-cases}
use php_parallax.Value.{Bytes, Value}
use php_parallax.Bridge.Types.{Zval}
use php_parallax.Bridge.Zend
use php_parallax.Bridge.Zend.{Ran, Sound}
use php_parallax.Bridge.Materialise.{Engine, px_value_to_zval}
use php_parallax.Bridge.Materialise.Classes.{Constructs, px_value_to_zval-Sound}
use php_parallax.Bridge.Callable.{Callable}
use php_parallax.Bridge.Runner.Factory.{
  is_some, is_closure_object, is_object, take_exception, surface_exception, surface, materialise,
  check_compiled, check_factory, check_factory_exception, check_inner, make_closure,
}
use php_parallax.Bridge.Runner.Flow.{Exception, Runtime, Thread, is_absent, capture_all, arrived}
use php_parallax.Bridge.Runner.Stages.{
  exception_to_value-IsErr, own_error-IsErr, At, Ends, Ends-follow, call-Ends, shut, fail_with-Ends,
  take_captured-Ends, open_yet, refused, goes, stops, bails, capture_all-Parked,
}

module _ {e : Engine} (r : Runtime e) where
  pub take_exception-Ends :
      (ex : Exception) (t : Thread e)
      → At open_yet t
      → Ends (λ u t'. At refused t') (take_exception r ex t)
  unfolding take_exception
  take_exception-Ends ex t (m, v, c) =
      call-Ends refused _ _ ((refl, exception_to_value-IsErr ex), v, c)

  pub surface_exception-Ends :
      (ex : Option Exception) (cls msg : Bytes) (t : Thread e)
      → At open_yet t
      → Ends (λ u t'. At refused t') (surface_exception r ex cls msg t)
  unfolding surface_exception
  surface_exception-Ends none cls msg t h = fail_with-Ends _ t (own_error-IsErr cls msg) h
  surface_exception-Ends (some ex) cls msg t h = take_exception-Ends ex t h

  pub surface-Ends :
      (cls msg : Bytes) (t : Thread e)
      → At open_yet t
      → Ends (λ u t'. At refused t') (surface r cls msg t)
  unfolding surface
  surface-Ends cls msg t h = elim (Bool-cases (is_absent t.captured)) [
    | inl e ↦ rw e (surface_exception-Ends (r.exception t.world) cls msg t h)
    | inr e ↦ rw e (take_captured-Ends t h e)
  ]

  pub check_compiled-Ends :
      (compiled : Option r.Code) (t : Thread e)
      → At open_yet t
      → Ends (λ a t'. At open_yet t') (check_compiled r compiled t)
  unfolding check_compiled
  check_compiled-Ends none t h = Ends-follow (surface-Ends _ _ t h) λ u t₁ h₁. stops h₁
  check_compiled-Ends (some op_array) t h = elim (Bool-cases (is_some (r.exception t.world))) [
    | inl e ↦ rw e (shut _ (surface-Ends _ _ t h))
    | inr e ↦ rw e (goes h)
  ]

  pub check_exception-Ends :
      (ex : Option Exception) (factory : Zval) (t : Thread e)
      → At open_yet t
      → Ends (λ u t'. At open_yet t') (check_factory_exception r ex factory t)
  unfolding check_factory_exception
  check_exception-Ends (some ex) factory t h = shut _ (take_exception-Ends ex t h)
  check_exception-Ends none factory t h =
      elim (Bool-cases (is_closure_object (r.heap t.world) factory)) [
        | inl e ↦ rw e (goes h)
        | inr e ↦ rw e (shut _ (fail_with-Ends _ t (own_error-IsErr _ _) h))
      ]

  pub check_factory-Ends :
      (factory : Zval) (t : Thread e)
      → At open_yet t
      → Ends (λ u t'. At open_yet t') (check_factory r factory t)
  unfolding check_factory
  check_factory-Ends factory t h = elim (Bool-cases (is_absent t.captured)) [
    | inl e ↦ rw e (check_exception-Ends (r.exception t.world) factory t h)
    | inr e ↦ rw e (shut _ (take_captured-Ends t h e))
  ]

  pub check_inner-Ends :
      (rc : Bool) (inner : Zval) (t : Thread e)
      → At open_yet t
      → Ends (λ a t'. At open_yet t') (check_inner r rc inner t)
  unfolding check_inner
  check_inner-Ends rc inner t h = elim (Bool-cases (rc && is_object inner)) [
    | inl e ↦ rw e (goes h)
    | inr e ↦ rw e (shut _ (surface-Ends _ _ t h))
  ]

  arrived-Ends :
      {A : Type 0} (m : e.World × Ran A) (t : Thread e)
      → At open_yet t
      → Sound (λ a. Unit {0}) m
      → Ends
          (λ a t'. At open_yet t')
          (arrived (record t { world = m.0; captured = capture_all t.captured m.1.0 }) m.1.1)
  arrived-Ends _ t (o, v, c) (Zend.goes {handled} h) =
      goes (o, v, capture_all-Parked t.captured handled c)
  arrived-Ends _ t (o, v, c) (Zend.bails {handled}) =
      bails open_yet (o, v, capture_all-Parked t.captured handled c)

  pub materialise-Ends :
      (v : Value) (t : Thread e)
      → At open_yet t
      → Constructs e v
      → Ends (λ a t'. At open_yet t') (materialise r v t)
  unfolding materialise
  materialise-Ends v t h makes =
      arrived-Ends (px_value_to_zval e t.world v) t h (px_value_to_zval-Sound e t.world v makes)

  pub make_closure-Ends :
      (callable : Callable) (t : Thread e)
      → At open_yet t
      → Constructs e callable.closure_captures
      → Ends (λ a t'. At open_yet t') (make_closure r callable t)
  unfolding make_closure
  make_closure-Ends callable t h makes = Ends-follow (call-Ends open_yet _ t h) λ compiled t₁ h₁.
      Ends-follow (check_compiled-Ends compiled t₁ h₁) λ op_array t₂ h₂.
        Ends-follow (call-Ends open_yet _ t₂ h₂) λ factory t₃ h₃.
          Ends-follow (call-Ends open_yet _ t₃ h₃) λ u t₄ h₄.
            Ends-follow (check_factory-Ends factory t₄ h₄) λ u t₅ h₅.
              Ends-follow (materialise-Ends _ t₅ h₅ makes) λ captures t₆ h₆.
                Ends-follow (call-Ends open_yet _ t₆ h₆) λ called t₇ h₇.
                  Ends-follow (call-Ends open_yet _ t₇ h₇) λ u t₈ h₈.
                    Ends-follow (call-Ends open_yet _ t₈ h₈)
                      λ u t₉ h₉. check_inner-Ends called.0 called.1 t₉ h₉
