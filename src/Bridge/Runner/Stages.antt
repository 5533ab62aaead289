-- ===== src/Bridge/Runner/Stages.antt =====
-- What a call of the engine leaves of the outcome of a task, and how statements end.
use php_parallax.Prelude.{
  List, [], ◌∷◌, Bool, true, false, Option, none, some, if◌then◌else◌, ◌≡◌, refl, ◌⊎◌, inl, inr,
  Bool-cases,
}
use php_parallax.Value.{Bytes, Value, absent, err, value_err, IsValue}
use php_parallax.Bridge.Materialise.{Engine}
use php_parallax.Bridge.Runner.Words.{error_class, bailed_out}
use php_parallax.Bridge.Runner.Factory.{own_error, fail_with, take_captured}
use php_parallax.Bridge.Runner.Flow.{
  Exception, Called, Thread, Flow, next, shutdown, bailout, exception_to_value, is_absent,
  capture_exception, capture_all, ◌>>◌, follow, stop, answered, invoke,
}

abbrev pub IsErr : Value → Type 0
IsErr (err cls msg code trace) = Unit {0}
IsErr _ = ⊥

-- An error field is NULL, or an error.
abbrev pub Parked : Value → Type 0
Parked v = (v ≡ absent) ⊎ IsErr v

-- Where a task stands: without outcome, with an error, or with success.
pub data Stage : Type 0 where
  open_yet refused accepted : Stage

abbrev pub Meets : Stage → Bool → Value → Type 0
Meets open_yet o v = (o ≡ false) × (v ≡ absent)
Meets refused o v = (o ≡ false) × IsErr v
Meets accepted o v = (o ≡ true) × (v ≡ absent)

pub Meets-Parked : (s : Stage) (o : Bool) (v : Value) → Meets s o v → Parked v
Meets-Parked open_yet o v h = inl h.1
Meets-Parked refused o v h = inr h.1
Meets-Parked accepted o v h = inl h.1

pub exception_to_value-IsErr : (ex : Exception) → IsErr (exception_to_value ex)
unfolding exception_to_value value_err
exception_to_value-IsErr ex = tt

pub own_error-IsErr : (cls msg : Bytes) → IsErr (own_error cls msg)
unfolding value_err
own_error-IsErr cls msg = tt

pub capture_all-Parked : (v : Value) (exs : List Exception) → Parked v → Parked (capture_all v exs)
unfolding capture_all capture_exception
capture_all-Parked v [] h = h
capture_all-Parked v (ex ∷ exs) h = elim (Bool-cases (is_absent v)) [
  | inl e ↦
      rw e (capture_all-Parked (exception_to_value ex) exs (inr (exception_to_value-IsErr ex)))
  | inr e ↦ rw e (capture_all-Parked v exs h)
]

pub taken : (v : Value) → Parked v → is_absent v ≡ false → IsErr v
taken v (inl e) h = absurd (cc)
taken v (inr parked) h = parked

pub bailed_out-IsErr :
    (v : Value) → Parked v → IsErr (if is_absent v then own_error error_class bailed_out else v)
bailed_out-IsErr v h = elim (Bool-cases (is_absent v)) [
  | inl e ↦ rw e (own_error-IsErr error_class bailed_out)
  | inr e ↦ rw e (taken v h e)
]

module _ {e : Engine} where
  abbrev pub At : Stage → Thread e → Type 0
  At s t = Meets s t.ok t.error × IsValue t.result × Parked t.captured

  -- How a statement may end, with `P` if it goes on.
  pub data Ends {A : Type 0} (P : A → Thread e → Type 0) : Thread e × Flow A → Type 0 where
    goes : {a : A} {t : Thread e} → P a t → Ends P (t, next a)
    stops : {t : Thread e} → At refused t → Ends P (t, shutdown)
    bails : {t : Thread e} (s : Stage) → At s t → Ends P (t, bailout)

  pub Ends-follow :
      {A B : Type 0} {P : A → Thread e → Type 0} {Q : B → Thread e → Type 0} {m : Thread e × Flow A}
      {f : A → Thread e → Thread e × Flow B}
      → Ends P m
      → ((a : A) (t : Thread e) → P a t → Ends Q (f a t))
      → Ends Q (follow m f)
  unfolding follow
  Ends-follow (goes {a} {t} h) k = k a t h
  Ends-follow (stops h) k = stops h
  Ends-follow (bails s h) k = bails s h

  pub answered-Ends :
      {A : Type 0} {P : A → Thread e → Type 0} (s : Stage) (t : Thread e) (answer : Option A)
      → At s t
      → ((a : A) → answer ≡ some a → P a t)
      → Ends P (answered t answer)
  answered-Ends s t none h k = bails s h
  answered-Ends s t (some a) h k = goes (k a refl)

  -- A call of the engine leaves the outcome alone.
  pub invoke-Ends :
      {A : Type 0} {P : A → Thread e → Type 0} (s : Stage) (call : e.World → e.World × Called A)
      (t : Thread e)
      → At s t
      → ((a : A) (t' : Thread e) → (call t.world).1.answer ≡ some a → At s t' → P a t')
      → Ends P (invoke call t)
  unfolding invoke
  invoke-Ends s call t (m, v, c) k =
      let parked = capture_all-Parked t.captured (call t.world).1.handled c in
      answered-Ends s _ (call t.world).1.answer (m, v, parked) λ a eq. k a _ eq (m, v, parked)

  pub answered-At :
      {A : Type 0} (s : Stage) (t : Thread e) (answer : Option A)
      → At s t
      → At s (answered t answer).0
  answered-At s t none h = h
  answered-At s t (some a) h = h

  -- Where a bailout is not passed on, too.
  pub invoke-At :
      {A : Type 0} (s : Stage) (call : e.World → e.World × Called A) (t : Thread e)
      → At s t
      → At s (invoke call t).0
  unfolding invoke
  invoke-At s call t (m, v, c) =
      answered-At s _ (call t.world).1.answer
        (m, v, capture_all-Parked t.captured (call t.world).1.handled c)

  -- A call whose answer does not matter.
  pub call-Ends :
      {A : Type 0} (s : Stage) (call : e.World → e.World × Called A) (t : Thread e)
      → At s t
      → Ends (λ a t'. At s t') (invoke call t)
  call-Ends s call t h = invoke-Ends s call t h λ a t' eq h'. h'

  -- An error that is set, then a release, then `goto shutdown`.
  pub shut :
      {A B : Type 0} {P : B → Thread e → Type 0} {m : Thread e × Flow (Unit {0})}
      (call : e.World → e.World × Called A)
      → Ends (λ u t'. At refused t') m
      → Ends P (follow m (λ u. invoke call >> stop))
  shut call h = Ends-follow h λ u t₁ h₁. Ends-follow (call-Ends refused _ t₁ h₁) λ a t₂ h₂. stops h₂

  pub fail_with-Ends :
      (v : Value) (t : Thread e)
      → IsErr v
      → At open_yet t
      → Ends (λ u t'. At refused t') (fail_with v t)
  fail_with-Ends v t is_err (m, r, c) = goes ((refl, is_err), r, c)

  pub take_captured-Ends :
      (t : Thread e)
      → At open_yet t
      → is_absent t.captured ≡ false
      → Ends (λ u t'. At refused t') (take_captured t)
  unfolding take_captured
  take_captured-Ends t (m, r, c) there = goes ((refl, taken t.captured c there), r, inl refl)
