-- ===== src/Bridge/Zend.antt =====
-- How a call of the Zend engine ends, and chains of such calls.
use php_parallax.Prelude.{List, [], ◌++◌, ◌≡◌, refl, Option, none, some}
use php_parallax.Value.{CStr}
use php_parallax.Bridge.Types.{Zval}

-- What `exception_to_value` reads of a Throwable: the name of its class, and the properties.
pub record Exception : Type 0 where
  pub class_name : CStr
  pub message : Option Zval
  pub code : Option Zval

-- How a call of the engine ends. `handled` are the exceptions that it passed to
-- `zend_throw_exception_hook`, which on a worker is `parallax_internal_capture_exception`; an answer
-- of `none` is a bailout.
pub record Called (A : Type 0) : Type 0 where
  pub handled : List Exception
  pub answer : Option A

-- How C code that calls the engine ends: with a value, by a bailout, or in undefined behaviour.
pub data Ending (A : Type 0) : Type 0 where
  finished : A → Ending A
  bailed faulted : Ending A

-- With the exceptions that were handled, in order.
abbrev pub Ran : Type 0 → Type 0
Ran A = List Exception × Ending A

abbrev pub Run : Type 0 → Type 0 → Type 0
Run W A = W → W × Ran A

abbrev pub plainly : {A : Type 0} → A → Ran A
plainly a = ([], finished a)

abbrev pub ending_of : {A : Type 0} → Option A → Ending A
ending_of none = bailed
ending_of (some a) = finished a

module _ {W : Type 0} where
  abbrev pub logged : {A : Type 0} → List Exception → W × Ran A → W × Ran A
  logged handled (w, (more, ending)) = (w, (handled ++ more, ending))

  unfoldable pub proceed : {A B : Type 0} → W × Ran A → (A → Run W B) → W × Ran B
  proceed (w, (handled, finished a)) f = logged handled (f a w)
  proceed (w, (handled, bailed)) f = (w, (handled, bailed))
  proceed (w, (handled, faulted)) f = (w, (handled, faulted))

  infixl 5 ◌>>=◌
  abbrev pub ◌>>=◌ : {A B : Type 0} → Run W A → (A → Run W B) → Run W B
  (m >>= f) w = proceed (m w) f

  infixl 5 ◌>>◌
  abbrev pub ◌>>◌ : {A B : Type 0} → Run W A → Run W B → Run W B
  m >> k = m >>= (λ a. k)

  abbrev pub return : {A : Type 0} → A → Run W A
  return a w = (w, plainly a)

  abbrev pub fault : {A : Type 0} → Run W A
  fault w = (w, ([], faulted))

  unfoldable pub call : {A : Type 0} → (W → W × Called A) → Run W A
  call c w = let (w', called) = c w in (w', (called.handled, ending_of called.answer))

-- No undefined behaviour, and `P` where the code goes on.
pub data Sound {W A : Type 0} (P : A → Type 0) : W × Ran A → Type 0 where
  goes : {w : W} {handled : List Exception} {a : A} → P a → Sound P (w, (handled, finished a))
  bails : {w : W} {handled : List Exception} → Sound P (w, (handled, bailed))

module _ {W A : Type 0} {P : A → Type 0} where
  logged-Sound : (handled : List Exception) (m : W × Ran A) → Sound P m → Sound P (logged handled m)
  logged-Sound handled _ (goes h) = goes h
  logged-Sound handled _ bails = bails

  ending_of-Sound :
      (w : W) (handled : List Exception) (answer : Option A)
      → ((a : A) → answer ≡ some a → P a)
      → Sound P (w, (handled, ending_of answer))
  ending_of-Sound w handled none k = bails
  ending_of-Sound w handled (some a) k = goes (k a refl)

  pub Sound-call :
      (c : W → W × Called A) (w : W)
      → ((a : A) → (c w).1.answer ≡ some a → P a)
      → Sound P (call c w)
  unfolding call
  Sound-call c w h = ending_of-Sound (c w).0 (c w).1.handled (c w).1.answer h

pub Sound-bind :
    {W A B : Type 0} {P : A → Type 0} {Q : B → Type 0} {m : W × Ran A} {f : A → Run W B}
    → Sound P m
    → ((a : A) (w : W) → P a → Sound Q (f a w))
    → Sound Q (proceed m f)
unfolding proceed
Sound-bind {f} (goes {w} {handled} {a} h) k = logged-Sound handled (f a w) (k a w h)
Sound-bind bails k = bails
