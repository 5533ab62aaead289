-- ===== src/Bridge/Callable/Forms.antt =====
-- The spellings of a callable, as a string, an array, or a first-class callable.
use php_parallax.Prelude.{
  ℕ, ◌≡◌, ◌≢◌, refl, sym, ap, ◌∙◌, arith, true, false, [], ◌∷◌, ◌++◌, Option, some, ◌==◌, ◌⊎◌, inl,
  inr, Bool-cases, All,
}
use php_parallax.Prelude.Int.{pos}
use php_parallax.Value.{Bytes, int_key}
use php_parallax.Bridge.Types.{Zval, end, entry, Class, Function, Heap, ok}
use php_parallax.Bridge.Callable.{
  Callable, of_function, of_method, before_colon, from_colon, resolve_string, resolve_pair,
  resolve_array, resolve_fake, resolve_closure, px_resolve_callable,
}

abbrev pub IsPlain : Bytes → Type 0
IsPlain s = All (λ (c : ℕ). c ≢ 58) s

-- `cls::name`
abbrev pub method_text : Bytes → Bytes → Bytes
method_text cls name = cls ++ (58 ∷ 58 ∷ name)

from_colon-plain : (s rest : Bytes) → IsPlain s → from_colon (s ++ (58 ∷ rest)) ≡ 58 ∷ rest
unfolding from_colon
from_colon-plain [] rest h = refl
from_colon-plain (c ∷ s) rest h =
    let other : (c == 58) ≡ false = ground (arith, h.0) in rw (other, from_colon-plain s rest h.1)

before_colon-plain : (s rest : Bytes) → IsPlain s → before_colon (s ++ (58 ∷ rest)) ≡ s
unfolding before_colon
before_colon-plain [] rest h = refl
before_colon-plain (c ∷ s) rest h =
    let other : (c == 58) ≡ false = ground (arith, h.0) in rw (other, before_colon-plain s rest h.1)

before_colon-IsPlain : (s : Bytes) → IsPlain (before_colon s)
unfolding before_colon
before_colon-IsPlain [] = tt
before_colon-IsPlain (c ∷ s) = elim (Bool-cases (c == 58)) [
  | inl e ↦ rw e tt
  | inr e ↦ rw e (ground (arith, e), before_colon-IsPlain s)
]

colon-parts : (s : Bytes) → s ≡ before_colon s ++ from_colon s
unfolding before_colon from_colon
colon-parts [] = refl
colon-parts (c ∷ s) = elim (Bool-cases (c == 58)) [
  | inl e ↦ rw e
  | inr e ↦ rw e (ap (λ t. c ∷ t) (colon-parts s))
]

from_colon-head : (s : Bytes) (c : ℕ) (rest : Bytes) → from_colon s ≡ c ∷ rest → c ≡ 58
unfolding from_colon
from_colon-head [] c rest h = absurd (cc h)
from_colon-head (d ∷ s) c rest h = elim (Bool-cases (d == 58)) [
  | inl e ↦
      let h' : d ∷ s ≡ c ∷ rest = rw e at h in let same : c ≡ d = cc in same ∙ ground (arith, e)
  | inr e ↦ from_colon-head s c rest (rw e at h)
]

resolve_string-method :
    (cls name : Bytes)
    → IsPlain cls
    → resolve_string (method_text cls name) (from_colon (method_text cls name)) ≡ of_method cls name
unfolding resolve_string
resolve_string-method cls name h =
    rw (from_colon-plain cls (58 ∷ name) h, before_colon-plain cls (58 ∷ name) h)

-- `s` is `cls::name`, for a class name with no colon.
abbrev pub IsMethodText : Bytes → Bytes → Bytes → Type 0
IsMethodText s cls name = IsPlain cls × (s ≡ method_text cls name)

abbrev pub Resolves : (Bytes → Callable) → Bytes → Type 0
Resolves resolve s =
    ((cls : Bytes) × (name : Bytes) × IsMethodText s cls name × (resolve s ≡ of_method cls name))
    ⊎ (((cls name : Bytes) → ¬ IsMethodText s cls name) × (resolve s ≡ of_function s))

no-method :
    (s sep : Bytes)
    → from_colon s ≡ sep
    → ((name : Bytes) → sep ≢ 58 ∷ 58 ∷ name)
    → (cls name : Bytes) → ¬ IsMethodText s cls name
no-method s sep e other cls name (plain, whole) =
    other name (sym e ∙ ap from_colon whole ∙ from_colon-plain cls (58 ∷ name) plain)

string-cases : (s sep : Bytes) → from_colon s ≡ sep → Resolves (λ t. resolve_string t sep) s
unfolding resolve_string
string-cases s [] e = inr (no-method s [] e (λ name h. cc), refl)
string-cases s (c ∷ []) e = inr (no-method s (c ∷ []) e (λ name h. cc), refl)
string-cases s (c ∷ d ∷ name) e = elim (Bool-cases (d == 58)) [
  | inl two ↦
      let first : c ≡ 58 = from_colon-head s c (d ∷ name) e in
      let second : d ≡ 58 = ground (arith, two) in
      let whole : s ≡ method_text (before_colon s) name =
        colon-parts s ∙ ap (λ t. before_colon s ++ t) (rw (e, first, second)) in
      inl (before_colon s, name, (before_colon-IsPlain s, whole), rw two)
  | inr one ↦ inr (
    no-method s (c ∷ d ∷ name) e
        (λ other h. let same : d ≡ 58 = cc in absurd (ground (arith, one, same))),
    rw one,
  )
]

module _ (read_file_all : Bytes → Option Bytes) (heap : Heap) where
  -- A string resolves to the static method `name` of `cls` where it is `cls::name` with no colon in
  -- `cls`; where it is not of that form for any `cls` and `name`, it resolves to the function that
  -- it names.
  pub px_resolve_callable-text :
      (s : Bytes)
      → ((cls : Bytes) × (name : Bytes) × IsMethodText s cls name
          × (px_resolve_callable read_file_all heap (Zval.string s) ≡ ok (of_method cls name)))
        ⊎ (((cls name : Bytes) → ¬ IsMethodText s cls name)
            × (px_resolve_callable read_file_all heap (Zval.string s) ≡ ok (of_function s)))
  unfolding px_resolve_callable
  px_resolve_callable-text s = elim (string-cases s (from_colon s) refl) [
    | inl (cls, name, shape, e) ↦ inl (cls, name, shape, ap ok e)
    | inr (other, e) ↦ inr (other, ap ok e)
  ]

  array-method :
      (cls name : Bytes)
      → resolve_array (
          entry
            (int_key (pos 0))
            (Zval.string cls)
            (entry (int_key (pos 1)) (Zval.string name) end))
        ≡ ok (of_method cls name)
  unfolding resolve_array resolve_pair
  array-method cls name = refl

  -- For a class whose name has no colon, the string `cls::name`, the array of `cls` and `name`, and
  -- the first-class callable of the method resolve to the same recipe of a static method.
  pub px_resolve_callable-forms :
      (ce : Class) (fn : Function) (id : ℕ)
      → IsPlain ce.name
      → (heap.objects id).ce.is_closure ≡ true
      → (heap.objects id).function ≡ some fn
      → fn.fake ≡ true
      → fn.scope ≡ some ce
      → (px_resolve_callable read_file_all heap (Zval.string (method_text ce.name fn.name))
          ≡ ok (of_method ce.name fn.name))
        × (px_resolve_callable read_file_all heap (
              Zval.array (
                entry
                  (int_key (pos 0))
                  (Zval.string ce.name)
                  (entry (int_key (pos 1)) (Zval.string fn.name) end)))
            ≡ ok (of_method ce.name fn.name))
        × (px_resolve_callable read_file_all heap (Zval.object id) ≡ ok (of_method ce.name fn.name))
  unfolding px_resolve_callable resolve_closure resolve_fake
  px_resolve_callable-forms ce fn id plain closure target fake scope = (
    ap ok (resolve_string-method ce.name fn.name plain),
    array-method ce.name fn.name,
    rw (closure, target, fake, scope),
  )
