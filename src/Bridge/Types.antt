-- ===== src/Bridge/Types.antt =====
-- bridge.c, bridge.h: what the code reads of the Zend engine's data, and the exceptions it throws.
use php_parallax.Prelude.{
  ◌≡◌, refl, ℕ, suc, Bool, List, Option, Outcome, done, refused, fault, stuck,
}
use php_parallax.Prelude.Int.{ℤ}
use php_parallax.Value.{Bytes, Key}
use php_parallax.Scanner.Extract.{ExtractError}

mutual
  -- A zval by its type. IS_TRUE and IS_FALSE are `bool`, a double is its 64 bits, an object and a
  -- reference are handles, and `other` is a type number that the code has no case for.
  pub data Zval : Type 0 where
    undef null resource : Zval
    bool : Bool → Zval
    long : ℤ → Zval
    double : ℕ → Zval
    string : Bytes → Zval
    array : Table → Zval
    object reference : ℕ → Zval
    other : ℕ → Zval

  -- The entries of a HashTable that ZEND_HASH_FOREACH visits, in order. An index is a zend_ulong
  -- by the int64_t that it is cast to.
  pub data Table : Type 0 where
    end : Table
    entry : Key → Zval → Table → Table

-- `zend_hash_num_elements`
abbrev pub num_elements : Table → ℕ
num_elements end = 0
num_elements (entry k z t) = suc (num_elements t)

-- `zend_property_info`
pub record Property : Type 0 where
  pub name : Bytes
  pub is_static : Bool
  pub offset : ℕ

-- `zend_class_entry`: `is_closure` is `instanceof_function(ce, zend_ce_closure)`, and `native` is
-- `create_object != NULL && create_object != zend_objects_new`.
pub record Class : Type 0 where
  pub name : Bytes
  pub is_closure : Bool
  pub native : Bool
  pub properties : List Property

-- `zend_function` of a closure: `fake` is ZEND_ACC_FAKE_CLOSURE, `user` is ZEND_USER_FUNCTION.
pub record Function : Type 0 where
  pub fake : Bool
  pub user : Bool
  pub name : Bytes
  pub scope : Option Class
  pub filename : Option Bytes
  pub line_start : ℤ
  pub static_variables : Option Table

-- `zend_object`: the declared slots by offset, and the table of dynamic properties. For a closure,
-- the results of `zend_get_closure_method_def` and `zend_get_closure_this_ptr` too.
pub record Object : Type 0 where
  pub ce : Class
  pub slots : ℕ → Zval
  pub dynamic : Option Table
  pub function : Option Function
  pub this : Option Zval

-- What handles stand for.
pub record Heap : Type 0 where
  pub objects : ℕ → Object
  pub cells : ℕ → Zval

-- The exceptions that the bridge throws: CaptureError and SpawnError, with the message.
pub data Thrown : Type 0 where
  element_by_reference nested_closure too_deep is_resource by_reference : Thrown
  native_state : Bytes → Thrown
  unsupported_type : ℕ → Thrown
  instance_method not_user_closure bound_this no_source_file variable_by_reference : Thrown
  extraction_failed : ExtractError → Thrown
  variable_unassigned : Bytes → Thrown
  argument_by_reference : Thrown
  not_two_elements not_class_and_method no_introspection unsupported_callable : Thrown
  uninitialised : Thrown

-- A call that may throw; `broken` is undefined behaviour.
pub data Attempt {ℓ} (A : Type ℓ) : Type ℓ where
  ok : A → Attempt A
  thrown : Thrown → Attempt A
  broken : Attempt A

infixl 5 ◌>>=◌
abbrev pub ◌>>=◌ {ℓ κ} : {A : Type ℓ} {B : Type κ} → Attempt A → (A → Attempt B) → Attempt B
ok a >>= f = f a
thrown t >>= f = thrown t
broken >>= f = broken

-- A call that reports no error.
abbrev pub lift {ℓ} : {A : Type ℓ} → Outcome A → Attempt A
lift (done a) = ok a
lift refused = broken
lift fault = broken
lift stuck = broken

-- The call throws, or gives a value with `P`.
pub data Yields {ℓ κ} {A : Type ℓ} (P : A → Type κ) : Attempt A → Type (ℓ ⊔ κ) where
  yields : {a : A} → P a → Yields P (ok a)
  throws : {t : Thrown} → Yields P (thrown t)

pub Yields-bind {ℓ κ ℓ' κ'} :
    {A : Type ℓ} {P : A → Type κ} {B : Type ℓ'} {Q : B → Type κ'} {r : Attempt A}
    {f : A → Attempt B}
    → Yields P r
    → ((a : A) → P a → Yields Q (f a))
    → Yields Q (r >>= f)
Yields-bind (yields {a} h) k = k a h
Yields-bind throws k = throws

pub Yields-weaken {ℓ κ κ'} :
    {A : Type ℓ} {P : A → Type κ} {Q : A → Type κ'} {r : Attempt A}
    → ((a : A) → P a → Q a)
    → Yields P r
    → Yields Q r
Yields-weaken k (yields {a} h) = yields (k a h)
Yields-weaken k throws = throws

-- A chain that gives a value has a first step that gives one.
pub >>=-eq-ok {ℓ κ} :
    {A : Type ℓ} {B : Type κ} (call : Attempt A) (rest : A → Attempt B) {got : B}
    → (call >>= rest) ≡ ok got
    → (first : A) × (call ≡ ok first) × (rest first ≡ ok got)
>>=-eq-ok (thrown reason) rest e = cc
>>=-eq-ok broken rest e = cc
>>=-eq-ok (ok first) rest e = (first, refl, e)
