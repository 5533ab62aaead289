-- ===== src/Examples/Machine.antt =====
-- A small engine, which keeps the properties last written, and a heap with one kind of object.
use php_parallax.Prelude.{
  Bool, ◌≡◌, refl, arith, List, [], ◌∷◌, true, false, none, some, if◌then◌else◌, Option, subst, ap,
  sym,
}
use php_parallax.Prelude.Int.{pos}
use php_parallax.Value.{Bytes, int_key, str_key, bytes_eq}
use php_parallax.Bridge.Types.{Zval, num_elements, Class, Function, Object, Heap}
use php_parallax.Bridge.Capture.Wellformed.{IsZval, IsObject, IsHeap}
use php_parallax.Bridge.Materialise.{Engine}
use php_parallax.Bridge.Materialise.Transfer.{append, ArrayLaws}
use php_parallax.Bridge.Runner.Flow.{Exception, Called, Runtime}
use php_parallax.Bridge.Runner.Verdict.{IsRuntime}
use php_parallax.Bridge.Materialise.Classes.{Constructible}
use php_parallax.Userland.Wait.{Results}
use php_parallax.Userland.Results.{AppendsNext}

-- `A`, with a declared property `p`.
abbrev pub plain_class : Class
plain_class = record {
  name = 65 ∷ [];
  is_closure = false;
  native = false;
  properties = record { name = 112 ∷ []; is_static = false; offset = 0 } ∷ [];
}

-- An object that holds itself behind a reference.
abbrev pub knot : Object
knot = record {
  ce = plain_class;
  slots = λ i. Zval.reference 0;
  dynamic = none;
  function = none;
  this = none;
}

abbrev pub knot_heap : Heap
knot_heap = record { objects = λ id. knot; cells = λ c. Zval.object 0 }

-- A closure of class `A`, of a function with the variable `p`.
abbrev pub closure_object : Function → Object
closure_object fn = record {
  ce = record plain_class { is_closure = true };
  slots = λ i. Zval.undef;
  dynamic = none;
  function = some fn;
  this = none;
}

abbrev pub closure_heap : Function → Heap
closure_heap fn = record { objects = λ id. closure_object fn; cells = λ c. Zval.null }

abbrev pub nameless_class : Class
nameless_class = record { name = []; is_closure = false; native = false; properties = [] }

abbrev pub engine : Engine
engine = record {
  World = Bytes → Zval;
  is_numeric = λ s. false;
  add_index_zval = λ ht i z. append ht (int_key i) z;
  add_assoc_zval = λ ht s z. append ht (str_key s) z;
  lookup_class = λ w name. (w, record { handled = []; answer = some none });
  standard_class = nameless_class;
  worker_error_class = nameless_class;
  object_init = λ w ce. ((λ p. Zval.null), record { handled = []; answer = some (Zval.object 0) });
  update_property = λ w ce o p z.
      ((λ q. if bytes_eq p q then z else w q), record { handled = []; answer = some tt });
}

pub engine-ArrayLaws : ArrayLaws engine
engine-ArrayLaws = record { index_fresh = λ ht i z a. refl; assoc_fresh = λ ht s z n a. refl }

abbrev pub results : Results engine
results = record {
  result_class = nameless_class;
  update_property_bool = λ w ce o p b. engine.update_property w ce o p (Zval.bool b);
  add_next_index_zval = λ ht z. append ht (int_key (pos (num_elements ht))) z;
}

pub results-AppendsNext : AppendsNext results
results-AppendsNext ht z h = refl

some_injective : (a b : Zval) → some a ≡ some b → a ≡ b
some_injective a b h = cc

pub engine-Constructible : (ce : Class) → Constructible engine ce
engine-Constructible ce w z h = (0, some_injective z (Zval.object 0) (sym h))

-- A call that ends at once, with nothing thrown.
abbrev pub quiet : {A : Type 0} → A → Called A
quiet a = record { handled = []; answer = some a }

-- An engine whose calls all return `answer`, after `thrown` was thrown in the task.
abbrev pub runtime : List Exception → Zval → Runtime engine
runtime uncaught answer = record {
  Code = Unit {0};
  request_startup = λ w. (w, true);
  request_shutdown = λ w. w;
  execute_scripts = λ w path. (w, quiet tt);
  install_handler = λ w. w;
  compile_string = λ w source. (w, quiet (some tt));
  execute = λ w code. (w, quiet Zval.null);
  destroy_op_array = λ w code. (w, quiet tt);
  call_user_function =
      λ w callable argv. (w, record { handled = uncaught; answer = some (true, answer) });
  release = λ w z. (w, quiet tt);
  exception = λ w. none;
  clear_exception = λ w. w;
  release_exception = λ w ex. (w, quiet tt);
  throw_error = λ w t. (w, quiet tt);
  add_next_index = λ ht z. append ht (int_key (pos (num_elements ht))) z;
  heap = λ w. knot_heap;
}

pub knot-IsObject : IsObject knot
knot-IsObject = record {
  class_name = (omega arith, tt);
  names = ((omega arith, tt), tt);
  slots = λ i. tt;
  dynamic = tt;
  small = omega arith;
}

pub knot_heap-IsHeap : IsHeap knot_heap
knot_heap-IsHeap = record { objects = λ id. knot-IsObject; cells = λ c. tt }

pub closure_heap-IsHeap : (fn : Function) → IsHeap (closure_heap fn)
closure_heap-IsHeap fn = record {
  objects = λ id. record {
    class_name = (omega arith, tt);
    names = ((omega arith, tt), tt);
    slots = λ i. tt;
    dynamic = tt;
    small = omega arith;
  };
  cells = λ c. tt;
}

abbrev pub blank_world : Bytes → Zval
blank_world p = Zval.null

abbrev returned_zval : Option (Bool × Zval) → Zval
returned_zval none = Zval.null
returned_zval (some (rc, z)) = z

pub runtime-IsRuntime :
    (uncaught : List Exception) → IsRuntime (runtime uncaught (Zval.long (pos 7)))
runtime-IsRuntime uncaught = record {
  heap = λ w. knot_heap-IsHeap;
  returned =
      λ w callable argv rc z h. subst (λ x. IsZval x) (ap (λ a. returned_zval a) h) (omega arith);
}
