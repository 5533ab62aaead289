-- ===== src/Bridge/Callable.antt =====
-- bridge.h: `px_callable_t`. bridge.c: `px_resolve_callable`, and bridge_closure.c:
-- `px_resolve_inline_closure`, over the contents of files.
pub mod Recipes
pub mod Forms
pub mod Closures
use php_parallax.Prelude.{
  ℕ, Bool, true, false, [], ◌∷◌, ◌++◌, Option, none, some, if◌then◌else◌, ◌==◌, ◌||◌,
}
use php_parallax.Prelude.Int.{ℤ, pos, is_zero, pred_int}
use php_parallax.Value.{
  Bytes, CStr, Key, int_key, str_key, Value, absent, value_arr, value_arr_set_str, until_nul,
}
use php_parallax.Scanner.Extract.{Extract, found, failed, undefined, extract_closure_text}
use php_parallax.Bridge.Types.{
  Zval, Table, end, entry, num_elements, Class, Function, Object, Heap, Thrown, Attempt, ok, thrown,
  broken, ◌>>=◌, lift, not_two_elements, not_class_and_method, instance_method, no_introspection,
  unsupported_callable, not_user_closure, bound_this, no_source_file, extraction_failed,
  variable_by_reference, variable_unassigned,
}
use php_parallax.Bridge.Capture.{is_undef, is_reference, px_zval_to_value}

-- `px_call_kind_t`, and the 0 that `memset` leaves.
pub data CallKind : Type 0 where
  unset function static_meth closure : CallKind

-- `px_callable_t`; captures of NULL are `absent`.
pub record Callable : Type 0 where
  pub kind : CallKind
  pub class_name : CStr
  pub fn_name : CStr
  pub bootstrap : CStr
  pub closure_wrapper : CStr
  pub closure_captures : Value

-- What `memset` leaves.
abbrev pub blank : Callable
blank = record {
  kind = unset;
  class_name = none;
  fn_name = none;
  bootstrap = none;
  closure_wrapper = none;
  closure_captures = absent;
}

abbrev pub of_function : Bytes → Callable
of_function name = record blank { kind = function; fn_name = some name }

abbrev pub of_method : Bytes → Bytes → Callable
of_method cls name = record blank { kind = static_meth; class_name = some cls; fn_name = some name }

abbrev pub of_closure : Bytes → Value → Callable
of_closure wrapper captures = record blank {
  kind = closure;
  closure_wrapper = some wrapper;
  closure_captures = captures;
}

-- The bytes before and from the `:` that `memchr` finds.
unfoldable pub before_colon : Bytes → Bytes
before_colon [] = []
before_colon (c ∷ s) = if c == 58 then [] else c ∷ before_colon s

unfoldable pub from_colon : Bytes → Bytes
from_colon [] = []
from_colon (c ∷ s) = if c == 58 then c ∷ s else from_colon s

-- The branch for strings; the second list starts at `sep`.
unfoldable pub resolve_string : Bytes → Bytes → Callable
unfolding before_colon
resolve_string s (c ∷ d ∷ name) = if d == 58 then of_method (before_colon s) name else of_function s
resolve_string s _ = of_function s

-- `zend_hash_index_find` for 0 and for 1, by the test of the key.
unfoldable pub index_find : (ℤ → Bool) → Table → Option Zval
index_find test end = none
index_find test (entry (int_key i) z ht) = if test i then some z else index_find test ht
index_find test (entry (str_key s) z ht) = index_find test ht

abbrev pub is_one : ℤ → Bool
is_one i = is_zero (pred_int i)

-- The bytes of a zval of type IS_STRING.
abbrev pub string_of : Zval → CStr
string_of (Zval.string s) = some s
string_of _ = none

unfoldable pub resolve_members : CStr → CStr → Attempt Callable
resolve_members first none = thrown not_class_and_method
resolve_members none (some name) = thrown instance_method
resolve_members (some cls) (some name) = ok (of_method cls name)

unfoldable pub resolve_pair : Option Zval → Option Zval → Attempt Callable
unfolding resolve_members
resolve_pair none second = thrown not_class_and_method
resolve_pair (some first) none = thrown not_class_and_method
resolve_pair (some first) (some second) = resolve_members (string_of first) (string_of second)

unfoldable pub resolve_array : Table → Attempt Callable
unfolding index_find resolve_pair
resolve_array ht =
    if num_elements ht == 2
    then resolve_pair (index_find is_zero ht) (index_find is_one ht)
    else thrown not_two_elements

-- The recipe of a first-class callable, by its scope and its name.
unfoldable pub resolve_fake : Option Class → Bytes → Callable
resolve_fake none name = of_function name
resolve_fake (some scope) name = of_method scope.name name

unfoldable pub snapshot_capture : Heap → Key → Zval → Value → Attempt Value
snapshot_capture heap (int_key i) slot captures = ok captures
snapshot_capture heap (str_key key) slot captures =
    if is_reference slot
    then thrown variable_by_reference
    else if is_undef slot
    then thrown (variable_unassigned (until_nul key))
    else (do child ← px_zval_to_value heap slot; lift (value_arr_set_str captures key child))

unfoldable pub snapshot_uses : Heap → Table → Value → Attempt Value
unfolding snapshot_capture
snapshot_uses heap end captures = ok captures
snapshot_uses heap (entry key slot uses) captures = do
  captures ← snapshot_capture heap key slot captures
  snapshot_uses heap uses captures

-- The table of NULL is `none`.
unfoldable pub snapshot_captures : Heap → Option Table → Attempt Value
unfolding snapshot_uses
snapshot_captures heap none = ok (value_arr 0)
snapshot_captures heap (some uses) = snapshot_uses heap uses (value_arr 0)

abbrev pub is_bound : Option Zval → Bool
is_bound none = false
is_bound (some Zval.undef) = false
is_bound (some Zval.null) = false
is_bound (some _) = true

-- `<?php return static function (array $__cv) { extract($__cv); return `
abbrev pub wrapper_head : Bytes
wrapper_head =
    60 ∷ 63 ∷ 112 ∷ 104 ∷ 112 ∷ 32 ∷ 114 ∷ 101 ∷ 116 ∷ 117 ∷ 114 ∷ 110 ∷ 32 ∷ 115 ∷ 116 ∷ 97 ∷ 116
    ∷ 105 ∷ 99 ∷ 32 ∷ 102 ∷ 117 ∷ 110 ∷ 99 ∷ 116 ∷ 105 ∷ 111 ∷ 110 ∷ 32 ∷ 40 ∷ 97 ∷ 114 ∷ 114 ∷ 97
    ∷ 121 ∷ 32 ∷ 36 ∷ 95 ∷ 95 ∷ 99 ∷ 118 ∷ 41 ∷ 32 ∷ 123 ∷ 32 ∷ 101 ∷ 120 ∷ 116 ∷ 114 ∷ 97 ∷ 99
    ∷ 116 ∷ 40 ∷ 36 ∷ 95 ∷ 95 ∷ 99 ∷ 118 ∷ 41 ∷ 59 ∷ 32 ∷ 114 ∷ 101 ∷ 116 ∷ 117 ∷ 114 ∷ 110 ∷ 32
    ∷ []

-- `; };`
abbrev pub wrapper_tail : Bytes
wrapper_tail = 59 ∷ 32 ∷ 125 ∷ 59 ∷ []

abbrev pub lift_extract : Extract Bytes → Attempt Bytes
lift_extract (found text) = ok text
lift_extract (failed e) = thrown (extraction_failed e)
lift_extract undefined = broken

-- A filename of NULL or of length 0 is refused.
abbrev pub source_file : CStr → Attempt Bytes
source_file none = thrown no_source_file
source_file (some []) = thrown no_source_file
source_file (some (c ∷ fname)) = ok (c ∷ fname)

module _ (read_file_all : Bytes → Option Bytes) where
  unfoldable pub resolve_user_closure : Heap → Object → Function → Attempt Callable
  unfolding snapshot_captures
  resolve_user_closure heap o fn = if is_bound o.this then thrown bound_this else (do
    fname ← source_file fn.filename
    text ← lift_extract (extract_closure_text read_file_all (some (until_nul fname)) fn.line_start)
    captures ← snapshot_captures heap fn.static_variables
    ok (of_closure (wrapper_head ++ (until_nul text ++ wrapper_tail)) captures))

  -- The function is what `zend_get_closure_method_def` gives for the object.
  unfoldable pub px_resolve_inline_closure : Heap → Object → Option Function → Attempt Callable
  unfolding resolve_user_closure
  px_resolve_inline_closure heap o none = thrown not_user_closure
  px_resolve_inline_closure heap o (some fn) =
      if fn.user then resolve_user_closure heap o fn else thrown not_user_closure

  -- The branch for closures.
  unfoldable pub resolve_closure : Heap → Object → Option Function → Attempt Callable
  unfolding resolve_fake px_resolve_inline_closure
  resolve_closure heap o none = thrown no_introspection
  resolve_closure heap o (some fn) =
      if fn.fake
      then ok (resolve_fake fn.scope fn.name)
      else px_resolve_inline_closure heap o (some fn)

  unfoldable pub px_resolve_callable : Heap → Zval → Attempt Callable
  unfolding resolve_string from_colon resolve_array resolve_closure
  px_resolve_callable heap (Zval.string s) = ok (resolve_string s (from_colon s))
  px_resolve_callable heap (Zval.array ht) = resolve_array ht
  px_resolve_callable heap (Zval.object id) =
      if (heap.objects id).ce.is_closure
      then resolve_closure heap (heap.objects id) (heap.objects id).function
      else thrown unsupported_callable
  px_resolve_callable heap _ = thrown unsupported_callable
