-- ===== src/Bridge/Capture.antt =====
-- bridge.c: `px_zval_to_value`.
pub mod Wellformed
pub mod Arrays
pub mod Sound
pub mod Endless
pub mod Rows
use php_parallax.Prelude.{
  ℕ, zero, suc, Bool, true, false, List, [], ◌∷◌, Option, none, some, if◌then◌else◌, ◌||◌,
}
use php_parallax.Value.{
  Bytes, Key, int_key, str_key, Value, Items, obj, nil, item, value_null, value_bool, value_long,
  value_double, value_str, value_arr, value_obj, value_arr_set_int, value_arr_set_str,
  value_obj_set, bytes_eq,
}
use php_parallax.Bridge.Types.{
  Zval, Table, end, entry, num_elements, Property, Class, Object, Heap, Thrown,
  element_by_reference, nested_closure, native_state, too_deep, is_resource, by_reference,
  unsupported_type, Attempt, ok, thrown, ◌>>=◌, lift,
}

abbrev pub is_undef : Zval → Bool
is_undef Zval.undef = true
is_undef _ = false

abbrev pub is_reference : Zval → Bool
is_reference (Zval.reference c) = true
is_reference _ = false

-- `ZVAL_DEREF`
abbrev pub deref : Heap → Zval → Zval
deref heap (Zval.reference c) = heap.cells c
deref heap z = z

unfoldable pub set_entry : Value → Key → Value → Attempt Value
set_entry into (int_key idx) child = lift (value_arr_set_int into idx child)
set_entry into (str_key key) child = lift (value_arr_set_str into key child)

-- A round of the loop of `array_to_value`; `convert` is `zval_to_value_inner` one level down.
unfoldable pub capture_element : (Zval → Attempt Value) → Key → Zval → Value → Attempt Value
unfolding set_entry
capture_element convert key val into =
    if is_reference val
    then thrown element_by_reference
    else (do child ← convert val; set_entry into key child)

unfoldable pub capture_elements : (Zval → Attempt Value) → Table → Value → Attempt Value
capture_elements convert end into = ok into
capture_elements convert (entry key val ht) into = do
  into ← capture_element convert key val into
  capture_elements convert ht into

unfoldable pub array_to_value : (Zval → Attempt Value) → Table → Attempt Value
array_to_value convert ht = capture_elements convert ht (value_arr (num_elements ht))

-- The end of both passes over properties, on a slot that is not undefined.
unfoldable pub capture_slot : (Zval → Attempt Value) → Heap → Bytes → Zval → Value → Attempt Value
capture_slot convert heap name slot obj_v = do
  child ← convert (deref heap slot)
  lift (value_obj_set obj_v name child)

unfoldable pub capture_declared :
    (Zval → Attempt Value) → Heap → (ℕ → Zval) → Property → Value → Attempt Value
capture_declared convert heap slots prop_info obj_v =
    if prop_info.is_static || is_undef (slots prop_info.offset)
    then ok obj_v
    else capture_slot convert heap prop_info.name (slots prop_info.offset) obj_v

unfoldable pub declared_pass :
    (Zval → Attempt Value) → Heap → (ℕ → Zval) → List Property → Value → Attempt Value
declared_pass convert heap slots [] obj_v = ok obj_v
declared_pass convert heap slots (prop_info ∷ infos) obj_v = do
  obj_v ← capture_declared convert heap slots prop_info obj_v
  declared_pass convert heap slots infos obj_v

-- The bytes of `skey`, none for an integer key.
abbrev pub skey_of : Key → Bytes
skey_of (int_key i) = []
skey_of (str_key s) = s

unfoldable pub has_key : Items → Bytes → Bool
has_key nil name = false
has_key (item k v props) name = bytes_eq (skey_of k) name || has_key props name

-- The scan that sets `already`.
unfoldable pub already : Value → Bytes → Bool
unfolding has_key
already (obj cls props cap) name = has_key props name
already _ name = false

unfoldable pub capture_dynamic : (Zval → Attempt Value) → Heap → Key → Zval → Value → Attempt Value
unfolding already
capture_dynamic convert heap (int_key i) slot obj_v = ok obj_v
capture_dynamic convert heap (str_key key) slot obj_v =
    if is_undef slot || already obj_v key
    then ok obj_v
    else capture_slot convert heap key slot obj_v

unfoldable pub dynamic_pass : (Zval → Attempt Value) → Heap → Table → Value → Attempt Value
dynamic_pass convert heap end obj_v = ok obj_v
dynamic_pass convert heap (entry key slot dyn) obj_v = do
  obj_v ← capture_dynamic convert heap key slot obj_v
  dynamic_pass convert heap dyn obj_v

-- The second pass, where there is a table of dynamic properties.
unfoldable pub dynamic_properties :
    (Zval → Attempt Value) → Heap → Option Table → Value → Attempt Value
dynamic_properties convert heap none obj_v = ok obj_v
dynamic_properties convert heap (some dyn) obj_v = dynamic_pass convert heap dyn obj_v

unfoldable pub object_to_value : (Zval → Attempt Value) → Heap → Object → Attempt Value
object_to_value convert heap o =
    if o.ce.is_closure
    then thrown nested_closure
    else if o.ce.native
    then thrown (native_state o.ce.name)
    else (do
      obj_v ← declared_pass convert heap o.slots o.ce.properties (value_obj o.ce.name 0)
      dynamic_properties convert heap o.dynamic obj_v)

-- The first number is `257 - depth`: at 0 the depth is above 256.
unfoldable pub zval_to_value_inner : Heap → ℕ → Zval → Attempt Value
zval_to_value_inner heap zero z = thrown too_deep
zval_to_value_inner heap (suc left) Zval.undef = thrown (unsupported_type 0)
zval_to_value_inner heap (suc left) Zval.null = ok value_null
zval_to_value_inner heap (suc left) (Zval.bool b) = ok (value_bool b)
zval_to_value_inner heap (suc left) (Zval.long i) = ok (value_long i)
zval_to_value_inner heap (suc left) (Zval.double d) = ok (value_double d)
zval_to_value_inner heap (suc left) (Zval.string s) = ok (value_str s)
zval_to_value_inner heap (suc left) (Zval.array ht) =
    array_to_value (zval_to_value_inner heap left) ht
zval_to_value_inner heap (suc left) (Zval.object id) =
    object_to_value (zval_to_value_inner heap left) heap (heap.objects id)
zval_to_value_inner heap (suc left) Zval.resource = thrown is_resource
zval_to_value_inner heap (suc left) (Zval.reference c) = thrown by_reference
zval_to_value_inner heap (suc left) (Zval.other type) = thrown (unsupported_type type)

unfoldable pub px_zval_to_value : Heap → Zval → Attempt Value
px_zval_to_value heap z = zval_to_value_inner heap 257 z
