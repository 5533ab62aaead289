-- ===== src/Bridge/Materialise.antt =====
-- bridge.c: `px_value_to_zval`, over the calls of the Zend engine.
pub mod Transfer
pub mod Classes
use php_parallax.Prelude.{ℕ, List, [], ◌∷◌, Bool, true, false, Option, none, some, ◌≡◌}
use php_parallax.Prelude.Int.{ℤ}
use php_parallax.Value.{
  Bytes, CStr, Key, int_key, str_key, Value, Items, absent, null, bool, long, double, str, arr, obj,
  until_nul, err, nil, item,
}
use php_parallax.Value.Snapshot.{text}
use php_parallax.Bridge.Types.{Zval, Table, end, Class}
use php_parallax.Bridge.Zend.{Called, Ran, Run, ◌>>=◌, ◌>>◌, return, fault, call}

-- What bridge.c calls of the engine. A `World` is all that these calls may change.
pub record Engine : Type 1 where
  pub World : Type 0
  pub is_numeric : Bytes → Bool  -- a string that an array takes for an integer key
  pub add_index_zval : Table → ℤ → Zval → Table
  pub add_assoc_zval : Table → Bytes → Zval → Table
  pub lookup_class : World → Bytes → World × Called (Option Class)  -- the autoloader included
  pub standard_class : Class
  pub worker_error_class : Class
  -- FAILURE, as for an abstract class or an enumeration, leaves no object.
  pub object_init : World → Class → World × Called Zval
  -- With the release of the value behind it.
  pub update_property : World → Class → Zval → Bytes → Zval → World × Called (Unit {0})

abbrev pub class_word : Bytes
class_word = 99 ∷ 108 ∷ 97 ∷ 115 ∷ 115 ∷ []

abbrev pub message_word : Bytes
message_word = 109 ∷ 101 ∷ 115 ∷ 115 ∷ 97 ∷ 103 ∷ 101 ∷ []

abbrev pub code_word : Bytes
code_word = 99 ∷ 111 ∷ 100 ∷ 101 ∷ []

abbrev pub trace_word : Bytes
trace_word = 116 ∷ 114 ∷ 97 ∷ 99 ∷ 101 ∷ []

-- The name of a property; an integer key has a `skey` of length 0.
abbrev pub property_name : Key → Bytes
property_name (int_key i) = []
property_name (str_key s) = s

module _ (e : Engine) where
  open e use {
    World, add_index_zval, add_assoc_zval, lookup_class, standard_class, worker_error_class,
    object_init, update_property,
  }

  unfoldable pub add_entry : Table → Key → Zval → Table
  add_entry target (int_key ikey) child = add_index_zval target ikey child
  add_entry target (str_key skey) child = add_assoc_zval target skey child

  abbrev pub class_or_standard : Option Class → Class
  class_or_standard none = standard_class
  class_or_standard (some ce) = ce

  -- `zend_update_property_ex` on `Z_OBJ_P(target)`, which is undefined where there is no object.
  unfoldable pub write_property : Class → Zval → Bytes → Zval → Run World (Unit {0})
  write_property ce (Zval.object id) name z =
      call (λ w. update_property w ce (Zval.object id) name z)
  write_property ce _ name z = fault

  -- A VAL_ERR, as an object of class ParallaxWorkerError.
  unfoldable pub error_to_object : CStr → CStr → ℤ → CStr → Run World Zval
  unfolding write_property
  error_to_object cls msg code trace = do
    out ← call (λ w. object_init w worker_error_class)
    write_property worker_error_class out class_word (Zval.string (until_nul (text cls)))
    write_property worker_error_class out message_word (Zval.string (until_nul (text msg)))
    write_property worker_error_class out code_word (Zval.long code)
    write_property worker_error_class out trace_word (Zval.string (until_nul (text trace)))
    return out

  -- `kv_block_to_array` and `kv_block_to_object` run over the entries that are left.
  unfoldable mutual
    pub value_to_zval_inner : Value → Run World Zval
    value_to_zval_inner absent = return Zval.null
    value_to_zval_inner null = return Zval.null
    value_to_zval_inner (bool b) = return (Zval.bool b)
    value_to_zval_inner (long i) = return (Zval.long i)
    value_to_zval_inner (double d) = return (Zval.double d)
    value_to_zval_inner (str p) = return (Zval.string p)
    value_to_zval_inner (arr items cap) = do
      target ← kv_block_to_array items end
      return (Zval.array target)
    value_to_zval_inner (obj cls props cap) = do
      found ← call (λ w. lookup_class w cls)
      target ← call (λ w. object_init w (class_or_standard found))
      kv_block_to_object props target (class_or_standard found)
      return target
    value_to_zval_inner (err cls msg code trace) = error_to_object cls msg code trace

    pub kv_block_to_array : Items → Table → Run World Table
    kv_block_to_array nil target = return target
    kv_block_to_array (item k v items) target = do
      child ← value_to_zval_inner v
      kv_block_to_array items (add_entry target k child)

    pub kv_block_to_object : Items → Zval → Class → Run World (Unit {0})
    kv_block_to_object nil target ce = return tt
    kv_block_to_object (item k v props) target ce = do
      child ← value_to_zval_inner v
      write_property ce target (property_name k) child
      kv_block_to_object props target ce

  unfoldable pub px_value_to_zval : World → Value → World × Ran Zval
  px_value_to_zval w v = value_to_zval_inner v w
