-- ===== src/Clone.antt =====
-- value/clone.c: the deep copy.
pub mod Laws
use php_parallax.Value.{
  Value, Items, absent, null, bool, long, double, str, arr, obj, err, nil, item, count, value_null,
  value_bool, value_long, value_double, value_str, value_err,
}

-- `dst[i]` has the flag, the integer and the length of `src[i]`, a copy of its key bytes (none at
-- length 0) and a clone of its value. The block has `n` entries, and so has the capacity.
unfoldable mutual
  pub value_clone : Value → Value
  value_clone absent = absent
  value_clone null = value_null
  value_clone (bool b) = value_bool b
  value_clone (long i) = value_long i
  value_clone (double d) = value_double d
  value_clone (str p) = value_str p
  value_clone (arr items cap) = arr (clone_kv_block items) (count items)
  value_clone (obj cls props cap) = obj cls (clone_kv_block props) (count props)
  value_clone (err cls msg code trace) = value_err cls msg code trace

  pub clone_kv_block : Items → Items
  clone_kv_block nil = nil
  clone_kv_block (item k v xs) = item k (value_clone v) (clone_kv_block xs)
