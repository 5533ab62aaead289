-- ===== src/Examples/Values.antt =====
-- The theorems of Value and Clone at concrete values.
use php_parallax.Prelude.{ℕ, ◌^◌, ◌<◌, ◌≡◌, ◌≢◌, refl, arith, [], ◌∷◌, none, some, done}
use php_parallax.Prelude.Int.{pos, negsuc}
use php_parallax.Value.{
  Value, Items, arr, err, long, null, nil, item, int_key, str_key, snoc, value_arr_push,
  value_arr_get_str, value_arr_set_str, append_kv, grow, Bytes,
}
use php_parallax.Value.Snapshot.{snapshot}
use php_parallax.Value.Capacity.{room}
use php_parallax.Value.Keys.{KeysBelow, value_arr_push_fresh, value_arr_get_str-value_arr_set_str}
use php_parallax.Clone.{value_clone}
use php_parallax.Clone.Laws.{snapshot-value_clone}

abbrev key_k : Bytes
key_k = 107 ∷ []

-- `[5 => null, 'k' => null]`.
abbrev mixed : Items
mixed = item (int_key (pos 5)) null (item (str_key key_k) null nil)

value_arr_push_fresh_example :
    (n : ℕ) × (n < 2 ^ 63)
    × KeysBelow (pos n) mixed
    × (value_arr_push (arr mixed 2) (long (pos 1))
        ≡ done (arr (snoc mixed (int_key (pos n)) (long (pos 1))) (room 2 2)))
value_arr_push_fresh_example =
    value_arr_push_fresh mixed 2 (long (pos 1)) (omega arith) (omega arith) (omega arith)

-- `'k'` is there already, and keeps its first value.
abbrev twice : Value
twice = arr (snoc mixed (str_key key_k) (long (pos 1))) 4

set_twice : value_arr_set_str (arr mixed 2) key_k (long (pos 1)) ≡ done twice
unfolding value_arr_set_str append_kv grow
set_twice = refl

value_arr_get_str-value_arr_set_str_example :
    ((w : Value)
      → value_arr_get_str (arr mixed 2) key_k ≡ some w
      → value_arr_get_str twice key_k ≡ some w)
    × (value_arr_get_str (arr mixed 2) key_k ≡ none
        → key_k ≡ key_k
        → value_arr_get_str twice key_k ≡ some (long (pos 1)))
    × (value_arr_get_str (arr mixed 2) key_k ≡ none
        → key_k ≢ key_k
        → value_arr_get_str twice key_k ≡ none)
value_arr_get_str-value_arr_set_str_example =
    value_arr_get_str-value_arr_set_str mixed 2 key_k (long (pos 1)) twice key_k set_twice

-- An error within an array with spare capacity.
abbrev nested : Value
nested = arr (item (int_key (pos 0)) (err (some (69 ∷ [])) none (negsuc 0) none) nil) 8

snapshot-value_clone_example : snapshot (value_clone nested) ≡ snapshot nested
snapshot-value_clone_example = snapshot-value_clone nested (omega arith)
