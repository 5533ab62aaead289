-- ===== src/Examples/Builders.antt =====
-- The builders over the store, at the store of the tests.
use php_parallax.Prelude.{true, ◌≡◌, refl, [], ◌∷◌, arith, done}
use php_parallax.Prelude.Int.{pos}
use php_parallax.Value.{Items, Bytes, bool, arr, long, nil, item, str_key}
use php_parallax.Value
use php_parallax.Memory.Store.{Region, nowhere, single, ◌∪◌, write}
use php_parallax.Memory.Owns.{Apart, Owns, Buffer}
use php_parallax.Memory.Extends.{Ends}
use php_parallax.Memory.Build
use php_parallax.Memory.Build.Arrays.{Becomes}
use php_parallax.Memory.Build.Refines.{value_arr_set_str-Becomes, value_arr_push-Becomes}
use php_parallax.Examples.Memory.{blocks, tree, tree_region, blocks-Owns, lowest, lowest-IsMalloc}

abbrev items : Items
items = item (str_key (b'k' ∷ [])) (bool true) nil

abbrev seven_region : Region
seven_region = nowhere ∪ single 10

blocks-Owns_seven : Owns blocks 10 (long (pos 7)) seven_region
unfolding write nowhere ◌∪◌ single
blocks-Owns_seven = record { set = λ e. omega arith; live = refl; outside = refl; region = refl }

tree-Apart-seven : Apart tree_region seven_region
unfolding nowhere ◌∪◌ single
tree-Apart-seven = record { off = λ a m. ground arith }

abbrev key : Bytes
key = b'f' ∷ 0 ∷ []

abbrev bytes_region : Region
bytes_region = nowhere ∪ single 9

blocks-Buffer : Buffer blocks 9 key bytes_region
unfolding write nowhere ◌∪◌ single
blocks-Buffer = record { set = λ e. omega arith; live = refl; outside = refl; region = refl }

bytes-Apart-tree : Apart bytes_region tree_region
unfolding nowhere ◌∪◌ single
bytes-Apart-tree = record { off = λ a m. ground arith }

value_arr_set_str-Becomes_example :
    Ends
      (λ u g.
        Becomes
          (Value.value_arr_set_str tree key (long (pos 7)))
          blocks
          (tree_region ∪ seven_region)
          1
          g)
      (Build.value_arr_set_str lowest 1 9 2 10 blocks)
value_arr_set_str-Becomes_example =
    value_arr_set_str-Becomes lowest lowest-IsMalloc 1 9 10 key items 2 (long (pos 7)) tree_region
      seven_region bytes_region blocks (omega arith) (omega arith) blocks-Owns blocks-Owns_seven
      tree-Apart-seven blocks-Buffer bytes-Apart-tree

next_key : Value.next_int_key items ≡ done (pos 0)
unfolding Value.next_int_key Value.max_int_key
next_key = refl

value_arr_push-Becomes_example :
    Ends
      (λ u g.
        Becomes (Value.value_arr_push tree (long (pos 7))) blocks (tree_region ∪ seven_region) 1 g)
      (Build.value_arr_push lowest 1 10 blocks)
value_arr_push-Becomes_example =
    value_arr_push-Becomes lowest lowest-IsMalloc 1 10 items 2 (pos 0) (long (pos 7)) tree_region
      seven_region blocks (omega arith) (omega arith) next_key blocks-Owns blocks-Owns_seven
      tree-Apart-seven
