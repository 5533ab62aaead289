-- ===== src/Examples/Memory.antt =====
-- A store for the tests of value/value.c and value/clone.c, and a malloc.
use php_parallax.Prelude.{
  ℕ, zero, suc, ◌≡◌, refl, true, false, Option, none, some, [], ◌∷◌, arith, ◌≤◌,
}
use php_parallax.Prelude.Int.{pos}
use php_parallax.Value.{Value, bool, arr, nil, item, str_key}
use php_parallax.Clone.{value_clone}
use php_parallax.Memory.Make.Values.{Makes}
use php_parallax.Memory.Store.{
  TaskNode, GroupNode, CallableNode, task, slots, group, callable, Cmd, ret, ◌>>=◌, ◌>>◌, Run, Ptr,
  Kv, Node, node, chars, kvs, Heap, ok, Region, nowhere, single, ◌∪◌, write, remove,
}
use php_parallax.Memory.Owns.{Apart, Owns}
use php_parallax.Memory.Release.{value_free}
use php_parallax.Memory.Release.Exact.{value_free-Owns}
use php_parallax.Memory.Copy
use php_parallax.Memory.Make
use php_parallax.Memory.Store
use php_parallax.Memory.Copy.Trees.{value_clone-Makes}
use php_parallax.Memory.Copy.Lifetimes.{clone_outlives, clone_released}
use php_parallax.Memory.Extends.{IsMalloc, Ends, Extends}

-- The lowest free address, among a hundred.
first_free : ℕ → Ptr → Heap → Option Ptr
first_free zero p h = none
first_free (suc n) p h = elim (h p) [ none ↦ some p | some b ↦ first_free n (suc p) h ]

first_free_lem : (n p : ℕ) (h : Heap) (q : Ptr) → first_free n p h ≡ some q → (p ≤ q) × (h q ≡ none)
unfolding first_free
first_free_lem zero p h q e = cc
first_free_lem (suc n) p h q e = ground (arith, first_free_lem n (suc p) h q)

pub lowest : Heap → Option Ptr
lowest h = first_free 100 1 h

pub lowest-IsMalloc : IsMalloc lowest
unfolding lowest
lowest-IsMalloc h p e =
    let r = first_free_lem 100 1 h p e in ((λ z. let no : 1 ≤ p = r.0 in omega arith), r.1)

-- The entry of `["k" => true]`, an array with room for two.
abbrev pub entry_of_k : Kv
entry_of_k = record { is_int_key = false; ikey = pos 0; skey = 3; skey_len = 1; val = 4 }

-- A group with one task, whose arguments are that array, a callable `f`, and an integer.
abbrev pub task_of_group : TaskNode
task_of_group = record {
  thread_joinable = true;
  slot = 0;
  args = 1;
  user_data = 0;
  ok = true;
  result = 0;
  error = 0;
}

abbrev pub group_block : GroupNode
group_block = record { remaining = pos 0; tasks = 6; count = 1; cap = 8 }

abbrev pub callable_block : CallableNode
callable_block = record {
  kind = 0;
  class_name = 0;
  fn_name = 9;
  bootstrap = 0;
  closure_wrapper = 0;
  closure_captures = 0;
}

abbrev pub blocks : Heap
blocks = write 1 (node (Node.arr 2 1 2)) (
    write 2 (kvs 2 (λ i. entry_of_k)) (
      write 3 (chars (b'k' ∷ [])) (
        write 4 (node (Node.bool true)) (
          write 5 (group group_block) (
            write 6 (slots 8 (λ i. 7)) (
              write 7 (task task_of_group) (
                write 8 (callable callable_block) (
                  write 9 (chars (b'f' ∷ 0 ∷ []))
                    (write 10 (node (Node.long (pos 7))) (λ a. none))))))))))

abbrev pub tree : Value
tree = arr (item (str_key (b'k' ∷ [])) (bool true) nil) 2

abbrev pub key_region : Region
key_region = nowhere ∪ single 3

abbrev pub val_region : Region
val_region = nowhere ∪ single 4

abbrev pub entries_region : Region
entries_region = (key_region ∪ val_region) ∪ nowhere

abbrev pub tree_region : Region
tree_region = (entries_region ∪ single 2) ∪ single 1

address : Run Ptr → ℕ
address (ok p h) = p
address _ = 0

key-Apart-val : Apart key_region val_region
unfolding nowhere ◌∪◌ single
key-Apart-val = record { off = λ a m. ground arith }

both-Apart-nowhere : Apart (key_region ∪ val_region) nowhere
unfolding nowhere
both-Apart-nowhere = record { off = λ a m. refl }

pub blocks-Owns : Owns blocks 1 tree tree_region
unfolding write nowhere ◌∪◌ single
blocks-Owns = (
  2,
  entries_region ∪ single 2,
  (
    (λ i. entry_of_k),
    entries_region,
    (
      key_region,
      val_region,
      nowhere,
      (refl, refl, record { set = λ e. omega arith; live = refl; outside = refl; region = refl }),
      record { set = λ e. omega arith; live = refl; outside = refl; region = refl },
      refl,
      key-Apart-val,
      both-Apart-nowhere,
      refl,
    ),
    omega arith,
    record { set = λ e. omega arith; live = refl; outside = refl; region = refl },
  ),
  record { set = λ e. omega arith; live = refl; outside = refl; region = refl },
)

value_free-Owns_example : value_free 2 1 blocks ≡ ok tt (remove tree_region blocks)
value_free-Owns_example = value_free-Owns 2 1 tree tree_region blocks (omega arith) blocks-Owns

value_clone-Makes_example :
    Ends (Makes (value_clone tree) blocks) (Copy.value_clone lowest 2 1 blocks)
value_clone-Makes_example =
    value_clone-Makes lowest lowest-IsMalloc 2 1 tree tree_region blocks (omega arith) blocks-Owns

clone_outlives_example :
    Ends
      (λ q g.
        (f : Region) × Extends (remove tree_region blocks) f g × Owns g q (value_clone tree) f)
      ((do q ← Copy.value_clone lowest 2 1; value_free 2 1; ret q) blocks)
clone_outlives_example =
    clone_outlives lowest lowest-IsMalloc 2 1 tree tree_region blocks (omega arith) blocks-Owns

clone_released_example :
    Ends (λ u g. g ≡ blocks) ((do q ← Copy.value_clone lowest 2 1; value_free 2 q) blocks)
clone_released_example =
    clone_released lowest lowest-IsMalloc 2 1 tree tree_region blocks (omega arith) blocks-Owns

-- This malloc serves the clone.
clone_address : ℕ
clone_address = address (Copy.value_clone lowest 2 1 blocks)

clone_address_lem : clone_address ≡ 11
unfolding clone_address address Copy.value_clone Copy.clone_node Copy.clone_kv_block
    Copy.clone_entries Copy.clone_key Copy.with_items lowest first_free Store.load_node write
    Make.value_arr Make.alloc_value Make.alloc Make.initial_kvs Make.update_node Make.alloc_kvs
    Store.load_kv Make.alloc_chars Make.load_chars Make.value_bool Make.store_kv
clone_address_lem = refl
