-- ===== src/Memory/Copy.antt =====
-- value/clone.c over the store.
pub mod Besides
pub mod Rounds
pub mod Tables
pub mod Trees
pub mod Lifetimes
use php_parallax.Prelude.{ℕ, zero, suc, Option, if◌then◌else◌, ◌==◌, ◌||◌}
use php_parallax.Memory.Store.{
  Ptr, Kv, Node, Heap, Cmd, ◌>>=◌, ◌>>◌, ret, out_of_fuel, load_node, load_kv,
}
use php_parallax.Memory.Make.{
  alloc_chars, alloc_kvs, update_node, store_kv, value_null, value_bool, value_long, value_double,
  value_str, value_arr, value_obj, value_err,
}

-- The fields `items`, `n` and `cap` of an array are assigned.
unfoldable pub with_items : Node → Ptr → ℕ → Node
with_items (Node.arr _ _ _) items n = Node.arr items n n
with_items d items n = d

-- `props`, `n` and `cap` of an object are assigned, the class name stays.
unfoldable pub with_props : Node → Ptr → ℕ → Node
with_props (Node.obj cls clen _ _ _) props n = Node.obj cls clen props n n
with_props d props n = d

module _ (malloc : Heap → Option Ptr) where
  unfoldable pub clone_key : Kv → Cmd Ptr
  clone_key kv =
      if (kv.skey == 0) || (kv.skey_len == 0) then ret 0 else alloc_chars malloc kv.skey kv.skey_len

  -- The loop of `clone_kv_block` from entry `i`, with the rounds that are left. `dst[i]`, which
  -- nothing reads before the loop ends, is written once, with all its fields.
  unfoldable pub clone_entries : (Ptr → Cmd Ptr) → Ptr → Ptr → ℕ → ℕ → Cmd (Unit {0})
  clone_entries copy src dst i zero = ret tt
  clone_entries copy src dst i (suc n) = do
    kv ← load_kv src i
    skey ← clone_key kv
    val ← copy kv.val
    store_kv dst i (record kv { skey = skey; val = val })
    clone_entries copy src dst (suc i) n

  unfoldable pub clone_kv_block : (Ptr → Cmd Ptr) → Ptr → ℕ → Cmd Ptr
  clone_kv_block copy src n =
      if n == 0 then ret 0 else do dst ← alloc_kvs malloc n; clone_entries copy src dst 0 n; ret dst

  -- The `switch` of `value_clone`.
  unfoldable pub clone_node : (Ptr → Cmd Ptr) → Node → Cmd Ptr
  clone_node copy Node.null = value_null malloc
  clone_node copy (Node.bool b) = value_bool malloc b
  clone_node copy (Node.long i) = value_long malloc i
  clone_node copy (Node.double d) = value_double malloc d
  clone_node copy (Node.str p len) = value_str malloc p len
  clone_node copy (Node.arr items n cap) = do
    dst ← value_arr malloc 0
    copied ← clone_kv_block copy items n
    update_node dst (λ d. with_items d copied n)
    ret dst
  clone_node copy (Node.obj cls clen props n cap) = do
    dst ← value_obj malloc cls clen 0
    copied ← clone_kv_block copy props n
    update_node dst (λ d. with_props d copied n)
    ret dst
  clone_node copy (Node.err cls msg code trace) = value_err malloc cls msg code trace

  -- The fuel bounds the depth of the recursion.
  unfoldable pub value_clone : ℕ → Ptr → Cmd Ptr
  value_clone zero src = λ h. out_of_fuel
  value_clone (suc k) src =
      if src == 0 then ret 0 else do n ← load_node src; clone_node (value_clone k) n
