-- ===== src/Memory/Build.antt =====
-- value/value.c over the store: `grow`, `next_int_key` and the builders.
pub mod Moves
pub mod Reserve
pub mod Append
pub mod Added
pub mod Steps
pub mod Arrays
pub mod Refines
pub mod Objects
use php_parallax.Prelude.{
  ℕ, zero, suc, ◌*◌, ◌/◌, Bool, true, false, ◌&&◌, Option, none, some, if◌then◌else◌, ◌==◌, ltb,
}
use php_parallax.Prelude.Bits.{u64}
use php_parallax.Prelude.Int.{ℤ, pos, negsuc, i64_max, ltz, succ}
use php_parallax.Value.{grow}
use php_parallax.Memory.Store.{
  Ptr, Kv, Node, Block, kvs, Heap, single, Cmd, Run, ok, fault, aborted, ◌>>=◌, ◌>>◌, ret, remove,
  write, load_node, load_kv,
}
use php_parallax.Memory.Make.{blank_kv, alloc_kvs, update_node, store_kv, dup_bytes}

-- The entries that `realloc` keeps, and the zeros of `memset` behind them.
unfoldable pub keep_first : ℕ → (ℕ → Kv) → ℕ → Kv
keep_first n ks i = if ltb i n then ks i else blank_kv

-- The entries in a block of `new_cap * sizeof(kv_t)` bytes, a size_t; a `kv_t` has 40 bytes.
unfoldable pub kv_room : ℕ → ℕ
kv_room new_cap = u64 (new_cap * 40) / 40

-- `realloc` of an array: the block may move, or stay where it is.
unfoldable pub move_to : Option Ptr → Ptr → Block → Cmd Ptr
move_to none old b h = aborted
move_to (some p) old b h = ok p (write p b (remove (single old) h))

module _ (malloc : Heap → Option Ptr) where
  unfoldable pub resize_in : Option Block → Ptr → ℕ → ℕ → Cmd Ptr
  unfolding move_to
  resize_in (some (kvs c ks)) items cap new_cap h =
      move_to (malloc (remove (single items) h)) items (kvs new_cap (keep_first cap ks)) h
  resize_in _ items cap new_cap h = fault

  unfoldable pub resize : Ptr → ℕ → ℕ → Cmd Ptr
  unfolding resize_in
  resize items cap new_cap h = resize_in (h items) items cap new_cap h

  -- `grow`, whose `memset` runs past the block if the size has wrapped.
  unfoldable pub grow_kvs : Ptr → ℕ → ℕ → Cmd Ptr
  grow_kvs items cap new_cap =
      if ltb (kv_room new_cap) new_cap
      then (λ h. fault)
      else if items == 0
      then alloc_kvs malloc new_cap
      else resize items cap new_cap

  -- The array and the capacity at which entry `n` is written.
  unfoldable pub reserve : Ptr → ℕ → ℕ → Cmd (Ptr × ℕ)
  reserve items n cap =
      if n == cap
      then (do p ← grow_kvs items cap (grow cap); ret (p, grow cap))
      else ret (items, cap)

-- `items`, `n` and `cap` of an array, or `props`, `n` and `cap` of an object, are assigned.
unfoldable pub with_slots : Node → Ptr → ℕ → ℕ → Node
with_slots (Node.arr _ _ _) items n cap = Node.arr items n cap
with_slots (Node.obj cls clen _ _ _) items n cap = Node.obj cls clen items n cap
with_slots z items n cap = z

-- `items`, `n` and `cap` behind `assert(arr->tag == VAL_ARR)`.
unfoldable pub array_of : Node → Cmd (Ptr × ℕ × ℕ)
array_of (Node.arr items n cap) = ret (items, n, cap)
array_of _ = λ h. fault

-- `props`, `n` and `cap` behind `assert(obj->tag == VAL_OBJ)`.
unfoldable pub props_of : Node → Cmd (Ptr × ℕ × ℕ)
props_of (Node.obj cls clen props n cap) = ret (props, n, cap)
props_of _ = λ h. fault

abbrev pub int_entry : ℤ → Ptr → Ptr → Kv
int_entry key child skey = record {
  is_int_key = true;
  ikey = key;
  skey = skey;
  skey_len = 0;
  val = child;
}

abbrev pub str_entry : ℕ → Ptr → Ptr → Kv
str_entry klen child skey = record {
  is_int_key = false;
  ikey = pos 0;
  skey = skey;
  skey_len = klen;
  val = child;
}

-- The loop of `next_int_key` from entry `i`, with the rounds that are left.
unfoldable pub max_key_from : Ptr → ℕ → ℕ → ℤ → Cmd ℤ
max_key_from items i zero max = ret max
max_key_from items i (suc n) max = do
  kv ← load_kv items i
  max_key_from items (suc i) n (if kv.is_int_key && ltz max kv.ikey then kv.ikey else max)

-- `max + 1`, which is undefined at INT64_MAX.
unfoldable pub next_int_key : Ptr → ℕ → Cmd ℤ
next_int_key items n = do
  max ← max_key_from items 0 n (negsuc 0)
  if ltz max i64_max then ret (succ max) else (λ h. fault)

module _ (malloc : Heap → Option Ptr) where
  -- What the builders share: `grow` a full array, count one entry more, and write it. `skey` gives
  -- the key's copy, and `entry` the fields.
  unfoldable pub append : Ptr → Ptr × ℕ × ℕ → Cmd Ptr → (Ptr → Kv) → Cmd (Unit {0})
  append v (items, n, cap) skey entry = do
    r ← reserve malloc items n cap
    update_node v (λ z. with_slots z r.0 (suc n) r.1)
    k ← skey
    store_kv r.0 n (entry k)

  unfoldable pub value_arr_push : Ptr → Ptr → Cmd (Unit {0})
  value_arr_push arr child = do
    z ← load_node arr
    a ← array_of z
    key ← next_int_key a.0 a.1
    append arr a (ret 0) (int_entry key child)

  unfoldable pub value_arr_set_int : Ptr → ℤ → Ptr → Cmd (Unit {0})
  value_arr_set_int arr key child = do
    z ← load_node arr
    a ← array_of z
    append arr a (ret 0) (int_entry key child)

  unfoldable pub value_arr_set_str : Ptr → Ptr → ℕ → Ptr → Cmd (Unit {0})
  value_arr_set_str arr key klen child = do
    z ← load_node arr
    a ← array_of z
    append arr a (dup_bytes malloc key klen) (str_entry klen child)

  unfoldable pub value_obj_set : Ptr → Ptr → ℕ → Ptr → Cmd (Unit {0})
  value_obj_set obj key klen child = do
    z ← load_node obj
    a ← props_of z
    append obj a (dup_bytes malloc key klen) (str_entry klen child)
