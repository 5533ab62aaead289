-- ===== src/Memory/Release.antt =====
-- value/value.c: `value_free` and `free_kv_array`.
pub mod Remove
pub mod Exact
use php_parallax.Prelude.{ℕ, zero, suc, if◌then◌else◌, ◌==◌}
use php_parallax.Memory.Store.{
  Ptr, Kv, Node, Cmd, ◌>>=◌, ◌>>◌, ret, out_of_fuel, free, load_node, load_kv,
}

-- The loop of `free_kv_array` from entry `i`, with the rounds that are left. The first argument is
-- `value_free`.
unfoldable pub free_entries : (Ptr → Cmd (Unit {0})) → Ptr → ℕ → ℕ → Cmd (Unit {0})
free_entries release items i zero = ret tt
free_entries release items i (suc n) = do
  kv ← load_kv items i
  free kv.skey
  release kv.val
  free_entries release items (suc i) n

unfoldable pub free_kv_array : (Ptr → Cmd (Unit {0})) → Ptr → ℕ → Cmd (Unit {0})
free_kv_array release items n =
    if items == 0 then ret tt else (free_entries release items 0 n >> free items)

-- The `switch` of `value_free`.
unfoldable pub free_parts : (Ptr → Cmd (Unit {0})) → Node → Cmd (Unit {0})
free_parts release Node.null = ret tt
free_parts release (Node.bool b) = ret tt
free_parts release (Node.long i) = ret tt
free_parts release (Node.double d) = ret tt
free_parts release (Node.str p len) = free p
free_parts release (Node.arr items n cap) = free_kv_array release items n
free_parts release (Node.obj cls clen props n cap) = do free cls; free_kv_array release props n
free_parts release (Node.err cls msg code trace) = do free cls; free msg; free trace

-- The fuel bounds the depth of the recursion.
unfoldable pub value_free : ℕ → Ptr → Cmd (Unit {0})
value_free zero v = λ h. out_of_fuel
value_free (suc k) v =
    if v == 0 then ret tt else do n ← load_node v; free_parts (value_free k) n; free v
