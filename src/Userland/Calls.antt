-- ===== src/Userland/Calls.antt =====
-- php_binding.c: the methods of WaitGroup.
use php_parallax.Prelude.{ℕ, [], ◌∷◌, Bool, Option, none, some, if◌then◌else◌}
use php_parallax.Value.{Bytes, CStr, Key, Value, value_arr, until_nul}
use php_parallax.WaitGroup.{WaitGroup, wg_create, wg_go, wg_size}
use php_parallax.Bridge.Types.{
  Zval, Table, end, entry, Heap, Attempt, ok, thrown, ◌>>=◌, lift, argument_by_reference,
  uninitialised,
}
use php_parallax.Bridge.Capture.{is_reference, set_entry, px_zval_to_value}
use php_parallax.Bridge.Callable.{Callable, px_resolve_callable}

-- `parallax_waitgroup_object_t`, less the engine's part.
pub record WaitGroupObject : Type 0 where
  pub wg : Option (WaitGroup Callable)
  pub bootstrap : CStr

abbrev pub parallax_waitgroup_create : WaitGroupObject
parallax_waitgroup_create = record { wg = none; bootstrap = none }

-- `__construct`; null is `none`.
unfoldable pub construct : WaitGroupObject → Option Bytes → WaitGroupObject
construct self none = record self { wg = some wg_create }
construct self (some []) = record self { wg = some wg_create }
construct self (some (c ∷ bootstrap)) = record {
  wg = some wg_create;
  bootstrap = some (c ∷ bootstrap);
}

-- A round of the loop over the arguments.
unfoldable pub pack_argument : Heap → Key → Zval → Value → Attempt Value
pack_argument heap key v args_val =
    if is_reference v
    then thrown argument_by_reference
    else (do child ← px_zval_to_value heap v; set_entry args_val key child)

unfoldable pub pack_arguments : Heap → Table → Value → Attempt Value
unfolding pack_argument
pack_arguments heap end args_val = ok args_val
pack_arguments heap (entry key v args_ht) args_val = do
  args_val ← pack_argument heap key v args_val
  pack_arguments heap args_ht args_val

-- No table of arguments is `none`.
unfoldable pub pack : Heap → Option Table → Attempt Value
unfolding pack_arguments
pack heap none = ok (value_arr 0)
pack heap (some args_ht) = pack_arguments heap args_ht (value_arr 0)

abbrev pub with_bootstrap : CStr → Callable → Callable
with_bootstrap none cb = cb
with_bootstrap (some bootstrap) cb = record cb { bootstrap = some (until_nul bootstrap) }

-- `go` to the call of `wg_go`: the arguments and the payload of the task.
unfoldable pub prepare :
    (Bytes → Option Bytes) → Heap → CStr → Zval → Option Table → Attempt (Value × Callable)
unfolding pack
prepare read_file_all heap bootstrap task args_ht = do
  cb ← px_resolve_callable read_file_all heap task
  args_val ← pack heap args_ht
  ok (args_val, with_bootstrap bootstrap cb)

-- `go` on the group of the object. Its result of `wg_go` is not used.
unfoldable pub go_group :
    (Bytes → Option Bytes)
    → Bool
    → (WaitGroup Callable → WaitGroup Callable)
    → Heap
    → WaitGroupObject
    → Zval
    → Option Table
    → Option (WaitGroup Callable)
    → Attempt WaitGroupObject
unfolding prepare wg_go
go_group read_file_all created others heap self task args_ht none = thrown uninitialised
go_group read_file_all created others heap self task args_ht (some wg) = do
  (args_val, payload) ← prepare read_file_all heap self.bootstrap task args_ht
  wg' ← lift (wg_go created others wg args_val (some payload))
  ok (record self { wg = some wg' })

-- `created` is how `pthread_create` ends, and `others` what the workers do to the group meanwhile.
unfoldable pub go :
    (Bytes → Option Bytes)
    → Bool
    → (WaitGroup Callable → WaitGroup Callable)
    → Heap
    → WaitGroupObject
    → Zval
    → Option Table
    → Attempt WaitGroupObject
unfolding go_group
go read_file_all created others heap self task args_ht =
    go_group read_file_all created others heap self task args_ht self.wg

abbrev pub size_of : Option (WaitGroup Callable) → ℕ
size_of none = 0
size_of (some wg) = wg_size wg

-- `count`
unfoldable pub php_count : WaitGroupObject → ℕ
php_count self = size_of self.wg
