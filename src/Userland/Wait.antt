-- ===== src/Userland/Wait.antt =====
-- php_binding.c: `wait`, behind `wg_wait`, over the calls of the Zend engine.
use php_parallax.Prelude.{ℕ, zero, suc, [], ◌∷◌, Bool, Option, none, some, if◌then◌else◌, not, ◌&&◌}
use php_parallax.Value.{Bytes, Value}
use php_parallax.WaitGroup.{WaitGroup, Task, wg_get, wg_size}
use php_parallax.Bridge.Types.{Zval, Table, end, Class, Attempt, ok, thrown, uninitialised}
use php_parallax.Bridge.Zend.{Called, Run, ◌>>=◌, ◌>>◌, return, fault, call}
use php_parallax.Bridge.Materialise.{Engine, write_property, px_value_to_zval}
use php_parallax.Bridge.Callable.{Callable}
use php_parallax.Bridge.Runner.Flow.{is_absent}
use php_parallax.Userland.Calls.{WaitGroupObject}

-- What `wait` calls of the engine besides.
pub record Results (e : Engine) : Type 0 where
  pub result_class : Class
  pub update_property_bool : e.World → Class → Zval → Bytes → Bool → e.World × Called (Unit {0})
  pub add_next_index_zval : Table → Zval → Table

abbrev pub ok_word : Bytes
ok_word = 111 ∷ 107 ∷ []

abbrev pub value_word : Bytes
value_word = 118 ∷ 97 ∷ 108 ∷ 117 ∷ 101 ∷ []

abbrev pub error_word : Bytes
error_word = 101 ∷ 114 ∷ 114 ∷ 111 ∷ 114 ∷ []

module _ (e : Engine) (u : Results e) where
  -- `zend_update_property_bool` on `Z_OBJ(slot)`, which is undefined where there is no object.
  unfoldable pub write_bool : Zval → Bytes → Bool → Run e.World (Unit {0})
  write_bool (Zval.object id) name b =
      call (λ w. u.update_property_bool w u.result_class (Zval.object id) name b)
  write_bool _ name b = fault

  unfoldable pub write_value : Zval → Bytes → Value → Run e.World (Unit {0})
  unfolding write_property px_value_to_zval
  write_value slot name v = do
    z ← (λ w. px_value_to_zval e w v)
    write_property e u.result_class slot name z

  -- A round of the loop of `wait`: the ParallaxResult of a task.
  unfoldable pub make_result : Task Callable → Run e.World Zval
  unfolding write_bool write_value
  make_result t = do
    slot ← call (λ w. e.object_init w u.result_class)
    write_bool slot ok_word t.ok
    (if t.ok && not (is_absent t.result) then write_value slot value_word t.result else return tt)
    (if not t.ok && not (is_absent t.error) then write_value slot error_word t.error else return tt)
    return slot

  abbrev pub with_task :
      {A : Type 0} → Option (Task Callable) → (Task Callable → Run e.World A) → Run e.World A
  with_task none f = fault
  with_task (some t) f = f t

  -- The loop of `wait` from round `i` on, with `left` rounds to go; a NULL task is undefined
  -- behaviour.
  unfoldable pub collect : WaitGroup Callable → ℕ → ℕ → Table → Run e.World Table
  unfolding make_result wg_get
  collect wg zero i return_value = return return_value
  collect wg (suc left) i return_value = do
    slot ← with_task (wg_get wg i) λ t. make_result t
    collect wg left (suc i) (u.add_next_index_zval return_value slot)

  -- `wait`, behind `wg_wait`.
  unfoldable pub wait_results : WaitGroup Callable → Run e.World Table
  unfolding collect
  wait_results wg = collect wg (wg_size wg) 0 end

  -- The group of the object, behind `wg_wait`.
  unfoldable pub wait_group : Option (WaitGroup Callable) → Attempt (Run e.World Table)
  unfolding wait_results
  wait_group none = thrown uninitialised
  wait_group (some wg) = ok (wait_results wg)

  -- `wait`
  unfoldable pub php_wait : WaitGroupObject → Attempt (Run e.World Table)
  unfolding wait_group
  php_wait self = wait_group self.wg
