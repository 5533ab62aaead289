-- ===== src/Userland/Entered.antt =====
-- The group behind `go`.
use php_parallax.Prelude.{ℕ, suc, ◌*◌, ◌^◌, ◌≤◌, ◌<◌, ◌≡◌, ◌≢◌, Bool, true, false, Option, some}
use php_parallax.Prelude.Int.{succ, pred_int}
use php_parallax.Value.{CStr, Value}
use php_parallax.WaitGroup.{WaitGroup, new_task}
use php_parallax.Bridge.Types.{Table, num_elements, ok}
use php_parallax.Bridge.Capture.Wellformed.{IsTable, table_of}
use php_parallax.Bridge.Capture.Rows.{IsArray, size}
use php_parallax.Bridge.Callable.{Callable}
use php_parallax.Bridge.Callable.Recipes.{IsCallable}
use php_parallax.Userland.Calls.{with_bootstrap}

-- A well-formed array of `n` entries.
abbrev Packed : ℕ → Value → Type 0
Packed n v = IsArray v × (size v ≡ n)

-- The arguments of `go`, and how many there are.
abbrev pub IsArguments : Option Table → Type 0
IsArguments args_ht = IsTable (table_of args_ht) × (3 * num_elements (table_of args_ht) < 2 ^ 63)

-- `later` is `wg` with one more task, at slot `wg.count`: `n` arguments, and the recipe of a
-- callable with the bootstrap file of the object. The tasks before it are as they were.
pub record IsEntered (wg : WaitGroup Callable) (bootstrap : CStr) (n : ℕ)
    (later : WaitGroup Callable) : Type 0 where
  pub args : Value
  pub recipe : Callable
  pub is_packed : IsArray args
  pub all_args : size args ≡ n
  pub is_recipe : IsCallable recipe
  pub entered :
      later.tasks wg.count
      ≡ record (new_task args (some (with_bootstrap bootstrap recipe))) { slot = wg.count }
  pub others : (i : ℕ) → i < wg.count → later.tasks i ≡ wg.tasks i
  pub counted : later.count ≡ suc wg.count
  pub awaited : later.remaining ≡ succ wg.remaining
  pub within : later.count ≤ later.cap

-- `later` is the group at the end of `go`: `n` arguments and a callable were entered in `wg`, the
-- workers took that group to `others` of it, and then the task has a thread to join, or, where none
-- was created, it is not ok and `remaining` is one less. All else is as the workers left it.
pub record IsStarted (wg : WaitGroup Callable) (bootstrap : CStr) (n : ℕ) (created : Bool)
    (others : WaitGroup Callable → WaitGroup Callable) (later : WaitGroup Callable) : Type 0 where
  pub entered : WaitGroup Callable
  pub is_entered : IsEntered wg bootstrap n entered
  pub joinable : (later.tasks wg.count).thread_joinable ≡ created
  pub awaited : created ≡ true → later.remaining ≡ (others entered).remaining
  pub not_awaited : created ≡ false → later.remaining ≡ pred_int (others entered).remaining
  pub not_ok : created ≡ false → (later.tasks wg.count).ok ≡ false
  pub kept : (i : ℕ) → i ≢ wg.count → later.tasks i ≡ (others entered).tasks i
  pub counted : later.count ≡ (others entered).count

-- The arguments and the payload of a task.
abbrev IsPrepared : CStr → ℕ → Value × Callable → Type 0
IsPrepared bootstrap n p =
    (recipe : Callable) × Packed n p.0 × IsCallable recipe × (p.1 ≡ with_bootstrap bootstrap recipe)
