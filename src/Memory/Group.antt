-- ===== src/Memory/Group.antt =====
-- core/waitgroup.c: `wg_destroy`, and bridge.c: `px_callable_free`. `pthread_join` is a parameter.
pub mod OwnsGroup
pub mod Destroyed
pub mod Callables
use php_parallax.Prelude.{ℕ, zero, suc, if◌then◌else◌, ◌==◌, Option, some, none, ltb}
use php_parallax.Memory.Store.{
  Ptr, TaskNode, GroupNode, CallableNode, Block, task, slots, group, callable, Cmd, ok, fault,
  ◌>>=◌, ◌>>◌, ret, free, write,
}
use php_parallax.Memory.Release.{value_free}

unfoldable pub task_in : Option Block → Cmd TaskNode
task_in (some (task t)) h = ok t h
task_in _ h = fault

unfoldable pub load_task : Ptr → Cmd TaskNode
unfolding task_in
load_task p h = task_in (h p) h

unfoldable pub slot_in : ℕ → Option Block → Cmd Ptr
slot_in i (some (slots cap ps)) h = if ltb i cap then ok (ps i) h else fault
slot_in i _ h = fault

-- `wg->tasks[i]`
unfoldable pub load_slot : Ptr → ℕ → Cmd Ptr
unfolding slot_in
load_slot p i h = slot_in i (h p) h

unfoldable pub group_in : Option Block → Cmd GroupNode
group_in (some (group g)) h = ok g h
group_in _ h = fault

unfoldable pub load_group : Ptr → Cmd GroupNode
unfolding group_in
load_group p h = group_in (h p) h

module _ (pthread_join : Ptr → Cmd (Unit {0})) (k : ℕ) where
  -- The body of the loop of `wg_destroy`; `k` is the fuel of `value_free`.
  unfoldable pub destroy_task : Ptr → Cmd (Unit {0})
  destroy_task t = if t == 0 then ret tt else do
    z ← load_task t
    if z.thread_joinable then pthread_join t else ret tt
    value_free k z.args
    value_free k z.result
    value_free k z.error
    free t

  -- The loop from slot `i`, with the rounds that are left.
  unfoldable pub destroy_tasks : Ptr → ℕ → ℕ → Cmd (Unit {0})
  destroy_tasks tasks i zero = ret tt
  destroy_tasks tasks i (suc n) = do
    t ← load_slot tasks i
    destroy_task t
    destroy_tasks tasks (suc i) n

  unfoldable pub wg_destroy : Ptr → Cmd (Unit {0})
  wg_destroy wg =
      if wg == 0
      then ret tt
      else do g ← load_group wg; destroy_tasks g.tasks 0 g.count; free g.tasks; free wg

unfoldable pub callable_in : Option Block → Cmd CallableNode
callable_in (some (callable c)) h = ok c h
callable_in _ h = fault

unfoldable pub load_callable : Ptr → Cmd CallableNode
unfolding callable_in
load_callable p h = callable_in (h p) h

unfoldable pub callable_over : Option Block → Ptr → (CallableNode → CallableNode) → Cmd (Unit {0})
callable_over (some (callable c)) p u h = ok tt (write p (callable (u c)) h)
callable_over _ p u h = fault

-- Assignments to the fields of a live `px_callable_t`.
unfoldable pub update_callable : Ptr → (CallableNode → CallableNode) → Cmd (Unit {0})
unfolding callable_over
update_callable p u h = callable_over (h p) p u h

-- The five pointers are set to NULL.
abbrev pub forgotten : CallableNode → CallableNode
forgotten c = record c {
  class_name = 0;
  fn_name = 0;
  bootstrap = 0;
  closure_wrapper = 0;
  closure_captures = 0;
}

unfoldable pub px_callable_free : ℕ → Ptr → Cmd (Unit {0})
px_callable_free k c = if c == 0 then ret tt else do
  z ← load_callable c
  free z.class_name
  free z.fn_name
  free z.bootstrap
  free z.closure_wrapper
  value_free k z.closure_captures
  update_callable c forgotten
