-- ===== src/Memory/Group/Destroyed.antt =====
-- `wg_destroy` releases what a group owns, all of it and nothing else.
use php_parallax.Prelude.{
  ℕ, zero, suc, ◌+◌, ◌≡◌, refl, ◌∙◌, subst, arith, Bool, true, false, some, ◌≤◌, ◌<◌, ltb,
  if◌then◌else◌,
}
use php_parallax.Bridge.Capture.Wellformed.{depth}
use php_parallax.WaitGroup.{Task, WaitGroup}
use php_parallax.Memory.Store.{
  Ptr, TaskNode, GroupNode, task, slots, group, Heap, Cmd, ok, ret, Region, nowhere, ◌∪◌, remove,
  free,
}
use php_parallax.Memory.Owns.{Agree}
use php_parallax.Memory.Frame.{Rooted-frame, Agree-parts, Agree-left, Agree-right, Owns-frame}
use php_parallax.Memory.Release.{value_free}
use php_parallax.Memory.Release.Remove.{
  ==-zero, remove-nowhere, remove-remove, remove-outside, Agree-remove, free-Rooted,
}
use php_parallax.Memory.Release.Exact.{value_free-Owns, free-IsNull, ∪-outside}
use php_parallax.Memory.Group.{
  load_task, task_in, load_slot, slot_in, load_group, group_in, destroy_task, destroy_tasks,
  wg_destroy,
}
use php_parallax.Memory.Group.OwnsGroup.{OwnsTask, OwnsTasks, OwnsSlots, OwnsGroup}

load_task-live : (p : Ptr) (z : TaskNode) (h : Heap) → h p ≡ some (task z) → load_task p h ≡ ok z h
unfolding load_task task_in
load_task-live p z h live = rw live

load_slot-live :
    (p i c : ℕ) (ps : ℕ → Ptr) (h : Heap)
    → h p ≡ some (slots c ps)
    → i < c
    → load_slot p i h ≡ ok (ps i) h
unfolding load_slot slot_in
load_slot-live p i c ps h live small = rw live (let fits : ltb i c ≡ true = ground arith in rw fits)

load_group-live :
    (p : Ptr) (z : GroupNode) (h : Heap) → h p ≡ some (group z) → load_group p h ≡ ok z h
unfolding load_group group_in
load_group-live p z h live = rw live

module _ {U : Type 0} where
  OwnsTask-frame :
      {h k : Heap} (p : Ptr) (t : Task U) (f : Region)
      → Agree f h k
      → OwnsTask h p t f
      → OwnsTask k p t f
  OwnsTask-frame p t f w (z, a, r, e, j, s, o, args, result, error, sep, sep', root) =
      let u = Agree-parts w root in
      let u' = Agree-left (a ∪ r) e u in
      (
        z,
        a,
        r,
        e,
        j,
        s,
        o,
        Owns-frame z.args t.args a (Agree-left a r u') args,
        Owns-frame z.result t.result r (Agree-right a r u') result,
        Owns-frame z.error t.error e (Agree-right (a ∪ r) e u) error,
        sep,
        sep',
        Rooted-frame w root,
      )

  OwnsTasks-frame :
      {h k : Heap} (ps : ℕ → Ptr) (ts : ℕ → Task U) (i n : ℕ) (f : Region)
      → Agree f h k
      → OwnsTasks h ps ts i n f
      → OwnsTasks k ps ts i n f
  OwnsTasks-frame ps ts i zero f w o = o
  OwnsTasks-frame {h} {k} ps ts i (suc n) f w (e, d, one, rest, sep, region) =
      let u = subst (λ (t : Region). Agree t h k) region w in
      (
        e,
        d,
        OwnsTask-frame (ps i) (ts i) e (Agree-left e d u) one,
        OwnsTasks-frame ps ts (suc i) n d (Agree-right e d u) rest,
        sep,
        region,
      )

  -- No value of the task is deeper than the fuel.
  abbrev pub IsShallow : ℕ → Task U → Type 0
  IsShallow k t = (depth t.args ≤ k) × (depth t.result ≤ k) × (depth t.error ≤ k)

module _ (pthread_join : Ptr → Cmd (Unit {0}))
    (exited : (t : Ptr) (h : Heap) → pthread_join t h ≡ ok tt h) where
  join_if : (b : Bool) (t : Ptr) (h : Heap) → (if b then pthread_join t else ret tt) h ≡ ok tt h
  join_if true t h = exited t h
  join_if false t h = refl

module _ {U : Type 0} (pthread_join : Ptr → Cmd (Unit {0}))
    (exited : (t : Ptr) (h : Heap) → pthread_join t h ≡ ok tt h) (k : ℕ) where
  destroy_task-OwnsTask :
      (p : Ptr) (t : Task U) (f : Region) (h : Heap)
      → IsShallow k t
      → OwnsTask h p t f
      → destroy_task pthread_join k p h ≡ ok tt (remove f h)
  unfolding destroy_task
  destroy_task-OwnsTask p t f h deep (z, a, r, e, j, s, o, args, result, error, sep, sep', root) =
      let second : value_free k z.result (remove a h) ≡ ok tt (remove (a ∪ r) h) =
        rw (← remove-remove a r h) (
          value_free-Owns k z.result t.result r (remove a h) deep.1
            (Owns-frame z.result t.result r (Agree-remove sep h) result)) in
      let third : value_free k z.error (remove (a ∪ r) h) ≡ ok tt (remove ((a ∪ r) ∪ e) h) =
        rw (← remove-remove (a ∪ r) e h) (
          value_free-Owns k z.error t.error e (remove (a ∪ r) h) deep.2
            (Owns-frame z.error t.error e (Agree-remove sep' h) error)) in
      rw
        (
          ==-zero p root.set,
          load_task-live p z h root.live,
          join_if pthread_join exited z.thread_joinable p h,
          value_free-Owns k z.args t.args a h deep.0 args,
          second,
          third,
        )
        (free-Rooted root)

  destroy_tasks-OwnsTasks :
      (q c : Ptr) (ps : ℕ → Ptr) (ts : ℕ → Task U) (i n : ℕ) (f : Region) (h : Heap)
      → ((j : ℕ) → j < i + n → IsShallow k (ts j))
      → h q ≡ some (slots c ps)
      → i + n ≤ c
      → f q ≡ false
      → OwnsTasks h ps ts i n f
      → destroy_tasks pthread_join k q i n h ≡ ok tt (remove f h)
  unfolding destroy_tasks
  destroy_tasks-OwnsTasks q c ps ts i zero f h deep live fits out o = rw (o, remove-nowhere h)
  destroy_tasks-OwnsTasks q c ps ts i (suc n) f h deep live fits out
        (e, d, one, rest, sep, region) =
      let out' = ∪-outside f e d q region out in
      rw
        (
          load_slot-live q i c ps h live (omega arith),
          region,
          destroy_task-OwnsTask (ps i) (ts i) e h (deep i (omega arith)) one,
          ← remove-remove e d h,
        )
        (destroy_tasks-OwnsTasks q c ps ts (suc i) n d (remove e h) (λ j lt. deep j (omega arith))
          (remove-outside e h q out'.0 ∙ live) (omega arith) out'.1
          (OwnsTasks-frame ps ts (suc i) n d (Agree-remove sep h) rest))

  -- The loop, and the array behind it.
  release_slots :
      (q : Ptr) (ts : ℕ → Task U) (n c : ℕ) (f : Region) (h : Heap)
      → ((j : ℕ) → j < 0 + n → IsShallow k (ts j))
      → OwnsSlots h q ts n c f
      → (e : Region) × (destroy_tasks pthread_join k q 0 n h ≡ ok tt (remove e h))
        × (free q (remove e h) ≡ ok tt (remove f h))
  unfolding destroy_tasks
  release_slots q ts n zero f h deep o =
      (nowhere, rw (o.0, remove-nowhere h), rw (remove-nowhere h) (free-IsNull q f h o.1))
  release_slots q ts n (suc c) f h deep (ps, g, tasks, fits, root) = (
    g,
    destroy_tasks-OwnsTasks q (suc c) ps ts 0 n g h deep root.live (omega arith) root.outside tasks,
    free-Rooted root,
  )

  -- Where a pointer represents a wait group in a store, owning its blocks, its tasks and their
  -- arguments, results and errors each once, `pthread_join` returns at once since every thread has
  -- exited, and the fuel is at least the levels of these values, `wg_destroy` on it returns, and
  -- leaves the store without the blocks that it owned and with all others as they were.
  pub wg_destroy-OwnsGroup :
      (p : Ptr) (wg : WaitGroup U) (f : Region) (h : Heap)
      → ((j : ℕ) → j < wg.count → IsShallow k (wg.tasks j))
      → OwnsGroup h p wg f
      → wg_destroy pthread_join k p h ≡ ok tt (remove f h)
  unfolding wg_destroy
  wg_destroy-OwnsGroup p wg f h deep (z, g, r, n, c, tasks, root) =
      let (e, loop, array) =
        release_slots z.tasks wg.tasks wg.count wg.cap g h (λ j lt. deep j (omega arith)) tasks in
      rw (==-zero p root.set, load_group-live p z h root.live, n, loop, array) (free-Rooted root)
