-- ===== src/Memory/Group/OwnsGroup.antt =====
-- A pointer represents a task or a wait group, and owns its blocks.
use php_parallax.Prelude.{ℕ, zero, suc, ◌≡◌, ◌≤◌}
use php_parallax.Memory.Store.{
  Ptr, TaskNode, GroupNode, task, slots, group, Heap, Region, nowhere, ◌∪◌,
}
use php_parallax.Memory.Owns.{Apart, IsNull, Rooted, Owns}
use php_parallax.WaitGroup.{Task, WaitGroup}

module _ {U : Type 0} where
  -- A task owns its arguments, its result and its error; the user data is the runner's.
  abbrev pub OwnsTask : Heap → Ptr → Task U → Region → Type 0
  OwnsTask h p t f =
      (z : TaskNode) × (a r e : Region) × (z.thread_joinable ≡ t.thread_joinable)
      × (z.slot ≡ t.slot)
      × (z.ok ≡ t.ok)
      × Owns h z.args t.args a
      × Owns h z.result t.result r
      × Owns h z.error t.error e
      × Apart a r
      × Apart (a ∪ r) e
      × Rooted h p (task z) ((a ∪ r) ∪ e) f

  -- The `n` tasks from slot `i` on.
  abbrev pub OwnsTasks : Heap → (ℕ → Ptr) → (ℕ → Task U) → ℕ → ℕ → Region → Type 0
  OwnsTasks h ps ts i zero f = f ≡ nowhere
  OwnsTasks h ps ts i (suc n) f =
      (e d : Region) × OwnsTask h (ps i) (ts i) e
      × OwnsTasks h ps ts (suc i) n d
      × Apart e d
      × (f ≡ e ∪ d)

  -- `wg->tasks`: NULL at capacity 0.
  abbrev pub OwnsSlots : Heap → Ptr → (ℕ → Task U) → ℕ → ℕ → Region → Type 0
  OwnsSlots h p ts n zero f = (n ≡ 0) × IsNull p f
  OwnsSlots h p ts n (suc c) f =
      (ps : ℕ → Ptr) × (g : Region) × OwnsTasks h ps ts 0 n g
      × (n ≤ suc c)
      × Rooted h p (slots (suc c) ps) g f

  abbrev pub OwnsGroup : Heap → Ptr → WaitGroup U → Region → Type 0
  OwnsGroup h p wg f =
      (z : GroupNode) × (g : Region) × (z.remaining ≡ wg.remaining)
      × (z.count ≡ wg.count)
      × (z.cap ≡ wg.cap)
      × OwnsSlots h z.tasks wg.tasks wg.count wg.cap g
      × Rooted h p (group z) g f
