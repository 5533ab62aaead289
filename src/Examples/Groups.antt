-- ===== src/Examples/Groups.antt =====
-- The release of groups and callables, at a store with one of each.
use php_parallax.Prelude.{◌≡◌, refl, true, none, some, [], ◌∷◌, arith}
use php_parallax.Prelude.Int.{pos}
use php_parallax.Value.{Bytes, absent}
use php_parallax.Bridge.Callable.{of_function}
use php_parallax.WaitGroup.{Task, WaitGroup}
use php_parallax.Memory.Group.{wg_destroy, px_callable_free}
use php_parallax.Memory.Group.OwnsGroup.{OwnsGroup}
use php_parallax.Memory.Group.Destroyed.{wg_destroy-OwnsGroup}
use php_parallax.Memory.Group.Callables.{OwnsCallable, released, px_callable_free_twice}
use php_parallax.Memory.Store.{
  CallableNode, callable, Cmd, Ptr, Heap, ok, Region, nowhere, single, ◌∪◌, write, remove,
}
use php_parallax.Memory.Owns.{Apart}
use php_parallax.Examples.Memory.{
  task_of_group, group_block, callable_block, blocks, tree, tree_region, blocks-Owns,
}

abbrev task_of_tree : Task Bytes
task_of_tree = record {
  thread_joinable = true;
  slot = 0;
  args = tree;
  user_data = none;
  ok = true;
  result = absent;
  error = absent;
}

abbrev group_of_tree : WaitGroup Bytes
group_of_tree = record { remaining = pos 0; tasks = λ i. task_of_tree; count = 1; cap = 8 }

abbrev task_region : Region
task_region = ((tree_region ∪ nowhere) ∪ nowhere) ∪ single 7

abbrev group_region : Region
group_region = ((task_region ∪ nowhere) ∪ single 6) ∪ single 5

Apart-nowhere : (f : Region) → Apart f nowhere
unfolding nowhere
Apart-nowhere f = record { off = λ a m. refl }

blocks-OwnsGroup : OwnsGroup blocks 5 group_of_tree group_region
unfolding write nowhere ◌∪◌ single
blocks-OwnsGroup = (
  group_block,
  (task_region ∪ nowhere) ∪ single 6,
  refl,
  refl,
  refl,
  (
    (λ i. 7),
    task_region ∪ nowhere,
    (
      task_region,
      nowhere,
      (
        task_of_group,
        tree_region,
        nowhere,
        nowhere,
        refl,
        refl,
        refl,
        blocks-Owns,
        (refl, refl),
        (refl, refl),
        Apart-nowhere tree_region,
        Apart-nowhere (tree_region ∪ nowhere),
        record { set = λ e. omega arith; live = refl; outside = refl; region = refl },
      ),
      refl,
      Apart-nowhere task_region,
      refl,
    ),
    omega arith,
    record { set = λ e. omega arith; live = refl; outside = refl; region = refl },
  ),
  record { set = λ e. omega arith; live = refl; outside = refl; region = refl },
)

exited_join : Ptr → Cmd (Unit {0})
exited_join t h = ok tt h

exited_join_lem : (t : Ptr) (h : Heap) → exited_join t h ≡ ok tt h
unfolding exited_join
exited_join_lem t h = refl

wg_destroy-OwnsGroup_example :
    wg_destroy exited_join 2 5 blocks ≡ ok tt (remove group_region blocks)
wg_destroy-OwnsGroup_example =
    wg_destroy-OwnsGroup exited_join exited_join_lem 2 5 group_of_tree group_region blocks
      (λ j lt. omega arith) blocks-OwnsGroup

abbrev callable_region : Region
callable_region = (((nowhere ∪ (nowhere ∪ single 9)) ∪ nowhere) ∪ nowhere) ∪ nowhere

nowhere-Apart : (f : Region) → Apart nowhere f
unfolding nowhere
nowhere-Apart f = record { off = λ a m. absurd (cc m) }

blocks-OwnsCallable : OwnsCallable blocks 8 (of_function (b'f' ∷ [])) callable_region
unfolding write nowhere ◌∪◌ single
blocks-OwnsCallable = (
  callable_block,
  nowhere,
  nowhere ∪ single 9,
  nowhere,
  nowhere,
  nowhere,
  (λ e. omega arith),
  refl,
  (refl, refl),
  record { set = λ e. omega arith; live = refl; outside = refl; region = refl },
  (refl, refl),
  (refl, refl),
  (refl, refl),
  nowhere-Apart (nowhere ∪ single 9),
  Apart-nowhere (nowhere ∪ (nowhere ∪ single 9)),
  Apart-nowhere ((nowhere ∪ (nowhere ∪ single 9)) ∪ nowhere),
  Apart-nowhere (((nowhere ∪ (nowhere ∪ single 9)) ∪ nowhere) ∪ nowhere),
  refl,
  refl,
)

px_callable_free_twice_example :
    (z : CallableNode) × (blocks 8 ≡ some (callable z))
    × (px_callable_free 1 8 blocks ≡ ok tt (released z 8 callable_region blocks))
    × (px_callable_free 1 8 (released z 8 callable_region blocks)
        ≡ ok tt (released z 8 callable_region blocks))
px_callable_free_twice_example =
    px_callable_free_twice 0 8 (of_function (b'f' ∷ [])) callable_region blocks (omega arith)
      blocks-OwnsCallable
