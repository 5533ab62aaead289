-- ===== src/WaitGroup/Invariant/DeliverySteps.antt =====
-- Every step keeps what a task holds: what was passed to `wg_go`, then what the runner left.
use php_parallax.Prelude.{
  ℕ, suc, ◌<◌, ◌≡◌, ◌≢◌, refl, sym, subst, arith, Bool, true, false, Option, if◌then◌else◌,
}
use php_parallax.Value.{Value}
use php_parallax.WaitGroup.Defs.{
  update, Task, WaitGroup, Report, new_task, create_failed, create_succeeded, run_task,
  wg_signal_done, mark_joined,
}
use php_parallax.WaitGroup.Steps.{
  Worker, unborn, failed, started, ran, exited, Owner, idle, creating, created, joining, System,
  init, wake, Step, go, create, fail, return_slot, run, signal, wait, sleep, spurious, pass, join,
  skip, return_wait,
}
use php_parallax.WaitGroup.Invariant.Facts.{Counters, Threads, entered, enter_task-entered}
use php_parallax.WaitGroup.Invariant.DeliveredFacts.{slot_cases, Delivered, Delivery}

module _ {U : Type 0} (Runs : ℕ → Value → Option U → Report U → Type 0) where
  pub init-Delivery : Delivery Runs init
  init-Delivery i lt = absurd (omega arith)

  Delivered-thread_joinable :
      (i : ℕ) (input : Value × Option U) (w : Worker) (t : Task U) (b : Bool)
      → Delivered Runs i input w t
      → Delivered Runs i input w (record t { thread_joinable = b })
  Delivered-thread_joinable i input unborn t b d = d
  Delivered-thread_joinable i input failed t b d = d
  Delivered-thread_joinable i input started t b d = d
  Delivered-thread_joinable i input ran t b d = d
  Delivered-thread_joinable i input exited t b d = d

  module _ (s : System U) (c : Counters s) (h : Threads s) (d : Delivery Runs s) where
    -- What slot `i` holds, by where its worker stands.
    held :
        (i : ℕ) (w : Worker)
        → i < s.wg.count
        → s.workers i ≡ w
        → Delivered Runs i (s.inputs i) w (s.wg.tasks i)
    held i w lt e = subst (λ v. Delivered Runs i (s.inputs i) v (s.wg.tasks i)) e (d i lt)

    go-Delivery :
        (args : Value) (user_data : Option U) (cap : ℕ)
        → Delivery Runs (record {
          wg = entered s.wg (new_task args user_data) cap;
          workers = update s.workers s.wg.count unborn;
          owner = creating s.wg.count;
          inputs = update s.inputs s.wg.count (args, user_data);
        })
    go-Delivery args user_data cap =
        slot_cases s.wg.count
          (λ j b.
            j < suc s.wg.count
            → Delivered Runs j (if b then (args, user_data) else s.inputs j)
                (if b then unborn else s.workers j)
                (if b
                  then record (new_task args user_data) { slot = s.wg.count }
                  else s.wg.tasks j))
          (λ lt. (refl, refl, refl, refl, refl)) (λ j ne lt. d j (omega arith))

    worker-Delivery :
        (i : ℕ) (w : Worker) (t : Task U) (wg : WaitGroup U) (o : Owner)
        → Delivered Runs i (s.inputs i) w t
        → wg.count ≡ s.wg.count
        → ((j : ℕ) → j ≢ i → wg.tasks j ≡ s.wg.tasks j)
        → wg.tasks i ≡ t
        → Delivery Runs (record s { wg = wg; workers = update s.workers i w; owner = o })
    worker-Delivery i w t wg o new same others here =
        slot_cases i
          (λ j b.
            j < wg.count
            → Delivered Runs j (s.inputs j) (if b then w else s.workers j) (wg.tasks j))
          (λ lt. subst (Delivered Runs i (s.inputs i) w) (sym here) new)
          (λ j ne lt.
            subst (Delivered Runs j (s.inputs j) (s.workers j)) (sym (others j ne))
              (d j (subst (λ n. j < n) same lt)))

    -- A step that writes `thread_joinable` of one task alone.
    joinable-Delivery :
        (i : ℕ) (b : Bool) (o : Owner)
        → Delivery Runs (record s {
          wg = record (s.wg) {
            tasks = update s.wg.tasks i (record (s.wg.tasks i) { thread_joinable = b });
          };
          owner = o;
        })
    joinable-Delivery i b o =
        slot_cases i
          (λ j a.
            j < s.wg.count
            → Delivered Runs j (s.inputs j) (s.workers j)
                (if a then record (s.wg.tasks i) { thread_joinable = b } else s.wg.tasks j))
          (λ lt. Delivered-thread_joinable i (s.inputs i) (s.workers i) (s.wg.tasks i) b (d i lt))
          (λ j ne lt. d j lt)

    create-Delivery :
        (i : ℕ)
        → s.owner ≡ creating i
        → Delivery Runs (record s { workers = update s.workers i started; owner = created i })
    create-Delivery i o =
        let (lt, w) = c.creates i o in
        worker-Delivery i started (s.wg.tasks i) s.wg (created i) (held i unborn lt w) refl
          (λ j ne. refl) refl

    fail-Delivery :
        (i : ℕ)
        → s.owner ≡ creating i
        → Delivery Runs (record s {
          wg = create_failed s.wg i;
          workers = update s.workers i failed;
          owner = idle;
        })
    unfolding create_failed
    fail-Delivery i o =
        let (lt, w) = c.creates i o in
        let (args, user_data, ok, result, error) = held i unborn lt w in
        worker-Delivery i failed (record (s.wg.tasks i) { ok = false; thread_joinable = false })
          (create_failed s.wg i) idle (args, user_data, refl, result, error) refl
          (λ j ne. ground arith) (ground arith)

    run-Delivery :
        (i : ℕ) (r : Report U)
        → i < s.wg.count
        → s.workers i ≡ started
        → Runs (s.wg.tasks i).slot (s.wg.tasks i).args (s.wg.tasks i).user_data r
        → Delivery Runs (record s { wg = run_task s.wg i r; workers = update s.workers i ran })
    unfolding run_task
    run-Delivery i r lt w x =
        let (args, user_data, ok, result, error) = held i started lt w in
        let given : Runs i (s.inputs i).0 (s.inputs i).1 r =
          subst (λ u. Runs i (s.inputs i).0 u r) user_data
            (subst (λ a. Runs i a (s.wg.tasks i).user_data r) args
              (subst (λ k. Runs k (s.wg.tasks i).args (s.wg.tasks i).user_data r) (h.slots i lt)
                x)) in
        let after : Task U = record (s.wg.tasks i) {
          args = r.args;
          user_data = r.user_data;
          ok = r.ok;
          result = r.result;
          error = r.error;
        } in
        worker-Delivery i ran after (run_task s.wg i r) s.owner given refl (λ j ne. ground arith)
          (ground arith)

    signal-Delivery :
        (i : ℕ) (o : Owner)
        → i < s.wg.count
        → s.workers i ≡ ran
        → Delivery Runs (record s {
          wg = (wg_signal_done s.wg).0;
          workers = update s.workers i exited;
          owner = o;
        })
    unfolding wg_signal_done
    signal-Delivery i o lt w =
        worker-Delivery i exited (s.wg.tasks i) (wg_signal_done s.wg).0 o (held i ran lt w) refl
          (λ j ne. refl) refl

  pub Step-Delivery :
      {s t : System U} → Step Runs s t → Counters s → Threads s → Delivery Runs s → Delivery Runs t
  unfolding create_succeeded mark_joined
  Step-Delivery {s} (go args user_data o e) c h d =
      let (cap, same, fits) = enter_task-entered s.wg _ (new_task args user_data) e in
      subst
        (λ wg. Delivery Runs (record {
          wg = wg;
          workers = update s.workers s.wg.count unborn;
          owner = creating s.wg.count;
          inputs = update s.inputs s.wg.count (args, user_data);
        }))
        (sym same) (go-Delivery s c h d args user_data cap)
  Step-Delivery {s} (create i o) c h d = create-Delivery s c h d i o
  Step-Delivery {s} (fail i o) c h d = fail-Delivery s c h d i o
  Step-Delivery {s} (return_slot i o) c h d = joinable-Delivery s c h d i true idle
  Step-Delivery {s} (run i r lt w x) c h d = run-Delivery s c h d i r lt w x
  Step-Delivery {s} (signal i lt w) c h d =
      signal-Delivery s c h d i (wake (wg_signal_done s.wg).1 s.owner) lt w
  Step-Delivery {s} (join i o lt j x) c h d = joinable-Delivery s c h d i false (joining (suc i))
  Step-Delivery {s} (wait o) c h d = d
  Step-Delivery {s} (sleep o more) c h d = d
  Step-Delivery {s} (spurious o) c h d = d
  Step-Delivery {s} (pass o less) c h d = d
  Step-Delivery {s} (skip i o lt j) c h d = d
  Step-Delivery {s} (return_wait i o le) c h d = d
