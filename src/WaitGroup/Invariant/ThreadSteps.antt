-- ===== src/WaitGroup/Invariant/ThreadSteps.antt =====
-- Every step keeps slots, threads and what may be joined in step.
use php_parallax.Prelude.{
  ℕ, suc, ◌<◌, ◌≡◌, ◌≢◌, refl, ap, sym, subst, ◌∙◌, arith, Bool, true, false, Option,
}
use php_parallax.Value.{Value}
use php_parallax.WaitGroup.Defs.{
  update, Task, Report, new_task, create_failed, create_succeeded, run_task, wg_signal_done,
  mark_joined,
}
use php_parallax.WaitGroup.Steps.{
  unborn, failed, started, ran, exited, Owner, idle, testing, sleeping, creating, created, joining,
  System, init, wake, Step, go, create, fail, return_slot, run, signal, wait, sleep, spurious, pass,
  join, skip, return_wait,
}
use php_parallax.WaitGroup.Invariant.Facts.{Counters, Threads, entered, enter_task-entered}
use php_parallax.WaitGroup.Invariant.CounterSteps.{wake_kept}

wake_creating : (b : Bool) (j : ℕ) → wake b (creating j) ≡ creating j
wake_creating true j = refl
wake_creating false j = refl

pub init-Threads : {U : Type 0} → Threads (init {U = U})
init-Threads = record {
  slots = λ i lt. absurd (omega arith);
  made = λ i e. cc;
  unmade = λ i lt. absurd (omega arith);
  joinable = λ i lt. absurd (omega arith);
  joined = λ i k e. cc;
}

module _ {U : Type 0} (s : System U) (c : Counters s) (h : Threads s) where
  go-Threads :
      (t : Task U) (cap : ℕ) (inputs : ℕ → Value × Option U)
      → s.owner ≡ idle
      → t.thread_joinable ≡ false
      → Threads (record {
        wg = entered s.wg t cap;
        workers = update s.workers s.wg.count unborn;
        owner = creating s.wg.count;
        inputs = inputs;
      })
  go-Threads t cap inputs o fresh = record {
    slots = λ i lt. ground (arith, h.slots i);
    made = λ i e. cc;
    unmade = λ i lt e. ground (arith, h.unmade i);
    joinable = λ i lt j. ground (arith, h.joinable i);
    joined = λ i k e. cc;
  }

  create-Threads :
      (i : ℕ)
      → s.owner ≡ creating i
      → Threads (record s { workers = update s.workers i started; owner = created i })
  create-Threads i o = record {
    slots = h.slots;
    made = λ j e. ground (arith, c.creates i o);
    unmade = λ j lt e. ground (arith, h.unmade j);
    joinable = λ j lt e. ground (arith, h.joinable j);
    joined = λ j k e. cc;
  }

  fail-Threads :
      (i : ℕ)
      → s.owner ≡ creating i
      → Threads (record s {
        wg = create_failed s.wg i;
        workers = update s.workers i failed;
        owner = idle;
      })
  unfolding create_failed
  fail-Threads i o = record {
    slots = λ j lt. ground (arith, h.slots j, h.slots i);
    made = λ j e. cc;
    unmade = λ j lt e. ground (arith, h.unmade j);
    joinable = λ j lt e. ground (arith, h.joinable j);
    joined = λ j k e. cc;
  }

  return_slot-Threads :
      (i : ℕ)
      → s.owner ≡ created i
      → Threads (record s { wg = create_succeeded s.wg i; owner = idle })
  unfolding create_succeeded
  return_slot-Threads i o = record {
    slots = λ j lt. ground (arith, h.slots j, h.slots i);
    made = λ j e. cc;
    unmade = λ j lt e. ground (arith, h.unmade j);
    joinable = λ j lt e. ground (arith, h.joinable j, h.made i);
    joined = λ j k e. cc;
  }

  run-Threads :
      (i : ℕ) (r : Report U)
      → i < s.wg.count
      → s.workers i ≡ started
      → Threads (record s { wg = run_task s.wg i r; workers = update s.workers i ran })
  unfolding run_task
  run-Threads i r lt w = record {
    slots = λ j lt. ground (arith, h.slots j, h.slots i);
    made = λ j e. ground (arith, h.made j);
    unmade = λ j lt e. ground (arith, h.unmade j);
    joinable = λ j lt e. ground (arith, h.joinable j, h.joinable i);
    joined = λ j k e le lt. ground (arith, h.joined j k, h.joined i k);
  }

  signal-Threads :
      (i : ℕ) (b : Bool)
      → i < s.wg.count
      → s.workers i ≡ ran
      → Threads (record s {
        wg = (wg_signal_done s.wg).0;
        workers = update s.workers i exited;
        owner = wake b s.owner;
      })
  unfolding wg_signal_done
  signal-Threads i b lt w = record {
    slots = h.slots;
    made = λ j e. ground (arith, wake_kept b s.owner, h.made j);
    unmade = λ j lt e. ground (arith, h.unmade j, awake j);
    joinable = λ j lt e. ground (arith, h.joinable j);
    joined = λ j k e le lt. ground (arith, wake_kept b s.owner, h.joined j k);
  }
    where
      awake : (j : ℕ) → s.owner ≡ creating j → wake b s.owner ≡ creating j
      awake j e = ap (wake b) e ∙ wake_creating b j

  join-Threads :
      (i : ℕ)
      → s.owner ≡ joining i
      → i < s.wg.count
      → Threads (record s { wg = mark_joined s.wg i; owner = joining (suc i) })
  unfolding mark_joined
  join-Threads i o lt = record {
    slots = λ j lt. ground (arith, h.slots j, h.slots i);
    made = λ j e. cc;
    unmade = λ j lt e. ground (arith, h.unmade j);
    joinable = λ j lt e. ground (arith, h.joinable j);
    joined = λ j k e le lt. ground (arith, h.joined j i);
  }

  -- A step that moves the owner alone, past no round of the joins.
  owner-Threads :
      (o : Owner)
      → ((i : ℕ) → s.owner ≢ creating i)
      → ((i : ℕ) → o ≢ created i)
      → ((k : ℕ) → o ≡ joining k → k ≡ 0)
      → Threads (record s { owner = o })
  owner-Threads o not_creating not_created first = record {
    slots = h.slots;
    made = λ j e. absurd (not_created j e);
    unmade = λ j lt e. absurd (not_creating j (h.unmade j lt e));
    joinable = h.joinable;
    joined = λ j k e le lt. absurd (omega (arith, first k e));
  }

  skip-Threads :
      (i : ℕ)
      → s.owner ≡ joining i
      → (s.wg.tasks i).thread_joinable ≡ false
      → Threads (record s { owner = joining (suc i) })
  skip-Threads i o not_joinable = record {
    slots = h.slots;
    made = λ j e. cc;
    unmade = λ j lt e. ground (arith, h.unmade j);
    joinable = h.joinable;
    joined = λ j k e le lt. ground (arith, h.joined j i);
  }

module _ {U : Type 0} {Runs : ℕ → Value → Option U → Report U → Type 0} where
  pub Step-Threads : {s t : System U} → Step Runs s t → Counters s → Threads s → Threads t
  Step-Threads {s} (go args user_data o e) c h =
      let (cap, same, fits) = enter_task-entered s.wg _ (new_task args user_data) e in
      subst
        (λ wg. Threads (record {
          wg = wg;
          workers = update s.workers s.wg.count unborn;
          owner = creating s.wg.count;
          inputs = update s.inputs s.wg.count (args, user_data);
        }))
        (sym same) (go-Threads s c h (new_task args user_data) cap _ o refl)
  Step-Threads {s} (create i o) c h = create-Threads s c h i o
  Step-Threads {s} (fail i o) c h = fail-Threads s c h i o
  Step-Threads {s} (return_slot i o) c h = return_slot-Threads s c h i o
  Step-Threads {s} (run i r lt w x) c h = run-Threads s c h i r lt w
  Step-Threads {s} (signal i lt w) c h = signal-Threads s c h i (wg_signal_done s.wg).1 lt w
  Step-Threads {s} (join i o lt j x) c h = join-Threads s c h i o lt
  Step-Threads {s} (wait o) c h = owner-Threads s c h testing (λ i e. cc) (λ i e. cc) (λ k e. cc)
  Step-Threads {s} (sleep o more) c h =
      owner-Threads s c h sleeping (λ i e. cc) (λ i e. cc) (λ k e. cc)
  Step-Threads {s} (spurious o) c h =
      owner-Threads s c h testing (λ i e. cc) (λ i e. cc) (λ k e. cc)
  Step-Threads {s} (pass o less) c h =
      owner-Threads s c h (joining 0) (λ i e. cc) (λ i e. cc) (λ k e. ground arith)
  Step-Threads {s} (skip i o lt j) c h = skip-Threads s c h i o j
  Step-Threads {s} (return_wait i o le) c h =
      owner-Threads s c h idle (λ i e. cc) (λ i e. cc) (λ k e. cc)
