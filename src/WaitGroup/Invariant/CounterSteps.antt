-- ===== src/WaitGroup/Invariant/CounterSteps.antt =====
-- Every step keeps the counter right.
use php_parallax.Prelude.{
  ℕ, zero, suc, ◌+◌, ◌<◌, ◌≡◌, refl, ap, sym, subst, ◌∙◌, arith, Bool, true, false, Option, ◌⊎◌,
  inl, inr, ltb,
}
use php_parallax.Prelude.Int.{pred_int, is_zero, pos, succ, ltz}
use php_parallax.Value.{Value}
use php_parallax.WaitGroup.Defs.{
  update, Task, Report, new_task, create_failed, create_succeeded, run_task, wg_signal_done,
  mark_joined, must_wait,
}
use php_parallax.WaitGroup.Steps.{
  Worker, unborn, failed, started, ran, exited, Owner, idle, testing, sleeping, creating, created,
  joining, System, init, wake, Step, go, create, fail, return_slot, run, signal, wait, sleep,
  spurious, pass, join, skip, return_wait,
}
use php_parallax.WaitGroup.Count.{active, is_active, active-update, active_next}
use php_parallax.WaitGroup.Invariant.Facts.{Counters, entered, enter_task-entered}

pub wake_sleeping : (b : Bool) (o : Owner) → wake b o ≡ sleeping → (b ≡ false) × (o ≡ sleeping)
wake_sleeping true idle h = absurd (cc h)
wake_sleeping true testing h = absurd (cc h)
wake_sleeping true sleeping h = absurd (cc h)
wake_sleeping true (creating i) h = absurd (cc h)
wake_sleeping true (created i) h = absurd (cc h)
wake_sleeping true (joining i) h = absurd (cc h)
wake_sleeping false o h = (refl, h)

-- A broadcast moves a sleeping owner alone.
pub wake_kept : (b : Bool) (o : Owner) → (wake b o ≡ o) ⊎ (wake b o ≡ testing)
wake_kept true sleeping = inr refl
wake_kept true _ = inl refl
wake_kept false o = inl refl

is_zero-false : (n : ℕ) → is_zero (pos n) ≡ false → 0 < n
is_zero-false zero h = absurd (cc h)
is_zero-false (suc n) h = omega arith

pub init-Counters : {U : Type 0} → Counters (init {U = U})
unfolding active
init-Counters = record {
  in_bounds = omega arith;
  counted = refl;
  asleep = λ e. cc;
  drained = λ k e. refl;
  creates = λ i e. cc;
}

module _ {U : Type 0} (s : System U) (c : Counters s) where
  abbrev left : ℕ
  left = active s.wg.count s.workers

  go-Counters :
      (t : Task U) (cap : ℕ) (inputs : ℕ → Value × Option U)
      → s.owner ≡ idle
      → s.wg.count < cap
      → Counters (record {
        wg = entered s.wg t cap;
        workers = update s.workers s.wg.count unborn;
        owner = creating s.wg.count;
        inputs = inputs;
      })
  go-Counters t cap inputs o fits =
      let next : active (suc s.wg.count) (update s.workers s.wg.count unborn) ≡ suc left =
        active_next s.wg.count s.workers unborn ∙ omega arith in
      record {
        in_bounds = fits;
        counted = ap succ c.counted ∙ ap pos (sym next);
        asleep = λ e. cc;
        drained = λ k e. cc;
        creates = λ i e. ground arith;
      }

  -- The count when worker `i` becomes `w`.
  moved :
      (i : ℕ) (w v : Worker)
      → i < s.wg.count
      → s.workers i ≡ v
      → active s.wg.count (update s.workers i w) + is_active v ≡ left + is_active w
  moved i w v lt e = omega (arith, active-update s.wg.count i s.workers w lt, ap is_active e)

  create-Counters :
      (i : ℕ)
      → s.owner ≡ creating i
      → Counters (record s { workers = update s.workers i started; owner = created i })
  create-Counters i o =
      let (lt, w) = c.creates i o in
      record {
        in_bounds = c.in_bounds;
        counted = c.counted ∙ ap pos (omega (arith, moved i started unborn lt w));
        asleep = λ e. cc;
        drained = λ k e. cc;
        creates = λ j e. cc;
      }

  fail-Counters :
      (i : ℕ)
      → s.owner ≡ creating i
      → Counters (record s {
        wg = create_failed s.wg i;
        workers = update s.workers i failed;
        owner = idle;
      })
  unfolding create_failed
  fail-Counters i o =
      let (lt, w) = c.creates i o in
      let one_less : left ≡ suc (active s.wg.count (update s.workers i failed)) =
        omega (arith, moved i failed unborn lt w) in
      record {
        in_bounds = c.in_bounds;
        counted = ap pred_int (c.counted ∙ ap pos one_less);
        asleep = λ e. cc;
        drained = λ k e. cc;
        creates = λ j e. cc;
      }

  run-Counters :
      (i : ℕ) (r : Report U)
      → i < s.wg.count
      → s.workers i ≡ started
      → Counters (record s { wg = run_task s.wg i r; workers = update s.workers i ran })
  unfolding run_task
  run-Counters i r lt w =
      let same : left ≡ active s.wg.count (update s.workers i ran) =
        omega (arith, moved i ran started lt w) in
      record {
        in_bounds = c.in_bounds;
        counted = c.counted ∙ ap pos same;
        asleep = λ e. omega (arith, c.asleep e, same);
        drained = λ k e. omega (arith, c.drained k e, same);
        creates = λ j e. ground (arith, c.creates j e);
      }

  signal-Counters :
      (i : ℕ)
      → i < s.wg.count
      → s.workers i ≡ ran
      → Counters (record s {
        wg = (wg_signal_done s.wg).0;
        workers = update s.workers i exited;
        owner = wake (wg_signal_done s.wg).1 s.owner;
      })
  unfolding wg_signal_done
  signal-Counters i lt w =
      let after : ℕ = active s.wg.count (update s.workers i exited) in
      let one_less : left ≡ suc after = omega (arith, moved i exited ran lt w) in
      let counted : pred_int s.wg.remaining ≡ pos after =
        ap pred_int (c.counted ∙ ap pos one_less) in
      let b : Bool = is_zero (pred_int s.wg.remaining) in
      record {
        in_bounds = c.in_bounds;
        counted = counted;
        asleep =
            λ e. is_zero-false after (ap is_zero (sym counted) ∙ (wake_sleeping b s.owner e).0);
        drained = λ k e. ground (arith, wake_kept b s.owner, c.drained k);
        creates = λ j e. ground (arith, wake_kept b s.owner, c.creates j);
      }

  must_wait-left : must_wait s.wg ≡ ltb 0 left
  must_wait-left = ap (ltz (pos 0)) c.counted

module _ {U : Type 0} {Runs : ℕ → Value → Option U → Report U → Type 0} where
  pub Step-Counters : {s t : System U} → Step Runs s t → Counters s → Counters t
  unfolding create_succeeded mark_joined
  Step-Counters {s} (go args user_data o e) c =
      let (cap, same, fits) = enter_task-entered s.wg _ (new_task args user_data) e in
      subst
        (λ wg. Counters (record {
          wg = wg;
          workers = update s.workers s.wg.count unborn;
          owner = creating s.wg.count;
          inputs = update s.inputs s.wg.count (args, user_data);
        }))
        (sym same) (go-Counters s c (new_task args user_data) cap _ o fits)
  Step-Counters {s} (create i o) c = create-Counters s c i o
  Step-Counters {s} (fail i o) c = fail-Counters s c i o
  Step-Counters {s} (return_slot i o) c = ground arith
  Step-Counters {s} (run i r lt w x) c = run-Counters s c i r lt w
  Step-Counters {s} (signal i lt w) c = signal-Counters s c i lt w
  Step-Counters {s} (wait o) c = ground arith
  Step-Counters {s} (sleep o more) c = ground (arith, must_wait-left s c)
  Step-Counters {s} (spurious o) c = ground arith
  Step-Counters {s} (pass o less) c = ground (arith, must_wait-left s c)
  Step-Counters {s} (join i o lt j x) c = ground (arith, c.drained i o)
  Step-Counters {s} (skip i o lt j) c = ground (arith, c.drained i o)
  Step-Counters {s} (return_wait i o le) c = ground arith
