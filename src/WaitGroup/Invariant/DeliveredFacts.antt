-- ===== src/WaitGroup/Invariant/DeliveredFacts.antt =====
-- What the task of a slot holds, by where its worker stands.
use php_parallax.Prelude.{
  ℕ, ◌<◌, ◌≡◌, ◌≢◌, sym, subst, arith, Bool, true, false, Option, ◌==◌, Bool-cases, inl, inr,
}
use php_parallax.Value.{Value, absent}
use php_parallax.WaitGroup.Defs.{Task, Report}
use php_parallax.WaitGroup.Steps.{Worker, unborn, failed, started, ran, exited, System}

-- What the task holds when the runner has returned.
abbrev pub report_of : {U : Type 0} → Task U → Report U
report_of t = record {
  args = t.args;
  user_data = t.user_data;
  ok = t.ok;
  result = t.result;
  error = t.error;
}

-- A statement on slot `j` and on whether it is slot `i`.
pub slot_cases :
    (i : ℕ) (Q : ℕ → Bool → Type 0)
    → Q i true
    → ((j : ℕ) → j ≢ i → Q j false)
    → (j : ℕ) → Q j (j == i)
slot_cases i Q here there j = elim (Bool-cases (j == i)) [
  | inl e ↦ subst (Q j) (sym e) (subst (λ k. Q k true) (ground (arith, e)) here)
  | inr e ↦ subst (Q j) (sym e) (there j (ground (arith, e)))
]

module _ {U : Type 0} (Runs : ℕ → Value → Option U → Report U → Type 0) where
  -- The task is as `wg_go` made it.
  abbrev pub Untouched : Value × Option U → Task U → Type 0
  Untouched input t =
      (t.args ≡ input.0)
      × (t.user_data ≡ input.1)
      × (t.ok ≡ false)
      × (t.result ≡ absent)
      × (t.error ≡ absent)

  abbrev pub Delivered : ℕ → Value × Option U → Worker → Task U → Type 0
  Delivered i input unborn t = Untouched input t
  Delivered i input failed t = Untouched input t
  Delivered i input started t = Untouched input t
  Delivered i input ran t = Runs i input.0 input.1 (report_of t)
  Delivered i input exited t = Runs i input.0 input.1 (report_of t)

  abbrev pub Delivery : System U → Type 0
  Delivery s = (i : ℕ) → i < s.wg.count → Delivered i (s.inputs i) (s.workers i) (s.wg.tasks i)
