-- ===== src/Scanner/Extract/Walk.antt =====
-- The walk of `extract_closure_text` to the left ends by its own test.
use php_parallax.Prelude.{
  ℕ, zero, suc, ◌-◌, ◌≤◌, ◌≡◌, arith, Bool, false, ltb, ◌&&◌, Bool-cases, inl, inr,
}
use php_parallax.Value.{Bytes}
use php_parallax.Scanner.Extract.{back_over_blanks, static_ends_at, walk_left}
use php_parallax.Scanner.Extract.Spans.{back_over_blanks-le}

-- The test of the loop at `start`.
abbrev pub walks_on : Bytes → ℕ → ℕ → Bool
walks_on src line_off start =
    ltb line_off start && static_ends_at src line_off (back_over_blanks src line_off (start - 1))

-- With as many rounds as the offset it starts at, the walk to the left ends by its own test: at its
-- result the loop of `extract_closure_text` does not go on.
pub walk_left_ends :
    (fuel : ℕ) (src : Bytes) (line_off start : ℕ)
    → start ≤ fuel
    → walks_on src line_off (walk_left fuel src line_off start) ≡ false
unfolding walk_left
walk_left_ends zero src line_off start le =
    let over : ltb line_off start ≡ false = ground (arith, le) in rw over
walk_left_ends (suc fuel) src line_off start le =
    let s = back_over_blanks src line_off (start - 1) in
    elim (Bool-cases (ltb line_off start && static_ends_at src line_off s)) [
      | inr e ↦ rw e e
      | inl e ↦ rw e (
          walk_left_ends fuel src line_off (s - 5)
            (omega (arith, back_over_blanks-le src line_off (start - 1))))
    ]
