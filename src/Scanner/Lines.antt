-- ===== src/Scanner/Lines.antt =====
-- `offset_of_line` finds the byte behind the right newline.
use php_parallax.Prelude.{
  ℕ, suc, ◌+◌, ◌<◌, ◌≡◌, refl, arith, [], ◌∷◌, ◌++◌, none, some, if◌then◌else◌, ◌==◌, length,
}
use php_parallax.Prelude.Int.{pos}
use php_parallax.Value.{Bytes}
use php_parallax.Scanner.{line_loop, offset_of_line}

abbrev pub newlines : Bytes → ℕ
newlines [] = 0
newlines (c ∷ rest) = (if c == 10 then 1 else 0) + newlines rest

line_loop_found :
    (p rest : Bytes) (seen i : ℕ)
    → line_loop (p ++ (10 ∷ rest)) (seen + newlines p + 1) seen i ≡ some (i + length p + 1)
unfolding line_loop
line_loop_found [] rest seen i = ground arith
line_loop_found (c ∷ p) rest seen i =
    ground (arith, line_loop_found p rest seen (suc i), line_loop_found p rest (suc seen) (suc i))

line_loop_missing :
    (s : Bytes) (line_no seen i : ℕ)
    → seen + newlines s < line_no
    → line_loop s line_no seen i ≡ none
unfolding line_loop
line_loop_missing [] line_no seen i h = refl
line_loop_missing (c ∷ s) line_no seen i h = ground (
  arith,
  line_loop_missing s line_no seen (suc i),
  line_loop_missing s line_no (suc seen) (suc i),
)

-- The line behind each newline is found by its number, which is the number of newlines before that
-- newline, and two more: its offset is the one behind the newline. A line number above the number
-- of newlines and one has no offset.
pub offset_of_line_lem :
    (p rest : Bytes)
    → (offset_of_line (p ++ (10 ∷ rest)) (pos (newlines p + 2)) ≡ some (length p + 1))
      × ((n : ℕ) → newlines p + 1 < n → offset_of_line p (pos n) ≡ none)
unfolding offset_of_line
offset_of_line_lem p rest = (
  ground (arith, line_loop_found p rest 1 0),
  λ n more. ground (arith, line_loop_missing p n 1 0),
)
