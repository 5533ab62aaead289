-- ===== src/Scanner.antt =====
-- bridge_closure.c: the scan for lines, keywords and braces of a source text.
-- A `px_slice_t` is its bytes.
pub mod Files
pub mod Rounds
pub mod Keywords
pub mod Braces
pub mod Matches
pub mod Extract
pub mod Lines
use php_parallax.Prelude.{
  ℕ, zero, suc, ◌+◌, Bool, true, false, [], ◌∷◌, Option, none, some, if◌then◌else◌, ◌==◌, leb, not,
  ◌&&◌, length, drop, Outcome, done, refused, fault,
}
use php_parallax.Prelude.Int.{ℤ, pos, negsuc, succ, pred_int, is_zero, is_i32}
use php_parallax.Value.{Bytes}
use php_parallax.Scanner.Rounds.{ScanState, scan_normal, peek, Cursor, scan_round, is_code}

-- The loop of `offset_of_line`; the list starts at offset `i`.
unfoldable pub line_loop : Bytes → ℕ → ℕ → ℕ → Option ℕ
line_loop [] line_no seen i = none
line_loop (c ∷ rest) line_no seen i =
    let seen' = if c == 10 then suc seen else seen in
    let more = line_loop rest line_no seen' (suc i) in
    if (c == 10) && (seen' == line_no) then some (suc i) else more

-- `none` is -1.
unfoldable pub offset_of_line : Bytes → ℤ → Option ℕ
unfolding line_loop
offset_of_line s (negsuc n) = some 0
offset_of_line s (pos line_no) = if leb line_no 1 then some 0 else line_loop s line_no 1 0

-- The loop of `scan_brace_match`; the list starts at offset `i`. A `depth` out of range is a fault.
unfoldable pub brace_loop : Cursor → ℕ → Bytes → Outcome ℕ
unfolding scan_round
brace_loop cur i [] = refused
brace_loop cur i (c ∷ rest) =
    let next =
      if cur.skip then record cur { skip = false } else scan_round cur cur.st c (peek rest) in
    let more = brace_loop next (suc i) rest in
    if not (is_i32 next.depth)
    then fault
    else if is_code cur.skip cur.st && ((c == 125) && is_zero next.depth)
    then done (suc i)
    else more

-- `refused` is -1. At or past the end there is no byte, as where there is no brace.
unfoldable pub scan_brace_match : Bytes → ℕ → Outcome ℕ
unfolding brace_loop
scan_brace_match src from =
    let rest = drop from src in
    if leb (length src) from
    then refused
    else if peek rest == 123
    then brace_loop (record { skip = false; st = scan_normal; depth = pos 0 }) from rest
    else refused
