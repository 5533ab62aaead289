-- ===== src/Scanner/Rounds.antt =====
-- bridge_closure.c: the states of the scanners, and a round of their switch.
use php_parallax.Prelude.{ℕ, Bool, true, false, [], ◌∷◌, if◌then◌else◌, ◌==◌, not, ◌&&◌}
use php_parallax.Prelude.Int.{ℤ, succ, pred_int}
use php_parallax.Value.{Bytes}

pub data ScanState : Type 0 where
  scan_normal scan_sq_string scan_dq_string scan_line_comment scan_block_comment : ScanState

-- `src->data[i + 1]`, or NUL at the end.
abbrev pub peek : Bytes → ℕ
peek [] = 0
peek (n ∷ rest) = n

-- The local state of the loop. `skip` says that the round before did an `i++` of its own.
pub record Cursor : Type 0 where
  pub skip : Bool
  pub st : ScanState
  pub depth : ℤ

abbrev pub move_to : Cursor → Bool → ScanState → Cursor
move_to cur skip st = record cur { skip = skip; st = st }

-- A round of the switch at the bytes `c` and `n`.
unfoldable pub scan_round : Cursor → ScanState → ℕ → ℕ → Cursor
scan_round cur scan_normal c n =
    if c == 39
    then move_to cur false scan_sq_string
    else if c == 34
    then move_to cur false scan_dq_string
    else if (c == 47) && (n == 47)
    then move_to cur true scan_line_comment
    else if (c == 35) && not (n == 91)
    then move_to cur false scan_line_comment
    else if (c == 47) && (n == 42)
    then move_to cur true scan_block_comment
    else if c == 123
    then record cur { depth = succ cur.depth }
    else if c == 125
    then record cur { depth = pred_int cur.depth }
    else cur
scan_round cur scan_sq_string c n =
    if (c == 92) && not (n == 0)
    then move_to cur true scan_sq_string
    else if c == 39
    then move_to cur false scan_normal
    else cur
scan_round cur scan_dq_string c n =
    if (c == 92) && not (n == 0)
    then move_to cur true scan_dq_string
    else if c == 34
    then move_to cur false scan_normal
    else cur
scan_round cur scan_line_comment c n = if c == 10 then move_to cur false scan_normal else cur
scan_round cur scan_block_comment c n =
    if (c == 42) && (n == 47) then move_to cur true scan_normal else cur

-- The byte is one that the loop looks at as code.
abbrev pub is_code : Bool → ScanState → Bool
is_code false scan_normal = true
is_code _ _ = false
