-- ===== src/Examples/Sources.antt =====
-- The scanners on small sources.
use php_parallax.Prelude.{ℕ, ◌≤◌, ◌<◌, ◌≡◌, refl, arith, length, [], ◌∷◌, ◌++◌, none, some, done}
use php_parallax.Prelude.Int.{pos, is_i32}
use php_parallax.Value.{Bytes}
use php_parallax.Scanner.{offset_of_line, scan_brace_match, brace_loop}
use php_parallax.Scanner.Rounds.{scan_round}
use php_parallax.Scanner.Lines.{offset_of_line_lem}
use php_parallax.Scanner.Braces.{
  Body, single_quoted, group, empty, letter, close, scan_brace_match-Body,
}
use php_parallax.Scanner.Keywords.{
  scan_find_keyword, find_loop, at_token, heredoc_length, is_ident_byte, starts, blanks, label_of,
  label_end,
}
use php_parallax.Scanner.Keywords.Tokens.{Token, scan_find_keyword-Token}

-- `f`, and then `{{}'}'}` with a brace behind it.
abbrev body : Bytes
body = 123 ∷ 125 ∷ 39 ∷ 125 ∷ 39 ∷ []

body-Body : Body body
body-Body = group [] (39 ∷ 125 ∷ 39 ∷ []) empty (
    single_quoted (125 ∷ 39 ∷ []) []
      (letter 125 (39 ∷ []) (omega arith) (omega arith) (λ q. absurd (omega (arith, q))) close)
      empty)

scan_brace_match-Body_example :
    scan_brace_match ((102 ∷ []) ++ (123 ∷ (body ++ (125 ∷ (125 ∷ []))))) 1 ≡ done 8
scan_brace_match-Body_example =
    scan_brace_match-Body (102 ∷ []) body (125 ∷ []) body-Body (omega arith)

-- `{<<<A`, a line with `}`, and the line `A}`: the brace in the heredoc is matched.
brace_in_heredoc :
    scan_brace_match (123 ∷ 60 ∷ 60 ∷ 60 ∷ 65 ∷ 10 ∷ 125 ∷ 10 ∷ 65 ∷ 125 ∷ []) 0 ≡ done 7
unfolding scan_brace_match brace_loop scan_round is_i32
brace_in_heredoc = refl

-- Two lines of one byte each.
offset_of_line_lem_example :
    (offset_of_line ((97 ∷ []) ++ (10 ∷ (98 ∷ []))) (pos 2) ≡ some 2)
    × ((n : ℕ) → 1 < n → offset_of_line (97 ∷ []) (pos n) ≡ none)
offset_of_line_lem_example = offset_of_line_lem (97 ∷ []) (98 ∷ [])

-- `'fn'fnx fn(`: the first two are in a string and in a longer name.
abbrev source : Bytes
source = 39 ∷ 102 ∷ 110 ∷ 39 ∷ 102 ∷ 110 ∷ 120 ∷ 32 ∷ 102 ∷ 110 ∷ 40 ∷ []

abbrev fn : Bytes
fn = 102 ∷ 110 ∷ []

found_fn : scan_find_keyword source 0 fn ≡ some 8
unfolding scan_find_keyword find_loop scan_round at_token is_ident_byte starts
found_fn = refl

-- `<<<A`, a line `fn`, a line `A;`, and `fn`.
found_behind_heredoc :
    scan_find_keyword (60 ∷ 60 ∷ 60 ∷ 65 ∷ 10 ∷ 102 ∷ 110 ∷ 10 ∷ 65 ∷ 59 ∷ 32 ∷ 102 ∷ 110 ∷ []) 0 fn
    ≡ some 11
unfolding scan_find_keyword find_loop scan_round at_token is_ident_byte starts heredoc_length blanks
    label_of label_end
found_behind_heredoc = refl

scan_find_keyword-Token_example :
    (p : Bytes) × (q : Bytes) × Token fn 0 source p q × (8 ≡ length p) × (0 ≤ 8)
scan_find_keyword-Token_example = scan_find_keyword-Token source 0 fn 8 found_fn
