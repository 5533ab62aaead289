-- ===== src/Scanner/Extract.antt =====
-- bridge_closure.c: `extract_closure_text`, over the contents of files.
pub mod Spans
pub mod Slices
pub mod Walk
pub mod Depth
use php_parallax.Prelude.{
  ℕ, zero, suc, ◌+◌, ◌-◌, Bool, true, false, [], ◌∷◌, Option, none, some, if◌then◌else◌, ◌==◌, ltb,
  leb, not, ◌&&◌, ◌||◌, take, drop, Outcome, done, refused, fault, stuck,
}
use php_parallax.Prelude.Int.{ℤ, pos, succ, pred_int, is_zero, is_i32}
use php_parallax.Value.{Bytes}
use php_parallax.Scanner.{offset_of_line, scan_brace_match}
use php_parallax.Scanner.Rounds.{ScanState, scan_normal, peek, Cursor, scan_round, is_code}
use php_parallax.Scanner.Keywords.{is_ident_byte, starts, scan_find_keyword}

-- Why a callable's source could not be cut out of its file.
pub data ExtractError : Type 0 where
  unresolvable unreadable line_out_of_range no_keyword no_brace unbalanced : ExtractError

-- `undefined`: a counter of depth is out of the range of an int.
pub data Extract {ℓ} (A : Type ℓ) : Type ℓ where
  found : A → Extract A
  failed : ExtractError → Extract A
  undefined : Extract A

infixl 5 ◌>>=◌
abbrev pub ◌>>=◌ {ℓ κ} : {A : Type ℓ} {B : Type κ} → Extract A → (A → Extract B) → Extract B
found a >>= f = f a
failed e >>= f = failed e
undefined >>= f = undefined

abbrev pub or_fail {ℓ} : {A : Type ℓ} → Option A → ExtractError → Extract A
or_fail none e = failed e
or_fail (some a) e = found a

-- A search that gives -1 fails.
abbrev pub or_failed {ℓ} : {A : Type ℓ} → Outcome A → ExtractError → Extract A
or_failed (done a) e = found a
or_failed refused e = failed e
or_failed fault e = undefined
or_failed stuck e = undefined

-- `strstr(s, word) != NULL`
unfoldable pub contains : Bytes → Bytes → Bool
unfolding starts
contains word [] = starts word []
contains word (c ∷ s) = starts word (c ∷ s) || contains word s

abbrev pub standard_input : Bytes
standard_input = 83 ∷ 116 ∷ 97 ∷ 110 ∷ 100 ∷ 97 ∷ 114 ∷ 100 ∷ 32 ∷ 105 ∷ 110 ∷ 112 ∷ 117 ∷ 116 ∷ []

abbrev pub eval_word : Bytes
eval_word = 101 ∷ 118 ∷ 97 ∷ 108 ∷ []

abbrev pub scheme_mark : Bytes
scheme_mark = 58 ∷ 47 ∷ 47 ∷ []

abbrev pub function_word : Bytes
function_word = 102 ∷ 117 ∷ 110 ∷ 99 ∷ 116 ∷ 105 ∷ 111 ∷ 110 ∷ []

abbrev pub static_word : Bytes
static_word = 115 ∷ 116 ∷ 97 ∷ 116 ∷ 105 ∷ 99 ∷ []

unfoldable pub no_source : Bytes → Bool
unfolding contains starts
no_source filename =
    contains standard_input filename || (starts eval_word filename || contains scheme_mark filename)

-- A round of the search for the opening brace: the switch of the other scanners, with `paren_depth`
-- for `depth`.
unfoldable pub paren_round : Cursor → ℕ → ℕ → Cursor
unfolding scan_round
paren_round cur c n =
    let next = record (scan_round cur cur.st c n) { depth = cur.depth } in
    if is_code false cur.st && is_code false next.st
    then if c == 40
      then record next { depth = succ cur.depth }
      else if c == 41
      then record next { depth = pred_int cur.depth }
      else next
    else next

-- The loop that sets `brace_open`; the list starts at offset `i`. `refused` is -1.
unfoldable pub open_loop : Cursor → ℕ → Bytes → Outcome ℕ
unfolding paren_round
open_loop cur i [] = refused
open_loop cur i (c ∷ rest) =
    let next = if cur.skip then record cur { skip = false } else paren_round cur c (peek rest) in
    let more = open_loop next (suc i) rest in
    if not (is_i32 next.depth)
    then fault
    else if is_code cur.skip cur.st && ((c == 123) && is_zero next.depth)
    then done i
    else more

abbrev pub at_start : Cursor
at_start = record { skip = false; st = scan_normal; depth = pos 0 }

abbrev pub byte_at : Bytes → ℕ → ℕ
byte_at src i = peek (drop i src)

-- The inner loop over spaces and tabs, from `s` down to `line_off` at most.
unfoldable pub back_over_blanks : Bytes → ℕ → ℕ → ℕ
back_over_blanks src line_off zero = zero
back_over_blanks src line_off (suc s) =
    let more = back_over_blanks src line_off s in
    if ltb line_off (suc s) && ((byte_at src (suc s) == 32) || (byte_at src (suc s) == 9))
    then more
    else suc s

-- The test for `static` that ends at `s`.
unfoldable pub static_ends_at : Bytes → ℕ → ℕ → Bool
unfolding starts is_ident_byte
static_ends_at src line_off s =
    leb (line_off + 6) s
    && (starts static_word (drop (s - 5) src)
        && ((s - 5 == 0) || not (is_ident_byte (byte_at src (s - 6)))))

-- The walk to the left from `start`. A round that goes on leaves `start` smaller, so the first
-- number, `fn_off` at the call, is never used up.
unfoldable pub walk_left : ℕ → Bytes → ℕ → ℕ → ℕ
unfolding back_over_blanks static_ends_at
walk_left zero src line_off start = start
walk_left (suc fuel) src line_off start =
    let s = back_over_blanks src line_off (start - 1) in
    let more = walk_left fuel src line_off (s - 5) in
    if ltb line_off start && static_ends_at src line_off s then more else start

-- The offsets `start` and `body_end` of the text.
unfoldable pub closure_span : Bytes → ℤ → Extract (ℕ × ℕ)
unfolding open_loop walk_left
closure_span src line_start = do
  line_off ← or_fail (offset_of_line src line_start) line_out_of_range
  fn_off ← or_fail (scan_find_keyword src line_off function_word) no_keyword
  brace_open ← or_failed (open_loop at_start fn_off (drop fn_off src)) no_brace
  body_end ← or_failed (scan_brace_match src brace_open) unbalanced
  found (walk_left fn_off src line_off fn_off, body_end)

-- `read_file_all` gives the contents of a file; `none` is -1. A filename of NULL is `none`.
unfoldable pub extract_closure_text : (Bytes → Option Bytes) → Option Bytes → ℤ → Extract Bytes
unfolding closure_span no_source
extract_closure_text read_file_all none line_start = failed unresolvable
extract_closure_text read_file_all (some filename) line_start =
    if no_source filename then failed unresolvable else (do
      src ← or_fail (read_file_all filename) unreadable
      (start, body_end) ← closure_span src line_start
      found (take (body_end - start) (drop start src)))
