-- ===== src/Scanner/Extract/Depth.antt =====
-- The depths of the searches of `extract_closure_text` on sources of fewer than 2^31 bytes.
use php_parallax.Prelude.{
  ℕ, zero, suc, ◌+◌, ◌^◌, ◌≤◌, ◌<◌, ◌≡◌, ◌≢◌, refl, arith, Bool, true, false, [], ◌∷◌, Option, none,
  some, if◌then◌else◌, ◌==◌, leb, ◌&&◌, length, drop, Bool-cases, inl, inr, Outcome, Ensures, holds,
  reports,
}
use php_parallax.Prelude.Int.{ℤ, pos, negsuc, succ, pred_int, pos_part, neg_part, is_zero, is_i32}
use php_parallax.Value.{Bytes}
use php_parallax.Scanner.{offset_of_line, brace_loop, scan_brace_match}
use php_parallax.Scanner.Rounds.{
  ScanState, scan_normal, scan_sq_string, scan_dq_string, scan_line_comment, scan_block_comment,
  peek, Cursor, scan_round, is_code,
}
use php_parallax.Scanner.Keywords.{scan_find_keyword}
use php_parallax.Scanner.Extract.{
  ExtractError, unreadable, Extract, found, failed, undefined, ◌>>=◌, or_fail, or_failed,
  function_word, paren_round, open_loop, at_start, closure_span, no_source, extract_closure_text,
}

-- The absolute value.
abbrev wide : ℤ → ℕ
wide z = pos_part z + neg_part z

wide-is_i32 : (z : ℤ) → wide z < 2 ^ 31 → is_i32 z ≡ true
unfolding is_i32
wide-is_i32 (pos n) h = ground arith
wide-is_i32 (negsuc n) h = ground arith

wide-succ : (z : ℤ) → wide (succ z) ≤ suc (wide z)
wide-succ (pos n) = omega arith
wide-succ (negsuc zero) = omega arith
wide-succ (negsuc (suc n)) = omega arith

wide-pred : (z : ℤ) → wide (pred_int z) ≤ suc (wide z)
wide-pred (pos zero) = omega arith
wide-pred (pos (suc n)) = omega arith
wide-pred (negsuc n) = omega arith

scan_round-wide :
    (cur : Cursor) (st : ScanState) (c n : ℕ)
    → wide (scan_round cur st c n).depth ≤ suc (wide cur.depth)
unfolding scan_round
scan_round-wide cur scan_normal c n = ground (arith, wide-succ cur.depth, wide-pred cur.depth)
scan_round-wide cur scan_sq_string c n = ground arith
scan_round-wide cur scan_dq_string c n = ground arith
scan_round-wide cur scan_line_comment c n = ground arith
scan_round-wide cur scan_block_comment c n = ground arith

paren_round-wide :
    (cur : Cursor) (c n : ℕ) → wide (paren_round cur c n).depth ≤ suc (wide cur.depth)
unfolding paren_round
paren_round-wide cur c n = ground (arith, wide-succ cur.depth, wide-pred cur.depth)

either-wide :
    (b : Bool) (x y : Cursor) (n : ℕ)
    → wide x.depth ≤ n
    → wide y.depth ≤ n
    → wide (if b then x else y).depth ≤ n
either-wide true x y n h k = h
either-wide false x y n h k = k

-- No fault, and no want of fuel.
abbrev Settles : Outcome ℕ → Type 0
Settles r = Ensures (λ k. Unit {0}) r

brace_loop-Settles :
    (cur : Cursor) (i : ℕ) (s : Bytes)
    → wide cur.depth + length s < 2 ^ 31
    → Settles (brace_loop cur i s)
unfolding brace_loop
brace_loop-Settles cur i [] h = reports
brace_loop-Settles cur i (c ∷ rest) h =
    let next =
      (if cur.skip then record cur { skip = false } else scan_round cur cur.st c (peek rest)) in
    let low : wide next.depth ≤ suc (wide cur.depth) =
      either-wide cur.skip _ _ _ (omega arith) (scan_round-wide cur cur.st c (peek rest)) in
    rw (wide-is_i32 next.depth (omega (arith, low)))
      (elim (Bool-cases (is_code cur.skip cur.st && ((c == 125) && is_zero next.depth))) [
        | inl here ↦ rw here (holds tt)
        | inr on ↦ rw on (brace_loop-Settles next (suc i) rest (omega (arith, low)))
      ])

open_loop-Settles :
    (cur : Cursor) (i : ℕ) (s : Bytes)
    → wide cur.depth + length s < 2 ^ 31
    → Settles (open_loop cur i s)
unfolding open_loop
open_loop-Settles cur i [] h = reports
open_loop-Settles cur i (c ∷ rest) h =
    let next = (if cur.skip then record cur { skip = false } else paren_round cur c (peek rest)) in
    let low : wide next.depth ≤ suc (wide cur.depth) =
      either-wide cur.skip _ _ _ (omega arith) (paren_round-wide cur c (peek rest)) in
    rw (wide-is_i32 next.depth (omega (arith, low)))
      (elim (Bool-cases (is_code cur.skip cur.st && ((c == 123) && is_zero next.depth))) [
        | inl here ↦ rw here (holds tt)
        | inr on ↦ rw on (open_loop-Settles next (suc i) rest (omega (arith, low)))
      ])

length-drop_le : (n : ℕ) (s : Bytes) → length (drop n s) ≤ length s
length-drop_le zero s = omega arith
length-drop_le (suc n) [] = omega arith
length-drop_le (suc n) (c ∷ s) = omega (arith, length-drop_le n s)

scan_brace_match-Settles :
    (src : Bytes) (from : ℕ) → length src < 2 ^ 31 → Settles (scan_brace_match src from)
unfolding scan_brace_match
scan_brace_match-Settles src from h = elim (Bool-cases (leb (length src) from)) [
  | inl past ↦ rw past reports
  | inr within ↦ elim (Bool-cases (peek (drop from src) == 123)) [
    | inr other ↦ rw (within, other) reports
    | inl brace ↦
        rw (within, brace)
          (brace_loop-Settles at_start from (drop from src)
            (omega (arith, length-drop_le from src)))
  ]
]

>>=-defined :
    {A B : Type 0} (m : Extract A) (f : A → Extract B)
    → m ≢ undefined
    → ((a : A) → f a ≢ undefined)
    → (m >>= f) ≢ undefined
>>=-defined (found a) f h k = k a
>>=-defined (failed e) f h k = λ same. cc
>>=-defined undefined f h k = absurd (h refl)

or_fail-defined : {A : Type 0} (r : Option A) (e : ExtractError) → or_fail r e ≢ undefined
or_fail-defined none e = λ same. cc
or_fail-defined (some a) e = λ same. cc

or_failed-defined : (r : Outcome ℕ) (e : ExtractError) → Settles r → or_failed r e ≢ undefined
or_failed-defined _ e (holds h) = λ same. cc
or_failed-defined _ e reports = λ same. cc

closure_span-defined :
    (src : Bytes) (line_start : ℤ) → length src < 2 ^ 31 → closure_span src line_start ≢ undefined
unfolding closure_span
closure_span-defined src line_start h =
    >>=-defined (or_fail (offset_of_line src line_start) _) _ (or_fail-defined _ _) λ line_off.
      >>=-defined (or_fail (scan_find_keyword src line_off function_word) _) _ (or_fail-defined _ _)
        λ fn_off.
          >>=-defined (or_failed (open_loop at_start fn_off (drop fn_off src)) _) _
            (or_failed-defined _ _ (
              open_loop-Settles at_start fn_off (drop fn_off src)
                (omega (arith, length-drop_le fn_off src))))
            λ brace_open.
              >>=-defined (or_failed (scan_brace_match src brace_open) _) _
                (or_failed-defined _ _ (scan_brace_match-Settles src brace_open h))
                λ body_end same. cc

contents-defined :
    {A : Type 0} (contents : Option Bytes)
    → ((src : Bytes) → contents ≡ some src → length src < 2 ^ 31)
    → (f : Bytes → Extract A) → ((src : Bytes) → length src < 2 ^ 31 → f src ≢ undefined)
    → (or_fail contents unreadable >>= f) ≢ undefined
contents-defined none small f h = λ same. cc
contents-defined (some src) small f h = h src (small src refl)

-- Every file has fewer than 2^31 bytes.
abbrev pub SmallFiles : (Bytes → Option Bytes) → Type 0
SmallFiles read_file_all =
    (filename src : Bytes) → read_file_all filename ≡ some src → length src < 2 ^ 31

pub extract_closure_text-defined :
    (read_file_all : Bytes → Option Bytes) (filename : Bytes) (line_start : ℤ)
    → SmallFiles read_file_all
    → extract_closure_text read_file_all (some filename) line_start ≢ undefined
unfolding extract_closure_text
extract_closure_text-defined read_file_all filename line_start small =
    elim (Bool-cases (no_source filename)) [
      | inl eval ↦ rw eval (λ same. cc)
      | inr readable ↦ rw readable (
          contents-defined (read_file_all filename) (λ src read. small filename src read) _
            λ src short.
              >>=-defined (closure_span src line_start) _
                (closure_span-defined src line_start short) λ span same. cc)
    ]
