-- ===== src/Scanner/Braces.antt =====
-- The code between two braces, by a grammar, and `scan_brace_match` on it.
use php_parallax.Prelude.{
  ℕ, suc, ◌+◌, ◌-◌, ◌^◌, ◌<◌, ◌≡◌, ◌≢◌, refl, ap, ◌∙◌, arith, true, false, [], ◌∷◌, ◌++◌, done, leb,
  length, length-append, append_assoc, drop, All,
}
use php_parallax.Prelude.Int.{pos, is_i32, is_i32-pos}
use php_parallax.Value.{Bytes}
use php_parallax.Scanner.{brace_loop, scan_brace_match}
use php_parallax.Scanner.Rounds.{
  ScanState, scan_normal, scan_sq_string, scan_dq_string, scan_line_comment, scan_block_comment,
  peek, Cursor,
}

-- Neither a quote, nor a brace, nor a byte that may start a comment.
abbrev pub IsPlain : ℕ → Type 0
IsPlain c = (c ≢ 39) × (c ≢ 34) × (c ≢ 96) × (c ≢ 47) × (c ≢ 35) × (c ≢ 123) × (c ≢ 125)

-- The byte and the rest do not begin with `<<<`, which opens a heredoc or a nowdoc.
abbrev pub IsNoHeredoc : ℕ → Bytes → Type 0
IsNoHeredoc c rest = c ≡ 60 → peek rest ≡ 60 → peek (drop 1 rest) ≢ 60

-- The byte and the rest do not begin with `?>`, which ends the code.
abbrev pub IsCodeStill : ℕ → Bytes → Type 0
IsCodeStill c rest = c ≡ 63 → peek rest ≢ 62

-- In double quotes the byte and the rest do not begin with `{$` or `${`, behind which code follows.
abbrev pub IsLetter : ℕ → ℕ → Bytes → Type 0
IsLetter q c rest = q ≡ 34 → (c ≡ 123 → peek rest ≢ 36) × (c ≡ 36 → peek rest ≢ 123)

-- A line of a comment, without the newline at its end.
abbrev pub IsLine : Bytes → Type 0
IsLine [] = Unit {0}
IsLine (c ∷ s) = (c ≢ 10) × IsCodeStill c s × IsLine s

-- The rest of a string, its closing quote included.
pub data Quoted (q : ℕ) : Bytes → Type 0 where
  close : Quoted q (q ∷ [])
  letter : (c : ℕ) (s : Bytes) → c ≢ q → c ≢ 92 → IsLetter q c s → Quoted q s → Quoted q (c ∷ s)
  escape : (c : ℕ) (s : Bytes) → c ≢ 0 → Quoted q s → Quoted q (92 ∷ c ∷ s)

-- The rest of a block comment.
pub data Commented : Bytes → Type 0 where
  close_comment : Commented (42 ∷ 47 ∷ [])
  letter_comment : (c : ℕ) (s : Bytes) → (c ≡ 42 → peek s ≢ 47) → Commented s → Commented (c ∷ s)

-- PHP code without heredocs, backticks, closing tags and code within strings, in which braces
-- outside strings and comments come in pairs.
pub data Body : Bytes → Type 0 where
  empty : Body []
  plain :
      (c : ℕ) (xs : Bytes)
      → IsPlain c
      → IsNoHeredoc c xs
      → IsCodeStill c xs
      → Body xs
      → Body (c ∷ xs)
  slash : (c : ℕ) (xs : Bytes) → c ≢ 47 → c ≢ 42 → Body (c ∷ xs) → Body (47 ∷ c ∷ xs)
  attribute : (xs : Bytes) → Body xs → Body (35 ∷ 91 ∷ xs)
  single_quoted : (s xs : Bytes) → Quoted 39 s → Body xs → Body (39 ∷ (s ++ xs))
  double_quoted : (s xs : Bytes) → Quoted 34 s → Body xs → Body (34 ∷ (s ++ xs))
  line_comment : (s xs : Bytes) → IsLine s → Body xs → Body (47 ∷ 47 ∷ (s ++ (10 ∷ xs)))
  hash_comment : (s xs : Bytes) → IsLine s → peek s ≢ 91 → Body xs → Body (35 ∷ (s ++ (10 ∷ xs)))
  block_comment : (s xs : Bytes) → Commented s → Body xs → Body (47 ∷ 42 ∷ (s ++ xs))
  group : (b xs : Bytes) → Body b → Body xs → Body (123 ∷ (b ++ (125 ∷ xs)))

-- The loop in state `st` within `d + 1` braces.
abbrev at : ScanState → ℕ → Cursor
at st d = record { skip = false; st = st; depth = pos (suc d) }

skip_single :
    (s rest : Bytes) (d i : ℕ)
    → is_i32 (pos (suc d)) ≡ true
    → Quoted 39 s
    → brace_loop (at scan_sq_string d) i (s ++ rest)
      ≡ brace_loop (at scan_normal d) (i + length s) rest
unfolding brace_loop
skip_single _ rest d i small close = ground arith
skip_single _ rest d i small (letter c s a b l q) =
    ground (arith, skip_single s rest d (suc i) small q)
skip_single _ rest d i small (escape c s a q) =
    ground (arith, skip_single s rest d (suc (suc i)) small q)

skip_double :
    (s rest : Bytes) (d i : ℕ)
    → is_i32 (pos (suc d)) ≡ true
    → Quoted 34 s
    → brace_loop (at scan_dq_string d) i (s ++ rest)
      ≡ brace_loop (at scan_normal d) (i + length s) rest
unfolding brace_loop
skip_double _ rest d i small close = ground arith
skip_double _ rest d i small (letter c s a b l q) =
    ground (arith, skip_double s rest d (suc i) small q)
skip_double _ rest d i small (escape c s a q) =
    ground (arith, skip_double s rest d (suc (suc i)) small q)

line-All : (s : Bytes) → IsLine s → All (λ c. c ≢ 10) s
line-All [] h = tt
line-All (c ∷ s) h = (h.0, line-All s h.2)

skip_line :
    (s rest : Bytes) (d i : ℕ)
    → is_i32 (pos (suc d)) ≡ true
    → All (λ c. c ≢ 10) s
    → brace_loop (at scan_line_comment d) i (s ++ (10 ∷ rest))
      ≡ brace_loop (at scan_normal d) (i + length s + 1) rest
unfolding brace_loop
skip_line [] rest d i small h = ground arith
skip_line (c ∷ s) rest d i small h = ground (arith, skip_line s rest d (suc i) small h.1)

Commented-peek : (s rest : Bytes) → Commented s → peek (s ++ rest) ≡ peek s
Commented-peek _ rest close_comment = refl
Commented-peek _ rest (letter_comment c s a q) = refl

skip_block :
    (s rest : Bytes) (d i : ℕ)
    → is_i32 (pos (suc d)) ≡ true
    → Commented s
    → brace_loop (at scan_block_comment d) i (s ++ rest)
      ≡ brace_loop (at scan_normal d) (i + length s) rest
unfolding brace_loop
skip_block _ rest d i small close_comment = ground arith
skip_block _ rest d i small (letter_comment c s a q) =
    ground (arith, Commented-peek s rest q, skip_block s rest d (suc i) small q)

length-bytes : (p q : Bytes) → length (p ++ q) ≡ length p + length q
length-bytes = length-append

at_offset :
    (d : ℕ) (rest : Bytes) {j k : ℕ}
    → j ≡ k
    → brace_loop (at scan_normal d) j rest ≡ brace_loop (at scan_normal d) k rest
at_offset d rest e = ap (λ (t : ℕ). brace_loop (at scan_normal d) t rest) e

line_peek : (s rest : Bytes) → peek s ≢ 91 → peek (s ++ (10 ∷ rest)) ≢ 91
line_peek [] rest h = omega arith
line_peek (c ∷ s) rest h = h

enter_hash :
    (t : Bytes) (d i : ℕ)
    → is_i32 (pos (suc d)) ≡ true
    → peek t ≢ 91
    → brace_loop (at scan_normal d) i (35 ∷ t) ≡ brace_loop (at scan_line_comment d) (suc i) t
unfolding brace_loop
enter_hash t d i small h = ground arith

enter_single :
    (t : Bytes) (d i : ℕ)
    → is_i32 (pos (suc d)) ≡ true
    → brace_loop (at scan_normal d) i (39 ∷ t) ≡ brace_loop (at scan_sq_string d) (suc i) t
unfolding brace_loop
enter_single t d i small = ground arith

enter_double :
    (t : Bytes) (d i : ℕ)
    → is_i32 (pos (suc d)) ≡ true
    → brace_loop (at scan_normal d) i (34 ∷ t) ≡ brace_loop (at scan_dq_string d) (suc i) t
unfolding brace_loop
enter_double t d i small = ground arith

enter_line :
    (t : Bytes) (d i : ℕ)
    → is_i32 (pos (suc d)) ≡ true
    → brace_loop (at scan_normal d) i (47 ∷ 47 ∷ t)
      ≡ brace_loop (at scan_line_comment d) (suc (suc i)) t
unfolding brace_loop
enter_line t d i small = ground arith

enter_block :
    (t : Bytes) (d i : ℕ)
    → is_i32 (pos (suc d)) ≡ true
    → brace_loop (at scan_normal d) i (47 ∷ 42 ∷ t)
      ≡ brace_loop (at scan_block_comment d) (suc (suc i)) t
unfolding brace_loop
enter_block t d i small = ground arith

enter_slash :
    (c : ℕ) (t : Bytes) (d i : ℕ)
    → is_i32 (pos (suc d)) ≡ true
    → c ≢ 47
    → c ≢ 42
    → brace_loop (at scan_normal d) i (47 ∷ c ∷ t) ≡ brace_loop (at scan_normal d) (suc i) (c ∷ t)
unfolding brace_loop
enter_slash c t d i small h a = ground arith

open_brace :
    (t : Bytes) (d i : ℕ)
    → is_i32 (pos (suc (suc d))) ≡ true
    → is_i32 (pos (suc d)) ≡ true
    → brace_loop (at scan_normal d) i (123 ∷ t) ≡ brace_loop (at scan_normal (suc d)) (suc i) t
unfolding brace_loop
open_brace t d i deeper small = ground arith

close_brace :
    (t : Bytes) (d i : ℕ)
    → is_i32 (pos (suc (suc d))) ≡ true
    → is_i32 (pos (suc d)) ≡ true
    → brace_loop (at scan_normal (suc d)) i (125 ∷ t) ≡ brace_loop (at scan_normal d) (suc i) t
unfolding brace_loop
close_brace t d i deeper small = ground arith

-- The loop passes a body and is as deep as before.
brace_loop-Body :
    (b rest : Bytes) (d i : ℕ)
    → d + length b + 1 < 2 ^ 31
    → Body b
    → brace_loop (at scan_normal d) i (b ++ rest)
      ≡ brace_loop (at scan_normal d) (i + length b) rest
unfolding brace_loop
brace_loop-Body _ rest d i small empty = ground arith
brace_loop-Body _ rest d i small (plain c xs h a p b) =
    ground
      (arith, is_i32-pos (suc d) (omega arith), brace_loop-Body xs rest d (suc i) (omega arith) b)
brace_loop-Body _ rest d i small (slash c xs h a b) =
    enter_slash c (xs ++ rest) d i (is_i32-pos (suc d) (omega arith)) h a
    ∙ brace_loop-Body (c ∷ xs) rest d (suc i) (omega arith) b
    ∙ at_offset d rest (omega arith)
brace_loop-Body _ rest d i small (attribute xs b) = ground (
  arith,
  is_i32-pos (suc d) (omega arith),
  brace_loop-Body xs rest d (suc (suc i)) (omega arith) b,
)
brace_loop-Body _ rest d i small (single_quoted s xs q b) = rw (append_assoc s xs rest) (
    enter_single (s ++ (xs ++ rest)) d i (is_i32-pos (suc d) (omega arith))
    ∙ skip_single s (xs ++ rest) d (suc i) (is_i32-pos (suc d) (omega arith)) q
    ∙ brace_loop-Body xs rest d _ (omega (arith, length-bytes s xs)) b
    ∙ at_offset d rest (omega (arith, length-bytes s xs)))
brace_loop-Body _ rest d i small (double_quoted s xs q b) = rw (append_assoc s xs rest) (
    enter_double (s ++ (xs ++ rest)) d i (is_i32-pos (suc d) (omega arith))
    ∙ skip_double s (xs ++ rest) d (suc i) (is_i32-pos (suc d) (omega arith)) q
    ∙ brace_loop-Body xs rest d _ (omega (arith, length-bytes s xs)) b
    ∙ at_offset d rest (omega (arith, length-bytes s xs)))
brace_loop-Body _ rest d i small (line_comment s xs h b) = rw (append_assoc s (10 ∷ xs) rest) (
    enter_line (s ++ (10 ∷ (xs ++ rest))) d i (is_i32-pos (suc d) (omega arith))
    ∙ skip_line s (xs ++ rest) d (suc (suc i)) (is_i32-pos (suc d) (omega arith)) (line-All s h)
    ∙ brace_loop-Body xs rest d _ (omega (arith, length-bytes s (10 ∷ xs))) b
    ∙ at_offset d rest (omega (arith, length-bytes s (10 ∷ xs))))
brace_loop-Body _ rest d i small (hash_comment s xs h more b) = rw (append_assoc s (10 ∷ xs) rest) (
    enter_hash (s ++ (10 ∷ (xs ++ rest))) d i (is_i32-pos (suc d) (omega arith))
      (line_peek s (xs ++ rest) more)
    ∙ skip_line s (xs ++ rest) d (suc i) (is_i32-pos (suc d) (omega arith)) (line-All s h)
    ∙ brace_loop-Body xs rest d _ (omega (arith, length-bytes s (10 ∷ xs))) b
    ∙ at_offset d rest (omega (arith, length-bytes s (10 ∷ xs))))
brace_loop-Body _ rest d i small (block_comment s xs q b) = rw (append_assoc s xs rest) (
    enter_block (s ++ (xs ++ rest)) d i (is_i32-pos (suc d) (omega arith))
    ∙ skip_block s (xs ++ rest) d (suc (suc i)) (is_i32-pos (suc d) (omega arith)) q
    ∙ brace_loop-Body xs rest d _ (omega (arith, length-bytes s xs)) b
    ∙ at_offset d rest (omega (arith, length-bytes s xs)))
brace_loop-Body _ rest d i small (group b xs inner outer) = rw (append_assoc b (125 ∷ xs) rest) (
    open_brace (b ++ (125 ∷ (xs ++ rest))) d i
      (is_i32-pos _ (omega (arith, length-bytes b (125 ∷ xs)))) (is_i32-pos _ (omega arith))
    ∙ brace_loop-Body b (125 ∷ (xs ++ rest)) (suc d) (suc i)
        (omega (arith, length-bytes b (125 ∷ xs))) inner
    ∙ close_brace (xs ++ rest) d _ (is_i32-pos _ (omega (arith, length-bytes b (125 ∷ xs))))
        (is_i32-pos _ (omega arith))
    ∙ brace_loop-Body xs rest d _ (omega (arith, length-bytes b (125 ∷ xs))) outer
    ∙ at_offset d rest (omega (arith, length-bytes b (125 ∷ xs))))

drop-length : (p s : Bytes) → drop (length p) (p ++ s) ≡ s
drop-length [] s = refl
drop-length (c ∷ p) s = drop-length p s

-- The brace before a body of fewer than 2 ^ 31 - 1 bytes, which is code without heredocs,
-- backticks, closing tags and code within double-quoted strings, whose braces outside strings and
-- comments come in pairs, that is followed by a closing brace is matched by that brace, wherever in
-- the source the group stands and whatever comes behind it: the result is the offset behind the
-- closing brace, `depth` stays in the range of an int, and braces in strings and comments do not
-- count.
pub scan_brace_match-Body :
    (before b behind : Bytes)
    → Body b
    → length b < 2 ^ 31 - 1
    → scan_brace_match (before ++ (123 ∷ (b ++ (125 ∷ behind)))) (length before)
      ≡ done (length before + length b + 2)
unfolding scan_brace_match
scan_brace_match-Body before b behind body small =
    let whole = before ++ (123 ∷ (b ++ (125 ∷ behind))) in
    let inside : leb (length whole) (length before) ≡ false =
      ground (arith, length-bytes before (123 ∷ (b ++ (125 ∷ behind)))) in
    rw
      (
        inside,
        drop-length before (123 ∷ (b ++ (125 ∷ behind))),
        is_i32-pos 1 (omega arith),
        brace_loop-Body b (125 ∷ behind) 0 (suc (length before)) (omega arith) body,
        is_i32-pos 0 (omega arith),
      )
      (ap done (omega arith))
