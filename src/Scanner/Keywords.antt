-- ===== src/Scanner/Keywords.antt =====
-- bridge_closure.c: `scan_find_keyword`, a whole token outside strings, comments and heredocs.
pub mod Tokens
use php_parallax.Prelude.{
  ℕ, zero, suc, ◌+◌, Bool, true, false, [], ◌∷◌, Option, none, some, if◌then◌else◌, ◌==◌, leb, not,
  ◌&&◌, ◌||◌, length, drop,
}
use php_parallax.Prelude.Int.{pos}
use php_parallax.Value.{Bytes}
use php_parallax.Scanner.Rounds.{ScanState, scan_normal, peek, Cursor, scan_round, is_code}

unfoldable pub is_ident_byte : ℕ → Bool
is_ident_byte c =
    (leb 97 c && leb c 122) || ((leb 65 c && leb c 90) || ((leb 48 c && leb c 57) || (c == 95)))

-- `memcmp` of as many bytes as `word` has, where so many are left.
unfoldable pub starts : Bytes → Bytes → Bool
starts [] s = true
starts (a ∷ word) [] = false
starts (a ∷ word) (c ∷ s) = (a == c) && starts word s

-- The number of spaces and tabs at the front.
unfoldable pub blanks : Bytes → ℕ
blanks [] = 0
blanks (c ∷ s) = let more = suc (blanks s) in if (c == 32) || (c == 9) then more else 0

-- The identifier bytes at the front, at most `room` of them.
unfoldable pub label_of : ℕ → Bytes → Bytes
label_of zero s = []
label_of (suc room) [] = []
label_of (suc room) (c ∷ s) = let rest = label_of room s in if is_ident_byte c then c ∷ rest else []

-- From `j` to behind the closing label, or to the end of the source where there is none.
unfoldable pub label_end : Bytes → Bytes → ℕ
label_end label [] = 0
label_end label (c ∷ s) =
    let k = drop (blanks s) s in
    let more = suc (label_end label s) in
    if (c == 10) && (starts label k && not (is_ident_byte (peek (drop (length label) k))))
    then suc (blanks s + length label)
    else more

-- How far `j` goes from the byte behind `<<<`.
unfoldable pub heredoc_length : Bytes → ℕ
unfolding is_ident_byte starts blanks label_of label_end
heredoc_length s =
    let s₁ = drop (blanks s) s in
    let quote = if peek s₁ == 39 then 1 else 0 in
    let s₂ = drop quote s₁ in
    let label = label_of 63 s₂ in
    let s₃ = drop (length label) s₂ in
    let unquote = if (quote == 1) && (peek s₃ == 39) then 1 else 0 in
    blanks s + quote + length label + unquote + label_end label (drop unquote s₃)

-- The keyword test at a byte; `prev` is the byte before, NUL where there is none.
unfoldable pub at_token : Bytes → ℕ → Bytes → Bool
unfolding is_ident_byte starts
at_token keyword prev s =
    starts keyword s
    && (not (is_ident_byte prev) && not (is_ident_byte (peek (drop (length keyword) s))))

-- The loop; the list starts at offset `i`, and its first `skip` bytes are passed over.
unfoldable pub find_loop : Bytes → ℕ → ScanState → ℕ → ℕ → Bytes → Option ℕ
unfolding scan_round at_token heredoc_length
find_loop keyword skip st prev i [] = none
find_loop keyword (suc skip) st prev i (c ∷ rest) = find_loop keyword skip st c (suc i) rest
find_loop keyword zero st prev i (c ∷ rest) =
    let next = scan_round (record { skip = false; st = st; depth = pos 0 }) st c (peek rest) in
    let still = is_code false st && is_code false next.st in
    let heredoc = still && ((c == 60) && starts (60 ∷ 60 ∷ []) rest) in
    let jump = if heredoc then 3 + heredoc_length (drop 2 rest) else if next.skip then 1 else 0 in
    let more = find_loop keyword jump next.st c (suc i) rest in
    if still && (not heredoc && at_token keyword prev (c ∷ rest)) then some i else more

-- `src->data[i - 1]`, or NUL at the start.
abbrev pub byte_before : ℕ → Bytes → ℕ
byte_before zero src = 0
byte_before (suc i) src = peek (drop i src)

-- `none` is -1.
unfoldable pub scan_find_keyword : Bytes → ℕ → Bytes → Option ℕ
unfolding find_loop
scan_find_keyword src from keyword =
    find_loop keyword 0 scan_normal (byte_before from src) from (drop from src)
