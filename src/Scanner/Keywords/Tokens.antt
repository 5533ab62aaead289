-- ===== src/Scanner/Keywords/Tokens.antt =====
-- What `scan_find_keyword` finds is a whole token.
use php_parallax.Prelude.{
  and_true, drop-all, ℕ, zero, suc, ◌+◌, ◌≤◌, ◌<◌, ◌≡◌, refl, sym, ap, ◌∙◌, arith, Bool, true,
  false, [], ◌∷◌, ◌++◌, some, if◌then◌else◌, ◌==◌, leb, not, ◌&&◌, length, length-append,
  append_assoc, drop, leb→le, Bool-cases, inl, inr,
}
use php_parallax.Prelude.Int.{pos}
use php_parallax.Value.{Bytes}
use php_parallax.Scanner.Rounds.{ScanState, scan_normal, peek, scan_round, is_code}
use php_parallax.Scanner.Keywords.{
  is_ident_byte, starts, heredoc_length, at_token, find_loop, byte_before, scan_find_keyword,
}

-- The last byte of a text, or `prev` where it is empty.
abbrev pub last_byte : ℕ → Bytes → ℕ
last_byte prev [] = prev
last_byte prev (c ∷ s) = last_byte c s

-- The keyword stands in `s` behind `p`, with no identifier byte on either side.
pub record Token (keyword : Bytes) (prev : ℕ) (s p q : Bytes) : Type 0 where
  pub whole : s ≡ p ++ (keyword ++ q)
  pub left_edge : is_ident_byte (last_byte prev p) ≡ false
  pub right_edge : is_ident_byte (peek q) ≡ false

starts-append : (word s : Bytes) → starts word s ≡ true → s ≡ word ++ drop (length word) s
unfolding starts
starts-append [] s h = refl
starts-append (a ∷ word) [] h = absurd (cc h)
starts-append (a ∷ word) (c ∷ s) h = ground (arith, starts-append word s)

not-true : (a : Bool) → not a ≡ true → a ≡ false
not-true true h = absurd (cc h)
not-true false h = refl

at_token-Token :
    (keyword : Bytes) (prev : ℕ) (s : Bytes)
    → at_token keyword prev s ≡ true
    → Token keyword prev s [] (drop (length keyword) s)
unfolding at_token
at_token-Token keyword prev s h =
    let (found, edges) = and_true (starts keyword s) _ h in
    let (left, right) = and_true (not (is_ident_byte prev)) _ edges in
    record {
      whole = starts-append keyword s found;
      left_edge = not-true _ left;
      right_edge = not-true _ right;
    }

-- A token further on.
behind :
    (keyword : Bytes) (prev c i k : ℕ) (s : Bytes)
    → (p : Bytes) × (q : Bytes) × Token keyword c s p q × (k ≡ suc i + length p)
    → (p : Bytes) × (q : Bytes) × Token keyword prev (c ∷ s) p q × (k ≡ i + length p)
behind keyword prev c i k s (p, q, t, e) = (
  c ∷ p,
  q,
  record { whole = ap (λ r. c ∷ r) t.whole; left_edge = t.left_edge; right_edge = t.right_edge },
  omega (arith, e),
)

find_loop-Token :
    (keyword : Bytes) (skip : ℕ) (st : ScanState) (prev i : ℕ) (s : Bytes) (k : ℕ)
    → find_loop keyword skip st prev i s ≡ some k
    → (p : Bytes) × (q : Bytes) × Token keyword prev s p q × (k ≡ i + length p)
unfolding find_loop
find_loop-Token keyword skip st prev i [] k h = absurd (cc h)
find_loop-Token keyword (suc skip) st prev i (c ∷ rest) k h =
    behind keyword prev c i k rest (find_loop-Token keyword skip st c (suc i) rest k h)
find_loop-Token keyword zero st prev i (c ∷ rest) k h =
    let next = scan_round (record { skip = false; st = st; depth = pos 0 }) st c (peek rest) in
    let still = is_code false st && is_code false next.st in
    let heredoc = still && ((c == 60) && starts (60 ∷ 60 ∷ []) rest) in
    let jump : ℕ =
      (if heredoc then 3 + heredoc_length (drop 2 rest) else if next.skip then 1 else 0) in
    elim (Bool-cases (still && (not heredoc && at_token keyword prev (c ∷ rest)))) [
      | inl here ↦
          let (_, found) = and_true still _ here in
          let (_, token) = and_true (not heredoc) _ found in
          let same : some i ≡ some k = rw here at h in
          let e : i ≡ k = cc in
          (
            [],
            drop (length keyword) (c ∷ rest),
            at_token-Token keyword prev (c ∷ rest) token,
            omega (arith, e),
          )
      | inr on ↦
          behind keyword prev c i k rest
            (find_loop-Token keyword jump next.st c (suc i) rest k (rw on at h))
    ]

last_byte-append : (z : ℕ) (xs ys : Bytes) → last_byte z (xs ++ ys) ≡ last_byte (last_byte z xs) ys
last_byte-append z [] ys = refl
last_byte-append z (x ∷ xs) ys = last_byte-append x xs ys

last_byte_of_some : (y z : ℕ) (xs : Bytes) → 0 < length xs → last_byte y xs ≡ last_byte z xs
last_byte_of_some y z [] h = absurd (omega arith)
last_byte_of_some y z (x ∷ xs) h = refl

length-bytes : (p q : Bytes) → length (p ++ q) ≡ length p + length q
length-bytes = length-append

-- The parts of `src` around offset `from`, with the byte before it.
split_at :
    (from : ℕ) (src : Bytes)
    → from ≤ length src
    → (front : Bytes) × (src ≡ front ++ drop from src)
      × (length front ≡ from)
      × (last_byte 0 front ≡ byte_before from src)
split_at zero src h = ([], refl, refl, refl)
split_at (suc from) [] h = absurd (omega arith)
split_at (suc zero) (c ∷ src) h = (c ∷ [], refl, refl, refl)
split_at (suc (suc from)) (c ∷ src) h =
    let (front, whole, long, last) = split_at (suc from) src (omega arith) in
    (
      c ∷ front,
      ap (λ r. c ∷ r) whole,
      ap suc long,
      last_byte_of_some c 0 front (omega (arith, long)) ∙ last,
    )

-- Where `scan_find_keyword` finds an offset, it is at or behind `from`, the keyword stands there in
-- the source, and the bytes on either side of it, where there are such, are no identifier bytes.
pub scan_find_keyword-Token :
    (src : Bytes) (from : ℕ) (keyword : Bytes) (k : ℕ)
    → scan_find_keyword src from keyword ≡ some k
    → (p : Bytes) × (q : Bytes) × Token keyword 0 src p q × (k ≡ length p) × (from ≤ k)
unfolding scan_find_keyword
scan_find_keyword-Token src from keyword k h = elim (Bool-cases (leb from (length src))) [
  | inr past ↦
      let none_left : drop from src ≡ [] = drop-all from src (ground (arith, past)) in
      absurd (cc (rw none_left at h))
  | inl within ↦
      let (front, whole, long, last) = split_at from src (leb→le from (length src) within) in
      let (p, q, t, e) =
        find_loop-Token keyword 0 scan_normal (byte_before from src) from (drop from src) k h in
      let edge : last_byte 0 (front ++ p) ≡ last_byte (byte_before from src) p =
        last_byte-append 0 front p ∙ ap (λ (z : ℕ). last_byte z p) last in
      (
        front ++ p,
        q,
        record {
          whole = whole ∙ ap (λ r. front ++ r) t.whole ∙ sym (append_assoc front p (keyword ++ q));
          left_edge = ap is_ident_byte edge ∙ t.left_edge;
          right_edge = t.right_edge;
        },
        omega (arith, e, long, length-bytes front p),
        omega (arith, e),
      )
]
