-- ===== src/Scanner/Extract/Spans.antt =====
-- Where `closure_span` starts and ends, by the parts of the source.
use php_parallax.Prelude.{Outcome, done, refused, fault, stuck}
use php_parallax.Prelude.Int.{is_i32}
use php_parallax.Prelude.{
  ap₂, drop-all, ℕ, zero, suc, ◌+◌, ◌-◌, ◌≤◌, ◌≡◌, ◌≢◌, refl, sym, ap, ◌∙◌, subst, arith, true,
  false, [], ◌∷◌, ◌++◌, Option, none, some, if◌then◌else◌, ◌==◌, ltb, leb, ◌&&◌, length,
  length-append, append_assoc, take, drop, take-append-drop, length-take_le, drop-append, All, ◌⊎◌,
  inl, inr, Bool-cases, leb→le, and_true,
}
use php_parallax.Prelude.Int.{ℤ, is_zero}
use php_parallax.Value.{Bytes}
use php_parallax.Scanner.{offset_of_line, scan_brace_match}
use php_parallax.Scanner.Rounds.{Cursor, peek, is_code}
use php_parallax.Scanner.Keywords.{starts, scan_find_keyword}
use php_parallax.Scanner.Keywords.Tokens.{scan_find_keyword-Token}
use php_parallax.Scanner.Matches.{scan_brace_match-braces}
use php_parallax.Scanner.Extract.{
  ExtractError, Extract, found, failed, undefined, ◌>>=◌, or_fail, or_failed, function_word,
  static_word, paren_round, open_loop, at_start, back_over_blanks, static_ends_at, walk_left,
  closure_span,
}

-- The brace that the search finds stands in the list.
pub open_loop-brace :
    (cur : Cursor) (i : ℕ) (s : Bytes) (k : ℕ)
    → open_loop cur i s ≡ done k
    → (h : Bytes) × (r : Bytes) × (s ≡ h ++ (123 ∷ r)) × (k ≡ i + length h)
unfolding open_loop
open_loop-brace cur i [] k h = absurd (cc h)
open_loop-brace cur i (c ∷ rest) k h =
    let next = (if cur.skip then record cur { skip = false } else paren_round cur c (peek rest)) in
    elim (Bool-cases (is_i32 next.depth)) [
      | inr over ↦ absurd (cc (rw over at h))
      | inl fits ↦
          elim (Bool-cases (is_code cur.skip cur.st && ((c == 123) && is_zero next.depth))) [
            | inl here ↦
                let same : done i ≡ done k = rw (fits, here) at h in
                let e : i ≡ k = cc in
                ([], rest, ap (λ (t : ℕ). t ∷ rest) (ground (arith, here)), omega (arith, e))
            | inr on ↦
                let (p, r, whole, e) = open_loop-brace next (suc i) rest k (rw (fits, on) at h) in
                (c ∷ p, r, ap (λ t. c ∷ t) whole, omega (arith, e))
          ]
    ]

pub back_over_blanks-le : (src : Bytes) (line_off s : ℕ) → back_over_blanks src line_off s ≤ s
unfolding back_over_blanks
back_over_blanks-le src line_off zero = omega arith
back_over_blanks-le src line_off (suc s) = ground (arith, back_over_blanks-le src line_off s)

static_ends_at-starts :
    (src : Bytes) (line_off s : ℕ)
    → static_ends_at src line_off s ≡ true
    → (line_off + 6 ≤ s) × (starts static_word (drop (s - 5) src) ≡ true)
unfolding static_ends_at
static_ends_at-starts src line_off s h = elim (Bool-cases (leb (line_off + 6) s)) [
  | inr less ↦ absurd (cc (rw less at h))
  | inl fits ↦ elim (Bool-cases (starts static_word (drop (s - 5) src))) [
    | inl here ↦ (leb→le (line_off + 6) s fits, here)
    | inr other ↦ absurd (cc (rw (fits, other) at h))
  ]
]

-- The walk ends on the line and not behind its start, and where it moved, at `static`.
pub walk_left-static :
    (fuel : ℕ) (src : Bytes) (line_off start : ℕ)
    → line_off ≤ start
    → (line_off ≤ walk_left fuel src line_off start)
      × (walk_left fuel src line_off start ≤ start)
      × ((walk_left fuel src line_off start ≡ start)
          ⊎ (starts static_word (drop (walk_left fuel src line_off start) src) ≡ true))
unfolding walk_left
walk_left-static zero src line_off start h = (h, omega arith, inl refl)
walk_left-static (suc fuel) src line_off start h =
    let s = back_over_blanks src line_off (start - 1) in
    elim (Bool-cases (ltb line_off start && static_ends_at src line_off s)) [
      | inr stop ↦ rw stop (h, omega arith, inl refl)
      | inl on ↦
          let (less, stands) = and_true (ltb line_off start) _ on in
          let (fits, here) = static_ends_at-starts src line_off s stands in
          let back : s ≤ start - 1 = back_over_blanks-le src line_off (start - 1) in
          let (low, high, moved) = walk_left-static fuel src line_off (s - 5) (omega arith) in
          rw on (
            low,
            omega (arith, high, back),
            inr (elim moved [
              | inl same ↦ subst (λ (t : ℕ). starts static_word (drop t src) ≡ true) (sym same) here
              | inr further ↦ further
            ]),
          )
    ]

-- A text that starts with `word`, and has a byte that `word` does not have behind `h`.
past_word :
    (word q h r : Bytes)
    → All (λ c. c ≢ 123) word
    → word ++ q ≡ h ++ (123 ∷ r)
    → (header : Bytes) × (h ≡ word ++ header) × (q ≡ header ++ (123 ∷ r))
past_word [] q h r other e = (h, refl, e)
past_word (c ∷ word) q [] r other e = absurd (other.0 (ap peek e))
past_word (c ∷ word) q (d ∷ h) r other e =
    let (header, whole, rest) = past_word word q h r other.1 (ap (drop 1) e) in
    (header, ap₂ (λ (x : ℕ) t. x ∷ t) (sym (ap peek e)) whole, rest)

-- The parts of the source around the text of a closure.
pub record Parts (src : Bytes) (line_off start body_end : ℕ) : Type 0 where
  pub front : Bytes
  pub head : Bytes
  pub header : Bytes
  pub body : Bytes
  pub behind : Bytes
  pub whole :
      src ≡ front ++ (head ++ (function_word ++ (header ++ (123 ∷ (body ++ (125 ∷ behind))))))
  pub on_line : line_off ≤ start
  pub starts_at : length front ≡ start
  pub ends_at : body_end ≡ start + length head + 8 + length header + length body + 2
  pub modifier : (head ≡ []) ⊎ (starts static_word (drop start src) ≡ true)

cancel : (xs ys zs ws : Bytes) → xs ++ ys ≡ zs ++ ws → length xs ≡ length zs → ys ≡ ws
cancel xs ys zs ws e long =
    sym (drop-append xs ys)
    ∙ ap (λ t. drop (length xs) t) e
    ∙ subst (λ (n : ℕ). drop n (zs ++ ws) ≡ ws) (sym long) (drop-append zs ws)

pub length-bytes : (p q : Bytes) → length (p ++ q) ≡ length p + length q
length-bytes = length-append

pub or_fail-found :
    {A : Type 0} (r : Option A) (e : ExtractError) {a : A} → or_fail r e ≡ found a → r ≡ some a
or_fail-found none e h = cc
or_fail-found (some a) e h = cc

or_failed-found :
    {A : Type 0} (r : Outcome A) (e : ExtractError) {a : A} → or_failed r e ≡ found a → r ≡ done a
or_failed-found (done a) e h = cc
or_failed-found refused e h = cc
or_failed-found fault e h = cc
or_failed-found stuck e h = cc

pub >>=-eq-found :
    {A B : Type 0} (m : Extract A) (f : A → Extract B) {b : B}
    → (m >>= f) ≡ found b
    → (a : A) × (m ≡ found a) × (f a ≡ found b)
>>=-eq-found (found a) f h = (a, refl, h)
>>=-eq-found (failed e) f h = cc
>>=-eq-found undefined f h = cc

-- What the four searches found, put together.
join-Parts :
    (src : Bytes) (line_off fn_off brace_open body_end start : ℕ)
    → scan_find_keyword src line_off function_word ≡ some fn_off
    → open_loop at_start fn_off (drop fn_off src) ≡ done brace_open
    → scan_brace_match src brace_open ≡ done body_end
    → start ≤ fn_off
    → line_off ≤ start
    → (start ≡ fn_off) ⊎ (starts static_word (drop start src) ≡ true)
    → Parts src line_off start body_end
join-Parts src line_off fn_off brace_open body_end start keyword brace matched le low moved =
    let (p, q, t, at_p, _) = scan_find_keyword-Token src line_off function_word fn_off keyword in
    let (h, r, from_fn, at_h) =
      open_loop-brace at_start fn_off (drop fn_off src) brace_open brace in
    let (front', b, behind, from_brace, long', to_end) =
      scan_brace_match-braces src brace_open body_end matched in
    let rest : drop fn_off src ≡ function_word ++ q =
      ap (λ s. drop fn_off s) t.whole
      ∙ subst (λ (n : ℕ). drop n (p ++ (function_word ++ q)) ≡ function_word ++ q) (sym at_p)
          (drop-append p (function_word ++ q)) in
    let (header, begins, q_parts) =
      past_word function_word q h r (omega arith) (sym rest ∙ from_fn) in
    let inner : 123 ∷ r ≡ 123 ∷ (b ++ (125 ∷ behind)) =
      cancel (p ++ h) (123 ∷ r) front' (123 ∷ (b ++ (125 ∷ behind)))
        (append_assoc p h (123 ∷ r)
          ∙ ap (λ s. p ++ s) (sym from_fn ∙ rest)
          ∙ sym t.whole
          ∙ from_brace)
        (omega (arith, length-bytes p h, long', at_h, at_p)) in
    let p_parts : take start p ++ drop start p ≡ p = take-append-drop start p in
    let front_long : length (take start p) ≡ start =
      length-take_le start p (omega (arith, le, at_p)) in
    record {
      front = take start p;
      head = drop start p;
      header = header;
      body = b;
      behind = behind;
      whole =
          t.whole
          ∙ ap (λ s. s ++ (function_word ++ q)) (sym p_parts)
          ∙ append_assoc (take start p) (drop start p) (function_word ++ q)
          ∙ ap (λ s. take start p ++ (drop start p ++ (function_word ++ s)))
              (q_parts ∙ ap (λ s. header ++ s) inner);
      on_line = low;
      starts_at = front_long;
      ends_at = omega (
        arith,
        to_end,
        at_h,
        at_p,
        front_long,
        ap length p_parts,
        ap length begins,
        length-bytes (take start p) (drop start p),
        length-bytes function_word header,
      );
      modifier = elim moved [
        | inl same ↦ inl (drop-all start p (omega (arith, same, at_p)))
        | inr static ↦ inr static
      ];
    }

-- The offset that `walk_left` returns, with the others.
walked-Parts :
    (src : Bytes) (line_off fn_off brace_open last : ℕ) (span : ℕ × ℕ)
    → scan_find_keyword src line_off function_word ≡ some fn_off
    → open_loop at_start fn_off (drop fn_off src) ≡ done brace_open
    → scan_brace_match src brace_open ≡ done last
    → found (walk_left fn_off src line_off fn_off, last) ≡ found span
    → Parts src line_off span.0 span.1
walked-Parts src line_off fn_off brace_open last span keyword brace matched e =
    let (_, _, _, _, behind) = scan_find_keyword-Token src line_off function_word fn_off keyword in
    let (low, high, moved) = walk_left-static fn_off src line_off fn_off behind in
    let same : (walk_left fn_off src line_off fn_off, last) ≡ span = cc in
    subst (λ (x : ℕ × ℕ). Parts src line_off x.0 x.1) same
      (join-Parts src line_off fn_off brace_open last (walk_left fn_off src line_off fn_off) keyword
        brace matched high low moved)

pub closure_span-Parts :
    (src : Bytes) (line_start : ℤ) (start body_end : ℕ)
    → closure_span src line_start ≡ found (start, body_end)
    → (line_off : ℕ) × (offset_of_line src line_start ≡ some line_off)
      × Parts src line_off start body_end
unfolding closure_span
closure_span-Parts src line_start start body_end h =
    let (line_off, on_line, h₁) = >>=-eq-found (or_fail (offset_of_line src line_start) _) _ h in
    let (fn_off, keyword, h₂) =
      >>=-eq-found (or_fail (scan_find_keyword src line_off function_word) _) _ h₁ in
    let (brace_open, brace, h₃) =
      >>=-eq-found (or_failed (open_loop at_start fn_off (drop fn_off src)) _) _ h₂ in
    let (last, matched, h₄) = >>=-eq-found (or_failed (scan_brace_match src brace_open) _) _ h₃ in
    (
      line_off,
      or_fail-found _ _ on_line,
      walked-Parts src line_off fn_off brace_open last (start, body_end) (or_fail-found _ _ keyword)
          (or_failed-found _ _ brace) (or_failed-found _ _ matched) h₄,
    )
