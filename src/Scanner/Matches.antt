-- ===== src/Scanner/Matches.antt =====
-- What `scan_brace_match` finds, on any source.
use php_parallax.Prelude.{
  sym, take, take-append-drop, length-take_le, ℕ, suc, ◌+◌, ◌≡◌, ap, ◌∙◌, arith, false, [], ◌∷◌,
  ◌++◌, done, if◌then◌else◌, ◌==◌, leb, ◌&&◌, length, drop, Bool-cases, inl, inr,
}
use php_parallax.Prelude.Int.{is_zero, is_i32}
use php_parallax.Value.{Bytes}
use php_parallax.Scanner.{brace_loop, scan_brace_match}
use php_parallax.Scanner.Rounds.{Cursor, peek, scan_round, is_code}

brace_loop-match :
    (cur : Cursor) (i : ℕ) (s : Bytes) (k : ℕ)
    → brace_loop cur i s ≡ done k
    → (p : Bytes) × (q : Bytes) × (s ≡ p ++ (125 ∷ q)) × (k ≡ i + length p + 1)
unfolding brace_loop
brace_loop-match cur i [] k h = absurd (cc h)
brace_loop-match cur i (c ∷ rest) k h =
    let next =
      (if cur.skip then record cur { skip = false } else scan_round cur cur.st c (peek rest)) in
    elim (Bool-cases (is_i32 next.depth)) [
      | inr over ↦ absurd (cc (rw over at h))
      | inl fits ↦
          elim (Bool-cases (is_code cur.skip cur.st && ((c == 125) && is_zero next.depth))) [
            | inl here ↦
                let same : done (suc i) ≡ done k = rw (fits, here) at h in
                let e : suc i ≡ k = cc in
                ([], rest, ap (λ (t : ℕ). t ∷ rest) (ground (arith, here)), omega (arith, e))
            | inr on ↦
                let (p, q, whole, e) = brace_loop-match next (suc i) rest k (rw (fits, on) at h) in
                (c ∷ p, q, ap (λ r. c ∷ r) whole, omega (arith, e))
          ]
    ]

-- Behind an opening brace, the match is not that brace.
after_brace : (s p q : Bytes) → peek s ≡ 123 → s ≡ p ++ (125 ∷ q) → (r : Bytes) × (p ≡ 123 ∷ r)
after_brace s [] q first whole = absurd (omega (arith, first, ap peek whole))
after_brace s (c ∷ r) q first whole =
    (r, ap (λ (t : ℕ). t ∷ r) (omega (arith, first, ap peek whole)))

-- Where `scan_brace_match` finds an offset, the source has an opening brace at `from`, and the
-- offset is the one behind a closing brace that stands after it.
pub scan_brace_match-braces :
    (src : Bytes) (from k : ℕ)
    → scan_brace_match src from ≡ done k
    → (front : Bytes) × (b : Bytes) × (behind : Bytes) × (src
        ≡ front ++ (123 ∷ (b ++ (125 ∷ behind))))
      × (length front ≡ from)
      × (k ≡ from + length b + 2)
unfolding scan_brace_match
scan_brace_match-braces src from k h = elim (Bool-cases (leb (length src) from)) [
  | inl past ↦ absurd (cc (rw past at h))
  | inr within ↦ elim (Bool-cases (peek (drop from src) == 123)) [
    | inr other ↦ absurd (cc (rw (within, other) at h))
    | inl brace ↦
        let long : length (take from src) ≡ from =
          length-take_le from src (ground (arith, within)) in
        let (p, q, rest, e) = brace_loop-match _ from (drop from src) k (rw (within, brace) at h) in
        let (b, inner) = after_brace (drop from src) p q (ground (arith, brace)) rest in
        (
          take from src,
          b,
          q,
          sym (take-append-drop from src)
              ∙ ap (λ r. take from src ++ r) (rest ∙ ap (λ r. r ++ (125 ∷ q)) inner),
          long,
          omega (arith, e, ap length inner),
        )
  ]
]
