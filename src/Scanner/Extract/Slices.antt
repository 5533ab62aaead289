-- ===== src/Scanner/Extract/Slices.antt =====
-- The text that `extract_closure_text` cuts out is a slice of the file, from `function` or a
-- `static` before it to the closing brace.
use php_parallax.Prelude.{
  ℕ, ◌-◌, ◌≤◌, ◌≡◌, sym, ap, ◌∙◌, subst, arith, true, [], ◌∷◌, ◌++◌, Option, some, length,
  append_assoc, take, drop, take-append, drop-append, ◌⊎◌, Bool-cases, inl, inr,
}
use php_parallax.Prelude.Int.{ℤ}
use php_parallax.Value.{Bytes}
use php_parallax.Scanner.{offset_of_line}
use php_parallax.Scanner.Keywords.{starts}
use php_parallax.Scanner.Files.{Stream, IsWhole, read_file_all, read_file_all-IsWhole}
use php_parallax.Scanner.Extract.{
  found, or_fail, function_word, static_word, closure_span, no_source, extract_closure_text,
}
use php_parallax.Scanner.Extract.Spans.{
  Parts, closure_span-Parts, or_fail-found, >>=-eq-found, length-bytes,
}

-- `text` stands in `src` behind `front`, which reaches the line that starts at `line_off`, and is
-- `head`, then `function`, then `header`, then `body` in braces. The head is empty, or the text
-- and what is behind it start with `static`.
pub record ClosureText (src text : Bytes) (line_off : ℕ) : Type 0 where
  pub front : Bytes
  pub behind : Bytes
  pub head : Bytes
  pub header : Bytes
  pub body : Bytes
  pub whole : src ≡ front ++ (text ++ behind)
  pub on_line : line_off ≤ length front
  pub text_parts : text ≡ head ++ (function_word ++ (header ++ (123 ∷ (body ++ (125 ∷ [])))))
  pub modifier : (head ≡ []) ⊎ (starts static_word (text ++ behind) ≡ true)

-- The same bytes, bracketed around the text.
regroup :
    (head header body behind : Bytes)
    → (head ++ (function_word ++ (header ++ (123 ∷ (body ++ (125 ∷ [])))))) ++ behind
      ≡ head ++ (function_word ++ (header ++ (123 ∷ (body ++ (125 ∷ behind)))))
regroup head header body behind =
    append_assoc head (function_word ++ (header ++ (123 ∷ (body ++ (125 ∷ []))))) behind
    ∙ ap (λ s. head ++ (function_word ++ s))
        (append_assoc header (123 ∷ (body ++ (125 ∷ []))) behind
          ∙ ap (λ s. header ++ (123 ∷ s)) (append_assoc body (125 ∷ []) behind))

slice-ClosureText :
    (src : Bytes) (line_off start body_end : ℕ)
    → Parts src line_off start body_end
    → ClosureText src (take (body_end - start) (drop start src)) line_off
slice-ClosureText src line_off start body_end p =
    let tail = function_word ++ (p.header ++ (123 ∷ (p.body ++ (125 ∷ [])))) in
    let text = p.head ++ tail in
    let src_parts : src ≡ p.front ++ (text ++ p.behind) =
      p.whole ∙ ap (λ s. p.front ++ s) (sym (regroup p.head p.header p.body p.behind)) in
    let from_start : drop start src ≡ text ++ p.behind =
      ap (λ s. drop start s) src_parts
      ∙ subst (λ (n : ℕ). drop n (p.front ++ (text ++ p.behind)) ≡ text ++ p.behind) p.starts_at
          (drop-append p.front (text ++ p.behind)) in
    let long : body_end - start ≡ length text = omega (
      arith,
      p.ends_at,
      length-bytes p.head tail,
      length-bytes p.header (123 ∷ (p.body ++ (125 ∷ []))),
      length-bytes p.body (125 ∷ []),
    ) in
    let cut : take (body_end - start) (drop start src) ≡ text =
      ap (λ (n : ℕ). take n (drop start src)) long
      ∙ ap (λ s. take (length text) s) from_start
      ∙ take-append text p.behind in
    record {
      front = p.front;
      behind = p.behind;
      head = p.head;
      header = p.header;
      body = p.body;
      whole = src_parts ∙ ap (λ s. p.front ++ (s ++ p.behind)) (sym cut);
      on_line = omega (arith, p.on_line, p.starts_at);
      text_parts = cut;
      modifier = elim p.modifier [
        | inl none_there ↦ inl none_there
        | inr static ↦
            inr (
              ap (λ s. starts static_word s) (ap (λ s. s ++ p.behind) cut ∙ sym from_start)
              ∙ static)
      ];
    }

found-injective : (a b : Bytes) → found a ≡ found b → a ≡ b
found-injective a b h = cc

span-ClosureText :
    (src : Bytes) (line_start : ℤ) (text : Bytes) (start body_end : ℕ)
    → closure_span src line_start ≡ found (start, body_end)
    → found (take (body_end - start) (drop start src)) ≡ found text
    → (line_off : ℕ) × (offset_of_line src line_start ≡ some line_off)
      × ClosureText src text line_off
span-ClosureText src line_start text start body_end spans h =
    let (line_off, on_line, parts) = closure_span-Parts src line_start start body_end spans in
    (
      line_off,
      on_line,
      subst (λ (t : Bytes). ClosureText src t line_off) (found-injective _ _ h)
          (slice-ClosureText src line_off start body_end parts),
    )

pub extract_closure_text-ClosureText :
    (read_file_all : Bytes → Option Bytes) (filename : Bytes) (line_start : ℤ) (text : Bytes)
    → extract_closure_text read_file_all (some filename) line_start ≡ found text
    → (src : Bytes) × (read_file_all filename ≡ some src)
      × (line_off : ℕ) × (offset_of_line src line_start ≡ some line_off)
      × ClosureText src text line_off
unfolding extract_closure_text
extract_closure_text-ClosureText read_file_all filename line_start text h =
    elim (Bool-cases (no_source filename)) [
      | inl refused ↦ absurd (cc (rw refused at h))
      | inr readable ↦
          let (src, read, h₁) =
            >>=-eq-found (or_fail (read_file_all filename) _) _ (rw readable at h) in
          let ((start, body_end), spans, h₂) = >>=-eq-found (closure_span src line_start) _ h₁ in
          let (line_off, on_line, cut) =
            span-ClosureText src line_start text start body_end spans h₂ in
          (src, or_fail-found _ _ read, line_off, on_line, cut)
    ]

-- Where `extract_closure_text` finds a text, the file opens and gives as many bytes as its size,
-- these have the line, and the text stands in them at or behind the offset of the line: a head,
-- then `function`, a header, and a body in braces. The head is empty, or the text and what is
-- behind it start with `static`.
pub extract_closure_text-read_file_all :
    (fopen : Bytes → Option Stream) (filename : Bytes) (line_start : ℤ) (text : Bytes)
    → extract_closure_text (read_file_all fopen) (some filename) line_start ≡ found text
    → (f : Stream) × (fopen filename ≡ some f)
      × (src : Bytes) × IsWhole f src
      × (line_off : ℕ) × (offset_of_line src line_start ≡ some line_off)
      × ClosureText src text line_off
extract_closure_text-read_file_all fopen filename line_start text h =
    let (src, contents, line_off, on_line, cut) =
      extract_closure_text-ClosureText (read_file_all fopen) filename line_start text h in
    let (f, opened, whole) = read_file_all-IsWhole fopen filename src contents in
    (f, opened, src, whole, line_off, on_line, cut)
