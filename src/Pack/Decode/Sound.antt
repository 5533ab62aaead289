-- ===== src/Pack/Decode/Sound.antt =====
-- `value_unpack` on any bytes: it ends, never faults, and what it accepts is well formed.
use php_parallax.Prelude.{
  ℕ, zero, suc, ◌+◌, ◌*◌, ◌^◌, ◌≤◌, ◌<◌, arith, Bool, true, false, [], ◌∷◌, some, none, Option,
  length, All, Outcome, Ensures, holds, reports, Ensures-bind, Ensures-weaken,
}
use php_parallax.Prelude.Int.{of_u64-IsI64}
use php_parallax.Value.{Bytes, Value, arr, obj, nil, until_nul, value_err, IsByte, IsChar, IsValue}
use php_parallax.Pack.Buffer.Double.{read_double-Ensures}
use php_parallax.Pack.Varint.Bounds.{varint_read-Ensures}
use php_parallax.Pack.Decode.{
  ValTag, val_null, val_bool, val_long, val_double, val_str, val_arr, val_obj, val_err, val_tag_of,
  unpack_case, unpack_one, unpack_entries, finish, value_unpack,
}
use php_parallax.Pack.Decode.Parents.{
  IsParent, attach-Ensures, IsParent-IsValue, IsParent-lt, IsParent-le,
}
use php_parallax.Pack.Decode.Parts.{read_sized-Ensures, read_key-Ensures}

-- What `value_err` keeps of any bytes has no NUL.
until_nul-IsChar : (s : Bytes) → All IsByte s → All IsChar (until_nul s)
unfolding until_nul
until_nul-IsChar [] h = tt
until_nul-IsChar (c ∷ cs) h = ground (arith, until_nul-IsChar cs h.1)

-- A value within the bytes that were there, and bytes behind it.
abbrev Parsed : ℕ → Value × Bytes → Type 0
Parsed n (v, r) = IsValue v × (length r ≤ n) × All IsByte r

abbrev EntriesOk : ℕ → (ℕ → Bytes → Value → Bool → Outcome (Value × Bytes)) → Type 0
EntriesOk n entries =
    (k : ℕ) (q : Bytes) (parent : Value) (is_arr : Bool)
    → length q < n
    → All IsByte q
    → IsParent is_arr parent (length q)
    → Ensures (Parsed (length q)) (entries k q parent is_arr)

case_err :
    (entries : ℕ → Bytes → Value → Bool → Outcome (Value × Bytes)) (p : Bytes)
    → All IsByte p
    → Ensures (Parsed (length p)) (unpack_case entries (some val_err) p)
unfolding unpack_case value_err
case_err entries p h = Ensures-bind (read_sized-Ensures p) λ (cls, p₁) t₁.
    Ensures-bind (read_sized-Ensures p₁) λ (msg, p₂) t₂.
      Ensures-bind (varint_read-Ensures p₂) λ (code, p₃) t₃.
        Ensures-bind (read_sized-Ensures p₃) λ (tr, p₄) t₄.
          let (b₁, h₁) = t₁.1 h in
          let (b₂, h₂) = t₂.1 h₁ in
          let (b₄, h₄) = t₄.1 (t₃.3 h₂) in
          holds (
            (
              until_nul-IsChar cls b₁,
              until_nul-IsChar msg b₂,
              of_u64-IsI64 code t₃.0,
              until_nul-IsChar tr b₄,
            ),
            omega (arith, t₁.0, t₂.0, t₃.1, t₄.0),
            h₄,
          )

unpack_case-Ensures :
    (entries : ℕ → Bytes → Value → Bool → Outcome (Value × Bytes)) (t : Option ValTag) (p : Bytes)
    → All IsByte p
    → length p < 2 ^ 63
    → EntriesOk (length p) entries
    → Ensures (Parsed (length p)) (unpack_case entries t p)
unfolding unpack_case
unpack_case-Ensures entries none p h small ok = reports
unpack_case-Ensures entries (some val_null) p h small ok = holds (tt, omega arith, h)
unpack_case-Ensures entries (some val_bool) [] h small ok = reports
unpack_case-Ensures entries (some val_bool) (b ∷ p) h small ok = holds (tt, omega arith, h.1)
unpack_case-Ensures entries (some val_long) p h small ok =
    Ensures-bind (varint_read-Ensures p)
      λ (i, r) t. holds (of_u64-IsI64 i t.0, omega (arith, t.1), t.3 h)
unpack_case-Ensures entries (some val_double) p h small ok =
    Ensures-bind (read_double-Ensures p) λ (d, r) t. holds (t.0, omega (arith, t.1), t.2 h)
unpack_case-Ensures entries (some val_str) p h small ok =
    Ensures-bind (read_sized-Ensures p) λ (s, r) t. holds ((t.1 h).0, omega (arith, t.0), (t.1 h).1)
unpack_case-Ensures entries (some val_arr) p h small ok =
    Ensures-bind (varint_read-Ensures p) λ (n, q) t.
      Ensures-weaken (λ (v, r) u. (u.0, omega (arith, t.1, u.1), u.2))
        (ok n q (arr nil 0) true t.1 (t.3 h) (tt, omega arith, omega (arith, t.1)))
unpack_case-Ensures entries (some val_obj) p h small ok =
    Ensures-bind (read_sized-Ensures p) λ (cls, p₁) t₁.
      Ensures-bind (varint_read-Ensures p₁) λ (n, q) t.
        Ensures-weaken (λ (v, r) u. (u.0, omega (arith, t₁.0, t.1, u.1), u.2))
          (ok n q (obj cls nil 0) false (omega (arith, t₁.0, t.1)) (t.3 (t₁.1 h).1)
            (((t₁.1 h).0, tt), omega arith, omega (arith, t₁.0, t.1)))
unpack_case-Ensures entries (some val_err) p h small ok = case_err entries p h

mutual
  unfolding unpack_one

  unpack_one_total :
      (f : ℕ) (p : Bytes)
      → All IsByte p
      → length p < 2 ^ 63
      → 2 * length p < f
      → Ensures (λ (v, r). IsValue v × (length r < length p) × All IsByte r) (unpack_one f p)
  unpack_one_total zero p h small fuel = absurd (omega arith)
  unpack_one_total (suc f) [] h small fuel = reports
  unpack_one_total (suc f) (b ∷ p) h small fuel =
      Ensures-weaken (λ (v, r) t. (t.0, omega (arith, t.1), t.2))
        (unpack_case-Ensures (unpack_entries f) (val_tag_of b) p h.1 (omega arith)
          (λ k q parent is_arr lt hq hp.
            unpack_entries_total f k q parent is_arr hq hp (omega arith)))

  unpack_entries_total :
      (f n : ℕ) (p : Bytes) (parent : Value) (is_arr : Bool)
      → All IsByte p
      → IsParent is_arr parent (length p)
      → 2 * length p + 1 < f
      → Ensures (Parsed (length p)) (unpack_entries f n p parent is_arr)
  unpack_entries_total zero n p parent is_arr h hp fuel = absurd (omega arith)
  unpack_entries_total (suc f) zero p parent is_arr h hp fuel =
      holds (IsParent-IsValue is_arr parent (length p) hp, omega arith, h)
  unpack_entries_total (suc f) (suc n) p parent is_arr h hp fuel =
      Ensures-bind (read_key-Ensures p) λ (k, p₁) t₁.
        Ensures-bind
          (unpack_one_total f p₁ (t₁.1 h).1
            (omega (arith, t₁.0, IsParent-lt is_arr parent (length p) hp)) (omega (arith, t₁.0)))
          λ (v, p₂) t₂.
            Ensures-bind
              (attach-Ensures parent is_arr (length p₂) k v (t₁.1 h).0 t₂.0 (
                IsParent-le is_arr parent (length p) (length p₂ + 3) (omega (arith, t₁.0, t₂.1))
                  hp))
              λ w hw.
                Ensures-weaken (λ (u, r) t. (t.0, omega (arith, t₁.0, t₂.1, t.1), t.2))
                  (unpack_entries_total f n p₂ w is_arr t₂.2 hw (omega (arith, t₁.0, t₂.1)))

-- On every byte string of less than half of size_t, `value_unpack` ends without a fault: it reports
-- an error, or returns a well-formed value.
pub value_unpack-Ensures :
    (buf : Bytes) → All IsByte buf → length buf < 2 ^ 63 → Ensures IsValue (value_unpack buf)
unfolding value_unpack finish
value_unpack-Ensures buf h small =
    Ensures-bind (unpack_one_total (2 * length buf + 1) buf h small (omega arith)) λ (v, r) t.
      elim r as (λ r. Ensures IsValue (finish (v, r))) [ [] ↦ holds t.0 | b ∷ r ↦ reports ]
