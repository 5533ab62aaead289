-- ===== src/Pack/Decode/Parts.antt =====
-- The readers of lengths and keys: on what was packed, on any input, and on more input.
use php_parallax.Prelude.{
  Ensures-weaken, ℕ, ◌+◌, ◌^◌, ◌≤◌, ◌<◌, arith, [], ◌∷◌, ◌++◌, ◌≡◌, ap, append_assoc, ltb, ◌==◌,
  Bool-cases, inl, inr, false, length, length-append, All, done, ◌>>=◌, Ensures, holds, reports,
  Ensures-bind, >>=-eq-done,
}
use php_parallax.Prelude.Int.{of_u64, to_u64, of_u64-to_u64, to_u64-lt, of_u64-IsI64}
use php_parallax.Value.{Bytes, Key, int_key, str_key, IsByte, IsKey}
use php_parallax.Pack.Varint.{varint_read}
use php_parallax.Pack.Varint.Write.{groups, varint_write-groups}
use php_parallax.Pack.Varint.Read.{varint_read-varint_write}
use php_parallax.Pack.Varint.Bounds.{varint_read-Ensures, varint_read-append}
use php_parallax.Pack.Encode.{sized, key_bytes}
use php_parallax.Pack.Buffer.Double.{load-append, load-Ensures, load-append_kept}
use php_parallax.Pack.Decode.{read_sized, read_key}
use php_parallax.Pack.Decode.Stable.{Stable, Stable-done, Stable-bind, Stable-if}

pub varint_read-groups :
    (v : ℕ) (rest : Bytes) → v < 2 ^ 64 → varint_read (groups 9 v ++ rest) ≡ done (v, rest)
varint_read-groups v rest h = rw (varint_write-groups v h) at (varint_read-varint_write v rest h)

pub read_sized-sized :
    (s rest : Bytes) → length s < 2 ^ 64 → read_sized (sized s ++ rest) ≡ done (s, rest)
unfolding read_sized sized
read_sized-sized s rest h =
    let enough : ltb (length (s ++ rest)) (length s) ≡ false =
      ground (arith, length-append s rest) in
    rw
      (
        append_assoc (groups 9 (length s)) s rest,
        varint_read-groups (length s) (s ++ rest) h,
        enough,
      )
      (load-append s rest)

pub read_key-key_bytes :
    (k : Key) (rest : Bytes)
    → IsKey k
    → length (key_bytes k) < 2 ^ 64
    → read_key (key_bytes k ++ rest) ≡ done (k, rest)
unfolding read_key key_bytes
read_key-key_bytes (int_key i) rest h small =
    rw (varint_read-groups (to_u64 i) rest (to_u64-lt i h), of_u64-to_u64 i h)
read_key-key_bytes (str_key s) rest h small =
    let fits : length s < 2 ^ 64 = omega (arith, length-append {0} (groups 9 (length s)) s) in
    ap (λ t. t >>= λ (x, p). done (str_key x, p)) (read_sized-sized s rest fits)

pub read_sized-Ensures :
    (p : Bytes)
    → Ensures
        (λ (s, r). (length r < length p) × (All IsByte p → All IsByte s × All IsByte r))
        (read_sized p)
unfolding read_sized
read_sized-Ensures p = Ensures-bind (varint_read-Ensures p) λ (len, r) t.
    elim (Bool-cases (ltb (length r) len)) [
      | inl short ↦ rw short reports
      | inr enough ↦ rw enough (
          Ensures-weaken (λ (s, q) u. (omega (arith, t.1, u.0), λ h. u.1 (t.3 h)))
            (load-Ensures len r (ground arith)))
    ]

-- A key and its flag take two bytes at least.
pub read_key-Ensures :
    (p : Bytes)
    → Ensures
        (λ (k, r). (length r + 2 ≤ length p) × (All IsByte p → IsKey k × All IsByte r))
        (read_key p)
unfolding read_key
read_key-Ensures [] = reports
read_key-Ensures (flag ∷ p) = elim (Bool-cases (flag == 0)) [
  | inl text ↦
      rw text
        (Ensures-bind (read_sized-Ensures p) λ (s, r) t. holds (omega (arith, t.0), λ h. t.1 h.1))
  | inr int ↦ rw int (
      Ensures-bind (varint_read-Ensures p)
        λ (k, r) t. holds (omega (arith, t.1), λ h. (of_u64-IsI64 k t.0, t.3 h.1)))
]

pub varint_read-Stable : Stable varint_read
varint_read-Stable = varint_read-append

pub read_sized-Stable : Stable read_sized
unfolding read_sized
read_sized-Stable p more s r e =
    let ((len, q), read, rest) = >>=-eq-done (varint_read p) _ e in
    elim (Bool-cases (ltb (length q) len)) [
      | inl short ↦ absurd (cc (rw short at rest))
      | inr enough ↦
          let longer : ltb (length (q ++ more)) len ≡ false =
            ground (arith, length-append q more) in
          rw (varint_read-append p more len q read, longer)
            (load-append_kept len q more s r (rw enough at rest))
    ]

pub read_key-Stable : Stable read_key
unfolding read_key
read_key-Stable [] more k r e = cc
read_key-Stable (flag ∷ p) more k r e =
    Stable-if (flag == 0) (λ p. read_sized p >>= λ (s, q). done (str_key s, q))
      (λ p. varint_read p >>= λ (k, q). done (int_key (of_u64 k), q))
      (Stable-bind read_sized (λ s q. done (str_key s, q)) read_sized-Stable
        (λ s. Stable-done (str_key s)))
      (Stable-bind varint_read (λ k q. done (int_key (of_u64 k), q)) varint_read-Stable
        (λ k. Stable-done (int_key (of_u64 k))))
      p more k r e
