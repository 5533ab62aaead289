-- ===== src/Pack/Varint/Bounds.antt =====
-- `varint_read` on any input: what it consumes, and that it looks no further.
use php_parallax.Prelude.{
  ℕ, ◌+◌, ◌*◌, ◌^◌, ◌≤◌, ◌<◌, bit_and, bit_or, arith, [], ◌∷◌, ◌++◌, ◌≡◌, length, All, inl, inr,
  Bool-cases, leb, ◌==◌, done, Ensures, holds, reports, Ensures-weaken,
}
use php_parallax.Prelude.Bits.{u64, bit_or-lt}
use php_parallax.Value.{Bytes, IsByte}
use php_parallax.Pack.Varint.{read_loop, varint_read}

-- From `p` with `j` bytes read before: a uint64_t, one more byte at least, ten in all at most.
abbrev Took : Bytes → ℕ → ℕ × Bytes → Type 0
Took p j (x, r) =
    (x < 2 ^ 64)
    × (length r < length p)
    × (length p + j ≤ length r + 10)
    × (All IsByte p → All IsByte r)

read_loop-Ensures :
    (p : Bytes) (v shift j : ℕ)
    → v < 2 ^ 64
    → shift ≡ 7 * j
    → j ≤ 9
    → Ensures (Took p j) (read_loop p v shift)
unfolding read_loop
read_loop-Ensures [] v shift j hv hs hj = reports
read_loop-Ensures (byte ∷ p) v shift j hv hs hj =
    let v' : ℕ = bit_or v (u64 (bit_and byte 0x7f * 2 ^ shift)) in
    let hv' : v' < 2 ^ 64 = bit_or-lt 64 v (u64 (bit_and byte 0x7f * 2 ^ shift)) hv (omega arith) in
    elim (Bool-cases (bit_and byte 0x80 == 0)) [
      | inl last ↦ rw last (holds (hv', omega arith, omega arith, λ h. h.1))
      | inr more ↦ rw more (elim (Bool-cases (leb 64 (shift + 7))) [
        | inl wide ↦ rw wide reports
        | inr fits ↦ rw fits (
            Ensures-weaken (λ (x, r) t. (t.0, omega arith, omega arith, λ h. t.3 h.1))
              (read_loop-Ensures p v' (shift + 7) (j + 1) hv' (omega arith) (ground arith)))
      ])
    ]

-- On any input `varint_read` reports an error, or returns a uint64_t after 1 to 10 elements of the
-- input; what is left of an input of bytes is bytes.
pub varint_read-Ensures :
    (p : Bytes)
    → Ensures
        (λ (x, r).
          (x < 2 ^ 64)
          × (length r < length p)
          × (length p ≤ length r + 10)
          × (All IsByte p → All IsByte r))
        (varint_read p)
unfolding varint_read
varint_read-Ensures p =
    Ensures-weaken (λ (x, r) t. (t.0, t.1, omega arith, t.3))
      (read_loop-Ensures p 0 0 0 (omega arith) (omega arith) (omega arith))

read_loop-append :
    (p more : Bytes) (v shift x : ℕ) (r : Bytes)
    → read_loop p v shift ≡ done (x, r)
    → read_loop (p ++ more) v shift ≡ done (x, r ++ more)
unfolding read_loop
read_loop-append [] more v shift x r e = cc
read_loop-append (byte ∷ p) more v shift x r e = ground (
  arith,
  read_loop-append p more (bit_or v (u64 (bit_and byte 0x7f * 2 ^ shift))) (shift + 7) x r,
)

-- Bytes behind the number stay where they are.
pub varint_read-append :
    (p more : Bytes) (x : ℕ) (r : Bytes)
    → varint_read p ≡ done (x, r)
    → varint_read (p ++ more) ≡ done (x, r ++ more)
unfolding varint_read
varint_read-append p more x r e = read_loop-append p more 0 0 x r e
