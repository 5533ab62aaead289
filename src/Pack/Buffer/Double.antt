-- ===== src/Pack/Buffer/Double.antt =====
-- `read_double` gives back the bits that `wbuf_double` wrote.
use php_parallax.Prelude.{
  false, take, take-append, take-append_le, All-take, Ensures-bind, >>=-eq-done, append-nil, ℕ,
  zero, suc, ◌+◌, ◌*◌, ◌/◌, ◌%◌, ◌^◌, ◌≤◌, ◌<◌, bit_or, arith, [], ◌∷◌, ◌++◌, ◌≡◌, refl, ap, subst,
  ◌∙◌, length, length-append, All, drop, done, Ensures, holds, reports, ltb, Bool-cases, inl, inr,
  drop-append, drop-append_le, length-drop, All-drop,
}
use php_parallax.Prelude.Bits.{u64, bit_or_shifted, bit_or-lt, two_pow_pos}
use php_parallax.Value.{Bytes, IsByte}
use native.Mathlib.Nat.{div-add-mod, div-div-eq-div-mul, mod-lt, mod-le}
use native.Mathlib.Numerals.{towards_suc}
use php_parallax.Pack.Buffer.{double_out, double_in, load, read_double}

low_bytes : (b m : ℕ) → b % (m * 256) ≡ b % m + b / m % 256 * m
low_bytes b m = omega (
  arith,
  div-add-mod b m,
  div-add-mod b (m * 256),
  ap (λ (t : ℕ). t * m) (div-add-mod (b / m) 256),
  ap (λ (t : ℕ). t * m) (div-div-eq-div-mul b m 256),
)

power_up : (i : ℕ) → 2 ^ (suc i * 8) ≡ 2 ^ (i * 8) * 256
power_up i = let e : suc i * 8 ≡ i * 8 + 8 = omega arith in rw e (simp towards_suc (omega arith))

-- The bytes below `i` are read; one more round reads byte `i`.
next_byte :
    (bits i : ℕ)
    → bits < 2 ^ 64
    → bit_or (bits % 2 ^ (i * 8)) (u64 (bits / 2 ^ (i * 8) % 256 * 2 ^ (i * 8)))
      ≡ bits % 2 ^ (suc i * 8)
next_byte bits i h =
    let m = 2 ^ (i * 8) in
    let pos : 0 < m = two_pow_pos (i * 8) in
    let small : u64 (bits / m % 256 * m) ≡ bits / m % 256 * m =
      omega (arith, low_bytes bits m, mod-le bits (m * 256)) in
    rw (small, power_up i)
      (omega (
        arith,
        bit_or_shifted (i * 8) (bits % m) (bits / m % 256) (mod-lt bits pos),
        low_bytes bits m,
      ))

double_in-double_out :
    (left i bits : ℕ) (rest : Bytes)
    → bits < 2 ^ 64
    → double_in left i (double_out left i bits ++ rest) (bits % 2 ^ (i * 8))
      ≡ bits % 2 ^ ((i + left) * 8)
unfolding double_in double_out
double_in-double_out zero i bits rest h = ap (λ (t : ℕ). bits % 2 ^ (t * 8)) (omega arith)
double_in-double_out (suc left) i bits rest h = rw (next_byte bits i h) (
    double_in-double_out left (suc i) bits rest h
    ∙ ap (λ (t : ℕ). bits % 2 ^ (t * 8)) (omega arith))

pub length-double_out : (left i bits : ℕ) → length (double_out left i bits) ≡ left
unfolding double_out
length-double_out zero i bits = refl
length-double_out (suc left) i bits = ap suc (length-double_out left (suc i) bits)

pub double_out-IsByte : (left i bits : ℕ) → All IsByte (double_out left i bits)
unfolding double_out
double_out-IsByte zero i bits = tt
double_out-IsByte (suc left) i bits = (omega arith, double_out-IsByte left (suc i) bits)

pub load-done : (n : ℕ) (p : Bytes) → n ≤ length p → load n p ≡ done (take n p, drop n p)
unfolding load
load-done n p h = ground arith

pub load-append : (p rest : Bytes) → load (length p) (p ++ rest) ≡ done (p, rest)
load-append p rest =
    load-done (length p) (p ++ rest) (omega (arith, length-append p rest))
    ∙ rw (take-append p rest, drop-append p rest)

pub load-Ensures :
    (n : ℕ) (p : Bytes)
    → n ≤ length p
    → Ensures
        (λ (s, r). (length p ≡ length r + n) × (All IsByte p → All IsByte s × All IsByte r))
        (load n p)
load-Ensures n p h = rw (load-done n p h) (
    holds (
      omega (arith, length-drop n p),
      λ bytes. (All-take IsByte n p bytes, All-drop IsByte n p bytes),
    ))

pub load-append_kept :
    (n : ℕ) (p more s r : Bytes) → load n p ≡ done (s, r) → load n (p ++ more) ≡ done (s, r ++ more)
unfolding load
load-append_kept n p more s r e =
    ground (arith, length-append p more, take-append_le n p more, drop-append_le n p more)

-- `read_double` gives back the 64 bits of the double that was written, and stops behind them,
-- whatever bytes follow.
pub read_double-double_out :
    (bits : ℕ) (rest : Bytes)
    → bits < 2 ^ 64
    → read_double (double_out 8 0 bits ++ rest) ≡ done (bits, rest)
unfolding read_double
read_double-double_out bits rest h =
    let out = double_out 8 0 bits in
    let eight : length out ≡ 8 = length-double_out 8 0 bits in
    let parts : load 8 (out ++ rest) ≡ done (out, rest) =
      subst (λ n. load n (out ++ rest) ≡ done (out, rest)) eight (load-append out rest) in
    let enough : ltb (length (out ++ rest)) 8 ≡ false =
      ground (arith, length-append out rest, eight) in
    let whole : double_in 8 0 (out ++ []) 0 ≡ bits =
      ap (λ (t : ℕ). double_in 8 0 (out ++ []) t) (omega arith)
      ∙ double_in-double_out 8 0 bits [] h
      ∙ omega arith in
    rw (enough, parts) (ap (λ t. done (t, rest)) (rw append-nil at whole))

double_in-lt :
    (left i : ℕ) (p : Bytes) (bits : ℕ) → bits < 2 ^ 64 → double_in left i p bits < 2 ^ 64
unfolding double_in
double_in-lt zero i p bits h = h
double_in-lt (suc left) i [] bits h = h
double_in-lt (suc left) i (byte ∷ p) bits h =
    double_in-lt left (suc i) p _ (bit_or-lt 64 bits (u64 (byte * 2 ^ (i * 8))) h (omega arith))

-- `read_double` on any input reports an error, or takes eight bytes for 64 bits.
pub read_double-Ensures :
    (p : Bytes)
    → Ensures
        (λ (x, r). (x < 2 ^ 64) × (length p ≡ length r + 8) × (All IsByte p → All IsByte r))
        (read_double p)
unfolding read_double
read_double-Ensures p = elim (Bool-cases (ltb (length p) 8)) [
  | inl short ↦ rw short reports
  | inr enough ↦ rw enough (
      Ensures-bind (load-Ensures 8 p (ground arith))
        λ (out, r) t. holds (double_in-lt 8 0 out 0 (omega arith), t.0, λ bytes. (t.1 bytes).1))
]

pub read_double-append :
    (p more : Bytes) (x : ℕ) (r : Bytes)
    → read_double p ≡ done (x, r)
    → read_double (p ++ more) ≡ done (x, r ++ more)
unfolding read_double
read_double-append p more x r e = elim (Bool-cases (ltb (length p) 8)) [
  | inl short ↦ absurd (cc (rw short at e))
  | inr enough ↦
      let longer : ltb (length (p ++ more)) 8 ≡ false = ground (arith, length-append p more) in
      let ((out, q), first, rest) =
        >>=-eq-done (load 8 p) (λ (out, q). done (double_in 8 0 out 0, q)) (rw enough at e) in
      rw (longer, load-append_kept 8 p more out q first) (cc rest)
]
