-- ===== src/Scanner/Files.antt =====
-- bridge_closure.c: `read_file_all`, over the calls of stdio.
use php_parallax.Prelude.{
  ℕ, ◌≡◌, refl, sym, ap, ◌∙◌, Bool, true, false, Option, none, some, if◌then◌else◌, ◌==◌, length,
  Bool-cases, inl, inr, arith,
}
use php_parallax.Prelude.Int.{ℤ, pos, negsuc, ltz, pos_part}
use php_parallax.Value.{Bytes}

-- An open file: whether it can be positioned at its end, the position there, and what `fread` gives
-- for a number of bytes from the start.
pub record Stream : Type 0 where
  pub seeks : Bool
  pub tell : ℤ
  pub read : ℕ → Bytes

-- The bytes that were read, where there are as many as the size.
unfoldable pub read_whole : Stream → ℕ → Option Bytes
read_whole f sz = if length (f.read sz) == sz then some (f.read sz) else none

unfoldable pub read_stream : Option Stream → Option Bytes
unfolding read_whole
read_stream none = none
read_stream (some f) =
    if f.seeks then if ltz f.tell (pos 0) then none else read_whole f (pos_part f.tell) else none

-- `none` is -1.
unfoldable pub read_file_all : (Bytes → Option Stream) → Bytes → Option Bytes
unfolding read_stream
read_file_all fopen path = read_stream (fopen path)

-- The file is positioned, and `src` is what it gives for its size, which is the length of `src`.
pub record IsWhole (f : Stream) (src : Bytes) : Type 0 where
  pub positioned : f.seeks ≡ true
  pub sized : f.tell ≡ pos (length src)
  pub given : f.read (length src) ≡ src

some-injective : (a b : Bytes) → some a ≡ some b → a ≡ b
some-injective a b h = cc

read_whole-eq-some :
    (f : Stream) (sz : ℕ) (src : Bytes)
    → read_whole f sz ≡ some src
    → (length src ≡ sz) × (f.read sz ≡ src)
unfolding read_whole
read_whole-eq-some f sz src h = elim (Bool-cases (length (f.read sz) == sz)) [
  | inr short ↦ absurd (cc (rw short at h))
  | inl full ↦
      let same : f.read sz ≡ src = some-injective _ _ (rw full at h) in
      let long : length (f.read sz) ≡ sz = ground (arith, full) in
      (ap (λ t. length t) (sym same) ∙ long, same)
]

sized-IsWhole :
    (f : Stream) (sz : ℤ) (src : Bytes)
    → f.seeks ≡ true
    → f.tell ≡ sz
    → (if ltz sz (pos 0) then none else read_whole f (pos_part sz)) ≡ some src
    → IsWhole f src
sized-IsWhole f (negsuc n) src seeks told h = absurd (cc h)
sized-IsWhole f (pos n) src seeks told h =
    let nonneg : ltz (pos n) (pos 0) ≡ false = ground arith in
    let (long, same) = read_whole-eq-some f n src (rw nonneg at h) in
    record {
      positioned = seeks;
      sized = told ∙ ap (λ m. pos m) (sym long);
      given = ap (λ m. f.read m) long ∙ same;
    }

read_stream-IsWhole :
    (f : Stream) (sz : ℤ) (src : Bytes)
    → f.tell ≡ sz
    → read_stream (some f) ≡ some src
    → IsWhole f src
unfolding read_stream
read_stream-IsWhole f sz src told h = elim (Bool-cases f.seeks) [
  | inr stuck ↦ absurd (cc (rw stuck at h))
  | inl seeks ↦ sized-IsWhole f sz src seeks told (rw (seeks, told) at h)
]

file_cases :
    (opened : Option Stream) (src : Bytes)
    → read_stream opened ≡ some src
    → (f : Stream) × (opened ≡ some f) × IsWhole f src
unfolding read_stream
file_cases none src h = absurd (cc h)
file_cases (some f) src h = (f, refl, read_stream-IsWhole f f.tell src refl h)

pub read_file_all-IsWhole :
    (fopen : Bytes → Option Stream) (path src : Bytes)
    → read_file_all fopen path ≡ some src
    → (f : Stream) × (fopen path ≡ some f) × IsWhole f src
unfolding read_file_all
read_file_all-IsWhole fopen path src h = file_cases (fopen path) src h
