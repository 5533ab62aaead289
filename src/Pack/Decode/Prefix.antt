-- ===== src/Pack/Decode/Prefix.antt =====
-- `value_unpack` accepts a packed value only as a whole: nothing cut off, nothing behind.
use php_parallax.Prelude.{
  ℕ, zero, suc, ◌+◌, ◌*◌, ◌^◌, ◌≤◌, ◌<◌, arith, Bool, true, false, [], ◌∷◌, ◌++◌, ◌≡◌, refl, ap,
  sym, subst, ◌≢◌, append-nil, Option, none, some, length, length-append, All, Outcome, done,
  refused, fault, stuck, ◌>>=◌, >>=-eq-done, Ensures, Ensures-ends,
}
use php_parallax.Prelude.Int.{of_u64}
use php_parallax.Value.{
  Bytes, Value, Key, long, double, str, arr, obj, nil, value_obj, value_err, IsValue, IsByte,
}
use php_parallax.Pack.Varint.{varint_read}
use php_parallax.Pack.Buffer.{read_double}
use php_parallax.Pack.Buffer.Double.{read_double-append}
use php_parallax.Pack.Encode.{encode, value_pack}
use php_parallax.Pack.Encode.Refines.{value_pack-encode}
use php_parallax.Pack.Encode.Range.{encode-IsByte}
use php_parallax.Pack.Decode.{
  read_sized, read_key, attach, ValTag, val_null, val_bool, val_long, val_double, val_str, val_arr,
  val_obj, val_err, val_tag_of, unpack_case, unpack_one, unpack_entries, finish, value_unpack,
}
use php_parallax.Pack.Decode.Stable.{
  Extends, Stable, Stable-done, Extends-bind, Extends-lift, Stable-bind,
}
use php_parallax.Pack.Decode.Parts.{varint_read-Stable, read_sized-Stable, read_key-Stable}
use php_parallax.Pack.Decode.Rebuild.{unpacked}
use php_parallax.Pack.Decode.Inverse.{unpack_one-encode}
use php_parallax.Pack.Decode.Sound.{value_unpack-Ensures}

abbrev Entries : Type 0
Entries = ℕ → Bytes → Value → Bool → Outcome (Value × Bytes)

abbrev EntriesExtend : Entries → Entries → Type 0
EntriesExtend e e' =
    (n : ℕ) (parent : Value) (is_arr : Bool)
    → Extends (λ p. e n p parent is_arr) (λ p. e' n p parent is_arr)

-- What follows the class of an object, and each of the texts of an error.
abbrev obj_rest : Entries → Bytes → Bytes → Outcome (Value × Bytes)
obj_rest e cls p = varint_read p >>= λ (n, q). e n q (value_obj cls 0) false

abbrev code_rest : Bytes → Bytes → ℕ → Bytes → Outcome (Value × Bytes)
code_rest cls msg code p =
    read_sized p >>= λ (tr, q). done (value_err (some cls) (some msg) (of_u64 code) (some tr), q)

abbrev msg_rest : Bytes → Bytes → Bytes → Outcome (Value × Bytes)
msg_rest cls msg p = varint_read p >>= λ (code, q). code_rest cls msg code q

abbrev cls_rest : Bytes → Bytes → Outcome (Value × Bytes)
cls_rest cls p = read_sized p >>= λ (msg, q). msg_rest cls msg q

cls_rest-Stable : (cls : Bytes) → Stable (cls_rest cls)
cls_rest-Stable cls = Stable-bind read_sized (msg_rest cls) read_sized-Stable λ msg.
    Stable-bind varint_read (code_rest cls msg) varint_read-Stable λ code.
      Stable-bind read_sized _ read_sized-Stable
        λ tr. Stable-done (value_err (some cls) (some msg) (of_u64 code) (some tr))

unpack_case-Extends :
    (e e' : Entries)
    → EntriesExtend e e'
    → (t : Option ValTag) → Extends (unpack_case e t) (unpack_case e' t)
unfolding unpack_case
unpack_case-Extends e e' h none p more a r q = cc
unpack_case-Extends e e' h (some val_null) p more a r q = cc
unpack_case-Extends e e' h (some val_bool) [] more a r q = cc
unpack_case-Extends e e' h (some val_bool) (b ∷ p) more a r q = cc
unpack_case-Extends e e' h (some val_long) p more a r q =
    Stable-bind varint_read _ varint_read-Stable (λ i. Stable-done (long (of_u64 i))) p more a r q
unpack_case-Extends e e' h (some val_double) p more a r q =
    Stable-bind read_double _ read_double-append (λ d. Stable-done (double d)) p more a r q
unpack_case-Extends e e' h (some val_str) p more a r q =
    Stable-bind read_sized _ read_sized-Stable (λ s. Stable-done (str s)) p more a r q
unpack_case-Extends e e' h (some val_arr) p more a r q =
    Extends-bind varint_read varint_read (λ n p. e n p (arr nil 0) true)
      (λ n p. e' n p (arr nil 0) true) varint_read-Stable (λ n. h n (arr nil 0) true) p more a r q
unpack_case-Extends e e' h (some val_obj) p more a r q =
    Extends-bind read_sized read_sized (obj_rest e) (obj_rest e') read_sized-Stable
      (λ cls.
        Extends-bind varint_read varint_read (λ n p. e n p (obj cls nil 0) false)
          (λ n p. e' n p (obj cls nil 0) false) varint_read-Stable (λ n. h n (obj cls nil 0) false))
      p more a r q
unpack_case-Extends e e' h (some val_err) p more a r q =
    Stable-bind read_sized cls_rest read_sized-Stable cls_rest-Stable p more a r q

-- What follows the child of an entry, and the key.
abbrev child_rest : Entries → ℕ → Value → Bool → Key → Value → Bytes → Outcome (Value × Bytes)
child_rest e n parent is_arr k v p = attach parent is_arr k v >>= λ w. e n p w is_arr

abbrev key_rest :
    (Bytes → Outcome (Value × Bytes))
    → Entries
    → ℕ
    → Value
    → Bool
    → Key
    → Bytes
    → Outcome (Value × Bytes)
key_rest one e n parent is_arr k p = one p >>= λ (v, q). child_rest e n parent is_arr k v q

mutual
  unfolding unpack_one

  unpack_one-Extends : (f g : ℕ) → f ≤ g → Extends (unpack_one f) (unpack_one g)
  unpack_one-Extends zero g le p more a r e = cc
  unpack_one-Extends (suc f) zero le p more a r e = absurd (omega arith)
  unpack_one-Extends (suc f) (suc g) le [] more a r e = cc
  unpack_one-Extends (suc f) (suc g) le (b ∷ p) more a r e =
      unpack_case-Extends (unpack_entries f) (unpack_entries g)
        (λ n parent is_arr. unpack_entries-Extends f g (omega arith) n parent is_arr) (val_tag_of b)
        p more a r e

  unpack_entries-Extends : (f g : ℕ) → f ≤ g → EntriesExtend (unpack_entries f) (unpack_entries g)
  unpack_entries-Extends zero g le n parent is_arr p more a r e = cc
  unpack_entries-Extends (suc f) zero le n parent is_arr p more a r e = absurd (omega arith)
  unpack_entries-Extends (suc f) (suc g) le zero parent is_arr p more a r e = cc
  unpack_entries-Extends (suc f) (suc g) le (suc n) parent is_arr p more a r e =
      Extends-bind read_key read_key (key_rest (unpack_one f) (unpack_entries f) n parent is_arr)
        (key_rest (unpack_one g) (unpack_entries g) n parent is_arr) read_key-Stable
        (λ k.
          Extends-bind (unpack_one f) (unpack_one g)
            (child_rest (unpack_entries f) n parent is_arr k)
            (child_rest (unpack_entries g) n parent is_arr k) (unpack_one-Extends f g (omega arith))
            (λ v.
              Extends-lift (attach parent is_arr k v) (λ w p. unpack_entries f n p w is_arr)
                (λ w p. unpack_entries g n p w is_arr)
                (λ w. unpack_entries-Extends f g (omega arith) n w is_arr)))
        p more a r e

All-front : (xs ys : Bytes) → All IsByte (xs ++ ys) → All IsByte xs
All-front [] ys h = tt
All-front (x ∷ xs) ys h = (h.0, All-front xs ys h.1)

-- Were the front accepted, the whole would decode with the rest left over.
front_refused :
    (v : Value) (front back : Bytes) (x : ℕ)
    → IsValue v
    → length (encode v) < 2 ^ 63
    → encode v ≡ front ++ (x ∷ back)
    → (w : Value) → value_unpack front ≢ done w
unfolding value_unpack finish
front_refused v front back x h small e w accepted =
    let ((u, q), first, rest) =
      >>=-eq-done (unpack_one (2 * length front + 1) front) finish accepted in
    let fuel : ℕ = 2 * length (encode v) + 1 in
    let enough : 2 * length front + 1 ≤ fuel =
      omega (arith, ap length e, length-append {0} front (x ∷ back)) in
    let longer : unpack_one fuel (encode v) ≡ done (u, q ++ (x ∷ back)) =
      subst (λ t. unpack_one fuel t ≡ done (u, q ++ (x ∷ back))) (sym e)
        (unpack_one-Extends (2 * length front + 1) fuel enough front (x ∷ back) u q first) in
    let whole : unpack_one fuel (encode v) ≡ done (unpacked v, []) =
      rw append-nil at (unpack_one-encode fuel v [] h small (omega arith)) in
    let left : q ++ (x ∷ back) ≡ [] = cc in
    absurd (omega (arith, ap length left, length-append {0} q (x ∷ back)))

Ensures-refused : (r : Outcome Value) → Ensures IsValue r → ((w : Value) → r ≢ done w) → r ≡ refused
Ensures-refused (done w) h no_value = absurd (no_value w refl)
Ensures-refused refused h no_value = refl
Ensures-refused fault h no_value = absurd ((Ensures-ends h).1 refl)
Ensures-refused stuck h no_value = absurd ((Ensures-ends h).0 refl)

-- Every proper prefix of what `value_pack` wrote for a well-formed value, whose wire format and ten
-- bytes more fit in half of size_t, is refused by `value_unpack`.
pub value_unpack_truncated :
    (v : Value) (front back : Bytes) (x : ℕ)
    → IsValue v
    → length (encode v) + 10 ≤ 2 ^ 63
    → value_pack v ≡ done (front ++ (x ∷ back))
    → value_unpack front ≡ refused
value_unpack_truncated v front back x h small packed =
    let e : encode v ≡ front ++ (x ∷ back) = cc (value_pack-encode v h small) in
    let fits : length front < 2 ^ 63 =
      omega (arith, ap length e, length-append {0} front (x ∷ back)) in
    let bytes : All IsByte front =
      All-front front (x ∷ back) (rw e at (encode-IsByte v h (omega arith))) in
    Ensures-refused (value_unpack front) (value_unpack-Ensures front bytes fits)
      (front_refused v front back x h (omega arith) e)

-- What `value_pack` wrote for a well-formed value, whose wire format and ten bytes more fit in half
-- of size_t, is refused by `value_unpack` with any bytes behind it.
pub value_unpack_trailing :
    (v : Value) (more : Bytes) (x : ℕ) (buf : Bytes)
    → IsValue v
    → length (encode v) + 10 ≤ 2 ^ 63
    → value_pack v ≡ done buf
    → value_unpack (buf ++ (x ∷ more)) ≡ refused
unfolding value_unpack finish
value_unpack_trailing v more x buf h small packed =
    let e : encode v ≡ buf = cc (value_pack-encode v h small) in
    let fuel : ℕ = 2 * length (buf ++ (x ∷ more)) + 1 in
    let first : unpack_one fuel (buf ++ (x ∷ more)) ≡ done (unpacked v, x ∷ more) = rw e at (
      unpack_one-encode fuel v (x ∷ more) h (omega arith)
        (omega (arith, ap length e, length-append {0} buf (x ∷ more)))) in
    rw first
