-- ===== src/Pack/Encode/Lengths.antt =====
-- How long the parts of the wire format are.
use php_parallax.Prelude.{
  ℕ, zero, suc, ◌+◌, ◌*◌, ◌^◌, ◌≤◌, ◌<◌, arith, Bool, true, false, [], ◌∷◌, ◌++◌, ◌≡◌, refl, ap,
  sym, ◌↔◌, ◌∙◌, subst, append_assoc, append-nil, none, some, ◌==◌, length, length-append, Outcome,
  done, ◌>>=◌, if◌then◌else◌,
}
use php_parallax.Prelude.Int.{to_u64}
use php_parallax.Value.{Bytes, Key, int_key, str_key, Value, Items, absent, nil, item, count}
use php_parallax.Pack.Varint.Write.{groups, length-groups}
pub use php_parallax.Pack.Buffer.Double.{length-double_out}
use php_parallax.Pack.Encode.{sized, key_bytes, encode, encode_items}

pub length-bytes-append : (p q : Bytes) → length (p ++ q) ≡ length p + length q
length-bytes-append = length-append

pub length-groups_pos : (v : ℕ) → 1 ≤ length (groups 9 v)
length-groups_pos v = (length-groups 9 v).0

pub length-key_bytes_two : (k : Key) → 2 ≤ length (key_bytes k)
unfolding key_bytes sized
length-key_bytes_two (int_key i) = omega (arith, length-groups_pos (to_u64 i))
length-key_bytes_two (str_key s) =
    omega (arith, length-groups_pos (length s), length-bytes-append (groups 9 (length s)) s)

pub length-encode_pos : (v : Value) → 1 ≤ length (encode v)
unfolding encode
length-encode_pos absent = omega arith
length-encode_pos _ = omega arith

pub length-sized : (s : Bytes) → length s < length (sized s)
unfolding sized
length-sized s =
    omega (arith, length-groups_pos (length s), length-bytes-append (groups 9 (length s)) s)

pub ruleset lengths = (
  arith, length-bytes-append, length-groups_pos, length-key_bytes_two, length-encode_pos,
  length-double_out,
)

pub length-item :
    (k : Key) (v : Value) (xs : Items)
    → (length (encode_items (item k v xs))
        ≡ length (key_bytes k) + length (encode v) + length (encode_items xs))
      × (2 ≤ length (key_bytes k))
      × (1 ≤ length (encode v))
unfolding encode
length-item k v xs =
    (simp length-bytes-append (omega arith), length-key_bytes_two k, length-encode_pos v)

pub count-le : (xs : Items) → 3 * count xs ≤ length (encode_items xs)
unfolding encode
count-le nil = omega arith
count-le (item k v xs) = omega (arith, length-item k v xs, count-le xs)
