-- ===== src/Pack/Encode/Range.antt =====
-- The wire format is made of bytes.
use php_parallax.Prelude.{
  ℕ, ◌^◌, ◌<◌, arith, true, false, [], ◌∷◌, ◌++◌, none, some, length, All, All-append,
}
use php_parallax.Prelude.Int.{to_u64, to_u64-lt}
use php_parallax.Value.{
  Bytes, CStr, Key, int_key, str_key, Value, Items, absent, null, bool, long, double, str, arr, obj,
  err, nil, item, count, IsByte, IsChar, IsText, IsKey, IsValue, IsItems, IsProperties→IsItems,
}
use php_parallax.Value.Snapshot.{text}
use php_parallax.Pack.Varint.Write.{groups, groups-IsByte}
use php_parallax.Pack.Buffer.Double.{double_out-IsByte}
use php_parallax.Pack.Encode.{sized, key_bytes, encode, encode_items}
use php_parallax.Pack.Encode.Lengths.{lengths, count-le}

number : (v : ℕ) → v < 2 ^ 64 → All IsByte (groups 9 v)
number v h = groups-IsByte 9 v (omega arith)

sized-IsByte : (s : Bytes) → All IsByte s → length (sized s) < 2 ^ 63 → All IsByte (sized s)
unfolding sized
sized-IsByte s h small =
    All-append IsByte (groups 9 (length s)) s (number (length s) (omega lengths)) h

chars : (s : Bytes) → All IsChar s → All IsByte s
chars [] h = tt
chars (c ∷ cs) h = (h.0.1, chars cs h.1)

text-IsByte : (s : CStr) → IsText s → All IsByte (text s)
text-IsByte none h = tt
text-IsByte (some s) h = chars s h

key_bytes-IsByte : (k : Key) → IsKey k → length (key_bytes k) < 2 ^ 63 → All IsByte (key_bytes k)
unfolding key_bytes
key_bytes-IsByte (int_key i) h small = (omega arith, number (to_u64 i) (to_u64-lt i h))
key_bytes-IsByte (str_key s) h small = (omega arith, sized-IsByte s h (omega arith))

mutual
  unfolding encode

  bytes_of : (v : Value) → IsValue v → length (encode v) < 2 ^ 63 → All IsByte (encode v)
  bytes_of absent h small = (omega arith, tt)
  bytes_of null h small = (omega arith, tt)
  bytes_of (bool true) h small = (omega arith, (omega arith, tt))
  bytes_of (bool false) h small = (omega arith, (omega arith, tt))
  bytes_of (long i) h small = (omega arith, number (to_u64 i) (to_u64-lt i h))
  bytes_of (double d) h small = (omega arith, double_out-IsByte 8 0 d)
  bytes_of (str p) h small = (omega arith, sized-IsByte p h (omega arith))
  bytes_of (arr xs cap) h small = (
    omega arith,
    All-append IsByte (groups 9 (count xs)) (encode_items xs)
        (number (count xs) (omega (lengths, count-le xs))) (bytes_of_items xs h.0 (omega lengths)),
  )
  bytes_of (obj cls xs cap) h small = (
    omega arith,
    All-append IsByte (sized cls) (groups 9 (count xs) ++ encode_items xs)
        (sized-IsByte cls h.0 (omega lengths))
        (All-append IsByte (groups 9 (count xs)) (encode_items xs)
          (number (count xs) (omega (lengths, count-le xs)))
          (bytes_of_items xs (IsProperties→IsItems xs h.1) (omega lengths))),
  )
  bytes_of (err cls msg code trace) h small =
      let after_msg = groups 9 (to_u64 code) ++ sized (text trace) in
      (
        omega arith,
        All-append IsByte (sized (text cls)) (sized (text msg) ++ after_msg)
            (sized-IsByte (text cls) (text-IsByte cls h.0) (omega lengths))
            (All-append IsByte (sized (text msg)) after_msg
              (sized-IsByte (text msg) (text-IsByte msg h.1) (omega lengths))
              (All-append IsByte (groups 9 (to_u64 code)) (sized (text trace))
                (number (to_u64 code) (to_u64-lt code h.2))
                (sized-IsByte (text trace) (text-IsByte trace h.3) (omega lengths)))),
      )

  bytes_of_items :
      (xs : Items) → IsItems xs → length (encode_items xs) < 2 ^ 63 → All IsByte (encode_items xs)
  bytes_of_items nil h small = tt
  bytes_of_items (item k v xs) h small =
      All-append IsByte (key_bytes k) (encode v ++ encode_items xs)
        (key_bytes-IsByte k h.0 (omega lengths))
        (All-append IsByte (encode v) (encode_items xs) (bytes_of v h.1 (omega lengths))
          (bytes_of_items xs h.2 (omega lengths)))

pub encode-IsByte : (v : Value) → IsValue v → length (encode v) < 2 ^ 63 → All IsByte (encode v)
encode-IsByte v h small = bytes_of v h small
