-- ===== src/Pack/Decode/Inverse.antt =====
-- `unpack_one` undoes the wire format, given twice the length in fuel.
use php_parallax.Prelude.{
  ℕ, zero, suc, ◌+◌, ◌*◌, ◌^◌, ◌<◌, arith, Bool, true, false, [], ◌++◌, ◌≡◌, refl, subst,
  append_assoc, some, length, Outcome, done,
}
use php_parallax.Prelude.Int.{ℤ, to_u64, of_u64-to_u64, to_u64-lt}
use php_parallax.Value.{
  Bytes, CStr, Value, Items, absent, null, bool, long, double, str, arr, obj, err, nil, item, count,
  snoc, join, value_err, IsValue,
}
use php_parallax.Value.Capacity.{room, IsRoomy, room-lt, count-snoc, join-snoc, join-nil}
use php_parallax.Pack.Varint.Write.{groups}
use php_parallax.Pack.Buffer.Double.{read_double-double_out}
use php_parallax.Value.Snapshot.{text, until_nul-text}
use php_parallax.Pack.Encode.{sized, key_bytes, encode, encode_items}
use php_parallax.Pack.Decode.{val_tag_of, unpack_case, val_err, unpack_one, unpack_entries}
use php_parallax.Pack.Decode.Rebuild.{cap_after, unpacked, unpacked_items}
use php_parallax.Pack.Encode.Lengths.{lengths, length-sized, length-item, count-le}
use php_parallax.Pack.Decode.Entries.{
  parent_of, IsEntries, IsItems→IsEntries, IsProperties→IsEntries, IsEntryKey-IsKey, attach-done,
}
use php_parallax.Pack.Decode.Parts.{varint_read-groups, read_sized-sized, read_key-key_bytes}

-- The VAL_ERR case, on what was packed of an error whose texts hold no NUL.
unpack_case_err :
    (entries : ℕ → Bytes → Value → Bool → Outcome (Value × Bytes)) (cls msg : CStr) (code : ℤ)
    (trace : CStr) (rest : Bytes)
    → IsValue (err cls msg code trace)
    → length (encode (err cls msg code trace)) < 2 ^ 63
    → unpack_case entries (some val_err) (
        (sized (text cls) ++ (sized (text msg) ++ (groups 9 (to_u64 code) ++ sized (text trace))))
        ++ rest)
      ≡ done (unpacked (err cls msg code trace), rest)
unfolding unpack_case encode unpacked value_err
unpack_case_err entries cls msg code trace rest h small =
    let after_code = sized (text trace) in
    let after_msg = groups 9 (to_u64 code) ++ after_code in
    let after_cls = sized (text msg) ++ after_msg in
    rw (
      append_assoc (sized (text cls)) after_cls rest,
      read_sized-sized (text cls) (after_cls ++ rest) (omega (lengths, length-sized (text cls))),
      append_assoc (sized (text msg)) after_msg rest,
      read_sized-sized (text msg) (after_msg ++ rest) (omega (lengths, length-sized (text msg))),
      append_assoc (groups 9 (to_u64 code)) after_code rest,
      varint_read-groups (to_u64 code) (after_code ++ rest) (to_u64-lt code h.2),
      read_sized-sized (text trace) rest (omega (lengths, length-sized (text trace))),
      of_u64-to_u64 code h.2,
      until_nul-text cls h.0,
      until_nul-text msg h.1,
      until_nul-text trace h.3,
    )

mutual
  unfolding cap_after unpack_one unpack_case val_tag_of encode unpacked

  pub unpack_one-encode :
      (f : ℕ) (v : Value) (rest : Bytes)
      → IsValue v
      → length (encode v) < 2 ^ 63
      → 2 * length (encode v) < f
      → unpack_one f (encode v ++ rest) ≡ done (unpacked v, rest)
  unpack_one-encode zero v rest h small fuel = absurd (omega arith)
  unpack_one-encode (suc f) absent rest h small fuel = refl
  unpack_one-encode (suc f) null rest h small fuel = refl
  unpack_one-encode (suc f) (bool true) rest h small fuel = refl
  unpack_one-encode (suc f) (bool false) rest h small fuel = refl
  unpack_one-encode (suc f) (long i) rest h small fuel =
      rw (varint_read-groups (to_u64 i) rest (to_u64-lt i h), of_u64-to_u64 i h)
  unpack_one-encode (suc f) (double d) rest h small fuel = rw (read_double-double_out d rest h)
  unpack_one-encode (suc f) (str p) rest h small fuel =
      rw (read_sized-sized p rest (omega (lengths, length-sized p)))
  unpack_one-encode (suc f) (arr xs cap) rest h small fuel =
      rw
        (
          append_assoc (groups 9 (count xs)) (encode_items xs) rest,
          varint_read-groups (count xs) (encode_items xs ++ rest) (omega (lengths, count-le xs)),
        )
        (unpack_entries-encode_items f xs rest [] true nil 0 (IsItems→IsEntries xs h.0)
          (omega arith) (omega lengths) (omega lengths))
  unpack_one-encode (suc f) (obj cls xs cap) rest h small fuel =
      rw
        (
          append_assoc (sized cls) (groups 9 (count xs) ++ encode_items xs) rest,
          read_sized-sized cls ((groups 9 (count xs) ++ encode_items xs) ++ rest)
              (omega (lengths, length-sized cls)),
          append_assoc (groups 9 (count xs)) (encode_items xs) rest,
          varint_read-groups (count xs) (encode_items xs ++ rest) (omega (lengths, count-le xs)),
        )
        (unpack_entries-encode_items f xs rest cls false nil 0 (IsProperties→IsEntries xs h.1)
          (omega arith) (omega lengths) (omega lengths))
  unpack_one-encode (suc f) (err cls msg code trace) rest h small fuel =
      unpack_case_err (unpack_entries f) cls msg code trace rest h small

  unpack_entries-encode_items :
      (f : ℕ) (xs : Items) (rest cls : Bytes) (is_arr : Bool) (acc : Items) (cap : ℕ)
      → IsEntries is_arr xs
      → IsRoomy (count acc) cap
      → 3 * count acc + length (encode_items xs) < 2 ^ 63
      → 2 * length (encode_items xs) + 1 < f
      → unpack_entries f (count xs) (encode_items xs ++ rest) (parent_of cls is_arr acc cap) is_arr
        ≡ done (
          parent_of cls is_arr
              (join acc (unpacked_items xs))
              (cap_after cap (count acc) (count xs)),
          rest,
        )
  unpack_entries-encode_items zero xs rest cls is_arr acc cap h r small fuel = absurd (omega arith)
  unpack_entries-encode_items (suc f) nil rest cls is_arr acc cap h r small fuel =
      rw (join-nil acc) refl
  unpack_entries-encode_items (suc f) (item k v xs) rest cls is_arr acc cap h r small fuel =
      rw
        (
          append_assoc (key_bytes k) (encode v ++ encode_items xs) rest,
          read_key-key_bytes k ((encode v ++ encode_items xs) ++ rest)
              (IsEntryKey-IsKey is_arr k h.0) (omega (arith, length-item k v xs)),
          append_assoc (encode v) (encode_items xs) rest,
          unpack_one-encode f v (encode_items xs ++ rest) h.1 (omega (arith, length-item k v xs))
              (omega (arith, length-item k v xs)),
          attach-done cls is_arr acc cap k (unpacked v) h.0 r (omega (arith, length-item k v xs)),
        )
        (subst
          (λ n.
            unpack_entries f (count xs) (encode_items xs ++ rest)
              (parent_of cls is_arr (snoc acc k (unpacked v)) (room (count acc) cap)) is_arr
            ≡ done (
              parent_of cls is_arr (join acc (item k (unpacked v) (unpacked_items xs)))
                  (cap_after (room (count acc) cap) n (count xs)),
              rest,
            ))
          (count-snoc acc k (unpacked v))
          (rw (join-snoc acc k (unpacked v) (unpacked_items xs)) at (
            unpack_entries-encode_items f xs rest cls is_arr (snoc acc k (unpacked v))
              (room (count acc) cap) h.2
              (rw (count-snoc acc k (unpacked v))
                (room-lt (count acc) cap r (omega (arith, length-item k v xs))).1)
              (omega (arith, length-item k v xs, count-snoc acc k (unpacked v)))
              (omega (arith, length-item k v xs)))))
