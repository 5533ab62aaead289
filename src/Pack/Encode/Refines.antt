-- ===== src/Pack/Encode/Refines.antt =====
-- `value_pack` writes the wire format: it ends, and every store is within the buffer.
use php_parallax.Prelude.{
  ◌+◌, ◌^◌, ◌≤◌, arith, [], ◌∷◌, ◌++◌, ◌≡◌, ap, append-nil, length, done, returns, Returns-done,
  if◌then◌else◌, sym,
}
use php_parallax.Prelude.Int.{to_u64, to_u64-lt}
use php_parallax.Value.{
  Bytes, Key, int_key, str_key, Value, Items, absent, null, bool, long, double, str, arr, obj, err,
  nil, item, count, IsKey, IsValue, IsItems, IsProperties→IsItems,
}
use php_parallax.Value.Snapshot.{text}
use php_parallax.Pack.Varint.Write.{groups}
use php_parallax.Pack.Buffer.{Wbuf, wbuf_init, double_out}
use php_parallax.Pack.Buffer.Writes.{
  InBounds, Room, Writes, Writes-bind, wbuf_u8-Writes, wbuf_bytes-Writes, wbuf_varint-Writes,
  wbuf_double-Writes,
}
use php_parallax.Pack.Encode.{
  pack_sized, pack_key, pack_one, pack_items, value_pack, sized, key_bytes, encode, encode_items,
}
use php_parallax.Pack.Encode.Lengths.{lengths, count-le}

pack_sized-Writes :
    (b : Wbuf) (p : Bytes) → Room b (length (sized p)) → Writes b (sized p) (pack_sized b p)
unfolding pack_sized sized
pack_sized-Writes b p room =
    Writes-bind b (groups 9 (length p)) p
      (wbuf_varint-Writes b (length p) (omega lengths) (omega arith))
      λ b' h e. wbuf_bytes-Writes b' p (omega lengths)

pack_key-Writes :
    (b : Wbuf) (k : Key)
    → IsKey k
    → Room b (length (key_bytes k))
    → Writes b (key_bytes k) (pack_key b k)
unfolding pack_key key_bytes
pack_key-Writes b (int_key i) hk room =
    Writes-bind b (1 ∷ []) (groups 9 (to_u64 i)) (wbuf_u8-Writes b 1 (omega arith) (omega arith))
      λ b' h e. wbuf_varint-Writes b' (to_u64 i) (to_u64-lt i hk) (omega lengths)
pack_key-Writes b (str_key s) hk room =
    Writes-bind b (0 ∷ []) (sized s) (wbuf_u8-Writes b 0 (omega arith) (omega arith))
      λ b' h e. pack_sized-Writes b' s (omega lengths)

mutual
  unfolding pack_one encode

  pack_one-Writes :
      (b : Wbuf) (v : Value)
      → IsValue v
      → InBounds b
      → Room b (length (encode v))
      → Writes b (encode v) (pack_one b v)
  pack_one-Writes b absent h i room = wbuf_u8-Writes b 0 (omega arith) (omega arith)
  pack_one-Writes b null h i room = wbuf_u8-Writes b 0 (omega arith) (omega arith)
  pack_one-Writes b (bool x) h i room =
      Writes-bind b (1 ∷ []) ((if x then 1 else 0) ∷ [])
        (wbuf_u8-Writes b 1 (omega arith) (omega arith))
        λ b' h' e. wbuf_u8-Writes b' (if x then 1 else 0) (ground arith) (omega arith)
  pack_one-Writes b (long n) h i room =
      Writes-bind b (2 ∷ []) (groups 9 (to_u64 n)) (wbuf_u8-Writes b 2 (omega arith) (omega arith))
        λ b' h' e. wbuf_varint-Writes b' (to_u64 n) (to_u64-lt n h) (omega lengths)
  pack_one-Writes b (double d) h i room =
      Writes-bind b (3 ∷ []) (double_out 8 0 d) (wbuf_u8-Writes b 3 (omega arith) (omega arith))
        λ b' h' e. wbuf_double-Writes b' d (omega lengths)
  pack_one-Writes b (str p) h i room =
      Writes-bind b (4 ∷ []) (sized p) (wbuf_u8-Writes b 4 (omega arith) (omega arith))
        λ b' h' e. pack_sized-Writes b' p (omega lengths)
  pack_one-Writes b (arr xs cap) h i room =
      Writes-bind b (5 ∷ []) (groups 9 (count xs) ++ encode_items xs)
        (wbuf_u8-Writes b 5 (omega arith) (omega arith))
        λ b₁ h₁ e₁.
          Writes-bind b₁ (groups 9 (count xs)) (encode_items xs)
            (wbuf_varint-Writes b₁ (count xs) (omega (lengths, count-le xs)) (omega lengths))
            λ b₂ h₂ e₂. pack_items-Writes b₂ xs h.0 h₂ (omega lengths)
  pack_one-Writes b (obj cls xs cap) h i room =
      Writes-bind b (6 ∷ []) (sized cls ++ (groups 9 (count xs) ++ encode_items xs))
        (wbuf_u8-Writes b 6 (omega arith) (omega arith))
        λ b₁ h₁ e₁.
          Writes-bind b₁ (sized cls) (groups 9 (count xs) ++ encode_items xs)
            (pack_sized-Writes b₁ cls (omega lengths))
            λ b₂ h₂ e₂.
              Writes-bind b₂ (groups 9 (count xs)) (encode_items xs)
                (wbuf_varint-Writes b₂ (count xs) (omega (lengths, count-le xs)) (omega lengths))
                λ b₃ h₃ e₃. pack_items-Writes b₃ xs (IsProperties→IsItems xs h.1) h₃ (omega lengths)
  pack_one-Writes b (err cls msg code trace) h i room =
      let after_code = sized (text trace) in
      let after_msg = groups 9 (to_u64 code) ++ after_code in
      let after_cls = sized (text msg) ++ after_msg in
      Writes-bind b (7 ∷ []) (sized (text cls) ++ after_cls)
        (wbuf_u8-Writes b 7 (omega arith) (omega arith))
        λ b₁ h₁ e₁.
          Writes-bind b₁ (sized (text cls)) after_cls
            (pack_sized-Writes b₁ (text cls) (omega lengths))
            λ b₂ h₂ e₂.
              Writes-bind b₂ (sized (text msg)) after_msg
                (pack_sized-Writes b₂ (text msg) (omega lengths))
                λ b₃ h₃ e₃.
                  Writes-bind b₃ (groups 9 (to_u64 code)) after_code
                    (wbuf_varint-Writes b₃ (to_u64 code) (to_u64-lt code h.2) (omega lengths))
                    λ b₄ h₄ e₄. pack_sized-Writes b₄ (text trace) (omega lengths)

  pack_items-Writes :
      (b : Wbuf) (xs : Items)
      → IsItems xs
      → InBounds b
      → Room b (length (encode_items xs))
      → Writes b (encode_items xs) (pack_items b xs)
  pack_items-Writes b nil h i room =
      returns record { appended = sym (append-nil b.bytes); in_bounds = i }
  pack_items-Writes b (item k v xs) h i room =
      Writes-bind b (key_bytes k) (encode v ++ encode_items xs)
        (pack_key-Writes b k h.0 (omega lengths))
        λ b₁ h₁ e₁.
          Writes-bind b₁ (encode v) (encode_items xs) (pack_one-Writes b₁ v h.1 h₁ (omega lengths))
            λ b₂ h₂ e₂. pack_items-Writes b₂ xs h.2 h₂ (omega lengths)

-- For a well-formed value whose wire format, and ten bytes more, fit in half of size_t,
-- `value_pack` returns exactly the wire format: no loop runs on and no store is out of bounds.
pub value_pack-encode :
    (v : Value) → IsValue v → length (encode v) + 10 ≤ 2 ^ 63 → value_pack v ≡ done (encode v)
unfolding value_pack
value_pack-encode v h small =
    let (b, e, w) = Returns-done (pack_one-Writes wbuf_init v h (omega arith) (omega arith)) in
    rw e (ap done w.appended)
