-- ===== src/Pack/Encode.antt =====
-- value/pack.c: `pack_one` and `value_pack`, and the wire format that they write.
-- The `text` of a VAL_ERR field holds the bytes that `p ? strlen(p) : 0` counts.
pub mod Lengths
pub mod Refines
pub mod Range
use php_parallax.Prelude.{
  ℕ, Bool, true, false, List, [], ◌∷◌, ◌++◌, Option, none, some, if◌then◌else◌, length, Outcome,
  done, ◌>>=◌,
}
use php_parallax.Prelude.Int.{to_u64}
use php_parallax.Value.{
  Bytes, CStr, Key, int_key, str_key, Value, Items, absent, null, bool, long, double, str, arr, obj,
  err, nil, item, count,
}
use php_parallax.Value.Snapshot.{text}
use php_parallax.Pack.Varint.Write.{groups}
use php_parallax.Pack.Buffer.{
  Wbuf, wbuf_init, wbuf_u8, wbuf_bytes, wbuf_varint, double_out, wbuf_double,
}

-- A length, then that many bytes.
unfoldable pub pack_sized : Wbuf → Bytes → Outcome Wbuf
pack_sized b p = do b ← wbuf_varint b (length p); wbuf_bytes b p

unfoldable pub pack_key : Wbuf → Key → Outcome Wbuf
pack_key b (int_key i) = do b ← wbuf_u8 b 1; wbuf_varint b (to_u64 i)
pack_key b (str_key s) = do b ← wbuf_u8 b 0; pack_sized b s

-- The first byte is `v->tag`, and VAL_NULL for NULL.
unfoldable mutual
  pub pack_one : Wbuf → Value → Outcome Wbuf
  pack_one b absent = wbuf_u8 b 0
  pack_one b null = wbuf_u8 b 0
  pack_one b (bool x) = do b ← wbuf_u8 b 1; wbuf_u8 b (if x then 1 else 0)
  pack_one b (long i) = do b ← wbuf_u8 b 2; wbuf_varint b (to_u64 i)
  pack_one b (double d) = do b ← wbuf_u8 b 3; wbuf_double b d
  pack_one b (str p) = do b ← wbuf_u8 b 4; pack_sized b p
  pack_one b (arr items cap) = do
    b ← wbuf_u8 b 5
    b ← wbuf_varint b (count items)
    pack_items b items
  pack_one b (obj cls props cap) = do
    b ← wbuf_u8 b 6
    b ← pack_sized b cls
    b ← wbuf_varint b (count props)
    pack_items b props
  pack_one b (err cls msg code trace) = do
    b ← wbuf_u8 b 7
    b ← pack_sized b (text cls)
    b ← pack_sized b (text msg)
    b ← wbuf_varint b (to_u64 code)
    pack_sized b (text trace)

  -- The loop of `pack_kv_block`.
  pub pack_items : Wbuf → Items → Outcome Wbuf
  pack_items b nil = done b
  pack_items b (item k v xs) = do b ← pack_key b k; b ← pack_one b v; pack_items b xs

-- The buffer `*out_buf` of `*out_len` bytes.
unfoldable pub value_pack : Value → Outcome Bytes
value_pack v = do b ← pack_one wbuf_init v; done b.bytes

-- The wire format, with no buffer: numbers in base 128, texts behind their lengths.
unfoldable pub sized : Bytes → Bytes
sized p = groups 9 (length p) ++ p

unfoldable pub key_bytes : Key → Bytes
unfolding sized
key_bytes (int_key i) = 1 ∷ groups 9 (to_u64 i)
key_bytes (str_key s) = 0 ∷ sized s

unfoldable mutual
  pub encode : Value → Bytes
  encode absent = 0 ∷ []
  encode null = 0 ∷ []
  encode (bool x) = 1 ∷ (if x then 1 else 0) ∷ []
  encode (long i) = 2 ∷ groups 9 (to_u64 i)
  encode (double d) = 3 ∷ double_out 8 0 d
  encode (str p) = 4 ∷ sized p
  encode (arr items cap) = 5 ∷ (groups 9 (count items) ++ encode_items items)
  encode (obj cls props cap) = 6 ∷ (sized cls ++ (groups 9 (count props) ++ encode_items props))
  encode (err cls msg code trace) =
      7 ∷ (sized (text cls) ++ (sized (text msg) ++ (groups 9 (to_u64 code) ++ sized (text trace))))

  pub encode_items : Items → Bytes
  encode_items nil = []
  encode_items (item k v xs) = key_bytes k ++ (encode v ++ encode_items xs)
