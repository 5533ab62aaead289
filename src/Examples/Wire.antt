-- ===== src/Examples/Wire.antt =====
-- Packing and unpacking a value by the theorems of Pack, and runs of both.
use php_parallax.Prelude.{
  ℕ, ◌+◌, ◌^◌, ◌≤◌, ◌<◌, ◌≡◌, refl, ap, ◌∙◌, arith, [], ◌∷◌, ◌++◌, length, done, refused, ◌>>=◌,
  Ensures, ◌↔◌, All,
}
use php_parallax.Prelude.Int.{pos, negsuc, to_u64}
use php_parallax.Value.{
  Bytes, Value, arr, obj, long, str, nil, item, int_key, str_key, IsValue, IsByte,
}
use php_parallax.Value.Snapshot.{snapshot}
use php_parallax.Pack.Varint.{varint_write, varint_read}
use php_parallax.Pack.Varint.Write.{groups}
use php_parallax.Pack.Varint.Read.{varint_read-varint_write}
use php_parallax.Pack.Varint.Bounds.{varint_read-Ensures}
use php_parallax.Pack.Encode.{value_pack, encode, sized, key_bytes}
use php_parallax.Pack.Encode.Refines.{value_pack-encode}
use php_parallax.Pack.Decode.{value_unpack}
use php_parallax.Pack.Decode.Rebuild.{rebuild}
use php_parallax.Pack.Decode.RoundTrip.{value_unpack-value_pack, value_pack-eq_iff}
use php_parallax.Pack.Decode.Sound.{value_unpack-Ensures}
use php_parallax.Pack.Decode.Prefix.{value_unpack_truncated, value_unpack_trailing}

-- `['a' => -7, 0 => "hi"]`, at capacity `cap`.
abbrev entries_at : ℕ → Value
entries_at cap =
    arr
      (item (str_key (97 ∷ [])) (long (negsuc 6))
        (item (int_key (pos 0)) (str (104 ∷ 105 ∷ [])) nil))
      cap

-- An object of class `P` whose property `x` is that array.
abbrev sample : ℕ → Value
sample cap = obj (80 ∷ []) (item (str_key (120 ∷ [])) (entries_at cap) nil) 4

sample-IsValue : (cap : ℕ) → 2 ≤ cap → IsValue (sample cap)
sample-IsValue cap h = omega arith

abbrev sample_front : Bytes
sample_front =
    6 ∷ 1 ∷ 80 ∷ 1 ∷ 0 ∷ 1 ∷ 120 ∷ 5 ∷ 2 ∷ 0 ∷ 1 ∷ 97 ∷ 2 ∷ 249 ∷ 255 ∷ 255 ∷ 255 ∷ 255 ∷ 255 ∷ 255
    ∷ 255 ∷ 255 ∷ 1 ∷ 1 ∷ 0 ∷ 4 ∷ 2 ∷ 104 ∷ []

sample-encode : (cap : ℕ) → encode (sample cap) ≡ sample_front ++ (105 ∷ [])
unfolding encode sized key_bytes groups to_u64
sample-encode cap = refl

sample_small : (cap : ℕ) → length (encode (sample cap)) + 10 ≤ 2 ^ 63
unfolding encode sized key_bytes groups to_u64
sample_small cap = omega arith

value_pack-encode_example : value_pack (sample 4) ≡ done (encode (sample 4))
value_pack-encode_example =
    value_pack-encode (sample 4) (sample-IsValue 4 (omega arith)) (sample_small 4)

sample_packed : value_pack (sample 4) ≡ done (sample_front ++ (105 ∷ []))
sample_packed = value_pack-encode_example ∙ ap done (sample-encode 4)

value_unpack-value_pack_example :
    ((value_pack (sample 4) >>= value_unpack) ≡ done (rebuild (snapshot (sample 4))))
    × (snapshot (rebuild (snapshot (sample 4))) ≡ snapshot (sample 4))
value_unpack-value_pack_example =
    value_unpack-value_pack (sample 4) (sample-IsValue 4 (omega arith)) (sample_small 4)

-- Two capacities, one wire format.
value_pack-eq_iff_example :
    (value_pack (sample 4) ≡ value_pack (sample 2)) ↔ (snapshot (sample 4) ≡ snapshot (sample 2))
value_pack-eq_iff_example =
    value_pack-eq_iff (sample 4) (sample 2) (sample-IsValue 4 (omega arith))
      (sample-IsValue 2 (omega arith)) (sample_small 4) (sample_small 2)

value_unpack_truncated_example : value_unpack sample_front ≡ refused
value_unpack_truncated_example =
    value_unpack_truncated (sample 4) sample_front [] 105 (sample-IsValue 4 (omega arith))
      (sample_small 4) sample_packed

value_unpack_trailing_example : value_unpack ((sample_front ++ (105 ∷ [])) ++ (0 ∷ [])) ≡ refused
value_unpack_trailing_example =
    value_unpack_trailing (sample 4) [] 0 (sample_front ++ (105 ∷ []))
      (sample-IsValue 4 (omega arith)) (sample_small 4) sample_packed

-- An array that promises more entries than there are bytes.
abbrev hostile : Bytes
hostile = 5 ∷ 255 ∷ 255 ∷ 3 ∷ 1 ∷ 7 ∷ 0 ∷ []

value_unpack-Ensures_example : Ensures IsValue (value_unpack hostile)
value_unpack-Ensures_example = value_unpack-Ensures hostile (omega arith) (omega arith)

varint_read-varint_write_example : varint_read (varint_write 300 ++ (9 ∷ [])) ≡ done (300, 9 ∷ [])
varint_read-varint_write_example = varint_read-varint_write 300 (9 ∷ []) (omega arith)

varint_read-Ensures_example :
    Ensures
      (λ (x, r).
        (x < 2 ^ 64)
        × (length r < 3)
        × (3 ≤ length r + 10)
        × (All IsByte (172 ∷ 2 ∷ 9 ∷ []) → All IsByte r))
      (varint_read (172 ∷ 2 ∷ 9 ∷ []))
varint_read-Ensures_example = varint_read-Ensures (172 ∷ 2 ∷ 9 ∷ [])
