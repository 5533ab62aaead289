-- ===== src/Pack/Decode/RoundTrip.antt =====
-- `value_unpack` on what `value_pack` wrote.
use php_parallax.Prelude.{
  ◌+◌, ◌*◌, ◌^◌, ◌≤◌, arith, [], ◌≡◌, ap, sym, ◌↔◌, ◌∙◌, append-nil, length, done, ◌>>=◌,
}
use php_parallax.Value.{Value, IsValue}
use php_parallax.Value.Snapshot.{snapshot}
use php_parallax.Pack.Encode.{encode, value_pack}
use php_parallax.Pack.Encode.Refines.{value_pack-encode}
use php_parallax.Pack.Decode.{unpack_one, finish, value_unpack}
use php_parallax.Pack.Decode.Rebuild.{
  unpacked, rebuild, unpacked-rebuild, snapshot-rebuild, encode-unpacked,
}
use php_parallax.Pack.Decode.Inverse.{unpack_one-encode}

-- For a well-formed value whose wire format, and ten bytes more, fit in half of size_t, packing and
-- then unpacking reports no error and returns the value that `rebuild` makes of the source's
-- snapshot, and that value has the same snapshot: the same data, whatever the capacities were.
pub value_unpack-value_pack :
    (v : Value)
    → IsValue v
    → length (encode v) + 10 ≤ 2 ^ 63
    → ((value_pack v >>= value_unpack) ≡ done (rebuild (snapshot v)))
      × (snapshot (rebuild (snapshot v)) ≡ snapshot v)
unfolding value_unpack finish
value_unpack-value_pack v h small =
    let whole : unpack_one (2 * length (encode v) + 1) (encode v) ≡ done (unpacked v, []) =
      rw append-nil at
        (unpack_one-encode (2 * length (encode v) + 1) v [] h (omega arith) (omega arith)) in
    (rw (value_pack-encode v h small, whole, unpacked-rebuild v), snapshot-rebuild (snapshot v))

-- Two well-formed values, each with a wire format that, and ten bytes more, fits in half of size_t,
-- pack to the same bytes exactly when their snapshots are the same.
pub value_pack-eq_iff :
    (v w : Value)
    → IsValue v
    → IsValue w
    → length (encode v) + 10 ≤ 2 ^ 63
    → length (encode w) + 10 ≤ 2 ^ 63
    → (value_pack v ≡ value_pack w) ↔ (snapshot v ≡ snapshot w)
value_pack-eq_iff v w hv hw sv sw = (forth, back)
  where
    forth : value_pack v ≡ value_pack w → snapshot v ≡ snapshot w
    forth e =
        let same : done (rebuild (snapshot v)) ≡ done (rebuild (snapshot w)) =
          sym (value_unpack-value_pack v hv sv).0
          ∙ ap (λ t. t >>= value_unpack) e
          ∙ (value_unpack-value_pack w hw sw).0 in
        let built : rebuild (snapshot v) ≡ rebuild (snapshot w) = cc in
        sym (snapshot-rebuild (snapshot v)) ∙ ap snapshot built ∙ snapshot-rebuild (snapshot w)

    back : snapshot v ≡ snapshot w → value_pack v ≡ value_pack w
    back e =
        let built : unpacked v ≡ unpacked w =
          unpacked-rebuild v ∙ ap rebuild e ∙ sym (unpacked-rebuild w) in
        value_pack-encode v hv sv
        ∙ ap done (sym (encode-unpacked v) ∙ ap encode built ∙ encode-unpacked w)
        ∙ sym (value_pack-encode w hw sw)
