-- ===== src/Pack/Decode/Rebuild.antt =====
-- The value that `value_unpack` builds, from the data alone.
use php_parallax.Prelude.{ℕ, zero, suc, ◌≡◌, refl, sym, ap, some}
use php_parallax.Value.{
  Value, Items, absent, null, bool, long, double, str, arr, obj, err, nil, item, count,
}
use php_parallax.Value.Capacity.{room}
use php_parallax.Value.Snapshot.{Snapshot, Entries, text, snapshot, entries}
use php_parallax.Pack.Encode.{encode, encode_items}

-- The capacity after `k` appends to `n` entries in capacity `cap`.
unfoldable pub cap_after : ℕ → ℕ → ℕ → ℕ
cap_after cap n zero = cap
cap_after cap n (suc k) = cap_after (room n cap) (suc n) k

-- What a packed value is unpacked to: NULL becomes VAL_NULL, a NULL text the empty text, and
-- capacities are those of arrays that were grown entry by entry.
unfoldable mutual
  pub unpacked : Value → Value
  unpacked absent = null
  unpacked null = null
  unpacked (bool b) = bool b
  unpacked (long i) = long i
  unpacked (double d) = double d
  unpacked (str p) = str p
  unpacked (arr xs cap) = arr (unpacked_items xs) (cap_after 0 0 (count xs))
  unpacked (obj cls props cap) = obj cls (unpacked_items props) (cap_after 0 0 (count props))
  unpacked (err cls msg code trace) =
      err (some (text cls)) (some (text msg)) code (some (text trace))

  pub unpacked_items : Items → Items
  unpacked_items nil = nil
  unpacked_items (item k v xs) = item k (unpacked v) (unpacked_items xs)

-- The same from a snapshot.
unfoldable mutual
  pub rebuild : Snapshot → Value
  rebuild Snapshot.null = null
  rebuild (Snapshot.bool b) = bool b
  rebuild (Snapshot.long i) = long i
  rebuild (Snapshot.double d) = double d
  rebuild (Snapshot.str p) = str p
  rebuild (Snapshot.arr es) = let xs = rebuild_items es in arr xs (cap_after 0 0 (count xs))
  rebuild (Snapshot.obj cls es) = let xs = rebuild_items es in obj cls xs (cap_after 0 0 (count xs))
  rebuild (Snapshot.err cls msg code trace) = err (some cls) (some msg) code (some trace)

  pub rebuild_items : Entries → Items
  rebuild_items Entries.nil = nil
  rebuild_items (Entries.entry k v es) = item k (rebuild v) (rebuild_items es)

pub count-unpacked_items : (xs : Items) → count (unpacked_items xs) ≡ count xs
unfolding unpacked
count-unpacked_items nil = refl
count-unpacked_items (item k v xs) = ap suc (count-unpacked_items xs)

mutual
  unfolding unpacked rebuild snapshot

  unpacked_lem : (v : Value) → rebuild (snapshot v) ≡ unpacked v
  unpacked_lem absent = refl
  unpacked_lem null = refl
  unpacked_lem (bool b) = refl
  unpacked_lem (long i) = refl
  unpacked_lem (double d) = refl
  unpacked_lem (str p) = refl
  unpacked_lem (arr xs cap) = rw (unpacked_items_lem xs, count-unpacked_items xs)
  unpacked_lem (obj cls xs cap) = rw (unpacked_items_lem xs, count-unpacked_items xs)
  unpacked_lem (err cls msg code trace) = refl

  unpacked_items_lem : (xs : Items) → rebuild_items (entries xs) ≡ unpacked_items xs
  unpacked_items_lem nil = refl
  unpacked_items_lem (item k v xs) = rw (unpacked_lem v, unpacked_items_lem xs)

pub unpacked-rebuild : (v : Value) → unpacked v ≡ rebuild (snapshot v)
unpacked-rebuild v = sym (unpacked_lem v)

mutual
  unfolding rebuild snapshot

  rebuild_same : (s : Snapshot) → snapshot (rebuild s) ≡ s
  rebuild_same Snapshot.null = refl
  rebuild_same (Snapshot.bool b) = refl
  rebuild_same (Snapshot.long i) = refl
  rebuild_same (Snapshot.double d) = refl
  rebuild_same (Snapshot.str p) = refl
  rebuild_same (Snapshot.arr es) = ap Snapshot.arr (rebuild_items_same es)
  rebuild_same (Snapshot.obj cls es) = ap (Snapshot.obj cls) (rebuild_items_same es)
  rebuild_same (Snapshot.err cls msg code trace) = refl

  rebuild_items_same : (es : Entries) → entries (rebuild_items es) ≡ es
  rebuild_items_same Entries.nil = refl
  rebuild_items_same (Entries.entry k v es) = rw (rebuild_same v, rebuild_items_same es)

-- Nothing of a snapshot is lost in the value that is built from it.
pub snapshot-rebuild : (s : Snapshot) → snapshot (rebuild s) ≡ s
snapshot-rebuild s = rebuild_same s

mutual
  unfolding unpacked encode

  encode_same : (v : Value) → encode (unpacked v) ≡ encode v
  encode_same absent = refl
  encode_same null = refl
  encode_same (bool b) = refl
  encode_same (long i) = refl
  encode_same (double d) = refl
  encode_same (str p) = refl
  encode_same (arr xs cap) = rw (encode_items_same xs, count-unpacked_items xs)
  encode_same (obj cls xs cap) = rw (encode_items_same xs, count-unpacked_items xs)
  encode_same (err cls msg code trace) = refl

  encode_items_same : (xs : Items) → encode_items (unpacked_items xs) ≡ encode_items xs
  encode_items_same nil = refl
  encode_items_same (item k v xs) = rw (encode_same v, encode_items_same xs)

pub encode-unpacked : (v : Value) → encode (unpacked v) ≡ encode v
encode-unpacked v = encode_same v
