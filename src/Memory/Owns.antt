-- ===== src/Memory/Owns.antt =====
-- A pointer represents a value: it owns the blocks of the tree, each exactly once.
use php_parallax.Prelude.{
  ℕ, zero, suc, ◌≡◌, ◌≢◌, ◌≤◌, true, false, [], ◌∷◌, ◌++◌, none, some, length,
}
use php_parallax.Value.{
  Bytes, CStr, Key, int_key, str_key, Value, Items, absent, null, bool, long, double, str, arr, obj,
  err, nil, item, count,
}
use php_parallax.Memory.Store.{
  Ptr, Kv, Node, Block, node, chars, kvs, Heap, Region, nowhere, single, ◌∪◌,
}

pub record Apart (f g : Region) : Type 0 where
  pub off : (a : Ptr) → f a ≡ true → g a ≡ false

-- The second store has the blocks of the first in a region.
pub record Agree (f : Region) (h k : Heap) : Type 0 where
  pub same : (a : Ptr) → f a ≡ true → k a ≡ h a

-- NULL, which owns nothing.
abbrev pub IsNull : Ptr → Region → Type 0
IsNull p f = (p ≡ 0) × (f ≡ nowhere)

-- A block of its own above what its pointers own.
pub record Rooted (h : Heap) (p : Ptr) (b : Block) (g f : Region) : Type 0 where
  pub set : p ≢ 0
  pub live : h p ≡ some b
  pub outside : g p ≡ false
  pub region : f ≡ g ∪ single p

-- What `dup_bytes` gives: NULL for no bytes.
abbrev pub Buffer : Heap → Ptr → Bytes → Region → Type 0
Buffer h p [] f = IsNull p f
Buffer h p (c ∷ cs) f = Rooted h p (chars (c ∷ cs)) nowhere f

-- What `dup_cstr` gives: the text with its NUL, or NULL.
abbrev pub Text : Heap → Ptr → CStr → Region → Type 0
Text h p none f = IsNull p f
Text h p (some s) f = Rooted h p (chars (s ++ 0 ∷ [])) nowhere f

abbrev pub HasKey : Heap → Kv → Key → Region → Type 0
HasKey h kv (int_key i) f =
    (kv.is_int_key ≡ true) × (kv.ikey ≡ i) × (kv.skey_len ≡ 0) × IsNull kv.skey f
HasKey h kv (str_key s) f =
    (kv.is_int_key ≡ false) × (kv.skey_len ≡ length s) × Buffer h kv.skey s f

-- An array of `kv_t`: NULL at capacity 0. `Filled` says what its entries own.
abbrev pub Table : ((ℕ → Kv) → Region → Type 0) → Heap → Ptr → ℕ → ℕ → Region → Type 0
Table Filled h p n zero f = (n ≡ 0) × IsNull p f
Table Filled h p n (suc c) f =
    (ks : ℕ → Kv) × (g : Region) × Filled ks g × (n ≤ suc c) × Rooted h p (kvs (suc c) ks) g f

-- `Entries h ks i xs f`: the entries `ks` from index `i` on are `xs`.
abbrev mutual
  pub Owns : Heap → Ptr → Value → Region → Type 0
  Owns h p absent f = IsNull p f
  Owns h p null f = Rooted h p (node Node.null) nowhere f
  Owns h p (bool b) f = Rooted h p (node (Node.bool b)) nowhere f
  Owns h p (long i) f = Rooted h p (node (Node.long i)) nowhere f
  Owns h p (double d) f = Rooted h p (node (Node.double d)) nowhere f
  Owns h p (str s) f =
      (q : Ptr) × (g : Region) × Buffer h q s g × Rooted h p (node (Node.str q (length s))) g f
  Owns h p (arr xs cap) f =
      (q : Ptr) × (g : Region) × Table (λ ks e. Entries h ks 0 xs e) h q (count xs) cap g
      × Rooted h p (node (Node.arr q (count xs) cap)) g f
  Owns h p (obj cls xs cap) f =
      (q r : Ptr) × (g e : Region) × Buffer h q cls g
      × Table (λ ks d. Entries h ks 0 xs d) h r (count xs) cap e
      × Apart g e
      × Rooted h p (node (Node.obj q (length cls) r (count xs) cap)) (g ∪ e) f
  Owns h p (err cls msg code trace) f =
      (q r s : Ptr) × (g e d : Region) × Text h q cls g
      × Text h r msg e
      × Text h s trace d
      × Apart g e
      × Apart (g ∪ e) d
      × Rooted h p (node (Node.err q r code s)) ((g ∪ e) ∪ d) f

  pub Entries : Heap → (ℕ → Kv) → ℕ → Items → Region → Type 0
  Entries h ks i nil f = f ≡ nowhere
  Entries h ks i (item k v xs) f =
      (g e d : Region) × HasKey h (ks i) k g
      × Owns h (ks i).val v e
      × Entries h ks (suc i) xs d
      × Apart g e
      × Apart (g ∪ e) d
      × (f ≡ (g ∪ e) ∪ d)
