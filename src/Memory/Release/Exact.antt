-- ===== src/Memory/Release/Exact.antt =====
-- `value_free` releases what a value owns, all of it and nothing else.
use php_parallax.Prelude.{
  ℕ, zero, suc, ◌≡◌, refl, sym, ap, ◌∙◌, ◌+◌, arith, true, false, [], ◌∷◌, none, some, ◌≤◌, ◌<◌,
  ltb,
}
use php_parallax.Value.{
  Bytes, CStr, Key, int_key, str_key, Value, Items, absent, null, bool, long, double, str, arr, obj,
  err, nil, item, count,
}
use php_parallax.Bridge.Capture.Wellformed.{depth, depth_items}
use php_parallax.Memory.Store.{
  Ptr, Kv, Node, node, kvs, Block, Heap, Cmd, ok, ◌>>◌, Region, nowhere, ◌∪◌, remove, free,
  load_node, load_kv, node_in, kv_in,
}
use php_parallax.Memory.Regions.{or_false}
use php_parallax.Memory.Owns.{
  Apart, Agree, IsNull, Rooted, Buffer, Text, HasKey, Table, Owns, Entries,
}
use php_parallax.Memory.Frame.{Text-frame, Table-frame, Owns-frame, Entries-frame}
use php_parallax.Memory.Release.Remove.{
  remove-nowhere, remove-remove, remove-outside, Agree-remove, ==-zero, free-null, free-Rooted,
}
use php_parallax.Memory.Release.{free_entries, free_kv_array, free_parts, value_free}

pub free-IsNull : (p : Ptr) (f : Region) (h : Heap) → IsNull p f → free p h ≡ ok tt (remove f h)
free-IsNull p f h o = rw (o.0, o.1, remove-nowhere h) (free-null h)

free-Leaf :
    {h : Heap} {p : Ptr} {b : Block} {f : Region}
    → Rooted h p b nowhere f
    → free p h ≡ ok tt (remove f h)
unfolding remove nowhere
free-Leaf o = free-Rooted o

free-Buffer :
    (p : Ptr) (s : Bytes) (f : Region) (h : Heap) → Buffer h p s f → free p h ≡ ok tt (remove f h)
free-Buffer p [] f h o = free-IsNull p f h o
free-Buffer p (c ∷ cs) f h o = free-Leaf o

pub free-Text :
    (p : Ptr) (s : CStr) (f : Region) (h : Heap) → Text h p s f → free p h ≡ ok tt (remove f h)
free-Text p none f h o = free-IsNull p f h o
free-Text p (some s) f h o = free-Leaf o

free-HasKey :
    (kv : Kv) (j : Key) (f : Region) (h : Heap)
    → HasKey h kv j f
    → free kv.skey h ≡ ok tt (remove f h)
free-HasKey kv (int_key i) f h o = free-IsNull kv.skey f h o.3
free-HasKey kv (str_key s) f h o = free-Buffer kv.skey s f h o.2

pub load_node-live : (p : Ptr) (n : Node) (h : Heap) → h p ≡ some (node n) → load_node p h ≡ ok n h
unfolding load_node node_in
load_node-live p n h e = rw e

pub load_kv-live :
    (p : Ptr) (i c : ℕ) (ks : ℕ → Kv) (h : Heap)
    → h p ≡ some (kvs c ks)
    → i < c
    → load_kv p i h ≡ ok (ks i) h
unfolding load_kv kv_in
load_kv-live p i c ks h e small = rw e (let fits : ltb i c ≡ true = ground arith in rw fits)

-- A `value_t` is released behind its parts.
value_free-Rooted :
    (k : ℕ) {h : Heap} {p : Ptr} {n : Node} {g f : Region}
    → Rooted h p (node n) g f
    → free_parts (value_free k) n h ≡ ok tt (remove g h)
    → value_free (suc k) p h ≡ ok tt (remove f h)
unfolding value_free
value_free-Rooted k {h} {p} {n} r parts =
    rw (==-zero p r.set, load_node-live p n h r.live, parts) (free-Rooted r)

free_kv_array-Table :
    {Filled : (ℕ → Kv) → Region → Type 0} (release : Ptr → Cmd (Unit {0})) (p : Ptr)
    (n capacity : ℕ) (f : Region) (h : Heap)
    → ((ks : ℕ → Kv) (c : ℕ) (g : Region)
        → h p ≡ some (kvs c ks)
        → g p ≡ false
        → n ≤ c
        → Filled ks g
        → free_entries release p 0 n h ≡ ok tt (remove g h))
    → Table Filled h p n capacity f
    → free_kv_array release p n h ≡ ok tt (remove f h)
unfolding free_kv_array
free_kv_array-Table release p n zero f h loop o = rw (o.1.0, o.1.1, remove-nowhere h)
free_kv_array-Table release p n (suc c) f h loop (ks, g, fill, fits, root) =
    rw (==-zero p root.set, loop ks (suc c) g root.live root.outside fits fill) (free-Rooted root)

value_free-Leaf :
    (k : ℕ) {h : Heap} {p : Ptr} {n : Node} {f : Region}
    → Rooted h p (node n) nowhere f
    → free_parts (value_free k) n h ≡ ok tt h
    → value_free (suc k) p h ≡ ok tt (remove f h)
unfolding remove nowhere
value_free-Leaf k o parts = value_free-Rooted k o parts

value_free-IsNull :
    (k : ℕ) (p : Ptr) (f : Region) (h : Heap)
    → IsNull p f
    → value_free (suc k) p h ≡ ok tt (remove f h)
unfolding value_free
value_free-IsNull k p f h o = rw (o.0, o.1, remove-nowhere h)

-- What is in neither part of a union.
pub ∪-outside :
    (f g e : Region) (q : Ptr) → f ≡ g ∪ e → f q ≡ false → ((g q ≡ false) × (e q ≡ false))
unfolding ◌∪◌
∪-outside f g e q region out = or_false (g q) (e q) (ap (λ (t : Region). t q) (sym region) ∙ out)

-- Three releases in a row, of parts that own nothing in common.
free-three :
    {h : Heap} (a b c : Cmd (Unit {0})) (f g d : Region)
    → Apart f g
    → Apart (f ∪ g) d
    → a h ≡ ok tt (remove f h)
    → (Agree g h (remove f h) → b (remove f h) ≡ ok tt (remove g (remove f h)))
    → (Agree d h (remove (f ∪ g) h) → c (remove (f ∪ g) h) ≡ ok tt (remove d (remove (f ∪ g) h)))
    → (a >> (b >> c)) h ≡ ok tt (remove ((f ∪ g) ∪ d) h)
free-three {h} a b c f g d sep sep' ea eb ec =
    rw (ea, eb (Agree-remove sep h), remove-remove f g h, ec (Agree-remove sep' h))
      (rw (remove-remove (f ∪ g) d h))

mutual
  unfolding free_parts free_entries

  free_tree :
      (k : ℕ) (p : Ptr) (v : Value) (f : Region) (h : Heap)
      → depth v ≤ k
      → Owns h p v f
      → value_free k p h ≡ ok tt (remove f h)
  free_tree zero p absent f h deep o = absurd (omega arith)
  free_tree zero p null f h deep o = absurd (omega arith)
  free_tree zero p (bool b) f h deep o = absurd (omega arith)
  free_tree zero p (long b) f h deep o = absurd (omega arith)
  free_tree zero p (double b) f h deep o = absurd (omega arith)
  free_tree zero p (str b) f h deep o = absurd (omega arith)
  free_tree zero p (arr xs c) f h deep o = absurd (omega arith)
  free_tree zero p (obj cls xs c) f h deep o = absurd (omega arith)
  free_tree zero p (err cls msg code trace) f h deep o = absurd (omega arith)
  free_tree (suc k) p absent f h deep o = value_free-IsNull k p f h o
  free_tree (suc k) p null f h deep o = value_free-Leaf k o refl
  free_tree (suc k) p (bool b) f h deep o = value_free-Leaf k o refl
  free_tree (suc k) p (long i) f h deep o = value_free-Leaf k o refl
  free_tree (suc k) p (double d) f h deep o = value_free-Leaf k o refl
  free_tree (suc k) p (str s) f h deep (q, g, buf, root) =
      value_free-Rooted k root (free-Buffer q s g h buf)
  free_tree (suc k) p (arr xs c) f h deep (q, g, tab, root) = value_free-Rooted k root (
      free_kv_array-Table (value_free k) q (count xs) c g h
        (λ ks n e live out fits fill.
          free_entries-Entries k q n ks 0 xs e h (omega arith) live (omega arith) out fill)
        tab)
  free_tree (suc k) p (obj cls xs c) f h deep (q, r, g, e, buf, tab, sep, root) =
      let w = Agree-remove sep h in
      value_free-Rooted k root (
        rw (free-Buffer q cls g h buf, ← remove-remove g e h)
          (free_kv_array-Table (value_free k) r (count xs) c e (remove g h)
            (λ ks n d live out fits fill.
              free_entries-Entries k r n ks 0 xs d (remove g h) (omega arith) live (omega arith) out
                fill)
            (Table-frame r (count xs) c e w (λ ks d v. Entries-frame ks 0 xs d v) tab)))
  free_tree (suc k) p (err cls msg code trace) f h deep
        (q, r, s, g, e, d, a, b, c, sep, sep', root) =
      value_free-Rooted k root (
        free-three (free q) (free r) (free s) g e d sep sep' (free-Text q cls g h a)
          (λ w. free-Text r msg e (remove g h) (Text-frame r msg e w b))
          (λ w. free-Text s trace d (remove (g ∪ e) h) (Text-frame s trace d w c)))

  -- The loop, while the array is live and none of its entries owns it.
  pub free_entries-Entries :
      (k : ℕ) (q c : Ptr) (ks : ℕ → Kv) (i : ℕ) (xs : Items) (f : Region) (h : Heap)
      → depth_items xs ≤ k
      → h q ≡ some (kvs c ks)
      → i + count xs ≤ c
      → f q ≡ false
      → Entries h ks i xs f
      → free_entries (value_free k) q i (count xs) h ≡ ok tt (remove f h)
  free_entries-Entries k q c ks i nil f h deep live fits out o = rw (o, remove-nowhere h)
  free_entries-Entries k q c ks i (item j v xs) f h deep live fits out
        (g, e, d, key, val, rest, sep, sep', region) =
      let out' = ∪-outside f (g ∪ e) d q region out in
      rw (load_kv-live q i c ks h live (omega arith), region)
        (free-three (free (ks i).skey) (value_free k (ks i).val)
          (free_entries (value_free k) q (suc i) (count xs)) g e d sep sep'
          (free-HasKey (ks i) j g h key)
          (λ w.
            free_tree k (ks i).val v e (remove g h) (omega arith) (Owns-frame (ks i).val v e w val))
          (λ w.
            free_entries-Entries k q c ks (suc i) xs d (remove (g ∪ e) h) (omega arith)
              (remove-outside (g ∪ e) h q out'.0 ∙ live) (omega arith) out'.1
              (Entries-frame ks (suc i) xs d w rest)))

-- Where a pointer represents a value in a store, owning each block of the tree once, and the fuel
-- is at least the levels of the value, `value_free` on it returns, and leaves the store without the
-- blocks that it owned and with all others as they were: no block is released twice, read after its
-- release, or kept.
pub value_free-Owns :
    (k : ℕ) (p : Ptr) (v : Value) (f : Region) (h : Heap)
    → depth v ≤ k
    → Owns h p v f
    → value_free k p h ≡ ok tt (remove f h)
value_free-Owns k p v f h deep o = free_tree k p v f h deep o
