-- ===== src/Memory/Make/Arrays.antt =====
-- New arrays and objects, and their `kv_t` arrays.
use php_parallax.Prelude.{ℕ, zero, suc, ◌≡◌, refl, subst, true, Option, length, arith, ltb}
use php_parallax.Value.{Bytes, Items, arr, obj, nil, count}
use php_parallax.Memory.Store.{Ptr, Node, node, kvs, Heap, ret, ◌>>◌, Region, nowhere, single, ◌∪◌}
use php_parallax.Memory.Owns.{Agree, Rooted, Buffer, Table, Entries}
use php_parallax.Memory.Frame.{Buffer-frame, Table-frame, Entries-frame, Agree-left, Agree-right}
use php_parallax.Memory.Make
use php_parallax.Memory.Make.{alloc_kvs, initial_kvs, blank_kv, update_node}
use php_parallax.Memory.Extends.{
  IsMalloc, Ends, ends, Ends-after, Ends-map, Extends, Extends-refl, Extends-trans, Extends-new,
  Gives, Live, Live-Agree, Live-Apart, alloc-Ends,
}
use php_parallax.Memory.Living.{Buffer-Live}
use php_parallax.Memory.Make.Roots.{Rooted-write, alloc_value-Gives, root-first}
use php_parallax.Memory.Make.Texts.{dup_bytes-Gives}
use php_parallax.Memory.Make.Values.{Makes}

-- An array of `kv_t` that holds `xs`.
abbrev pub Holds : Items → ℕ → Heap → Ptr → Region → Type 0
Holds xs capacity h p f = Table (λ ks e. Entries h ks 0 xs e) h p (count xs) capacity f

pub Holds-frame :
    {h k : Heap} (p : Ptr) (xs : Items) (capacity : ℕ) (f : Region)
    → Agree f h k
    → Holds xs capacity h p f
    → Holds xs capacity k p f
Holds-frame p xs capacity f w o =
    Table-frame p (count xs) capacity f w (λ ks e u. Entries-frame ks 0 xs e u) o

-- The last step of a new object.
pub store_obj :
    {h g g1 g2 : Heap} {v : Ptr} {z : Node} (q r : Ptr) (cls : Bytes) (xs : Items) (capacity : ℕ)
    {f d1 d2 : Region} (u : Node → Node)
    → u z ≡ Node.obj q (length cls) r (count xs) capacity
    → Extends h f g
    → Rooted g v (node z) nowhere f
    → Extends g d1 g1
    → Extends g1 d2 g2
    → Buffer g1 q cls d1
    → Holds xs capacity g2 r d2
    → Ends (Makes (obj cls xs capacity) h) ((update_node v u >> ret v) g2)
store_obj {g1} {g2} q r cls xs capacity {f} {d1} {d2} u written ext root n1 n2 buf tab =
    let l1 = Buffer-Live q cls d1 g1 buf in
    Ends-map (root-first ext root (Extends-trans d1 d2 n1 n2) u) (λ p m (f', ext', (w, root')). (
      f',
      ext',
      (
        q,
        r,
        d1,
        d2,
        Buffer-frame q cls d1 (Agree-left d1 d2 w) (Buffer-frame q cls d1 (Live-Agree n2 l1) buf),
        Holds-frame r xs capacity d2 (Agree-right d1 d2 w) tab,
        Live-Apart n2 l1,
        subst (λ (n : Node). Rooted m p (node n) (d1 ∪ d2) f') written root',
      ),
    ))

module _ (malloc : Heap → Option Ptr) (law : IsMalloc malloc) where
  initial_kvs-Gives :
      (n : ℕ) (h : Heap) → Ends (Gives (λ g q f. Holds nil n g q f) h) (initial_kvs malloc n h)
  unfolding initial_kvs alloc_kvs
  initial_kvs-Gives zero h = ends (nowhere, Extends-refl h, (refl, (refl, refl)))
  initial_kvs-Gives (suc n) h =
      let positive : ltb 0 (suc n) ≡ true = ground arith in
      let b = kvs (suc n) (λ i. blank_kv) in
      rw positive (
        Ends-map (alloc-Ends malloc law (ret b) b h refl) (λ q g o. (
          single q,
          rw o.2 (Extends-new q b o.1),
          ((λ i. blank_kv), nowhere, refl, omega arith, rw o.2 (Rooted-write q b h o.0)),
        )))

  pub value_arr-Makes :
      (initial_cap : ℕ) (h : Heap)
      → Ends (Makes (arr nil initial_cap) h) (Make.value_arr malloc initial_cap h)
  unfolding Make.value_arr
  value_arr-Makes initial_cap h =
      Ends-after (alloc_value-Gives malloc law _ h) (λ v g (f, ext, root).
        Ends-after (initial_kvs-Gives initial_cap g) (λ q k (d, new, tab).
          Ends-map (root-first ext root new (λ z. Node.arr q 0 initial_cap))
            (λ r m (f', ext', (w, root')).
              (f', ext', (q, d, Holds-frame q nil initial_cap d w tab, root')))))

  pub value_obj-Makes :
      (p : Ptr) (cls : Bytes) (initial_cap : ℕ) (b : Region) (h : Heap)
      → Buffer h p cls b
      → Live b h
      → Ends
          (Makes (obj cls nil initial_cap) h)
          (Make.value_obj malloc p (length cls) initial_cap h)
  unfolding Make.value_obj
  value_obj-Makes p cls initial_cap b h src used =
      Ends-after (alloc_value-Gives malloc law _ h) (λ v g (f, ext, root).
        Ends-after
          (dup_bytes-Gives malloc law p cls b g (Buffer-frame p cls b (Live-Agree ext used) src))
          (λ q g1 (d1, n1, buf).
            Ends-after (initial_kvs-Gives initial_cap g1) (λ r g2 (d2, n2, tab).
              store_obj q r cls nil initial_cap (λ z. Node.obj q (length cls) r 0 initial_cap) refl
                ext root n1 n2 buf tab)))
