-- ===== src/Memory/Copy/Tables.antt =====
-- Copies of arrays, and the roots that are given to them.
use php_parallax.Prelude.{
  ℕ, zero, suc, ◌≡◌, ◌≢◌, refl, sym, ap, subst, ◌∙◌, Bool, true, false, ◌||◌, Option, none, some,
  arith, ◌≤◌, ◌==◌, length, Bool-cases, inl, inr,
}
use mathlib.Core.Path.{fun_ext}
use php_parallax.Value.{Bytes, Items, arr, obj, nil, item, count}
use php_parallax.Clone.{value_clone, clone_kv_block}
use php_parallax.Clone.Laws.{count-clone_kv_block}
use php_parallax.Memory.Store.{
  Ptr, Kv, Node, node, kvs, Block, Heap, Cmd, ret, ◌>>◌, Region, nowhere, single, ◌∪◌, write,
}
use php_parallax.Memory.Owns.{Rooted, Buffer, Entries}
use php_parallax.Memory.Frame.{Buffer-frame, Entries-frame, Agree-left, Agree-right}
use php_parallax.Memory.Make.{update_node, blank_kv, alloc_kvs}
use php_parallax.Memory.Copy
use php_parallax.Memory.Extends.{
  IsMalloc, Ends, ends, Ends-after, Ends-map, Extends, Extends-refl, Gives, Live, Live-Agree,
  Live-Apart, Live-left, write-here, write-other, off_of_fresh, alloc-Ends, eq_of_test,
}
use php_parallax.Memory.Living.{some-ne, Table-Live, Entries-Live, Buffer-Live}
use php_parallax.Memory.Make.Roots.{root-first, root-store}
use php_parallax.Memory.Copy.Besides.{Besides-Extends, Agree-write, Live-write}
use php_parallax.Memory.Make.Values.{Makes}
use php_parallax.Memory.Make.Arrays.{Holds, Holds-frame}
use php_parallax.Memory.Copy.Rounds.{Fills, Source}

∪-nowhere : (f e : Region) → e ≡ nowhere → f ∪ e ≡ f
unfolding ◌∪◌ nowhere
∪-nowhere f e empty = rw empty (fun_ext (λ a. or_false_right (f a)))
  where
    or_false_right : (b : Bool) → (b || false) ≡ b
    or_false_right true = refl
    or_false_right false = refl

-- The last step of `value_clone` on an object: the properties of the new root are set.
pub set_props :
    {h g g2 : Heap} {v : Ptr} (q r c : Ptr) (cls : Bytes) (xs : Items) (n : ℕ) (d1 : Region)
    {f e d2 : Region}
    → e ≡ nowhere
    → Extends h f g
    → Rooted g v (node (Node.obj q (length cls) r 0 0)) (d1 ∪ e) f
    → Extends g d2 g2
    → Buffer g q cls d1
    → Holds xs n g2 c d2
    → n ≡ count xs
    → Ends (Makes (obj cls xs n) h) ((update_node v (λ d. Copy.with_props d c n) >> ret v) g2)
unfolding Copy.with_props
set_props {g} {g2} {v} q r c cls xs n d1 {f} {e} {d2} empty ext root new buf tab all =
    let l1 = Buffer-Live q cls d1 g buf in
    let root1 : Rooted g v (node (Node.obj q (length cls) r 0 0)) d1 f =
      subst (λ (t : Region). Rooted g v (node (Node.obj q (length cls) r 0 0)) t f)
        (∪-nowhere d1 e empty) root in
    Ends-map (root-store ext root1 new (λ d. Copy.with_props d c n)) (λ p m (f', ext', (w, root')).
      (
        f',
        ext',
        (
          q,
          c,
          d1,
          d2,
          Buffer-frame q cls d1 (Agree-left d1 d2 w)
              (Buffer-frame q cls d1 (Live-Agree new l1) buf),
          Holds-frame c xs n d2 (Agree-right d1 d2 w) tab,
          Live-Apart new l1,
          subst (λ (t : ℕ). Rooted m p (node (Node.obj q (length cls) c t n)) (d1 ∪ d2) f') all
              root',
        ),
      ))

-- A new array that the loop has filled.
Fills-Gives :
    {h g : Heap} {p : Ptr} (n : ℕ) (ks : ℕ → Kv) (xs : Items)
    → p ≢ 0
    → h p ≡ none
    → count xs ≡ suc n
    → Fills (write p (kvs (suc n) ks) h) p (suc n) ks 0 xs g
    → Gives (λ g p f. Holds xs (suc n) g p f) h p g
Fills-Gives {h} {p} n ks xs set new all (ks', f, done, below, fill, b) =
    let w = kvs (suc n) ks in
    (
      f ∪ single p,
      Besides-Extends w f new b,
      (
        ks',
        f,
        fill,
        omega arith,
        record {
          set = set;
          live = done;
          outside = off_of_fresh (f p) (b.unused p) (some-ne (write-here p w h));
          region = refl;
        },
      ),
    )

other_block : (h : Heap) (p q : Ptr) (b : Block) → h p ≡ none → h q ≡ some b → (p == q) ≡ false
other_block h p q b new live = elim (Bool-cases (p == q)) [
  | inl e ↦ let e' = eq_of_test p q e in cc
  | inr e ↦ e
]

-- The source of the loop, once the copy is allocated.
new_Source :
    {h : Heap} (p q c : Ptr) (b : Block) (ks : ℕ → Kv) (xs : Items) (e s : Region)
    → h p ≡ none
    → Live s h
    → Entries h ks 0 xs e
    → count xs ≤ c
    → Rooted h q (kvs c ks) e s
    → Source (write p b h) q p c ks 0 xs e
new_Source {h} p q c b ks xs e s new used fill fits root =
    let l : Live e h = Live-left e (single q) (subst (λ (t : Region). Live t h) root.region used) in
    let off : e p ≡ false = not_live (e p) (l.used p) in
    let other = other_block h p q (kvs c ks) new root.live in
    record {
      array = write-other p q b h other ∙ root.live;
      other = other;
      bound = omega arith;
      beside = off;
      used = Live-write p b h off l;
      entries = Entries-frame ks 0 xs e (Agree-write p b h off) fill;
    }
  where
    not_live : (m : Bool) → (m ≡ true → h p ≢ none) → m ≡ false
    not_live true k = absurd (k refl new)
    not_live false k = refl

pub Holds-Live :
    (p : Ptr) (xs : Items) (capacity : ℕ) (f : Region) (h : Heap)
    → Holds xs capacity h p f
    → Live f h
Holds-Live p xs capacity f h o =
    Table-Live p (count xs) capacity f h (λ ks e fill. Entries-Live ks 0 xs e h fill) o

-- The last step of `value_clone` on an array.
pub set_items :
    {h g g2 : Heap} {v r : Ptr} (xs : Items) (c : Ptr) {f e d : Region}
    → e ≡ nowhere
    → Extends h f g
    → Rooted g v (node (Node.arr r 0 0)) e f
    → Extends g d g2
    → Holds (clone_kv_block xs) (count xs) g2 c d
    → Ends
        (Makes (arr (clone_kv_block xs) (count xs)) h)
        ((update_node v (λ z. Copy.with_items z c (count xs)) >> ret v) g2)
unfolding Copy.with_items
set_items {g} {v} {r} xs c {f} {d} empty ext root new tab =
    let root1 : Rooted g v (node (Node.arr r 0 0)) nowhere f =
      subst (λ (t : Region). Rooted g v (node (Node.arr r 0 0)) t f) empty root in
    Ends-map (root-first ext root1 new (λ z. Copy.with_items z c (count xs)))
      (λ p m (f', ext', (w, root')). (
        f',
        ext',
        (
          c,
          d,
          Holds-frame c (clone_kv_block xs) (count xs) d w tab,
          subst (λ (t : ℕ). Rooted m p (node (Node.arr c t (count xs))) d f')
              (sym (count-clone_kv_block xs)) root',
        ),
      ))

module _ (malloc : Heap → Option Ptr) (law : IsMalloc malloc) where
  -- A copied array, given the loop.
  pub clone_kv_block-Gives :
      (copy : Ptr → Cmd Ptr) (q c : Ptr) (xs : Items) (s : Region) (h : Heap)
      → ((dst m : ℕ) (ks ks0 : ℕ → Kv) (e : Region) (g : Heap)
          → Source g q dst m ks 0 xs e
          → g dst ≡ some (kvs (count xs) ks0)
          → Ends
              (λ u g'. Fills g dst (count xs) ks0 0 (clone_kv_block xs) g')
              (Copy.clone_entries malloc copy q dst 0 (count xs) g))
      → Holds xs c h q s
      → Live s h
      → Ends
          (Gives (λ g p f. Holds (clone_kv_block xs) (count xs) g p f) h)
          (Copy.clone_kv_block malloc copy q (count xs) h)
  unfolding Copy.clone_kv_block alloc_kvs value_clone
  clone_kv_block-Gives copy q c nil s h loop tab used =
      ends (nowhere, Extends-refl h, (refl, (refl, refl)))
  clone_kv_block-Gives copy q zero (item j v xs) s h loop tab used =
      absurd (let no : suc (count xs) ≡ 0 = tab.0 in omega arith)
  clone_kv_block-Gives copy q (suc c) (item j v xs) s h loop (ks, e, fill, fits, root) used =
      let some_items : (suc (count xs) == 0) ≡ false = ground arith in
      let b = kvs (suc (count xs)) (λ i. blank_kv) in
      rw some_items (
        Ends-after (alloc-Ends malloc law (ret b) b h refl) (λ p g o.
          let g' : g ≡ write p b h = o.2 in
          rw g' (
            Ends-after
              (loop p (suc c) ks (λ i. blank_kv) e (write p b h)
                (new_Source p q (suc c) b ks (item j v xs) e s o.1 used fill fits root)
                (write-here p b h))
              (λ u k done. ends (
                Fills-Gives (count xs) (λ i. blank_kv) (clone_kv_block (item j v xs)) o.0 o.1
                  (ap suc (count-clone_kv_block xs)) done)))))
