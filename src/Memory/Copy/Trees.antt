-- ===== src/Memory/Copy/Trees.antt =====
-- `value_clone` gives a new tree, of blocks of its own, for the clone of the value.
use php_parallax.Prelude.{ℕ, zero, suc, ◌+◌, ◌≡◌, refl, sym, subst, Option, some, arith, ◌≤◌}
use php_parallax.Value.{
  Key, Value, Items, absent, null, bool, long, double, str, arr, obj, err, nil, item, count,
}
use php_parallax.Clone.{value_clone, clone_kv_block}
use php_parallax.Clone.Laws.{count-clone_kv_block}
use php_parallax.Bridge.Capture.Wellformed.{depth, depth_items}
use php_parallax.Memory.Store.{Ptr, Kv, Node, node, kvs, Heap, Region, nowhere, ◌∪◌, write}
use php_parallax.Memory.Owns.{Rooted, Owns, Entries}
use php_parallax.Memory.Frame.{Owns-frame}
use php_parallax.Memory.Make.{update_kv}
use php_parallax.Memory.Copy
use php_parallax.Memory.Release.Remove.{==-zero}
use php_parallax.Memory.Release.Exact.{∪-outside, load_kv-live, load_node-live}
use php_parallax.Memory.Extends.{
  IsMalloc, Ends, ends, Ends-after, Ends-map, Extends-refl, Live, Live-Agree, Live-Extends,
  Live-left, Live-right, write-here,
}
use php_parallax.Memory.Living.{Buffer-Live, Text-Live}
use php_parallax.Memory.Copy.Besides.{Besides-refl, store_kv-live}
use php_parallax.Memory.Make.Texts.{clone_key-Gives}
use php_parallax.Memory.Make.Values.{
  Makes, value_null-Makes, value_bool-Makes, value_long-Makes, value_double-Makes, value_str-Makes,
  value_err-Makes,
}
use php_parallax.Memory.Make.Arrays.{Holds-frame, value_arr-Makes, value_obj-Makes}
use php_parallax.Memory.Copy.Rounds.{
  Fills, Fills-item, Extends-keeps, Extends-off, Source, Source-rest,
}
use php_parallax.Memory.Copy.Tables.{set_props, Holds-Live, set_items, clone_kv_block-Gives}

module _ (malloc : Heap → Option Ptr) (law : IsMalloc malloc) where
  value_clone-node :
      {Q : Ptr → Heap → Type 0} (k : ℕ) {h : Heap} {p : Ptr} {n : Node} {g f : Region}
      → Rooted h p (node n) g f
      → Ends Q (Copy.clone_node malloc (Copy.value_clone malloc k) n h)
      → Ends Q (Copy.value_clone malloc (suc k) p h)
  unfolding Copy.value_clone
  value_clone-node k {h} {p} {n} root parts =
      rw (==-zero p root.set, load_node-live p n h root.live) parts

  -- One round of the loop, given `value_clone` and the rounds behind it.
  copy_round :
      (k : ℕ) (src dst c n : ℕ) (ks ks0 : ℕ → Kv) (i : ℕ) (j : Key) (v : Value) (xs : Items)
      (s : Region) (h : Heap)
      → Source h src dst c ks i (item j v xs) s
      → h dst ≡ some (kvs n ks0)
      → i + suc (count xs) ≤ n
      → Entries h ks i (item j v xs) s
      → ((g : Heap) (e : Region)
          → Owns g (ks i).val v e
          → Ends (Makes (value_clone v) g) (Copy.value_clone malloc k (ks i).val g))
      → ((ks1 : ℕ → Kv) (d : Region) (g : Heap)
          → Source g src dst c ks (suc i) xs d
          → g dst ≡ some (kvs n ks1)
          → Ends
              (λ u g'. Fills g dst n ks1 (suc i) (clone_kv_block xs) g')
              (Copy.clone_entries malloc (Copy.value_clone malloc k) src dst (suc i) (count xs) g))
      → Ends
          (λ u g. Fills h dst n ks0 i (clone_kv_block (item j v xs)) g)
          (Copy.clone_entries malloc (Copy.value_clone malloc k) src dst i (suc (count xs)) h)
  unfolding Copy.clone_entries value_clone
  copy_round k src dst c n ks ks0 i j v xs s h o live fits
        (g, e, d, key, val, rest, sep, sep', region) copy loop =
      let l = subst (λ (t : Region). Live t h) region o.used in
      let le = Live-right g e (Live-left (g ∪ e) d l) in
      let off = (∪-outside s (g ∪ e) d dst region o.beside).1 in
      let old = kvs n ks0 in
      rw (load_kv-live src i c ks h o.array (let b = o.bound in omega arith)) (
        Ends-after (clone_key-Gives malloc law (ks i) j g h key) (λ q1 g1 (d1, e1, key').
          Ends-after (copy g1 e (Owns-frame (ks i).val v e (Live-Agree e1 le) val))
            (λ q2 g2 (d2, e2, val').
              let kv' = record (ks i) { skey = q1; val = q2 } in
              let live1 = Extends-keeps dst old e1 live in
              let ks1 = update_kv ks0 i kv' in
              rw (store_kv-live dst i n ks0 kv' g2 (Extends-keeps dst old e2 live1) (omega arith)) (
                Ends-map
                  (loop ks1 d (write dst (kvs n ks1) g2)
                    (Source-rest d (kvs n ks1) o.array o.other o.bound off (Live-right (g ∪ e) d l)
                      rest e1 e2)
                    (write-here dst (kvs n ks1) g2))
                  (λ u g3 done.
                    Fills-item dst n ks0 i j (value_clone v) (clone_kv_block xs) kv' live
                      (Extends-off dst old e1 live) (Extends-off dst old e2 live1) e1 e2 (key' q2)
                      val' done)))))

  mutual
    unfolding Copy.clone_node Copy.clone_entries value_clone Copy.value_clone Copy.with_items

    clone_tree :
        (k : ℕ) (p : Ptr) (v : Value) (s : Region) (h : Heap)
        → depth v ≤ k
        → Owns h p v s
        → Ends (Makes (value_clone v) h) (Copy.value_clone malloc k p h)
    clone_tree zero p absent s h deep o = absurd (omega arith)
    clone_tree zero p null s h deep o = absurd (omega arith)
    clone_tree zero p (bool b) s h deep o = absurd (omega arith)
    clone_tree zero p (long i) s h deep o = absurd (omega arith)
    clone_tree zero p (double d) s h deep o = absurd (omega arith)
    clone_tree zero p (str t) s h deep o = absurd (omega arith)
    clone_tree zero p (arr xs c) s h deep o = absurd (omega arith)
    clone_tree zero p (obj cls xs c) s h deep o = absurd (omega arith)
    clone_tree zero p (err cls msg code trace) s h deep o = absurd (omega arith)
    clone_tree (suc k) p absent s h deep o = rw o.0 (ends (nowhere, Extends-refl h, (refl, refl)))
    clone_tree (suc k) p null s h deep o = value_clone-node k o (value_null-Makes malloc law h)
    clone_tree (suc k) p (bool b) s h deep o =
        value_clone-node k o (value_bool-Makes malloc law b h)
    clone_tree (suc k) p (long i) s h deep o =
        value_clone-node k o (value_long-Makes malloc law i h)
    clone_tree (suc k) p (double d) s h deep o =
        value_clone-node k o (value_double-Makes malloc law d h)
    clone_tree (suc k) p (str t) s h deep (q, g, buf, root) =
        value_clone-node k root (value_str-Makes malloc law q t g h buf (Buffer-Live q t g h buf))
    clone_tree (suc k) p (err cls msg code trace) s h deep
          (q, r, t, g, e, d, a, b, c, sep, sep', root) =
        value_clone-node k root (
          value_err-Makes malloc law q r t cls msg code trace g e d h a b c (Text-Live q cls g h a)
            (Text-Live r msg e h b) (Text-Live t trace d h c))
    clone_tree (suc k) p (arr xs c) s h deep (q, g, tab, root) = value_clone-node k root (
        Ends-after (value_arr-Makes malloc law 0 h) (λ v g1 (f, ext, (r, e, none_yet, made)).
          Ends-after
            (clone_kv_block-Gives malloc law (Copy.value_clone malloc k) q c xs g g1
              (λ dst m ks ks0 e' g' src live.
                clone_entries-Fills k q dst m (count xs) ks ks0 0 xs e' g' (omega arith) src live
                  (omega arith))
              (Holds-frame q xs c g (Live-Agree ext (Holds-Live q xs c g h tab)) tab)
              (Live-Extends ext (Holds-Live q xs c g h tab)))
            (λ cp g2 (d, new, copied). set_items xs cp none_yet.1.1 ext made new copied)))
    clone_tree (suc k) p (obj cls xs c) s h deep (q, r, g, e, buf, tab, sep, root) =
        value_clone-node k root (
          Ends-after (value_obj-Makes malloc law q cls 0 g h buf (Buffer-Live q cls g h buf))
            (λ v g1 (f, ext, (q', r', d1, e', buf', none_yet, sep1, made)).
              Ends-after
                (clone_kv_block-Gives malloc law (Copy.value_clone malloc k) r c xs e g1
                  (λ dst m ks ks0 e1 g' src live.
                    clone_entries-Fills k r dst m (count xs) ks ks0 0 xs e1 g' (omega arith) src
                      live (omega arith))
                  (Holds-frame r xs c e (Live-Agree ext (Holds-Live r xs c e h tab)) tab)
                  (Live-Extends ext (Holds-Live r xs c e h tab)))
                (λ cp g2 (d2, new, copied).
                  set_props q' r' cp cls (clone_kv_block xs) (count xs) d1 none_yet.1.1 ext made new
                    buf' copied (sym (count-clone_kv_block xs)))))

    pub clone_entries-Fills :
        (k : ℕ) (src dst c n : ℕ) (ks ks0 : ℕ → Kv) (i : ℕ) (xs : Items) (s : Region) (h : Heap)
        → depth_items xs ≤ k
        → Source h src dst c ks i xs s
        → h dst ≡ some (kvs n ks0)
        → i + count xs ≤ n
        → Ends
            (λ u g. Fills h dst n ks0 i (clone_kv_block xs) g)
            (Copy.clone_entries malloc (Copy.value_clone malloc k) src dst i (count xs) h)
    clone_entries-Fills k src dst c n ks ks0 i nil s h deep o live fits =
        ends (ks0, nowhere, live, (λ j lt. refl), refl, Besides-refl h dst)
    clone_entries-Fills k src dst c n ks ks0 i (item j v xs) s h deep o live fits =
        copy_round k src dst c n ks ks0 i j v xs s h o live fits o.entries
          (λ g1 e w. clone_tree k (ks i).val v e g1 (omega arith) w)
          (λ ks1 d g3 o' live'.
            clone_entries-Fills k src dst c n ks ks1 (suc i) xs d g3 (omega arith) o' live'
              (omega arith))

  -- Where malloc gives NULL or an address that is not NULL and not in use, a pointer represents a
  -- value, and the fuel is at least the levels of the value, `value_clone` on it aborts, or returns
  -- a pointer that represents the clone of the value and owns none but blocks that were not in use
  -- before, and leaves every other block as it was.
  pub value_clone-Makes :
      (k : ℕ) (p : Ptr) (v : Value) (s : Region) (h : Heap)
      → depth v ≤ k
      → Owns h p v s
      → Ends (Makes (value_clone v) h) (Copy.value_clone malloc k p h)
  value_clone-Makes k p v s h deep o = clone_tree k p v s h deep o
