-- ===== src/Memory/Build/Objects.antt =====
-- `value_obj_set` over the store does what it does on trees.
use php_parallax.Value
use php_parallax.Memory.Build
use php_parallax.Prelude.{
  ℕ, suc, ◌^◌, ◌≤◌, ◌<◌, ◌≡◌, refl, sym, subst, Option, false, arith, length,
}
use php_parallax.Value.{
  Bytes, Key, int_key, str_key, Value, Items, arr, nil, item, count, snoc, append_kv, max_int_key,
  obj,
}
use php_parallax.Value.Capacity.{room, count-snoc}
use php_parallax.Memory.Store.{Ptr, Node, node, Heap, Region, single, ◌∪◌}
use php_parallax.Memory.Owns.{Apart, Rooted, Buffer, Owns}
use php_parallax.Memory.Frame.{Buffer-frame}
use php_parallax.Memory.Release.Exact.{load_node-live}
use php_parallax.Memory.Make.{dup_bytes}
use php_parallax.Memory.Make.Arrays.{Holds}
use php_parallax.Memory.Extends.{IsMalloc, Ends, Ends-map, Live}
use php_parallax.Memory.Living.{Buffer-Live}
use php_parallax.Memory.Build.{
  with_slots, int_entry, str_entry, array_of, append, max_key_from, props_of,
}
use php_parallax.Memory.Build.Moves.{Trades, Trades-Apart, Trades-Agree}
use php_parallax.Memory.Build.Steps.{Setting, append-Put}
use php_parallax.Memory.Copy.Tables.{Holds-Live}
use php_parallax.Memory.Build.Arrays.{Becomes, append_kv-room, Holds-array}
use php_parallax.Memory.Regions.{or_false}
use php_parallax.Memory.Build.Added.{union_out, Put, left_part, single_in, right_part, off_at}
use php_parallax.Memory.Build.Append.{Apart-join}
use php_parallax.Memory.Release.Remove.{Apart-sym, Apart-right, Apart-left}
use php_parallax.Memory.Build.Reserve.{single-Apart}
use php_parallax.Memory.Build.Refines.{copies_str}

-- What is owned beside stays owned.
Trades-beside :
    {h k : Heap} (g d s y e : Region)
    → Trades h ((d ∪ s) ∪ y) (e ∪ s) k
    → Trades h (((g ∪ d) ∪ s) ∪ y) ((g ∪ e) ∪ s) k
unfolding ◌∪◌
Trades-beside g d s y e t = record {
  taken = λ a out m. ground (arith, t.taken a);
  gone = λ a m out. ground (arith, t.gone a);
  kept = λ a out out'. ground (arith, t.kept a);
}

parts_out : (g d : Region) (p : Ptr) → (g ∪ d) p ≡ false → (g p ≡ false) × (d p ≡ false)
unfolding ◌∪◌
parts_out g d p out = or_false (g p) (d p) out

-- The setting of `value_obj_set`.
obj_Setting :
    (h : Heap) (p t child : Ptr) (z : Node) (xs : Items) (c : ℕ) (w : Value) (g d f y b : Region)
    → count xs ≤ c
    → c < 2 ^ 57
    → Holds xs c h t d
    → Rooted h p (node z) (g ∪ d) f
    → Live d h
    → Owns h child w y
    → Apart f y
    → Live b h
    → Apart b f
    → Setting h p t z xs c child w d y b
obj_Setting h p t child z xs c w g d f y b le small tab root l o sep bl bf =
    let fy = subst (λ (s : Region). Apart s y) root.region sep in
    let fb = subst (λ (s : Region). Apart b s) root.region bf in
    record {
      set = root.set;
      root = root.live;
      outside = (parts_out g d p root.outside).1;
      bound = le;
      small = small;
      array = tab;
      used = l;
      owned = o;
      apart = Apart-right g d (Apart-left (g ∪ d) (single p) fy);
      not_child = (Apart-right (g ∪ d) (single p) fy).off p (single_in p);
      source = bl;
      elsewhere = right_part b g d (left_part b (g ∪ d) (single p) fb);
      not_key = off_at b (single p) p (right_part b (g ∪ d) (single p) fb) (single_in p);
    }

-- The new tree, of the parts that `append` leaves and the name of the class.
Put-Owns_obj :
    {h k : Heap} (p q t name : Ptr) (cls : Bytes) (xs : Items) (c : ℕ) (j : Key) (w : Value)
    (g d f y : Region)
    → Buffer h name cls g
    → Apart g d
    → Apart f y
    → Rooted h p (node (Node.obj name (length cls) t (count xs) c)) (g ∪ d) f
    → count xs < room (count xs) c
    → Put p q
        (Node.obj name (length cls) q (suc (count xs)) (room (count xs) c))
        (room (count xs) c)
        xs
        j
        w
        h
        d
        y
        k
    → (f' : Region) × Owns k p (obj cls (snoc xs j w) (room (count xs) c)) f'
      × Trades h (f ∪ y) f' k
Put-Owns_obj {h} {k} p q t name cls xs c j w g d f y buf gd sep root lt
      (ks, e, live, fill, array, off, trade) =
    let n = room (count xs) c in
    let size = count-snoc xs j w in
    let fy = subst (λ (s : Region). Apart s y) root.region sep in
    let gp = (parts_out g d p root.outside).0 in
    let beside : Apart g ((d ∪ single p) ∪ y) =
      Apart-join (d ∪ single p) y g (Apart-join d (single p) g gd (Apart-sym (single-Apart g p gp)))
        (Apart-left g d (Apart-left (g ∪ d) (single p) fy)) in
    let lg = Buffer-Live name cls g h buf in
    let clear = Trades-Apart trade beside lg in
    (
      (g ∪ (e ∪ single q)) ∪ single p,
      (
        name,
        q,
        g,
        e ∪ single q,
        Buffer-frame name cls g (Trades-Agree trade beside lg) buf,
        Holds-array (snoc xs j w) n ks e (e ∪ single q) k q (omega arith) (omega arith) fill array,
        left_part g (e ∪ single q) (single p) clear,
        record {
          set = root.set;
          live = rw size live;
          outside = union_out g (e ∪ single q) p gp off;
          region = refl;
        },
      ),
      subst (λ (s : Region). Trades h (s ∪ y) ((g ∪ (e ∪ single q)) ∪ single p) k) (sym root.region)
          (Trades-beside g d (single p) y (e ∪ single q) trade),
    )

module _ (malloc : Heap → Option Ptr) (law : IsMalloc malloc) where
  -- Where a pointer represents an object, another a child that shares no block with it, and a third
  -- has the bytes of the key outside the object: `value_obj_set` aborts, or the first pointer then
  -- represents the object that `value_obj_set` on trees returns.
  pub value_obj_set-Becomes :
      (p kp child : Ptr) (s cls : Bytes) (xs : Items) (c : ℕ) (w : Value) (f y b : Region)
      (h : Heap)
      → count xs ≤ c
      → c < 2 ^ 57
      → Owns h p (obj cls xs c) f
      → Owns h child w y
      → Apart f y
      → Buffer h kp s b
      → Apart b f
      → Ends
          (λ u g. Becomes (Value.value_obj_set (obj cls xs c) s w) h (f ∪ y) p g)
          (Build.value_obj_set malloc p kp (length s) child h)
  unfolding Build.value_obj_set props_of Value.value_obj_set with_slots
  value_obj_set-Becomes p kp child s cls xs c w f y b h le small
        (name, t, g, d, bufc, tab, gd, root) o sep buf bf =
      let l = Holds-Live t xs c d h tab in
      let z = Node.obj name (length cls) t (count xs) c in
      rw (load_node-live p z h root.live) (
        Ends-map
          (append-Put malloc law (str_key s) (dup_bytes malloc kp (length s))
            (str_entry (length s) child)
            (obj_Setting h p t child z xs c w g d f y b le small tab root l o sep
              (Buffer-Live kp s b h buf) bf)
            (copies_str malloc law kp child s b h buf) (λ q. refl))
          (λ u k (q, lt, put).
            let (f', owns, trade) =
              Put-Owns_obj p q t name cls xs c (str_key s) w g d f y bufc gd sep root lt put in
            (
              obj cls (snoc xs (str_key s) w) (room (count xs) c),
              f',
              rw (append_kv-room xs c (str_key s) w lt),
              owns,
              trade,
            )))
