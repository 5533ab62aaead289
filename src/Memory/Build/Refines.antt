-- ===== src/Memory/Build/Refines.antt =====
-- The builders over the store do what they do on trees.
use php_parallax.Prelude.{
  ℕ, zero, suc, ◌+◌, ◌^◌, ◌≤◌, ◌<◌, ◌≡◌, refl, sym, subst, Option, some, Bool, true, false, arith,
  Outcome, done, fault, length, if◌then◌else◌,
}
use php_parallax.Prelude.Int.{ℤ, negsuc, ltz, i64_max, succ}
use php_parallax.Value.{
  Bytes, Key, int_key, str_key, Value, Items, arr, nil, item, count, snoc, append_kv, max_int_key,
}
use php_parallax.Value
use php_parallax.Value.Capacity.{room}
use php_parallax.Memory.Store
use php_parallax.Memory.Store.{
  Ptr, Kv, Node, node, kvs, Heap, Run, Cmd, ok, ret, ◌>>=◌, Region, nowhere, single, ◌∪◌, load_node,
}
use php_parallax.Memory.Owns.{Apart, Rooted, Buffer, Owns, Entries}
use php_parallax.Memory.Frame.{Buffer-frame}
use php_parallax.Memory.Release.Exact.{load_node-live, load_kv-live}
use php_parallax.Memory.Make.{dup_bytes}
use php_parallax.Memory.Make.Arrays.{Holds}
use php_parallax.Memory.Make.Texts.{dup_bytes-Gives}
use php_parallax.Memory.Extends.{IsMalloc, Ends, ends, Ends-map, Extends-refl}
use php_parallax.Memory.Living.{Buffer-Live, Live-nowhere}
use php_parallax.Memory.Build
use php_parallax.Memory.Build.{with_slots, int_entry, str_entry, array_of, append, max_key_from}
use php_parallax.Memory.Build.Moves.{Trades}
use php_parallax.Memory.Build.Steps.{Setting, CopiesKey, append-Put}
use php_parallax.Memory.Copy.Tables.{Holds-Live}
use php_parallax.Memory.Build.Arrays.{Becomes, append_kv-room, Put-Owns, arr_Setting}

Apart-nowhere : (f : Region) → Apart nowhere f
unfolding nowhere
Apart-nowhere f = record { off = λ a m. absurd (cc m) }

copies_int :
    (key : ℤ) (child : Ptr) (h : Heap)
    → CopiesKey (ret 0) (int_entry key child) (int_key key) nowhere h
copies_int key child h g w = ends (nowhere, Extends-refl g, (refl, refl, refl, (refl, refl)))

pub copies_str :
    (malloc : Heap → Option Ptr)
    → IsMalloc malloc
    → (p child : Ptr) (s : Bytes) (b : Region) (h : Heap) → Buffer h p s b
    → CopiesKey (dup_bytes malloc p (length s)) (str_entry (length s) child) (str_key s) b h
copies_str malloc law p child s b h src g w =
    Ends-map (dup_bytes-Gives malloc law p s b g (Buffer-frame p s b w src))
      (λ q k (f, ext, buf). (f, ext, (refl, refl, buf)))

-- The loop of `next_int_key` finds what it finds on the tree.
max_key_from-Entries :
    (t c : Ptr) (ks : ℕ → Kv) (i : ℕ) (xs : Items) (e : Region) (h : Heap) (m : ℤ)
    → h t ≡ some (kvs c ks)
    → i + count xs ≤ c
    → Entries h ks i xs e
    → max_key_from t i (count xs) m h ≡ ok (max_int_key m xs) h
unfolding max_key_from max_int_key
max_key_from-Entries t c ks i nil e h m live fits o = refl
max_key_from-Entries t c ks i (item (int_key k) v xs) e h m live fits
      (g, e1, d, key, val, rest, sep, sep', region) =
    rw (load_kv-live t i c ks h live (omega arith), key.0, key.1)
      (max_key_from-Entries t c ks (suc i) xs d h (if ltz m k then k else m) live (omega arith)
        rest)
max_key_from-Entries t c ks i (item (str_key s) v xs) e h m live fits
      (g, e1, d, key, val, rest, sep, sep', region) =
    rw (load_kv-live t i c ks h live (omega arith), key.0)
      (max_key_from-Entries t c ks (suc i) xs d h m live (omega arith) rest)

next_of :
    (b : Bool) (m key : ℤ) (h : Heap)
    → (if b then done (succ m) else fault) ≡ done key
    → (if b then ret (succ m) else (λ k. Store.fault)) h ≡ ok key h
next_of true m key h e = let same : succ m ≡ key = cc in rw same
next_of false m key h e = cc

next_int_key-Holds :
    (t : Ptr) (xs : Items) (c : ℕ) (key : ℤ) (d : Region) (h : Heap)
    → Value.next_int_key xs ≡ done key
    → Holds xs c h t d
    → Build.next_int_key t (count xs) h ≡ ok key h
unfolding Build.next_int_key Value.next_int_key max_key_from max_int_key
next_int_key-Holds t nil zero key d h e o =
    next_of (ltz (max_int_key (negsuc 0) nil) i64_max) (max_int_key (negsuc 0) nil) key h e
next_int_key-Holds t (item k v xs) zero key d h e o = absurd (omega arith)
next_int_key-Holds t xs (suc c) key d h e (ks, g, fill, fits, root) =
    let m = max_int_key (negsuc 0) xs in
    rw (max_key_from-Entries t (suc c) ks 0 xs g h (negsuc 0) root.live (omega arith) fill)
      (next_of (ltz m i64_max) m key h e)

module _ (malloc : Heap → Option Ptr) (law : IsMalloc malloc) where
  -- A builder that appends the key `j`, where the one on trees does.
  append-Becomes :
      {h : Heap} {f d y b : Region} {t : Ptr} (r : Outcome Value) (j : Key) (skey : Cmd Ptr)
      (entry : Ptr → Kv) (p child : Ptr) (xs : Items) (c : ℕ) (w : Value)
      → ((lt : count xs < room (count xs) c) → r ≡ done (arr (snoc xs j w) (room (count xs) c)))
      → Rooted h p (node (Node.arr t (count xs) c)) d f
      → Setting h p t (Node.arr t (count xs) c) xs c child w d y b
      → CopiesKey skey entry j b h
      → ((kp : Ptr) → (entry kp).val ≡ child)
      → Ends (λ u g. Becomes r h (f ∪ y) p g) (append malloc p (t, count xs, c) skey entry h)
  append-Becomes {h} {f} {d} {y} {b} {t} r j skey entry p child xs c w tree root s copies at =
      Ends-map (append-Put malloc law j skey entry s copies at) (λ u g (q, lt, put).
        let (f', owns, trade) = Put-Owns p q t xs c c j w d y root.set lt put in
        (
          arr (snoc xs j w) (room (count xs) c),
          f',
          tree lt,
          owns,
          subst (λ (e : Region). Trades h (e ∪ y) f' g) (sym root.region) trade,
        ))

  -- Where malloc gives NULL or an address that is not NULL and not in use, a pointer represents an
  -- array whose count is within its capacity and whose capacity is below 2 ^ 57, another represents
  -- a child and shares no block with it, and a third has the bytes of the key outside the array, or
  -- is NULL where there are none: `value_arr_set_str` aborts, or the first pointer then represents
  -- the array that `value_arr_set_str` on trees returns; it owns, but for what array and child
  -- owned, none but blocks that were not in use; what they owned and it does not own is released,
  -- and every other block is as before.
  pub value_arr_set_str-Becomes :
      (p kp child : Ptr) (s : Bytes) (xs : Items) (c : ℕ) (w : Value) (f y b : Region) (h : Heap)
      → count xs ≤ c
      → c < 2 ^ 57
      → Owns h p (arr xs c) f
      → Owns h child w y
      → Apart f y
      → Buffer h kp s b
      → Apart b f
      → Ends
          (λ u g. Becomes (Value.value_arr_set_str (arr xs c) s w) h (f ∪ y) p g)
          (Build.value_arr_set_str malloc p kp (length s) child h)
  unfolding Build.value_arr_set_str array_of Value.value_arr_set_str
  value_arr_set_str-Becomes p kp child s xs c w f y b h le small (t, d, tab, root) o sep buf bf =
      let l = Holds-Live t xs c d h tab in
      rw (load_node-live p (Node.arr t (count xs) c) h root.live) (
        append-Becomes (Value.value_arr_set_str (arr xs c) s w) (str_key s)
          (dup_bytes malloc kp (length s)) (str_entry (length s) child) p child xs c w
          (λ lt. rw (append_kv-room xs c (str_key s) w lt)) root
          (arr_Setting h p t child xs c w d f y b le small tab root l o sep
            (Buffer-Live kp s b h buf) bf)
          (copies_str malloc law kp child s b h buf) (λ q. refl))

  -- Where malloc gives NULL or an address that is not NULL and not in use, a pointer represents an
  -- array whose count is within its capacity, whose capacity is below 2 ^ 57 and which has a next
  -- integer key, and another represents a child and shares no block with it: `value_arr_push`
  -- aborts, or the first pointer then represents the array that `value_arr_push` on trees returns;
  -- it owns, but for what array and child owned, none but blocks that were not in use; what they
  -- owned and it does not own is released, and every other block is as before.
  pub value_arr_push-Becomes :
      (p child : Ptr) (xs : Items) (c : ℕ) (key : ℤ) (w : Value) (f y : Region) (h : Heap)
      → count xs ≤ c
      → c < 2 ^ 57
      → Value.next_int_key xs ≡ done key
      → Owns h p (arr xs c) f
      → Owns h child w y
      → Apart f y
      → Ends
          (λ u g. Becomes (Value.value_arr_push (arr xs c) w) h (f ∪ y) p g)
          (Build.value_arr_push malloc p child h)
  unfolding Build.value_arr_push array_of Value.value_arr_push
  value_arr_push-Becomes p child xs c key w f y h le small next (t, d, tab, root) o sep =
      let l = Holds-Live t xs c d h tab in
      rw
        (
          load_node-live p (Node.arr t (count xs) c) h root.live,
          next_int_key-Holds t xs c key d h next tab,
        )
        (append-Becomes (Value.value_arr_push (arr xs c) w) (int_key key) (ret 0)
          (int_entry key child) p child xs c w
          (λ lt. rw (next, append_kv-room xs c (int_key key) w lt)) root
          (arr_Setting h p t child xs c w d f y nowhere le small tab root l o sep (Live-nowhere h)
            (Apart-nowhere f))
          (copies_int key child h) (λ q. refl))

  pub value_arr_set_int-Becomes :
      (p child : Ptr) (xs : Items) (c : ℕ) (key : ℤ) (w : Value) (f y : Region) (h : Heap)
      → count xs ≤ c
      → c < 2 ^ 57
      → Owns h p (arr xs c) f
      → Owns h child w y
      → Apart f y
      → Ends
          (λ u g. Becomes (Value.value_arr_set_int (arr xs c) key w) h (f ∪ y) p g)
          (Build.value_arr_set_int malloc p key child h)
  unfolding Build.value_arr_set_int array_of Value.value_arr_set_int
  value_arr_set_int-Becomes p child xs c key w f y h le small (t, d, tab, root) o sep =
      let l = Holds-Live t xs c d h tab in
      rw (load_node-live p (Node.arr t (count xs) c) h root.live) (
        append-Becomes (Value.value_arr_set_int (arr xs c) key w) (int_key key) (ret 0)
          (int_entry key child) p child xs c w (λ lt. rw (append_kv-room xs c (int_key key) w lt))
          root
          (arr_Setting h p t child xs c w d f y nowhere le small tab root l o sep (Live-nowhere h)
            (Apart-nowhere f))
          (copies_int key child h) (λ q. refl))
