-- ===== src/Memory/Build/Arrays.antt =====
-- Arrays and the new trees that `append` makes of them.
use php_parallax.Prelude.{
  ℕ, zero, suc, ◌^◌, ◌≤◌, ◌<◌, ◌≡◌, ◌≢◌, refl, subst, true, ltb, arith, Outcome, done,
}
use php_parallax.Value.{Key, Value, Items, arr, count, snoc, append_kv}
use php_parallax.Value.Capacity.{room, count-snoc}
use php_parallax.Memory.Store.{Ptr, Kv, Node, node, kvs, Heap, Region, single, ◌∪◌}
use php_parallax.Memory.Owns.{Apart, Rooted, Owns, Entries}
use php_parallax.Memory.Make.Arrays.{Holds}
use php_parallax.Memory.Extends.{Live}
use php_parallax.Memory.Build.{with_slots}
use php_parallax.Memory.Release.Remove.{Apart-left, Apart-right}
use php_parallax.Memory.Build.Moves.{Trades}
use php_parallax.Memory.Build.Added.{Put, off_at, single_in, left_part, right_part}
use php_parallax.Memory.Build.Steps.{Setting}

-- The tree at `p` is the one that the builder on trees returns. `s` is what the tree and the child
-- owned before.
abbrev pub Becomes : Outcome Value → Heap → Region → Ptr → Heap → Type 0
Becomes r h s p g = (v : Value) × (f : Region) × (r ≡ done v) × Owns g p v f × Trades h s f g

pub append_kv-room :
    (xs : Items) (c : ℕ) (k : Key) (v : Value)
    → count xs < room (count xs) c
    → append_kv xs c k v ≡ done (snoc xs k v, room (count xs) c)
unfolding append_kv room
append_kv-room xs c k v lt =
    let fits : ltb (count xs) (room (count xs) c) ≡ true = ground arith in rw fits

-- An array at a capacity that is not 0.
pub Holds-array :
    (xs : Items) (n : ℕ) (ks : ℕ → Kv) (e f : Region) (h : Heap) (p : Ptr)
    → count xs ≤ n
    → 0 < n
    → Entries h ks 0 xs e
    → Rooted h p (kvs n ks) e f
    → Holds xs n h p f
Holds-array xs zero ks e f h p le pos fill root = absurd (omega arith)
Holds-array xs (suc n) ks e f h p le pos fill root = (ks, e, fill, le, root)

-- The new tree, of the parts that `append` leaves.
pub Put-Owns :
    {h g : Heap} (p q t : Ptr) (xs : Items) (c m : ℕ) (j : Key) (w : Value) (d y : Region)
    → p ≢ 0
    → count xs < room (count xs) c
    → Put p q
        (with_slots (Node.arr t (count xs) m) q (suc (count xs)) (room (count xs) c))
        (room (count xs) c)
        xs
        j
        w
        h
        d
        y
        g
    → (f : Region) × Owns g p (arr (snoc xs j w) (room (count xs) c)) f
      × Trades h ((d ∪ single p) ∪ y) f g
unfolding with_slots
Put-Owns {h} {g} p q t xs c m j w d y set lt (ks, e, root, fill, array, off, trade) =
    let n = room (count xs) c in
    let size = count-snoc xs j w in
    (
      (e ∪ single q) ∪ single p,
      (
        q,
        e ∪ single q,
        Holds-array (snoc xs j w) n ks e (e ∪ single q) g q (omega arith) (omega arith) fill array,
        record { set = set; live = rw size root; outside = off; region = refl },
      ),
      trade,
    )

-- The setting of a builder on an array.
pub arr_Setting :
    (h : Heap) (p t child : Ptr) (xs : Items) (c : ℕ) (w : Value) (d f y b : Region)
    → count xs ≤ c
    → c < 2 ^ 57
    → Holds xs c h t d
    → Rooted h p (node (Node.arr t (count xs) c)) d f
    → Live d h
    → Owns h child w y
    → Apart f y
    → Live b h
    → Apart b f
    → Setting h p t (Node.arr t (count xs) c) xs c child w d y b
arr_Setting h p t child xs c w d f y b le small tab root l o sep bl bf =
    let fy = subst (λ (s : Region). Apart s y) root.region sep in
    let fb = subst (λ (s : Region). Apart b s) root.region bf in
    record {
      set = root.set;
      root = root.live;
      outside = root.outside;
      bound = le;
      small = small;
      array = tab;
      used = l;
      owned = o;
      apart = Apart-left d (single p) fy;
      not_child = (Apart-right d (single p) fy).off p (single_in p);
      source = bl;
      elsewhere = left_part b d (single p) fb;
      not_key = off_at b (single p) p (right_part b d (single p) fb) (single_in p);
    }
