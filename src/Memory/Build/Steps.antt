-- ===== src/Memory/Build/Steps.antt =====
-- `append`: what the builders share, on a root in a store.
use php_parallax.Prelude.{ℕ, suc, ◌^◌, ◌≤◌, ◌<◌, ◌≡◌, ◌≢◌, sym, ◌∙◌, subst, Option, some, false}
use php_parallax.Value.{Key, Value, Items, count}
use php_parallax.Value.Capacity.{room}
use php_parallax.Memory.Store.{Ptr, Kv, Node, node, Heap, Cmd, Region, write}
use php_parallax.Memory.Owns.{Apart, Agree, HasKey, Owns}
use php_parallax.Memory.Frame.{Owns-frame}
use php_parallax.Memory.Release.Remove.{Apart-sym}
use php_parallax.Memory.Make.Arrays.{Holds}
use php_parallax.Memory.Make.Roots.{update_node-live}
use php_parallax.Memory.Extends.{IsMalloc, Ends, Ends-after, Ends-map, Gives, Live}
use php_parallax.Memory.Living.{Owns-Live, Live-single}
use php_parallax.Memory.Copy.Besides.{Agree-write}
use php_parallax.Memory.Build.{append, with_slots}
use php_parallax.Memory.Build.Moves.{Trades-Apart, Trades-Agree}
use php_parallax.Memory.Build.Reserve.{reserve-Ready, single-Apart}
use php_parallax.Memory.Build.Added.{Put, last_write, single_in}

Agree-trans : {f : Region} {h g k : Heap} → Agree f h g → Agree f g k → Agree f h k
Agree-trans u v = record { same = λ a m. v.same a m ∙ u.same a m }

-- The key's copy, on any store that still has the blocks of `b`, gives the key of an entry.
abbrev pub CopiesKey : Cmd Ptr → (Ptr → Kv) → Key → Region → Heap → Type 0
CopiesKey skey entry j b h =
    (g : Heap) → Agree b h g → Ends (Gives (λ k kp f. HasKey k (entry kp) j f) g) (skey g)

-- A root with an array, and a child that it does not own.
pub record Setting (h : Heap) (p t : Ptr) (z : Node) (xs : Items) (c : ℕ) (child : Ptr) (w : Value)
    (d y b : Region) : Type 0 where
  pub set : p ≢ 0
  pub root : h p ≡ some (node z)
  pub outside : d p ≡ false
  pub bound : count xs ≤ c
  pub small : c < 2 ^ 57
  pub array : Holds xs c h t d
  pub used : Live d h
  pub owned : Owns h child w y
  pub apart : Apart d y
  pub not_child : y p ≡ false
  -- The source of the key.
  pub source : Live b h
  pub elsewhere : Apart b d
  pub not_key : b p ≡ false

pub append-Put :
    (malloc : Heap → Option Ptr)
    → IsMalloc malloc
    → {h : Heap} {p t : Ptr} {z : Node} {xs : Items} {c : ℕ} {child : Ptr} {w : Value}
      {d y b : Region} (j : Key) (skey : Cmd Ptr) (entry : Ptr → Kv)
    → Setting h p t z xs c child w d y b
    → CopiesKey skey entry j b h
    → ((kp : Ptr) → (entry kp).val ≡ child)
    → Ends
        (λ u g.
          (q : Ptr) × (count xs < room (count xs) c)
          × Put p q
              (with_slots z q (suc (count xs)) (room (count xs) c))
              (room (count xs) c)
              xs
              j
              w
              h
              d
              y
              g)
        (append malloc p (t, count xs, c) skey entry h)
unfolding append
append-Put malloc law {h} {p} {t} {z} {xs} {c} {child} {w} {d} {y} {b} j skey entry s copies at =
    let lp = Live-single p (node z) s.root in
    let sp = single-Apart d p s.outside in
    let yd = Apart-sym s.apart in
    let ly = Owns-Live child w y h s.owned in
    Ends-after (reserve-Ready malloc law t xs c d h s.bound s.small s.array s.used)
      (λ r g (ks, e, fits, lt, fill, root, trade).
        let offp = (Trades-Apart trade sp lp).off p (single_in p) in
        let gp = (Trades-Agree trade sp lp).same p (single_in p) ∙ s.root in
        let yg = Owns-frame child w y (Trades-Agree trade yd ly) s.owned in
        let z' = with_slots z r.0 (suc (count xs)) r.1 in
        let bg =
          Agree-trans (Trades-Agree trade s.elsewhere s.source)
            (Agree-write p (node z') g s.not_key) in
        rw (update_node-live p z (λ n. with_slots n r.0 (suc (count xs)) r.1) g gp, ← fits)
          (Ends-after (copies (write p (node z') g) bg) (λ kp g2 (k, u, key).
            Ends-map
              (last_write p r.0 z' xs r.1 ks j w (entry kp) d e k y offp s.not_child
                (Trades-Apart trade yd ly) lt root fill
                (subst (λ (q : Ptr). Owns g q w y) (sym (at kp)) yg) trade u key)
              (λ v g3 done. (r.0, lt, done)))))
