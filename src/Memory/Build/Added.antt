-- ===== src/Memory/Build/Added.antt =====
-- The steps that the builders share, from `grow` to the write of the new entry.
use php_parallax.Prelude.{ℕ, ◌+◌, ◌<◌, ◌≡◌, refl, sym, ◌∙◌, subst, true, false, some, ◌==◌, arith}
use php_parallax.Value.{Key, Value, Items, count, snoc}
use php_parallax.Memory.Store.{Ptr, Kv, Node, node, kvs, Heap, Region, single, ◌∪◌, write}
use php_parallax.Memory.Regions.{test_flip, or_false, ==-refl}
use php_parallax.Memory.Owns.{Apart, Rooted, HasKey, Owns, Entries}
use php_parallax.Memory.Release.Remove.{Apart-sym}
use php_parallax.Memory.Frame.{HasKey-frame, Owns-frame, Entries-frame}
use php_parallax.Memory.Make.{update_kv, store_kv}
use php_parallax.Memory.Extends.{
  Ends, ends, Extends, Live-Agree, Live-Apart, write-here, write-other,
}
use php_parallax.Memory.Living.{Owns-Live, Entries-Live}
use php_parallax.Memory.Copy.Besides.{
  Agree-write, Live-write, update_kv-here, update_kv-below, store_kv-live,
}
use php_parallax.Memory.Copy.Rounds.{Extends-keeps, Extends-off}
use php_parallax.Memory.Build.Moves.{Trades, Trades-append}
use php_parallax.Memory.Build.Reserve.{Entries-same}
use php_parallax.Memory.Build.Append.{Apart-join, Entries-snoc}

-- The array at `q`, of capacity `n`, has the new entry, and the root at `p` is `z`. `d` and `y` are
-- what the array and the child owned.
abbrev pub Put : Ptr → Ptr → Node → ℕ → Items → Key → Value → Heap → Region → Region → Heap → Type 0
Put p q z n xs j w h d y g =
    (ks : ℕ → Kv) × (e : Region) × (g p ≡ some (node z))
    × Entries g ks 0 (snoc xs j w) e
    × Rooted g q (kvs n ks) e (e ∪ single q)
    × ((e ∪ single q) p ≡ false)
    × Trades h ((d ∪ single p) ∪ y) ((e ∪ single q) ∪ single p) g

pub union_out : (f g : Region) (a : Ptr) → f a ≡ false → g a ≡ false → (f ∪ g) a ≡ false
unfolding ◌∪◌
union_out f g a l r = rw (l, r)

out_right : (f : Region) (q a : Ptr) → (f ∪ single q) a ≡ false → (q == a) ≡ false
unfolding ◌∪◌ single
out_right f q a out = (or_false (f a) (q == a) out).1

out_left : (f g : Region) (a : Ptr) → (f ∪ g) a ≡ false → f a ≡ false
unfolding ◌∪◌
out_left f g a out = (or_false (f a) (g a) out).0

pub single_in : (p : Ptr) → single p p ≡ true
unfolding single
single_in p = ==-refl p

out_single : (q a : Ptr) → (q == a) ≡ false → single q a ≡ false
unfolding single
out_single q a e = e

pub off_at : (f g : Region) (a : Ptr) → Apart f g → g a ≡ true → f a ≡ false
off_at f g a sep m = (Apart-sym sep).off a m

pub left_part : (f g e : Region) → Apart f (g ∪ e) → Apart f g
unfolding ◌∪◌
left_part f g e sep = record { off = λ a m. (or_false (g a) (e a) (sep.off a m)).0 }

pub right_part : (f g e : Region) → Apart f (g ∪ e) → Apart f e
unfolding ◌∪◌
right_part f g e sep = record { off = λ a m. (or_false (g a) (e a) (sep.off a m)).1 }

-- An entry at the place behind the others.
place_of : (ks : ℕ → Kv) (n : ℕ) (kv : Kv) → update_kv ks n kv (0 + n) ≡ kv
place_of ks n kv = rw (zero-add n) (update_kv-here ks n kv)
  where
    zero-add : (n : ℕ) → 0 + n ≡ n
    zero-add n = omega arith

module _ {h g g2 : Heap} (p q : Ptr) (z : Node) (xs : Items) (n : ℕ) (ks : ℕ → Kv) (j : Key)
    (w : Value) (kv : Kv) (d e k y : Region) where
  -- The last step: the entry is written, and the array and the root are in place.
  pub last_write :
      (e ∪ single q) p ≡ false
      → y p ≡ false
      → Apart y (e ∪ single q)
      → count xs < n
      → Rooted g q (kvs n ks) e (e ∪ single q)
      → Entries g ks 0 xs e
      → Owns g kv.val w y
      → Trades h d (e ∪ single q) g
      → Extends (write p (node z) g) k g2
      → HasKey g2 kv j k
      → Ends (λ u g3. Put p q z n xs j w h d y g3) (store_kv q (count xs) kv g2)
  last_write offp yp yq lt root fill child t u key =
      let g1 = write p (node z) g in
      let ks' = update_kv ks (count xs) kv in
      let b = kvs n ks' in
      let ep = out_left e (single q) p offp in
      let qp = out_right e q p offp in
      let q1 = write-other p q (node z) g (test_flip q p qp) ∙ root.live in
      let q2 = Extends-keeps q (kvs n ks) u q1 in
      let p1 = write-here p (node z) g in
      let kq = Extends-off q (kvs n ks) u q1 in
      let kp = Extends-off p (node z) u p1 in
      let yq' = off_at y (single q) q (right_part y e (single q) yq) (single_in q) in
      let le = Live-write p (node z) g ep (Entries-Live ks 0 xs e g fill) in
      let ly = Live-write p (node z) g yp (Owns-Live kv.val w y g child) in
      let fill3 = Entries-frame ks 0 xs e (Agree-write q b g2 root.outside) (
        Entries-frame ks 0 xs e (Live-Agree u le)
          (Entries-frame ks 0 xs e (Agree-write p (node z) g ep) fill)) in
      let child3 = Owns-frame kv.val w y (Agree-write q b g2 yq') (
        Owns-frame kv.val w y (Live-Agree u ly)
          (Owns-frame kv.val w y (Agree-write p (node z) g yp) child)) in
      let key3 = HasKey-frame kv j k (Agree-write q b g2 kq) key in
      let here : kv ≡ ks' (0 + count xs) = sym (place_of ks (count xs) kv) in
      let eq : (e ∪ (k ∪ y)) q ≡ false =
        union_out e (k ∪ y) q root.outside (union_out k y q kq yq') in
      rw (store_kv-live q (count xs) n ks kv g2 q2 lt) (
        ends (
          ks',
          e ∪ (k ∪ y),
          write-other q p b g2 qp ∙ Extends-keeps p (node z) u p1,
          Entries-snoc ks' 0 xs j w e k y (write q b g2)
              (Entries-same ks ks' 0 xs e (write q b g2)
                (λ m below. update_kv-below ks (count xs) m kv (omega arith)) fill3)
              (subst (λ (t : Kv). HasKey (write q b g2) t j k) here key3)
              (subst (λ (t : Kv). Owns (write q b g2) t.val w y) here child3)
              (Apart-sym (Live-Apart u ly))
              (Apart-join k y e (Live-Apart u le) (Apart-sym (left_part y e (single q) yq))),
          record { set = root.set; live = write-here q b g2; outside = eq; region = refl },
          union_out (e ∪ (k ∪ y)) (single q) p (union_out e (k ∪ y) p ep (union_out k y p kp yp))
              (out_single q p qp),
          Trades-append d e k y p q (node z) b t u,
        ))
