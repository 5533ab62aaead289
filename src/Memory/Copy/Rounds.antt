-- ===== src/Memory/Copy/Rounds.antt =====
-- The loop of `clone_kv_block`: one round, and the rounds behind it.
use php_parallax.Prelude.{
  ℕ, suc, ◌+◌, ◌≡◌, refl, sym, subst, ◌∙◌, false, some, arith, ◌≤◌, ◌<◌, ◌==◌,
}
use php_parallax.Value.{Key, Value, Items, item, count}
use php_parallax.Memory.Store.{Ptr, Kv, kvs, Block, Heap, Region, ◌∪◌, write}
use php_parallax.Memory.Owns.{HasKey, Owns, Entries}
use php_parallax.Memory.Frame.{HasKey-frame, Owns-frame, Entries-frame}
use php_parallax.Memory.Make.{update_kv}
use php_parallax.Memory.Extends.{
  Extends, Extends-trans, Live, Live-Agree, Live-Apart, Live-Extends, write-other, off_of_fresh,
}
use php_parallax.Memory.Living.{some-ne, Owns-Live, HasKey-Live, Live-∪}
use php_parallax.Memory.Copy.Besides.{
  Besides, Besides-step, Besides-Agree, Besides-Apart, Agree-write, Live-write, update_kv-here,
  update_kv-below,
}

-- What the loop leaves: an array that is as before below `i` and has `xs` from there.
abbrev pub Fills : Heap → Ptr → ℕ → (ℕ → Kv) → ℕ → Items → Heap → Type 0
Fills h dst n ks i xs g =
    (ks' : ℕ → Kv) × (f : Region) × (g dst ≡ some (kvs n ks'))
    × ((j : ℕ) → j < i → ks' j ≡ ks j)
    × Entries g ks' i xs f
    × Besides h dst f g

-- One round, whose key and value are copied to `d1` and `d2`, and then the rounds behind it.
pub Fills-item :
    {h g1 g2 g3 : Heap} {d1 d2 : Region} (dst : Ptr) (n : ℕ) (ks : ℕ → Kv) (i : ℕ) (j : Key)
    (v : Value) (xs : Items) (kv : Kv)
    → h dst ≡ some (kvs n ks)
    → d1 dst ≡ false
    → d2 dst ≡ false
    → Extends h d1 g1
    → Extends g1 d2 g2
    → HasKey g1 kv j d1
    → Owns g2 kv.val v d2
    → Fills (write dst (kvs n (update_kv ks i kv)) g2) dst n (update_kv ks i kv) (suc i) xs g3
    → Fills h dst n ks i (item j v xs) g3
unfolding ◌∪◌
Fills-item {h} {g1} {g2} {g3} {d1} {d2} dst n ks i j v xs kv live o1 o2 e1 e2 key val
      (ks', d3, done, below, rest, b) =
    let here : kv ≡ ks' i = sym (below i (omega arith) ∙ update_kv-here ks i kv) in
    let w = kvs n (update_kv ks i kv) in
    let l1 = HasKey-Live kv j d1 g1 key in
    let l1' = Live-Extends e2 l1 in
    let l2 = Owns-Live kv.val v d2 g2 val in
    let b1 = Besides-Agree b (Live-write dst w g2 o1 l1') o1 in
    let b2 = Besides-Agree b (Live-write dst w g2 o2 l2) o2 in
    let key' = HasKey-frame kv j d1 b1 (
      HasKey-frame kv j d1 (Agree-write dst w g2 o1)
        (HasKey-frame kv j d1 (Live-Agree e2 l1) key)) in
    let val' = Owns-frame kv.val v d2 b2 (Owns-frame kv.val v d2 (Agree-write dst w g2 o2) val) in
    let both = Live-write dst w g2 (rw (o1, o2)) (Live-∪ l1' l2) in
    (
      ks',
      (d1 ∪ d2) ∪ d3,
      done,
      λ m lt. below m (omega arith) ∙ update_kv-below ks i m kv lt,
      (
        d1,
        d2,
        d3,
        subst (λ (t : Kv). HasKey g3 t j d1) here key',
        subst (λ (t : Kv). Owns g3 t.val v d2) here val',
        rest,
        Live-Apart e2 l1,
        Besides-Apart b both,
        refl,
      ),
      Besides-step w (d1 ∪ d2) d3 (Extends-trans d1 d2 e1 e2) b,
    )

-- A block that was there stays.
pub Extends-keeps :
    {h g : Heap} {f : Region} (p : Ptr) (b : Block) → Extends h f g → h p ≡ some b → g p ≡ some b
Extends-keeps {f} p b u live = u.same p (off_of_fresh (f p) (u.unused p) (some-ne live)) ∙ live

pub Extends-off :
    {h g : Heap} {f : Region} (p : Ptr) (b : Block) → Extends h f g → h p ≡ some b → f p ≡ false
Extends-off {f} p b u live = off_of_fresh (f p) (u.unused p) (some-ne live)

-- `src` is an array with the entries `xs` from index `i` on, apart from the array `dst`.
pub record Source (h : Heap) (src dst c : ℕ) (ks : ℕ → Kv) (i : ℕ) (xs : Items) (s : Region)
    : Type 0 where
  pub array : h src ≡ some (kvs c ks)
  pub other : (dst == src) ≡ false
  pub bound : i + count xs ≤ c
  pub beside : s dst ≡ false
  pub used : Live s h
  pub entries : Entries h ks i xs s

-- The source of the rounds that follow.
pub Source-rest :
    {h g1 g2 : Heap} {d1 d2 : Region} {src dst c : ℕ} {ks : ℕ → Kv} {i : ℕ} {xs : Items}
    (d : Region) (b : Block)
    → h src ≡ some (kvs c ks)
    → (dst == src) ≡ false
    → i + suc (count xs) ≤ c
    → d dst ≡ false
    → Live d h
    → Entries h ks (suc i) xs d
    → Extends h d1 g1
    → Extends g1 d2 g2
    → Source (write dst b g2) src dst c ks (suc i) xs d
Source-rest {g2} {d1} {d2} {src} {dst} {c} {ks} {i} {xs} d b array other bound off l rest e1 e2 =
    let both = Extends-trans d1 d2 e1 e2 in
    record {
      array = write-other dst src b g2 other ∙ Extends-keeps src (kvs c ks) both array;
      other = other;
      bound = omega arith;
      beside = off;
      used = Live-write dst b g2 off (Live-Extends both l);
      entries =
          Entries-frame ks (suc i) xs d (Agree-write dst b g2 off)
            (Entries-frame ks (suc i) xs d (Live-Agree both l) rest);
    }
