-- ===== src/Memory/Frame.antt =====
-- What a pointer owns depends on its own region of the store alone.
use php_parallax.Prelude.{ℕ, zero, suc, ◌≡◌, ◌∙◌, subst, true, [], ◌∷◌, none, some, ◌==◌}
use php_parallax.Value.{
  Bytes, CStr, Key, int_key, str_key, Value, Items, absent, null, bool, long, double, str, arr, obj,
  err, nil, item, count,
}
use php_parallax.Memory.Store.{Ptr, Kv, Block, Heap, Region, single, ◌∪◌}
use php_parallax.Memory.Regions.{==-refl, or_left, or_right}
use php_parallax.Memory.Owns.{Agree, Rooted, Buffer, Text, HasKey, Table, Owns, Entries}

module _ (f g : Region) {h k : Heap} where
  pub Agree-left : Agree (f ∪ g) h k → Agree f h k
  unfolding ◌∪◌
  Agree-left w = record { same = λ a m. w.same a (or_left (f a) (g a) m) }

  pub Agree-right : Agree (f ∪ g) h k → Agree g h k
  unfolding ◌∪◌
  Agree-right w = record { same = λ a m. w.same a (or_right (f a) (g a) m) }

module _ {h k : Heap} {p : Ptr} {b : Block} {g f : Region} (w : Agree f h k) where
  -- Below the root.
  pub Agree-parts : Rooted h p b g f → Agree g h k
  Agree-parts r = Agree-left g (single p) (subst (λ (e : Region). Agree e h k) r.region w)

  pub Rooted-frame : Rooted h p b g f → Rooted k p b g f
  unfolding single ◌∪◌
  Rooted-frame r =
      let here : f p ≡ true = rw r.region (or_right (g p) (p == p) (==-refl p)) in
      record { set = r.set; live = w.same p here ∙ r.live; outside = r.outside; region = r.region }

pub Buffer-frame :
    {h k : Heap} (p : Ptr) (s : Bytes) (f : Region) → Agree f h k → Buffer h p s f → Buffer k p s f
Buffer-frame p [] f w o = o
Buffer-frame p (c ∷ cs) f w o = Rooted-frame w o

pub Text-frame :
    {h k : Heap} (p : Ptr) (s : CStr) (f : Region) → Agree f h k → Text h p s f → Text k p s f
Text-frame p none f w o = o
Text-frame p (some s) f w o = Rooted-frame w o

pub HasKey-frame :
    {h k : Heap} (kv : Kv) (j : Key) (f : Region) → Agree f h k → HasKey h kv j f → HasKey k kv j f
HasKey-frame kv (int_key i) f w o = o
HasKey-frame kv (str_key s) f w o = (o.0, o.1, Buffer-frame kv.skey s f w o.2)

pub Table-frame :
    {Filled Filled' : (ℕ → Kv) → Region → Type 0} {h k : Heap} (p : Ptr) (n capacity : ℕ)
    (f : Region)
    → Agree f h k
    → ((ks : ℕ → Kv) (g : Region) → Agree g h k → Filled ks g → Filled' ks g)
    → Table Filled h p n capacity f
    → Table Filled' k p n capacity f
Table-frame p n zero f w keep o = o
Table-frame p n (suc c) f w keep (ks, g, fill, fits, root) =
    (ks, g, keep ks g (Agree-parts w root) fill, fits, Rooted-frame w root)

mutual
  pub Owns-frame :
      {h k : Heap} (p : Ptr) (v : Value) (f : Region) → Agree f h k → Owns h p v f → Owns k p v f
  Owns-frame p absent f w o = o
  Owns-frame p null f w o = Rooted-frame w o
  Owns-frame p (bool b) f w o = Rooted-frame w o
  Owns-frame p (long i) f w o = Rooted-frame w o
  Owns-frame p (double d) f w o = Rooted-frame w o
  Owns-frame p (str s) f w (q, g, buf, root) =
      (q, g, Buffer-frame q s g (Agree-parts w root) buf, Rooted-frame w root)
  Owns-frame p (arr xs c) f w (q, g, tab, root) = (
    q,
    g,
    Table-frame q (count xs) c g (Agree-parts w root) (λ ks e u. Entries-frame ks 0 xs e u) tab,
    Rooted-frame w root,
  )
  Owns-frame p (obj cls xs c) f w (q, r, g, e, buf, tab, sep, root) =
      let u = Agree-parts w root in
      (
        q,
        r,
        g,
        e,
        Buffer-frame q cls g (Agree-left g e u) buf,
        Table-frame r (count xs) c e (Agree-right g e u) (λ ks d v. Entries-frame ks 0 xs d v) tab,
        sep,
        Rooted-frame w root,
      )
  Owns-frame p (err cls msg code trace) f w (q, r, s, g, e, d, a, b, c, sep, sep', root) =
      let u = Agree-parts w root in
      let u' = Agree-left (g ∪ e) d u in
      (
        q,
        r,
        s,
        g,
        e,
        d,
        Text-frame q cls g (Agree-left g e u') a,
        Text-frame r msg e (Agree-right g e u') b,
        Text-frame s trace d (Agree-right (g ∪ e) d u) c,
        sep,
        sep',
        Rooted-frame w root,
      )

  pub Entries-frame :
      {h k : Heap} (ks : ℕ → Kv) (i : ℕ) (xs : Items) (f : Region)
      → Agree f h k
      → Entries h ks i xs f
      → Entries k ks i xs f
  Entries-frame ks i nil f w o = o
  Entries-frame {h} {k} ks i (item j v xs) f w (g, e, d, key, val, rest, sep, sep', region) =
      let u = subst (λ (t : Region). Agree t h k) region w in
      let u' = Agree-left (g ∪ e) d u in
      (
        g,
        e,
        d,
        HasKey-frame (ks i) j g (Agree-left g e u') key,
        Owns-frame (ks i).val v e (Agree-right g e u') val,
        Entries-frame ks (suc i) xs d (Agree-right (g ∪ e) d u) rest,
        sep,
        sep',
        region,
      )
