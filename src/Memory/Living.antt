-- ===== src/Memory/Living.antt =====
-- What a pointer owns is in use.
use php_parallax.Prelude.{
  ℕ, zero, suc, ◌≡◌, ◌≢◌, Bool, true, false, ◌||◌, Option, none, some, [], ◌∷◌, refl,
}
use php_parallax.Value.{
  Bytes, CStr, Key, int_key, str_key, Value, Items, absent, null, bool, long, double, str, arr, obj,
  err, nil, item, count,
}
use php_parallax.Memory.Store.{Ptr, Kv, Block, Heap, Region, nowhere, single, ◌∪◌}
use php_parallax.Memory.Owns.{Rooted, Buffer, Text, HasKey, Table, Owns, Entries}
use php_parallax.Memory.Extends.{Live, eq_of_test}

or_cases : (a b : Bool) {T : Type 0} → (a ≡ true → T) → (b ≡ true → T) → (a || b) ≡ true → T
or_cases true b l r m = l refl
or_cases false b l r m = r m

pub Live-nowhere : (h : Heap) → Live nowhere h
unfolding nowhere
Live-nowhere h = record { used = λ a m. absurd (cc m) }

pub Live-∪ : {f g : Region} {h : Heap} → Live f h → Live g h → Live (f ∪ g) h
unfolding ◌∪◌
Live-∪ {f} {g} l r = record { used = λ a m. or_cases (f a) (g a) (l.used a) (r.used a) m }

pub some-ne : {o : Option Block} {b : Block} → o ≡ some b → o ≢ none
some-ne e n = cc

pub Live-single : {h : Heap} (p : Ptr) (b : Block) → h p ≡ some b → Live (single p) h
unfolding single
Live-single {h} p b e = record { used = λ a m. rw (← eq_of_test p a m) (some-ne e) }

pub Rooted-Live :
    {h : Heap} {p : Ptr} {b : Block} {g f : Region} → Rooted h p b g f → Live g h → Live f h
Rooted-Live {h} {p} {b} r l = rw r.region (Live-∪ l (Live-single p b r.live))

Leaf-Live : {h : Heap} {p : Ptr} {b : Block} {f : Region} → Rooted h p b nowhere f → Live f h
Leaf-Live {h} r = Rooted-Live r (Live-nowhere h)

pub Buffer-Live : (p : Ptr) (s : Bytes) (f : Region) (h : Heap) → Buffer h p s f → Live f h
Buffer-Live p [] f h o = rw o.1 (Live-nowhere h)
Buffer-Live p (c ∷ cs) f h o = Leaf-Live o

pub Text-Live : (p : Ptr) (s : CStr) (f : Region) (h : Heap) → Text h p s f → Live f h
Text-Live p none f h o = rw o.1 (Live-nowhere h)
Text-Live p (some s) f h o = Leaf-Live o

pub HasKey-Live : (kv : Kv) (j : Key) (f : Region) (h : Heap) → HasKey h kv j f → Live f h
HasKey-Live kv (int_key i) f h o = rw o.3.1 (Live-nowhere h)
HasKey-Live kv (str_key s) f h o = Buffer-Live kv.skey s f h o.2

pub Table-Live :
    {Filled : (ℕ → Kv) → Region → Type 0} (p : Ptr) (n capacity : ℕ) (f : Region) (h : Heap)
    → ((ks : ℕ → Kv) (g : Region) → Filled ks g → Live g h)
    → Table Filled h p n capacity f
    → Live f h
Table-Live p n zero f h parts o = rw o.1.1 (Live-nowhere h)
Table-Live p n (suc c) f h parts (ks, g, fill, fits, root) = Rooted-Live root (parts ks g fill)

mutual
  pub Owns-Live : (p : Ptr) (v : Value) (f : Region) (h : Heap) → Owns h p v f → Live f h
  Owns-Live p absent f h o = rw o.1 (Live-nowhere h)
  Owns-Live p null f h o = Leaf-Live o
  Owns-Live p (bool b) f h o = Leaf-Live o
  Owns-Live p (long i) f h o = Leaf-Live o
  Owns-Live p (double d) f h o = Leaf-Live o
  Owns-Live p (str s) f h (q, g, buf, root) = Rooted-Live root (Buffer-Live q s g h buf)
  Owns-Live p (arr xs c) f h (q, g, tab, root) =
      Rooted-Live root
        (Table-Live q (count xs) c g h (λ ks e fill. Entries-Live ks 0 xs e h fill) tab)
  Owns-Live p (obj cls xs c) f h (q, r, g, e, buf, tab, sep, root) = Rooted-Live root (
      Live-∪ (Buffer-Live q cls g h buf)
        (Table-Live r (count xs) c e h (λ ks d fill. Entries-Live ks 0 xs d h fill) tab))
  Owns-Live p (err cls msg code trace) f h (q, r, s, g, e, d, a, b, c, sep, sep', root) =
      Rooted-Live root
        (Live-∪ (Live-∪ (Text-Live q cls g h a) (Text-Live r msg e h b)) (Text-Live s trace d h c))

  pub Entries-Live :
      (ks : ℕ → Kv) (i : ℕ) (xs : Items) (f : Region) (h : Heap) → Entries h ks i xs f → Live f h
  Entries-Live ks i nil f h o = rw o (Live-nowhere h)
  Entries-Live ks i (item j v xs) f h (g, e, d, key, val, rest, sep, sep', region) = rw region (
      Live-∪ (Live-∪ (HasKey-Live (ks i) j g h key) (Owns-Live (ks i).val v e h val))
        (Entries-Live ks (suc i) xs d h rest))
