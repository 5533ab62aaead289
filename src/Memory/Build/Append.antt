-- ===== src/Memory/Build/Append.antt =====
-- One entry more at the end of the entries of an array.
use php_parallax.Prelude.{ℕ, suc, ◌+◌, ◌≡◌, refl, sym, subst, Bool, true, false, ◌||◌, arith}
use mathlib.Core.Path.{fun_ext}
use php_parallax.Value.{Key, Value, Items, nil, item, count, snoc}
use php_parallax.Memory.Store.{Kv, Heap, Region, nowhere, ◌∪◌}
use php_parallax.Memory.Release.Remove.{Apart-left, Apart-right}
use php_parallax.Memory.Owns.{Apart, HasKey, Owns, Entries}

or_assoc : (a b c : Bool) → (a || (b || c)) ≡ ((a || b) || c)
or_assoc true b c = refl
or_assoc false b c = refl

∪-assoc : (f g e : Region) → f ∪ (g ∪ e) ≡ (f ∪ g) ∪ e
unfolding ◌∪◌
∪-assoc f g e = fun_ext (λ a. or_assoc (f a) (g a) (e a))

or_nowhere : (b : Bool) → (b || false) ≡ b
or_nowhere true = refl
or_nowhere false = refl

nowhere-left : (f : Region) → nowhere ∪ f ≡ f ∪ nowhere
unfolding ◌∪◌ nowhere
nowhere-left f = fun_ext (λ a. sym (or_nowhere (f a)))

Apart-nowhere : (f : Region) → Apart f nowhere
unfolding nowhere
Apart-nowhere f = record { off = λ a m. refl }

pub Apart-join : (f g d : Region) → Apart d f → Apart d g → Apart d (f ∪ g)
unfolding ◌∪◌
Apart-join f g d l r = record { off = λ a m. ground (arith, l.off a, r.off a) }

-- One entry more, at the end, which owns `k` and `y`.
pub Entries-snoc :
    (ks : ℕ → Kv) (i : ℕ) (xs : Items) (j : Key) (v : Value) (e k y : Region) (h : Heap)
    → Entries h ks i xs e
    → HasKey h (ks (i + count xs)) j k
    → Owns h (ks (i + count xs)).val v y
    → Apart k y
    → Apart e (k ∪ y)
    → Entries h ks i (snoc xs j v) (e ∪ (k ∪ y))
Entries-snoc ks i nil j v e k y h fill key val sep apart =
    let at : i + 0 ≡ i = omega arith in
    (
      k,
      y,
      nowhere,
      subst (λ (n : ℕ). HasKey h (ks n) j k) at key,
      subst (λ (n : ℕ). Owns h (ks n).val v y) at val,
      refl,
      sep,
      Apart-nowhere (k ∪ y),
      rw fill (nowhere-left (k ∪ y)),
    )
Entries-snoc ks i (item j' v' xs) j v e k y h (g1, e1, d1, key1, val1, rest, sep1, sep1', region)
      key val sep apart =
    let at : i + suc (count xs) ≡ suc i + count xs = omega arith in
    let apart' = subst (λ (t : Region). Apart t (k ∪ y)) region apart in
    (
      g1,
      e1,
      d1 ∪ (k ∪ y),
      key1,
      val1,
      Entries-snoc ks (suc i) xs j v d1 k y h rest (subst (λ (n : ℕ). HasKey h (ks n) j k) at key)
          (subst (λ (n : ℕ). Owns h (ks n).val v y) at val) sep (Apart-right (g1 ∪ e1) d1 apart'),
      sep1,
      Apart-join d1 (k ∪ y) (g1 ∪ e1) sep1' (Apart-left (g1 ∪ e1) d1 apart'),
      rw region (sym (∪-assoc (g1 ∪ e1) d1 (k ∪ y))),
    )
