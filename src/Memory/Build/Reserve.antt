-- ===== src/Memory/Build/Reserve.antt =====
-- `grow` keeps the entries of an array, and makes room for one more.
use php_parallax.Prelude.{
  ℕ, zero, suc, ◌+◌, ◌^◌, ◌≤◌, ◌<◌, ◌≡◌, ◌≢◌, refl, sym, ◌∙◌, subst, ap, Bool, true, false, Option,
  none, some, ◌==◌, ltb, arith, Bool-cases, inl, inr,
}
use php_parallax.Value.{Items, nil, item, count, grow}
use php_parallax.Value.Capacity.{room}
use php_parallax.Memory.Store.{
  Ptr, Kv, Block, kvs, Heap, ret, ◌>>=◌, Region, nowhere, single, ◌∪◌, remove, write,
}
use php_parallax.Memory.Owns.{Apart, Agree, Rooted, HasKey, Owns, Entries}
use php_parallax.Memory.Frame.{Entries-frame}
use php_parallax.Memory.Make.{blank_kv, alloc_kvs}
use php_parallax.Memory.Make.Arrays.{Holds}
use php_parallax.Memory.Make.Roots.{Rooted-write}
use php_parallax.Memory.Release.Remove.{==-zero, Agree-remove}
use php_parallax.Memory.Extends.{
  IsMalloc, Ends, ends, gave_up, Ends-after, Live, Live-left, alloc-Ends, eq_of_test, write-here,
}
use php_parallax.Memory.Copy.Besides.{Agree-write}
use php_parallax.Memory.Build.{keep_first, kv_room, move_to, resize_in, resize, grow_kvs, reserve}
use php_parallax.Memory.Build.Moves.{Trades, Trades-refl, Trades-move}

-- The array at `r.0` has room for an entry behind `xs`; before, they were owned by `d`.
abbrev pub Ready : Heap → Region → Items → ℕ → Ptr × ℕ → Heap → Type 0
Ready h d xs c r g =
    (ks : ℕ → Kv) × (e : Region) × (r.1 ≡ room (count xs) c)
    × (count xs < r.1)
    × Entries g ks 0 xs e
    × Rooted g r.0 (kvs r.1 ks) e (e ∪ single r.0)
    × Trades h d (e ∪ single r.0) g

-- Entries are the same in an array that is the same at them.
pub Entries-same :
    (ks ks' : ℕ → Kv) (i : ℕ) (xs : Items) (f : Region) (h : Heap)
    → ((j : ℕ) → j < i + count xs → ks' j ≡ ks j)
    → Entries h ks i xs f
    → Entries h ks' i xs f
Entries-same ks ks' i nil f h same o = o
Entries-same ks ks' i (item k v xs) f h same (g, e, d, key, val, rest, sep, sep', region) =
    let here : ks i ≡ ks' i = sym (same i (omega arith)) in
    (
      g,
      e,
      d,
      subst (λ (t : Kv). HasKey h t k g) here key,
      subst (λ (t : Kv). Owns h t.val v e) here val,
      Entries-same ks ks' (suc i) xs d h (λ j lt. same j (omega arith)) rest,
      sep,
      sep',
      region,
    )

keep_first-below : (n : ℕ) (ks : ℕ → Kv) (j : ℕ) → j < n → keep_first n ks j ≡ ks j
unfolding keep_first
keep_first-below n ks j lt = let e : ltb j n ≡ true = ground arith in rw e

grow-lt : (c : ℕ) → c < 2 ^ 57 → c < grow c
unfolding grow
grow-lt c small = ground arith

grow-fits : (c : ℕ) → c < 2 ^ 57 → ltb (kv_room (grow c)) (grow c) ≡ false
unfolding grow kv_room
grow-fits c small = ground arith

room-full : (c : ℕ) → room c c ≡ grow c
unfolding room
room-full c = let e : (c == c) ≡ true = ground arith in rw e

room-other : (n c : ℕ) → (n == c) ≡ false → room n c ≡ c
unfolding room
room-other n c e = rw e

move_to-Ends :
    (o : Option Ptr) (t : Ptr) (b : Block) (h : Heap)
    → ((q : Ptr) → o ≡ some q → (q ≢ 0) × (remove (single t) h q ≡ none))
    → Ends
        (λ q g. (q ≢ 0) × (remove (single t) h q ≡ none) × (g ≡ write q b (remove (single t) h)))
        (move_to o t b h)
unfolding move_to
move_to-Ends none t b h k = gave_up
move_to-Ends (some q) t b h k = ends ((k q refl).0, (k q refl).1, refl)

pub single-Apart : (e : Region) (t : Ptr) → e t ≡ false → Apart (single t) e
unfolding single
single-Apart e t out = record { off = λ a m. rw (← eq_of_test t a m) out }

off_of_live : (b : Bool) {x : Option Block} → (b ≡ true → x ≢ none) → x ≡ none → b ≡ false
off_of_live true k gone = absurd (k refl gone)
off_of_live false k gone = refl

-- The entries of an array that has moved.
moved-Ready :
    (t q : Ptr) (xs : Items) (c n : ℕ) (ks : ℕ → Kv) (e d : Region) (h : Heap)
    → n ≡ room (count xs) c
    → count xs < n
    → count xs ≤ c
    → Entries h ks 0 xs e
    → Live e h
    → Rooted h t (kvs c ks) e d
    → q ≢ 0
    → remove (single t) h q ≡ none
    → Ready h d xs c (q, n) (write q (kvs n (keep_first c ks)) (remove (single t) h))
moved-Ready t q xs c n ks e d h fits lt le fill live root set new =
    let b = kvs n (keep_first c ks) in
    let h' = remove (single t) h in
    let kept : Agree e h h' = Agree-remove (single-Apart e t root.outside) h in
    let off : e q ≡ false = off_of_live (e q) (λ m. rw (kept.same q m) (live.used q m)) new in
    (
      keep_first c ks,
      e,
      fits,
      lt,
      Entries-same ks (keep_first c ks) 0 xs e (write q b h')
          (λ j below. keep_first-below c ks j (omega arith))
          (Entries-frame ks 0 xs e (Agree-write q b h' off) (Entries-frame ks 0 xs e kept fill)),
      record { set = set; live = write-here q b h'; outside = off; region = refl },
      subst (λ (s : Region). Trades h s (e ∪ single q) (write q b h')) (sym root.region)
          (Trades-move h e t q b new),
    )

-- The first array of an empty one.
first_trade :
    (p : Ptr) (b : Block) (h : Heap) (d : Region) (g : Heap)
    → d ≡ nowhere
    → h p ≡ none
    → g ≡ write p b h
    → Trades h d (nowhere ∪ single p) g
unfolding nowhere ◌∪◌ single write
first_trade p b h d g none_yet new e =
    rw (none_yet, e)
      (record {
        taken = λ a out m. ground (arith, new);
        gone = λ a m out. absurd (cc m);
        kept = λ a out out'. ground (arith);
      })

-- An array with room stays where it is.
spare-Ready :
    (t : Ptr) (xs : Items) (c : ℕ) (d : Region) (h : Heap)
    → count xs ≤ c
    → (count xs == c) ≡ false
    → Holds xs c h t d
    → Ready h d xs c (t, c) h
spare-Ready t xs zero d h le other o = absurd (ground arith)
spare-Ready t xs (suc c) d h le other (ks, e, fill, fits, root) = (
  ks,
  e,
  sym (room-other (count xs) (suc c) other),
  ground arith,
  fill,
  record { set = root.set; live = root.live; outside = root.outside; region = refl },
  subst (λ (s : Region). Trades h s (e ∪ single t) h) (sym root.region)
      (Trades-refl h (e ∪ single t)),
)

test_eq : (a b : ℕ) → (a == b) ≡ true → a ≡ b
test_eq a b m = ground arith

module _ (malloc : Heap → Option Ptr) (law : IsMalloc malloc) where
  -- A full array is moved to twice its capacity.
  full-Ready :
      (t : Ptr) (xs : Items) (c : ℕ) (d : Region) (h : Heap)
      → count xs ≡ c
      → c < 2 ^ 57
      → Holds xs c h t d
      → Live d h
      → Ends (Ready h d xs c) ((grow_kvs malloc t c (grow c) >>= λ p. ret (p, grow c)) h)
  unfolding grow_kvs resize resize_in alloc_kvs ◌∪◌ single nowhere
  full-Ready t nil zero d h all small o live =
      let b = kvs (grow 0) (λ i. blank_kv) in
      rw (grow-fits 0 small, o.1.0)
        (Ends-after (alloc-Ends malloc law (ret b) b h refl) (λ p g new. ends (
          (λ i. blank_kv),
          nowhere,
          sym (room-full 0),
          grow-lt 0 small,
          refl,
          subst (λ (k : Heap). Rooted k p b nowhere (nowhere ∪ single p)) (sym new.2)
              (Rooted-write p b h new.0),
          first_trade p b h d g o.1.1 new.1 new.2,
        )))
  full-Ready t (item k v xs) zero d h all small o live = absurd (omega arith)
  full-Ready t xs (suc c) d h all small (ks, e, fill, fits, root) live =
      let n = grow (suc c) in
      rw (grow-fits (suc c) small, ==-zero t root.set, root.live)
        (Ends-after
          (move_to-Ends (malloc (remove (single t) h)) t (kvs n (keep_first (suc c) ks)) h
            (λ q e'. law (remove (single t) h) q e'))
          (λ q g new. rw new.2 (
            ends (
              moved-Ready t q xs (suc c) n ks e d h
                (sym (room-full (suc c)) ∙ ap (λ (m : ℕ). room m (suc c)) (sym all))
                (let lt = grow-lt (suc c) small in omega arith) (omega arith) fill
                (Live-left e (single t) (subst (λ (s : Region). Live s h) root.region live)) root
                new.0 new.1))))

  pub reserve-Ready :
      (t : Ptr) (xs : Items) (c : ℕ) (d : Region) (h : Heap)
      → count xs ≤ c
      → c < 2 ^ 57
      → Holds xs c h t d
      → Live d h
      → Ends (Ready h d xs c) (reserve malloc t (count xs) c h)
  unfolding reserve
  reserve-Ready t xs c d h le small o live = elim (Bool-cases (count xs == c)) [
    | inl e ↦ rw e (full-Ready t xs c d h (test_eq (count xs) c e) small o live)
    | inr e ↦ rw e (ends (spare-Ready t xs c d h le e o))
  ]
