-- ===== src/Value/Keys.antt =====
-- The integer keys that `value_arr_push` chooses, and lookup by string key.
use php_parallax.Prelude.{
  ℕ, suc, ◌+◌, ◌*◌, ◌^◌, ◌<◌, arith, ◌≡◌, refl, ap, ◌∙◌, ◌≢◌, true, if◌then◌else◌, ◌↔◌, [], ◌∷◌,
  Bool-cases, inl, inr, Option, none, some, done,
}
use php_parallax.Prelude.Int.{
  ℤ, pos, negsuc, i64_max, ltz, succ, ◌≤ℤ◌, ◌<ℤ◌, ltz_true, ltz_false, lt→ltz, lt_succ, succ_pos,
  succ_le,
}
use php_parallax.Value.Types.{
  Bytes, Key, int_key, str_key, Value, Items, arr, nil, item, count, snoc,
}
use php_parallax.Value.Build.{
  append_kv, max_int_key, next_int_key, value_arr_push, value_arr_set_str, bytes_eq, find_str,
  value_arr_get_str,
}
use php_parallax.Value.Capacity.{room, IsRoomy, append_kv-done}

-- Every integer key is below `b`.
abbrev pub KeysBelow : ℤ → Items → Type 0
KeysBelow b nil = Unit {0}
KeysBelow b (item (int_key k) v xs) = (k <ℤ b) × KeysBelow b xs
KeysBelow b (item (str_key s) v xs) = KeysBelow b xs

abbrev KeysUpTo : ℤ → Items → Type 0
KeysUpTo b nil = Unit {0}
KeysUpTo b (item (int_key k) v xs) = (k ≤ℤ b) × KeysUpTo b xs
KeysUpTo b (item (str_key s) v xs) = KeysUpTo b xs

pick_bound : (m k : ℤ) → (m ≤ℤ (if ltz m k then k else m)) × (k ≤ℤ (if ltz m k then k else m))
pick_bound m k = elim (Bool-cases (ltz m k)) [
  | inl more ↦ rw more (omega (arith, ltz_true m k more), omega arith)
  | inr less ↦ rw less (omega arith, ltz_false m k less)
]

-- The loop ends at a bound of its start and of all keys.
max_int_key_bound : (m : ℤ) (xs : Items) → (m ≤ℤ max_int_key m xs) × KeysUpTo (max_int_key m xs) xs
unfolding max_int_key
max_int_key_bound m nil = (omega arith, tt)
max_int_key_bound m (item (str_key s) v xs) = max_int_key_bound m xs
max_int_key_bound m (item (int_key k) v xs) =
    let pick : ℤ = (if ltz m k then k else m) in
    let (low, rest) = max_int_key_bound pick xs in
    (omega (arith, low, pick_bound m k), (omega (arith, low, pick_bound m k), rest))

-- Where the start and all keys are below `b`, so is the result.
max_int_key_below : (b m : ℤ) (xs : Items) → m <ℤ b → KeysBelow b xs → max_int_key m xs <ℤ b
unfolding max_int_key
max_int_key_below b m nil hm h = hm
max_int_key_below b m (item (str_key s) v xs) hm h = max_int_key_below b m xs hm h
max_int_key_below b m (item (int_key k) v xs) hm h = elim (Bool-cases (ltz m k)) [
  | inl more ↦ rw more (max_int_key_below b k xs h.0 h.1)
  | inr less ↦ rw less (max_int_key_below b m xs hm h.1)
]

KeysUpTo→KeysBelow : (m : ℤ) (xs : Items) → KeysUpTo m xs → KeysBelow (succ m) xs
KeysUpTo→KeysBelow m nil h = tt
KeysUpTo→KeysBelow m (item (int_key k) v xs) h =
    (omega (arith, h.0, lt_succ m), KeysUpTo→KeysBelow m xs h.1)
KeysUpTo→KeysBelow m (item (str_key s) v xs) h = KeysUpTo→KeysBelow m xs h

-- Where every integer key is below INT64_MAX, the next key is an int64_t from 0 on that is above
-- every integer key.
pub next_int_key_fresh :
    (xs : Items)
    → KeysBelow i64_max xs
    → (n : ℕ) × (next_int_key xs ≡ done (pos n)) × (n < 2 ^ 63) × KeysBelow (pos n) xs
unfolding next_int_key
next_int_key_fresh xs h =
    let m = max_int_key (negsuc 0) xs in
    let (low, all) = max_int_key_bound (negsuc 0) xs in
    let below : m <ℤ i64_max = max_int_key_below i64_max (negsuc 0) xs (omega arith) h in
    let (n, e) = succ_pos m low in
    let fits : pos n ≤ℤ i64_max = rw e at (succ_le m i64_max below) in
    (
      n,
      rw (lt→ltz m i64_max below) (ap done e),
      omega (arith, fits),
      rw e at (KeysUpTo→KeysBelow m xs all),
    )

-- For an array whose capacity is between its count and twice its count and four, whose count is
-- below a third of 2 ^ 63, and whose integer keys are all below INT64_MAX, a push returns the old
-- entries and then the new one, under an integer key from 0 on, below 2 ^ 63, that is above every
-- integer key of the array.
pub value_arr_push_fresh :
    (xs : Items) (cap : ℕ) (child : Value)
    → IsRoomy (count xs) cap
    → 3 * count xs < 2 ^ 63
    → KeysBelow i64_max xs
    → (n : ℕ) × (n < 2 ^ 63)
      × KeysBelow (pos n) xs
      × (value_arr_push (arr xs cap) child
          ≡ done (arr (snoc xs (int_key (pos n)) child) (room (count xs) cap)))
unfolding value_arr_push
value_arr_push_fresh xs cap child r small h =
    let (n, e, fits, below) = next_int_key_fresh xs h in
    (n, fits, below, rw (e, append_kv-done xs cap (int_key (pos n)) child r small))

-- The keys are `i`, `i + 1`, … in order.
abbrev pub IsListFrom : ℕ → Items → Type 0
IsListFrom i nil = Unit {0}
IsListFrom i (item k v xs) = (k ≡ int_key (pos i)) × IsListFrom (suc i) xs

max_int_key_list :
    (i : ℕ) (xs : Items) → IsListFrom (suc i) xs → max_int_key (pos i) xs ≡ pos (i + count xs)
unfolding max_int_key
max_int_key_list i nil h = ap pos (omega arith)
max_int_key_list i (item k v xs) h =
    let up : ltz (pos i) (pos (suc i)) ≡ true = lt→ltz (pos i) (pos (suc i)) (omega arith) in
    rw (h.0, up) (max_int_key_list (suc i) xs h.1 ∙ ap pos (omega arith))

IsListFrom-snoc :
    (i : ℕ) (xs : Items) (k : Key) (v : Value)
    → IsListFrom i xs
    → k ≡ int_key (pos (i + count xs))
    → IsListFrom i (snoc xs k v)
IsListFrom-snoc i nil k v h e = (e ∙ ap (λ t. int_key (pos t)) (omega arith), tt)
IsListFrom-snoc i (item j w xs) k v h e =
    (h.0, IsListFrom-snoc (suc i) xs k v h.1 (e ∙ ap (λ t. int_key (pos t)) (omega arith)))

next_int_key_list :
    (xs : Items) → IsListFrom 0 xs → count xs < 2 ^ 63 → next_int_key xs ≡ done (pos (count xs))
unfolding next_int_key max_int_key
next_int_key_list nil h small = refl
next_int_key_list (item k v xs) h small =
    let max : max_int_key (pos 0) xs ≡ pos (count xs) =
      max_int_key_list 0 xs h.1 ∙ ap pos (omega arith) in
    let below : ltz (pos (count xs)) i64_max ≡ true =
      lt→ltz (pos (count xs)) i64_max (omega arith) in
    rw (h.0, max, below)

-- For an array whose keys are 0, 1, and so on in order, whose capacity is between its count and
-- twice its count and four, and whose count is below a third of 2 ^ 63, a push returns the entries
-- with the new child at the end, under the old count as its key, and the keys are again 0, 1, and
-- so on.
pub value_arr_push-IsListFrom :
    (xs : Items) (cap : ℕ) (child : Value)
    → IsListFrom 0 xs
    → IsRoomy (count xs) cap
    → 3 * count xs < 2 ^ 63
    → (ys : Items) × (value_arr_push (arr xs cap) child ≡ done (arr ys (room (count xs) cap)))
      × (ys ≡ snoc xs (int_key (pos (count xs))) child)
      × IsListFrom 0 ys
unfolding value_arr_push
value_arr_push-IsListFrom xs cap child h r small =
    let k = int_key (pos (count xs)) in
    (
      snoc xs k child,
      rw (next_int_key_list xs h (omega arith), append_kv-done xs cap k child r small),
      refl,
      IsListFrom-snoc 0 xs k child h (ap (λ t. int_key (pos t)) (omega arith)),
    )

pub bytes_eq_iff : (a b : Bytes) → (bytes_eq a b ≡ true) ↔ (a ≡ b)
unfolding bytes_eq
bytes_eq_iff [] [] = (λ h. refl, λ e. refl)
bytes_eq_iff [] (b ∷ bs) = (λ h. cc, λ e. cc)
bytes_eq_iff (a ∷ x) [] = (λ h. cc, λ e. cc)
bytes_eq_iff (a ∷ x) (b ∷ y) = ground (arith, bytes_eq_iff x y)

-- The entry found first, or else the later one.
abbrev or_else : Option Value → Option Value → Option Value
or_else none w = w
or_else (some v) w = some v

find_str-snoc :
    (xs : Items) (k : Bytes) (v : Value) (j : Bytes)
    → find_str (snoc xs (str_key k) v) j
      ≡ or_else (find_str xs j) (if bytes_eq k j then some v else none)
unfolding find_str
find_str-snoc nil k v j = refl
find_str-snoc (item (int_key i) w xs) k v j = find_str-snoc xs k v j
find_str-snoc (item (str_key s) w xs) k v j = ground (arith, find_str-snoc xs k v j)

-- Where `value_arr_set_str` returns, a lookup in the result finds what it found before, and where
-- it found nothing before it finds the new child under the new key and nothing under any other key:
-- an entry is appended and never replaced.
pub value_arr_get_str-value_arr_set_str :
    (xs : Items) (cap : ℕ) (k : Bytes) (child b : Value) (j : Bytes)
    → value_arr_set_str (arr xs cap) k child ≡ done b
    → ((w : Value) → value_arr_get_str (arr xs cap) j ≡ some w → value_arr_get_str b j ≡ some w)
      × (value_arr_get_str (arr xs cap) j ≡ none → k ≡ j → value_arr_get_str b j ≡ some child)
      × (value_arr_get_str (arr xs cap) j ≡ none → k ≢ j → value_arr_get_str b j ≡ none)
unfolding value_arr_set_str value_arr_get_str append_kv
value_arr_get_str-value_arr_set_str xs cap k child b j e =
    ground (arith, find_str-snoc xs k child j, bytes_eq_iff k j)
