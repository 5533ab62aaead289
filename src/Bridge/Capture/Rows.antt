-- ===== src/Bridge/Capture/Rows.antt =====
-- Arrays that start with no capacity and grow by one captured entry at a time.
use php_parallax.Prelude.{ℕ, suc, ◌+◌, ◌*◌, ◌^◌, ◌≤◌, ◌<◌, ◌≡◌, arith}
use php_parallax.Value.{
  Key, int_key, str_key, Value, arr, count, value_arr_set_int, value_arr_set_str, IsKey, IsValue,
  IsItems, IsItems-snoc,
}
use php_parallax.Value.Capacity.{IsRoomy, room-lt, append_kv-done, count-snoc}
use php_parallax.Bridge.Types.{Yields, yields}
use php_parallax.Bridge.Capture.{set_entry}

-- An array under construction with at most `m` entries still to come.
abbrev pub IsRow : ℕ → Value → Type 0
IsRow m (arr xs cap) = IsItems xs × IsRoomy (count xs) cap × (3 * (count xs + m) < 2 ^ 63)
IsRow m _ = ⊥

-- A well-formed array.
abbrev pub IsArray : Value → Type 0
IsArray (arr xs cap) = IsItems xs × (count xs ≤ cap)
IsArray _ = ⊥

-- The number of entries, 0 for what is no array.
abbrev pub size : Value → ℕ
size (arr xs cap) = count xs
size _ = 0

pub IsRow-IsArray : (m : ℕ) (v : Value) → IsRow m v → IsArray v
IsRow-IsArray m (arr xs cap) (hx, roomy, small) = (hx, roomy.0)
IsRow-IsArray m _ h = absurd h

pub IsArray-IsValue : (v : Value) → IsArray v → IsValue v
IsArray-IsValue (arr xs cap) h = h
IsArray-IsValue _ h = absurd h

pub IsRow-fewer : (v : Value) (m l : ℕ) → l ≤ m → IsRow m v → IsRow l v
IsRow-fewer (arr xs cap) m l le (hx, roomy, small) = (hx, roomy, omega arith)
IsRow-fewer _ m l le h = absurd h

-- One more entry: the array is as before with the entry behind.
pub set_entry-IsRow :
    (into : Value) (m : ℕ) (k : Key) (v : Value)
    → IsRow (suc m) into
    → IsKey k
    → IsValue v
    → Yields (λ r. IsRow m r × (size r ≡ suc (size into))) (set_entry into k v)
unfolding set_entry value_arr_set_int value_arr_set_str
set_entry-IsRow (arr xs cap) m (int_key i) v (hx, roomy, small) hk hv =
    rw (append_kv-done xs cap (int_key i) v roomy (omega arith)) (
      yields (
        (
          IsItems-snoc xs (int_key i) v hx hk hv,
          rw (count-snoc xs (int_key i) v) (room-lt (count xs) cap roomy (omega arith)).1,
          omega (arith, count-snoc xs (int_key i) v),
        ),
        count-snoc xs (int_key i) v,
      ))
set_entry-IsRow (arr xs cap) m (str_key s) v (hx, roomy, small) hk hv =
    rw (append_kv-done xs cap (str_key s) v roomy (omega arith)) (
      yields (
        (
          IsItems-snoc xs (str_key s) v hx hk hv,
          rw (count-snoc xs (str_key s) v) (room-lt (count xs) cap roomy (omega arith)).1,
          omega (arith, count-snoc xs (str_key s) v),
        ),
        count-snoc xs (str_key s) v,
      ))
set_entry-IsRow _ m k v h hk hv = absurd h
