-- ===== src/Memory/Make.antt =====
-- value/value.c: allocation and the constructors. `malloc` is a parameter, which may give NULL.
pub mod Roots
pub mod Texts
pub mod Values
pub mod Arrays
use php_parallax.Prelude.{
  ℕ, suc, Bool, false, Option, none, some, [], ◌∷◌, if◌then◌else◌, ◌==◌, ltb, leb, length, take,
}
use php_parallax.Prelude.Int.{ℤ, pos}
use php_parallax.Value.{Bytes}
use php_parallax.Memory.Store.{
  Ptr, Kv, Node, node, chars, kvs, Block, Heap, Cmd, ok, fault, aborted, ◌>>=◌, ◌>>◌, after, ret,
  write,
}

unfoldable pub chars_in : Option Block → ℕ → Cmd Bytes
chars_in (some (chars bs)) len h = if leb len (length bs) then ok (take len bs) h else fault
chars_in _ len h = fault

-- The `len` bytes that `memcpy` reads.
unfoldable pub load_chars : Ptr → ℕ → Cmd Bytes
unfolding chars_in
load_chars p len h = chars_in (h p) len h

unfoldable pub one_more : Option ℕ → Option ℕ
one_more none = none
one_more (some n) = some (suc n)

-- `strlen`; `none` where the buffer ends before a NUL.
unfoldable pub strlen : Bytes → Option ℕ
unfolding one_more
strlen [] = none
strlen (c ∷ cs) = if c == 0 then some 0 else one_more (strlen cs)

unfoldable pub len_of : Option ℕ → Cmd ℕ
len_of none h = fault
len_of (some n) h = ok n h

unfoldable pub text_in : Option Block → Cmd ℕ
unfolding len_of
text_in (some (chars bs)) h = len_of (strlen bs) h
text_in _ h = fault

unfoldable pub load_strlen : Ptr → Cmd ℕ
unfolding text_in
load_strlen p h = text_in (h p) h

unfoldable pub update_in : Option Block → Ptr → (Node → Node) → Cmd (Unit {0})
update_in (some (node n)) p u h = ok tt (write p (node (u n)) h)
update_in _ p u h = fault

-- Assignments to the fields of a live `value_t`.
unfoldable pub update_node : Ptr → (Node → Node) → Cmd (Unit {0})
unfolding update_in
update_node p u h = update_in (h p) p u h

unfoldable pub update_kv : (ℕ → Kv) → ℕ → Kv → ℕ → Kv
update_kv ks i kv j = if i == j then kv else ks j

unfoldable pub store_kv_in : Option Block → Ptr → ℕ → Kv → Cmd (Unit {0})
store_kv_in (some (kvs cap ks)) p i kv h =
    if ltb i cap then ok tt (write p (kvs cap (update_kv ks i kv)) h) else fault
store_kv_in _ p i kv h = fault

-- Assignments to the fields of `items[i]`.
unfoldable pub store_kv : Ptr → ℕ → Kv → Cmd (Unit {0})
unfolding store_kv_in
store_kv p i kv h = store_kv_in (h p) p i kv h

-- What `calloc` leaves in each entry.
abbrev pub blank_kv : Kv
blank_kv = record { is_int_key = false; ikey = pos 0; skey = 0; skey_len = 0; val = 0 }

module _ (malloc : Heap → Option Ptr) where
  unfoldable pub fill : Option Ptr → Cmd Block → Cmd Ptr
  fill none content h = aborted
  fill (some p) content h = after (content h) (λ b g. ok p (write p b g))

  -- A new block with the content that is written behind the test for NULL.
  unfoldable pub alloc : Cmd Block → Cmd Ptr
  unfolding fill
  alloc content h = fill (malloc h) content h

  unfoldable pub alloc_chars : Ptr → ℕ → Cmd Ptr
  alloc_chars src len = alloc (do s ← load_chars src len; ret (chars s))

  unfoldable pub dup_bytes : Ptr → ℕ → Cmd Ptr
  dup_bytes src len = if len == 0 then ret 0 else alloc_chars src len

  unfoldable pub dup_cstr : Ptr → Cmd Ptr
  dup_cstr src = if src == 0 then ret 0 else do len ← load_strlen src; alloc_chars src (suc len)

  -- The argument has the tag, and the zeros of `calloc` in the other fields.
  unfoldable pub alloc_value : Node → Cmd Ptr
  alloc_value n = alloc (ret (node n))

  unfoldable pub value_null : Cmd Ptr
  value_null = alloc_value Node.null

  unfoldable pub value_bool : Bool → Cmd Ptr
  value_bool b = do v ← alloc_value (Node.bool false); update_node v (λ z. Node.bool b); ret v

  unfoldable pub value_long : ℤ → Cmd Ptr
  value_long i = do v ← alloc_value (Node.long (pos 0)); update_node v (λ z. Node.long i); ret v

  unfoldable pub value_double : ℕ → Cmd Ptr
  value_double d = do v ← alloc_value (Node.double 0); update_node v (λ z. Node.double d); ret v

  unfoldable pub value_str : Ptr → ℕ → Cmd Ptr
  value_str p len = do
    v ← alloc_value (Node.str 0 0)
    q ← dup_bytes p len
    update_node v (λ z. Node.str q len)
    ret v

  unfoldable pub alloc_kvs : ℕ → Cmd Ptr
  alloc_kvs n = alloc (ret (kvs n (λ i. blank_kv)))

  -- The array of a new value: NULL at capacity 0.
  unfoldable pub initial_kvs : ℕ → Cmd Ptr
  initial_kvs initial_cap = if ltb 0 initial_cap then alloc_kvs initial_cap else ret 0

  unfoldable pub value_arr : ℕ → Cmd Ptr
  value_arr initial_cap = do
    v ← alloc_value (Node.arr 0 0 0)
    items ← initial_kvs initial_cap
    update_node v (λ z. Node.arr items 0 initial_cap)
    ret v

  unfoldable pub value_obj : Ptr → ℕ → ℕ → Cmd Ptr
  value_obj cls clen initial_cap = do
    v ← alloc_value (Node.obj 0 0 0 0 0)
    c ← dup_bytes cls clen
    props ← initial_kvs initial_cap
    update_node v (λ z. Node.obj c clen props 0 initial_cap)
    ret v

  unfoldable pub value_err : Ptr → Ptr → ℤ → Ptr → Cmd Ptr
  value_err cls msg code trace = do
    v ← alloc_value (Node.err 0 0 (pos 0) 0)
    c ← dup_cstr cls
    m ← dup_cstr msg
    t ← dup_cstr trace
    update_node v (λ z. Node.err c m code t)
    ret v
