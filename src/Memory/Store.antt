-- ===== src/Memory/Store.antt =====
-- The store of a C program: blocks from malloc by their addresses, and the steps on it.
use php_parallax.Prelude.{ℕ, Bool, false, ◌||◌, Option, none, some, if◌then◌else◌, ◌==◌, ltb}
use php_parallax.Prelude.Int.{ℤ}
use php_parallax.Value.{Bytes}

-- The address of the first byte of a block; NULL is 0.
abbrev pub Ptr : Type 0
Ptr = ℕ

-- `kv_t`, with its pointers.
pub record Kv : Type 0 where
  pub is_int_key : Bool
  pub ikey : ℤ
  pub skey : Ptr
  pub skey_len : ℕ
  pub val : Ptr

-- `struct value`: `val_tag` with the member of the union that it selects.
pub data Node : Type 0 where
  null : Node
  bool : Bool → Node
  long : ℤ → Node
  double : ℕ → Node
  str : Ptr → ℕ → Node
  arr : Ptr → ℕ → ℕ → Node
  obj : Ptr → ℕ → Ptr → ℕ → ℕ → Node
  err : Ptr → Ptr → ℤ → Ptr → Node

-- `task_t`, with its pointers.
pub record TaskNode : Type 0 where
  pub thread_joinable : Bool
  pub slot : ℕ
  pub args : Ptr
  pub user_data : Ptr
  pub ok : Bool
  pub result : Ptr
  pub error : Ptr

-- `wait_group_t`, without its lock, its condition and its runner.
pub record GroupNode : Type 0 where
  pub remaining : ℤ
  pub tasks : Ptr
  pub count : ℕ
  pub cap : ℕ

-- `px_callable_t`, with its pointers. The kind is the number of its `px_call_kind_t`.
pub record CallableNode : Type 0 where
  pub kind : ℕ
  pub class_name : Ptr
  pub fn_name : Ptr
  pub bootstrap : Ptr
  pub closure_wrapper : Ptr
  pub closure_captures : Ptr

-- A live block: one `value_t`, a buffer of bytes, an array of `kv_t` with its length, one
-- `task_t`, an array of `task_t *` with its length, one `wait_group_t`, or one `px_callable_t`.
pub data Block : Type 0 where
  node : Node → Block
  chars : Bytes → Block
  kvs : ℕ → (ℕ → Kv) → Block
  task : TaskNode → Block
  slots : ℕ → (ℕ → Ptr) → Block
  group : GroupNode → Block
  callable : CallableNode → Block

abbrev pub Heap : Type 0
Heap = Ptr → Option Block

-- `fault`: an access through a dangling pointer or out of bounds, or a second release.
-- `aborted`: `abort()`, where malloc gives NULL. `out_of_fuel`: a recursion deeper than the fuel.
pub data Run (A : Type 0) : Type 0 where
  ok : A → Heap → Run A
  fault aborted out_of_fuel : Run A

abbrev pub Cmd : Type 0 → Type 0
Cmd A = Heap → Run A

abbrev pub after : {A B : Type 0} → Run A → (A → Cmd B) → Run B
after (ok a h) k = k a h
after fault k = fault
after aborted k = aborted
after out_of_fuel k = out_of_fuel

infixl 5 ◌>>=◌ ◌>>◌
abbrev pub ◌>>=◌ : {A B : Type 0} → Cmd A → (A → Cmd B) → Cmd B
◌>>=◌ m k h = after (m h) k

abbrev pub ◌>>◌ : {A B : Type 0} → Cmd A → Cmd B → Cmd B
◌>>◌ m k h = after (m h) (λ _. k)

abbrev pub ret : {A : Type 0} → A → Cmd A
ret a h = ok a h

-- A set of addresses.
abbrev pub Region : Type 0
Region = Ptr → Bool

unfoldable pub nowhere : Region
nowhere a = false

unfoldable pub single : Ptr → Region
single p a = p == a

infixl 65 ◌∪◌
unfoldable pub ◌∪◌ : Region → Region → Region
◌∪◌ f g a = f a || g a

-- The store with a region released, and with a block written.
unfoldable pub remove : Region → Heap → Heap
remove f h a = if f a then none else h a

unfoldable pub write : Ptr → Block → Heap → Heap
write p b h a = if p == a then some b else h a

unfoldable pub free_at : Ptr → Option Block → Cmd (Unit {0})
free_at p none h = fault
free_at p (some b) h = ok tt (remove (single p) h)

-- `free`: nothing on NULL, undefined on an address that is not live.
unfoldable pub free : Ptr → Cmd (Unit {0})
unfolding free_at
free p h = if p == 0 then ok tt h else free_at p (h p) h

unfoldable pub node_in : Option Block → Cmd Node
node_in (some (node n)) h = ok n h
node_in _ h = fault

-- The `value_t` that a pointer addresses.
unfoldable pub load_node : Ptr → Cmd Node
unfolding node_in
load_node p h = node_in (h p) h

unfoldable pub kv_in : ℕ → Option Block → Cmd Kv
kv_in i (some (kvs cap ks)) h = if ltb i cap then ok (ks i) h else fault
kv_in i _ h = fault

-- `items[i]`
unfoldable pub load_kv : Ptr → ℕ → Cmd Kv
unfolding kv_in
load_kv items i h = kv_in i (h items) h
