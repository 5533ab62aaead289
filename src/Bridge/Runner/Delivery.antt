-- ===== src/Bridge/Runner/Delivery.antt =====
-- A call of a named function, from the arguments to the result.
use php_parallax.Prelude.{
  ◌≤◌, ◌≡◌, refl, sym, ap, ◌∙◌, subst, List, [], ◌∷◌, Bool, true, Option, none, some,
}
use php_parallax.Value.{Bytes, CStr, Value, absent, until_nul}
use php_parallax.WaitGroup.{Report, new_task}
use php_parallax.Bridge.Types.{Zval, Table, Heap, ok}
use php_parallax.Bridge.Zend.{plainly}
use php_parallax.Bridge.Capture.{px_zval_to_value}
use php_parallax.Bridge.Materialise.{Engine, px_value_to_zval}
use php_parallax.Bridge.Materialise.Transfer.{
  ArrayLaws, IsData, levels, px_value_to_zval-px_zval_to_value,
}
use php_parallax.Bridge.Callable.{Callable, of_function}
use php_parallax.Bridge.Runner.Flow.{
  Called, Runtime, Thread, Flow, next, follow, capture_all, invoke, is_absent, answered, arrived,
}
use php_parallax.Bridge.Runner.Factory.{materialise}
use php_parallax.Bridge.Runner.Main.{
  values, make_callable, check_args, release_all, store_result, return_value, finish, run_callable,
  caught, load_bootstrap, installed, run_installed, run_request, ended, fresh, px_worker_main,
}

ok-injective : (a b : Value) → ok a ≡ ok b → a ≡ b
ok-injective a b h = cc

abbrev pub quietly : {A : Type 0} → A → Called A
quietly a = record { handled = []; answer = some a }

-- In calm worlds no exception is pending, and a release throws nothing, does not bail out, and
-- leaves a calm world.
pub record IsCalm {e : Engine} (r : Runtime e) (Calm : e.World → Type 0) : Type 0 where
  pub release : (w : e.World) (z : Zval) → Calm w → (r.release w z).1 ≡ quietly tt
  pub released : (w : e.World) (z : Zval) → Calm w → Calm (r.release w z).0
  pub exception : (w : e.World) → Calm w → r.exception w ≡ none

-- The world behind the bootstrap file.
abbrev pub booted : {e : Engine} → Runtime e → CStr → e.World → e.World
booted r none w = w
booted r (some path) w = (r.execute_scripts w (until_nul path)).0

-- The bootstrap file, where there is one, leaves no exception pending.
abbrev pub Boots : {e : Engine} → Runtime e → CStr → e.World → Type 0
Boots r none w = Unit {0}
Boots r (some path) w = r.exception (booted r (some path) w) ≡ none

-- A named function, with this bootstrap file.
abbrev pub function_recipe : Bytes → CStr → Callable
function_recipe name bootstrap = record (of_function name) { bootstrap = bootstrap }

module _ {e : Engine} where
  abbrev moved : Thread e → e.World → Thread e
  moved t w = record t { world = w }

  follow-next :
      {A B : Type 0} (m : Thread e × Flow A) (f : A → Thread e → Thread e × Flow B) (t : Thread e)
      (a : A)
      → m ≡ (t, next a)
      → follow m f ≡ f a t
  unfolding follow
  follow-next m f t a h = ap (λ x. follow x f) h

  invoke-quietly :
      {A : Type 0} (call : e.World → e.World × Called A) (t : Thread e) (a : A)
      → (call t.world).1 ≡ quietly a
      → invoke call t ≡ (moved t (call t.world).0, next a)
  unfolding invoke capture_all
  invoke-quietly call t a h = rw h

-- In a calm world the call of a function with these arguments returns `z`, throws nothing, and
-- leaves a calm world.
abbrev pub Returns :
    {e : Engine} → Runtime e → (e.World → Type 0) → Bytes → List Zval → Zval → Type 0
Returns {e} r Calm name argv z =
    (w : e.World)
    → Calm w
    → ((r.call_user_function w (Zval.string (until_nul name)) argv).1 ≡ quietly (true, z))
      × Calm (r.call_user_function w (Zval.string (until_nul name)) argv).0

-- The zval is captured in any heap, as a value that materialises as it.
abbrev Transfers : Engine → Zval → Type 0
Transfers e z =
    (heap : Heap)
    → (v : Value) × (px_zval_to_value heap z ≡ ok v)
      × ((w : e.World) → px_value_to_zval e w v ≡ (w, plainly z))

module _ {e : Engine} (r : Runtime e) (Calm : e.World → Type 0) (calm : IsCalm r Calm) where
  release_all-calm :
      (zs : List Zval) (t : Thread e)
      → Calm t.world
      → (w : e.World) × (release_all r zs t ≡ (moved t w, next tt)) × Calm w
  unfolding release_all
  release_all-calm [] t h = (t.world, refl, h)
  release_all-calm (z ∷ zs) t h =
      let one = invoke-quietly (λ w. r.release w z) t tt (calm.release t.world z h) in
      let (w, rest, h') =
        release_all-calm zs (moved t (r.release t.world z).0) (calm.released t.world z h) in
      (w, follow-next _ _ _ tt one ∙ rest, h')

  materialise-data :
      (v : Value) (z : Zval) (t : Thread e)
      → px_value_to_zval e t.world v ≡ (t.world, plainly z)
      → materialise r v t ≡ (t, next z)
  unfolding materialise capture_all
  materialise-data v z t h =
      ap (λ p. arrived (record t { world = p.0; captured = capture_all t.captured p.1.0 }) p.1.1) h

  return_value-calm :
      (z : Zval) (v : Value) (t : Thread e)
      → Calm t.world
      → px_zval_to_value (r.heap t.world) z ≡ ok v
      → (w : e.World) × (return_value r z t
          ≡ (record t { world = w; ok = true; result = v }, next tt))
  unfolding return_value store_result follow
  return_value-calm z v t here h = (
    (r.release t.world z).0,
    rw h (
        invoke-quietly (λ w. r.release w z) (record t { ok = true; result = v }) tt
          (calm.release t.world z here)),
  )

  finish-calm :
      (z : Zval) (t : Thread e)
      → Calm t.world
      → is_absent t.captured ≡ true
      → finish r true z t ≡ return_value r z t
  unfolding finish
  finish-calm z t here quiet = rw (quiet, calm.exception t.world here)

  run_callable-calm :
      (name : Bytes) (bootstrap : CStr) (args : Value) (ht : Table) (z : Zval) (t : Thread e)
      → Calm t.world
      → ((w : e.World) → px_value_to_zval e w args ≡ (w, plainly (Zval.array ht)))
      → Returns r Calm name (values ht) z
      → Transfers e z
      → is_absent t.captured ≡ true
      → (w : e.World) × (v : Value) × ((w' : e.World) → px_value_to_zval e w' v ≡ (w', plainly z))
        × (run_callable r (function_recipe name bootstrap) args t
            ≡ (record t { world = w; ok = true; result = v }, next tt))
  unfolding run_callable check_args make_callable
  run_callable-calm name bootstrap args ht z t here back returned transfers quiet =
      let call : e.World → e.World × Called (Bool × Zval) =
        λ w. r.call_user_function w (Zval.string (until_nul name)) (values ht) in
      let w₁ = (call t.world).0 in
      let called = invoke-quietly call t (true, z) (returned t.world here).0 in
      let (w₂, released, calm₂) =
        release_all-calm (values ht) (moved t w₁) (returned t.world here).1 in
      let w₃ = (r.release w₂ (Zval.string (until_nul name))).0 in
      let calm₃ = calm.released w₂ (Zval.string (until_nul name)) calm₂ in
      let w₄ = (r.release w₃ (Zval.array ht)).0 in
      let calm₄ = calm.released w₃ (Zval.array ht) calm₃ in
      let (v, captured, arrives) = transfers (r.heap w₄) in
      let (w₅, ended) = return_value-calm z v (moved t w₄) calm₄ captured in
      (
        w₅,
        v,
        arrives,
        follow-next _ _ _ _ (materialise-data args (Zval.array ht) t (back t.world))
            ∙ follow-next _ _ _ _ refl
            ∙ follow-next _ _ _ _ refl
            ∙ follow-next _ _ _ _ called
            ∙ follow-next _ _ _ _ released
            ∙ follow-next _ _ _ _ (
                invoke-quietly (λ w. r.release w (Zval.string (until_nul name))) (moved t w₂) tt
                  (calm.release w₂ _ calm₂))
            ∙ follow-next _ _ _ _ (
                invoke-quietly (λ w. r.release w (Zval.array ht)) (moved t w₃) tt
                  (calm.release w₃ _ calm₃))
            ∙ finish-calm z (moved t w₄) calm₄ quiet
            ∙ ended,
      )

module _ {e : Engine} (r : Runtime e) where
  answered-thread : {A : Type 0} (t : Thread e) (answer : Option A) → (answered t answer).0 ≡ t
  answered-thread t none = refl
  answered-thread t (some a) = refl

  -- The task goes on behind its bootstrap file.
  load_bootstrap-Boots :
      (bootstrap : CStr) (t : Thread e)
      → Boots r bootstrap t.world
      → (captured : Value) × (load_bootstrap r bootstrap t
          ≡ (record t { world = booted r bootstrap t.world; captured = captured }, true))
  unfolding load_bootstrap invoke
  load_bootstrap-Boots none t h = (t.captured, refl)
  load_bootstrap-Boots (some path) t h =
      let ran = r.execute_scripts t.world (until_nul path) in
      let t' = record t { world = ran.0; captured = capture_all t.captured ran.1.handled } in
      (t'.captured, rw (answered-thread t' ran.1.answer, h))

-- A report of success, whose result materialises as `z`.
abbrev pub Delivers : Engine → Zval → Report Callable → Type 0
Delivers e z p =
    (p.ok ≡ true)
    × (p.error ≡ absent)
    × ((w : e.World) → px_value_to_zval e w p.result ≡ (w, plainly z))

-- Let the arguments of a task be captured from an array, and let the recipe name a function, with
-- any bootstrap file or none, that in calm worlds returns a zval when it is called with the zvals
-- of that array, throws nothing, and leaves a calm world; both are built from at most 257 levels of
-- scalars, strings and arrays with distinct keys as PHP keeps them. Where the engine adds an entry
-- under a fresh key at the end, the request starts, the bootstrap file leaves no exception pending,
-- the world behind it and the installed handler is calm, and in a calm world no exception is
-- pending and releases throw nothing, do not bail out, and leave it calm, the task is run to a
-- report that is ok, without error, and whose result materialises in any world as the returned
-- zval.
pub px_worker_main-Delivers :
    (e : Engine) (r : Runtime e) (Calm : e.World → Type 0) (heap : Heap) (name : Bytes)
    (bootstrap : CStr) (args : Value) (ht : Table) (z : Zval) (w : e.World)
    → ArrayLaws e
    → IsCalm r Calm
    → (r.request_startup w).1 ≡ true
    → Boots r bootstrap (r.request_startup w).0
    → Calm (r.install_handler (booted r bootstrap (r.request_startup w).0))
    → IsData e (Zval.array ht)
    → levels (Zval.array ht) ≤ 257
    → px_zval_to_value heap (Zval.array ht) ≡ ok args
    → IsData e z
    → levels z ≤ 257
    → Returns r Calm name (values ht) z
    → (w' : e.World) × (p : Report Callable) × (px_worker_main r w
          (new_task args (some (function_recipe name bootstrap)))
          (function_recipe name bootstrap)
        ≡ some (w', p))
      × Delivers e z p
unfolding px_worker_main run_request run_installed caught
px_worker_main-Delivers e r Calm heap name bootstrap args ht z w laws calm started boots here
      data_ht low_ht captured data_z low_z returned =
    let (v, same, back) =
      px_value_to_zval-px_zval_to_value e heap (Zval.array ht) laws data_ht low_ht in
    let back_args : (w' : e.World) → px_value_to_zval e w' args ≡ (w', plainly (Zval.array ht)) =
      subst (λ x. (w' : e.World) → px_value_to_zval e w' x ≡ (w', plainly (Zval.array ht)))
        (ok-injective v args (sym same ∙ captured)) back in
    let t₀ =
      fresh r (new_task args (some (function_recipe name bootstrap))) (r.request_startup w).0 in
    let (parked, loaded) = load_bootstrap-Boots r bootstrap t₀ boots in
    let t = installed r (record t₀ { world = booted r bootstrap t₀.world; captured = parked }) in
    let (w₁, result, arrives, ran) =
      run_callable-calm r Calm calm name bootstrap args ht z t here back_args returned
        (λ h. px_value_to_zval-px_zval_to_value e h z laws data_z low_z) refl in
    let p : Report Callable = record {
      args = args;
      user_data = none;
      ok = true;
      result = result;
      error = absent;
    } in
    let reported : ended r args (caught r (run_callable r (function_recipe name bootstrap) args t))
        ≡ some (r.request_shutdown w₁, p) =
      ap (λ m. ended r args (caught r m)) ran in
    (r.request_shutdown w₁, p, rw (started, loaded) reported, (refl, refl, arrives))
