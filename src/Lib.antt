-- ===== src/Lib.antt =====
-- php-parallax: PHP tasks on threads of their own, which share nothing but copied values.
--
-- Arguments and results cross between interpreters as `value_t` trees. `wg_go` hands such a tree to
-- a new thread, the thread's runner leaves its result in the task, and `wg_wait` joins all threads.
-- A tree is copied by `value_clone`, or packed to bytes by `value_pack` and read by `value_unpack`.
-- An inline closure reaches the other interpreter as source text, which a scanner cuts out of its
-- file. The files and the code they model:
--
--   Value/Types, Value/Build   value/value.h, value/value.c: `Value` is `value_t *`, one constructor
--                              for each `val_tag` and `absent` for NULL; the builders and the lookup
--                              by string key keep their names. `append_kv` is the common end of
--                              the builders, with `grow`.
--   Value/Wellformed           `IsValue`: ranges of numbers and bytes, texts without NUL, counts
--                              within capacities, string keys alone in objects.
--   Value/Snapshot             the data of a value without pointers and capacities.
--   Clone                      value/clone.c: `value_clone`, `clone_kv_block`.
--   Pack/Varint, Pack/Buffer   value/pack.c: `varint_write`, `varint_read`, `wbuf_t` and its writes,
--                              doubles as eight bytes.
--   Pack/Encode, Pack/Decode   value/pack.c: `pack_one`, `pack_kv_block` (`pack_items`),
--                              `value_pack`, `unpack_one`, `unpack_kv_block` (`unpack_entries`),
--                              `value_unpack`; and `encode`, the wire format without a buffer.
--   Memory/Store, Memory/Owns  the store of the C program: blocks by their addresses, with NULL, and
--                              `Owns`: a pointer represents a `Value` and owns each block once.
--   Memory/Make, Memory/Copy   value/value.c: `dup_bytes`, `dup_cstr`, `alloc_value` and the
--                              constructors; value/clone.c; over the store, as the source allocates.
--   Memory/Build               value/value.c: `grow`, `next_int_key` and the builders, whose common
--                              steps are `append`. `room` of Value/Capacity is its new capacity.
--   Memory/Release             value/value.c: `value_free`, `free_kv_array` (`free_entries` is its
--                              loop, `free_parts` the switch).
--   Memory/Group               core/waitgroup.c: `wg_destroy`; bridge.c: `px_callable_free`.
--   WaitGroup/Defs             core/waitgroup.h, core/waitgroup.c: `task_t`, `wait_group_t`, and a
--                              function for each critical section of `wg_go`, `wg_signal_done` and
--                              `wg_wait`; `wg_get`, `wg_size`.
--                              `wg_go` is the whole call. `remaining` is an int: an increment at
--                              INT_MAX is a fault, and no step.
--   WaitGroup/Steps            the owner and the worker threads as a step relation: any order of
--                              critical sections, calls of pthreads and runs of the runner.
--   Scanner                    bridge_closure.c: `offset_of_line`, `scan_find_keyword`,
--                              `scan_brace_match`; Scanner/Rounds is the switch they share, and
--                              Scanner/Extract is `extract_closure_text`, and Scanner/Files is
--                              `read_file_all`.
--   Bridge/Types               the engine's data as the code reads it: zvals, tables, objects and
--                              functions, with handles into a heap; the exceptions of bridge.c.
--   Bridge/Zend                how calls of the engine end: with a value, by a bailout, or in undefined
--                              behaviour, and which exceptions they hand to the capture function.
--   Bridge/Capture             bridge.c: `px_zval_to_value`, `zval_to_value_inner`,
--                              `array_to_value`, `object_to_value`, a function for each round.
--   Bridge/Materialise         bridge.c: `px_value_to_zval`, `kv_block_to_array`,
--                              `kv_block_to_object`.
--   Bridge/Callable            bridge.h, bridge.c, bridge_closure.c: `px_callable_t`,
--                              `px_resolve_callable`, `px_resolve_inline_closure`,
--                              `snapshot_captures`.
--   Bridge/Runner              bridge_worker.c: `exception_to_value`,
--                              `parallax_internal_capture_exception` (`capture_exception`) and
--                              `px_worker_main`; Runner/Factory is the branch for closures.
--   Userland                   php_binding.c: the class WaitGroup: its constructor, `go`, `wait`
--                              and `count`. `go` calls all of `wg_go`, with the end of
--                              `pthread_create` and what the workers do meanwhile as arguments;
--                              Userland/Wait is `wait` behind `wg_wait`.
--                              Userland/Outcomes takes `px_worker_main` for the runner of a group.
--   Examples                   the theorems at concrete values, and runs of the definitions.
--
-- A C call ends as an `Outcome`: `done`, `refused` (it reports an error), `fault` (an assertion, an
-- access out of bounds, a signed overflow) or `stuck` (the fuel of the model is used up). Numbers of
-- type size_t and uint64_t wrap at 2 ^ 64, an int64_t is an integer in range, and a double is its
-- 64 bits. An allocation that fails aborts the process. This is left out but in Memory, where
-- a command on the store ends as a `Run`: `ok`, `fault` (an access through a pointer that is not
-- live, or out of bounds), `aborted`, or `out_of_fuel`.
--
-- Fuel: `value_unpack` is given twice the number of input bytes and one, and each call or round
-- takes one; since every value has a byte and every entry two more, this is enough on every
-- input. The doubling loop of `wbuf_reserve` is given 64 rounds, after which a size_t that starts
-- at 64 or more has wrapped to 0, from where the loop of the source does not end; below half of
-- size_t it ends before. `varint_write` recurses on the order of ℕ.
--
-- The depth limit of `px_zval_to_value` is a number of levels that are left, 257 at the start, on
-- which `zval_to_value_inner` recurses. `walk_left` is given the offset it starts at, and each of its
-- rounds takes one and leaves a smaller offset. The conversion back recurses on the value.
--
-- A statement of the worker ends by going on, by `goto shutdown`, by a bailout, or in undefined
-- behaviour (`Flow`), one of the bridge gives a value, throws, or is broken (`Attempt`), and one that
-- runs the engine changes its world and ends by an `Ending`. The depths of the scanners are ints,
-- whose overflow is a fault; on sources smaller than 2 ^ 31 bytes there is none.
--
-- In Memory, `malloc` is any function of the store that gives NULL or an unused address; a pointer
-- addresses the start of a block, so that a copy from the middle of a buffer is not expressed; a
-- `kv_t` has 40 bytes; and the fuel of `value_free` and `value_clone` bounds the levels of the
-- value, which is enough.
--
-- Parameters: the runner of a group is any relation from a slot, arguments and user data to a
-- report. pthreads is taken to do what it documents: a join returns after the thread has ended, a
-- broadcast wakes the waiter, and a wait may also wake on its own. `wg_go` and `wg_wait` are called
-- by one owner, as by the PHP class. `fopen` is a function from names to streams, and the resolution
-- of callables takes any function from names to contents, such as `read_file_all`. The engine's
-- calls are the fields of `Engine`, `Runtime` and `Results`: a call of the worker changes a world,
-- may pass exceptions to the capture function, and answers or bails out. Where a theorem needs more
-- of the engine, it is a record of laws: `ArrayLaws` on arrays with fresh keys, `AppendsNext` on the
-- next index, `Constructs` on classes that can be instantiated, `IsRuntime` on what a call returns,
-- and `IsCalm` on worlds in which nothing is thrown. A class lookup, an instantiation and a write of
-- a property may throw and bail out, and an instantiation may leave no object. A release outside of
-- a try block is taken to return.
--
-- Not modelled: `parallax_waitgroup_free`, which calls `wg_destroy` and frees a text; the release of
-- half-built values on an error; the lookup over the store, which is modelled over trees; class
-- registration, INI entries and phpinfo of php_binding.c; glue, build files and tests.
pub mod Prelude
pub mod Value
pub mod Pack
pub mod Clone
pub mod Memory
pub mod WaitGroup
pub mod Scanner
pub mod Bridge
pub mod Userland
pub mod Examples
