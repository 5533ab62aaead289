-- ===== src/Bridge/Runner/Words.antt =====
-- bridge_worker.c: the classes and messages of the errors it makes.
use php_parallax.Prelude.{[], ◌∷◌}
use php_parallax.Value.{Bytes}

-- `RuntimeException`
abbrev pub runtime_exception : Bytes
runtime_exception =
    82 ∷ 117 ∷ 110 ∷ 116 ∷ 105 ∷ 109 ∷ 101 ∷ 69 ∷ 120 ∷ 99 ∷ 101 ∷ 112 ∷ 116 ∷ 105 ∷ 111 ∷ 110 ∷ []

-- `CompileError`
abbrev pub compile_error : Bytes
compile_error = 67 ∷ 111 ∷ 109 ∷ 112 ∷ 105 ∷ 108 ∷ 101 ∷ 69 ∷ 114 ∷ 114 ∷ 111 ∷ 114 ∷ []

-- `LogicError`
abbrev pub logic_error : Bytes
logic_error = 76 ∷ 111 ∷ 103 ∷ 105 ∷ 99 ∷ 69 ∷ 114 ∷ 114 ∷ 111 ∷ 114 ∷ []

-- `Error`
abbrev pub error_class : Bytes
error_class = 69 ∷ 114 ∷ 114 ∷ 111 ∷ 114 ∷ []

-- `php_request_startup failed`
abbrev pub startup_failed : Bytes
startup_failed =
    112 ∷ 104 ∷ 112 ∷ 95 ∷ 114 ∷ 101 ∷ 113 ∷ 117 ∷ 101 ∷ 115 ∷ 116 ∷ 95 ∷ 115 ∷ 116 ∷ 97 ∷ 114 ∷ 116
    ∷ 117 ∷ 112 ∷ 32 ∷ 102 ∷ 97 ∷ 105 ∷ 108 ∷ 101 ∷ 100 ∷ []

-- `task args were not an array`
abbrev pub not_an_array : Bytes
not_an_array =
    116 ∷ 97 ∷ 115 ∷ 107 ∷ 32 ∷ 97 ∷ 114 ∷ 103 ∷ 115 ∷ 32 ∷ 119 ∷ 101 ∷ 114 ∷ 101 ∷ 32 ∷ 110 ∷ 111
    ∷ 116 ∷ 32 ∷ 97 ∷ 110 ∷ 32 ∷ 97 ∷ 114 ∷ 114 ∷ 97 ∷ 121 ∷ []

-- `closure source failed to compile`
abbrev pub not_compiled : Bytes
not_compiled =
    99 ∷ 108 ∷ 111 ∷ 115 ∷ 117 ∷ 114 ∷ 101 ∷ 32 ∷ 115 ∷ 111 ∷ 117 ∷ 114 ∷ 99 ∷ 101 ∷ 32 ∷ 102 ∷ 97
    ∷ 105 ∷ 108 ∷ 101 ∷ 100 ∷ 32 ∷ 116 ∷ 111 ∷ 32 ∷ 99 ∷ 111 ∷ 109 ∷ 112 ∷ 105 ∷ 108 ∷ 101 ∷ []

-- `closure wrapper did not return a Closure`
abbrev pub no_closure : Bytes
no_closure =
    99 ∷ 108 ∷ 111 ∷ 115 ∷ 117 ∷ 114 ∷ 101 ∷ 32 ∷ 119 ∷ 114 ∷ 97 ∷ 112 ∷ 112 ∷ 101 ∷ 114 ∷ 32 ∷ 100
    ∷ 105 ∷ 100 ∷ 32 ∷ 110 ∷ 111 ∷ 116 ∷ 32 ∷ 114 ∷ 101 ∷ 116 ∷ 117 ∷ 114 ∷ 110 ∷ 32 ∷ 97 ∷ 32 ∷ 67
    ∷ 108 ∷ 111 ∷ 115 ∷ 117 ∷ 114 ∷ 101 ∷ []

-- `closure factory invocation failed`
abbrev pub factory_failed : Bytes
factory_failed =
    99 ∷ 108 ∷ 111 ∷ 115 ∷ 117 ∷ 114 ∷ 101 ∷ 32 ∷ 102 ∷ 97 ∷ 99 ∷ 116 ∷ 111 ∷ 114 ∷ 121 ∷ 32 ∷ 105
    ∷ 110 ∷ 118 ∷ 111 ∷ 99 ∷ 97 ∷ 116 ∷ 105 ∷ 111 ∷ 110 ∷ 32 ∷ 102 ∷ 97 ∷ 105 ∷ 108 ∷ 101 ∷ 100 ∷ []

-- `call_user_function failed`
abbrev pub call_failed : Bytes
call_failed =
    99 ∷ 97 ∷ 108 ∷ 108 ∷ 95 ∷ 117 ∷ 115 ∷ 101 ∷ 114 ∷ 95 ∷ 102 ∷ 117 ∷ 110 ∷ 99 ∷ 116 ∷ 105 ∷ 111
    ∷ 110 ∷ 32 ∷ 102 ∷ 97 ∷ 105 ∷ 108 ∷ 101 ∷ 100 ∷ []

-- `bailout during worker execution`
abbrev pub bailed_out : Bytes
bailed_out =
    98 ∷ 97 ∷ 105 ∷ 108 ∷ 111 ∷ 117 ∷ 116 ∷ 32 ∷ 100 ∷ 117 ∷ 114 ∷ 105 ∷ 110 ∷ 103 ∷ 32 ∷ 119 ∷ 111
    ∷ 114 ∷ 107 ∷ 101 ∷ 114 ∷ 32 ∷ 101 ∷ 120 ∷ 101 ∷ 99 ∷ 117 ∷ 116 ∷ 105 ∷ 111 ∷ 110 ∷ []
