-- ===== src/Tests/Vars.antt =====
-- The theorems on src/vmod_var.c at concrete inputs.
use operations_debs_varnish.Base.{
  ℕ, ◌+◌, ◌^◌, List, [], ◌∷◌, none, some, ◌≡◌, arith, Bytes, codes, eq_bytes,
}
use operations_debs_varnish.Base.Int.{negsuc, pos}
use operations_debs_varnish.Workspace.{endless, endless-IsRoomy}
use operations_debs_varnish.Var.{
  Task, string_value, set_int, get_string, get_ip, get_int, get_real, get_duration, get_backend,
}
use operations_debs_varnish.Var.Stored.{get_int-set_int}
use operations_debs_varnish.Var.Store.{
  Call, sets_ip, sets_int, gets_string, gets_ip, gets_int, gets_real, clears, calls, specs, view,
  seen, calls-Refines,
}
use operations_debs_varnish.Var.Global.{Global, global_set, global_get, global_get-global_set}

abbrev NTask : Type 0
NTask = Task endless ℕ 0

abbrev key_n : Bytes
key_n = codes "n"

-- A task in which the variable n is a text
abbrev a_task : NTask
a_task = record {
  ws = tt;
  priv = some (record { name = key_n; value = some (string_value (some (codes "v"))) } ∷ []);
}

-- A variable changes its type, another is asked for without being there, and all go.
abbrev some_calls : List (Call endless ℕ 0)
some_calls =
    gets_string (some key_n)
    ∷ sets_int (some key_n) (pos (2 ^ 32 + 7))
    ∷ gets_string (some key_n)
    ∷ gets_int (some key_n)
    ∷ sets_ip (some (codes "a")) (some (codes "1"))
    ∷ gets_ip (some (codes "a"))
    ∷ gets_real none
    ∷ clears
    ∷ gets_int (some key_n)
    ∷ sets_ip (some key_n) none
    ∷ []

calls-Refines_example :
    seen endless ℕ 0 (calls endless ℕ 0 some_calls a_task)
    ≡ specs endless ℕ 0 some_calls (view endless ℕ 0 a_task)
calls-Refines_example = calls-Refines endless ℕ 0 endless-IsRoomy some_calls a_task

get_int-set_int_example :
    (t' : NTask) × (set_int endless ℕ 0 (some key_n) (negsuc 6) a_task ≡ some t')
    × (get_int endless ℕ 0 (some key_n) t' ≡ negsuc 6)
    × (get_string endless ℕ 0 (some key_n) t' ≡ none)
    × (get_ip endless ℕ 0 (some key_n) t' ≡ none)
    × (get_real endless ℕ 0 (some key_n) t' ≡ 0)
    × (get_duration endless ℕ 0 (some key_n) t' ≡ 0)
    × (get_backend endless ℕ 0 (some key_n) t' ≡ none)
get_int-set_int_example =
    get_int-set_int endless ℕ 0 endless-IsRoomy key_n (negsuc 6) a_task (omega arith) (omega arith)

abbrev globals : List Global
globals = record { name = key_n; value = some (codes "v") } ∷ []

global_get-global_set_example :
    (w : Unit {0}) × (global_get endless
        (some key_n)
        (global_set (some key_n) (some (codes "w")) globals)
        tt
      ≡ some (w, some (codes "w")))
unfolding eq_bytes
global_get-global_set_example =
    global_get-global_set endless key_n key_n (some (codes "w")) globals tt endless-IsRoomy
