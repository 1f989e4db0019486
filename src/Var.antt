-- ===== src/Var.antt =====
-- src/vmod_var.c: the typed variables of a task, and the global variables. The list of variables
-- behind the PRIV_TASK pointer has the newest first; `none` is the null pointer before the first call.
-- A function that returns an Option of its state is `none` where an assertion fails.
pub mod Stored
pub mod Store
pub mod Global
use operations_debs_varnish.Base.{
  ℕ, ◌-◌, ◌%◌, ◌^◌, Bool, true, false, not, List, [], ◌∷◌, Option, none, some, ltb, if◌then◌else◌,
  ◌>>=◌, Bytes, eq_bytes,
}
use operations_debs_varnish.Base.Int.{ℤ, pos, negsuc, to_int}
use operations_debs_varnish.Workspace.{Workspace}

-- sizeof(struct var) on LP64: the name, the type, the value and the list entry, behind the magic number
abbrev sizeof_var : ℕ
sizeof_var = 48

-- `Real` is the type double, with its zero.
module _ (W : Workspace) (Real : Type 0) (zero_real : Real) where
  open W use {Ws, alloc, copy}

  -- enum VAR_TYPE with the union: a string and an address may be null.
  pub data Value : Type 0 where
    string_value ip_value : Option Bytes → Value
    int_value : ℤ → Value
    real_value duration_value : Real → Value
    backend_value : Option ℕ → Value

  -- struct var; `none` is the memory that the workspace has handed out, before the value is written.
  pub record Variable : Type 0 where
    pub name : Bytes
    pub value : Option Value

  pub record Task : Type 0 where
    pub ws : Ws
    pub priv : Option (List Variable)

  unfoldable pub get_vh : Task → List Variable
  get_vh t = elim t.priv [ none ↦ [] | some vs ↦ vs ]

  -- vh_get_var(): what the variable that it finds holds
  unfoldable pub vh_get_var : Bytes → List Variable → Option Variable
  vh_get_var n [] = none
  vh_get_var n (v ∷ vs) = if eq_bytes v.name n then some v else vh_get_var n vs

  -- A write through the pointer that vh_get_var() returns
  unfoldable pub write_var : Bytes → Value → List Variable → List Variable
  write_var n x [] = []
  write_var n x (v ∷ vs) =
      if eq_bytes v.name n then record v { value = some x } ∷ vs else v ∷ write_var n x vs

  unfoldable pub vh_get_var_alloc : Bytes → Task → Option Task
  unfolding get_vh
  vh_get_var_alloc n t = elim (vh_get_var n (get_vh t)) [
    | some v ↦ some (record t { priv = some (get_vh t) })
    | none ↦
        (let a = alloc sizeof_var t.ws in
          let c = copy n a.0 in
          if not a.1
          then none
          else if not c.1
          then none
          else some
              (record { ws = c.0; priv = some (record { name = n; value = none } ∷ get_vh t) }))
  ]

  unfoldable pub put : Bytes → Value → Task → Task
  unfolding get_vh
  put n x t = record t { priv = some (write_var n x (get_vh t)) }

  -- The copy of a text in the workspace, or a null pointer
  abbrev pub copied : Bytes → Bool → Option Bytes
  copied s ok = if ok then some s else none

  abbrev pub text : Option Bytes → Bytes
  text none = []
  text (some s) = s

  unfoldable pub set_string : Option Bytes → Option Bytes → Task → Option Task
  unfolding vh_get_var_alloc put
  set_string none value t = some t
  set_string (some n) value t = do
    t1 ← vh_get_var_alloc n t
    let c = copy (text value) t1.ws
    some (put n (string_value (copied (text value) c.1)) (record t1 { ws = c.0 }))

  unfoldable pub set_ip : Option Bytes → Option Bytes → Task → Option Task
  unfolding vh_get_var_alloc put
  set_ip none ip t = some t
  set_ip (some n) none t = none
  set_ip (some n) (some ip) t = do
    t1 ← vh_get_var_alloc n t
    let c = copy ip t1.ws
    some (put n (ip_value (copied ip c.1)) (record t1 { ws = c.0 }))

  -- VMOD_SET_X: the value as the member of the union holds it
  unfoldable pub set_x : Option Bytes → Value → Task → Option Task
  unfolding vh_get_var_alloc put
  set_x none x t = some t
  set_x (some n) x t = do t1 ← vh_get_var_alloc n t; some (put n x t1)

  abbrev pub set_int : Option Bytes → ℤ → Task → Option Task
  set_int name value = set_x name (int_value (to_int value))

  abbrev pub set_real : Option Bytes → Real → Task → Option Task
  set_real name value = set_x name (real_value value)

  abbrev pub set_duration : Option Bytes → Real → Task → Option Task
  set_duration name value = set_x name (duration_value value)

  abbrev pub set_backend : Option Bytes → Option ℕ → Task → Option Task
  set_backend name value = set_x name (backend_value value)

  -- What a variable holds, if there is one and it was written
  abbrev pub held : Option Variable → Option Value
  held none = none
  held (some v) = v.value

  -- The variable under a name that may be null
  unfoldable pub value_of : Option Bytes → Task → Option Value
  unfolding get_vh vh_get_var
  value_of none t = none
  value_of (some n) t = held (vh_get_var n (get_vh t))

  abbrev pub as_string : Option Value → Option Bytes
  as_string (some (string_value s)) = s
  as_string _ = none

  abbrev pub as_ip : Option Value → Option Bytes
  as_ip (some (ip_value s)) = s
  as_ip _ = none

  abbrev pub as_int : Option Value → ℤ
  as_int (some (int_value x)) = x
  as_int _ = pos 0

  abbrev pub as_real : Option Value → Real
  as_real (some (real_value x)) = x
  as_real _ = zero_real

  abbrev pub as_duration : Option Value → Real
  as_duration (some (duration_value x)) = x
  as_duration _ = zero_real

  abbrev pub as_backend : Option Value → Option ℕ
  as_backend (some (backend_value x)) = x
  as_backend _ = none

  abbrev pub get_string : Option Bytes → Task → Option Bytes
  get_string name t = as_string (value_of name t)

  abbrev pub set : Option Bytes → Option Bytes → Task → Option Task
  set = set_string

  abbrev pub get : Option Bytes → Task → Option Bytes
  get = get_string

  abbrev pub get_ip : Option Bytes → Task → Option Bytes
  get_ip name t = as_ip (value_of name t)

  abbrev pub get_int : Option Bytes → Task → ℤ
  get_int name t = as_int (value_of name t)

  abbrev pub get_real : Option Bytes → Task → Real
  get_real name t = as_real (value_of name t)

  abbrev pub get_duration : Option Bytes → Task → Real
  get_duration name t = as_duration (value_of name t)

  abbrev pub get_backend : Option Bytes → Task → Option ℕ
  get_backend name t = as_backend (value_of name t)

  -- The list behind a fresh head
  abbrev vh_init : List Variable
  vh_init = []

  unfoldable pub clear : Task → Task
  clear t = record t { priv = some vh_init }
