-- ===== src/Var/Global.antt =====
-- The global variables of src/vmod_var.c. Every call is one step, under the mutex of the list.
use operations_debs_varnish.Base.{
  false, List, [], ◌∷◌, Option, none, some, ◌≡◌, refl, arith, if◌then◌else◌, Bytes, eq_bytes,
  eq_bytes_iff,
}
use operations_debs_varnish.Workspace.{Workspace, IsRoomy}

-- struct var, as global_set() makes it: of the type STRING, with a value that may be null.
pub record Global : Type 0 where
  pub name : Bytes
  pub value : Option Bytes

unfoldable pub find_global : Bytes → List Global → Option Global
find_global n [] = none
find_global n (g ∷ gs) = if eq_bytes g.name n then some g else find_global n gs

-- VTAILQ_REMOVE of the variable that was found
unfoldable pub remove_global : Bytes → List Global → List Global
remove_global n [] = []
remove_global n (g ∷ gs) =
    let rest = remove_global n gs in if eq_bytes g.name n then gs else g ∷ rest

unfoldable pub global_set : Option Bytes → Option Bytes → List Global → List Global
unfolding remove_global
global_set none value gs = gs
global_set (some n) value gs = record { name = n; value = value } ∷ remove_global n gs

module _ (W : Workspace) where
  open W use {Ws, copy}

  -- The value that was found, copied to the workspace: `none` is a failed assertion.
  abbrev pub handed_out : Option Global → Ws → Option (Ws × Option Bytes)
  handed_out none ws = some (ws, none)
  handed_out (some g) ws = elim g.value [
    | none ↦ some (ws, none)
    | some s ↦ (let c = copy s ws in if c.1 then some (c.0, some s) else none)
  ]

  -- global_get(): with a null name strcmp() follows a null pointer, unless the list is empty.
  unfoldable pub global_get : Option Bytes → List Global → Ws → Option (Ws × Option Bytes)
  unfolding find_global
  global_get none [] ws = some (ws, none)
  global_get none (g ∷ gs) ws = none
  global_get (some n) gs ws = handed_out (find_global n gs) ws

find_global-remove_global :
    (n j : Bytes) (gs : List Global)
    → eq_bytes n j ≡ false
    → find_global j (remove_global n gs) ≡ find_global j gs
unfolding find_global remove_global
find_global-remove_global n j [] h = refl
find_global-remove_global n j (g ∷ gs) h = ground (
  arith,
  eq_bytes_iff g.name n,
  eq_bytes_iff g.name j,
  eq_bytes_iff n j,
  find_global-remove_global n j gs h,
)

-- With room in the workspace, a global variable reads as it was last set, in every task, and setting it
-- changes what no other name reads. A null value reads as a null pointer.
pub global_get-global_set :
    (W : Workspace) (n j : Bytes) (value : Option Bytes) (gs : List Global) (ws : W.Ws)
    → IsRoomy W
    → (w : W.Ws) × (global_get W (some j) (global_set (some n) value gs) ws
        ≡ (if eq_bytes n j then some (w, value) else global_get W (some j) gs ws))
unfolding global_get global_set find_global
global_get-global_set W n j none gs ws r = (ws, ground (arith, find_global-remove_global n j gs))
global_get-global_set W n j (some s) gs ws r =
    ((W.copy s ws).0, ground (arith, r.copy_fits s ws, find_global-remove_global n j gs))
