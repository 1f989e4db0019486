-- ===== src/Workspace.antt =====
-- The workspace of varnishd (WS_Alloc, WS_Printf, WS_Copy, WS_Reserve), which is not in this
-- repository: a parameter. A call may fail, which the source sees as a null pointer, and changes the
-- workspace either way. Memory that it hands out holds what was copied there, and is not taken back
-- before the end of the task, so the models keep the text in place of the pointer.
use operations_debs_varnish.Base.{ℕ, Bool, true, false, ◌≡◌, refl, Bytes}

pub record Workspace : Type 1 where
  pub Ws : Type 0
  -- WS_Alloc(ws, n) and its success
  pub alloc : ℕ → Ws → Ws × Bool
  -- WS_Printf(ws, "%s", s) and WS_Copy(ws, s, -1)
  pub copy : Bytes → Ws → Ws × Bool

-- The workspace has room for all that is asked of it.
pub record IsRoomy (W : Workspace) : Type 0 where
  pub alloc_fits : (n : ℕ) (w : W.Ws) → (W.alloc n w).1 ≡ true
  pub copy_fits : (s : Bytes) (w : W.Ws) → (W.copy s w).1 ≡ true

-- One that never fails, and one that counts the calls left before it fails.
abbrev pub endless : Workspace
endless = record { Ws = Unit {0}; alloc = λ n w. (tt, true); copy = λ s w. (tt, true) }

pub endless-IsRoomy : IsRoomy endless
endless-IsRoomy = record { alloc_fits = λ n w. refl; copy_fits = λ s w. refl }

abbrev pub full : Workspace
full = record { Ws = Unit {0}; alloc = λ n w. (tt, false); copy = λ s w. (tt, false) }
