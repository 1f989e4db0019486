-- ===== src/Softpurge.antt =====
-- src/vmod_softpurge.c: every object of one object head loses its time to live, but not its grace.
pub mod References
use operations_debs_varnish.Base.{
  ℕ, ◌+◌, ◌-◌, Bool, true, false, not, ◌&&◌, ◌||◌, List, [], ◌∷◌, Option, none, some, ◌≡◌, ltb,
  ◌==◌, if◌then◌else◌,
}

-- The object cores of varnishd, by their addresses: a parameter. `Exp` is the times of an object core, and
-- `rearmed` what EXP_Rearm() makes of them; HSH_DerefObjCore() gives one reference back.
pub record Objcores : Type 1 where
  pub Store : Type 0
  pub Time : Type 0
  pub Exp : Type 0
  pub zero_time : Time
  pub grace : Exp → Time
  pub stale : Exp → Time
  pub rearmed : Time → Time → Time → Time → Exp → Exp
  pub busy : Store → ℕ → Bool
  pub dying : Store → ℕ → Bool
  pub refcnt : Store → ℕ → ℕ
  pub exp : Store → ℕ → Exp
  pub set_refcnt : ℕ → ℕ → Store → Store
  -- EXP_Rearm(oc, now, ttl, grace, keep)
  pub rearm : ℕ → Time → Time → Time → Time → Store → Store
  pub deref : ℕ → Store → Store

-- What the module relies on: each call changes what it is meant to change, on its object core.
pub record IsObjcores (B : Objcores) : Type 0 where
  pub busy-set_refcnt : (p q n : ℕ) (s : B.Store) → B.busy (B.set_refcnt q n s) p ≡ B.busy s p
  pub dying-set_refcnt : (p q n : ℕ) (s : B.Store) → B.dying (B.set_refcnt q n s) p ≡ B.dying s p
  pub exp-set_refcnt : (p q n : ℕ) (s : B.Store) → B.exp (B.set_refcnt q n s) p ≡ B.exp s p
  pub refcnt-set_refcnt :
      (p q n : ℕ) (s : B.Store)
      → B.refcnt (B.set_refcnt q n s) p ≡ (if p == q then n else B.refcnt s p)
  pub refcnt-rearm :
      (p q : ℕ) (now ttl grace stale : B.Time) (s : B.Store)
      → B.refcnt (B.rearm q now ttl grace stale s) p ≡ B.refcnt s p
  pub exp-rearm :
      (p q : ℕ) (now ttl grace stale : B.Time) (s : B.Store)
      → B.exp (B.rearm q now ttl grace stale s) p
        ≡ (if p == q then B.rearmed now ttl grace stale (B.exp s p) else B.exp s p)
  -- of the references that are left, where one is given back
  pub refcnt-deref :
      (p q : ℕ) (s : B.Store)
      → B.refcnt (B.deref q s) p ≡ (if p == q then B.refcnt s p - 1 else B.refcnt s p)
  pub exp-deref : (p q : ℕ) (s : B.Store) → B.exp (B.deref q s) p ≡ B.exp s p

-- The methods of VCL that the module tells apart.
pub data Method : Type 0 where
  hit miss other_method : Method

-- The log of the module
pub data Line : Type 0 where
  wrong_method : Line

abbrev pub is_hit_or_miss : Method → Bool
is_hit_or_miss hit = true
is_hit_or_miss miss = true
is_hit_or_miss other_method = false

-- sizeof *ocp on LP64
abbrev pub sizeof_pointer : ℕ
sizeof_pointer = 8

module _ (B : Objcores) where
  open B use {
    Store, Time, zero_time, grace, stale, busy, dying, refcnt, exp, set_refcnt, rearm, deref,
  }

  -- An object that the first loop goes past.
  abbrev pub skipped : Store → ℕ → Bool
  skipped s oc = busy s oc || dying s oc

  -- The loop under the lock, with the bytes of the workspace that are left: the array ocp[], and the store.
  unfoldable pub collect : ℕ → List ℕ → Store → List ℕ × Store
  collect spc [] s = ([], s)
  collect spc (oc ∷ ocs) s =
      let skip = skipped s oc in
      let s' = if skip then s else set_refcnt oc (refcnt s oc + 1) s in
      let rest = collect (if skip then spc else spc - sizeof_pointer) ocs s' in
      if skip then rest else if ltb spc sizeof_pointer then ([], s) else (oc ∷ rest.0, rest.1)

  -- The loop over the array, without the lock. `none` is a use of an object that nobody holds.
  unfoldable pub rearm_all : Time → List ℕ → Store → Option Store
  rearm_all now [] s = some s
  rearm_all now (oc ∷ ocs) s =
      let x = exp s oc in
      let rest = rearm_all now ocs (deref oc (rearm oc now zero_time (grace x) (stale x) s)) in
      if refcnt s oc == 0 then none else rest

  abbrev pub with_lines : Option Store → Option (Store × List Line)
  with_lines none = none
  with_lines (some s) = some (s, [])

  -- vmod_softpurge(): `spc` is what WS_Reserve() gives, `head` the references to the object head, `objcs`
  -- its objects, and `others` what other threads do to the store between the unlock and the second loop.
  unfoldable pub vmod_softpurge :
      (Store → Store) → Method → ℕ → ℕ → List ℕ → Time → Store → Option (Store × List Line)
  vmod_softpurge others method spc head objcs now s =
      if not (is_hit_or_miss method)
      then some (s, wrong_method ∷ [])
      else if ltb spc sizeof_pointer
      then none
      else if head == 0
      then none
      else (let r = collect spc objcs s in with_lines (rearm_all now r.0 (others r.1)))
