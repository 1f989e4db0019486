-- ===== src/Xkey/Purge.antt =====
-- purge() of src/vmod_xkey.c, with vmod_purge() and vmod_softpurge().
use operations_debs_varnish.Base.{
  ℕ, ◌+◌, Bool, true, false, ◌&&◌, List, [], ◌∷◌, Option, none, some, if◌then◌else◌, Bytes,
}
use operations_debs_varnish.Tree.{Tree}
use operations_debs_varnish.Xkey.Index.{Oc, Xkey, ocs_of, xkey_hashtree_lookup}
use operations_debs_varnish.Xkey.Tokens.{tokens}

-- The object cores of varnishd, and EXP_Rearm(), which sets the times of one of them: a parameter.
pub record Objects : Type 1 where
  pub Store : Type 0
  pub Time : Type 0
  pub zero_time : Time
  pub minus : Time → Time → Time
  pub le_time : Time → Time → Bool
  pub busy : Store → ℕ → Bool
  pub ttl : Store → ℕ → Time
  pub t_origin : Store → ℕ → Time
  pub grace : Store → ℕ → Time
  pub stale : Store → ℕ → Time
  -- EXP_Rearm(oc, now, ttl, grace, keep)
  pub rearm : ℕ → Time → Time → Time → Time → Store → Store

module _ (B : Objects) where
  open B use {Store, Time, zero_time, minus, le_time, busy, ttl, t_origin, grace, stale, rearm}

  -- The body of the VTAILQ_FOREACH, on one object and the count so far.
  unfoldable pub purge_oc : Bool → Time → ℕ → Store × ℕ → Store × ℕ
  purge_oc do_soft now p (s, i) =
      if busy s p
      then (s, i)
      else if do_soft && le_time (ttl s p) (minus now (t_origin s p))
      then (s, i)
      else if do_soft
      then (rearm p now zero_time (grace s p) (stale s p) s, i + 1)
      else (rearm p (t_origin s p) zero_time zero_time zero_time s, i + 1)

  unfoldable pub purge_ocs : Bool → Time → List Oc → Store × ℕ → Store × ℕ
  unfolding purge_oc
  purge_ocs do_soft now [] r = r
  purge_ocs do_soft now (oc ∷ ocs) r = purge_ocs do_soft now ocs (purge_oc do_soft now oc.objcore r)

  module _ (H : Tree Bytes (List Oc)) (O : Tree ℕ (List Oc)) (sha256 : Bytes → Bytes) where
    -- The words of the key in turn; xkey_hashtree_lookup() gives a head or a null pointer.
    unfoldable pub purge_words : Bool → Time → Xkey H O → List Bytes → Store × ℕ → Store × ℕ
    unfolding purge_ocs
    purge_words do_soft now x [] r = r
    purge_words do_soft now x (w ∷ ws) r =
        purge_words do_soft now x ws
          (purge_ocs do_soft now (ocs_of (xkey_hashtree_lookup H O (sha256 w) x)) r)

    -- `none` only if the loop over the words had not ended.
    unfoldable pub purge : Bool → Time → Xkey H O → Option Bytes → Store → Option (Store × ℕ)
    unfolding purge_words
    purge do_soft now x none s = some (s, 0)
    purge do_soft now x (some []) s = some (s, 0)
    purge do_soft now x (some (c ∷ key)) s = elim (tokens (c ∷ key)) [
      | none ↦ none
      | some ws ↦ some (purge_words do_soft now x ws (s, 0))
    ]

    unfoldable pub vmod_purge : Time → Xkey H O → Option Bytes → Store → Option (Store × ℕ)
    vmod_purge = purge false

    unfoldable pub vmod_softpurge : Time → Xkey H O → Option Bytes → Store → Option (Store × ℕ)
    vmod_softpurge = purge true
