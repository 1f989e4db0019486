-- ===== src/Xkey/Cleanup.antt =====
-- What xkey_cleanup() and vmod_event() of src/vmod_xkey.c leave of the index.
use operations_debs_varnish.Base.{
  ℕ, ◌+◌, ◌-◌, ◌<◌, true, false, List, [], none, some, ◌≡◌, inl, inr, arith, ltb, if◌then◌else◌,
  Bytes, Bool-cases, ◌==◌,
}
use operations_debs_varnish.Tree.{Tree, IsMap}
use operations_debs_varnish.Xkey.Index.{Oc, no_pool, Xkey, pool_new, xkey_insert, xkey_cleanup}
use operations_debs_varnish.Xkey.Events.{Vmod, load, discard, vmod_event, discard_last}
use operations_debs_varnish.Xkey.Refines.{Refines}

module _ (H : Tree Bytes (List Oc)) (O : Tree ℕ (List Oc)) (h : IsMap H) (o : IsMap O) where
  -- Over trees that are finite maps, with nothing in the pools, a clean-up leaves an index that
  -- stands for no association.
  pub xkey_cleanup-Refines :
      (x : Xkey H O)
      → x.hashheads ≡ no_pool
      → x.ocheads ≡ no_pool
      → x.ocs ≡ no_pool
      → (y : Xkey H O) × (xkey_cleanup H O x ≡ some y) × Refines H O h o y []
  unfolding xkey_cleanup
  xkey_cleanup-Refines x a b c = (
    record x {
      hashtree = H.empty;
      octree = O.empty;
      hashheads = no_pool;
      ocheads = no_pool;
      ocs = no_pool;
    },
    ground arith,
    record {
      by_digest = λ d. h.find-empty d;
      by_objcore = λ p. o.find-empty p;
      hashheads = ground arith;
      ocheads = ground arith;
      ocs = ground arith;
    },
  )

  -- Where the counter of free ocheads is above 0, it outlives a clean-up that does not fail:
  -- every insertion after it then fails.
  pub xkey_insert-cleanup :
      (x y : Xkey H O) (objcore : ℕ) (digest : Bytes)
      → 0 < x.ocheads.n
      → xkey_cleanup H O x ≡ some y
      → xkey_insert H O objcore digest y ≡ none
  unfolding xkey_cleanup xkey_insert
  xkey_insert-cleanup x y objcore digest p e = elim (Bool-cases (ltb 0 x.ocs.length)) [
    | inl q ↦ absurd (cc (rw q at e))
    | inr q ↦
        let f = rw q at e in
        let pool : y.ocheads ≡ record { length = 0; n = x.ocheads.n } = ground arith in
        let dry : pool_new y.ocheads ≡ none = rw pool (unfold pool_new in ground arith) in rw dry
  ]

  -- Over trees that are finite maps, with a handle whenever one is asked for, with nothing in
  -- the pools, and with the callback registered exactly if the module is in use: a load counts
  -- up and registers. A discard too many fails, the last one leaves an index that stands for no
  -- association and nothing registered, and every other leaves the index alone and counts down.
  pub vmod_event_lem :
      (sha256 : Bytes → Bytes) (v : Vmod H O sha256)
      → v.registered ≡ ltb 0 v.n_init
      → v.index.hashheads ≡ no_pool
      → v.index.ocheads ≡ no_pool
      → v.index.ocs ≡ no_pool
      → (vmod_event H O sha256 true load v
          ≡ some (record v { registered = true; n_init = v.n_init + 1 }))
        × ((y : Xkey H O) × Refines H O h o y []
            × (vmod_event H O sha256 true discard v ≡ (
                if v.n_init == 0
                then none
                else if v.n_init == 1
                then some (record { index = y; n_init = 0; registered = false })
                else some (record v { n_init = v.n_init - 1 }))))
  unfolding vmod_event discard_last
  vmod_event_lem sha256 v r a b c =
      let (y, q, f) = xkey_cleanup-Refines v.index a b c in
      (ground (arith, r), (y, f, ground (arith, r, q)))
