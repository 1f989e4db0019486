-- ===== src/Vsthrottle/Collect.antt =====
-- The garbage collector, and what a call of the module does to the tree of its partition.
use operations_debs_varnish.Base.{
  ◌+◌, Bool, true, false, List, [], ◌∷◌, Option, none, some, ◌≡◌, ◌≢◌, refl, ◌∙◌, inl, inr, arith,
  if◌then◌else◌, Bool-cases, Option-cases, Bytes, ◌==◌,
}
use operations_debs_varnish.Base.Int.{ℤ}
use operations_debs_varnish.Tree.{Tree, IsMap, Listed}
use operations_debs_varnish.Vsthrottle.Double.{Double}
use operations_debs_varnish.Vsthrottle.Bucket.{Bucket, throttle, tb_alloc, is_expired}
use operations_debs_varnish.Vsthrottle.Table.{
  Vsthrottle, get_bucket, gc_loop, run_gc, count_call, denied_in,
}

module _ (D : Double) where
  -- What is left of a node by the garbage collector.
  abbrev pub survivor : D.F → Option (Bucket D) → Option (Bucket D)
  survivor now none = none
  survivor now (some b) = if is_expired D now b then none else some b

  -- The bucket that get_bucket() gives: the one of the tree, or a new one.
  abbrev pub bucket_for : Option (Bucket D) → ℤ → D.F → D.F → Bucket D
  bucket_for none limit period now = tb_alloc D limit period now
  bucket_for (some b) limit period now = b

module _ (D : Double) (M : Tree Bytes (Bucket D)) (h : IsMap M) where
  remove_ne : (j d : Bytes) (t : M.T) → j ≢ d → M.find j (M.remove d t) ≡ M.find j t
  remove_ne j d t ne = ground (arith, h.find-remove j d t, h.same_iff j d)

  gc_loop-none :
      (now : D.F) (l : List (Bytes × Bucket D)) (j : Bytes) (t : M.T)
      → M.find j t ≡ none
      → M.find j (gc_loop D M now l t) ≡ none
  unfolding gc_loop
  gc_loop-none now [] j t e = e
  gc_loop-none now ((d, x) ∷ l) j t e = gc_loop-none now l j _ (ground (arith, h.find-remove j d t))

  gc_loop-kept :
      (now : D.F) (l : List (Bytes × Bucket D)) (j : Bytes) (b : Bucket D) (t : M.T)
      → ((x : Bucket D) → Listed j x l → x ≡ b)
      → is_expired D now b ≡ false
      → M.find j t ≡ some b
      → M.find j (gc_loop D M now l t) ≡ some b
  unfolding gc_loop
  gc_loop-kept now [] j b t only f e = e
  gc_loop-kept now ((d, x) ∷ l) j b t only f e = elim (Bool-cases (is_expired D now x)) [
    | inr k ↦ rw k (gc_loop-kept now l j b t (λ y m. only y (inr m)) f e)
    | inl k ↦ rw k (
        gc_loop-kept now l j b (M.remove d t) (λ y m. only y (inr m)) f
          (remove_ne j d t (λ (q : j ≡ d). cc (only x (inl (q, refl)), k, f)) ∙ e))
  ]

  gc_loop-expired :
      (now : D.F) (l : List (Bytes × Bucket D)) (j : Bytes) (b : Bucket D) (t : M.T)
      → Listed j b l
      → is_expired D now b ≡ true
      → M.find j (gc_loop D M now l t) ≡ none
  unfolding gc_loop
  gc_loop-expired now [] j b t m f = absurd m
  gc_loop-expired now ((d, x) ∷ l) j b t (inr m) f = gc_loop-expired now l j b _ m f
  gc_loop-expired now ((d, x) ∷ l) j b t (inl (q, r)) f =
      let k : is_expired D now x ≡ true = rw r at f in
      rw k
        (gc_loop-none now l j (M.remove d t) (ground (arith, h.find-remove j d t, h.same_iff j d)))

  -- With a tree that is a finite map, the garbage collector takes out the buckets that were not
  -- used for longer than their period, and nothing else.
  pub find-run_gc :
      (now : D.F) (j : Bytes) (t : M.T) → M.find j (run_gc D M now t) ≡ survivor D now (M.find j t)
  unfolding run_gc
  find-run_gc now j t = elim (Option-cases (M.find j t)) [
    | inl e ↦ rw e (gc_loop-none now (M.walk t) j t e)
    | inr (b, e) ↦ elim (Bool-cases (is_expired D now b)) [
      | inl k ↦ rw (e, k) (gc_loop-expired now (M.walk t) j b t ((h.walk_iff j b t).1 e) k)
      | inr k ↦
          rw (e, k) (gc_loop-kept now (M.walk t) j b t (λ x m. cc (e, (h.walk_iff j x t).0 m)) k e)
    ]
  ]

  pub get_bucket_lem :
      (d : Bytes) (limit : ℤ) (period now : D.F) (t : M.T)
      → ((get_bucket D M d limit period now t).0 ≡ bucket_for D (M.find d t) limit period now)
        × ((j : Bytes)
            → M.find j (get_bucket D M d limit period now t).1 ≡ (
                if M.same j d
                then some (bucket_for D (M.find d t) limit period now)
                else M.find j t))
  unfolding get_bucket
  get_bucket_lem d limit period now t = elim (Option-cases (M.find d t)) [
    | inl e ↦ rw (e, get_bucket) (refl, λ j. h.find-insert j d _ t e)
    | inr (b, e) ↦ rw (e, get_bucket) (refl, λ j. ground (arith, h.same_iff j d))
  ]

  -- The tree after a write to the bucket that get_bucket() has given.
  pub write_lem :
      (d : Bytes) (limit : ℤ) (period now : D.F) (b' : Bucket D) (t : M.T) (j : Bytes)
      → M.find j (M.write d b' (get_bucket D M d limit period now t).1)
        ≡ (if M.same j d then some b' else M.find j t)
  write_lem d limit period now b' t j =
      let g = get_bucket_lem d limit period now t in
      let there : M.find d (get_bucket D M d limit period now t).1
          ≡ some (bucket_for D (M.find d t) limit period now) =
        ground (arith, g.1 d, h.same_iff d d) in
      ground (arith, h.find-write j d b' _ _ there, g.1 j)

  count_call_lem :
      (now : D.F) (v : Vsthrottle D M)
      → ((count_call D M now v).gc_count ≡ (if v.gc_count + 1 == 1000 then 0 else v.gc_count + 1))
        × ((j : Bytes)
            → M.find j (count_call D M now v).buckets ≡ (
                if v.gc_count + 1 == 1000
                then survivor D now (M.find j v.buckets)
                else M.find j v.buckets))
  unfolding count_call
  count_call_lem now v = elim (Bool-cases (v.gc_count + 1 == 1000)) [
    | inl e ↦ rw e (refl, λ j. find-run_gc now j v.buckets)
    | inr e ↦ rw e (refl, λ j. refl)
  ]

  -- With a tree that is a finite map, and where no assertion fails in the bucket of the call: a
  -- call of vmod_is_denied() in a partition answers what that bucket answers, writes that bucket
  -- back and leaves all others, and on the thousandth call since the last collection the
  -- collector then takes the expired buckets out.
  pub denied_in_lem :
      (d : Bytes) (limit : ℤ) (period block now : D.F) (v : Vsthrottle D M) (b' : Bucket D)
      (denied : Bool)
      → throttle D block now (bucket_for D (M.find d v.buckets) limit period now)
        ≡ some (b', denied)
      → (v' : Vsthrottle D M) × (denied_in D M d limit period block now v ≡ some (v', denied))
        × (v'.gc_count ≡ (if v.gc_count + 1 == 1000 then 0 else v.gc_count + 1))
        × ((j : Bytes)
            → let written = (if M.same j d then some b' else M.find j v.buckets) in
              M.find j v'.buckets
              ≡ (if v.gc_count + 1 == 1000 then survivor D now written else written))
  unfolding denied_in
  denied_in_lem d limit period block now v b' denied e =
      let g = get_bucket_lem d limit period now v.buckets in
      let t' = M.write d b' (get_bucket D M d limit period now v.buckets).1 in
      let called : throttle D block now (get_bucket D M d limit period now v.buckets).0
          ≡ some (b', denied) =
        rw g.0 e in
      (
        count_call D M now (record v { buckets = t' }),
        rw called,
        (count_call_lem now (record v { buckets = t' })).0,
        λ j.
            rw (← write_lem d limit period now b' v.buckets j)
              ((count_call_lem now (record v { buckets = t' })).1 j),
      )
