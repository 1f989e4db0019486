-- ===== src/Vsthrottle/Unseen.antt =====
-- The garbage collector of src/vmod_vsthrottle.c and the bucket that it takes away, without a block.
use operations_debs_varnish.Base.{
  ℕ, suc, ◌-◌, ◌^◌, ◌≤◌, ◌≡◌, ◌∙◌, refl, true, false, none, some, arith, Bytes,
}
use operations_debs_varnish.Base.Int.{ℤ, pos, ◌+ℤ◌, ◌-ℤ◌, ◌≤ℤ◌}
use operations_debs_varnish.Tree.{Tree, IsMap}
use operations_debs_varnish.Vsthrottle.Double.{Double, IsDouble}
use operations_debs_varnish.Vsthrottle.Bucket.{
  Bucket, accrued, cap_tokens, calc_tokens, spend, throttle, tb_alloc,
}
use operations_debs_varnish.Vsthrottle.Table.{Vsthrottle, run_gc, denied_in}
use operations_debs_varnish.Vsthrottle.Collect.{bucket_for, find-run_gc, denied_in_lem}

-- More than a period ago is not in the future, and earns the whole capacity, for capacities that a
-- double holds exactly, where a long can hold what it earns.
pub record IsRefilling (D : Double) : Type 0 where
  pub past :
      (a b p : D.F)
      → D.lt_f D.zero_f p ≡ true
      → D.lt_f p (D.minus a b) ≡ true
      → D.le_f D.zero_f (D.minus a b) ≡ true
  pub full_share :
      (a b p : D.F) (c : ℕ) (share : ℤ)
      → D.lt_f D.zero_f p ≡ true
      → D.lt_f p (D.minus a b) ≡ true
      → c ≤ 2 ^ 53
      → D.to_long (D.times (D.divided (D.minus a b) p) (D.of_long (pos c))) ≡ some share
      → pos c ≤ℤ share

module _ (D : Double) where
  -- A bucket that no block was ever set on
  abbrev pub plain : D.F → D.F → ℕ → ℕ → Bucket D
  plain used period tokens capacity = record {
    last_used = used;
    period = period;
    block = D.zero_f;
    tokens = pos tokens;
    capacity = pos capacity;
  }

  throttle_full :
      (block now used period : D.F) (m n : ℕ) (share : ℤ)
      → D.lt_f D.zero_f block ≡ false
      → D.le_f D.zero_f (D.minus now used) ≡ true
      → accrued D (plain used period m (suc n)) now ≡ some share
      → pos (suc n) ≤ℤ pos m +ℤ share
      → throttle D block now (plain used period m (suc n))
        ≡ some (plain now period n (suc n), false)
  unfolding throttle calc_tokens cap_tokens spend ◌+ℤ◌ ◌-ℤ◌
  throttle_full block now used period m n share b e q f = ground arith

  module _ (d : IsDouble D) (r : IsRefilling D) (block now period : D.F) (n : ℕ)
      (no_block : D.lt_f D.zero_f block ≡ false) (period_pos : D.lt_f D.zero_f period ≡ true)
      (exact : suc n ≤ 2 ^ 53) where
    throttle_expired :
        (used : D.F) (m : ℕ) (share : ℤ)
        → D.lt_f period (D.minus now used) ≡ true
        → accrued D (plain used period m (suc n)) now ≡ some share
        → throttle D block now (plain used period m (suc n))
          ≡ some (plain now period n (suc n), false)
    throttle_expired used m share x q =
        let full =
          r.full_share now used period (suc n) share period_pos x exact (unfold accrued in q) in
        throttle_full block now used period m n share no_block (r.past now used period period_pos x)
          q (unfold ◌+ℤ◌ in ground (arith, full))

    throttle_new :
        throttle D block now (tb_alloc D (pos (suc n)) period now)
        ≡ some (plain now period n (suc n), false)
    unfolding tb_alloc
    throttle_new =
        let share = d.no_share now period (pos (suc n)) period_pos in
        throttle_full block now now period (suc n) n (pos 0) no_block (d.no_delta now)
          (unfold accrued in share) (unfold ◌+ℤ◌ in ground arith)

    module _ (M : Tree Bytes (Bucket D)) (h : IsMap M) where
      denied_plain :
          (digest : Bytes) (v : Vsthrottle D M)
          → throttle D block now (bucket_for D (M.find digest v.buckets) (pos (suc n)) period now)
            ≡ some (plain now period n (suc n), false)
          → (v' : Vsthrottle D M) × (denied_in D M digest (pos (suc n)) period block now v
              ≡ some (v', false))
            × (M.find digest v'.buckets ≡ some (plain now period n (suc n)))
      denied_plain digest v e =
          let (v', q, _, f) =
            denied_in_lem D M h digest (pos (suc n)) period block now v (plain now period n (suc n))
              false e in
          let used = d.not_expired now period period_pos in
          (v', q, ground (arith, f digest, h.same_iff digest digest, used))

      -- With a tree that is a finite map and doubles with the laws of IsDouble and IsRefilling, for a limit from
      -- 1 to 2^53, a positive period and no block: a request whose bucket was last used more than a
      -- period ago, but not so long ago that what it earns, with what it has, does not fit in a long, is
      -- let through whether the collector has taken the bucket away or not, and the
      -- bucket is the same afterwards.
      pub collected_unseen :
          (digest : Bytes) (v : Vsthrottle D M) (used : D.F) (m : ℕ) (share : ℤ)
          (stored : M.find digest v.buckets ≡ some (plain used period m (suc n)))
          (expired : D.lt_f period (D.minus now used) ≡ true)
          (earns : accrued D (plain used period m (suc n)) now ≡ some share)
          (fits : pos m +ℤ share ≤ℤ pos (2 ^ 63 - 1))
          → (v1 v2 : Vsthrottle D M) × (denied_in D M digest (pos (suc n)) period block now v
              ≡ some (v1, false))
            × (denied_in D M digest
                  (pos (suc n))
                  period
                  block
                  now
                  (record v { buckets = run_gc D M now v.buckets })
                ≡ some (v2, false))
            × (M.find digest v1.buckets ≡ some (plain now period n (suc n)))
            × (M.find digest v2.buckets ≡ some (plain now period n (suc n)))
      collected_unseen digest v used m share stored expired earns fits =
          let w : Vsthrottle D M = record v { buckets = run_gc D M now v.buckets } in
          let gone : M.find digest w.buckets ≡ none =
            find-run_gc D M h now digest v.buckets ∙ rw (stored, expired) refl in
          let (v1, q1, f1) =
            denied_plain digest v (rw stored (throttle_expired used m share expired earns)) in
          let (v2, q2, f2) = denied_plain digest w (rw gone throttle_new) in
          (v1, v2, q1, q2, f1, f2)
