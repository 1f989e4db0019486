-- ===== src/Vsthrottle/Refill.antt =====
-- vmod_remaining(): what it returns, and the tokens that it adds each time it is asked.
use Prim.Native.Nat.{min}
use operations_debs_varnish.Base.{
  ℕ, ◌+◌, true, some, ◌≡◌, refl, ap, ◌∙◌, arith, if◌then◌else◌, Bytes,
}
use operations_debs_varnish.Base.Int.{ℤ, pos, ◌+ℤ◌}
use operations_debs_varnish.Tree.{Tree, IsMap}
use operations_debs_varnish.Vsthrottle.Double.{Double}
use operations_debs_varnish.Vsthrottle.Bucket.{Bucket, calc_tokens, accrued}
use operations_debs_varnish.Vsthrottle.Table.{Vsthrottle, get_bucket, remaining_in, to_unsigned}
use operations_debs_varnish.Vsthrottle.Collect.{bucket_for, get_bucket_lem, write_lem}

module _ (D : Double) (M : Tree Bytes (Bucket D)) (h : IsMap M) where
  pub remaining_in_lem :
      (d : Bytes) (limit : ℤ) (period now : D.F) (v : Vsthrottle D M) (b : Bucket D)
      → calc_tokens D (bucket_for D (M.find d v.buckets) limit period now) now ≡ some b
      → (v' : Vsthrottle D M) × (remaining_in D M d limit period now v
          ≡ some (v', pos (to_unsigned b.tokens)))
        × (v'.gc_count ≡ v.gc_count)
        × ((j : Bytes) → M.find j v'.buckets ≡ (if M.same j d then some b else M.find j v.buckets))
  unfolding remaining_in
  remaining_in_lem d limit period now v b e =
      let g = get_bucket_lem D M h d limit period now v.buckets in
      let called : calc_tokens D (get_bucket D M d limit period now v.buckets).0 now ≡ some b =
        rw g.0 e in
      (
        record v { buckets = M.write d b (get_bucket D M d limit period now v.buckets).1 },
        rw called,
        refl,
        write_lem D M h d limit period now b v.buckets,
      )

  calc_tokens-min :
      (now : D.F) (b : Bucket D) (n c a : ℕ)
      → D.le_f D.zero_f (D.minus now b.last_used) ≡ true
      → b.tokens ≡ pos n
      → b.capacity ≡ pos c
      → accrued D b now ≡ some (pos a)
      → calc_tokens D b now ≡ some (record b { tokens = pos (min c (n + a)) })
  unfolding calc_tokens ◌+ℤ◌
  calc_tokens-min now b n c a e t k g = ground arith

  accrued_same :
      (now : D.F) (b : Bucket D) (n : ℕ)
      → accrued D (record b { tokens = pos n }) now ≡ accrued D b now
  unfolding accrued
  accrued_same now b n = refl

  -- With a tree that is a finite map, for a bucket that is in the tree with tokens, a capacity
  -- and earnings that are not negative, at an instant not before its last use: vmod_remaining()
  -- adds the tokens earned since that use, and a second call at the same instant adds them once
  -- more, up to the capacity both times.
  pub remaining_twice :
      (d : Bytes) (limit : ℤ) (period now : D.F) (v : Vsthrottle D M) (b : Bucket D) (n c a : ℕ)
      → M.find d v.buckets ≡ some b
      → D.le_f D.zero_f (D.minus now b.last_used) ≡ true
      → b.tokens ≡ pos n
      → b.capacity ≡ pos c
      → accrued D b now ≡ some (pos a)
      → (v' v'' : Vsthrottle D M) × (remaining_in D M d limit period now v
          ≡ some (v', pos (to_unsigned (pos (min c (n + a))))))
        × (remaining_in D M d limit period now v'
            ≡ some (v'', pos (to_unsigned (pos (min c (n + a + a))))))
  remaining_twice d limit period now v b n c a e t k q g =
      let b1 : Bucket D = record b { tokens = pos (min c (n + a)) } in
      let (v', e1, _, f1) =
        remaining_in_lem d limit period now v b1 (rw e (calc_tokens-min now b n c a t k q g)) in
      let there : M.find d v'.buckets ≡ some b1 = ground (arith, f1 d, h.same_iff d d) in
      let again : calc_tokens D b1 now ≡ some (record b { tokens = pos (min c (n + a + a)) }) =
        calc_tokens-min now b1 (min c (n + a)) c a t refl q (accrued_same now b _ ∙ g)
        ∙ ap (λ (m : ℕ). some (record b { tokens = pos m })) (omega arith) in
      let (v'', e2, _, _) =
        remaining_in_lem d limit period now v' (record b { tokens = pos (min c (n + a + a)) })
          (rw there again) in
      (v', v'', e1, e2)
