-- ===== src/Vsthrottle/Held.antt =====
-- What a call of src/vmod_vsthrottle.c does to the pending block of a digest.
use mathlib.Core.Path.{subst}
use operations_debs_varnish.Base.{
  ◌≡◌, refl, sym, ap, ◌∙◌, inl, inr, Bool, true, false, List, ◌∷◌, Option, some, arith, Bool-cases,
  Option-cases, Bytes, eq_bytes, eq_bytes_iff,
}
use operations_debs_varnish.Base.Int.{ℤ, pos, ltb_ℤ}
use operations_debs_varnish.Vsthrottle.Double.{Double, IsDouble}
use operations_debs_varnish.Vsthrottle.Bucket.{Bucket, calc_tokens, throttle}
use operations_debs_varnish.Vsthrottle.Collect.{bucket_for}
use operations_debs_varnish.Vsthrottle.Spec.{
  Throttles, update, counted, spec_denied, spec_remaining, spec_blocked,
}
use operations_debs_varnish.Vsthrottle.Pending.{
  AreWithin, Holds, IsKept, IsPending, calc_tokens-IsKept, throttle_pending, throttle_exceeded,
  IsPending-used, same-IsKept, IsPending-later, unexpired, counted_kept,
}

module _ (D : Double) where
  pub own_bucket :
      (i : Bytes) (b : Bucket D) (f : Bytes → Option (Bucket D)) → update D i b f i ≡ some b
  own_bucket i b f = ground (arith, eq_bytes_iff i i)

  module _ (d : IsDouble D) (i : Bytes) (end now : D.F) (ts : List D.F) where
    -- The request of a key whose block is pending is answered, and denied.
    pub denied_own :
        (limit : ℤ) (period block : D.F) (a : Throttles D)
        → D.lt_f D.zero_f block ≡ true
        → D.lt_f now end ≡ true
        → Holds D end (now ∷ ts) (a.bucket i)
        → (a' : Throttles D) × (spec_denied D i limit period block now a ≡ some (a', true))
          × Holds D end ts (a'.bucket i)
    unfolding spec_denied
    denied_own limit period block a p l (b, e, h) =
        let (b', q, k, u) = throttle_pending D block now b h.close.0.0 p (rw h.block l) in
        (
          counted D now i (record a { bucket = update D i b' a.bucket }),
          rw e (rw q refl),
          (
            b',
            counted_kept D now i i (record a { bucket = update D i b' a.bucket }) b'
                (own_bucket i b' a.bucket) (unexpired D d end now ts b b' k (inr u) h),
            IsPending-used D end now ts b b' k (inr u) h,
          ),
        )

    pub denied_other :
        (j : Bytes) (limit : ℤ) (period block : D.F) (a a' : Throttles D) (x : Bool)
        → eq_bytes i j ≡ false
        → Holds D end (now ∷ ts) (a.bucket i)
        → spec_denied D j limit period block now a ≡ some (a', x)
        → Holds D end ts (a'.bucket i)
    unfolding spec_denied
    denied_other j limit period block a a' x ne (b, e, h) q =
        elim (Option-cases (throttle D block now (bucket_for D (a.bucket j) limit period now))) [
          | inl k ↦ absurd (let r = rw k at q in cc r)
          | inr ((b', y), k) ↦
              let r = rw k at q in
              let a1 : Throttles D = record a { bucket = update D j b' a.bucket } in
              let same : counted D now j a1 ≡ a' = cc r in
              subst (λ (z : Throttles D). (Holds D) end ts (z.bucket i)) same
                (
                  b,
                  counted_kept D now j i a1 b (rw ne e)
                      (unexpired D d end now ts b b (same-IsKept D b) (inl refl) h),
                  IsPending-later D end now ts b h,
                )
        ]

    update-Holds :
        (j : Bytes) (b' : Bucket D) (f : Bytes → Option (Bucket D))
        → Holds D end (now ∷ ts) (f i)
        → ((b : Bucket D) → f j ≡ some b → IsKept D b b' × (b'.last_used ≡ b.last_used))
        → Holds D end ts (update D j b' f i)
    update-Holds j b' f (b, e, h) kept = elim (Bool-cases (eq_bytes i j)) [
      | inr ne ↦ (b, rw ne e, IsPending-later D end now ts b h)
      | inl eq ↦
          let same : i ≡ j = (eq_bytes_iff i j).0 eq in
          let (k, u) = kept b (ap f (sym same) ∙ e) in
          (b', rw eq refl, IsPending-used D end now ts b b' k (inl u) h)
    ]

    pub remaining-Holds :
        (j : Bytes) (limit : ℤ) (period : D.F) (a a' : Throttles D) (x : ℤ)
        → Holds D end (now ∷ ts) (a.bucket i)
        → spec_remaining D j limit period now a ≡ some (a', x)
        → Holds D end ts (a'.bucket i)
    unfolding spec_remaining
    remaining-Holds j limit period a a' x h q =
        elim (Option-cases (calc_tokens D (bucket_for D (a.bucket j) limit period now) now)) [
          | inl k ↦ absurd (let r = rw k at q in cc r)
          | inr (b', k) ↦
              let r = rw k at q in
              let same : record a { bucket = update D j b' a.bucket } ≡ a' = cc r in
              subst (λ (z : Throttles D). (Holds D) end ts (z.bucket i)) same
                (update-Holds j b' a.bucket h (λ b e. (calc_tokens-IsKept D) now b b' (rw e at k)))
        ]

    pub blocked-Holds :
        (j : Bytes) (limit : ℤ) (period : D.F) (a : Throttles D)
        → Holds D end (now ∷ ts) (a.bucket i)
        → Holds D end ts ((spec_blocked D j limit period now a).0.bucket i)
    unfolding spec_blocked
    blocked-Holds j limit period a h =
        update-Holds j (bucket_for D (a.bucket j) limit period now) a.bucket h
          (λ b e. rw e (same-IsKept D b, refl))

  -- The request that finds no token sets the block.
  pub denied_exceeded :
      (d : IsDouble D) (i : Bytes) (limit : ℤ) (period block start : D.F) (us : List D.F)
      (a : Throttles D) (b c : Bucket D)
      → bucket_for D (a.bucket i) limit period start ≡ b
      → D.lt_f D.zero_f b.period ≡ true
      → AreWithin D b.period b.capacity b.last_used (start ∷ us)
      → calc_tokens D b start ≡ some c
      → ltb_ℤ (pos 0) c.tokens ≡ false
      → D.lt_f D.zero_f block ≡ true
      → D.lt_f start b.block ≡ false
      → (a' : Throttles D) × (spec_denied D i limit period block start a ≡ some (a', true))
        × Holds D (D.plus start block) us (a'.bucket i)
  unfolding spec_denied
  denied_exceeded d i limit period block start us a b c f p w e t q l =
      let (b', r, k, u) = throttle_exceeded D block start b c e t q l in
      let blocked : Bucket D = record b { block = D.plus start block } in
      let h : IsPending D (D.plus start block) (start ∷ us) blocked = record {
        block = refl;
        positive = p;
        close = w;
      } in
      (
        counted D start i (record a { bucket = update D i b' a.bucket }),
        rw f (rw r refl),
        (
          b',
          counted_kept D start i i (record a { bucket = update D i b' a.bucket }) b'
              (own_bucket i b' a.bucket)
              (unexpired D d (D.plus start block) start us blocked b' k (inl u) h),
          IsPending-used D (D.plus start block) start us blocked b' k (inl u) h,
        ),
      )
