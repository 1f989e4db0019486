-- ===== src/Vsthrottle/Limit.antt =====
-- The limit that the module promises, and the refill that vmod_remaining() adds.
use Prim.Native.Nat.{min}
use mathlib.Core.Path.{subst}
use operations_debs_varnish.Base.{
  ℕ, zero, suc, ◌+◌, ◌≤◌, Bool, true, false, Option, none, some, ◌≡◌, refl, sym, ap, ◌∙◌, arith,
  if◌then◌else◌, ◌>>=◌, Bytes, ◌==◌,
}
use operations_debs_varnish.Base.Int.{ℤ, pos}
use operations_debs_varnish.Tree.{Tree, IsMap}
use operations_debs_varnish.Vsthrottle.Double.{Double, IsDouble}
use operations_debs_varnish.Vsthrottle.Bucket.{Bucket, throttle, tb_alloc, is_expired}
use operations_debs_varnish.Vsthrottle.Table.{Vsthrottle, Table, part_of, vmod_is_denied}
use operations_debs_varnish.Vsthrottle.Burst.{Ready, throttle-Ready, throttle_spent}
use operations_debs_varnish.Vsthrottle.Collect.{bucket_for, denied_in_lem}

module _ (D : Double) (M : Tree Bytes (Bucket D)) (do_digest : Bytes → ℤ → D.F → D.F → Bytes) where
  -- So many requests with the same arguments at one instant: the table, and how many are let through.
  pub requests : ℕ → Bytes → ℤ → D.F → D.F → D.F → Table D M → Option (Table D M × ℕ)
  requests zero key limit period block now s = some (s, 0)
  requests (suc k) key limit period block now s = do
    r ← vmod_is_denied D M do_digest (some key) limit period block now s
    q ← requests k key limit period block now r.0
    some (q.0, (if r.1 then 0 else 1) + q.1)

  -- The tree in which a call with these arguments looks.
  abbrev pub bucket_of : Bytes → Table D M → Option (Bucket D)
  bucket_of digest s = M.find digest (s.parts (part_of digest)).buckets

  own_part :
      (p : ℕ) (v : Vsthrottle D M) (parts : ℕ → Vsthrottle D M)
      → (if p == p then v else parts p) ≡ v
  own_part p v parts = ground arith

  module _ (h : IsMap M) (d : IsDouble D) (key : Bytes) (limit : ℕ) (period block now : D.F)
      (period_pos : D.lt_f D.zero_f period ≡ true) (started : D.lt_f now D.zero_f ≡ false) where
    abbrev digest : Bytes
    digest = do_digest key (pos limit) period block

    -- The bucket that the next call uses has `m` tokens left.
    abbrev Left : ℕ → Table D M → Type 0
    Left m s =
        Ready D d block now period limit period_pos started m
          (bucket_for D (bucket_of digest s) (pos limit) period now)

    not_expired :
        (m : ℕ) (b : Bucket D)
        → Ready D d block now period limit period_pos started m b
        → is_expired D now b ≡ false
    not_expired m b r = ground (arith, d.not_expired now period period_pos)

    denied_Left :
        (m : ℕ) (s : Table D M) (b' : Bucket D) (denied : Bool)
        → throttle D block now (bucket_for D (bucket_of digest s) (pos limit) period now)
          ≡ some (b', denied)
        → Ready D d block now period limit period_pos started m b'
        → (s' : Table D M) × (vmod_is_denied D M do_digest (some key) (pos limit) period block now s
            ≡ some (s', denied))
          × Left m s'
    unfolding vmod_is_denied
    denied_Left m s b' denied e r =
        let part = part_of digest in
        let (v', q, _, f) =
          denied_in_lem D M h digest (pos limit) period block now (s.parts part) b' denied e in
        let found : M.find digest v'.buckets ≡ some b' =
          ground (arith, f digest, h.same_iff digest digest, not_expired m b' r) in
        (
          record s { parts = λ p. if part == p then v' else s.parts p },
          rw q,
          subst
              (λ b.
                Ready D d block now period limit period_pos started m
                  (bucket_for D b (pos limit) period now))
              (sym (
                ap (λ (v : Vsthrottle D M). M.find digest v.buckets) (own_part part v' s.parts)
                ∙ found))
              r,
        )

    new_bucket :
        limit ≤ limit
        → Ready D d block now period limit period_pos started limit
            (tb_alloc D (pos limit) period now)
    unfolding tb_alloc
    new_bucket l = record {
      used = refl;
      has_period = refl;
      has_tokens = refl;
      has_capacity = refl;
      bounded = l;
      unblocked = λ p. ground arith;
    }

    call_Left :
        (m : ℕ) (s : Table D M)
        → Left (suc m) s
        → (s' : Table D M) × (vmod_is_denied D M do_digest (some key) (pos limit) period block now s
            ≡ some (s', false))
          × Left m s'
    call_Left m s r =
        let (b', e, r') = throttle-Ready D d block now period limit period_pos started m _ r in
        denied_Left m s b' false e r'

    call_spent :
        (s : Table D M)
        → Left 0 s
        → (s' : Table D M) × (vmod_is_denied D M do_digest (some key) (pos limit) period block now s
            ≡ some (s', true))
          × Left 0 s'
    call_spent s r =
        let (b', e, r') = throttle_spent D d block now period limit period_pos started _ r in
        denied_Left 0 s b' true e r'

    requests-Left :
        (k m : ℕ) (s : Table D M)
        → Left m s
        → (s' : Table D M) × (requests k key (pos limit) period block now s ≡ some (s', min k m))
    unfolding requests
    requests-Left zero m s r = (s, ap (λ (n : ℕ). some (s, n)) (omega arith))
    requests-Left (suc k) zero s r =
        let (s1, e, r1) = call_spent s r in
        let (s2, q) = requests-Left k zero s1 r1 in
        (s2, rw e (rw q (ap (λ (n : ℕ). some (s2, n)) (omega arith))))
    requests-Left (suc k) (suc m) s r =
        let (s1, e, r1) = call_Left m s r in
        let (s2, q) = requests-Left k m s1 r1 in
        (s2, rw e (rw q (ap (λ (n : ℕ). some (s2, n)) (omega arith))))

    -- With a tree that is a finite map and doubles with the laws of IsDouble: of any number of
    -- requests with a key that has no bucket yet, all at one instant that is not below zero,
    -- exactly the first `limit` are let through, or all if they are fewer. It holds for every
    -- positive period, with a block or without one, and whatever the state of the garbage
    -- collector.
    pub requests_limit :
        (k : ℕ) (s : Table D M)
        → bucket_of digest s ≡ none
        → (s' : Table D M) × (requests k key (pos limit) period block now s
            ≡ some (s', min k limit))
    requests_limit k s e = requests-Left k limit s (rw e (new_bucket (omega arith)))
