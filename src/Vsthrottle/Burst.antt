-- ===== src/Vsthrottle/Burst.antt =====
-- What a bucket lets through: a burst of calls at one instant.
use Prim.Native.Nat.{min}
use operations_debs_varnish.Base.{
  ℕ, zero, suc, ◌+◌, ◌-◌, ◌<◌, ◌≤◌, true, false, not, ◌&&◌, Option, some, ◌≡◌, ap, arith,
  if◌then◌else◌, ◌>>=◌,
}
use operations_debs_varnish.Base.Int.{pos, ◌+ℤ◌, ◌-ℤ◌}
use operations_debs_varnish.Vsthrottle.Double.{Double, IsDouble}
use operations_debs_varnish.Vsthrottle.Bucket.{
  Bucket, accrued, calc_tokens, throttle, is_blocked, touch,
}

module _ (D : Double) where
  module _ (d : IsDouble D) (block now period : D.F) (limit : ℕ)
      (period_pos : D.lt_f D.zero_f period ≡ true) (started : D.lt_f now D.zero_f ≡ false) where
    -- A bucket at the instant of its last use, with `m` tokens left.
    pub record Ready (m : ℕ) (b : Bucket D) : Type 0 where
      pub used : b.last_used ≡ now
      pub has_period : b.period ≡ period
      pub has_tokens : b.tokens ≡ pos m
      pub has_capacity : b.capacity ≡ pos limit
      pub bounded : m ≤ limit
      pub unblocked : 0 < m → is_blocked D block now b ≡ false

    calc_tokens-Ready : (m : ℕ) (b : Bucket D) → Ready m b → calc_tokens D b now ≡ some b
    unfolding calc_tokens accrued ◌+ℤ◌
    calc_tokens-Ready m b r =
        ground (arith, d.no_delta now, d.no_share now period (pos limit) period_pos)

    pub throttle-Ready :
        (m : ℕ) (b : Bucket D)
        → Ready (suc m) b
        → (b' : Bucket D) × (throttle D block now b ≡ some (b', false)) × Ready m b'
    unfolding throttle ◌-ℤ◌
    throttle-Ready m b r =
        let free = r.unblocked (omega arith) in
        let b' : Bucket D = record b { tokens = pos m; last_used = now } in
        (
          if D.lt_f D.zero_f block then record b' { block = D.zero_f } else b',
          ground (arith, calc_tokens-Ready (suc m) b r),
          record {
            used = ground arith;
            has_period = ground arith;
            has_tokens = ground arith;
            has_capacity = ground arith;
            bounded = ground arith;
            unblocked = λ p. ground arith;
          },
        )

    pub throttle_spent :
        (b : Bucket D)
        → Ready 0 b
        → (b' : Bucket D) × (throttle D block now b ≡ some (b', true)) × Ready 0 b'
    unfolding throttle
    throttle_spent b r =
        let blocked = is_blocked D block now b in
        let b' : Bucket D = touch D blocked now b in
        (
          if D.lt_f D.zero_f block && not blocked
              then record b' { block = D.plus now block }
              else b',
          ground (arith, calc_tokens-Ready 0 b r),
          record {
            used = ground arith;
            has_period = ground arith;
            has_tokens = ground arith;
            has_capacity = ground arith;
            bounded = ground arith;
            unblocked = λ p. ground arith;
          },
        )

    -- So many calls in a row: the bucket, and how many of them were not denied.
    pub burst : ℕ → Bucket D → Option (Bucket D × ℕ)
    burst zero b = some (b, 0)
    burst (suc k) b = do
      r ← throttle D block now b
      s ← burst k r.0
      some (s.0, (if r.1 then 0 else 1) + s.1)

    -- With the laws of IsDouble, for every positive period and at one instant that is not below
    -- zero: of any number of calls on a bucket that was last used then and has `m` tokens,
    -- exactly the first `m` pass, or all if there are fewer, whether or not a block is set.
    pub burst-Ready :
        (k m : ℕ) (b : Bucket D)
        → Ready m b
        → (b' : Bucket D) × (burst k b ≡ some (b', min k m)) × Ready (m - k) b'
    unfolding burst
    burst-Ready zero m b r =
        let same : m - 0 ≡ m = omega arith in
        (b, ap (λ (n : ℕ). some (b, n)) (omega arith), rw same r)
    burst-Ready (suc k) zero b r =
        let (b1, e, r1) = throttle_spent b r in
        let (b2, q, r2) = burst-Ready k zero b1 r1 in
        let same : 0 - suc k ≡ 0 - k = omega arith in
        (b2, rw e (rw q (ap (λ (n : ℕ). some (b2, n)) (omega arith))), rw same r2)
    burst-Ready (suc k) (suc m) b r =
        let (b1, e, r1) = throttle-Ready m b r in
        let (b2, q, r2) = burst-Ready k m b1 r1 in
        let same : suc m - suc k ≡ m - k = omega arith in
        (b2, rw e (rw q (ap (λ (n : ℕ). some (b2, n)) (omega arith))), rw same r2)
