-- ===== src/Vsthrottle/Bucket.antt =====
-- One token bucket: what the three functions of the module do with it.
use operations_debs_varnish.Base.{Bool, true, not, ◌&&◌, Option, none, some, if◌then◌else◌, ◌>>=◌}
use operations_debs_varnish.Base.Int.{ℤ, pos, ◌+ℤ◌, ◌-ℤ◌, ltb_ℤ}
use operations_debs_varnish.Vsthrottle.Double.{Double}

module _ (D : Double) where
  open D use {F, zero_f, plus, minus, times, divided, of_long, to_long, lt_f, le_f}

  -- struct tbucket; the digest is its key in the tree.
  pub record Bucket : Type 0 where
    pub last_used : F
    pub period : F
    pub block : F
    pub tokens : ℤ
    pub capacity : ℤ

  unfoldable pub tb_alloc : ℤ → F → F → Bucket
  tb_alloc limit period now = record {
    last_used = now;
    period = period;
    block = zero_f;
    tokens = limit;
    capacity = limit;
  }

  -- (long) ((delta / b->period) * b->capacity), where it is defined
  unfoldable pub accrued : Bucket → F → Option ℤ
  accrued b now = to_long (times (divided (minus now b.last_used) b.period) (of_long b.capacity))

  unfoldable pub cap_tokens : Bucket → Bucket
  cap_tokens b = if ltb_ℤ b.capacity b.tokens then record b { tokens = b.capacity } else b

  -- `none` is the failed assertion that no time has gone backwards, or a conversion that is not defined.
  unfoldable pub calc_tokens : Bucket → F → Option Bucket
  unfolding cap_tokens
  calc_tokens b now =
      if le_f zero_f (minus now b.last_used)
      then (do a ← accrued b now; some (cap_tokens (record b { tokens = b.tokens +ℤ a })))
      else none

  -- `block > 0. && now < b->block`
  abbrev pub is_blocked : F → F → Bucket → Bool
  is_blocked block now b = lt_f zero_f block && lt_f now b.block

  -- The bucket behind `if (blocked)`.
  abbrev pub touch : Bool → F → Bucket → Bucket
  touch blocked now b = if blocked then record b { last_used = now } else b

  -- From the test of the tokens to the reset of the block: the bucket, and the result.
  unfoldable pub spend : Bool → F → F → Bucket → Bucket × Bool
  spend blocked block now b =
      if ltb_ℤ (pos 0) b.tokens
      then (
        (let b' = record b { tokens = b.tokens -ℤ pos 1; last_used = now } in
            if lt_f zero_f block && not blocked then record b' { block = zero_f } else b'),
        blocked,
      )
      else (
        (if lt_f zero_f block && not blocked then record b { block = plus now block } else b),
        true,
      )

  -- The part of vmod_is_denied() from calc_tokens() on, up to the garbage collector. The flag is the
  -- result of the function: the request is denied.
  unfoldable pub throttle : F → F → Bucket → Option (Bucket × Bool)
  unfolding spend
  throttle block now b = do
    b' ← calc_tokens b now
    let blocked = is_blocked block now b'
    some (spend blocked block now (touch blocked now b'))

  -- now - x->last_used > x->period
  abbrev pub is_expired : F → Bucket → Bool
  is_expired now x = lt_f x.period (minus now x.last_used)
