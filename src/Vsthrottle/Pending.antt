-- ===== src/Vsthrottle/Pending.antt =====
-- A bucket of src/vmod_vsthrottle.c whose block is pending, and the instants that leave it so.
use mathlib.Core.Path.{subst}
use operations_debs_varnish.Base.{
  ◌≡◌, ◌⊎◌, refl, sym, ap, ◌∙◌, inl, inr, true, false, List, [], ◌∷◌, Option, some, All, arith,
  Option-cases, Bytes,
}
use operations_debs_varnish.Base.Int.{ℤ, pos, ltb_ℤ, ◌+ℤ◌}
use operations_debs_varnish.Vsthrottle.Double.{Double, IsDouble}
use operations_debs_varnish.Vsthrottle.Bucket.{
  Bucket, accrued, cap_tokens, calc_tokens, is_blocked, spend, throttle, is_expired,
}
use operations_debs_varnish.Vsthrottle.Spec.{
  Throttles, Call, asks_denied, asks_remaining, asks_blocked, counted,
}

-- The three functions that callers ask.
pub data Question : Type 0 where
  of_denied of_remaining of_blocked : Question

module _ (D : Double) where
  -- The arguments of a call with a key, and the instant that the clock gives
  pub record Request : Type 0 where
    pub question : Question
    pub key : Bytes
    pub limit : ℤ
    pub period : D.F
    pub block : D.F
    pub now : D.F

  abbrev pub asks : Question → Option Bytes → ℤ → D.F → D.F → D.F → Call D
  asks of_denied = asks_denied
  asks of_remaining = asks_remaining
  asks of_blocked = asks_blocked

  abbrev pub as_call : Request → Call D
  as_call r = asks r.question (some r.key) r.limit r.period r.block r.now

  -- v is not before u and not more than the period p behind it, and a long holds what a bucket of
  -- capacity c earns from u to v.
  pub record IsWithin (p : D.F) (c : ℤ) (u v : D.F) : Type 0 where
    pub after : D.le_f D.zero_f (D.minus v u) ≡ true
    pub in_period : D.lt_f p (D.minus v u) ≡ false
    pub share : ℤ
    pub defined : D.to_long (D.times (D.divided (D.minus v u) p) (D.of_long c)) ≡ some share

  -- Each instant is so for u, and for the instants before it.
  abbrev pub AreWithin : D.F → ℤ → D.F → List D.F → Type 0
  AreWithin p c u [] = Unit
  AreWithin p c u (t ∷ ts) = All (IsWithin p c u) (t ∷ ts) × AreWithin p c t ts

  pub AreWithin-used :
      (p : D.F) (c : ℤ) (x u now : D.F) (ts : List D.F)
      → (x ≡ u) ⊎ (x ≡ now)
      → AreWithin p c u (now ∷ ts)
      → AreWithin p c x ts
  AreWithin-used p c x u now [] q a = tt
  AreWithin-used p c x u now (t ∷ ts) (inl k) a =
      subst (λ z. AreWithin p c z (t ∷ ts)) (sym k) (a.0.1, a.1.1)
  AreWithin-used p c x u now (t ∷ ts) (inr k) a = subst (λ z. AreWithin p c z (t ∷ ts)) (sym k) a.1

  -- The same block, period and capacity
  pub record IsKept (b b' : Bucket D) : Type 0 where
    pub block : b'.block ≡ b.block
    pub period : b'.period ≡ b.period
    pub capacity : b'.capacity ≡ b.capacity

  pub calc_tokens-IsKept :
      (now : D.F) (b c : Bucket D)
      → calc_tokens D b now ≡ some c
      → IsKept b c × (c.last_used ≡ b.last_used)
  unfolding calc_tokens cap_tokens
  calc_tokens-IsKept now b c e = elim (Option-cases (accrued D b now)) [
    | inl k ↦ absurd (ground arith)
    | inr (a, k) ↦ (
      record { block = ground arith; period = ground arith; capacity = ground arith },
      ground arith,
    )
  ]

  calc_tokens-IsWithin :
      (now : D.F) (b : Bucket D)
      → IsWithin b.period b.capacity b.last_used now
      → (c : Bucket D) × (calc_tokens D b now ≡ some c)
  unfolding calc_tokens
  calc_tokens-IsWithin now b w =
      let a : accrued D b now ≡ some w.share = unfold accrued in w.defined in
      (cap_tokens D (record b { tokens = b.tokens +ℤ w.share }), rw (w.after, a) refl)

  pub throttle_pending :
      (block now : D.F) (b : Bucket D)
      → IsWithin b.period b.capacity b.last_used now
      → D.lt_f D.zero_f block ≡ true
      → D.lt_f now b.block ≡ true
      → (b' : Bucket D) × (throttle D block now b ≡ some (b', true))
        × IsKept b b'
        × (b'.last_used ≡ now)
  unfolding throttle
  throttle_pending block now b w p l =
      let (c, e) = calc_tokens-IsWithin now b w in
      let (k, _) = calc_tokens-IsKept now b c e in
      let blocked : is_blocked D block now c ≡ true = rw (k.block, p, l) refl in
      let r = spend D true block now (record c { last_used = now }) in
      let kept : (r.0.block ≡ c.block)
          × (r.0.period ≡ c.period)
          × (r.0.capacity ≡ c.capacity)
          × (r.0.last_used ≡ now)
          × (r.1 ≡ true) =
        unfold spend in ground arith in
      (
        r.0,
        rw e (rw blocked (ap (λ d. some (r.0, d)) kept.4)),
        record {
          block = kept.0 ∙ k.block;
          period = kept.1 ∙ k.period;
          capacity = kept.2 ∙ k.capacity;
        },
        kept.3,
      )

  pub throttle_exceeded :
      (block now : D.F) (b c : Bucket D)
      → calc_tokens D b now ≡ some c
      → ltb_ℤ (pos 0) c.tokens ≡ false
      → D.lt_f D.zero_f block ≡ true
      → D.lt_f now b.block ≡ false
      → (b' : Bucket D) × (throttle D block now b ≡ some (b', true))
        × IsKept (record b { block = D.plus now block }) b'
        × (b'.last_used ≡ b.last_used)
  unfolding throttle
  throttle_exceeded block now b c e t p l =
      let (k, u) = calc_tokens-IsKept now b c e in
      let blocked : is_blocked D block now c ≡ false = rw (k.block, p, l) refl in
      let r = spend D false block now c in
      let kept : (r.0.block ≡ D.plus now block)
          × (r.0.period ≡ c.period)
          × (r.0.capacity ≡ c.capacity)
          × (r.0.last_used ≡ c.last_used)
          × (r.1 ≡ true) =
        unfold spend in ground (arith, t, p) in
      (
        r.0,
        rw e (rw blocked (ap (λ d. some (r.0, d)) kept.4)),
        record { block = kept.0; period = kept.1 ∙ k.period; capacity = kept.2 ∙ k.capacity },
        kept.3 ∙ u,
      )

  -- A bucket whose block lasts until `end`, and the instants to come
  pub record IsPending (end : D.F) (ts : List D.F) (b : Bucket D) : Type 0 where
    pub block : b.block ≡ end
    pub positive : D.lt_f D.zero_f b.period ≡ true
    pub close : AreWithin b.period b.capacity b.last_used ts

  abbrev pub Holds : D.F → List D.F → Option (Bucket D) → Type 0
  Holds end ts o = (b : Bucket D) × (o ≡ some b) × IsPending end ts b

  pub IsPending-used :
      (end now : D.F) (ts : List D.F) (b b' : Bucket D)
      → IsKept b b'
      → (b'.last_used ≡ b.last_used) ⊎ (b'.last_used ≡ now)
      → IsPending end (now ∷ ts) b
      → IsPending end ts b'
  IsPending-used end now ts b b' k u h = record {
    block = k.block ∙ h.block;
    positive = rw k.period h.positive;
    close =
        rw (k.period, k.capacity)
          (AreWithin-used b.period b.capacity b'.last_used b.last_used now ts u h.close);
  }

  pub same-IsKept : (b : Bucket D) → IsKept b b
  same-IsKept b = record { block = refl; period = refl; capacity = refl }

  pub IsPending-later :
      (end now : D.F) (ts : List D.F) (b : Bucket D)
      → IsPending end (now ∷ ts) b
      → IsPending end ts b
  IsPending-later end now ts b h = IsPending-used end now ts b b (same-IsKept b) (inl refl) h

  pub unexpired :
      (d : IsDouble D) (end now : D.F) (ts : List D.F) (b b' : Bucket D)
      → IsKept b b'
      → (b'.last_used ≡ b.last_used) ⊎ (b'.last_used ≡ now)
      → IsPending end (now ∷ ts) b
      → is_expired D now b' ≡ false
  unexpired d end now ts b b' k (inl u) h = rw (k.period, u) h.close.0.0.in_period
  unexpired d end now ts b b' k (inr u) h = rw (k.period, u) (d.not_expired now b.period h.positive)

  pub counted_kept :
      (now : D.F) (j i : Bytes) (a : Throttles D) (b : Bucket D)
      → a.bucket i ≡ some b
      → is_expired D now b ≡ false
      → (counted D now j a).bucket i ≡ some b
  unfolding counted
  counted_kept now j i a b e x = ground arith
