-- ===== src/Vsthrottle/Paid.antt =====
-- How a bucket of src/vmod_vsthrottle.c pays for a request that is let through.
use operations_debs_varnish.Base.{
  ℕ, ◌+◌, ◌≤◌, ◌≡◌, ◌⊎◌, refl, inl, inr, Bool, true, false, List, [], ◌∷◌, none, some, arith,
  Bool-cases, if◌then◌else◌,
}
use operations_debs_varnish.Base.Int.{ℤ, pos, pos_part, ltb_ℤ, ◌+ℤ◌, ◌-ℤ◌, ◌≤ℤ◌}
use operations_debs_varnish.Vsthrottle.Double.{Double, IsDouble}
use operations_debs_varnish.Vsthrottle.Bucket.{
  Bucket, accrued, cap_tokens, calc_tokens, is_blocked, spend, throttle, is_expired,
}
use operations_debs_varnish.Vsthrottle.Spec.{Answer, is_denied}
use operations_debs_varnish.Vsthrottle.Pending.{IsWithin, AreWithin}

-- Some of the instants, in order
pub data IsPart {A : Type 0} : List A → List A → Type 0 where
  none_left : IsPart [] []
  without : {us ts : List A} (t : A) → IsPart us ts → IsPart us (t ∷ ts)
  with_it : {us ts : List A} (t : A) → IsPart us ts → IsPart (t ∷ us) (t ∷ ts)

-- What is earned in no negative time is not negative, where a long can hold it.
pub record IsEarning (D : Double) : Type 0 where
  pub share_nonneg :
      (a b p : D.F) (c share : ℤ)
      → D.le_f D.zero_f (D.minus a b) ≡ true
      → D.lt_f D.zero_f p ≡ true
      → pos 0 ≤ℤ c
      → D.to_long (D.times (D.divided (D.minus a b) p) (D.of_long c)) ≡ some share
      → pos 0 ≤ℤ share

module _ (D : Double) where
  -- The tokens for the time from u to v
  abbrev pub tokens_between : D.F → ℤ → D.F → D.F → ℕ
  tokens_between p c u v = elim (D.to_long (D.times (D.divided (D.minus v u) p) (D.of_long c))) [
    | none ↦ 0
    | some a ↦ pos_part a
  ]

  -- Those for the times between u and the first instant, and between each instant and the next.
  abbrev pub tokens_through : D.F → ℤ → D.F → List D.F → ℕ
  tokens_through p c u [] = 0
  tokens_through p c u (v ∷ vs) = tokens_between p c u v + tokens_through p c v vs

  abbrev pub passed : List (Answer D) → ℕ
  passed [] = 0
  passed (is_denied denied ∷ xs) = (if denied then 0 else 1) + passed xs
  passed (_ ∷ xs) = passed xs

  -- A bucket without debt, for requests at the instants to come
  pub record IsLive (ts : List D.F) (b : Bucket D) : Type 0 where
    pub positive : D.lt_f D.zero_f b.period ≡ true
    pub saved : pos 0 ≤ℤ b.tokens
    pub capacity : pos 0 ≤ℤ b.capacity
    pub close : AreWithin D b.period b.capacity b.last_used ts

  -- What a request makes of a bucket
  pub record IsPaid (now : D.F) (share : ℤ) (b b' : Bucket D) (denied : Bool) : Type 0 where
    pub period : b'.period ≡ b.period
    pub capacity : b'.capacity ≡ b.capacity
    pub saved : pos 0 ≤ℤ b'.tokens
    pub paid :
        ((b'.last_used ≡ b.last_used)
          × ((if denied then 0 else 1) + pos_part b'.tokens ≤ pos_part b.tokens))
        ⊎ ((b'.last_used ≡ now)
            × ((if denied then 0 else 1) + pos_part b'.tokens ≤ pos_part b.tokens + pos_part share))

  fill : ℤ → Bucket D → Bucket D
  fill a b = cap_tokens D (record b { tokens = b.tokens +ℤ a })

  fill_lem :
      (a : ℤ) (b : Bucket D)
      → pos 0 ≤ℤ a
      → pos 0 ≤ℤ b.tokens
      → pos 0 ≤ℤ b.capacity
      → (pos 0 ≤ℤ (fill a b).tokens)
        × (pos_part (fill a b).tokens ≤ pos_part b.tokens + pos_part a)
        × ((fill a b).last_used ≡ b.last_used)
        × ((fill a b).period ≡ b.period)
        × ((fill a b).capacity ≡ b.capacity)
  unfolding fill cap_tokens ◌+ℤ◌
  fill_lem a b h k c = ground arith

  spend_free :
      (block now : D.F) (b : Bucket D) (share : ℤ) (c : Bucket D)
      → pos 0 ≤ℤ c.tokens
      → pos_part c.tokens ≤ pos_part b.tokens + pos_part share
      → c.last_used ≡ b.last_used
      → c.period ≡ b.period
      → c.capacity ≡ b.capacity
      → IsPaid now share b (spend D false block now c).0 (spend D false block now c).1
  unfolding spend ◌-ℤ◌
  spend_free block now b share c h k u p q = record {
    period = ground arith;
    capacity = ground arith;
    saved = ground arith;
    paid = elim (Bool-cases (ltb_ℤ (pos 0) c.tokens)) [
      | inl e ↦ inr (ground arith)
      | inr e ↦ inl (ground arith)
    ];
  }

  spend_blocked :
      (block now : D.F) (b : Bucket D) (share : ℤ) (c : Bucket D)
      → pos 0 ≤ℤ c.tokens
      → pos_part c.tokens ≤ pos_part b.tokens + pos_part share
      → c.period ≡ b.period
      → c.capacity ≡ b.capacity
      → c.last_used ≡ now
      → IsPaid now share b (spend D true block now c).0 (spend D true block now c).1
  unfolding spend ◌-ℤ◌
  spend_blocked block now b share c h k p q u = record {
    period = ground arith;
    capacity = ground arith;
    saved = ground arith;
    paid = inr (ground arith);
  }

  pub throttle-IsPaid :
      (block now : D.F) (b : Bucket D) (share : ℤ)
      → D.le_f D.zero_f (D.minus now b.last_used) ≡ true
      → accrued D b now ≡ some share
      → pos 0 ≤ℤ share
      → pos 0 ≤ℤ b.tokens
      → pos 0 ≤ℤ b.capacity
      → (b' : Bucket D) × (denied : Bool) × (throttle D block now b ≡ some (b', denied))
        × IsPaid now share b b' denied
  unfolding throttle calc_tokens
  throttle-IsPaid block now b share e q n h k =
      let c = fill share b in
      let (saved, earned, u, p, cap) = fill_lem share b n h k in
      let called : calc_tokens D b now ≡ some c = unfold fill in rw (e, q) refl in
      elim (Bool-cases (is_blocked D block now c)) [
        | inl x ↦
            let r = spend D true block now (record c { last_used = now }) in
            (
              r.0,
              r.1,
              rw called (rw x refl),
              spend_blocked block now b share (record c { last_used = now }) saved earned p cap
                  refl,
            )
        | inr x ↦
            let r = spend D false block now c in
            (r.0, r.1, rw called (rw x refl), spend_free block now b share c saved earned u p cap)
      ]

  pub used_cases :
      (now : D.F) (share : ℤ) (b b' : Bucket D) (denied : Bool)
      → IsPaid now share b b' denied
      → (b'.last_used ≡ b.last_used) ⊎ (b'.last_used ≡ now)
  used_cases now share b b' denied h = elim h.paid [ inl (u, _) ↦ inl u | inr (u, _) ↦ inr u ]

  pub unexpired_after :
      (d : IsDouble D) (now : D.F) (ts : List D.F) (b b' : Bucket D) (share : ℤ) (denied : Bool)
      → IsLive (now ∷ ts) b
      → IsPaid now share b b' denied
      → is_expired D now b' ≡ false
  unexpired_after d now ts b b' share denied l h = elim (used_cases now share b b' denied h) [
    | inl u ↦ rw (h.period, u) l.close.0.0.in_period
    | inr u ↦ rw (h.period, u) (d.not_expired now b.period l.positive)
  ]

  pub share_between :
      (p : D.F) (c : ℤ) (u v : D.F) (w : IsWithin D p c u v)
      → tokens_between p c u v ≡ pos_part w.share
  share_between p c u v w = rw (tokens_between, w.defined) refl

  -- The chain grows by the instant where the bucket was used.
  module _ (p : D.F) (c : ℤ) (now u u' : D.F) (ts us : List D.F) (x n m m' share : ℕ) where
    pub chain_skipped :
        u' ≡ u
        → n + m' ≤ m
        → x ≤ m' + tokens_through p c u' us
        → n + x ≤ m + tokens_through p c u us
    chain_skipped e h k = let k' = rw e at k in omega (arith, h, k')

    pub chain_used :
        u' ≡ now
        → tokens_between p c u now ≡ share
        → n + m' ≤ m + share
        → x ≤ m' + tokens_through p c u' us
        → n + x ≤ m + tokens_through p c u (now ∷ us)
    chain_used e q h k = let k' = rw e at k in omega (arith, q, h, k')
