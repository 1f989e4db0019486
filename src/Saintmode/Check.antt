-- ===== src/Saintmode/Check.antt =====
-- The check of a digest of src/vmod_saintmode.c, against the entries that are current.
use operations_debs_varnish.Base.{
  ℕ, ◌+◌, ◌-◌, ◌^◌, ◌≤◌, ◌<◌, ◌≡◌, ◌↔◌, refl, sym, ap, Bool, true, false, not, List, [], ◌∷◌,
  Option, some, Bytes, length, keep, arith,
}
use operations_debs_varnish.Saintmode.Trouble.{
  Clock, Trouble, Saintmode, hits, visit, is_digest_healthy, minus_one,
}
use operations_debs_varnish.Saintmode.Director.{
  Method, Req, Busyobj, healthy, vmod_saintmode_is_healthy,
}

module _ (C : Clock) where
  open C use {Time, plus, lt_time}

  -- The entries that have not expired at an instant.
  abbrev pub current : Time → List (Trouble C) → List (Trouble C)
  current now = keep (λ tr. not (lt_time tr.timeout now))

  -- The entries against a digest.
  abbrev pub against : Option Bytes → List (Trouble C) → List (Trouble C)
  against digest = keep (hits C digest)

  -- n_trouble is the length of the list.
  abbrev pub IsCounted : Saintmode C → Type 0
  IsCounted sm = (sm.n_trouble ≡ length sm.troublelist) × (length sm.troublelist < 2 ^ 32)

  pub length-visit :
      (digest : Option Bytes) (now : Time) (trs : List (Trouble C)) (n k : ℕ)
      → length trs + k ≡ n
      → n < 2 ^ 32
      → (visit C digest now trs n).n ≡ length (visit C digest now trs n).left + k
  unfolding visit
  length-visit digest now [] n k h hn = sym h
  length-visit digest now (t ∷ trs) n k h hn =
      let less : minus_one n ≡ n - 1 = omega arith in
      let expired =
        length-visit digest now trs (minus_one n) k (omega (arith, less, h))
          (omega (arith, less, hn)) in
      let here = length-visit digest now trs n (k + 1) (omega (arith, h)) hn in
      ground (arith, expired, here)

  pub visit-length-le :
      (digest : Option Bytes) (now : Time) (trs : List (Trouble C)) (n : ℕ)
      → length (visit C digest now trs n).left ≤ length trs
  unfolding visit
  visit-length-le digest now [] n = omega arith
  visit-length-le digest now (t ∷ trs) n =
      ground (arith, visit-length-le digest now trs (minus_one n), visit-length-le digest now trs n)

  pub visit_ok :
      (digest : Option Bytes) (now : Time) (trs : List (Trouble C)) (n : ℕ)
      → ((visit C digest now trs n).ok ≡ true) ↔ (length (against digest (current now trs)) ≡ 0)
  unfolding visit
  visit_ok digest now [] n = ((λ _. refl), (λ _. refl))
  visit_ok digest now (t ∷ trs) n =
      ground (arith, visit_ok digest now trs (minus_one n), visit_ok digest now trs n)

  pub visit_left :
      (digest : Option Bytes) (now : Time) (trs : List (Trouble C)) (n : ℕ)
      → (visit C digest now trs n).ok ≡ true
      → (visit C digest now trs n).left ≡ current now trs
  unfolding visit
  visit_left digest now [] n h = refl
  visit_left digest now (t ∷ trs) n h =
      ground (arith, visit_left digest now trs (minus_one n), visit_left digest now trs n)

  -- n_trouble stays the length of the list.
  pub is_digest_healthy-IsCounted :
      (digest : Option Bytes) (now : Time) (sm : Saintmode C)
      → IsCounted sm
      → IsCounted (is_digest_healthy C digest now sm).0
  unfolding is_digest_healthy
  is_digest_healthy-IsCounted digest now sm (c, b) = (
    (omega (
      arith,
      length-visit digest now sm.troublelist sm.n_trouble 0 (omega (arith, c))
          (omega (arith, c, b)),
    )),
    omega (arith, b, visit-length-le digest now sm.troublelist sm.n_trouble),
  )

  pub is_digest_healthy-length :
      (digest : Option Bytes) (now : Time) (sm : Saintmode C)
      → length (is_digest_healthy C digest now sm).0.troublelist ≤ length sm.troublelist
  unfolding is_digest_healthy
  is_digest_healthy-length digest now sm = visit-length-le digest now sm.troublelist sm.n_trouble

  -- If n_trouble is the length of the list, then an object is healthy exactly if no current entry is
  -- against it and the current entries are fewer than the threshold.
  pub is_digest_healthy_iff :
      (digest : Option Bytes) (now : Time) (sm : Saintmode C)
      → IsCounted sm
      → ((is_digest_healthy C digest now sm).1 ≡ true) ↔ (
          (length (against digest (current now sm.troublelist)) ≡ 0)
          × (length (current now sm.troublelist) < sm.threshold))
  unfolding is_digest_healthy
  is_digest_healthy_iff digest now sm (c, b) =
      let v = visit C digest now sm.troublelist sm.n_trouble in
      let ok = visit_ok digest now sm.troublelist sm.n_trouble in
      let count =
        length-visit digest now sm.troublelist sm.n_trouble 0 (omega (arith, c))
          (omega (arith, c, b)) in
      let left =
        λ (e : v.ok ≡ true). ap length (visit_left digest now sm.troublelist sm.n_trouble e) in
      ground (arith, ok, count, left)

  -- A director with the threshold 0
  pub threshold_zero :
      (be_healthy : Option (Busyobj C) → Bool) (real : Time) (method : Method) (req : Req C)
      (bo : Option (Busyobj C)) (sm : Saintmode C)
      → sm.threshold ≡ 0
      → (healthy C be_healthy real bo sm ≡ (sm, be_healthy bo))
        × ((vmod_saintmode_is_healthy C be_healthy real method (some req) bo sm).1 ≡ false)
  unfolding healthy vmod_saintmode_is_healthy is_digest_healthy
  threshold_zero be_healthy real method req bo sm h = ground (arith, h)
