-- ===== src/Saintmode/Recovery.antt =====
-- The return of a backend of src/vmod_saintmode.c once the entries against it have expired.
use operations_debs_varnish.Base.{
  ℕ, ◌≡◌, refl, Bool, true, false, ◌||◌, ◌∙◌, List, [], ◌∷◌, Option, none, some, Bytes, arith, All,
  inl, inr, Bool-cases, ◌==◌, if◌then◌else◌, leb,
}
use operations_debs_varnish.Saintmode.Trouble.{
  Clock, Trouble, Saintmode, visit, is_digest_healthy, minus_one,
}
use operations_debs_varnish.Saintmode.Director.{Busyobj, healthy, resolve}
use operations_debs_varnish.Saintmode.Check.{
  current, IsCounted, is_digest_healthy-IsCounted, length-visit, visit_ok, visit_left,
}

module _ (C : Clock) where
  open C use {Time, plus, lt_time}

  -- Every entry has expired at an instant.
  abbrev pub AllExpired : Time → List (Trouble C) → Type 0
  AllExpired now = All (λ tr. lt_time tr.timeout now ≡ true)

  current_none : (now : Time) (trs : List (Trouble C)) → AllExpired now trs → current C now trs ≡ []
  current_none now [] a = refl
  current_none now (t ∷ trs) (e, a) = rw e (current_none now trs a)

  -- The instant that a health check of varnishd compares with
  abbrev pub check_time : Time → Option (Busyobj C) → Time
  check_time real none = real
  check_time real (some b) = b.t_prev

  -- The object with no entry
  abbrev pub cleared : Saintmode C → Saintmode C
  cleared sm = record sm { troublelist = []; n_trouble = 0 }

  pub is_digest_healthy-cleared :
      (digest : Option Bytes) (now : Time) (sm : Saintmode C)
      → IsCounted C sm
      → AllExpired now sm.troublelist
      → (sm.threshold == 0) ≡ false
      → ((is_digest_healthy C digest now sm).0 ≡ cleared sm)
        × ((is_digest_healthy C digest now sm).1 ≡ true)
  unfolding is_digest_healthy
  is_digest_healthy-cleared digest now sm (c, b) a t =
      let v = visit C digest now sm.troublelist sm.n_trouble in
      let none_current = current_none now sm.troublelist a in
      let ok : v.ok ≡ true =
        (visit_ok C digest now sm.troublelist sm.n_trouble).1 (rw none_current refl) in
      let left : v.left ≡ [] =
        visit_left C digest now sm.troublelist sm.n_trouble ok ∙ none_current in
      let counted =
        length-visit C digest now sm.troublelist sm.n_trouble 0 (omega (arith, c))
          (omega (arith, c, b)) in
      let n : v.n ≡ 0 = counted ∙ rw left refl in
      let some_threshold : leb sm.threshold 0 ≡ false = ground arith in
      (rw (left, n) refl, rw (n, some_threshold) ok)

  -- Every resolve(), at any time and with any busy object, follows the health function of the backend and
  -- leaves the object alone.
  abbrev pub FollowsBackend : (Option (Busyobj C) → Bool) → Saintmode C → Type 0
  FollowsBackend be_healthy sm =
      (real : Time) (bo : Option (Busyobj C))
      → resolve C be_healthy real bo sm ≡ (sm, if be_healthy bo then some sm.be else none)

  resolve_quiet :
      (be_healthy : Option (Busyobj C) → Bool) (sm : Saintmode C)
      → ((sm.threshold == 0) || (sm.n_trouble == 0)) ≡ true
      → FollowsBackend be_healthy sm
  unfolding resolve healthy
  resolve_quiet be_healthy sm q real bo = rw (q, healthy) refl

  resolve-cleared :
      (be_healthy : Option (Busyobj C) → Bool) (real : Time) (bo : Option (Busyobj C))
      (sm : Saintmode C)
      → IsCounted C sm
      → AllExpired (check_time real bo) sm.troublelist
      → ((sm.threshold == 0) || (sm.n_trouble == 0)) ≡ false
      → resolve C be_healthy real bo sm ≡ (cleared sm, if be_healthy bo then some sm.be else none)
  unfolding resolve healthy
  resolve-cleared be_healthy real none sm c a q =
      let (e, f) = is_digest_healthy-cleared none real sm c a (ground arith) in
      rw (q, healthy) (rw (e, f) refl)
  resolve-cleared be_healthy real (some b) sm c a q =
      let (e, f) = is_digest_healthy-cleared (some b.digest) b.t_prev sm c a (ground arith) in
      rw (q, healthy) (rw (e, f) refl)

  resolve_expired :
      (be_healthy : Option (Busyobj C) → Bool) (real : Time) (bo : Option (Busyobj C))
      (sm : Saintmode C)
      → IsCounted C sm
      → AllExpired (check_time real bo) sm.troublelist
      → (sm' : Saintmode C) × (resolve C be_healthy real bo sm
          ≡ (sm', if be_healthy bo then some sm.be else none))
        × (sm'.be ≡ sm.be)
        × FollowsBackend be_healthy sm'
  unfolding resolve healthy
  resolve_expired be_healthy real bo sm c a =
      elim (Bool-cases ((sm.threshold == 0) || (sm.n_trouble == 0))) [
        | inl q ↦ (sm, resolve_quiet be_healthy sm q real bo, refl, resolve_quiet be_healthy sm q)
        | inr q ↦ (
          cleared sm,
          resolve-cleared be_healthy real bo sm c a q,
          refl,
          resolve_quiet be_healthy (cleared sm) (ground arith),
        )
      ]

  -- Health checks, one after the other, of digests at instants
  abbrev pub checks : List (Option Bytes × Time) → Saintmode C → Saintmode C
  checks [] sm = sm
  checks ((digest, now) ∷ cs) sm = checks cs (is_digest_healthy C digest now sm).0

  visit-AllExpired :
      (digest : Option Bytes) (now later : Time) (trs : List (Trouble C)) (n : ℕ)
      → AllExpired later trs
      → AllExpired later (visit C digest now trs n).left
  unfolding visit
  visit-AllExpired digest now later [] n a = a
  visit-AllExpired digest now later (t ∷ trs) n (e, a) = ground (
    arith,
    e,
    a,
    visit-AllExpired digest now later trs n a,
    visit-AllExpired digest now later trs (minus_one n) a,
  )

  -- An object whose n_trouble is the length of its list, after any number of health checks at any instants and
  -- once all its entries have expired at the instant of a resolve(): that call gives the backend if
  -- the backend itself is healthy, and from then on every resolve() does.
  pub resolve_recovers :
      (be_healthy : Option (Busyobj C) → Bool) (cs : List (Option Bytes × Time)) (real : Time)
      (bo : Option (Busyobj C)) (sm : Saintmode C) (counted : IsCounted C sm)
      (expired : AllExpired (check_time real bo) sm.troublelist)
      → (sm' : Saintmode C) × (resolve C be_healthy real bo (checks cs sm)
          ≡ (sm', if be_healthy bo then some sm.be else none))
        × (sm'.be ≡ sm.be)
        × FollowsBackend be_healthy sm'
  unfolding is_digest_healthy
  resolve_recovers be_healthy [] real bo sm c a = resolve_expired be_healthy real bo sm c a
  resolve_recovers be_healthy ((digest, now) ∷ cs) real bo sm c a =
      resolve_recovers be_healthy cs real bo (is_digest_healthy C digest now sm).0
        (is_digest_healthy-IsCounted C digest now sm c)
        (visit-AllExpired digest now (check_time real bo) sm.troublelist sm.n_trouble a)
