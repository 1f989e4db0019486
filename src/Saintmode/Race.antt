-- ===== src/Saintmode/Race.antt =====
-- healthy() of src/vmod_saintmode.c reads n_trouble without the mutex, and takes the mutex only after that:
-- other threads may change the list in between.
use operations_debs_varnish.Base.{
  ◌≡◌, ◌⊎◌, inl, inr, refl, sym, ap, List, ◌∷◌, ◌∙◌, Bool, true, false, ◌||◌, [], Option, none,
  some, ◌==◌, arith, length, if◌then◌else◌, Bool-cases,
}
use operations_debs_varnish.Saintmode.Trouble.{Clock, Saintmode, is_digest_healthy}
use operations_debs_varnish.Saintmode.Director.{Busyobj, healthy}
use operations_debs_varnish.Saintmode.Check.{IsCounted}
use operations_debs_varnish.Saintmode.Recovery.{cleared, is_digest_healthy-cleared}

length-zero : {A : Type 0} (xs : List A) → length xs ≡ 0 → xs ≡ []
length-zero [] h = refl
length-zero (x ∷ xs) h = absurd (omega arith)

module _ (C : Clock) where
  open C use {Time, plus, lt_time}

  -- The test in front of the lock
  unfoldable pub healthy_read : Saintmode C → Bool
  healthy_read sm = (sm.threshold == 0) || (sm.n_trouble == 0)

  -- What follows it, on the object as it is then
  unfoldable pub healthy_locked :
      (Option (Busyobj C) → Bool) → Time → Option (Busyobj C) → Saintmode C → Saintmode C × Bool
  healthy_locked be_healthy real none sm =
      let r = is_digest_healthy C none real sm in (r.0, if r.1 then be_healthy none else false)
  healthy_locked be_healthy real (some b) sm =
      let r = is_digest_healthy C (some b.digest) b.t_prev sm in
      (r.0, if r.1 then be_healthy (some b) else false)

  -- healthy(), with the object at the read and at the lock
  unfoldable pub healthy_raced :
      (Option (Busyobj C) → Bool)
      → Time
      → Option (Busyobj C)
      → Saintmode C
      → Saintmode C
      → Saintmode C × Bool
  healthy_raced be_healthy real bo sm sm' =
      if healthy_read sm then (sm', be_healthy bo) else healthy_locked be_healthy real bo sm'

  healthy_quiet :
      (be_healthy : Option (Busyobj C) → Bool) (real : Time) (bo : Option (Busyobj C))
      (sm : Saintmode C)
      → healthy_read sm ≡ true
      → healthy C be_healthy real bo sm ≡ (sm, be_healthy bo)
  unfolding healthy healthy_read
  healthy_quiet be_healthy real bo sm q = rw (q, healthy) refl

  healthy_busy :
      (be_healthy : Option (Busyobj C) → Bool) (real : Time) (bo : Option (Busyobj C))
      (sm : Saintmode C)
      → healthy_read sm ≡ false
      → healthy C be_healthy real bo sm ≡ healthy_locked be_healthy real bo sm
  unfolding healthy healthy_read healthy_locked
  healthy_busy be_healthy real none sm q = rw (q, healthy) refl
  healthy_busy be_healthy real (some b) sm q = rw (q, healthy) refl

  healthy_locked-cleared :
      (be_healthy : Option (Busyobj C) → Bool) (real : Time) (bo : Option (Busyobj C))
      (sm : Saintmode C)
      → IsCounted C sm
      → sm.troublelist ≡ []
      → (sm.threshold == 0) ≡ false
      → healthy_locked be_healthy real bo sm ≡ (cleared C sm, be_healthy bo)
  unfolding healthy_locked
  healthy_locked-cleared be_healthy real none sm c e t =
      let (f, g) = is_digest_healthy-cleared C none real sm c (rw e tt) t in rw (f, g) refl
  healthy_locked-cleared be_healthy real (some b) sm c e t =
      let (f, g) = is_digest_healthy-cleared C (some b.digest) b.t_prev sm c (rw e tt) t in
      rw (f, g) refl

  cleared_same : (sm : Saintmode C) → sm.troublelist ≡ [] → sm.n_trouble ≡ 0 → cleared C sm ≡ sm
  cleared_same sm e n =
      ap (λ l. record sm { troublelist = l; n_trouble = 0 }) (sym e)
      ∙ ap (λ k. record sm { n_trouble = k }) (sym n)

  no_troubles : (sm : Saintmode C) → IsCounted C sm → sm.n_trouble ≡ 0 → sm.troublelist ≡ []
  no_troubles sm c n = length-zero sm.troublelist (sym c.0 ∙ n)

  -- Between the read and the lock of healthy() other threads may have made of the object any other whose
  -- n_trouble is the length of its list and whose threshold is the same. The call is still one step: it
  -- gives what an undisturbed call gives at the read, and leaves the object as the others made it; or it
  -- is an undisturbed call at the lock.
  pub healthy_raced_lem :
      (be_healthy : Option (Busyobj C) → Bool) (real : Time) (bo : Option (Busyobj C))
      (sm sm' : Saintmode C) (same : sm.threshold ≡ sm'.threshold) (counted : IsCounted C sm')
      → ((healthy C be_healthy real bo sm ≡ (sm, (healthy C be_healthy real bo sm).1))
          × (healthy_raced be_healthy real bo sm sm' ≡ (sm', (healthy C be_healthy real bo sm).1)))
        ⊎ (healthy_raced be_healthy real bo sm sm' ≡ healthy C be_healthy real bo sm')
  unfolding healthy_raced
  healthy_raced_lem be_healthy real bo sm sm' same c = elim (Bool-cases (healthy_read sm)) [
    | inl q ↦ inl (
      rw (healthy_quiet be_healthy real bo sm q) refl,
      rw (q, healthy_quiet be_healthy real bo sm q) refl,
    )
    | inr q ↦ inr (
        rw q (elim (Bool-cases (healthy_read sm')) [
          | inr k ↦ sym (healthy_busy be_healthy real bo sm' k)
          | inl k ↦
              (let t : (sm'.threshold == 0) ≡ false =
                  unfold healthy_read in ground (arith, same, q) in
                let n : sm'.n_trouble ≡ 0 = unfold healthy_read in ground (arith, t, k) in
                let e = no_troubles sm' c n in
                healthy_locked-cleared be_healthy real bo sm' c e t
                ∙ (ap (λ x. (x, be_healthy bo)) (cleared_same sm' e n)
                    ∙ sym (healthy_quiet be_healthy real bo sm' k)))
        ]))
  ]
