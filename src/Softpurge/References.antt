-- ===== src/Softpurge/References.antt =====
-- The references that src/vmod_softpurge.c takes and gives back, and the objects that it rearms.
use operations_debs_varnish.Base.{
  ℕ, zero, suc, ◌+◌, ◌-◌, ◌/◌, ◌≤◌, ◌<◌, ◌≡◌, refl, sym, ap, ◌∙◌, inl, inr, arith, true, false, not,
  List, [], ◌∷◌, some, ltb, ◌==◌, ==_iff, if◌then◌else◌, keep, take, Bool-cases,
}
use operations_debs_varnish.Softpurge.{
  Objcores, IsObjcores, Method, is_hit_or_miss, skipped, collect, rearm_all, vmod_softpurge,
}

-- How often an address stands in the array.
abbrev pub count : ℕ → List ℕ → ℕ
count p [] = 0
count p (q ∷ qs) = if p == q then suc (count p qs) else count p qs

take-nil : (n : ℕ) → take {A = ℕ} n [] ≡ []
take-nil zero = refl
take-nil (suc n) = refl

module _ (B : Objcores) where
  -- The objects that there is room for, oldest first: those that are neither busy nor dying.
  abbrev pub taken : ℕ → List ℕ → B.Store → List ℕ
  taken spc ocs s = take (spc / 8) (keep (λ oc. not (skipped B s oc)) ocs)

  -- The times of an object after so many rearmings, each of which keeps its grace.
  abbrev pub rearmed_times : ℕ → B.Time → B.Exp → B.Exp
  rearmed_times zero now x = x
  rearmed_times (suc n) now x =
      rearmed_times n now (B.rearmed now B.zero_time (B.grace x) (B.stale x) x)

  module _ (b : IsObjcores B) where
    keep-same :
        (q n : ℕ) (ocs : List ℕ) (s : B.Store)
        → keep (λ oc. not (skipped B (B.set_refcnt q n s) oc)) ocs
          ≡ keep (λ oc. not (skipped B s oc)) ocs
    keep-same q n [] s = refl
    keep-same q n (oc ∷ ocs) s =
        ground (arith, b.busy-set_refcnt oc q n s, b.dying-set_refcnt oc q n s, keep-same q n ocs s)

    counted :
        (p oc : ℕ) (s t : B.Store) (ocs : List ℕ)
        → (B.refcnt t p ≡ B.refcnt (B.set_refcnt oc (B.refcnt s oc + 1) s) p + count p ocs)
          × (B.exp t p ≡ B.exp (B.set_refcnt oc (B.refcnt s oc + 1) s) p)
        → (B.refcnt t p ≡ B.refcnt s p + count p (oc ∷ ocs)) × (B.exp t p ≡ B.exp s p)
    counted p oc s t ocs (e, f) = (
      ground (arith, e, ==_iff p oc, b.refcnt-set_refcnt p oc (B.refcnt s oc + 1) s),
      f ∙ b.exp-set_refcnt p oc (B.refcnt s oc + 1) s,
    )

    -- The first loop takes one reference to each object of its array.
    collect_lem :
        (spc : ℕ) (ocs : List ℕ) (s : B.Store)
        → ((collect B spc ocs s).0 ≡ taken spc ocs s)
          × ((p : ℕ)
              → (B.refcnt (collect B spc ocs s).1 p ≡ B.refcnt s p + count p (taken spc ocs s))
                × (B.exp (collect B spc ocs s).1 p ≡ B.exp s p))
    unfolding collect
    collect_lem spc [] s =
        (sym (take-nil (spc / 8)), λ p. rw (take-nil (spc / 8)) (omega arith, refl))
    collect_lem spc (oc ∷ ocs) s = elim (Bool-cases (skipped B s oc)) [
      | inl q ↦ let (e, k) = collect_lem spc ocs s in (rw q e, λ p. rw q (k p))
      | inr q ↦ elim (Bool-cases (ltb spc 8)) [
        | inl full ↦
            let none_left : spc / 8 ≡ 0 = ground arith in
            (rw (q, full, none_left) refl, λ p. rw (q, full, none_left) (omega arith, refl))
        | inr room ↦
            let s' = B.set_refcnt oc (B.refcnt s oc + 1) s in
            let (e, k) = collect_lem (spc - 8) ocs s' in
            let one_more : spc / 8 ≡ suc ((spc - 8) / 8) = ground arith in
            let same = keep-same oc (B.refcnt s oc + 1) ocs s in
            (
              rw (q, room, one_more) (ap (λ l. oc ∷ l) (rw same at e)),
              λ p. rw (q, room, one_more) (rw same at (counted p oc s _ _ (k p))),
            )
      ]
    ]

    -- The second loop gives back a reference for each element of the array.
    rearm_all_lem :
        (now : B.Time) (ocs : List ℕ) (s : B.Store)
        → ((p : ℕ) → count p ocs ≤ B.refcnt s p)
        → (s' : B.Store) × (rearm_all B now ocs s ≡ some s')
          × ((p : ℕ)
              → (B.refcnt s' p ≡ B.refcnt s p - count p ocs)
                × (B.exp s' p ≡ rearmed_times (count p ocs) now (B.exp s p)))
    unfolding rearm_all
    rearm_all_lem now [] s h = (s, refl, λ p. (omega arith, refl))
    rearm_all_lem now (oc ∷ ocs) s h =
        let x = B.exp s oc in
        let t = B.rearm oc now B.zero_time (B.grace x) (B.stale x) s in
        let refs = λ (p : ℕ). b.refcnt-deref p oc t in
        let kept = λ (p : ℕ). b.refcnt-rearm p oc now B.zero_time (B.grace x) (B.stale x) s in
        let (s', e, k) =
          rearm_all_lem now ocs (B.deref oc t) (λ p. ground (arith, h p, refs p, kept p)) in
        let held : (B.refcnt s oc == 0) ≡ false = ground (arith, h oc) in
        (
          s',
          rw held e,
          λ p. (
            ground (arith, (k p).0, refs p, kept p),
            ground (
              arith,
              (k p).1,
              ==_iff p oc,
              b.exp-deref p oc t,
              b.exp-rearm p oc now B.zero_time (B.grace x) (B.stale x) s,
            ),
          ),
        )

    -- In vcl_hit and vcl_miss, with room for one address and with references to the object head, and where
    -- the other threads give back no reference that is not theirs: the call does not fail and uses no
    -- object that nobody holds. The objects that it rearms, once for each time that they are listed and with
    -- their grace, are the first that are neither busy nor dying, as many as there is room for; it gives back
    -- every reference that it took, and no other.
    pub vmod_softpurge_lem :
        (others : B.Store → B.Store) (method : Method) (spc head : ℕ) (objcs : List ℕ)
        (now : B.Time) (s : B.Store)
        → is_hit_or_miss method ≡ true
        → 8 ≤ spc
        → 0 < head
        → ((p : ℕ) → count p (taken spc objcs s) ≤ B.refcnt (others (collect B spc objcs s).1) p)
        → (s' : B.Store) × (vmod_softpurge B others method spc head objcs now s ≡ some (s', []))
          × ((p : ℕ)
              → (B.refcnt (collect B spc objcs s).1 p ≡ B.refcnt s p + count p (taken spc objcs s))
                × (B.refcnt s' p
                    ≡ B.refcnt (others (collect B spc objcs s).1) p - count p (taken spc objcs s))
                × (B.exp s' p
                    ≡ rearmed_times
                        (count p (taken spc objcs s))
                        now
                        (B.exp (others (collect B spc objcs s).1) p)))
    unfolding vmod_softpurge
    vmod_softpurge_lem others method spc head objcs now s m room h keeps =
        let (e, k) = collect_lem spc objcs s in
        let (s', f, l) =
          rearm_all_lem now (taken spc objcs s) (others (collect B spc objcs s).1) keeps in
        let fits : ltb spc 8 ≡ false = ground arith in
        let used : (head == 0) ≡ false = ground arith in
        (s', rw (m, fits, used, e, f), λ p. ((k p).0, (l p).0, (l p).1))
