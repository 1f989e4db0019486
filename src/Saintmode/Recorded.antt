-- ===== src/Saintmode/Recorded.antt =====
-- Every answer of a saintmode object of src/vmod_saintmode.c is the one of a record of all blacklistings.
use operations_debs_varnish.Base.{
  ℕ, ◌+◌, ◌^◌, ◌≤◌, ◌<◌, ◌≡◌, refl, sym, ap, ◌∙◌, Bool, true, false, ◌||◌, List, [], ◌∷◌, Option,
  none, some, Bytes, length, arith, inl, inr, Bool-cases, ◌==◌, if◌then◌else◌,
}
use operations_debs_varnish.Base.Int.{ℤ}
use operations_debs_varnish.Saintmode.Trouble.{
  Clock, Trouble, Saintmode, visit, is_digest_healthy, add_trouble, minus_one,
}
use operations_debs_varnish.Saintmode.Director.{
  Busyobj, is_recv_or_hash, healthy, resolve, vmod_saintmode_is_healthy, vmod_saintmode__init,
  to_unsigned,
}
use operations_debs_varnish.Saintmode.Check.{
  current, is_digest_healthy-IsCounted, is_digest_healthy-length, is_digest_healthy_iff,
}
use operations_debs_varnish.Saintmode.Blacklist.{add_trouble-IsCounted, length-add_trouble}
use operations_debs_varnish.Saintmode.Recovery.{check_time}
use operations_debs_varnish.Saintmode.Record.{
  IsClock, Backend, Event, blacklists, resolves, asks, Answer, no_answer, backend, is_healthy, act,
  acts, judged, judged_with, answers, InOrder, Records,
}

module _ (C : Clock) where
  open C use {Time, lt_time}

  module _ (k : IsClock C) where
    current-visit :
        (digest : Option Bytes) (now v : Time) (trs : List (Trouble C)) (n : ℕ)
        → lt_time v now ≡ false
        → current C v (visit C digest now trs n).left ≡ current C v trs
    unfolding visit
    current-visit digest now v [] n f = refl
    current-visit digest now v (t ∷ trs) n f = ground (
      arith,
      f,
      k.lt_time_trans t.timeout now v,
      current-visit digest now v trs n f,
      current-visit digest now v trs (minus_one n) f,
    )

    later : (u now v : Time) → lt_time now u ≡ false → lt_time v now ≡ false → lt_time v u ≡ false
    later u now v f g = ground (arith, f, g, k.lt_time_trans v u now)

    later-Records :
        (u now : Time) (sm : Saintmode C) (log : List (Trouble C))
        → lt_time now u ≡ false
        → Records C u sm log
        → Records C now sm log
    later-Records u now sm log f r = record {
      counted = r.counted;
      in_force = λ v g. r.in_force v (later u now v f g);
    }

    -- What a check leaves as it was
    abbrev Same : Saintmode C → Saintmode C → Type 0
    Same sm sm' =
        (sm'.threshold ≡ sm.threshold)
        × (sm'.be ≡ sm.be)
        × (length sm'.troublelist ≤ length sm.troublelist)

    check-Records :
        (digest : Option Bytes) (u now : Time) (sm : Saintmode C) (log : List (Trouble C))
        → lt_time now u ≡ false
        → Records C u sm log
        → ((is_digest_healthy C digest now sm).1 ≡ judged C sm.threshold digest now log)
          × Records C now (is_digest_healthy C digest now sm).0 log
          × Same sm (is_digest_healthy C digest now sm).0
    unfolding is_digest_healthy
    check-Records digest u now sm log f r =
        let same = r.in_force now f in
        let iff = is_digest_healthy_iff C digest now sm r.counted in
        (
          rw (← same) (ground (arith, iff)),
          record {
            counted = is_digest_healthy-IsCounted C digest now sm r.counted;
            in_force = λ v e.
                current-visit digest now v sm.troublelist sm.n_trouble e
                ∙ r.in_force v (later u now v f e);
          },
          (refl, refl, is_digest_healthy-length C digest now sm),
        )

    current_none : (now : Time) (trs : List (Trouble C)) → length trs ≡ 0 → current C now trs ≡ []
    current_none now [] e = refl
    current_none now (t ∷ trs) e = absurd (omega (arith, e))

    quiet :
        (be_healthy : Backend C) (u real : Time) (bo : Option (Busyobj C)) (sm : Saintmode C)
        (log : List (Trouble C))
        → ((sm.threshold == 0) || (sm.n_trouble == 0)) ≡ true
        → lt_time (check_time C real bo) u ≡ false
        → Records C u sm log
        → be_healthy bo ≡ judged_with C be_healthy real bo sm.threshold log
    quiet be_healthy u real bo sm log q f r = elim (Bool-cases (sm.threshold == 0)) [
      | inl e ↦ rw e refl
      | inr e ↦
          (let none_left : current C (check_time C real bo) log ≡ [] =
              sym (r.in_force (check_time C real bo) f)
              ∙ current_none (check_time C real bo) sm.troublelist
                  (sym r.counted.0 ∙ ground (arith, q, e)) in
            rw (e, none_left) (ground arith))
    ]

    busy-Records :
        (be_healthy : Backend C) (u real : Time) (bo : Option (Busyobj C)) (sm : Saintmode C)
        (log : List (Trouble C))
        → ((sm.threshold == 0) || (sm.n_trouble == 0)) ≡ false
        → lt_time (check_time C real bo) u ≡ false
        → Records C u sm log
        → ((healthy C be_healthy real bo sm).1 ≡ judged_with C be_healthy real bo sm.threshold log)
          × Records C (check_time C real bo) (healthy C be_healthy real bo sm).0 log
          × Same sm (healthy C be_healthy real bo sm).0
    unfolding healthy
    busy-Records be_healthy u real none sm log q f r =
        let (e, r', same) = check-Records none u real sm log f r in
        let some_threshold : (sm.threshold == 0) ≡ false = ground (arith, q) in
        rw (q, healthy) (rw some_threshold (ground (arith, e)), r', same)
    busy-Records be_healthy u real (some b) sm log q f r =
        let (e, r', same) = check-Records (some b.digest) u b.t_prev sm log f r in
        let some_threshold : (sm.threshold == 0) ≡ false = ground (arith, q) in
        rw (q, healthy) (rw some_threshold (ground (arith, e)), r', same)

    healthy-Records :
        (be_healthy : Backend C) (u real : Time) (bo : Option (Busyobj C)) (sm : Saintmode C)
        (log : List (Trouble C))
        → lt_time (check_time C real bo) u ≡ false
        → Records C u sm log
        → ((healthy C be_healthy real bo sm).1 ≡ judged_with C be_healthy real bo sm.threshold log)
          × Records C (check_time C real bo) (healthy C be_healthy real bo sm).0 log
          × Same sm (healthy C be_healthy real bo sm).0
    unfolding healthy
    healthy-Records be_healthy u real bo sm log f r =
        elim (Bool-cases ((sm.threshold == 0) || (sm.n_trouble == 0))) [
          | inl q ↦
              rw (q, healthy)
                (
                  quiet be_healthy u real bo sm log q f r,
                  later-Records u _ sm log f r,
                  (refl, refl, omega arith),
                )
          | inr q ↦ busy-Records be_healthy u real bo sm log q f r
        ]

    add-Records :
        (u timeout : Time) (d : Bytes) (sm : Saintmode C) (log : List (Trouble C))
        → length sm.troublelist + 1 < 2 ^ 32
        → Records C u sm log
        → Records C u (add_trouble C d timeout sm) (record { digest = d; timeout = timeout } ∷ log)
    unfolding add_trouble
    add-Records u timeout d sm log n r = record {
      counted = add_trouble-IsCounted C d timeout sm r.counted n;
      in_force = λ v f. rw (r.in_force v f) refl;
    }

    both :
        (f : Bool → Answer C) (x y : Bool) (l l' : List (Answer C))
        → x ≡ y
        → l ≡ l'
        → ◌≡◌ {A = List (Answer C)} (f x ∷ l) (f y ∷ l')
    both f x y l l' e k = cc (e, k)

    answers_same :
        (es : List (Event C)) (log : List (Trouble C)) (be be' threshold threshold' : ℕ)
        → threshold ≡ threshold'
        → be ≡ be'
        → answers C be threshold es log ≡ answers C be' threshold' es log
    answers_same es log be be' threshold threshold' t b =
        ap (λ x. answers C x threshold es log) b ∙ ap (λ x. answers C be' x es log) t

    acts-Records :
        (es : List (Event C)) (u : Time) (sm : Saintmode C) (log : List (Trouble C))
        → InOrder C u es
        → length sm.troublelist + length es < 2 ^ 32
        → Records C u sm log
        → acts C es sm ≡ answers C sm.be sm.threshold es log
    unfolding acts act answers resolve vmod_saintmode_is_healthy
    acts-Records [] u sm log o n r = refl
    acts-Records (blacklists d timeout ∷ es) u sm log o n r =
        let more = length-add_trouble C d timeout sm in
        let rest =
          acts-Records es u (add_trouble C d timeout sm) _ o (omega (arith, more, n))
            (add-Records u timeout d sm log (omega (arith, n)) r) in
        ap (λ (l : List (Answer C)). no_answer ∷ l) (rest ∙ unfold add_trouble in refl)
    acts-Records (resolves be_healthy real bo ∷ es) u sm log (f, o) n r =
        let (e, r', (t, b, m)) = healthy-Records be_healthy u real bo sm log f r in
        both (λ x. backend (if x then some sm.be else none)) _ _ _ _ e
          (acts-Records es _ _ log o (omega (arith, m, n)) r' ∙ answers_same es log _ _ _ _ t b)
    acts-Records (asks be_healthy real method (some req) bo ∷ es) u sm log (f, o) n r =
        let digest = if is_recv_or_hash method then none else some req.digest in
        let (e, r', (t, b, m)) = check-Records digest u req.t_prev sm log f r in
        both is_healthy _ _ _ _ e
          (acts-Records es _ _ log o (omega (arith, m, n)) r' ∙ answers_same es log _ _ _ _ t b)
    acts-Records (asks be_healthy real method none bo ∷ es) u sm log (f, o) n r =
        let (e, r', (t, b, m)) = healthy-Records be_healthy u real bo sm log f r in
        both is_healthy _ _ _ _ e
          (acts-Records es _ _ log o (omega (arith, m, n)) r' ∙ answers_same es log _ _ _ _ t b)

    -- The clock is a total order without the values that compare with nothing. For a new object, and
    -- any sequence of fewer than 2 ^ 32 blacklistings, calls of resolve() and calls of is_healthy,
    -- with the instants of the checks not going backwards: every answer is the one that a record of
    -- all blacklistings gives, which forgets none. The entries that the checks take out, and
    -- n_trouble, never show.
    pub acts_judged :
        (es : List (Event C)) (u : Time) (vcl_name : Bytes) (be : ℕ) (threshold : ℤ)
        (priv : Option (List (Saintmode C)))
        → InOrder C u es
        → length es < 2 ^ 32
        → acts C es (vmod_saintmode__init C vcl_name be threshold priv).0
          ≡ answers C be (to_unsigned threshold) es []
    unfolding vmod_saintmode__init
    acts_judged es u vcl_name be threshold priv o n =
        acts-Records es u _ [] o (omega (arith, n))
          (record { counted = (refl, omega arith); in_force = λ v f. refl })
