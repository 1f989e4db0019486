-- ===== src/Xkey/Bisimilar.antt =====
-- The steps of the threads in src/vmod_xkey.c are those of Xkey.Simulates, one for one.
use mathlib.Core.Path.{subst}
use mathlib.Core.List.{cons≢nil}
use operations_debs_varnish.Base.{
  ℕ, Bool, List, [], ◌∷◌, ◌++◌, Option, none, some, ◌≡◌, refl, Bytes,
}
use operations_debs_varnish.Tree.{Tree, IsMap}
use operations_debs_varnish.Xkey.Index.{Oc, xkey_cb_remove}
use operations_debs_varnish.Xkey.Purge.{Objects, purge}
use operations_debs_varnish.Xkey.History.{pairs_of_others}
use operations_debs_varnish.Xkey.Threads.{
  World, set_thread, Action, purge_by, Step, enters, inserts, removes, purges, Steps, stays, next,
}
use operations_debs_varnish.Xkey.Simulates.{
  visits, Known, Does, begins, pairs_next, forgets, visits_none, visits_nothing, visits_each,
  DoesAll, rests, then_does, Shows, known, Shows-insert, Shows-remove, Shows-purge,
}

module _ (B : Objects) (sha256 : Bytes → Bytes) (H : Tree Bytes (List Oc)) (O : Tree ℕ (List Oc))
    (h : IsMap H) (o : IsMap O) where
  abbrev After :
      Action B H O sha256 → World B H O sha256 → List (Bytes × ℕ) → World B H O sha256 → Type 0
  After a w ps w' =
      (ps' : List (Bytes × ℕ)) × Does B sha256 H O a (known B sha256 H O w ps)
        (known B sha256 H O w' ps')
      × Shows B sha256 H O h o w'.index ps'

  purge_simulated :
      (do_soft : Bool) (now : B.Time) (key : Option Bytes) (r : B.Store × ℕ)
      (w w' : World B H O sha256) (ps : List (Bytes × ℕ))
      → purge B H O sha256 do_soft now w.index key w.store ≡ some r
      → w' ≡ record w { store = r.0 }
      → Shows B sha256 H O h o w.index ps
      → After (purge_by do_soft now key) w ps w'
  unfolding purge
  purge_simulated do_soft now none r w w' ps q e s =
      let same : r ≡ (w.store, 0) = cc q in (ps, visits_none (rw (e, same) refl), rw e s)
  purge_simulated do_soft now (some []) r w w' ps q e s =
      let same : r ≡ (w.store, 0) = cc q in (ps, visits_nothing (rw (e, same) refl), rw e s)
  purge_simulated do_soft now (some (c ∷ key)) r w w' ps q e s =
      let (ws, t, k) =
        Shows-purge B sha256 H O h o do_soft now w.index ps (c ∷ key) w.store s cons≢nil in
      let same : r ≡ visits B sha256 do_soft now ws ps (w.store, 0) = cc (q, k) in
      (ps, visits_each {ws = ws} cons≢nil t (rw (e, same) refl), rw e s)

  Step-simulated :
      {a : Action B H O sha256} {w w' : World B H O sha256} {ps : List (Bytes × ℕ)}
      → Step B H O sha256 a w w'
      → Shows B sha256 H O h o w.index ps
      → After a w ps w'
  Step-simulated {w = w} {ps = ps} (enters {t} {p} {headers} {ws} idle k e) s =
      (ps, begins idle k (rw e refl), rw e s)
  Step-simulated {w = w} {ps = ps} (inserts {t} {d} {ws} {x} i q e) s =
      let (x', e', s') =
        Shows-insert B sha256 H O h o w.index (w.threads t).objcore (sha256 d) ps s in
      let same : x ≡ x' = cc in
      (ps ++ ((sha256 d, (w.threads t).objcore) ∷ []), pairs_next i (rw e refl), rw e (rw same s'))
  Step-simulated {w = w} {ps = ps} (removes {p} e) s = (
    pairs_of_others p ps,
    forgets (rw e refl),
    rw e (Shows-remove B sha256 H O h o w.index p ps s),
  )
  Step-simulated {w = w} {w' = w'} {ps = ps} (purges {do_soft} {now} {key} {r} q e) s =
      purge_simulated do_soft now key r w w' ps q e s

  -- A step of the pairs, made by the code
  abbrev Made : Action B H O sha256 → World B H O sha256 → Known B sha256 H O → Type 0
  Made a w k =
      (w' : World B H O sha256) × (ps' : List (Bytes × ℕ)) × Step B H O sha256 a w w'
      × (k ≡ known B sha256 H O w' ps')
      × Shows B sha256 H O h o w'.index ps'

  Does-Made :
      {a : Action B H O sha256} {w : World B H O sha256} {ps : List (Bytes × ℕ)}
      {k : Known B sha256 H O}
      → Does B sha256 H O a (known B sha256 H O w ps) k
      → Shows B sha256 H O h o w.index ps
      → Made a w k
  unfolding purge
  Does-Made {w = w} {ps = ps} (begins {t} {p} {headers} {ws} idle k e) s = (
    set_thread B H O sha256 t (record { objcore = p; words = ws }) w,
    ps,
    enters idle k refl,
    e,
    s,
  )
  Does-Made {w = w} {ps = ps} (pairs_next {t} {d} {ws} i e) s =
      let (x, q, s') =
        Shows-insert B sha256 H O h o w.index (w.threads t).objcore (sha256 d) ps s in
      (
        set_thread B H O sha256 t (record (w.threads t) { words = ws }) (record w { index = x }),
        ps ++ ((sha256 d, (w.threads t).objcore) ∷ []),
        inserts i q refl,
        e,
        s',
      )
  Does-Made {w = w} {ps = ps} (forgets {p} e) s = (
    record w { index = xkey_cb_remove H O p w.index },
    pairs_of_others p ps,
    removes refl,
    e,
    Shows-remove B sha256 H O h o w.index p ps s,
  )
  Does-Made {w = w} {ps = ps} (visits_none e) s = (w, ps, purges {r = (w.store, 0)} refl refl, e, s)
  Does-Made {w = w} {ps = ps} (visits_nothing e) s =
      (w, ps, purges {r = (w.store, 0)} refl refl, e, s)
  Does-Made {w = w} {ps = ps} (visits_each {do_soft} {now} {key} {ws} n t e) s =
      let (us, t', q) = Shows-purge B sha256 H O h o do_soft now w.index ps key w.store s n in
      let same : us ≡ ws = cc (t, t') in
      (
        record w { store = (visits B sha256 do_soft now us ps (w.store, 0)).0 },
        ps,
        purges q refl,
        rw same e,
        s,
      )

  -- Over trees that are finite maps, with an index that stands for a list of pairs: whatever the
  -- threads do, in whatever order their insertions of single words, their removals and their purges
  -- stand, they do to the list of pairs what the module promises, action for action, with the same
  -- objects purged in the same order, and the index stands for the pairs that come of it.
  pub Steps-DoesAll :
      {acts : List (Action B H O sha256)} {w w' : World B H O sha256} {ps : List (Bytes × ℕ)}
      → Steps B H O sha256 acts w w'
      → Shows B sha256 H O h o w.index ps
      → (ps' : List (Bytes × ℕ)) × DoesAll B sha256 H O acts
          (known B sha256 H O w ps)
          (known B sha256 H O w' ps')
        × Shows B sha256 H O h o w'.index ps'
  Steps-DoesAll {ps = ps} stays s = (ps, rests, s)
  Steps-DoesAll (next a rest) s =
      let (ps1, d, s1) = Step-simulated a s in
      let (ps2, ds, s2) = Steps-DoesAll rest s1 in (ps2, then_does d ds, s2)

  made_all :
      {acts : List (Action B H O sha256)} {w : World B H O sha256} {ps : List (Bytes × ℕ)}
      {k k' : Known B sha256 H O}
      → DoesAll B sha256 H O acts k k'
      → k ≡ known B sha256 H O w ps
      → Shows B sha256 H O h o w.index ps
      → (w' : World B H O sha256) × (ps' : List (Bytes × ℕ)) × Steps B H O sha256 acts w w'
        × (k' ≡ known B sha256 H O w' ps')
        × Shows B sha256 H O h o w'.index ps'
  made_all {w = w} {ps = ps} rests e s = (w, ps, stays, e, s)
  made_all (then_does {a} {s1 = k1} d ds) e s =
      let (w1, ps1, step, e1, s1) = Does-Made (subst (λ z. Does B sha256 H O a z k1) e d) s in
      let (w2, ps2, steps, e2, s2) = made_all ds e1 s1 in (w2, ps2, next step steps, e2, s2)

  -- Over trees that are finite maps, with an index that stands for a list of pairs: whatever the
  -- module promises, the code can do. For every sequence of actions on the pairs there are steps of
  -- the threads, none of which fails, to an index that stands for the pairs at its end.
  pub DoesAll-Steps :
      {acts : List (Action B H O sha256)} {w : World B H O sha256} {ps : List (Bytes × ℕ)}
      {k : Known B sha256 H O}
      → DoesAll B sha256 H O acts (known B sha256 H O w ps) k
      → Shows B sha256 H O h o w.index ps
      → (w' : World B H O sha256) × (ps' : List (Bytes × ℕ)) × Steps B H O sha256 acts w w'
        × (k ≡ known B sha256 H O w' ps')
        × Shows B sha256 H O h o w'.index ps'
  DoesAll-Steps d s = made_all d refl s
