-- ===== src/Cookie/Reading.antt =====
-- What vmod_parse() of src/vmod_cookie.c makes of a header: the pairs of its text, put into the list one by one.
use operations_debs_varnish.Base.{
  ℕ, zero, suc, ◌+◌, ◌<◌, List, [], ◌∷◌, ◌++◌, none, some, ◌≡◌, ◌≢◌, refl, ap, ◌∙◌, inl, inr, arith,
  ◌||◌, if◌then◌else◌, Option-cases, Bytes, length, skip_space, missing, cut, Cuts, cut-Cuts, Lacks,
}
use operations_debs_varnish.Workspace.{Workspace, IsRoomy}
use operations_debs_varnish.Cookie.{
  Cookie, find_cookie, set_value, is_blank, Task, cobj_get, set, set_found, set_new, parse_loop,
  parse, clean_old, log_line, parsed,
}
use operations_debs_varnish.Cookie.Operations.{roomy_log}
use operations_debs_varnish.Cookie.Parse.{Cut-cases, shorter, clean_old_empty}
use operations_debs_varnish.Cookie.Grammar.{
  Reads, ends, skip_space-split, Lacks-spaces, Reads-last, Reads-more,
}

-- A pair is put into the list: in place of the value of its name, or at the end. An empty name or
-- value is left out.
abbrev pub put_pair : Bytes → Bytes → List Cookie → List Cookie
put_pair n v cs = if is_blank (some n) || is_blank (some v) then cs else elim (find_cookie n cs) [
  | none ↦ cs ++ (record { name = n; value = v } ∷ [])
  | some c ↦ set_value n v cs
]

pub put_pairs : List (Bytes × Bytes) → List Cookie → List Cookie
put_pairs [] cs = cs
put_pairs ((n, v) ∷ ps) cs = put_pairs ps (put_pair n v cs)

module _ (W : Workspace) (r : IsRoomy W) where
  set_found-jar :
      (n v : Bytes) (t : Task W) → cobj_get W (set_found W n v t) ≡ set_value n v (cobj_get W t)
  unfolding set_found
  set_found-jar n v t = ground (arith, r.copy_fits v t.ws)

  set_new-jar :
      (n v : Bytes) (t : Task W)
      → cobj_get W (set_new W n v t) ≡ cobj_get W t ++ (record { name = n; value = v } ∷ [])
  unfolding set_new
  set_new-jar n v t =
      let a = W.alloc 40 t.ws in
      let p = W.copy n a.0 in
      ground (arith, r.alloc_fits 40 t.ws, r.copy_fits n a.0, r.copy_fits v p.0)

  set-put_pair :
      (n v : Bytes) (t : Task W)
      → cobj_get W (set W (some n) (some v) t) ≡ put_pair n v (cobj_get W t)
  unfolding set
  set-put_pair [] v t = refl
  set-put_pair (c ∷ n) [] t = refl
  set-put_pair (c ∷ n) (d ∷ v) t = elim (Option-cases (find_cookie (c ∷ n) (cobj_get W t))) [
    | inl e ↦ rw e (set_new-jar (c ∷ n) (d ∷ v) t)
    | inr (k, e) ↦ rw e (set_found-jar (c ∷ n) (d ∷ v) t)
  ]

  -- What a parse leaves of a text, from a count and a list.
  abbrev Parsed : ℕ → Bytes → ℕ → Task W → Type 0
  Parsed fuel p i t =
      (ps : List (Bytes × Bytes)) × (t' : Task W) × Reads p ps
      × (parse_loop W fuel p i t ≡ some (i + length ps, t'))
      × (cobj_get W t' ≡ put_pairs ps (cobj_get W t))
      × (t'.log ≡ t.log)

  no_name : (s a : Bytes) → cut b'=' (skip_space s) ≡ missing a → Lacks b'=' s
  no_name s a e =
      let k : Cuts b'=' (skip_space s) (missing a) = rw e at (cut-Cuts b'=' (skip_space s)) in
      let (lead, q, sp) = skip_space-split s in
      rw q (Lacks-spaces b'=' lead (skip_space s) refl sp (rw k.0 k.1))

  clean_old_log : (t : Task W) → (clean_old W t).log ≡ t.log
  unfolding clean_old
  clean_old_log t = ground arith

  parse_loop-Reads :
      (fuel : ℕ) (p : Bytes) (i : ℕ) (t : Task W) → length p < fuel → Parsed fuel p i t
  unfolding parse_loop put_pairs
  parse_loop-Reads zero p i t h = absurd (omega arith)
  parse_loop-Reads (suc fuel) [] i t h =
      ([], t, ends tt, ap (λ k. some (k, t)) (omega arith), refl, refl)
  parse_loop-Reads (suc fuel) (c ∷ p) i t h = elim (Cut-cases (cut b'=' (skip_space (c ∷ p)))) [
    | inl (a, e) ↦ (
      [],
      t,
      ends (no_name (c ∷ p) a e),
      rw (e, parse_loop) (ap (λ k. some (k, t)) (omega arith)),
      refl,
      refl,
    )
    | inr (n, rest, e) ↦ elim (Cut-cases (cut b';' rest)) [
      | inl (v, e') ↦ (
        (n, v) ∷ [],
        set W (some n) (some v) t,
        Reads-last (c ∷ p) n rest v e e',
        rw (e, parse_loop) (rw e' refl),
        set-put_pair n v t,
        roomy_log W (some n) (some v) t r,
      )
      | inr (v, tail, e') ↦
          let t1 = set W (some n) (some v) t in
          let (ps, t2, m, q, k, l) =
            parse_loop-Reads fuel tail (i + 1) t1
              (omega (arith, shorter (c ∷ p) n rest v tail e e')) in
          (
            (n, v) ∷ ps,
            t2,
            Reads-more (c ∷ p) n rest v tail ps e e' m,
            rw (e, parse_loop) (rw e' (q ∙ ap (λ k. some (k, t2)) (omega arith))),
            k ∙ ap (put_pairs ps) (set-put_pair n v t),
            l ∙ roomy_log W (some n) (some v) t r,
          )
    ]
  ]

  -- With room in the workspace, a header that is not empty is read to its end as the grammar has it, and
  -- leaves what its pairs make of the empty list, put into it from left to right, with one line in
  -- the log that says how many they are. What was in the list before is gone.
  pub parse-Reads :
      (header : Bytes) (t : Task W)
      → header ≢ []
      → (ps : List (Bytes × Bytes)) × (t' : Task W) × Reads header ps
        × (parse W (some header) t ≡ some t')
        × (cobj_get W t' ≡ put_pairs ps [])
        × (t'.log ≡ t.log ++ (parsed (length ps) ∷ []))
  unfolding parse
  parse-Reads [] t ne = absurd (ne refl)
  parse-Reads (c ∷ p) t ne =
      let (ps, t', m, q, k, l) =
        parse_loop-Reads (suc (length (c ∷ p))) (c ∷ p) 0 (clean_old W t) (omega arith) in
      (
        ps,
        log_line W (parsed (0 + length ps)) t',
        m,
        rw q refl,
        k ∙ ap (put_pairs ps) (clean_old_empty W t),
        rw l (rw clean_old_log (ap (λ k. t.log ++ (parsed k ∷ [])) (omega arith))),
      )
