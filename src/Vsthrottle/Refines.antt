-- ===== src/Vsthrottle/Refines.antt =====
-- The partitions, the trees and the collector of src/vmod_vsthrottle.c against Vsthrottle.Spec.
use mathlib.Core.Path.{fun_ext}
use operations_debs_varnish.Base.{
  ℕ, ◌+◌, ◌-◌, false, List, [], ◌∷◌, Option, none, some, ◌≡◌, refl, ap, inl, inr, arith, ltb, ◌==◌,
  if◌then◌else◌, ◌>>=◌, Bool-cases, Option-cases, Bytes, eq_bytes, eq_bytes_iff,
}
use operations_debs_varnish.Base.Int.{ℤ, pos}
use operations_debs_varnish.Tree.{Tree, IsMap, Listed}
use operations_debs_varnish.Vsthrottle.Double.{Double}
use operations_debs_varnish.Vsthrottle.Bucket.{Bucket, calc_tokens, throttle}
use operations_debs_varnish.Vsthrottle.Table.{
  Vsthrottle, Table, part_of, to_unsigned, set_part, get_bucket, denied_in, remaining_in,
  blocked_in, remove_all, vmod_is_denied, vmod_remaining, vmod_blocked, fini, event_load,
}
use operations_debs_varnish.Vsthrottle.Collect.{survivor, bucket_for, get_bucket_lem, denied_in_lem}
use operations_debs_varnish.Vsthrottle.Refill.{remaining_in_lem}
use operations_debs_varnish.Vsthrottle.Spec.{
  Throttles, Call, update, nothing, counted, spec_denied, spec_remaining, spec_blocked, spec_load,
  spec_fini, spec, specs, perform, performs, is_denied, remaining, blocked_for, no_answer,
  asks_denied, asks_remaining, asks_blocked, loads, discards,
}

module _ (D : Double) (M : Tree Bytes (Bucket D)) (h : IsMap M) where
  -- What the callers see of the table.
  abbrev pub view : Table D M → Throttles D
  view s = record {
    bucket = λ j. M.find j (s.parts (part_of j)).buckets;
    count = λ p. (s.parts p).gc_count;
    users = s.n_init;
  }

  -- A partition that took the place of the one of a digest
  view-set_part :
      (d : Bytes) (v : Vsthrottle D M) (s : Table D M) (a : Throttles D)
      → ((j : Bytes)
          → (if part_of d == part_of j
              then M.find j v.buckets
              else M.find j (s.parts (part_of j)).buckets)
            ≡ a.bucket j)
      → ((p : ℕ) → (if part_of d == p then v.gc_count else (s.parts p).gc_count) ≡ a.count p)
      → s.n_init ≡ a.users
      → view (set_part D M (part_of d) v s) ≡ a
  view-set_part d v s a f g e =
      let found : (λ j.
        M.find j (if part_of d == part_of j then v else s.parts (part_of j)).buckets)
          ≡ a.bucket =
        fun_ext λ j. ground (arith, f j) in
      let counts : (λ p. (if part_of d == p then v else s.parts p).gc_count) ≡ a.count =
        fun_ext λ p. ground (arith, g p) in
      cc (found, counts, e)

  denied_in-none :
      (d : Bytes) (limit : ℤ) (period block now : D.F) (v : Vsthrottle D M)
      → throttle D block now (bucket_for D (M.find d v.buckets) limit period now) ≡ none
      → denied_in D M d limit period block now v ≡ none
  unfolding denied_in
  denied_in-none d limit period block now v e =
      let g = get_bucket_lem D M h d limit period now v.buckets in rw (g.0, e) refl

  remaining_in-none :
      (d : Bytes) (limit : ℤ) (period now : D.F) (v : Vsthrottle D M)
      → calc_tokens D (bucket_for D (M.find d v.buckets) limit period now) now ≡ none
      → remaining_in D M d limit period now v ≡ none
  unfolding remaining_in
  remaining_in-none d limit period now v e =
      let g = get_bucket_lem D M h d limit period now v.buckets in rw (g.0, e) refl

  same_bytes : (j d : Bytes) → M.same j d ≡ eq_bytes j d
  same_bytes j d = ground (arith, h.same_iff j d, eq_bytes_iff j d)

  apart_parts : (d j : Bytes) → (part_of d == part_of j) ≡ false → eq_bytes j d ≡ false
  apart_parts d j e = ground (arith, eq_bytes_iff j d)

  view_updated :
      (d : Bytes) (b : Bucket D) (v : Vsthrottle D M) (s : Table D M)
      → v.gc_count ≡ (s.parts (part_of d)).gc_count
      → ((j : Bytes)
          → M.find j v.buckets
            ≡ (if M.same j d then some b else M.find j (s.parts (part_of d)).buckets))
      → view (set_part D M (part_of d) v s)
        ≡ record (view s) { bucket = update D d b (view s).bucket }
  view_updated d b v s c f =
      view-set_part d v s _ (λ j. ground (arith, f j, same_bytes j d, apart_parts d j))
        (λ p. ground (arith, c)) refl

  view_counted :
      (now : D.F) (d : Bytes) (b : Bucket D) (v : Vsthrottle D M) (s : Table D M)
      → v.gc_count ≡ (
          if (s.parts (part_of d)).gc_count + 1 == 1000
          then 0
          else (s.parts (part_of d)).gc_count + 1)
      → ((j : Bytes)
          → let written = (if M.same j d then some b else M.find j (s.parts (part_of d)).buckets) in
            M.find j v.buckets ≡ (
              if (s.parts (part_of d)).gc_count + 1 == 1000
              then survivor D now written
              else written))
      → view (set_part D M (part_of d) v s)
        ≡ counted D now d (record (view s) { bucket = update D d b (view s).bucket })
  unfolding counted
  view_counted now d b v s c f =
      view-set_part d v s _ (λ j. ground (arith, f j, same_bytes j d, apart_parts d j))
        (λ p. ground (arith, c)) refl

  -- What the callers see of the result of a call.
  abbrev pub seen : {A : Type 0} → Option (Table D M × A) → Option (Throttles D × A)
  seen none = none
  seen (some (s, x)) = some (view s, x)

  module _ (do_digest : Bytes → ℤ → D.F → D.F → Bytes) where
    view-denied :
        (key : Bytes) (limit : ℤ) (period block now : D.F) (s : Table D M)
        → seen (vmod_is_denied D M do_digest (some key) limit period block now s)
          ≡ spec_denied D (do_digest key limit period block) limit period block now (view s)
    unfolding vmod_is_denied spec_denied
    view-denied key limit period block now s =
        let d = do_digest key limit period block in
        let v = s.parts (part_of d) in
        elim (Option-cases
          (throttle D block now (bucket_for D (M.find d v.buckets) limit period now))) [
            | inl e ↦ rw (e, denied_in-none d limit period block now v e) refl
            | inr ((b, denied), e) ↦
                let (v', q, c, f) = denied_in_lem D M h d limit period block now v b denied e in
                rw (e, q)
                  (ap (λ (a : Throttles D). some (a, denied)) (view_counted now d b v' s c f))
          ]

    view-remaining :
        (key : Bytes) (limit : ℤ) (period block now : D.F) (s : Table D M)
        → seen (vmod_remaining D M do_digest (some key) limit period block now s)
          ≡ spec_remaining D (do_digest key limit period block) limit period now (view s)
    unfolding vmod_remaining spec_remaining
    view-remaining key limit period block now s =
        let d = do_digest key limit period block in
        let v = s.parts (part_of d) in
        elim (Option-cases
          (calc_tokens D (bucket_for D (M.find d v.buckets) limit period now) now)) [
            | inl e ↦ rw (e, remaining_in-none d limit period now v e) refl
            | inr (b, e) ↦
                let (v', q, c, f) = remaining_in_lem D M h d limit period now v b e in
                rw (e, q)
                  (ap (λ (a : Throttles D). some (a, pos (to_unsigned b.tokens)))
                    (view_updated d b v' s c f))
          ]

    view-blocked :
        (minus_one : D.F) (key : Bytes) (limit : ℤ) (period block now : D.F) (s : Table D M)
        → (let r = vmod_blocked D M do_digest minus_one (some key) limit period block now s in
            (view r.0, r.1))
          ≡ spec_blocked D (do_digest key limit period block) limit period now (view s)
    unfolding vmod_blocked blocked_in spec_blocked
    view-blocked minus_one key limit period block now s =
        let d = do_digest key limit period block in
        let v = s.parts (part_of d) in
        let (e, f) = get_bucket_lem D M h d limit period now v.buckets in
        let g = get_bucket D M d limit period now v.buckets in
        let w : Vsthrottle D M = record v { buckets = g.1 } in
        let seen_there = view_updated d _ w s refl f in cc (seen_there, e)

  remove_all-none :
      (l : List (Bytes × Bucket D)) (j : Bytes) (t : M.T)
      → M.find j t ≡ none
      → M.find j (remove_all D M l t) ≡ none
  unfolding remove_all
  remove_all-none [] j t e = e
  remove_all-none ((d, x) ∷ l) j t e = remove_all-none l j _ (ground (arith, h.find-remove j d t))

  remove_all-Listed :
      (l : List (Bytes × Bucket D)) (j : Bytes) (b : Bucket D) (t : M.T)
      → Listed j b l
      → M.find j (remove_all D M l t) ≡ none
  unfolding remove_all
  remove_all-Listed [] j b t m = absurd m
  remove_all-Listed ((d, x) ∷ l) j b t (inr m) = remove_all-Listed l j b _ m
  remove_all-Listed ((d, x) ∷ l) j b t (inl (q, _)) =
      remove_all-none l j _ (ground (arith, h.find-remove j d t, h.same_iff j d))

  find-remove_all : (j : Bytes) (t : M.T) → M.find j (remove_all D M (M.walk t) t) ≡ none
  find-remove_all j t = elim (Option-cases (M.find j t)) [
    | inl e ↦ remove_all-none (M.walk t) j t e
    | inr (b, e) ↦ remove_all-Listed (M.walk t) j b t ((h.walk_iff j b t).1 e)
  ]

  view-load : (s : Table D M) → view (event_load D M s) ≡ spec_load D (view s)
  unfolding event_load spec_load
  view-load s =
      let gone : (λ (j : Bytes). M.find j M.empty) ≡ nothing D = fun_ext λ j. h.find-empty j in
      elim (Bool-cases (s.n_init == 0)) [ inl e ↦ rw e (cc gone) | inr e ↦ rw e refl ]

  -- fini() and the assertion in it
  view-fini : (s : Table D M) → (fini D M s >>= λ s'. some (view s')) ≡ spec_fini D (view s)
  unfolding fini spec_fini
  view-fini s =
      let gone : (λ (j : Bytes).
        M.find j
          (remove_all D M (M.walk (s.parts (part_of j)).buckets) (s.parts (part_of j)).buckets))
          ≡ nothing D =
        fun_ext λ j. find-remove_all j (s.parts (part_of j)).buckets in
      elim (Bool-cases (ltb 0 s.n_init)) [
        | inr e ↦ rw e refl
        | inl e ↦ elim (Bool-cases (s.n_init - 1 == 0)) [
          | inl k ↦ rw (e, k) (cc gone)
          | inr k ↦ rw (e, k) refl
        ]
      ]

  seen-labelled :
      {A B : Type 0} (f : A → B) (r : Option (Table D M × A)) (o : Option (Throttles D × A))
      → seen r ≡ o
      → seen (r >>= λ x. some (x.0, f x.1)) ≡ (o >>= λ x. some (x.0, f x.1))
  seen-labelled f none o e = rw (← e) refl
  seen-labelled f (some (s, x)) o e = rw (← e) refl

  seen-then :
      {A : Type 0} (x : A) (r : Option (Table D M × List A)) (o : Option (Throttles D × List A))
      → seen r ≡ o
      → seen (r >>= λ q. some (q.0, x ∷ q.1)) ≡ (o >>= λ q. some (q.0, x ∷ q.1))
  seen-then x r o e = seen-labelled (λ l. x ∷ l) r o e

  module _ (do_digest : Bytes → ℤ → D.F → D.F → Bytes) (minus_one : D.F) where
    pub perform-view :
        (c : Call D) (s : Table D M)
        → seen (perform D do_digest minus_one M c s) ≡ spec D do_digest minus_one c (view s)
    unfolding perform spec
    perform-view (asks_denied none limit period block now) s = unfold vmod_is_denied in refl
    perform-view (asks_denied (some key) limit period block now) s =
        seen-labelled is_denied _ _ (view-denied do_digest key limit period block now s)
    perform-view (asks_remaining none limit period block now) s = unfold vmod_remaining in refl
    perform-view (asks_remaining (some key) limit period block now) s =
        seen-labelled remaining _ _ (view-remaining do_digest key limit period block now s)
    perform-view (asks_blocked none limit period block now) s = unfold vmod_blocked in refl
    perform-view (asks_blocked (some key) limit period block now) s =
        ap (λ (r : Throttles D × D.F). some (r.0, blocked_for r.1))
          (view-blocked do_digest minus_one key limit period block now s)
    perform-view loads s = ap (λ (a : Throttles D). some (a, no_answer)) (view-load s)
    perform-view discards s = elim (Option-cases (fini D M s)) [
      | inl e ↦ rw (← view-fini s, e) refl
      | inr (s', e) ↦ rw (← view-fini s, e) refl
    ]

    -- With a tree that is a finite map, for every sequence of calls of the module, and of loads and
    -- discards of a VCL: the sixteen trees, with their collector, give the answers that a single
    -- function from digests to buckets gives, fail in the same assertions, and show the same buckets,
    -- counts and users afterwards.
    pub performs-Refines :
        (cs : List (Call D)) (s : Table D M)
        → seen (performs D do_digest minus_one M cs s) ≡ specs D do_digest minus_one cs (view s)
    unfolding performs specs
    performs-Refines [] s = refl
    performs-Refines (c ∷ cs) s =
        let e = perform-view c s in
        elim (Option-cases (perform D do_digest minus_one M c s)) [
          | inl k ↦ rw (← e, k) refl
          | inr ((s', x), k) ↦ rw (← e, k) (seen-then x _ _ (performs-Refines cs s'))
        ]
