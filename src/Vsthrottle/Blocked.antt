-- ===== src/Vsthrottle/Blocked.antt =====
-- A key of src/vmod_vsthrottle.c that has used up its tokens, with a block, among the requests of others.
use mathlib.Core.Path.{subst}
use operations_debs_varnish.Base.{
  ◌≡◌, refl, sym, ap, ◌∙◌, inl, inr, Bool, true, false, List, [], ◌∷◌, ◌++◌, map, Option, none,
  some, All, Bool-cases, Option-cases, Bytes, eq_bytes, eq_bytes_iff,
}
use operations_debs_varnish.Base.Int.{ℤ, pos, ltb_ℤ}
use operations_debs_varnish.Tree.{Tree, IsMap}
use operations_debs_varnish.Vsthrottle.Double.{Double, IsDouble}
use operations_debs_varnish.Vsthrottle.Bucket.{Bucket, calc_tokens}
use operations_debs_varnish.Vsthrottle.Table.{Table}
use operations_debs_varnish.Vsthrottle.Collect.{bucket_for}
use operations_debs_varnish.Vsthrottle.Spec.{
  Throttles, Answer, is_denied, asks_denied, spec, specs, spec_denied, spec_remaining, spec_blocked,
  perform, performs,
}
use operations_debs_varnish.Vsthrottle.Refines.{view, seen, perform-view, performs-Refines}
use operations_debs_varnish.Vsthrottle.Pending.{
  Question, of_denied, of_remaining, of_blocked, Request, asks, as_call, AreWithin, Holds,
}
use operations_debs_varnish.Vsthrottle.Held.{
  denied_own, denied_other, remaining-Holds, blocked-Holds, denied_exceeded,
}

module _ (D : Double) where
  pub seen-some :
      {A : Type 0} (M : Tree Bytes (Bucket D)) (t : IsMap M) (r : Option (Table D M × A))
      (a : Throttles D) (x : A)
      → seen D M t r ≡ some (a, x)
      → (s : Table D M) × (r ≡ some (s, x))
  seen-some M t none a x e = absurd (cc e)
  seen-some M t (some (s, y)) a x e = (s, cc e)

  module _ (do_digest : Bytes → ℤ → D.F → D.F → Bytes) (minus_one : D.F) where
    abbrev pub digest_of_request : Request D → Bytes
    digest_of_request r = do_digest r.key r.limit r.period r.block

    module _ (d : IsDouble D) (i : Bytes) (end : D.F) where
      spec-Holds :
          (q : Question) (key : Bytes) (limit : ℤ) (period block now : D.F) (ts : List D.F)
          (a a' : Throttles D) (x : Answer D)
          → D.lt_f now end ≡ true
          → (do_digest key limit period block ≡ i → D.lt_f D.zero_f block ≡ true)
          → Holds D end (now ∷ ts) (a.bucket i)
          → spec D do_digest minus_one (asks D q (some key) limit period block now) a ≡ some (a', x)
          → Holds D end ts (a'.bucket i)
      unfolding spec
      spec-Holds of_denied key limit period block now ts a a' x l own h e =
          let j = do_digest key limit period block in
          elim (Option-cases (spec_denied D j limit period block now a)) [
            | inl k ↦ absurd (let r = rw k at e in cc r)
            | inr ((a1, y), k) ↦
                let r = rw k at e in
                let same : a1 ≡ a' = cc r in
                subst (λ (z : Throttles D). (Holds D) end ts (z.bucket i)) same
                  (elim (Bool-cases (eq_bytes i j)) [
                    | inr ne ↦ denied_other D d i end now ts j limit period block a a1 y ne h k
                    | inl eq ↦
                        let mine : i ≡ j = (eq_bytes_iff i j).0 eq in
                        let (a2, q, g) =
                          denied_own D d i end now ts limit period block a (own (sym mine)) l h in
                        let found : spec_denied D i limit period block now a ≡ some (a1, y) =
                          rw mine k in
                        let again : a2 ≡ a1 = cc (q, found) in
                        subst (λ (z : Throttles D). (Holds D) end ts (z.bucket i)) again g
                  ])
          ]
      spec-Holds of_remaining key limit period block now ts a a' x l own h e =
          let j = do_digest key limit period block in
          elim (Option-cases (spec_remaining D j limit period now a)) [
            | inl k ↦ absurd (let r = rw k at e in cc r)
            | inr ((a1, y), k) ↦
                let r = rw k at e in
                let same : a1 ≡ a' = cc r in
                subst (λ (z : Throttles D). (Holds D) end ts (z.bucket i)) same
                  (remaining-Holds D d i end now ts j limit period a a1 y h k)
          ]
      spec-Holds of_blocked key limit period block now ts a a' x l own h e =
          let j = do_digest key limit period block in
          let same : (spec_blocked D j limit period now a).0 ≡ a' = cc e in
          subst (λ (z : Throttles D). (Holds D) end ts (z.bucket i)) same
            (blocked-Holds D d i end now ts j limit period a h)

      specs-Holds :
          (rs : List (Request D)) (us : List D.F) (a a' : Throttles D) (xs : List (Answer D))
          → All (λ r. D.lt_f r.now end ≡ true) rs
          → All (λ r. digest_of_request r ≡ i → D.lt_f D.zero_f r.block ≡ true) rs
          → Holds D end (map (λ r. r.now) rs ++ us) (a.bucket i)
          → specs D do_digest minus_one (map (as_call D) rs) a ≡ some (a', xs)
          → Holds D end us (a'.bucket i)
      unfolding specs
      specs-Holds [] us a a' xs l own h e =
          let same : a ≡ a' = cc e in
          subst (λ (z : Throttles D). (Holds D) end us (z.bucket i)) same h
      specs-Holds (r ∷ rs) us a a' xs l own h e =
          elim (Option-cases (spec D do_digest minus_one (as_call D r) a)) [
            | inl k ↦ absurd (let q = rw k at e in cc q)
            | inr ((a1, x), k) ↦
                let q = rw k at e in
                let h1 =
                  spec-Holds r.question r.key r.limit r.period r.block r.now _ a a1 x l.0 own.0 h
                    k in
                elim (Option-cases (specs D do_digest minus_one (map (as_call D) rs) a1)) [
                  | inl k' ↦ absurd (let q' = rw k' at q in cc q')
                  | inr ((a2, ys), k') ↦
                      let q' = rw k' at q in
                      let same : a2 ≡ a' = cc q' in
                      subst (λ (z : Throttles D). (Holds D) end us (z.bucket i)) same
                        (specs-Holds rs us a1 a2 ys l.1 own.1 h1 k')
                ]
          ]

    pub spec_is_denied :
        (key : Bytes) (limit : ℤ) (period block now : D.F) (a a' : Throttles D) (x : Bool)
        → spec_denied D (do_digest key limit period block) limit period block now a ≡ some (a', x)
        → spec D do_digest minus_one (asks_denied (some key) limit period block now) a
          ≡ some (a', is_denied x)
    unfolding spec
    spec_is_denied key limit period block now a a' x e = rw e refl

    first_denied :
        (i key : Bytes) (limit : ℤ) (period block now : D.F) (rs : List (Request D))
        (a a1 a' : Throttles D) (xs : List (Answer D))
        → i ≡ do_digest key limit period block
        → spec_denied D i limit period block now a ≡ some (a1, true)
        → specs D do_digest minus_one
            (asks_denied (some key) limit period block now ∷ map (as_call D) rs)
            a
          ≡ some (a', xs)
        → (ys : List (Answer D)) × (xs ≡ is_denied true ∷ ys)
          × (specs D do_digest minus_one (map (as_call D) rs) a1 ≡ some (a', ys))
    unfolding specs
    first_denied i key limit period block now rs a a1 a' xs k e q =
        let first = spec_is_denied key limit period block now a a1 true (rw (← k) e) in
        let r = rw first at q in
        elim (Option-cases (specs D do_digest minus_one (map (as_call D) rs) a1)) [
          | inl z ↦ absurd (let v = rw z at r in cc v)
          | inr ((a2, ys), z) ↦ let v = rw z at r in (ys, cc v, z ∙ cc v)
        ]

    -- With a tree that is a finite map and doubles with the laws of IsDouble. A request with a block above
    -- zero finds no block pending and no token at the instant `start`, and the module answers it and any
    -- requests after it, of this key and of others, at instants before start + block: then it denies the
    -- first one, and the next request with the same arguments, before start + block, is answered and
    -- denied as well, whatever the bucket has earned meanwhile and however often the collector ran.
    -- Each of these instants is not before an earlier one or the last use of the bucket, not more than
    -- the period of the bucket behind it, so that the collector leaves the bucket, and near enough for a
    -- long to hold what is earned between. The period of the bucket is positive, and a request with
    -- the same digest has a block above zero.
    pub perform-performs :
        (M : Tree Bytes (Bucket D)) (t : IsMap M) (d : IsDouble D) (key : Bytes) (limit : ℤ)
        (period block start now : D.F) (rs : List (Request D)) (s s' : Table D M)
        (xs : List (Answer D)) (b c : Bucket D)
        (uses : bucket_for D
            ((view D M t s).bucket (do_digest key limit period block))
            limit
            period
            start
          ≡ b)
        (positive : D.lt_f D.zero_f b.period ≡ true)
        (close : AreWithin D b.period b.capacity b.last_used
          (start ∷ (map (λ r. r.now) rs ++ (now ∷ []))))
        (filled : calc_tokens D b start ≡ some c) (spent : ltb_ℤ (pos 0) c.tokens ≡ false)
        (has_block : D.lt_f D.zero_f block ≡ true) (free : D.lt_f start b.block ≡ false)
        (before : All (λ r. D.lt_f r.now (D.plus start block) ≡ true) rs)
        (now_before : D.lt_f now (D.plus start block) ≡ true)
        (own : All
          (λ r.
            digest_of_request r ≡ do_digest key limit period block → D.lt_f D.zero_f r.block ≡ true)
          rs)
        (answered : performs D do_digest minus_one M
            (asks_denied (some key) limit period block start ∷ map (as_call D) rs)
            s
          ≡ some (s', xs))
        → (s'' : Table D M) × (ys : List (Answer D)) × (xs ≡ is_denied true ∷ ys)
          × (perform D do_digest minus_one M (asks_denied (some key) limit period block now) s'
              ≡ some (s'', is_denied true))
    perform-performs M t d key limit period block start now rs s s' xs b c uses positive close
          filled spent has_block free before now_before own answered =
        let i = do_digest key limit period block in
        let end = D.plus start block in
        let us = map (λ r. r.now) rs ++ (now ∷ []) in
        let cs = asks_denied (some key) limit period block start ∷ map (as_call D) rs in
        let all : specs D do_digest minus_one cs (view D M t s) ≡ some (view D M t s', xs) =
          sym (performs-Refines D M t do_digest minus_one cs s) ∙ ap (seen D M t) answered in
        let (a1, e, h) =
          denied_exceeded D d i limit period block start us (view D M t s) b c uses positive close
            filled spent has_block free in
        let (ys, q, r) = first_denied i key limit period block start rs _ a1 _ xs refl e all in
        let h' = specs-Holds d i end rs (now ∷ []) a1 (view D M t s') ys before own h r in
        let (a2, k, _) =
          denied_own D d i end now [] limit period block (view D M t s') has_block now_before h' in
        let (s'', p) = seen-some M t _ a2 (is_denied true) (
          perform-view D M t do_digest minus_one (asks_denied (some key) limit period block now) s'
          ∙ spec_is_denied key limit period block now (view D M t s') a2 true k) in
        (s'', ys, q, p)
