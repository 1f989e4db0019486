-- ===== src/Vsthrottle/Rate.antt =====
-- The rate of src/vmod_vsthrottle.c: what the requests of one key pass over time.
use operations_debs_varnish.Base.{
  ◌+◌, ◌≤◌, ◌≡◌, refl, ◌∙◌, inl, inr, Bool, List, [], ◌∷◌, map, some, arith, if◌then◌else◌, Bytes,
}
use operations_debs_varnish.Base.Int.{ℤ, pos_part}
use operations_debs_varnish.Tree.{Tree, IsMap}
use operations_debs_varnish.Vsthrottle.Double.{Double, IsDouble}
use operations_debs_varnish.Vsthrottle.Bucket.{Bucket, accrued}
use operations_debs_varnish.Vsthrottle.Table.{Table}
use operations_debs_varnish.Vsthrottle.Spec.{
  Throttles, Call, Answer, is_denied, asks_denied, update, counted, spec, specs, spec_denied,
  performs,
}
use operations_debs_varnish.Vsthrottle.Refines.{view, performs-Refines}
use operations_debs_varnish.Vsthrottle.Pending.{AreWithin-used, counted_kept}
use operations_debs_varnish.Vsthrottle.Held.{own_bucket}
use operations_debs_varnish.Vsthrottle.Blocked.{spec_is_denied, seen-some}
use operations_debs_varnish.Vsthrottle.Paid.{
  IsPart, none_left, without, with_it, IsEarning, IsLive, IsPaid, tokens_between, tokens_through,
  passed, throttle-IsPaid, used_cases, unexpired_after, share_between, chain_skipped, chain_used,
}

module _ (D : Double) where
  module _ (d : IsDouble D) (earning : IsEarning D) (i : Bytes) (limit : ℤ)
      (period block : D.F) where
    spec_denied-IsPaid :
        (now : D.F) (ts : List D.F) (a : Throttles D) (b : Bucket D)
        → a.bucket i ≡ some b
        → IsLive D (now ∷ ts) b
        → (a' : Throttles D) × (b' : Bucket D) × (denied : Bool) × (spec_denied D i limit period
              block now a
            ≡ some (a', denied))
          × (a'.bucket i ≡ some b')
          × IsLive D ts b'
          × ((share : ℤ) × (tokens_between D b.period b.capacity b.last_used now ≡ pos_part share)
              × IsPaid D now share b b' denied)
    unfolding spec_denied
    spec_denied-IsPaid now ts a b e l =
        let w = l.close.0.0 in
        let n =
          earning.share_nonneg now b.last_used b.period b.capacity w.share w.after l.positive
            l.capacity w.defined in
        let (b', denied, q, h) =
          throttle-IsPaid D block now b w.share w.after (unfold accrued in w.defined) n l.saved
            l.capacity in
        let a1 : Throttles D = record a { bucket = update D i b' a.bucket } in
        let fresh = unexpired_after D d now ts b b' w.share denied l h in
        (
          counted D now i a1,
          b',
          denied,
          rw e (rw q refl),
          counted_kept D now i i a1 b' (own_bucket D i b' a.bucket) fresh,
          record {
            positive = rw h.period l.positive;
            saved = h.saved;
            capacity = rw h.capacity l.capacity;
            close =
                rw (h.period, h.capacity)
                  (AreWithin-used D b.period b.capacity b'.last_used b.last_used now ts
                    (used_cases D now w.share b b' denied h) l.close);
          },
          (w.share, share_between D b.period b.capacity b.last_used now w, h),
        )

    spec_called :
        (do_digest : Bytes → ℤ → D.F → D.F → Bytes) (minus_one : D.F) (key : Bytes) (now : D.F)
        (a a' : Throttles D) (x : Bool)
        → do_digest key limit period block ≡ i
        → spec_denied D i limit period block now a ≡ some (a', x)
        → spec D do_digest minus_one (asks_denied (some key) limit period block now) a
          ≡ some (a', is_denied x)
    spec_called do_digest minus_one key now a a' x k e =
        spec_is_denied D do_digest minus_one key limit period block now a a' x (rw k e)

    -- Requests with one key at these instants
    module _ (do_digest : Bytes → ℤ → D.F → D.F → Bytes) (minus_one : D.F) (key : Bytes)
        (is_digest : do_digest key limit period block ≡ i) where
      abbrev asked : List D.F → List (Call D)
      asked ts = map (λ t. asks_denied (some key) limit period block t) ts

      specs-passed :
          (ts : List D.F) (a : Throttles D) (b : Bucket D)
          → a.bucket i ≡ some b
          → IsLive D ts b
          → (a' : Throttles D) × (xs : List (Answer D)) × (us : List D.F) × (specs D do_digest
                minus_one
                (asked ts)
                a
              ≡ some (a', xs))
            × IsPart us ts
            × (passed D xs
                ≤ pos_part b.tokens + tokens_through D b.period b.capacity b.last_used us)
      unfolding specs
      specs-passed [] a b e l = (a, [], [], refl, none_left, omega arith)
      specs-passed (now ∷ ts) a b e l =
          let (a1, b1, denied, q, e1, l1, (share, k, h)) = spec_denied-IsPaid now ts a b e l in
          let (a2, xs, us, r, part, paid) = specs-passed ts a1 b1 e1 l1 in
          let paid' : passed D xs
              ≤ pos_part b1.tokens + tokens_through D b.period b.capacity b1.last_used us =
            rw (h.period, h.capacity) at paid in
          let called = spec_called do_digest minus_one key now a a1 denied is_digest q in
          let all : specs D do_digest minus_one (asked (now ∷ ts)) a
              ≡ some (a2, is_denied denied ∷ xs) =
            rw called (rw r refl) in
          elim h.paid [
            | inl (u, f) ↦ (
              a2,
              is_denied denied ∷ xs,
              us,
              all,
              without now part,
              chain_skipped D b.period b.capacity now b.last_used b1.last_used ts us (passed D xs)
                  (if denied then 0 else 1) (pos_part b.tokens) (pos_part b1.tokens) 0 u f paid',
            )
            | inr (u, f) ↦ (
              a2,
              is_denied denied ∷ xs,
              now ∷ us,
              all,
              with_it now part,
              chain_used D b.period b.capacity now b.last_used b1.last_used ts us (passed D xs)
                  (if denied then 0 else 1) (pos_part b.tokens) (pos_part b1.tokens)
                  (pos_part share) u k f paid',
            )
          ]

  -- With a tree that is a finite map and doubles with the laws of IsDouble and IsEarning, for a key whose
  -- bucket has no debt, no negative capacity and a positive period, and requests with that key at
  -- instants that do not go backwards, each not more than a period behind the earlier ones and the last
  -- use, and near enough for a long to hold what is earned between: all are answered, and there are some
  -- of the instants such that no more requests are let through than the tokens at the start and
  -- those for the times from the last use to the first of them and from each of them to the next. So no
  -- time is paid for twice, with a block or without, whatever the collector does.
  pub performs-passed :
      (M : Tree Bytes (Bucket D)) (t : IsMap M) (d : IsDouble D) (earning : IsEarning D)
      (do_digest : Bytes → ℤ → D.F → D.F → Bytes) (minus_one : D.F) (key : Bytes) (limit : ℤ)
      (period block : D.F) (ts : List D.F) (s : Table D M) (b : Bucket D)
      (stored : (view D M t s).bucket (do_digest key limit period block) ≡ some b)
      (live : IsLive D ts b)
      → (s' : Table D M) × (xs : List (Answer D)) × (us : List D.F) × (performs D do_digest
            minus_one M
            (map (λ now. asks_denied (some key) limit period block now) ts)
            s
          ≡ some (s', xs))
        × IsPart us ts
        × (passed D xs ≤ pos_part b.tokens + tokens_through D b.period b.capacity b.last_used us)
  performs-passed M t d earning do_digest minus_one key limit period block ts s b stored live =
      let i = do_digest key limit period block in
      let (a, xs, us, e, part, paid) =
        specs-passed d earning i limit period block do_digest minus_one key refl ts (view D M t s) b
          stored live in
      let (s', q) =
        seen-some D M t
          (performs D do_digest minus_one M
            (map (λ now. asks_denied (some key) limit period block now) ts) s)
          a xs (performs-Refines D M t do_digest minus_one _ s ∙ e) in
      (s', xs, us, q, part, paid)
