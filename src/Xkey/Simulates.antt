-- ===== src/Xkey/Simulates.antt =====
-- The threads in src/vmod_xkey.c against what the module promises: a list of pairs of a digest and an
-- object, that every insertion, removal and purge takes as a whole.
use mathlib.Core.List.{map-append}
use operations_debs_varnish.Base.{
  ℕ, Bool, List, [], ◌∷◌, ◌++◌, map, none, some, ◌≡◌, ◌≢◌, refl, sym, ap, ◌∙◌, arith, if◌then◌else◌,
  Bytes, eq_bytes, ◌==◌, keep,
}
use operations_debs_varnish.Tree.{Tree, IsMap}
use operations_debs_varnish.Xkey.Index.{Oc, Xkey, xkey_insert, xkey_cb_remove}
use operations_debs_varnish.Xkey.Tokens.{tokens}
use operations_debs_varnish.Xkey.Purge.{Objects, purge, purge_oc, purge_ocs}
use operations_debs_varnish.Xkey.Purged.{purge_pairs, purge-Refines}
use operations_debs_varnish.Xkey.Refines.{Refines, has_digest, xkey_insert-Refines}
use operations_debs_varnish.Xkey.Remove.{others, xkey_cb_remove-Refines}
use operations_debs_varnish.Xkey.Headers.{Keys, pairs}
use operations_debs_varnish.Xkey.History.{pairs_of_others, pairs-others}
use operations_debs_varnish.Xkey.Threads.{Thread, World, Action, enter, insert, remove, purge_by}

module _ (B : Objects) (sha256 : Bytes → Bytes) where
  -- The objects that are paired with a digest, in order.
  abbrev pub objects_of : Bytes → List (Bytes × ℕ) → List ℕ
  objects_of d [] = []
  objects_of d ((c, p) ∷ ps) = if eq_bytes d c then p ∷ objects_of d ps else objects_of d ps

  abbrev pub visit : Bool → B.Time → List ℕ → B.Store × ℕ → B.Store × ℕ
  visit do_soft now [] r = r
  visit do_soft now (p ∷ os) r = visit do_soft now os (purge_oc B do_soft now p r)

  abbrev pub visits : Bool → B.Time → List Bytes → List (Bytes × ℕ) → B.Store × ℕ → B.Store × ℕ
  visits do_soft now [] ps r = r
  visits do_soft now (w ∷ ws) ps r =
      visits do_soft now ws ps (visit do_soft now (objects_of (sha256 w) ps) r)

  module _ (H : Tree Bytes (List Oc)) (O : Tree ℕ (List Oc)) where
    -- The state that callers know of.
    pub record Known : Type 0 where
      pub threads : ℕ → Thread
      pub known_pairs : List (Bytes × ℕ)
      pub store : B.Store

    abbrev pub turn : ℕ → Thread → Known → Known
    turn t i s = record s { threads = λ u. if u == t then i else s.threads u }

    -- What each action does to it.
    pub data Does : Action B H O sha256 → Known → Known → Type 0 where
      begins :
          {t p : ℕ} {headers ws : List Bytes} {s s' : Known}
          → (s.threads t).words ≡ []
          → Keys headers ws
          → s' ≡ turn t (record { objcore = p; words = ws }) s
          → Does (enter t headers p) s s'
      pairs_next :
          {t : ℕ} {d : Bytes} {ws : List Bytes} {s s' : Known}
          → (s.threads t).words ≡ d ∷ ws
          → s'
            ≡ turn t
                (record (s.threads t) { words = ws })
                (record s {
                  known_pairs = s.known_pairs ++ ((sha256 d, (s.threads t).objcore) ∷ []);
                })
          → Does (insert t) s s'
      forgets :
          {p : ℕ} {s s' : Known}
          → s' ≡ record s { known_pairs = pairs_of_others p s.known_pairs }
          → Does (remove p) s s'
      visits_none :
          {do_soft : Bool} {now : B.Time} {s s' : Known}
          → s' ≡ s
          → Does (purge_by do_soft now none) s s'
      visits_nothing :
          {do_soft : Bool} {now : B.Time} {s s' : Known}
          → s' ≡ s
          → Does (purge_by do_soft now (some [])) s s'
      visits_each :
          {do_soft : Bool} {now : B.Time} {key : Bytes} {ws : List Bytes} {s s' : Known}
          → key ≢ []
          → tokens key ≡ some ws
          → s' ≡ record s { store = (visits do_soft now ws s.known_pairs (s.store, 0)).0 }
          → Does (purge_by do_soft now (some key)) s s'

    pub data DoesAll : List (Action B H O sha256) → Known → Known → Type 0 where
      rests : {s : Known} → DoesAll [] s s
      then_does :
          {a : Action B H O sha256} {acts : List (Action B H O sha256)} {s s1 s2 : Known}
          → Does a s s1
          → DoesAll acts s1 s2
          → DoesAll (a ∷ acts) s s2

    -- A world, with pairs in place of its index
    abbrev pub known : World B H O sha256 → List (Bytes × ℕ) → Known
    known w ps = record { threads = w.threads; known_pairs = ps; store = w.store }

    module _ (h : IsMap H) (o : IsMap O) where
      -- The index stands for these pairs.
      abbrev pub Shows : Xkey H O → List (Bytes × ℕ) → Type 0
      Shows x ps = (l : List Oc) × Refines H O h o x l × (pairs l ≡ ps)

      objects_of-keep :
          (d : Bytes) (l : List Oc)
          → objects_of d (pairs l) ≡ map (λ (c : Oc). c.objcore) (keep (has_digest d) l)
      objects_of-keep d [] = refl
      objects_of-keep d (c ∷ l) = ground (arith, objects_of-keep d l)

      visit-map :
          (do_soft : Bool) (now : B.Time) (os : List Oc) (r : B.Store × ℕ)
          → visit do_soft now (map (λ (c : Oc). c.objcore) os) r ≡ purge_ocs B do_soft now os r
      unfolding purge_ocs
      visit-map do_soft now [] r = refl
      visit-map do_soft now (c ∷ os) r =
          visit-map do_soft now os (purge_oc B do_soft now c.objcore r)

      visits-pairs :
          (do_soft : Bool) (now : B.Time) (l : List Oc) (ws : List Bytes) (r : B.Store × ℕ)
          → visits do_soft now ws (pairs l) r ≡ purge_pairs B H O h o sha256 do_soft now l ws r
      visits-pairs do_soft now l [] r = refl
      visits-pairs do_soft now l (w ∷ ws) r =
          rw
            (objects_of-keep (sha256 w) l, visit-map do_soft now (keep (has_digest (sha256 w)) l) r)
            (visits-pairs do_soft now l ws _)

      pub Shows-insert :
          (x : Xkey H O) (p : ℕ) (d : Bytes) (ps : List (Bytes × ℕ))
          → Shows x ps
          → (x' : Xkey H O) × (xkey_insert H O p d x ≡ some x') × Shows x' (ps ++ ((d, p) ∷ []))
      Shows-insert x p d ps (l, r, e) =
          let (x', q, r') = xkey_insert-Refines H O h o x l p d r in
          (
            x',
            q,
            (
              _,
              r',
              map-append {B = Bytes × ℕ} (λ (c : Oc). (c.digest, c.objcore)) l _
                  ∙ ap (λ (z : List (Bytes × ℕ)). z ++ ((d, p) ∷ [])) e,
            ),
          )

      pub Shows-remove :
          (x : Xkey H O) (p : ℕ) (ps : List (Bytes × ℕ))
          → Shows x ps
          → Shows (xkey_cb_remove H O p x) (pairs_of_others p ps)
      Shows-remove x p ps (l, r, e) = (
        others p l,
        xkey_cb_remove-Refines H O h o p x l r,
        pairs-others p l ∙ ap (pairs_of_others p) e,
      )

      pub Shows-purge :
          (do_soft : Bool) (now : B.Time) (x : Xkey H O) (ps : List (Bytes × ℕ)) (key : Bytes)
          (s : B.Store)
          → Shows x ps
          → key ≢ []
          → (ws : List Bytes) × (tokens key ≡ some ws)
            × (purge B H O sha256 do_soft now x (some key) s
                ≡ some (visits do_soft now ws ps (s, 0)))
      Shows-purge do_soft now x ps key s (l, r, e) n =
          let (ws, q, k) = purge-Refines B H O h o sha256 do_soft now x l key s r n in
          (
            ws,
            q,
            k
                ∙ ap some (sym (visits-pairs do_soft now l ws (s, 0)))
                ∙ ap (λ (z : List (Bytes × ℕ)). some (visits do_soft now ws z (s, 0))) e,
          )
