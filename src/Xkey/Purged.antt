-- ===== src/Xkey/Purged.antt =====
-- What a purge does over an index that stands for a list of associations.
use operations_debs_varnish.Base.{
  ℕ, ◌+◌, Bool, true, false, not, List, [], ◌∷◌, some, ◌≡◌, ◌≢◌, refl, sym, ap, ◌∙◌, inl, inr,
  arith, if◌then◌else◌, Bytes, keep, length, Bool-cases,
}
use operations_debs_varnish.Tree.{Tree, IsMap}
use operations_debs_varnish.Xkey.Index.{Oc, Xkey, xkey_cb_remove}
use operations_debs_varnish.Xkey.Tokens.{tokens, tokens_total}
use operations_debs_varnish.Xkey.Purge.{
  Objects, purge, vmod_purge, purge_words, purge_ocs, purge_oc,
}
use operations_debs_varnish.Xkey.Refines.{Refines, has_digest, has_objcore, ocs_of-filled}
use operations_debs_varnish.Xkey.Remove.{others, xkey_cb_remove-Refines}

module _ (B : Objects) (H : Tree Bytes (List Oc)) (O : Tree ℕ (List Oc)) (h : IsMap H) (o : IsMap O)
    (sha256 : Bytes → Bytes) where
  -- A purge told by the associations alone.
  abbrev pub purge_pairs : Bool → B.Time → List Oc → List Bytes → B.Store × ℕ → B.Store × ℕ
  purge_pairs do_soft now l [] r = r
  purge_pairs do_soft now l (w ∷ ws) r =
      purge_pairs do_soft now l ws (purge_ocs B do_soft now (keep (has_digest (sha256 w)) l) r)

  purge_words-pairs :
      (do_soft : Bool) (now : B.Time) (x : Xkey H O) (l : List Oc) (ws : List Bytes)
      (r : B.Store × ℕ)
      → Refines H O h o x l
      → purge_words B H O sha256 do_soft now x ws r ≡ purge_pairs do_soft now l ws r
  unfolding purge_words
  purge_words-pairs do_soft now x l [] r f = refl
  purge_words-pairs do_soft now x l (w ∷ ws) r f =
      rw (f.by_digest (sha256 w), ocs_of-filled) (purge_words-pairs do_soft now x l ws _ f)

  -- Over trees that are finite maps, with an index that stands for a list of associations,
  -- purge() of a key that is not empty reads it to its end, as words, and visits for each word,
  -- in order, the objects that are associated with its digest, oldest association first.
  pub purge-Refines :
      (do_soft : Bool) (now : B.Time) (x : Xkey H O) (l : List Oc) (key : Bytes) (s : B.Store)
      → Refines H O h o x l
      → key ≢ []
      → (ws : List Bytes) × (tokens key ≡ some ws)
        × (purge B H O sha256 do_soft now x (some key) s
            ≡ some (purge_pairs do_soft now l ws (s, 0)))
  unfolding purge
  purge-Refines do_soft now x l [] s f ne = absurd (ne refl)
  purge-Refines do_soft now x l (c ∷ key) s f ne =
      let (ws, e, _) = tokens_total (c ∷ key) in
      (ws, e, rw (e, purge) (ap some (purge_words-pairs do_soft now x l ws (s, 0) f)))

  purge_oc-keeps :
      (P : B.Store → Type 0) (ptr : ℕ)
      → ((q : ℕ) (now ttl grace stale : B.Time) (s : B.Store)
          → q ≢ ptr
          → P s
          → P (B.rearm q now ttl grace stale s))
      → (do_soft : Bool) (now : B.Time) (q : ℕ) (r : B.Store × ℕ) → q ≢ ptr
      → P r.0
      → P (purge_oc B do_soft now q r).0
  unfolding purge_oc
  purge_oc-keeps P ptr k false now q (s, i) ne p = elim (Bool-cases (B.busy s q)) [
    | inl e ↦ rw e p
    | inr e ↦ rw e (k q _ _ _ _ s ne p)
  ]
  purge_oc-keeps P ptr k true now q (s, i) ne p = elim (Bool-cases (B.busy s q)) [
    | inl e ↦ rw e p
    | inr e ↦ elim (Bool-cases (B.le_time (B.ttl s q) (B.minus now (B.t_origin s q)))) [
      | inl e' ↦ rw (e, e') p
      | inr e' ↦ rw (e, e') (k q _ _ _ _ s ne p)
    ]
  ]

  -- What the rearming of other objects keeps, a visit of other objects keeps.
  purge_ocs-others :
      (P : B.Store → Type 0) (ptr : ℕ)
      → ((q : ℕ) (now ttl grace stale : B.Time) (s : B.Store)
          → q ≢ ptr
          → P s
          → P (B.rearm q now ttl grace stale s))
      → (do_soft : Bool) (now : B.Time) (d : Bytes) (l : List Oc) (r : B.Store × ℕ) → P r.0
      → P (purge_ocs B do_soft now (keep (has_digest d) (others ptr l)) r).0
  unfolding purge_ocs
  purge_ocs-others P ptr k do_soft now d [] r p = p
  purge_ocs-others P ptr k do_soft now d (c ∷ l) r p = elim (Bool-cases (has_objcore ptr c)) [
    | inl e ↦ rw e (purge_ocs-others P ptr k do_soft now d l r p)
    | inr e ↦ elim (Bool-cases (has_digest d c)) [
      | inr e' ↦ rw (e, e') (purge_ocs-others P ptr k do_soft now d l r p)
      | inl e' ↦
          rw (e, e')
            (purge_ocs-others P ptr k do_soft now d l (purge_oc B do_soft now c.objcore r)
              (purge_oc-keeps P ptr k do_soft now c.objcore r (λ q. ground (arith, e)) p))
    ]
  ]

  purge_pairs-others :
      (P : B.Store → Type 0) (ptr : ℕ)
      → ((q : ℕ) (now ttl grace stale : B.Time) (s : B.Store)
          → q ≢ ptr
          → P s
          → P (B.rearm q now ttl grace stale s))
      → (do_soft : Bool) (now : B.Time) (l : List Oc) (ws : List Bytes) (r : B.Store × ℕ) → P r.0
      → P (purge_pairs do_soft now (others ptr l) ws r).0
  purge_pairs-others P ptr k do_soft now l [] r p = p
  purge_pairs-others P ptr k do_soft now l (w ∷ ws) r p =
      purge_pairs-others P ptr k do_soft now l ws
        (purge_ocs B do_soft now (keep (has_digest (sha256 w)) (others ptr l)) r)
        (purge_ocs-others P ptr k do_soft now (sha256 w) l r p)

  -- Over trees that are finite maps, with an index that stands for a list of associations, an
  -- object that has left the cache is not touched by a purge of a key that is not empty: what
  -- the rearming of every other object keeps, the purge keeps, and it gives a result.
  pub purge-cb_remove :
      (P : B.Store → Type 0) (ptr : ℕ)
      → ((q : ℕ) (now ttl grace stale : B.Time) (s : B.Store)
          → q ≢ ptr
          → P s
          → P (B.rearm q now ttl grace stale s))
      → (do_soft : Bool) (now : B.Time) (x : Xkey H O) (l : List Oc) (key : Bytes) (s : B.Store)
      → Refines H O h o x l
      → key ≢ []
      → P s
      → (r : B.Store × ℕ) × (purge B H O sha256 do_soft now (xkey_cb_remove H O ptr x) (some key) s
          ≡ some r)
        × P r.0
  purge-cb_remove P ptr k do_soft now x l key s f ne p =
      let (ws, _, e) =
        purge-Refines do_soft now _ _ key s (xkey_cb_remove-Refines H O h o ptr x l f) ne in
      (_, e, purge_pairs-others P ptr k do_soft now l ws (s, 0) p)

  -- How many of the associations with a word belong to objects that are not busy.
  abbrev pub idle_pairs : B.Store → List Oc → List Bytes → ℕ
  idle_pairs s l [] = 0
  idle_pairs s l (w ∷ ws) =
      length (keep (λ c. not (B.busy s c.objcore)) (keep (has_digest (sha256 w)) l))
      + idle_pairs s l ws

  module _
      (busy_rearm : (q p : ℕ) (now ttl grace stale : B.Time) (s : B.Store)
        → B.busy (B.rearm q now ttl grace stale s) p ≡ B.busy s p) where
    purge_oc_count :
        (now : B.Time) (q : ℕ) (s0 : B.Store) (r : B.Store × ℕ)
        → ((p : ℕ) → B.busy r.0 p ≡ B.busy s0 p)
        → ((p : ℕ) → B.busy (purge_oc B false now q r).0 p ≡ B.busy s0 p)
          × ((purge_oc B false now q r).1 ≡ (if not (B.busy s0 q) then r.1 + 1 else r.1))
    unfolding purge_oc
    purge_oc_count now q s0 (s, i) k = elim (Bool-cases (B.busy s q)) [
      | inl e ↦ rw e (k, rw (sym (k q) ∙ e))
      | inr e ↦ rw e (λ p. busy_rearm q p _ _ _ _ s ∙ k p, rw (sym (k q) ∙ e))
    ]

    purge_ocs-cons :
        (now : B.Time) (c : Oc) (os : List Oc) (r : B.Store × ℕ)
        → (purge_ocs B false now (c ∷ os) r)
          ≡ (purge_ocs B false now os (purge_oc B false now c.objcore r))
    unfolding purge_ocs
    purge_ocs-cons now c os r = refl

    purge_ocs_count :
        (now : B.Time) (s0 : B.Store) (os : List Oc) (r : B.Store × ℕ)
        → ((p : ℕ) → B.busy r.0 p ≡ B.busy s0 p)
        → ((p : ℕ) → B.busy (purge_ocs B false now os r).0 p ≡ B.busy s0 p)
          × ((purge_ocs B false now os r).1
              ≡ r.1 + length (keep (λ c. not (B.busy s0 c.objcore)) os))
    purge_ocs_count now s0 [] r k = unfold purge_ocs in (k, omega arith)
    purge_ocs_count now s0 (c ∷ os) r k =
        let one = purge_oc_count now c.objcore s0 r k in
        let rest = purge_ocs_count now s0 os (purge_oc B false now c.objcore r) one.0 in
        (
          λ p. rw (purge_ocs-cons now c os r) (rest.0 p),
          rw (purge_ocs-cons now c os r) (ground (arith, one.1, rest.1)),
        )

    purge_pairs_count :
        (now : B.Time) (s0 : B.Store) (l : List Oc) (ws : List Bytes) (r : B.Store × ℕ)
        → ((p : ℕ) → B.busy r.0 p ≡ B.busy s0 p)
        → (purge_pairs false now l ws r).1 ≡ r.1 + idle_pairs s0 l ws
    purge_pairs_count now s0 l [] r k = omega arith
    purge_pairs_count now s0 l (w ∷ ws) r k =
        let one = purge_ocs_count now s0 (keep (has_digest (sha256 w)) l) r k in
        purge_pairs_count now s0 l ws (purge_ocs B false now (keep (has_digest (sha256 w)) l) r)
          one.0
        ∙ omega (arith, one.1)

  -- Over trees that are finite maps, with an index that stands for a list of associations, and
  -- where rearming makes no object busy or idle, vmod_purge() of a key that is not empty returns
  -- the number of associations of the words of the key with objects that are not busy.
  pub vmod_purge_count :
      ((q p : ℕ) (now ttl grace stale : B.Time) (s : B.Store)
        → B.busy (B.rearm q now ttl grace stale s) p ≡ B.busy s p)
      → (now : B.Time) (x : Xkey H O) (l : List Oc) (key : Bytes) (s : B.Store)
      → Refines H O h o x l
      → key ≢ []
      → (ws : List Bytes) × (r : B.Store × ℕ) × (tokens key ≡ some ws)
        × (vmod_purge B H O sha256 now x (some key) s ≡ some r)
        × (r.1 ≡ idle_pairs s l ws)
  unfolding vmod_purge
  vmod_purge_count k now x l key s f ne =
      let (ws, e, q) = purge-Refines false now x l key s f ne in
      (
        ws,
        purge_pairs false now l ws (s, 0),
        e,
        q,
        purge_pairs_count k now s l ws (s, 0) (λ p. refl) ∙ omega arith,
      )
