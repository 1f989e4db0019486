-- ===== src/Xkey/Headers.antt =====
-- The callbacks, the purges and the clean-up over an index that stands for a list of associations.
use mathlib.Core.List.{append_assoc, append-nil, map-append}
use operations_debs_varnish.Base.{
  starts_with_nocase, ℕ, true, false, List, [], ◌∷◌, ◌++◌, map, some, ◌≡◌, refl, sym, ap, ◌∙◌, inl,
  inr, arith, ◌==◌, Bytes, Bool-cases, cut, Cut, missing, found, before, codes,
}
use operations_debs_varnish.Tree.{Tree, IsMap}
use operations_debs_varnish.Xkey.Index.{Oc, Xkey}
use operations_debs_varnish.Xkey.Tokens.{tokens, tokens_total}
use operations_debs_varnish.Xkey.Events.{
  names_keys, insert_words, insert_header, xkey_cb_insert, after_colon, rest_of, hdr_xkey,
}
use operations_debs_varnish.Xkey.Refines.{Refines, xkey_insert-Refines}

-- An association as a purge sees it.
abbrev pub pairs : List Oc → List (Bytes × ℕ)
pairs = map (λ c. (c.digest, c.objcore))

after_colon-cons :
    (c : ℕ) (s v : Bytes) → after_colon s ≡ some v → (w : Bytes) × (after_colon (c ∷ s) ≡ some w)
unfolding after_colon cut
after_colon-cons c s v e = elim (Bool-cases (c == b':')) [
  | inl k ↦ (s, rw (k, after_colon))
  | inr k ↦ (v, rw (k, after_colon) (after_before (cut b':' s) e))
]
  where
    after_before : (k : Cut) → rest_of k ≡ some v → rest_of (before c k) ≡ some v
    after_before (missing a) q = cc
    after_before (found a r) q = q

prefix_colon :
    (p s : Bytes)
    → starts_with_nocase s (p ++ (b':' ∷ [])) ≡ true
    → (v : Bytes) × (after_colon s ≡ some v)
unfolding starts_with_nocase
prefix_colon [] [] h = cc
prefix_colon [] (c ∷ s) h =
    let e : (c == b':') ≡ true = ground arith in (s, unfold after_colon cut in rw (e, after_colon))
prefix_colon (d ∷ p) [] h = cc
prefix_colon (d ∷ p) (c ∷ s) h =
    let (v, e) = prefix_colon p s (ground arith) in after_colon-cons c s v e

has_colon : (s : Bytes) → names_keys s ≡ true → (v : Bytes) × (after_colon s ≡ some v)
has_colon s h = elim (Bool-cases (starts_with_nocase s hdr_xkey)) [
  | inl e ↦ prefix_colon (codes "xkey") s e
  | inr e ↦ prefix_colon (codes "X-HashTwo") s (rw e at h)
]

-- The words behind the colons of the headers that name keys, in order.
pub data Keys : List Bytes → List Bytes → Type 0 where
  end : Keys [] []
  skipped :
      {sp : Bytes} {headers ws : List Bytes}
      → names_keys sp ≡ false
      → Keys headers ws
      → Keys (sp ∷ headers) ws
  read :
      {sp v : Bytes} {headers us ws vs : List Bytes}
      → names_keys sp ≡ true
      → after_colon sp ≡ some v
      → tokens v ≡ some us
      → Keys headers ws
      → vs ≡ us ++ ws
      → Keys (sp ∷ headers) vs

module _ (H : Tree Bytes (List Oc)) (O : Tree ℕ (List Oc)) (h : IsMap H) (o : IsMap O)
    (sha256 : Bytes → Bytes) where
  abbrev keyed : ℕ → List Bytes → List (Bytes × ℕ)
  keyed p = map (λ w. (sha256 w, p))

  insert_words-Refines :
      (p : ℕ) (ws : List Bytes) (x : Xkey H O) (l : List Oc)
      → Refines H O h o x l
      → (x' : Xkey H O) × (l' : List Oc) × (insert_words H O sha256 p ws x ≡ some x')
        × Refines H O h o x' l'
        × (pairs l' ≡ pairs l ++ keyed p ws)
  unfolding insert_words
  insert_words-Refines p [] x l r = (x, l, refl, r, sym (append-nil (pairs l)))
  insert_words-Refines p (w ∷ ws) x l r =
      let (x1, e, r1) = xkey_insert-Refines H O h o x l p (sha256 w) r in
      let oc : Oc = record { address = x.next_address; digest = sha256 w; objcore = p } in
      let (x2, l2, e2, r2, q) = insert_words-Refines p ws x1 (l ++ (oc ∷ [])) r1 in
      (
        x2,
        l2,
        rw e e2,
        r2,
        q
            ∙ rw (map-append {B = Bytes × ℕ} (λ (c : Oc). (c.digest, c.objcore)) l (oc ∷ []))
                (append_assoc (pairs l) (keyed p (w ∷ [])) (keyed p ws)),
      )

  insert_header-Refines :
      (p : ℕ) (sp : Bytes) (x : Xkey H O) (l : List Oc)
      → names_keys sp ≡ true
      → Refines H O h o x l
      → (x' : Xkey H O) × (l' : List Oc) × (v : Bytes) × (ws : List Bytes) × (after_colon sp
          ≡ some v)
        × (tokens v ≡ some ws)
        × (insert_header H O sha256 sp p x ≡ some x')
        × Refines H O h o x' l'
        × (pairs l' ≡ pairs l ++ keyed p ws)
  unfolding insert_header
  insert_header-Refines p sp x l n r =
      let (v, ev) = has_colon sp n in
      let (ws, ew, _) = tokens_total v in
      let (x', l', e, r', q) = insert_words-Refines p ws x l r in
      (x', l', v, ws, ev, ew, rw (ev, insert_header) (rw ew e), r', q)

  -- Over trees that are finite maps, with an index that stands for a list of associations,
  -- xkey_cb_insert() never fails. It adds, behind what the index held, the object under the
  -- digest of each word of each header that names keys, in the order of the text.
  pub xkey_cb_insert-Refines :
      (headers : List Bytes) (p : ℕ) (x : Xkey H O) (l : List Oc)
      → Refines H O h o x l
      → (x' : Xkey H O) × (l' : List Oc) × (ws : List Bytes) × (xkey_cb_insert H O sha256 headers p
            x
          ≡ some x')
        × Refines H O h o x' l'
        × Keys headers ws
        × (pairs l' ≡ pairs l ++ keyed p ws)
  unfolding xkey_cb_insert
  xkey_cb_insert-Refines [] p x l r = (x, l, [], refl, r, end, sym (append-nil (pairs l)))
  xkey_cb_insert-Refines (sp ∷ headers) p x l r = elim (Bool-cases (names_keys sp)) [
    | inr n ↦
        let (x', l', ws, e, r', k, q) = xkey_cb_insert-Refines headers p x l r in
        (x', l', ws, rw n e, r', skipped n k, q)
    | inl n ↦
        let (x1, l1, v, us, ev, ew, e1, r1, q1) = insert_header-Refines p sp x l n r in
        let (x', l', ws, e, r', k, q) = xkey_cb_insert-Refines headers p x1 l1 r1 in
        (
          x',
          l',
          us ++ ws,
          rw n (rw e1 e),
          r',
          read n ev ew k refl,
          q
              ∙ ap (λ (z : List (Bytes × ℕ)). z ++ keyed p ws) q1
              ∙ append_assoc (pairs l) (keyed p us) (keyed p ws)
              ∙ ap (◌++◌ (pairs l)) (sym (map-append (λ (w : Bytes). (sha256 w, p)) us ws)),
        )
  ]
