-- ===== src/Xkey/Remove.antt =====
-- xkey_remove(): the structures of an object leave the lists of all its keys, one by one.
use operations_debs_varnish.Base.{
  ℕ, Bool, true, false, not, List, [], ◌∷◌, none, some, ◌≡◌, ◌≢◌, refl, sym, ap, ◌∙◌, inl, inr,
  arith, ◌==◌, ==_iff, if◌then◌else◌, Bytes, eq_bytes, eq_bytes_iff, keep, All, Option-cases,
}
use operations_debs_varnish.Tree.{Tree, IsMap}
use operations_debs_varnish.Xkey.Index.{
  Oc, Xkey, ocs_of, same_oc, without, shrink_hashhead, remove_oc, remove_ocs, xkey_remove,
  xkey_cb_remove,
}
use operations_debs_varnish.Xkey.Refines.{
  IsSound, Refines, filled, has_digest, has_objcore, ocs_of-filled, pool_delete-IsSound,
}

filled-none : (os : List Oc) → filled os ≡ none → os ≡ []
filled-none [] e = refl
filled-none (o ∷ os) e = cc

filled-some : (os ps : List Oc) → filled os ≡ some ps → ps ≡ os
filled-some [] ps e = cc
filled-some (o ∷ os) ps e = cc

filled-ne_none :
    (l : List Oc) (c : Oc) (os : List Oc)
    → os ≡ without c (keep (has_digest c.digest) l)
    → os ≢ []
    → filled (keep (has_digest c.digest) l) ≢ none
filled-ne_none l c os e ne f = ne (e ∙ ap (without c) (filled-none _ f))

-- The associations of the objects other than `p`.
abbrev pub others : ℕ → List Oc → List Oc
others p = keep (λ y. not (has_objcore p y))

without_all : List Oc → List Oc → List Oc
without_all [] l = l
without_all (c ∷ cs) l = without_all cs (without c l)

pub keep-others :
    (p q : ℕ) (l : List Oc)
    → keep (has_objcore q) (others p l) ≡ (if q == p then [] else keep (has_objcore q) l)
keep-others p q [] = ground arith
keep-others p q (y ∷ l) = ground (arith, keep-others p q l)

others_none : (p : ℕ) (l : List Oc) → filled (keep (has_objcore p) l) ≡ none → others p l ≡ l
others_none p [] e = refl
others_none p (y ∷ l) e = ground (arith, others_none p l)

among : Oc → List Oc → Bool
among y [] = false
among y (c ∷ cs) = if same_oc y c then true else among y cs

keep_all : (l : List Oc) → keep (λ y. not (among y [])) l ≡ l
unfolding among
keep_all [] = refl
keep_all (y ∷ l) = ap (◌∷◌ y) (keep_all l)

keep-without :
    (c : Oc) (cs l : List Oc)
    → keep (λ y. not (among y cs)) (without c l) ≡ keep (λ y. not (among y (c ∷ cs))) l
unfolding among
keep-without c cs [] = refl
keep-without c cs (y ∷ l) = ground (arith, keep-without c cs l)

without_all-among : (cs l : List Oc) → without_all cs l ≡ keep (λ y. not (among y cs)) l
unfolding without_all
without_all-among [] l = sym (keep_all l)
without_all-among (c ∷ cs) l = without_all-among cs (without c l) ∙ keep-without c cs l

among-keep :
    (p : ℕ) (y : Oc) (l : List Oc)
    → has_objcore p y ≡ false
    → among y (keep (has_objcore p) l) ≡ false
unfolding among same_oc
among-keep p y [] e = refl
among-keep p y (c ∷ l) e = ground (arith, among-keep p y l e)

same_oc_refl : (y : Oc) → same_oc y y ≡ true
unfolding same_oc
same_oc_refl y = ground (arith, eq_bytes_iff y.digest y.digest)

-- Each element of `m` with this objcore is among those of `l`.
abbrev Holds : ℕ → List Oc → List Oc → Type 0
Holds p l = All (λ y. among y (keep (has_objcore p) l) ≡ has_objcore p y)

Holds-cons : (p : ℕ) (c : Oc) (l m : List Oc) → Holds p l m → Holds p (c ∷ l) m
unfolding among same_oc
Holds-cons p c l [] a = tt
Holds-cons p c l (y ∷ m) a = ground (arith, Holds-cons p c l m a.1)

Holds-self : (p : ℕ) (l : List Oc) → Holds p l l
unfolding among
Holds-self p [] = tt
Holds-self p (y ∷ l) =
    (ground (arith, same_oc_refl y, among-keep p y l), Holds-cons p y l l (Holds-self p l))

keep-among :
    (p : ℕ) (l m : List Oc)
    → Holds p l m
    → keep (λ y. not (among y (keep (has_objcore p) l))) m ≡ others p m
keep-among p l [] a = refl
keep-among p l (y ∷ m) a = ground (arith, keep-among p l m a.1)

-- Taking out, one by one, the structures of an object leaves those of the others.
without_all-others :
    (p : ℕ) (os l : List Oc)
    → filled (keep (has_objcore p) l) ≡ some os
    → without_all os l ≡ others p l
without_all-others p os l e =
    rw (filled-some _ os e)
      (without_all-among (keep (has_objcore p) l) l ∙ keep-among p l l (Holds-self p l))

module _ (H : Tree Bytes (List Oc)) (O : Tree ℕ (List Oc)) (h : IsMap H) (o : IsMap O) where
  -- Taking one structure out of its hashhead.
  without-has_digest :
      (d : Bytes) (c : Oc) (l : List Oc)
      → keep (has_digest d) (without c l)
        ≡ (if eq_bytes d c.digest then without c (keep (has_digest d) l) else keep (has_digest d) l)
  unfolding same_oc
  without-has_digest d c [] = ground arith
  without-has_digest d c (y ∷ l) = ground (
    arith,
    eq_bytes_iff y.digest c.digest,
    eq_bytes_iff d y.digest,
    eq_bytes_iff d c.digest,
    without-has_digest d c l,
  )

  -- The hashtree stands for `l`, whatever the octree holds meanwhile.
  pub record Hashes (x : Xkey H O) (l : List Oc) : Type 0 where
    pub by_digest : (d : Bytes) → H.find d x.hashtree ≡ filled (keep (has_digest d) l)
    pub hashheads : IsSound x.hashheads
    pub ocs : IsSound x.ocs

  shrink_hashhead-find :
      (c : Oc) (os : List Oc) (x : Xkey H O) (l : List Oc)
      → Hashes x l
      → os ≡ without c (keep (has_digest c.digest) l)
      → (d : Bytes)
      → H.find d (shrink_hashhead H O c.digest os x).hashtree
        ≡ filled (keep (has_digest d) (without c l))
  unfolding shrink_hashhead
  shrink_hashhead-find c [] x l r e d = ground (
    arith,
    h.find-remove d c.digest x.hashtree,
    r.by_digest d,
    h.same_iff d c.digest,
    eq_bytes_iff d c.digest,
    without-has_digest d c l,
  )
  shrink_hashhead-find c (y ∷ os) x l r e d = elim (Option-cases (H.find c.digest x.hashtree)) [
    | inl n ↦ absurd (filled-ne_none l c (y ∷ os) e (λ z. cc) (sym (r.by_digest c.digest) ∙ n))
    | inr (w, n) ↦ ground (
      arith,
      h.find-write d c.digest (y ∷ os) w x.hashtree n,
      r.by_digest d,
      h.same_iff d c.digest,
      eq_bytes_iff d c.digest,
      without-has_digest d c l,
    )
  ]

  shrink_hashhead-pools :
      (d : Bytes) (os : List Oc) (x : Xkey H O)
      → IsSound x.hashheads
      → IsSound x.ocs
      → IsSound (shrink_hashhead H O d os x).hashheads × IsSound (shrink_hashhead H O d os x).ocs
  unfolding shrink_hashhead
  shrink_hashhead-pools d [] x s t = (pool_delete-IsSound _ s, t)
  shrink_hashhead-pools d (y ∷ os) x s t = (s, t)

  remove_oc-Hashes :
      (c : Oc) (x : Xkey H O) (l : List Oc) → Hashes x l → Hashes (remove_oc H O c x) (without c l)
  unfolding remove_oc
  remove_oc-Hashes c x l r =
      let os = without c (ocs_of (H.find c.digest x.hashtree)) in
      let e : os ≡ without c (keep (has_digest c.digest) l) =
        rw (r.by_digest c.digest, ocs_of-filled) in
      record {
        by_digest = shrink_hashhead-find c os x l r e;
        hashheads = (shrink_hashhead-pools c.digest os x r.hashheads r.ocs).0;
        ocs = pool_delete-IsSound _ (shrink_hashhead-pools c.digest os x r.hashheads r.ocs).1;
      }

  remove_ocs-Hashes :
      (cs : List Oc) (x : Xkey H O) (l : List Oc)
      → Hashes x l
      → Hashes (remove_ocs H O cs x) (without_all cs l)
  unfolding remove_ocs without_all
  remove_ocs-Hashes [] x l r = r
  remove_ocs-Hashes (c ∷ cs) x l r = remove_ocs-Hashes cs _ _ (remove_oc-Hashes c x l r)

  -- The loop leaves the octree and its pool alone.
  shrink_hashhead-octree :
      (d : Bytes) (os : List Oc) (x : Xkey H O)
      → ((shrink_hashhead H O d os x).octree ≡ x.octree)
        × ((shrink_hashhead H O d os x).ocheads ≡ x.ocheads)
  unfolding shrink_hashhead
  shrink_hashhead-octree d [] x = (refl, refl)
  shrink_hashhead-octree d (o' ∷ os) x = (refl, refl)

  remove_ocs-octree :
      (cs : List Oc) (x : Xkey H O)
      → ((remove_ocs H O cs x).octree ≡ x.octree) × ((remove_ocs H O cs x).ocheads ≡ x.ocheads)
  unfolding remove_ocs remove_oc
  remove_ocs-octree [] x = (refl, refl)
  remove_ocs-octree (c ∷ cs) x =
      let one =
        shrink_hashhead-octree c.digest (without c (ocs_of (H.find c.digest x.hashtree))) x in
      let others = remove_ocs-octree cs (remove_oc H O c x) in (others.0 ∙ one.0, others.1 ∙ one.1)

  by_objcore-remove :
      (p q : ℕ) (t : O.T) (l : List Oc)
      → O.find q t ≡ filled (keep (has_objcore q) l)
      → O.find q (O.remove p t) ≡ filled (keep (has_objcore q) (others p l))
  by_objcore-remove p q t l r =
      ground (arith, o.find-remove q p t, r, o.same_iff q p, ==_iff q p, keep-others p q l)

  xkey_remove-Refines :
      (ptr : ℕ) (os : List Oc) (x : Xkey H O) (l : List Oc)
      → Refines H O h o x l
      → filled (keep (has_objcore ptr) l) ≡ some os
      → Refines H O h o (xkey_remove H O ptr os x) (others ptr l)
  unfolding xkey_remove
  xkey_remove-Refines ptr os x l r e =
      let start : Hashes x l = record {
        by_digest = r.by_digest;
        hashheads = r.hashheads;
        ocs = r.ocs;
      } in
      let left : Hashes (remove_ocs H O os x) (others ptr l) =
        rw (without_all-others ptr os l e) at (remove_ocs-Hashes os x l start) in
      let same = remove_ocs-octree os x in
      record {
        by_digest = left.by_digest;
        by_objcore = λ q. rw same.0 (by_objcore-remove ptr q x.octree l (r.by_objcore q));
        hashheads = left.hashheads;
        ocheads = pool_delete-IsSound ((remove_ocs H O os x).ocheads) (rw same.1 r.ocheads);
        ocs = left.ocs;
      }

  -- Over trees that are finite maps, with an index that stands for a list of associations,
  -- xkey_cb_remove() takes out the associations of the object, and no other.
  pub xkey_cb_remove-Refines :
      (ptr : ℕ) (x : Xkey H O) (l : List Oc)
      → Refines H O h o x l
      → Refines H O h o (xkey_cb_remove H O ptr x) (others ptr l)
  unfolding xkey_cb_remove
  xkey_cb_remove-Refines ptr x l r = elim (Option-cases (O.find ptr x.octree)) [
    | inl e ↦ rw (e, xkey_cb_remove) (rw (others_none ptr l (sym (r.by_objcore ptr) ∙ e)) r)
    | inr (os, e) ↦
        rw (e, xkey_cb_remove) (xkey_remove-Refines ptr os x l r (sym (r.by_objcore ptr) ∙ e))
  ]
