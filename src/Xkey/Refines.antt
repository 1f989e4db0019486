-- ===== src/Xkey/Refines.antt =====
-- The index as a list of associations between keys and objects, oldest first, and the two trees as a
-- representation of it.
use operations_debs_varnish.Base.{
  ℕ, suc, ◌-◌, ◌≤◌, Bool, true, List, [], ◌∷◌, ◌++◌, Option, none, some, ◌≡◌, refl, inl, inr, arith,
  ltb, ◌==◌, ==_iff, if◌then◌else◌, Bytes, eq_bytes, eq_bytes_iff, keep, Bool-cases, Option-cases,
}
use operations_debs_varnish.Tree.{Tree, IsMap}
use operations_debs_varnish.Xkey.Index.{
  Oc, Pool, Xkey, pool_max, pool_new, pool_delete, put_back, ocs_of, xkey_insert,
}

-- The counter is the length of the list, and within its bound.
pub record IsSound (p : Pool) : Type 0 where
  pub counted : p.n ≡ p.length
  pub bounded : p.n ≤ pool_max

pub pool_new-IsSound : (p : Pool) → IsSound p → (q : Pool) × (pool_new p ≡ some q) × IsSound q
unfolding pool_new
pool_new-IsSound p s = elim (Bool-cases (ltb 0 p.n)) [
  | inl e ↦ (record { length = p.length - 1; n = p.n - 1 }, ground arith, ground arith)
  | inr e ↦ (p, rw e, s)
]

pub pool_delete-IsSound : (p : Pool) → IsSound p → IsSound (pool_delete p)
unfolding pool_delete
pool_delete-IsSound p s = ground arith

put_back-IsSound :
    {A : Type 0} (o : Option A) (p : Pool) → IsSound p → IsSound (put_back pool_delete o p)
put_back-IsSound none p s = s
put_back-IsSound (some a) p s = pool_delete-IsSound p s

-- The elements that a head holds: a head with none is not in the tree.
abbrev pub filled : List Oc → Option (List Oc)
filled [] = none
filled (o ∷ os) = some (o ∷ os)

abbrev pub has_digest : Bytes → Oc → Bool
has_digest d o = eq_bytes d o.digest

abbrev pub has_objcore : ℕ → Oc → Bool
has_objcore p o = p == o.objcore

pub ocs_of-filled : (os : List Oc) → ocs_of (filled os) ≡ os
ocs_of-filled [] = refl
ocs_of-filled (o ∷ os) = refl

filled-append : (os : List Oc) (o : Oc) → filled (os ++ (o ∷ [])) ≡ some (os ++ (o ∷ []))
filled-append [] o = refl
filled-append (p ∷ os) o = refl

pub keep-append :
    (t : Oc → Bool) (l : List Oc) (o : Oc)
    → keep t (l ++ (o ∷ [])) ≡ (if t o then keep t l ++ (o ∷ []) else keep t l)
keep-append t [] o = refl
keep-append t (x ∷ l) o = ground (arith, keep-append t l o)

-- One tree: insert the key unless it is there, then append to its list.
module _ {K : Type 0} (M : Tree K (List Oc)) (m : IsMap M) where
  find-append :
      (j k : K) (o : Oc) (t : M.T)
      → M.find j (M.write k (ocs_of (M.find k (M.insert k [] t).0) ++ (o ∷ [])) (M.insert k [] t).0)
        ≡ (if M.same j k then some (ocs_of (M.find k t) ++ (o ∷ [])) else M.find j t)
  find-append j k o t = elim (Option-cases (M.find k t)) [
    | inl e ↦
        let same : M.same k k ≡ true = (m.same_iff k k).1 refl in
        let now : M.find k (M.insert k [] t).0 ≡ some [] = rw (m.find-insert k k [] t e, same) in
        rw (m.find-write j k _ [] _ now, now, e, m.find-insert j k [] t e) (ground arith)
    | inr (w, e) ↦ rw (m.insert_old k [] w t e) (rw (m.find-write j k _ w t e, e))
  ]

module _ (H : Tree Bytes (List Oc)) (O : Tree ℕ (List Oc)) (h : IsMap H) (o : IsMap O) where
  -- The index `x` stands for the associations `l`.
  pub record Refines (x : Xkey H O) (l : List Oc) : Type 0 where
    pub by_digest : (d : Bytes) → H.find d x.hashtree ≡ filled (keep (has_digest d) l)
    pub by_objcore : (p : ℕ) → O.find p x.octree ≡ filled (keep (has_objcore p) l)
    pub hashheads : IsSound x.hashheads
    pub ocheads : IsSound x.ocheads
    pub ocs : IsSound x.ocs

  by_digest-append :
      (t : H.T) (l : List Oc) (oc : Oc)
      → ((d : Bytes) → H.find d t ≡ filled (keep (has_digest d) l))
      → (d : Bytes)
      → H.find d (
          H.write oc.digest
            (ocs_of (H.find oc.digest (H.insert oc.digest [] t).0) ++ (oc ∷ []))
            (H.insert oc.digest [] t).0)
        ≡ filled (keep (has_digest d) (l ++ (oc ∷ [])))
  by_digest-append t l oc r d = ground (
    arith,
    find-append H h d oc.digest oc t,
    r d,
    r oc.digest,
    h.same_iff d oc.digest,
    eq_bytes_iff d oc.digest,
    keep-append (has_digest d) l oc,
    filled-append (keep (has_digest d) l) oc,
    ocs_of-filled (keep (has_digest d) l),
  )

  by_objcore-append :
      (t : O.T) (l : List Oc) (oc : Oc)
      → ((p : ℕ) → O.find p t ≡ filled (keep (has_objcore p) l))
      → (p : ℕ)
      → O.find p (
          O.write oc.objcore
            (ocs_of (O.find oc.objcore (O.insert oc.objcore [] t).0) ++ (oc ∷ []))
            (O.insert oc.objcore [] t).0)
        ≡ filled (keep (has_objcore p) (l ++ (oc ∷ [])))
  by_objcore-append t l oc r p = ground (
    arith,
    find-append O o p oc.objcore oc t,
    r p,
    r oc.objcore,
    o.same_iff p oc.objcore,
    ==_iff p oc.objcore,
    keep-append (has_objcore p) l oc,
    filled-append (keep (has_objcore p) l) oc,
    ocs_of-filled (keep (has_objcore p) l),
  )

  -- Over trees that are finite maps, with an index that stands for a list of associations,
  -- xkey_insert() never fails, and adds one association at the end.
  pub xkey_insert-Refines :
      (x : Xkey H O) (l : List Oc) (objcore : ℕ) (digest : Bytes)
      → Refines x l
      → (x' : Xkey H O) × (xkey_insert H O objcore digest x ≡ some x')
        × Refines x'
            (l ++ (record { address = x.next_address; digest = digest; objcore = objcore } ∷ []))
  unfolding xkey_insert
  xkey_insert-Refines x l objcore digest r =
      let (po, eo, so) = pool_new-IsSound x.ocheads r.ocheads in
      let (ph, eh, sh) = pool_new-IsSound x.hashheads r.hashheads in
      let (pc, ec, sc) = pool_new-IsSound x.ocs r.ocs in
      let ro = O.insert objcore [] x.octree in
      let rh = H.insert digest [] x.hashtree in
      let oc : Oc = record { address = x.next_address; digest = digest; objcore = objcore } in
      (
        record x {
          octree = O.write objcore (ocs_of (O.find objcore ro.0) ++ (oc ∷ [])) ro.0;
          hashtree = H.write digest (ocs_of (H.find digest rh.0) ++ (oc ∷ [])) rh.0;
          ocheads = put_back pool_delete ro.1 po;
          hashheads = put_back pool_delete rh.1 ph;
          ocs = pc;
          next_address = suc x.next_address;
        },
        rw eo (rw eh (rw ec)),
        record {
          by_digest = by_digest-append x.hashtree l oc r.by_digest;
          by_objcore = by_objcore-append x.octree l oc r.by_objcore;
          hashheads = put_back-IsSound rh.1 ph sh;
          ocheads = put_back-IsSound ro.1 po so;
          ocs = sc;
        },
      )
