-- ===== src/Xkey/Index.antt =====
-- The two trees of src/vmod_xkey.c, the pools of free structures behind them, and the functions that
-- change them. `none` is a failed assertion, or a null pointer that is followed.
use operations_debs_varnish.Base.{
  ℕ, suc, ◌+◌, ◌-◌, Bool, not, ◌&&◌, List, [], ◌∷◌, ◌++◌, Option, none, some, ltb, ◌==◌,
  if◌then◌else◌, Bytes, eq_bytes, keep, ◌>>=◌,
}
use operations_debs_varnish.Tree.{Tree}

-- struct xkey_oc: its address, the key of its hashhead, and its objcore.
pub record Oc : Type 0 where
  pub address : ℕ
  pub digest : Bytes
  pub objcore : ℕ

-- A pool of free structures: the length of its list, and its counter (`n_hashhead` and the others).
pub record Pool : Type 0 where
  pub length : ℕ
  pub n : ℕ

abbrev pub pool_max : ℕ
pool_max = 5

abbrev pub no_pool : Pool
no_pool = record { length = 0; n = 0 }

-- With a counter above 0 the first of the list is taken, and an empty list is a null pointer that
-- CHECK_OBJ_NOTNULL or VTAILQ_REMOVE meets.
unfoldable pub pool_new : Pool → Option Pool
pool_new p =
    if ltb 0 p.n
    then if p.length == 0 then none else some (record { length = p.length - 1; n = p.n - 1 })
    else some p

-- A structure goes to the list, or to the allocator when the pool is full.
unfoldable pub pool_delete : Pool → Pool
pool_delete p = if ltb p.n pool_max then record { length = p.length + 1; n = p.n + 1 } else p

-- The three pairs of functions of the module, each on its own pool.
abbrev pub xkey_hashhead_new : Pool → Option Pool
xkey_hashhead_new p = pool_new p

abbrev pub xkey_hashhead_delete : Pool → Pool
xkey_hashhead_delete p = pool_delete p

abbrev pub xkey_ochead_new : Pool → Option Pool
xkey_ochead_new p = pool_new p

abbrev pub xkey_ochead_delete : Pool → Pool
xkey_ochead_delete p = pool_delete p

abbrev pub xkey_oc_new : Pool → Option Pool
xkey_oc_new p = pool_new p

abbrev pub xkey_oc_delete : Pool → Pool
xkey_oc_delete p = pool_delete p

-- The structure in hand goes back if the tree had a node for its key.
abbrev pub put_back : {A : Type 0} → (Pool → Pool) → Option A → Pool → Pool
put_back delete none p = p
put_back delete (some w) p = delete p

-- The list of the head that a lookup has returned.
abbrev pub ocs_of : Option (List Oc) → List Oc
ocs_of none = []
ocs_of (some os) = os

-- Two pointers to struct xkey_oc are the same address, and then what stands there is the same.
unfoldable pub same_oc : Oc → Oc → Bool
same_oc a b = a.address == b.address && eq_bytes a.digest b.digest && a.objcore == b.objcore

-- VTAILQ_REMOVE
abbrev pub without : Oc → List Oc → List Oc
without o = keep (λ y. not (same_oc y o))

module _ (H : Tree Bytes (List Oc)) (O : Tree ℕ (List Oc)) where
  -- The static variables of the module. `next_address` stands for the allocator: the address of the
  -- next structure that is made or taken from the pool.
  pub record Xkey : Type 0 where
    pub hashtree : H.T
    pub octree : O.T
    pub hashheads : Pool
    pub ocheads : Pool
    pub ocs : Pool
    pub next_address : ℕ

  -- The list of the head in the tree, where there is one.
  abbrev pub xkey_octree_lookup : ℕ → Xkey → Option (List Oc)
  xkey_octree_lookup ptr x = O.find ptr x.octree

  abbrev pub xkey_hashtree_lookup : Bytes → Xkey → Option (List Oc)
  xkey_hashtree_lookup digest x = H.find digest x.hashtree

  unfoldable pub xkey_octree_insert : ℕ → Xkey → Option Xkey
  xkey_octree_insert ptr x = do
    pool ← xkey_ochead_new x.ocheads
    let r = O.insert ptr [] x.octree
    some (record x { octree = r.0; ocheads = put_back xkey_ochead_delete r.1 pool })

  unfoldable pub xkey_hashtree_insert : Bytes → Xkey → Option Xkey
  xkey_hashtree_insert digest x = do
    pool ← xkey_hashhead_new x.hashheads
    let r = H.insert digest [] x.hashtree
    some (record x { hashtree = r.0; hashheads = put_back xkey_hashhead_delete r.1 pool })

  -- The two VTAILQ_INSERT_TAIL of xkey_insert()
  unfoldable pub link_oc : ℕ → Bytes → Pool → Xkey → Xkey
  link_oc objcore digest pool x =
      let oc : Oc = record { address = x.next_address; digest = digest; objcore = objcore } in
      record x {
        octree = O.write objcore (ocs_of (O.find objcore x.octree) ++ (oc ∷ [])) x.octree;
        hashtree = H.write digest (ocs_of (H.find digest x.hashtree) ++ (oc ∷ [])) x.hashtree;
        ocs = pool;
        next_address = suc x.next_address;
      }

  unfoldable pub xkey_insert : ℕ → Bytes → Xkey → Option Xkey
  unfolding xkey_octree_insert xkey_hashtree_insert link_oc
  xkey_insert objcore digest x = do
    x1 ← xkey_octree_insert objcore x
    x2 ← xkey_hashtree_insert digest x1
    pool ← xkey_oc_new x2.ocs
    some (link_oc objcore digest pool x2)

  -- hashhead->ocs without one element: the head goes when it is empty.
  unfoldable pub shrink_hashhead : Bytes → List Oc → Xkey → Xkey
  unfolding pool_delete
  shrink_hashhead digest [] x = record x {
    hashtree = H.remove digest x.hashtree;
    hashheads = xkey_hashhead_delete x.hashheads;
  }
  shrink_hashhead digest (o ∷ os) x = record x { hashtree = H.write digest (o ∷ os) x.hashtree }

  -- The body of the loop of xkey_remove()
  unfoldable pub remove_oc : Oc → Xkey → Xkey
  unfolding shrink_hashhead pool_delete
  remove_oc o x =
      let x' = shrink_hashhead o.digest (without o (ocs_of (H.find o.digest x.hashtree))) x in
      record x' { ocs = xkey_oc_delete x'.ocs }

  unfoldable pub remove_ocs : List Oc → Xkey → Xkey
  remove_ocs [] x = x
  remove_ocs (o ∷ os) x = remove_ocs os (remove_oc o x)

  -- xkey_remove(), with the list of the ochead: each of its elements goes in turn, then the head.
  unfoldable pub xkey_remove : ℕ → List Oc → Xkey → Xkey
  unfolding pool_delete
  xkey_remove ptr os x =
      let x' = remove_ocs os x in
      record x' { octree = O.remove ptr x'.octree; ocheads = xkey_ochead_delete x'.ocheads }

  unfoldable pub xkey_cb_remove : ℕ → Xkey → Xkey
  unfolding xkey_remove
  xkey_cb_remove ptr x = elim (xkey_octree_lookup ptr x) [
    | none ↦ x
    | some os ↦ xkey_remove ptr os x
  ]

  -- xkey_cleanup(): the trees are initialised and the structures of the trees and the pools are
  -- freed; no counter is written. The loop over xkey_pool.ocs unlinks through list_ochead, while the
  -- structures that xkey_oc_delete() put there are linked through list_hashhead: such a structure
  -- stays first in the list after it has been freed, and the next round follows it.
  unfoldable pub xkey_cleanup : Xkey → Option Xkey
  xkey_cleanup x =
      if ltb 0 x.ocs.length
      then none
      else some (record x {
        hashtree = H.empty;
        octree = O.empty;
        hashheads = record { length = 0; n = x.hashheads.n };
        ocheads = record { length = 0; n = x.ocheads.n };
        ocs = record { length = 0; n = x.ocs.n };
      })
