-- ===== src/Tree.antt =====
-- The intrusive red-black tree of src/vtree.h (the BSD tree.h), as its clients use it: a parameter.
-- A node is its key and the rest of the structure that it is embedded in; a write through a node that
-- VRB_FIND has returned is an operation of its own.
pub mod Assoc
pub mod Compare
use operations_debs_varnish.Base.{
  Bool, true, false, List, [], ◌∷◌, ◌⊎◌, Option, none, some, ◌≡◌, ◌↔◌, if◌then◌else◌,
}

pub record Tree (K V : Type 0) : Type 1 where
  pub T : Type 0
  -- cmp(j, k) == 0
  pub same : K → K → Bool
  pub empty : T
  pub find : K → T → Option V
  -- VRB_INSERT: the tree, and the node that was there already
  pub insert : K → V → T → T × Option V
  pub write : K → V → T → T
  pub remove : K → T → T
  -- the nodes that VRB_FOREACH visits
  pub walk : T → List (K × V)

abbrev pub Listed : {K V : Type 0} → K → V → List (K × V) → Type 0
Listed k v [] = ⊥
Listed k v ((j, w) ∷ l) = ((k ≡ j) × (v ≡ w)) ⊎ Listed k v l

-- What the clients rely on: the tree is a finite map.
pub record IsMap {K V : Type 0} (M : Tree K V) : Type 0 where
  pub same_iff : (j k : K) → (M.same j k ≡ true) ↔ (j ≡ k)
  pub find-empty : (j : K) → M.find j M.empty ≡ none
  pub insert_old : (k : K) (v w : V) (t : M.T) → M.find k t ≡ some w → M.insert k v t ≡ (t, some w)
  pub insert_new : (k : K) (v : V) (t : M.T) → M.find k t ≡ none → (M.insert k v t).1 ≡ none
  pub find-insert :
      (j k : K) (v : V) (t : M.T)
      → M.find k t ≡ none
      → M.find j (M.insert k v t).0 ≡ (if M.same j k then some v else M.find j t)
  pub find-write :
      (j k : K) (v w : V) (t : M.T)
      → M.find k t ≡ some w
      → M.find j (M.write k v t) ≡ (if M.same j k then some v else M.find j t)
  pub find-remove :
      (j k : K) (t : M.T) → M.find j (M.remove k t) ≡ (if M.same j k then none else M.find j t)
  pub walk_iff : (k : K) (v : V) (t : M.T) → Listed k v (M.walk t) ↔ (M.find k t ≡ some v)
