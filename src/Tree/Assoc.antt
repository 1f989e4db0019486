-- ===== src/Tree/Assoc.antt =====
-- An association list is a tree in the sense of Tree.IsMap: what the clients of src/vtree.h rely on
-- can hold.
use operations_debs_varnish.Base.{
  ◌≡◌, refl, ◌↔◌, Bool, true, false, List, [], ◌∷◌, Option, none, some, if◌then◌else◌, arith,
}
use operations_debs_varnish.Tree.{Tree, IsMap, Listed}

module _ {K V : Type 0} (same : K → K → Bool) where
  unfoldable pub lookup : K → List (K × V) → Option V
  lookup j [] = none
  lookup j ((k, v) ∷ l) = if same j k then some v else lookup j l

  unfoldable pub drop_key : K → List (K × V) → List (K × V)
  drop_key j [] = []
  drop_key j ((k, v) ∷ l) = let rest = drop_key j l in if same j k then rest else (k, v) ∷ rest

  unfoldable pub add : K → V → List (K × V) → List (K × V) × Option V
  unfolding lookup
  add k v l = elim (lookup k l) [ none ↦ ((k, v) ∷ l, none) | some w ↦ (l, some w) ]

  -- Each key at its first place
  unfoldable pub dedup : List (K × V) → List (K × V)
  dedup [] = []
  dedup ((k, v) ∷ l) = (k, v) ∷ drop_key k (dedup l)

  abbrev pub assoc : Tree K V
  assoc = record {
    T = List (K × V);
    same = same;
    empty = [];
    find = lookup;
    insert = add;
    write = λ k v l. (k, v) ∷ l;
    remove = drop_key;
    walk = dedup;
  }

  module _ (same_iff : (j k : K) → (same j k ≡ true) ↔ (j ≡ k)) where
    lookup-drop_key :
        (j k : K) (l : List (K × V))
        → lookup j (drop_key k l) ≡ (if same j k then none else lookup j l)
    unfolding lookup drop_key
    lookup-drop_key j k [] = ground arith
    lookup-drop_key j k ((i, v) ∷ l) =
        ground (arith, same_iff j k, same_iff j i, same_iff k i, lookup-drop_key j k l)

    Listed-drop_key :
        (i k : K) (v : V) (l : List (K × V))
        → Listed i v (drop_key k l) ↔ (Listed i v l × (same i k ≡ false))
    unfolding drop_key
    Listed-drop_key i k v [] = ((λ x. absurd x), (λ x. x.0))
    Listed-drop_key i k v ((j, w) ∷ l) =
        ground (arith, same_iff i k, same_iff i j, same_iff k j, Listed-drop_key i k v l)

    Listed-dedup : (k : K) (v : V) (l : List (K × V)) → Listed k v (dedup l) ↔ (lookup k l ≡ some v)
    unfolding dedup lookup
    Listed-dedup k v [] = ground arith
    Listed-dedup k v ((j, w) ∷ l) =
        ground (arith, same_iff k j, Listed-drop_key k j v (dedup l), Listed-dedup k v l)

    add_old : (k : K) (v w : V) (l : List (K × V)) → lookup k l ≡ some w → add k v l ≡ (l, some w)
    unfolding add
    add_old k v w l h = rw (h, add) refl

    add_new : (k : K) (v : V) (l : List (K × V)) → lookup k l ≡ none → (add k v l).1 ≡ none
    unfolding add
    add_new k v l h = rw (h, add) refl

    lookup-add :
        (j k : K) (v : V) (l : List (K × V))
        → lookup k l ≡ none
        → lookup j (add k v l).0 ≡ (if same j k then some v else lookup j l)
    unfolding add lookup
    lookup-add j k v l h = ground (arith, h)

    pub assoc-IsMap : IsMap assoc
    unfolding lookup
    assoc-IsMap = record {
      same_iff = same_iff;
      find-empty = λ j. refl;
      insert_old = add_old;
      insert_new = add_new;
      find-insert = lookup-add;
      find-write = λ j k v w t h. refl;
      find-remove = lookup-drop_key;
      walk_iff = Listed-dedup;
    }
