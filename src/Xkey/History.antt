-- ===== src/Xkey/History.antt =====
-- Objects that enter and leave the cache, in any order: the callback of src/vmod_xkey.c against a list
-- of associations.
use operations_debs_varnish.Base.{
  ℕ, not, List, [], ◌∷◌, ◌++◌, map, Option, some, ◌≡◌, refl, arith, Bytes, ◌==◌, ◌>>=◌, keep,
}
use operations_debs_varnish.Tree.{Tree, IsMap}
use operations_debs_varnish.Xkey.Index.{Oc, Xkey}
use operations_debs_varnish.Xkey.Events.{inserted, removed, xkey_cb}
use operations_debs_varnish.Xkey.Refines.{Refines}
use operations_debs_varnish.Xkey.Remove.{others, xkey_cb_remove-Refines}
use operations_debs_varnish.Xkey.Headers.{pairs, Keys, xkey_cb_insert-Refines}

-- An object enters the cache with its headers, or leaves it.
pub data Change : Type 0 where
  enters : List Bytes → ℕ → Change
  leaves : ℕ → Change

-- The associations of other objects
abbrev pub pairs_of_others : ℕ → List (Bytes × ℕ) → List (Bytes × ℕ)
pairs_of_others p = keep (λ q. not (p == q.1))

pub pairs-others : (p : ℕ) (l : List Oc) → pairs (others p l) ≡ pairs_of_others p (pairs l)
pairs-others p [] = refl
pairs-others p (c ∷ l) = ground (arith, pairs-others p l)

-- What the module promises: an object that enters is put behind under the digests of its words, and
-- one that leaves takes its associations with it.
pub data Evolves (sha256 : Bytes → Bytes)
    : List (Bytes × ℕ) → List Change → List (Bytes × ℕ) → Type 0 where
  stays : {ps : List (Bytes × ℕ)} → Evolves sha256 ps [] ps
  adds :
      {ps qs rs : List (Bytes × ℕ)} {headers ws : List Bytes} {p : ℕ} {cs : List Change}
      → Keys headers ws
      → qs ≡ ps ++ map (λ w. (sha256 w, p)) ws
      → Evolves sha256 qs cs rs
      → Evolves sha256 ps (enters headers p ∷ cs) rs
  takes :
      {ps qs rs : List (Bytes × ℕ)} {p : ℕ} {cs : List Change}
      → qs ≡ pairs_of_others p ps
      → Evolves sha256 qs cs rs
      → Evolves sha256 ps (leaves p ∷ cs) rs

module _ (H : Tree Bytes (List Oc)) (O : Tree ℕ (List Oc)) (sha256 : Bytes → Bytes) where
  pub change : Change → Xkey H O → Option (Xkey H O)
  change (enters headers p) x = xkey_cb H O sha256 inserted headers p x
  change (leaves p) x = xkey_cb H O sha256 removed [] p x

  pub changes : List Change → Xkey H O → Option (Xkey H O)
  changes [] x = some x
  changes (c ∷ cs) x = do x' ← change c x; changes cs x'

  -- Over trees that are finite maps, with an index that stands for a list of associations, the
  -- callback never fails, whatever enters and leaves the cache in whatever order: the index then
  -- stands for the associations that the changes, by what the module promises, make of those
  -- before.
  pub changes-Evolves :
      (h : IsMap H) (o : IsMap O) (cs : List Change) (x : Xkey H O) (l : List Oc)
      → Refines H O h o x l
      → (x' : Xkey H O) × (l' : List Oc) × (changes cs x ≡ some x')
        × Refines H O h o x' l'
        × Evolves sha256 (pairs l) cs (pairs l')
  unfolding changes change xkey_cb
  changes-Evolves h o [] x l r = (x, l, refl, r, stays)
  changes-Evolves h o (enters headers p ∷ cs) x l r =
      let (x1, l1, ws, e, r1, k, q) = xkey_cb_insert-Refines H O h o sha256 headers p x l r in
      let (x2, l2, e2, r2, s) = changes-Evolves h o cs x1 l1 r1 in (x2, l2, rw e e2, r2, adds k q s)
  changes-Evolves h o (leaves p ∷ cs) x l r =
      let (x2, l2, e2, r2, s) =
        changes-Evolves h o cs _ (others p l) (xkey_cb_remove-Refines H O h o p x l r) in
      (x2, l2, e2, r2, takes (pairs-others p l) s)
