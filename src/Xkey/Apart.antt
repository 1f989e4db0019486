-- ===== src/Xkey/Apart.antt =====
-- One insertion of src/vmod_xkey.c between the steps of other threads, on other objects.
use mathlib.Core.List.{append_assoc, map-append}
use operations_debs_varnish.Base.{
  ℕ, List, [], ◌∷◌, ◌++◌, map, ◌≡◌, ◌≢◌, refl, sym, ap, ◌∙◌, inl, inr, arith, true, false, Bytes,
  ◌==◌, ==_iff, keep, All, Bool-cases,
}
use operations_debs_varnish.Tree.{Tree, IsMap}
use operations_debs_varnish.Xkey.Index.{Oc}
use operations_debs_varnish.Xkey.Purge.{Objects}
use operations_debs_varnish.Xkey.Refines.{Refines, has_objcore, keep-append, xkey_insert-Refines}
use operations_debs_varnish.Xkey.Remove.{others, keep-others, xkey_cb_remove-Refines}
use operations_debs_varnish.Xkey.Headers.{pairs}
use operations_debs_varnish.Xkey.Threads.{
  Thread, World, set_thread, Action, enter, insert, remove, purge_by, Step, enters, inserts,
  removes, purges, Steps, stays, next,
}

-- The associations of one object
abbrev pub pairs_of : ℕ → List Oc → List (Bytes × ℕ)
pairs_of p l = pairs (keep (has_objcore p) l)

unequal : (q p : ℕ) → q ≢ p → (q == p) ≡ false
unequal q p n = ground (arith, ==_iff q p)

equal : (p : ℕ) → (p == p) ≡ true
equal p = ground (arith, ==_iff p p)

pairs_of-append :
    (p : ℕ) (l : List Oc) (oc : Oc)
    → p ≡ oc.objcore
    → pairs_of p (l ++ (oc ∷ [])) ≡ pairs_of p l ++ ((oc.digest, p) ∷ [])
pairs_of-append p l oc e =
    let here : (p == oc.objcore) ≡ true = rw (sym e) (equal p) in
    rw (keep-append (has_objcore p) l oc, here)
      (map-append {B = Bytes × ℕ} (λ (c : Oc). (c.digest, c.objcore)) (keep (has_objcore p) l)
          (oc ∷ [])
        ∙ rw (sym e) refl)

pairs_of-other :
    (p : ℕ) (l : List Oc) (oc : Oc) → oc.objcore ≢ p → pairs_of p (l ++ (oc ∷ [])) ≡ pairs_of p l
pairs_of-other p l oc n =
    let there : (p == oc.objcore) ≡ false = unequal p oc.objcore (λ e. n (sym e)) in
    rw (keep-append (has_objcore p) l oc, there) refl

Bool-apart : (t u : ℕ) → (t == u) ≡ false → t ≢ u
Bool-apart t u e = ground (arith, ==_iff t u)

pairs_of-others : (q p : ℕ) (l : List Oc) → q ≢ p → pairs_of p (others q l) ≡ pairs_of p l
pairs_of-others q p l n =
    let apart = unequal p q (λ e. n (sym e)) in rw (keep-others q p l, apart) refl

module _ (B : Objects) (H : Tree Bytes (List Oc)) (O : Tree ℕ (List Oc)) (h : IsMap H) (o : IsMap O)
    (sha256 : Bytes → Bytes) where
  -- An action that starts no other call on the thread t, and does not insert or remove the object p.
  abbrev pub IsApart : ℕ → ℕ → Action B H O sha256 → Type 0
  IsApart t p (enter u headers q) = (u ≢ t) × (q ≢ p)
  IsApart t p (insert u) = Unit
  IsApart t p (remove q) = q ≢ p
  IsApart t p (purge_by do_soft now key) = Unit

  -- The thread t is the only one with the object p.
  abbrev pub IsOnly : ℕ → ℕ → World B H O sha256 → Type 0
  IsOnly t p w = ((w.threads t).objcore ≡ p) × ((u : ℕ) → u ≢ t → (w.threads u).objcore ≢ p)

  -- The associations of p, with those that the thread t has still to make
  abbrev pub expected : ℕ → ℕ → World B H O sha256 → List Oc → List (Bytes × ℕ)
  expected t p w l = pairs_of p l ++ map (λ d. (sha256 d, p)) (w.threads t).words

  set_thread-IsOnly :
      (t p u : ℕ) (i : Thread) (w : World B H O sha256)
      → IsOnly t p w
      → (u ≡ t → i.objcore ≡ p)
      → (u ≢ t → i.objcore ≢ p)
      → IsOnly t p (set_thread B H O sha256 u i w)
  set_thread-IsOnly t p u i w (mine, rest) a b = (
    elim (Bool-cases (t == u)) [ inl e ↦ rw e (a (sym ((==_iff t u).0 e))) | inr e ↦ rw e mine ],
    λ v n. elim (Bool-cases (v == u)) [
      | inl e ↦ (let same = (==_iff v u).0 e in rw e (b (λ k. n (same ∙ k))))
      | inr e ↦ rw e (rest v n)
    ],
  )

  Step-apart :
      (t p : ℕ) {a : Action B H O sha256} {w w' : World B H O sha256} {l : List Oc}
      → IsApart t p a
      → IsOnly t p w
      → Step B H O sha256 a w w'
      → Refines H O h o w.index l
      → (l' : List Oc) × Refines H O h o w'.index l'
        × IsOnly t p w'
        × (expected t p w' l' ≡ expected t p w l)
  Step-apart t p {w = w} {l = l} a only (enters {t = u} {p = q} {ws = ws} idle k e) r =
      let i : Thread = record { objcore = q; words = ws } in
      let there = unequal t u (λ k. a.0 (sym k)) in
      (
        l,
        rw e r,
        rw e (set_thread-IsOnly t p u i w only (λ k. absurd (a.0 k)) (λ _. a.1)),
        rw e (rw there refl),
      )
  Step-apart t p {w = w} {l = l} a only (inserts {t = u} {d} {ws} {x} i q e) r =
      let (x', e', r') = xkey_insert-Refines H O h o w.index l (w.threads u).objcore (sha256 d) r in
      let same : x ≡ x' = cc in
      let oc : Oc = record {
        address = w.index.next_address;
        digest = sha256 d;
        objcore = (w.threads u).objcore;
      } in
      let j : Thread = record (w.threads u) { words = ws } in
      let mine = λ (k : u ≡ t). ap (λ v. (w.threads v).objcore) k ∙ only.0 in
      let w1 : World B H O sha256 = record w { index = x } in
      (
        l ++ (oc ∷ []),
        rw e (rw same r'),
        rw e (set_thread-IsOnly t p u j w1 only mine (only.1 u)),
        rw e (elim (Bool-cases (t == u)) [
          | inl k ↦
              (let here : u ≡ t = sym ((==_iff t u).0 k) in
                let words : (w.threads t).words ≡ d ∷ ws =
                  ap (λ v. (w.threads v).words) (sym here) ∙ i in
                rw (k, words)
                  (rw (pairs_of-append p l oc (sym (mine here)))
                    (append_assoc (pairs_of p l) ((sha256 d, p) ∷ []) _)))
          | inr k ↦
              (let apart : u ≢ t = λ m. Bool-apart t u k (sym m) in
                rw k (rw (pairs_of-other p l oc (only.1 u apart)) refl))
        ]),
      )
  Step-apart t p {w = w} {l = l} a only (removes {p = q} e) r = (
    others q l,
    rw e (xkey_cb_remove-Refines H O h o q w.index l r),
    rw e only,
    rw e (rw (pairs_of-others q p l a) refl),
  )
  Step-apart t p {l = l} a only (purges q e) r = (l, rw e r, rw e only, rw e refl)

  -- A thread t that is the only one with an object p, and whatever the threads do as long as t does not
  -- start another call and nobody removes p or starts to insert it: no association of p is lost,
  -- doubled or out of order. Those that the index has for p at the end, with those that t has still to make,
  -- are those that it had, with those that t had to make.
  pub Steps-apart :
      (t p : ℕ) {acts : List (Action B H O sha256)} {w w' : World B H O sha256} {l : List Oc}
      → All (IsApart t p) acts
      → IsOnly t p w
      → Steps B H O sha256 acts w w'
      → Refines H O h o w.index l
      → (l' : List Oc) × Refines H O h o w'.index l' × (expected t p w' l' ≡ expected t p w l)
  Steps-apart t p {l = l} a only stays r = (l, r, refl)
  Steps-apart t p a only (next s ss) r =
      let (l1, r1, only1, e1) = Step-apart t p a.0 only s r in
      let (l2, r2, e2) = Steps-apart t p a.1 only1 ss r1 in (l2, r2, e2 ∙ e1)
