-- ===== src/Xkey/Promise.antt =====
-- The promise of src/vmod_xkey.c as a whole: an object that entered the cache under a key is purged by it.
use mathlib.Core.List.{Memᴰ, map}
use mathlib.Core.List.Memᴰ
use operations_debs_varnish.Base.{
  ℕ, true, false, List, [], ◌∷◌, some, ◌≡◌, ◌≢◌, refl, ap, inl, inr, arith, Bytes, eq_bytes,
  eq_bytes_refl, ◌==◌, ==_iff, Bool-cases,
}
use operations_debs_varnish.Tree.{Tree, IsMap}
use operations_debs_varnish.Xkey.Index.{Oc, Xkey}
use operations_debs_varnish.Xkey.Tokens.{tokens}
use operations_debs_varnish.Xkey.Purge.{Objects, purge_oc, vmod_purge}
use operations_debs_varnish.Xkey.Refines.{Refines}
use operations_debs_varnish.Xkey.Headers.{Keys, end, skipped, read, pairs}
use operations_debs_varnish.Xkey.History.{
  Change, enters, leaves, pairs_of_others, Evolves, stays, adds, takes, changes, changes-Evolves,
}
use operations_debs_varnish.Xkey.Simulates.{objects_of, visit, visits, Shows-purge}

-- The words of given headers are determined.
Keys-unique : {headers us vs : List Bytes} → Keys headers us → Keys headers vs → us ≡ vs
Keys-unique end end = refl
Keys-unique (skipped n k) (skipped m j) = Keys-unique k j
Keys-unique (skipped n k) (read m a t j e) = absurd (cc (n, m))
Keys-unique (read m a t j e) (skipped n k) = absurd (cc (n, m))
Keys-unique (read {v = v} {us = us} m a t k e) (read {v = v'} {us = us'} m' a' t' k' e') =
    let rest = Keys-unique k k' in
    let text : v ≡ v' = cc (a, a') in
    let first : us ≡ us' = cc (t, t', text) in cc (e, e', rest, first)

-- The object does not leave.
abbrev pub Remains : ℕ → List Change → Type 0
Remains p [] = Unit
Remains p (enters headers q ∷ cs) = Remains p cs
Remains p (leaves q ∷ cs) = (q ≢ p) × Remains p cs

pair-others :
    (p q : ℕ) (d : Bytes) (ps : List (Bytes × ℕ))
    → q ≢ p
    → Memᴰ (d, p) ps
    → Memᴰ (d, p) (pairs_of_others q ps)
pair-others p q d [] n m = absurd (Memᴰ.not-nil m)
pair-others p q d (c ∷ ps) n (Memᴰ.head e) =
    let same : p ≡ c.1 = ap (λ z. z.1) e in
    let other : (q == c.1) ≡ false = ground (arith, ==_iff q c.1) in rw other (Memᴰ.head e)
pair-others p q d (c ∷ ps) n (Memᴰ.tail m) = elim (Bool-cases (q == c.1)) [
  | inl e ↦ rw e (pair-others p q d ps n m)
  | inr e ↦ rw e (Memᴰ.tail (pair-others p q d ps n m))
]

Evolves-pair :
    {sha256 : Bytes → Bytes} {ps qs : List (Bytes × ℕ)} {cs : List Change} (p : ℕ) (d : Bytes)
    → Evolves sha256 ps cs qs
    → Remains p cs
    → Memᴰ (d, p) ps
    → Memᴰ (d, p) qs
Evolves-pair p d stays r m = m
Evolves-pair p d (adds k e s) r m = Evolves-pair p d s r (rw e (Memᴰ.append_left _ m))
Evolves-pair {ps = ps} p d (takes {p = q} e s) (n, r) m =
    Evolves-pair p d s r (rw e (pair-others p q d ps n m))

Memᴰ-keyed :
    (sha256 : Bytes → Bytes) (p : ℕ) (w : Bytes) (ws : List Bytes)
    → Memᴰ w ws
    → Memᴰ (sha256 w, p) (map {B = Bytes × ℕ} (λ v. (sha256 v, p)) ws)
Memᴰ-keyed sha256 p w [] m = absurd (Memᴰ.not-nil m)
Memᴰ-keyed sha256 p w (v ∷ ws) (Memᴰ.head e) = Memᴰ.head (ap (λ z. (sha256 z, p)) e)
Memᴰ-keyed sha256 p w (v ∷ ws) (Memᴰ.tail m) = Memᴰ.tail (Memᴰ-keyed sha256 p w ws m)

-- An object that entered under a word and remains is paired with the digest of the word.
Evolves-entered :
    {sha256 : Bytes → Bytes} {ps qs : List (Bytes × ℕ)} {cs : List Change} {headers ws : List Bytes}
    (p : ℕ) (w : Bytes)
    → Evolves sha256 ps (enters headers p ∷ cs) qs
    → Keys headers ws
    → Memᴰ w ws
    → Remains p cs
    → Memᴰ (sha256 w, p) qs
Evolves-entered {sha256 = sha256} {ps = ps} {ws = ws} p w (adds {ws = vs} k e s) j m r =
    let same : vs ≡ ws = Keys-unique k j in
    Evolves-pair p (sha256 w) s r (rw (e, same) (Memᴰ.append_right ps (Memᴰ-keyed sha256 p w ws m)))

objects_of-pair :
    (B : Objects) (sha256 : Bytes → Bytes) (p : ℕ) (d : Bytes) (ps : List (Bytes × ℕ))
    → Memᴰ (d, p) ps
    → Memᴰ p (objects_of B sha256 d ps)
objects_of-pair B sha256 p d [] m = absurd (Memᴰ.not-nil m)
objects_of-pair B sha256 p d ((c, q) ∷ ps) (Memᴰ.head e) =
    let found : eq_bytes d c ≡ true = rw (ap (λ z. z.0) e) (eq_bytes_refl c) in
    rw found (Memᴰ.head (ap (λ z. z.1) e))
objects_of-pair B sha256 p d ((c, q) ∷ ps) (Memᴰ.tail m) = elim (Bool-cases (eq_bytes d c)) [
  | inl e ↦ rw e (Memᴰ.tail (objects_of-pair B sha256 p d ps m))
  | inr e ↦ rw e (objects_of-pair B sha256 p d ps m)
]

-- What is said of an object's times: a purge of it brings it about, no rearming takes it back, and
-- none makes the object busy.
pub record IsPurged (B : Objects) (p : ℕ) (P : B.Store → Type 0) : Type 0 where
  pub sets :
      (s : B.Store)
      → B.busy s p ≡ false
      → P (B.rearm p (B.t_origin s p) B.zero_time B.zero_time B.zero_time s)
  pub keeps :
      (q : ℕ) (now ttl grace stale : B.Time) (s : B.Store)
      → P s
      → P (B.rearm q now ttl grace stale s)
  pub idle :
      (q : ℕ) (now ttl grace stale : B.Time) (s : B.Store)
      → B.busy s p ≡ false
      → B.busy (B.rearm q now ttl grace stale s) p ≡ false

module _ (B : Objects) (sha256 : Bytes → Bytes) (p : ℕ) (P : B.Store → Type 0)
    (i : IsPurged B p P) where
  purge_oc_keeps :
      (now : B.Time) (q : ℕ) (r : B.Store × ℕ)
      → (B.busy r.0 p ≡ false → B.busy (purge_oc B false now q r).0 p ≡ false)
        × (P r.0 → P (purge_oc B false now q r).0)
  unfolding purge_oc
  purge_oc_keeps now q (s, n) = elim (Bool-cases (B.busy s q)) [
    | inl e ↦ rw e ((λ h. h), (λ h. h))
    | inr e ↦ rw e (i.idle q _ _ _ _ s, i.keeps q _ _ _ _ s)
  ]

  purge_oc_sets :
      (now : B.Time) (r : B.Store × ℕ) → B.busy r.0 p ≡ false → P (purge_oc B false now p r).0
  unfolding purge_oc
  purge_oc_sets now (s, n) e = rw e (i.sets s e)

  visit_keeps :
      (now : B.Time) (os : List ℕ) (r : B.Store × ℕ)
      → (B.busy r.0 p ≡ false → B.busy (visit B sha256 false now os r).0 p ≡ false)
        × (P r.0 → P (visit B sha256 false now os r).0)
  visit_keeps now [] r = ((λ h. h), (λ h. h))
  visit_keeps now (q ∷ os) r =
      let one = purge_oc_keeps now q r in
      let rest = visit_keeps now os (purge_oc B false now q r) in
      ((λ h. rest.0 (one.0 h)), (λ h. rest.1 (one.1 h)))

  visit_sets :
      (now : B.Time) (os : List ℕ) (r : B.Store × ℕ)
      → Memᴰ p os
      → B.busy r.0 p ≡ false
      → P (visit B sha256 false now os r).0
  visit_sets now [] r m e = absurd (Memᴰ.not-nil m)
  visit_sets now (q ∷ os) r (Memᴰ.head k) e =
      (visit_keeps now os (purge_oc B false now q r)).1 (rw (← k) (purge_oc_sets now r e))
  visit_sets now (q ∷ os) r (Memᴰ.tail m) e =
      visit_sets now os (purge_oc B false now q r) m ((purge_oc_keeps now q r).0 e)

  visits_keeps :
      (now : B.Time) (ws : List Bytes) (ps : List (Bytes × ℕ)) (r : B.Store × ℕ)
      → P r.0
      → P (visits B sha256 false now ws ps r).0
  visits_keeps now [] ps r h = h
  visits_keeps now (w ∷ ws) ps r h =
      visits_keeps now ws ps _ ((visit_keeps now (objects_of B sha256 (sha256 w) ps) r).1 h)

  visits_sets :
      (now : B.Time) (w : Bytes) (ws : List Bytes) (ps : List (Bytes × ℕ)) (r : B.Store × ℕ)
      → Memᴰ w ws
      → Memᴰ (sha256 w, p) ps
      → B.busy r.0 p ≡ false
      → P (visits B sha256 false now ws ps r).0
  visits_sets now w [] ps r m k e = absurd (Memᴰ.not-nil m)
  visits_sets now w (v ∷ ws) ps r (Memᴰ.head q) k e = visits_keeps now ws ps _ (
      visit_sets now (objects_of B sha256 (sha256 v) ps) r
        (rw (← q) (objects_of-pair B sha256 p (sha256 w) ps k)) e)
  visits_sets now w (v ∷ ws) ps r (Memᴰ.tail m) k e =
      visits_sets now w ws ps _ m k ((visit_keeps now (objects_of B sha256 (sha256 v) ps) r).0 e)

  -- Over trees that are finite maps, with an index that stands for a list of associations: an object
  -- that enters the cache with a header that names a word as a key, and does not leave whatever else
  -- enters and leaves, is purged by every key that has the word, if it is not busy. No call fails,
  -- and what the purge of the object says of its times holds afterwards, where no rearming takes it
  -- back or makes the object busy.
  pub entered-purged :
      (H : Tree Bytes (List Oc)) (O : Tree ℕ (List Oc)) (h : IsMap H) (o : IsMap O) (now : B.Time)
      (headers ws us : List Bytes) (cs : List Change) (w key : Bytes) (x : Xkey H O) (l : List Oc)
      (s : B.Store)
      → Refines H O h o x l
      → Keys headers ws
      → Memᴰ w ws
      → Remains p cs
      → key ≢ []
      → tokens key ≡ some us
      → Memᴰ w us
      → B.busy s p ≡ false
      → (x' : Xkey H O) × (r : B.Store × ℕ) × (changes H O sha256 (enters headers p ∷ cs) x
          ≡ some x')
        × (vmod_purge B H O sha256 now x' (some key) s ≡ some r)
        × P r.0
  unfolding vmod_purge
  entered-purged H O h o now headers ws us cs w key x l s f k m t n e q b =
      let (x', l', c, f', v) = changes-Evolves H O sha256 h o (enters headers p ∷ cs) x l f in
      let (vs, e', g) =
        Shows-purge B sha256 H O h o false now x' (pairs l') key s (l', f', refl) n in
      let same : us ≡ vs = cc (e, e') in
      (
        x',
        visits B sha256 false now vs (pairs l') (s, 0),
        c,
        g,
        visits_sets now w vs (pairs l') (s, 0) (rw (← same) q) (Evolves-entered p w v k m t) b,
      )
