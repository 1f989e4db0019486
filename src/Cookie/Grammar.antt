-- ===== src/Cookie/Grammar.antt =====
-- The text of a Cookie header as src/vmod_cookie.c reads it: a grammar, with one reading for each text.
use mathlib.Core.Path.{subst}
use mathlib.Core.List.{append_assoc}
use operations_debs_varnish.Base.{
  ℕ, true, false, List, [], ◌∷◌, ◌++◌, ◌≡◌, refl, sym, ap, ◌∙◌, inl, inr, Bool-cases, Bytes, All,
  is_space, skip_space, missing, found, cut, Cuts, cut-Cuts, Lacks, cut_found, cut_missing,
}
use operations_debs_varnish.Cookie.Parse.{HasNoLead, skip_space-HasNoLead, HasNoLead-prefix}

abbrev pub AreSpaces : Bytes → Type 0
AreSpaces = All (λ c. is_space c ≡ true)

-- The pairs of a header: a name runs to the next '=', behind white space, and a value from there to
-- the next ';' or to the end. What follows the last '=' of a name is not read.
pub data Reads : Bytes → List (Bytes × Bytes) → Type 0 where
  ends : {s : Bytes} → Lacks b'=' s → Reads s []
  last :
      {s n v : Bytes} (lead : Bytes)
      → s ≡ lead ++ (n ++ (b'=' ∷ v))
      → AreSpaces lead
      → HasNoLead n
      → Lacks b'=' n
      → Lacks b';' v
      → Reads s ((n, v) ∷ [])
  more :
      {s n v rest : Bytes} {ps : List (Bytes × Bytes)} (lead : Bytes)
      → s ≡ lead ++ (n ++ (b'=' ∷ (v ++ (b';' ∷ rest))))
      → AreSpaces lead
      → HasNoLead n
      → Lacks b'=' n
      → Lacks b';' v
      → Reads rest ps
      → Reads s ((n, v) ∷ ps)

-- The white space in front of a text
pub skip_space-split : (s : Bytes) → (lead : Bytes) × (s ≡ lead ++ skip_space s) × AreSpaces lead
unfolding skip_space
skip_space-split [] = ([], refl, tt)
skip_space-split (c ∷ s) = elim (Bool-cases (is_space c)) [
  | inl e ↦
      let (lead, q, a) = skip_space-split s in (c ∷ lead, rw (e, skip_space) (ap (◌∷◌ c) q), (e, a))
  | inr e ↦ ([], rw (e, skip_space) refl, tt)
]

pub Lacks-spaces :
    (sep : ℕ) (lead s : Bytes)
    → is_space sep ≡ false
    → AreSpaces lead
    → Lacks sep s
    → Lacks sep (lead ++ s)
Lacks-spaces sep [] s k a l = l
Lacks-spaces sep (c ∷ lead) s k a l =
    ((λ e. absurd (cc (e, k, a.0))), Lacks-spaces sep lead s k a.1 l)

-- The name in front of a text, behind white space
name_of :
    (s n rest : Bytes)
    → cut b'=' (skip_space s) ≡ found n rest
    → (lead : Bytes) × (s ≡ lead ++ (n ++ (b'=' ∷ rest)))
      × AreSpaces lead
      × HasNoLead n
      × Lacks b'=' n
name_of s n rest e =
    let k : Cuts b'=' (skip_space s) (found n rest) = rw e at (cut-Cuts b'=' (skip_space s)) in
    let (lead, q, sp) = skip_space-split s in
    (
      lead,
      q ∙ ap (λ z. lead ++ z) k.0,
      sp,
      HasNoLead-prefix n (b'=' ∷ rest) (rw k.0 at (skip_space-HasNoLead s)),
      k.1,
    )

skip_space-spaces :
    (lead n rest : Bytes)
    → AreSpaces lead
    → HasNoLead n
    → skip_space (lead ++ (n ++ (b'=' ∷ rest))) ≡ n ++ (b'=' ∷ rest)
unfolding skip_space
skip_space-spaces [] [] rest sp nl = refl
skip_space-spaces [] (c ∷ n) rest sp nl = rw nl refl
skip_space-spaces (c ∷ lead) n rest (e, sp) nl = rw e (skip_space-spaces lead n rest sp nl)

Lacks-middle : (a rest : Bytes) → Lacks b'=' (a ++ (b'=' ∷ rest)) → ⊥
Lacks-middle [] rest l = l.0 refl
Lacks-middle (c ∷ a) rest l = Lacks-middle a rest l.1

-- The name is found again in the text.
cut-name :
    (s lead n rest : Bytes)
    → s ≡ lead ++ (n ++ (b'=' ∷ rest))
    → AreSpaces lead
    → HasNoLead n
    → Lacks b'=' n
    → cut b'=' (skip_space s) ≡ found n rest
cut-name s lead n rest e sp nl ne =
    rw (e, skip_space-spaces lead n rest sp nl) (cut_found b'=' n rest ne)

no_cut : (s lead n rest : Bytes) → s ≡ lead ++ (n ++ (b'=' ∷ rest)) → Lacks b'=' s → ⊥
no_cut s lead n rest e l =
    Lacks-middle (lead ++ n) rest (rw (append_assoc lead n (b'=' ∷ rest), ← e) l)

-- A header is read in one way only.
Reads-unique : {s : Bytes} {ps qs : List (Bytes × Bytes)} → Reads s ps → Reads s qs → ps ≡ qs
Reads-unique (ends l) (ends k) = refl
Reads-unique {s = s} (ends l) (last {n = n} {v = v} lead e sp nl ne nv) =
    absurd (no_cut s lead n v e l)
Reads-unique {s = s} (ends l) (more {n = n} lead e sp nl ne nv m) = absurd (no_cut s lead n _ e l)
Reads-unique {s = s} (last {n = n} {v = v} lead e sp nl ne nv) (ends l) =
    absurd (no_cut s lead n v e l)
Reads-unique {s = s} (more {n = n} lead e sp nl ne nv m) (ends l) = absurd (no_cut s lead n _ e l)
Reads-unique {s = s} (last {n = n} {v = v} lead e sp nl ne nv)
      (last {n = n'} {v = v'} lead' e' sp' nl' ne' nv') =
    let a = cut-name s lead n v e sp nl ne in
    let b = cut-name s lead' n' v' e' sp' nl' ne' in cc (a, b)
Reads-unique {s = s} (last {n = n} {v = v} lead e sp nl ne nv)
      (more {n = n'} {v = v'} {rest = rest} lead' e' sp' nl' ne' nv' m) =
    let a = cut-name s lead n v e sp nl ne in
    let b = cut-name s lead' n' _ e' sp' nl' ne' in
    absurd (cc (a, b, cut_missing b';' v nv, cut_found b';' v' rest nv'))
Reads-unique {s = s} (more {n = n} {v = v} {rest = rest} lead e sp nl ne nv m)
      (last {n = n'} {v = v'} lead' e' sp' nl' ne' nv') =
    let a = cut-name s lead n _ e sp nl ne in
    let b = cut-name s lead' n' v' e' sp' nl' ne' in
    absurd (cc (a, b, cut_missing b';' v' nv', cut_found b';' v rest nv))
Reads-unique {s = s} (more {n = n} {v = v} {rest = rest} {ps = ps} lead e sp nl ne nv m)
      (more {n = n'} {v = v'} {rest = rest'} {ps = qs} lead' e' sp' nl' ne' nv' m') =
    let a = cut-name s lead n _ e sp nl ne in
    let b = cut-name s lead' n' _ e' sp' nl' ne' in
    let c = cut_found b';' v rest nv in
    let d = cut_found b';' v' rest' nv' in
    let same : rest ≡ rest' = cc (a, b, c, d) in
    let others = Reads-unique m (subst (λ z. Reads z qs) (sym same) m') in cc (a, b, c, d, others)

pub Reads-last :
    (s n rest v : Bytes)
    → cut b'=' (skip_space s) ≡ found n rest
    → cut b';' rest ≡ missing v
    → Reads s ((n, v) ∷ [])
Reads-last s n rest v e e' =
    let k : Cuts b';' rest (missing v) = rw e' at (cut-Cuts b';' rest) in
    let (lead, q, sp, nl, ne) = name_of s n rest e in
    last lead (q ∙ ap (λ z. lead ++ (n ++ (b'=' ∷ z))) k.0) sp nl ne k.1

pub Reads-more :
    (s n rest v tail : Bytes) (ps : List (Bytes × Bytes))
    → cut b'=' (skip_space s) ≡ found n rest
    → cut b';' rest ≡ found v tail
    → Reads tail ps
    → Reads s ((n, v) ∷ ps)
Reads-more s n rest v tail ps e e' m =
    let k : Cuts b';' rest (found v tail) = rw e' at (cut-Cuts b';' rest) in
    let (lead, q, sp, nl, ne) = name_of s n rest e in
    more lead (q ∙ ap (λ z. lead ++ (n ++ (b'=' ∷ z))) k.0) sp nl ne k.1 m
