-- ===== src/Cookie/Names.antt =====
-- The comma-separated list of filter_cookies() in src/vmod_cookie.c: how it is read.
use mathlib.Core.Path.{subst}
use mathlib.Core.List.{append_assoc, append-nil}
use operations_debs_varnish.Base.{
  ℕ, zero, suc, ◌<◌, true, false, List, [], ◌∷◌, ◌++◌, some, ◌≡◌, ◌≢◌, refl, ap, ◌∙◌, ◌⊎◌, inl, inr,
  arith, if◌then◌else◌, Bool-cases, Bytes, eq_bytes, eq_bytes_iff, length, length-append, All,
  skip_space, length-skip_space-le, cut_found, cut_missing, Lacks, cut, found, missing, Cuts,
  cut-Cuts, is_space, sym,
}
use operations_debs_varnish.Cookie.{names_loop, match_names, matched}
use operations_debs_varnish.Cookie.Grammar.{AreSpaces, skip_space-split, Lacks-spaces}
use operations_debs_varnish.Cookie.Parse.{
  HasNoLead, skip_space-HasNoLead, HasNoLead-prefix, Cut-cases, length-cut,
}

-- A name as the list can express it.
pub record IsEntry (n : Bytes) : Type 0 where
  pub no_lead : HasNoLead n
  pub no_comma : Lacks b',' n
  pub filled : n ≢ []

abbrev pub Listed : Bytes → List Bytes → Type 0
Listed n [] = ⊥
Listed n (m ∷ ms) = (n ≡ m) ⊎ Listed n ms

pub matched_cases :
    (ms : List Bytes) (n : Bytes)
    → (Listed n ms × (matched ms n ≡ true)) ⊎ ((¬ Listed n ms) × (matched ms n ≡ false))
unfolding matched
matched_cases [] n = inr ((λ l. l), refl)
matched_cases (m ∷ ms) n = ground (arith, eq_bytes_iff n m, matched_cases ms n)

-- The list that names stand in, separated by commas.
abbrev pub join : List Bytes → Bytes
join [] = []
join (n ∷ []) = n
join (n ∷ m ∷ ms) = n ++ (b',' ∷ join (m ∷ ms))

List-cases : (l : Bytes) → (l ≡ []) ⊎ ((d : ℕ) × (s : Bytes) × (l ≡ d ∷ s))
List-cases [] = inl refl
List-cases (d ∷ s) = inr (d, s, refl)

shorter :
    (p : Bytes) (d : ℕ) (s q r : Bytes)
    → skip_space p ≡ d ∷ s
    → cut b',' (d ∷ s) ≡ found q r
    → length r < length p
shorter p d s q r e k = omega (arith, length-cut _ _ _ _ k, length-skip_space-le p, ap length e)

-- The names that the pieces between commas hold: without the white space in front, where something is left.
abbrev pub entries : List Bytes → List Bytes
entries [] = []
entries (f ∷ fs) = if eq_bytes (skip_space f) [] then entries fs else skip_space f ∷ entries fs

skip_space-lead : (lead q : Bytes) → AreSpaces lead → HasNoLead q → skip_space (lead ++ q) ≡ q
unfolding skip_space
skip_space-lead [] [] a h = refl
skip_space-lead [] (c ∷ q) a h = rw h refl
skip_space-lead (c ∷ lead) q a h = rw a.0 (skip_space-lead lead q a.1 h)

Lacks-skip_space : (sep : ℕ) (f : Bytes) → Lacks sep f → Lacks sep (skip_space f)
unfolding skip_space
Lacks-skip_space sep [] l = tt
Lacks-skip_space sep (c ∷ f) l = elim (Bool-cases (is_space c)) [
  | inl e ↦ rw e (Lacks-skip_space sep f l.1)
  | inr e ↦ rw e l
]

pub entries-IsEntry : (fs : List Bytes) → All (Lacks b',') fs → All IsEntry (entries fs)
entries-IsEntry [] a = tt
entries-IsEntry (f ∷ fs) a = elim (Bool-cases (eq_bytes (skip_space f) [])) [
  | inl e ↦ rw e (entries-IsEntry fs a.1)
  | inr e ↦ rw e (
    record {
      no_lead = skip_space-HasNoLead f;
      no_comma = Lacks-skip_space b',' f a.0;
      filled = λ k. ground (arith, eq_bytes_iff (skip_space f) []);
    },
    entries-IsEntry fs a.1,
  )
]

-- A piece in front of a comma, with the name that it holds
read_piece :
    (p q r : Bytes)
    → cut b',' (skip_space p) ≡ found q r
    → (f : Bytes) × (p ≡ f ++ (b',' ∷ r)) × Lacks b',' f × (skip_space f ≡ q)
read_piece p q r k =
    let c : Cuts b',' (skip_space p) (found q r) = rw k at (cut-Cuts b',' (skip_space p)) in
    let (lead, e, sp) = skip_space-split p in
    let free : HasNoLead q = HasNoLead-prefix q (b',' ∷ r) (rw c.0 at (skip_space-HasNoLead p)) in
    (
      lead ++ q,
      e ∙ (ap (λ z. lead ++ z) c.0 ∙ sym (append_assoc lead q (b',' ∷ r))),
      Lacks-spaces b',' lead q refl sp c.1,
      skip_space-lead lead q sp free,
    )

-- The last piece
Lacks-last : (p q : Bytes) → skip_space p ≡ q → Lacks b',' q → Lacks b',' p
Lacks-last p q e l =
    let (lead, k, sp) = skip_space-split p in rw (k, e) (Lacks-spaces b',' lead q refl sp l)

add_entry :
    (names : List Bytes) (f q : Bytes) (fs : List Bytes)
    → skip_space f ≡ q
    → (if eq_bytes q [] then names else names ++ (q ∷ [])) ++ entries fs ≡ names ++ entries (f ∷ fs)
add_entry names f q fs e = elim (Bool-cases (eq_bytes q [])) [
  | inl k ↦ rw (e, k) refl
  | inr k ↦ rw (e, k) (append_assoc names (q ∷ []) (entries fs))
]

no_entry : (names : List Bytes) (f : Bytes) → skip_space f ≡ [] → names ≡ names ++ entries (f ∷ [])
no_entry names f e =
    let empty : eq_bytes [] [] ≡ true = ground (arith, eq_bytes_iff [] []) in
    rw (e, empty) (sym (append-nil _))

last_entry :
    (names : List Bytes) (f : Bytes) (d : ℕ) (s q : Bytes)
    → skip_space f ≡ d ∷ s
    → d ∷ s ≡ q
    → names ++ (q ∷ []) ≡ names ++ entries (f ∷ [])
last_entry names f d s q e k =
    let filled : eq_bytes (d ∷ s) [] ≡ false = ground (arith, eq_bytes_iff (d ∷ s) []) in
    rw (e, ← k, filled) refl

-- The three ways of a round
names_loop-white :
    (fuel c : ℕ) (p : Bytes) (names : List Bytes)
    → skip_space (c ∷ p) ≡ []
    → names_loop (suc fuel) (c ∷ p) names ≡ some names
unfolding names_loop
names_loop-white fuel c p names e = rw (e, names_loop) refl

names_loop-last :
    (fuel c d : ℕ) (p s q : Bytes) (names : List Bytes)
    → skip_space (c ∷ p) ≡ d ∷ s
    → cut b',' (d ∷ s) ≡ missing q
    → names_loop (suc fuel) (c ∷ p) names ≡ some (names ++ (q ∷ []))
unfolding names_loop
names_loop-last fuel c d p s q names e k = rw (e, names_loop) (rw k refl)

names_loop-more :
    (fuel c d : ℕ) (p s q r : Bytes) (names : List Bytes)
    → skip_space (c ∷ p) ≡ d ∷ s
    → cut b',' (d ∷ s) ≡ found q r
    → names_loop (suc fuel) (c ∷ p) names
      ≡ names_loop fuel r (if eq_bytes q [] then names else names ++ (q ∷ []))
unfolding names_loop
names_loop-more fuel c d p s q r names e k = rw (e, names_loop) (rw k refl)

-- The text is pieces with commas between them, and the names found are theirs.
pub names_loop-entries :
    (fuel : ℕ) (p : Bytes) (names : List Bytes)
    → length p < fuel
    → (f : Bytes) × (fs : List Bytes) × (join (f ∷ fs) ≡ p)
      × All (Lacks b',') (f ∷ fs)
      × (names_loop fuel p names ≡ some (names ++ entries (f ∷ fs)))
unfolding names_loop
names_loop-entries zero p names h = absurd (omega arith)
names_loop-entries (suc fuel) [] names h =
    ([], [], refl, (tt, tt), ap some (no_entry names [] (unfold skip_space in refl)))
names_loop-entries (suc fuel) (c ∷ p) names h = elim (List-cases (skip_space (c ∷ p))) [
  | inl e ↦ (
    c ∷ p,
    [],
    refl,
    (Lacks-last (c ∷ p) [] e tt, tt),
    names_loop-white fuel c p names e ∙ ap some (no_entry names (c ∷ p) e),
  )
  | inr (d, s, e) ↦ elim (Cut-cases (cut b',' (d ∷ s))) [
    | inl (q, k) ↦
        let l : Cuts b',' (d ∷ s) (missing q) = rw k at (cut-Cuts b',' (d ∷ s)) in
        (
          c ∷ p,
          [],
          refl,
          (Lacks-last (c ∷ p) (d ∷ s) e (subst (Lacks b',') (sym l.0) l.1), tt),
          names_loop-last fuel c d p s q names e k ∙ ap some (last_entry names (c ∷ p) d s q e l.0),
        )
    | inr (q, r, k) ↦
        let (f, split, lacks, held) = read_piece (c ∷ p) q r (rw e k) in
        let (f', fs, j, a, o) =
          names_loop-entries fuel r (if eq_bytes q [] then names else names ++ (q ∷ []))
            (omega (arith, shorter (c ∷ p) d s q r e k)) in
        (
          f,
          f' ∷ fs,
          rw (j, split) refl,
          (lacks, a),
          names_loop-more fuel c d p s q r names e k
              ∙ o
              ∙ ap some (add_entry names f q (f' ∷ fs) held),
        )
  ]
]

skip_space-entry : (n s : Bytes) → IsEntry n → skip_space (n ++ s) ≡ n ++ s
unfolding skip_space
skip_space-entry [] s e = absurd (e.filled refl)
skip_space-entry (c ∷ n) s e = rw e.no_lead

names_loop-found :
    (fuel d : ℕ) (p q r : Bytes) (names : List Bytes)
    → skip_space (d ∷ p) ≡ d ∷ p
    → cut b',' (d ∷ p) ≡ found q r
    → q ≢ []
    → names_loop (suc fuel) (d ∷ p) names ≡ names_loop fuel r (names ++ (q ∷ []))
names_loop-found fuel d p q r names e k ne =
    let filled : eq_bytes q [] ≡ false = ground (arith, eq_bytes_iff q []) in
    names_loop-more fuel d d p p q r names e k ∙ rw filled refl

names_loop-missing :
    (fuel d : ℕ) (p q : Bytes) (names : List Bytes)
    → skip_space (d ∷ p) ≡ d ∷ p
    → cut b',' (d ∷ p) ≡ missing q
    → names_loop (suc fuel) (d ∷ p) names ≡ some (names ++ (q ∷ []))
names_loop-missing fuel d p q names e k = names_loop-last fuel d d p p q names e k

names_loop-join :
    (ns : List Bytes) (fuel : ℕ) (names : List Bytes)
    → All IsEntry ns
    → length (join ns) < fuel
    → names_loop fuel (join ns) names ≡ some (names ++ ns)
names_loop-join ns zero names a h = absurd (omega arith)
names_loop-join [] (suc fuel) names a h = unfold names_loop in rw append-nil
names_loop-join ([] ∷ ns) (suc fuel) names a h = absurd (a.0.filled refl)
names_loop-join ((d ∷ n) ∷ []) (suc fuel) names a h =
    names_loop-missing fuel d n (d ∷ n) names (rw append-nil at (skip_space-entry (d ∷ n) [] a.0))
      (cut_missing b',' (d ∷ n) a.0.no_comma)
names_loop-join ((d ∷ n) ∷ m ∷ ms) (suc fuel) names a h =
    names_loop-found fuel d _ (d ∷ n) (join (m ∷ ms)) names (skip_space-entry (d ∷ n) _ a.0)
      (cut_found b',' (d ∷ n) _ a.0.no_comma) a.0.filled
    ∙ names_loop-join (m ∷ ms) fuel (names ++ ((d ∷ n) ∷ [])) a.1
        (omega (arith, length-append n (b',' ∷ join (m ∷ ms))))
    ∙ ap some (append_assoc names ((d ∷ n) ∷ []) (m ∷ ms))

-- Names that the list can express are read back from it in order.
match_names-join : (ns : List Bytes) → All IsEntry ns → match_names (some (join ns)) ≡ some ns
unfolding match_names
match_names-join ns a = names_loop-join ns (suc (length (join ns))) [] a (omega arith)
