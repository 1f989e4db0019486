-- ===== src/Cookie/Parse.antt =====
-- vmod_parse(): its loop ends, and what it leaves in the list.
use operations_debs_varnish.Base.{
  ℕ, zero, suc, ◌+◌, ◌<◌, true, false, List, [], ◌∷◌, ◌++◌, Option, some, ◌≡◌, refl, ap, ◌⊎◌, inl,
  inr, arith, Bool-cases, Bytes, eq_bytes, length, length-append, All, is_space, skip_space,
  length-skip_space-le, Cut, missing, found, cut, Cuts, cut-Cuts, Lacks,
}
use operations_debs_varnish.Workspace.{Workspace}
use operations_debs_varnish.Cookie.{
  Cookie, set_value, is_blank, text, Task, cobj_get, set, parse_loop, parse, clean_old, log_line,
  parsed, is_empty,
}
use operations_debs_varnish.Cookie.Jar.{IsJar}
use operations_debs_varnish.Cookie.Operations.{set_jar, set-IsJar}

-- The first byte is no white space.
abbrev pub HasNoLead : Bytes → Type 0
HasNoLead [] = Unit {0}
HasNoLead (c ∷ s) = is_space c ≡ false

-- A name and a value as the parser cuts them out of a header.
pub record IsPair (n v : Bytes) : Type 0 where
  pub no_lead : HasNoLead n
  pub no_equals : Lacks b'=' n
  pub no_semicolon : Lacks b';' v

abbrev pub IsPrintable : Cookie → Type 0
IsPrintable c = IsPair c.name c.value

pub skip_space-HasNoLead : (s : Bytes) → HasNoLead (skip_space s)
unfolding skip_space
skip_space-HasNoLead [] = tt
skip_space-HasNoLead (c ∷ s) = ground (arith, skip_space-HasNoLead s)

pub HasNoLead-prefix : (a b : Bytes) → HasNoLead (a ++ b) → HasNoLead a
HasNoLead-prefix [] b h = tt
HasNoLead-prefix (c ∷ a) b h = h

pub Cut-cases : (k : Cut) → ((a : Bytes) × (k ≡ missing a)) ⊎ ((a r : Bytes) × (k ≡ found a r))
Cut-cases (missing a) = inl (a, refl)
Cut-cases (found a r) = inr (a, r, refl)

pub length-cut : (c : ℕ) (s a r : Bytes) → cut c s ≡ found a r → length r < length s
length-cut c s a r e =
    let k : Cuts c s (found a r) = rw e at (cut-Cuts c s) in
    omega (arith, ap length k.0, length-append a (c ∷ r))

name_of_cut : (s n r : Bytes) → cut b'=' (skip_space s) ≡ found n r → HasNoLead n × Lacks b'=' n
name_of_cut s n r e =
    let k : Cuts b'=' (skip_space s) (found n r) = rw e at (cut-Cuts b'=' (skip_space s)) in
    (HasNoLead-prefix n (b'=' ∷ r) (rw k.0 at (skip_space-HasNoLead s)), k.1)

after_cut :
    (k : Cut) (s : Bytes)
    → Cuts b';' s k
    → (v : Bytes) → (k ≡ missing v) ⊎ ((r : Bytes) × (k ≡ found v r))
    → Lacks b';' v
after_cut (missing a) s c v (inl e) = ground arith
after_cut (found a r) s c v (inr (r', e)) = ground arith
after_cut (missing a) s c v (inr (r', e)) = cc
after_cut (found a r) s c v (inl e) = cc

IsPair-of_cuts :
    (p n rest v : Bytes)
    → cut b'=' (skip_space p) ≡ found n rest
    → (cut b';' rest ≡ missing v) ⊎ ((r : Bytes) × (cut b';' rest ≡ found v r))
    → IsPair n v
IsPair-of_cuts p n rest v e k = record {
  no_lead = (name_of_cut p n rest e).0;
  no_equals = (name_of_cut p n rest e).1;
  no_semicolon = after_cut (cut b';' rest) rest (cut-Cuts b';' rest) v k;
}

pub shorter :
    (p n rest v more : Bytes)
    → cut b'=' (skip_space p) ≡ found n rest
    → cut b';' rest ≡ found v more
    → length more < length p
shorter p n rest v more e k =
    omega (arith, length-cut _ _ _ _ e, length-cut _ _ _ _ k, length-skip_space-le p)

is_empty-nil : (cs : List Cookie) → is_empty cs ≡ true → cs ≡ []
is_empty-nil [] e = refl
is_empty-nil (c ∷ cs) e = cc

module _ (W : Workspace) where
  -- The rule of the loop: what each set() of a pair keeps holds at the end, and the fuel suffices.
  pub parse_loop_rule {ℓ} :
      (P : Task W → Type ℓ)
      → ((n v : Bytes) (t : Task W) → IsPair n v → P t → P (set W (some n) (some v) t))
      → (fuel : ℕ) (p : Bytes) (i : ℕ) (t : Task W) → length p < fuel
      → P t
      → (i' : ℕ) × (t' : Task W) × (parse_loop W fuel p i t ≡ some (i', t')) × P t'
  unfolding parse_loop
  parse_loop_rule P keep zero p i t h x = absurd (omega arith)
  parse_loop_rule P keep (suc fuel) [] i t h x = (i, t, refl, x)
  parse_loop_rule P keep (suc fuel) (c ∷ p) i t h x =
      elim (Cut-cases (cut b'=' (skip_space (c ∷ p)))) [
        | inl (a, e) ↦ (i, t, rw (e, parse_loop), x)
        | inr (n, rest, e) ↦ elim (Cut-cases (cut b';' rest)) [
          | inl (v, e') ↦ (
            i + 1,
            set W (some n) (some v) t,
            rw (e, parse_loop) (rw e'),
            keep n v t (IsPair-of_cuts (c ∷ p) n rest v e (inl e')) x,
          )
          | inr (v, more, e') ↦
              let r =
                parse_loop_rule P keep fuel more (i + 1) (set W (some n) (some v) t)
                  (omega (arith, shorter (c ∷ p) n rest v more e e'))
                  (keep n v t (IsPair-of_cuts (c ∷ p) n rest v e (inr (more, e'))) x) in
              (r.0, r.1, rw (e, parse_loop) (rw e' r.2), r.3)
        ]
      ]

  abbrev IsParsed : Task W → Type 0
  IsParsed t = IsJar (cobj_get W t) × All IsPrintable (cobj_get W t)

  set_value-IsPrintable :
      (n v : Bytes) (cs : List Cookie)
      → Lacks b';' v
      → All IsPrintable cs
      → All IsPrintable (set_value n v cs)
  unfolding set_value
  set_value-IsPrintable n v [] l a = tt
  set_value-IsPrintable n v (c ∷ cs) l a = elim (Bool-cases (eq_bytes c.name n)) [
    | inl e ↦
        rw e (record { no_lead = a.0.no_lead; no_equals = a.0.no_equals; no_semicolon = l }, a.1)
    | inr e ↦ rw e (a.0, set_value-IsPrintable n v cs l a.1)
  ]

  append-IsPrintable :
      (d : Cookie) (cs : List Cookie)
      → IsPrintable d
      → All IsPrintable cs
      → All IsPrintable (cs ++ (d ∷ []))
  append-IsPrintable d [] p a = (p, tt)
  append-IsPrintable d (c ∷ cs) p a = (a.0, append-IsPrintable d cs p a.1)

  set-IsParsed :
      (n v : Bytes) (t : Task W) → IsPair n v → IsParsed t → IsParsed (set W (some n) (some v) t)
  set-IsParsed n v t p x = (
    set-IsJar W (some n) (some v) t x.0,
    elim (set_jar W n v t) [
      | inl e ↦ rw e x.1
      | inr (inl e) ↦ rw e (set_value-IsPrintable n v _ p.no_semicolon x.1)
      | inr (inr e) ↦ rw e (append-IsPrintable _ _ p x.1)
    ],
  )

  pub clean_old_empty : (t : Task W) → cobj_get W (clean_old W t) ≡ []
  unfolding clean_old
  clean_old_empty t = elim (Bool-cases (is_empty (cobj_get W t))) [
    | inl e ↦ rw (e, clean_old) (is_empty-nil _ e)
    | inr e ↦ rw (e, clean_old) refl
  ]

  -- parse() ends on every header that is not empty, whatever the workspace does and the list held,
  -- and every cookie then in the list has a name and a value, under a name of its own, that the
  -- parser could have cut out of a header.
  pub parse_total :
      (header : Option Bytes) (t : Task W)
      → is_blank header ≡ false
      → (t' : Task W) × (parse W header t ≡ some t')
        × IsJar (cobj_get W t')
        × All IsPrintable (cobj_get W t')
  unfolding parse
  parse_total header t h =
      let r =
        parse_loop_rule IsParsed (λ n v s. set-IsParsed n v s) (suc (length (text header)))
          (text header) 0 (clean_old W t) (omega arith)
          (rw (clean_old_empty t) (record { unique = tt; filled = tt }, tt)) in
      (log_line W (parsed r.0) r.1, rw (h, r.2), r.3.0, r.3.1)
