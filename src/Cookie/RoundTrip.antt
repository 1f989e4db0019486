-- ===== src/Cookie/RoundTrip.antt =====
-- vmod_get_string() and then vmod_parse(): the header that the module writes is the header that it
-- reads.
use mathlib.Core.List.{append_assoc, append-nil}
use operations_debs_varnish.Base.{
  ℕ, zero, suc, ◌+◌, ◌<◌, Bool, true, false, List, [], ◌∷◌, ◌++◌, none, some, ◌≡◌, ◌≢◌, refl, sym,
  ap, ◌∙◌, ◌⊎◌, inl, inr, arith, Bytes, eq_bytes_iff, length, length-append, All, skip_space,
  cut_found, cut, found,
}
use operations_debs_varnish.Workspace.{Workspace, IsRoomy}
use operations_debs_varnish.Cookie.{
  Cookie, find_cookie, is_blank, Task, cobj_get, set, parse_loop, parse, clean_old, log_line,
  parsed, print_cookies, get_string, lead,
}
use operations_debs_varnish.Cookie.Jar.{value_of, IsJar, IsUnique, IsFilled}
use operations_debs_varnish.Cookie.Parse.{IsPrintable, HasNoLead, clean_old_empty}

value_of-middle :
    (n : Bytes) (xs : List Cookie) (c : Cookie) (cs : List Cookie)
    → c.name ≡ n
    → value_of n (xs ++ (c ∷ cs)) ≢ none
unfolding value_of find_cookie
value_of-middle n [] c cs e = ground (arith, eq_bytes_iff c.name n)
value_of-middle n (x ∷ xs) c cs e = ground (arith, value_of-middle n xs c cs e)

unique_middle :
    (xs : List Cookie) (c : Cookie) (cs : List Cookie)
    → IsUnique (xs ++ (c ∷ cs))
    → value_of c.name xs ≡ none
unfolding value_of find_cookie
unique_middle [] c cs u = refl
unique_middle (x ∷ xs) c cs u =
    ground
      (arith, eq_bytes_iff x.name c.name, unique_middle xs c cs u.1, value_of-middle x.name xs c cs)

-- The text of one cookie, and what follows it.
abbrev pair_text : Cookie → Bytes → Bytes
pair_text c rest = c.name ++ (b'=' ∷ (c.value ++ (b';' ∷ rest)))

skip_space-name : (n s : Bytes) → n ≢ [] → HasNoLead n → skip_space (n ++ s) ≡ n ++ s
unfolding skip_space
skip_space-name [] s h l = absurd (h refl)
skip_space-name (c ∷ n) s h l = rw l

skip_space-lead :
    (front n s : Bytes)
    → (front ≡ []) ⊎ (front ≡ b' ' ∷ [])
    → n ≢ []
    → HasNoLead n
    → skip_space (front ++ (n ++ s)) ≡ n ++ s
unfolding skip_space
skip_space-lead front n s (inl e) h l = rw e (skip_space-name n s h l)
skip_space-lead front n s (inr e) h l = rw e (skip_space-name n s h l)

cut_name :
    (front : Bytes) (c : Cookie) (rest : Bytes)
    → (front ≡ []) ⊎ (front ≡ b' ' ∷ [])
    → IsFilled c
    → IsPrintable c
    → cut b'=' (skip_space (front ++ pair_text c rest)) ≡ found c.name (c.value ++ (b';' ∷ rest))
cut_name front c rest l f p =
    rw (skip_space-lead front c.name _ l f.0 p.no_lead) (cut_found b'=' c.name _ p.no_equals)

length-pair_text :
    (front : Bytes) (c : Cookie) (rest : Bytes) → length rest < length (front ++ pair_text c rest)
length-pair_text front c rest = omega (
  arith,
  length-append front (pair_text c rest),
  length-append c.name (b'=' ∷ (c.value ++ (b';' ∷ rest))),
  length-append c.value (b';' ∷ rest),
)

is_blank-some : (s : Bytes) → s ≢ [] → is_blank (some s) ≡ false
is_blank-some [] h = absurd (h refl)
is_blank-some (c ∷ s) h = refl

head_of_text :
    (front : Bytes) (c : Cookie) (rest : Bytes)
    → (d : ℕ) × (s : Bytes) × (front ++ pair_text c rest ≡ d ∷ s)
head_of_text (d ∷ front) c rest = (d, front ++ pair_text c rest, refl)
head_of_text [] c rest = go c.name
  where
    go : (n : Bytes) → (d : ℕ) × (s : Bytes) × (n ++ (b'=' ∷ (c.value ++ (b';' ∷ rest))) ≡ d ∷ s)
    go [] = (b'=', _, refl)
    go (d ∷ n) = (d, _, refl)

lead_of : (first : Bool) → (lead first ≡ []) ⊎ (lead first ≡ b' ' ∷ [])
lead_of true = inl refl
lead_of false = inr refl

module _ (W : Workspace) where
  parse_loop-cut :
      (fuel d : ℕ) (s n v more : Bytes) (i : ℕ) (t : Task W) (rest : Bytes)
      → cut b'=' (skip_space (d ∷ s)) ≡ found n rest
      → cut b';' rest ≡ found v more
      → parse_loop W (suc fuel) (d ∷ s) i t
        ≡ parse_loop W fuel more (i + 1) (set W (some n) (some v) t)
  unfolding parse_loop
  parse_loop-cut fuel d s n v more i t rest e e' = rw (e, parse_loop) (rw e')

  parse_loop-pair :
      (fuel : ℕ) (front : Bytes) (c : Cookie) (rest : Bytes) (i : ℕ) (t : Task W)
      → (front ≡ []) ⊎ (front ≡ b' ' ∷ [])
      → IsFilled c
      → IsPrintable c
      → parse_loop W (suc fuel) (front ++ pair_text c rest) i t
        ≡ parse_loop W fuel rest (i + 1) (set W (some c.name) (some c.value) t)
  parse_loop-pair fuel front c rest i t l f p =
      let (d, s, e) = head_of_text front c rest in
      rw e (
        parse_loop-cut fuel d s c.name c.value rest i t _ (rw e at (cut_name front c rest l f p))
          (cut_found b';' c.value rest p.no_semicolon))

  set-append :
      (c : Cookie) (t : Task W)
      → IsRoomy W
      → IsFilled c
      → value_of c.name (cobj_get W t) ≡ none
      → cobj_get W (set W (some c.name) (some c.value) t) ≡ cobj_get W t ++ (c ∷ [])
  unfolding set value_of
  set-append c t r f h =
      let a = W.alloc 40 t.ws in
      let p = W.copy c.name a.0 in
      ground (
        arith,
        is_blank-some c.name f.0,
        is_blank-some c.value f.1,
        r.alloc_fits 40 t.ws,
        r.copy_fits c.name a.0,
        r.copy_fits c.value p.0,
      )

  parse_loop-print :
      (cs : List Cookie) (first : Bool) (fuel i : ℕ) (t : Task W)
      → IsRoomy W
      → length (print_cookies first cs) < fuel
      → All IsFilled cs
      → All IsPrintable cs
      → IsUnique (cobj_get W t ++ cs)
      → (t' : Task W) × (parse_loop W fuel (print_cookies first cs) i t ≡ some (i + length cs, t'))
        × (cobj_get W t' ≡ cobj_get W t ++ cs)
  unfolding print_cookies parse_loop
  parse_loop-print [] first zero i t r h f p u = absurd (omega arith)
  parse_loop-print [] first (suc fuel) i t r h f p u =
      (t, (ap (λ k. some (k, t)) (omega arith)), sym (append-nil _))
  parse_loop-print (c ∷ cs) first zero i t r h f p u = absurd (omega arith)
  parse_loop-print (c ∷ cs) first (suc fuel) i t r h f p u =
      let s = set W (some c.name) (some c.value) t in
      let e = set-append c t r f.0 (unique_middle _ c cs u) in
      let joined : (cobj_get W t ++ (c ∷ [])) ++ cs ≡ cobj_get W t ++ (c ∷ cs) =
        append_assoc (cobj_get W t) (c ∷ []) cs in
      let (t', q, k) =
        parse_loop-print cs false fuel (i + 1) s r
          ((omega (arith, length-pair_text (lead first) c (print_cookies false cs)))) f.1 p.1
          (rw (e, joined) u) in
      (
        t',
        (parse_loop-pair fuel (lead first) c _ i t (lead_of first) f.0 p.0
            ∙ q
            ∙ ap (λ m. some (m, t')) (omega arith)),
        rw (k, e) joined,
      )

  print_cookies-is_blank :
      (cs : List Cookie) → cs ≢ [] → is_blank (some (print_cookies true cs)) ≡ false
  unfolding print_cookies
  print_cookies-is_blank [] h = absurd (h refl)
  print_cookies-is_blank (c ∷ cs) h =
      let (d, s, e) = head_of_text [] c (print_cookies false cs) in rw e refl

  -- With room in the workspace, a list that is not empty, with printable cookies that have names
  -- and values under distinct names, is what parse() reads back, in the same order, from the
  -- header that get_string() writes, whatever was parsed before.
  pub parse-get_string :
      (t u : Task W)
      → IsRoomy W
      → cobj_get W t ≢ []
      → IsJar (cobj_get W t)
      → All IsPrintable (cobj_get W t)
      → (u' : Task W) × (parse W (get_string W t).1 u ≡ some u') × (cobj_get W u' ≡ cobj_get W t)
  unfolding parse get_string
  parse-get_string t u r ne j p =
      let cs = cobj_get W t in
      let out = print_cookies true cs in
      let (u', e, k) =
        parse_loop-print cs true (suc (length out)) 0 (clean_old W u) r (omega arith) j.filled p
          (rw clean_old_empty j.unique) in
      (
        log_line W (parsed (0 + length cs)) u',
        rw (r.alloc_fits (length out + 1) t.ws) (rw (print_cookies-is_blank cs ne, e)),
        rw (k, clean_old_empty),
      )
