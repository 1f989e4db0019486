-- ===== src/Cookie/Operations.antt =====
-- What each function of the module does to the values that a request can read back, on every
-- branch, and the invariant over every sequence of calls.
use operations_debs_varnish.Base.{
  true, false, List, [], ◌∷◌, ◌++◌, Option, none, some, ◌≡◌, ◌≢◌, refl, ap, ◌⊎◌, inl, inr, arith,
  ◌||◌, length-append, eq_bytes_iff, if◌then◌else◌, Bool-cases, Option-cases, Bytes, eq_bytes,
  length,
}
use operations_debs_varnish.Workspace.{Workspace, IsRoomy}
use operations_debs_varnish.Cookie.{
  Message, find_cookie, set_value, is_blank, text, Task, cobj_get, set_found, set_new, set, delete,
  get,
}
use operations_debs_varnish.Cookie.Jar.{
  value_of, value_of-set_value, value_of-append, value_of-remove_cookie, IsJar, set_value-IsJar,
  append-IsJar,
}

module _ (W : Workspace) where
  -- The call stored the cookie and logged nothing, or it logged one line and stored nothing.
  abbrev pub Stores : Bytes → Bytes → Task W → Task W → Type 0
  Stores n v t t' =
      ((t'.log ≡ t.log)
        × ((j : Bytes)
            → value_of j (cobj_get W t')
              ≡ (if eq_bytes n j then some v else value_of j (cobj_get W t)))
        × (IsJar (cobj_get W t) → IsJar (cobj_get W t')))
      ⊎ ((m : Message) × (t'.log ≡ t.log ++ (m ∷ [])) × (cobj_get W t' ≡ cobj_get W t))

  set_found-Stores :
      (n v : Bytes) (t : Task W)
      → v ≢ []
      → value_of n (cobj_get W t) ≢ none
      → Stores n v t (set_found W n v t)
  unfolding set_found
  set_found-Stores n v t h k = elim (Bool-cases (W.copy v t.ws).1) [
    | inl e ↦ rw e (inl (refl, λ j. value_of-set_value n j v _ k, set_value-IsJar n v _ h k))
    | inr e ↦ rw e (inr (Message.overflow_in_set, refl, refl))
  ]

  set_new-Stores :
      (n v : Bytes) (t : Task W)
      → n ≢ []
      → v ≢ []
      → value_of n (cobj_get W t) ≡ none
      → Stores n v t (set_new W n v t)
  unfolding set_new
  set_new-Stores n v t hn hv k =
      let a = W.alloc 40 t.ws in
      let p = W.copy n a.0 in
      elim (Bool-cases a.1) [
        | inr e ↦ rw e (inr (Message.no_storage, refl, refl))
        | inl e ↦ rw e (elim (Bool-cases p.1) [
          | inr e' ↦ rw e' (inr (Message.no_storage, refl, refl))
          | inl e' ↦ rw e' (elim (Bool-cases (W.copy v p.0).1) [
            | inr e'' ↦ rw e'' (inr (Message.no_storage, refl, refl))
            | inl e'' ↦
                rw e'' (inl (refl, λ j. value_of-append n j v _ k, append-IsJar n v _ hn hv k))
          ])
        ])
      ]

  is_blank-ne : (o : Option Bytes) → is_blank o ≡ false → text o ≢ []
  is_blank-ne none h = cc
  is_blank-ne (some []) h = cc
  is_blank-ne (some (c ∷ s)) h = ground arith

  set-Stores :
      (name value : Option Bytes) (t : Task W)
      → is_blank name ≡ false
      → is_blank value ≡ false
      → Stores (text name) (text value) t (set W name value t)
  unfolding set value_of
  set-Stores name value t hn hv = elim (Option-cases (find_cookie (text name) (cobj_get W t))) [
    | inl e ↦
        rw (hn, hv, e)
          (set_new-Stores _ _ t (is_blank-ne name hn) (is_blank-ne value hv) (rw (e, value_of)))
    | inr (c, e) ↦
        rw (hn, hv, e)
          (set_found-Stores _ _ t (is_blank-ne value hv) (rw (e, value_of) (ground arith)))
  ]

  text_blank : (o : Option Bytes) → is_blank o ≡ true → text o ≡ []
  text_blank none h = refl
  text_blank (some []) h = refl
  text_blank (some (c ∷ s)) h = cc

  some-text : (o : Option Bytes) → is_blank o ≡ false → o ≡ some (text o)
  some-text none h = cc
  some-text (some s) h = refl

  pub get-value_of :
      (j : Option Bytes) (t : Task W)
      → get W j t ≡ (if is_blank j then none else value_of (text j) (cobj_get W t))
  unfolding get value_of
  get-value_of j t = refl

  pub roomy_log :
      (name value : Option Bytes) (t : Task W) → IsRoomy W → (set W name value t).log ≡ t.log
  unfolding set
  roomy_log name value t r =
      let a = W.alloc 40 t.ws in
      let p = W.copy (text name) a.0 in
      ground (
        arith,
        r.alloc_fits 40 t.ws,
        r.copy_fits (text name) a.0,
        r.copy_fits (text value) p.0,
        r.copy_fits (text value) t.ws,
      )

  get-stored :
      (name value j : Option Bytes) (t' t : Task W)
      → is_blank name ≡ false
      → is_blank value ≡ false
      → value_of (text j) (cobj_get W t') ≡ (
          if eq_bytes (text name) (text j)
          then some (text value)
          else value_of (text j) (cobj_get W t))
      → get W j t' ≡ (if eq_bytes (text name) (text j) then value else get W j t)
  get-stored name value j t' t hn hv e = ground (
    arith,
    get-value_of j t',
    get-value_of j t,
    eq_bytes_iff (text name) (text j),
    text_blank j,
    is_blank-ne name hn,
    some-text value hv,
  )

  append-ne : {A : Type 0} (l : List A) (m : A) → l ≢ l ++ (m ∷ [])
  append-ne l m e = absurd (omega (arith, ap length e, length-append l (m ∷ [])))

  -- With room in the workspace, a cookie set is the cookie read, and no other changes. A null or
  -- empty name or value changes nothing.
  pub get-set :
      (name value j : Option Bytes) (t : Task W)
      → IsRoomy W
      → get W j (set W name value t) ≡ (
          if is_blank name || is_blank value
          then get W j t
          else if eq_bytes (text name) (text j)
          then value
          else get W j t)
  get-set name value j t r = elim (Bool-cases (is_blank name)) [
    | inl e ↦ rw e (unfold get set in rw e)
    | inr e ↦ elim (Bool-cases (is_blank value)) [
      | inl e' ↦ rw (e, e') (unfold get set in rw (e, e'))
      | inr e' ↦
          rw (e, e')
            (elim (set-Stores name value t e e') [
              | inl (_, v, _) ↦ get-stored name value j _ t e e' (v (text j))
              | inr (m, l, _) ↦ absurd (append-ne t.log m (cc (l, roomy_log name value t r)))
            ])
    ]
  ]

  -- Whatever the workspace does, a call of set() with a name and a value either stores it and logs
  -- nothing, or logs one line and leaves every cookie as it was.
  pub set_atomic :
      (name value : Option Bytes) (t : Task W)
      → is_blank name ≡ false
      → is_blank value ≡ false
      → (((set W name value t).log ≡ t.log)
          × ((j : Option Bytes)
              → get W j (set W name value t)
                ≡ (if eq_bytes (text name) (text j) then value else get W j t)))
        ⊎ ((m : Message) × ((set W name value t).log ≡ t.log ++ (m ∷ []))
            × ((j : Option Bytes) → get W j (set W name value t) ≡ get W j t))
  set_atomic name value t hn hv = elim (set-Stores name value t hn hv) [
    | inl (l, v, _) ↦ inl (l, λ j. get-stored name value j _ t hn hv (v (text j)))
    | inr (m, l, e) ↦ inr (m, l, λ j. rw (get-value_of, get-value_of, e))
  ]

  -- From a list where no name stands twice and no name or value is empty, delete() takes out the
  -- cookie of that name, and no other changes. A null or empty name changes nothing.
  pub get-delete :
      (name j : Option Bytes) (t : Task W)
      → IsJar (cobj_get W t)
      → get W j (delete W name t) ≡ (
          if is_blank name
          then get W j t
          else if eq_bytes (text name) (text j)
          then none
          else get W j t)
  unfolding get delete value_of
  get-delete name j t u = ground (
    arith,
    value_of-remove_cookie (text name) (text j) (cobj_get W t) u.unique,
    text_blank j,
    eq_bytes_iff (text name) (text j),
  )

  -- set() leaves the list, writes a value in it, or adds a cookie at its end.
  pub set_jar :
      (n v : Bytes) (t : Task W)
      → (cobj_get W (set W (some n) (some v) t) ≡ cobj_get W t)
        ⊎ (cobj_get W (set W (some n) (some v) t) ≡ set_value n v (cobj_get W t))
        ⊎ (cobj_get W (set W (some n) (some v) t)
            ≡ cobj_get W t ++ (record { name = n; value = v } ∷ []))
  unfolding set
  set_jar [] v t = inl refl
  set_jar (c ∷ n) [] t = inl refl
  set_jar (c ∷ n) (d ∷ v) t = ground arith

  pub set-IsJar :
      (name value : Option Bytes) (t : Task W)
      → IsJar (cobj_get W t)
      → IsJar (cobj_get W (set W name value t))
  set-IsJar name value t j = elim (Bool-cases (is_blank name)) [
    | inl e ↦ unfold set in rw e j
    | inr e ↦ elim (Bool-cases (is_blank value)) [
      | inl e' ↦ unfold set in rw (e, e') j
      | inr e' ↦ elim (set-Stores name value t e e') [
        | inl (_, _, keeps) ↦ keeps j
        | inr (_, _, same) ↦ rw same j
      ]
    ]
  ]
