-- ===== src/Var/Stored.antt =====
-- What the functions of src/vmod_var.c that set a variable leave for those that get one.
use operations_debs_varnish.Base.{
  ◌-◌, ◌^◌, List, [], ◌∷◌, Option, none, some, ◌≡◌, refl, ◌∙◌, inl, inr, arith, if◌then◌else◌,
  Bytes, eq_bytes, eq_bytes_iff, eq_bytes_refl, Option-cases,
}
use operations_debs_varnish.Base.Int.{to_int, to_int_iff, ℤ, pos, negsuc, ◌≤ℤ◌}
use operations_debs_varnish.Workspace.{Workspace, IsRoomy}
use operations_debs_varnish.Var.{
  Value, Variable, Task, string_value, ip_value, int_value, get_vh, vh_get_var, write_var,
  vh_get_var_alloc, put, text, set_string, set_ip, set_x, set_int, held, value_of, get_string,
  get_ip, get_int, get_real, get_duration, get_backend,
}

module _ (W : Workspace) (Real : Type 0) (zero_real : Real) (roomy : IsRoomy W) where
  abbrev VTask : Type 0
  VTask = Task W Real zero_real

  abbrev look : Bytes → List (Variable W Real zero_real) → Option (Value W Real zero_real)
  look j vs = held W Real zero_real (vh_get_var W Real zero_real j vs)

  look-write_var :
      (n j : Bytes) (x : Value W Real zero_real) (vs : List (Variable W Real zero_real))
      (v : Variable W Real zero_real)
      → vh_get_var W Real zero_real n vs ≡ some v
      → look j (write_var W Real zero_real n x vs) ≡ (if eq_bytes n j then some x else look j vs)
  unfolding vh_get_var write_var
  look-write_var n j x [] v e = cc
  look-write_var n j x (y ∷ vs) v e = ground (
    arith,
    eq_bytes_iff y.name n,
    eq_bytes_iff y.name j,
    eq_bytes_iff n j,
    look-write_var n j x vs v,
  )

  new_first :
      (n : Bytes) (vs : List (Variable W Real zero_real))
      → vh_get_var W Real zero_real n (record { name = n; value = none } ∷ vs)
        ≡ some (record { name = n; value = none })
  unfolding vh_get_var
  new_first n vs = ground (arith, eq_bytes_refl n)

  new_others :
      (n j : Bytes) (vs : List (Variable W Real zero_real))
      → (if eq_bytes n j then none else look j (record { name = n; value = none } ∷ vs))
        ≡ (if eq_bytes n j then none else look j vs)
  unfolding vh_get_var
  new_others n j vs = ground arith

  -- With room in the workspace the variable is there, and no other has changed.
  vh_get_var_alloc_lem :
      (n : Bytes) (t : VTask)
      → (t' : VTask) × (v : Variable W Real zero_real) × (vh_get_var_alloc W Real zero_real n t
          ≡ some t')
        × (vh_get_var W Real zero_real n (get_vh W Real zero_real t') ≡ some v)
        × ((j : Bytes)
            → (if eq_bytes n j then none else look j (get_vh W Real zero_real t'))
              ≡ (if eq_bytes n j then none else look j (get_vh W Real zero_real t)))
  unfolding vh_get_var_alloc get_vh
  vh_get_var_alloc_lem n t =
      elim (Option-cases (vh_get_var W Real zero_real n (get_vh W Real zero_real t))) [
        | inr (v, e) ↦ (
          record t { priv = some (get_vh W Real zero_real t) },
          v,
          rw (e, vh_get_var_alloc),
          e,
          λ j. refl,
        )
        | inl e ↦ (
          record {
            ws = (W.copy n (W.alloc 48 t.ws).0).0;
            priv = some (record { name = n; value = none } ∷ get_vh W Real zero_real t);
          },
          record { name = n; value = none },
          ground (arith, e, roomy.alloc_fits 48 t.ws, roomy.copy_fits n (W.alloc 48 t.ws).0),
          new_first n (get_vh W Real zero_real t),
          λ j. new_others n j (get_vh W Real zero_real t),
        )
      ]

  -- Whatever is put into a variable is what is then found there, and no other variable changes.
  put_lem :
      (n : Bytes) (x : Value W Real zero_real) (t u : VTask) (v : Variable W Real zero_real)
      → vh_get_var W Real zero_real n (get_vh W Real zero_real t) ≡ some v
      → ((j : Bytes)
          → (if eq_bytes n j then none else look j (get_vh W Real zero_real t))
            ≡ (if eq_bytes n j then none else look j (get_vh W Real zero_real u)))
      → (j : Bytes)
      → value_of W Real zero_real (some j) (put W Real zero_real n x t)
        ≡ (if eq_bytes n j then some x else value_of W Real zero_real (some j) u)
  unfolding put value_of get_vh
  put_lem n x t u v e k j =
      ground (arith, look-write_var n j x (get_vh W Real zero_real t) v e, k j)

  -- With room in the workspace, a set variable holds what was set, and every other holds what it held:
  -- the text itself, with a null text as the empty one; the address itself; and any other value as the
  -- member of the union holds it.
  pub value_of-set :
      (n : Bytes) (value : Option Bytes) (ip : Bytes) (x : Value W Real zero_real) (t : VTask)
      → (t1 t2 t3 : VTask) × (set_string W Real zero_real (some n) value t ≡ some t1)
        × (set_ip W Real zero_real (some n) (some ip) t ≡ some t2)
        × (set_x W Real zero_real (some n) x t ≡ some t3)
        × ((j : Bytes)
            → (value_of W Real zero_real (some j) t1 ≡ (
                if eq_bytes n j
                then some (string_value (some (text W Real zero_real value)))
                else value_of W Real zero_real (some j) t))
              × (value_of W Real zero_real (some j) t2 ≡ (
                  if eq_bytes n j
                  then some (ip_value (some ip))
                  else value_of W Real zero_real (some j) t))
              × (value_of W Real zero_real (some j) t3
                  ≡ (if eq_bytes n j then some x else value_of W Real zero_real (some j) t)))
  unfolding set_string set_ip set_x
  value_of-set n value ip x t =
      let (u, v, e, f, k) = vh_get_var_alloc_lem n t in
      let s = text W Real zero_real value in
      let u1 : VTask = record u { ws = (W.copy s u.ws).0 } in
      let u2 : VTask = record u { ws = (W.copy ip u.ws).0 } in
      (
        put W Real zero_real n (string_value (some s)) u1,
        put W Real zero_real n (ip_value (some ip)) u2,
        put W Real zero_real n x u,
        rw e (rw (roomy.copy_fits s u.ws)),
        rw e (rw (roomy.copy_fits ip u.ws)),
        rw e,
        λ j. (put_lem n _ u1 t v f k j, put_lem n _ u2 t v f k j, put_lem n x u t v f k j),
      )

  -- With room in the workspace, an integer of 32 bits is read back, and the variable then reads as unset
  -- under every other type, whatever it held.
  pub get_int-set_int :
      (n : Bytes) (x : ℤ) (t : VTask)
      → negsuc (2 ^ 31 - 1) ≤ℤ x
      → x ≤ℤ pos (2 ^ 31 - 1)
      → (t' : VTask) × (set_int W Real zero_real (some n) x t ≡ some t')
        × (get_int W Real zero_real (some n) t' ≡ x)
        × (get_string W Real zero_real (some n) t' ≡ none)
        × (get_ip W Real zero_real (some n) t' ≡ none)
        × (get_real W Real zero_real (some n) t' ≡ zero_real)
        × (get_duration W Real zero_real (some n) t' ≡ zero_real)
        × (get_backend W Real zero_real (some n) t' ≡ none)
  get_int-set_int n x t lo hi =
      let (_, _, t', _, _, e, k) = value_of-set n none [] (int_value (to_int x)) t in
      let same : to_int x ≡ x = (to_int_iff x).1 (lo, hi) in
      let held_now : value_of W Real zero_real (some n) t' ≡ some (int_value x) =
        (k n).2 ∙ rw (eq_bytes_refl n, same) in
      (t', e, rw held_now, rw held_now, rw held_now, rw held_now, rw held_now, rw held_now)
