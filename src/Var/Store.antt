-- ===== src/Var/Store.antt =====
-- The variables of a task in src/vmod_var.c against a function from names to values.
use mathlib.Core.Path.{fun_ext}
use operations_debs_varnish.Base.{
  ℕ, List, [], ◌∷◌, Option, none, some, ◌≡◌, refl, ap, inl, inr, if◌then◌else◌, ◌>>=◌, Bytes,
  eq_bytes, Option-cases,
}
use operations_debs_varnish.Base.Int.{ℤ, to_int, pos}
use operations_debs_varnish.Workspace.{Workspace, IsRoomy}
use operations_debs_varnish.Var.{
  Value, Task, string_value, ip_value, int_value, real_value, duration_value, backend_value, text,
  set_string, set_ip, set_x, set_int, set_real, set_duration, set_backend, value_of, get_string,
  get_ip, get_int, get_real, get_duration, get_backend, as_string, as_ip, as_int, as_real,
  as_duration, as_backend, clear, get_vh, vh_get_var,
}
use operations_debs_varnish.Var.Stored.{value_of-set}

module _ (W : Workspace) (Real : Type 0) (zero_real : Real) where
  -- The functions of the module on the variables of a task.
  pub data Call : Type 0 where
    sets_string sets_ip : Option Bytes → Option Bytes → Call
    sets_int : Option Bytes → ℤ → Call
    sets_real sets_duration : Option Bytes → Real → Call
    sets_backend : Option Bytes → Option ℕ → Call
    gets_string gets_ip gets_int gets_real gets_duration gets_backend : Option Bytes → Call
    clears : Call

  pub data Answer : Type 0 where
    no_answer : Answer
    text_answer : Option Bytes → Answer
    int_answer : ℤ → Answer
    real_answer : Real → Answer
    backend_answer : Option ℕ → Answer

  abbrev Store : Type 0
  Store = Bytes → Option (Value W Real zero_real)

  -- A variable keeps its name and its type with its value.
  abbrev pub store : Option Bytes → Value W Real zero_real → Store → Store
  store none x f = f
  store (some n) x f = λ j. if eq_bytes n j then some x else f j

  abbrev pub fetch : Option Bytes → Store → Option (Value W Real zero_real)
  fetch none f = none
  fetch (some n) f = f n

  -- What a call does to the values, and what it answers; a null address is a failed assertion.
  unfoldable pub spec : Call → Store → Option (Store × Answer)
  spec (sets_string name value) f =
      some (store name (string_value (some (text W Real zero_real value))) f, no_answer)
  spec (sets_ip none ip) f = some (f, no_answer)
  spec (sets_ip (some n) none) f = none
  spec (sets_ip (some n) (some ip)) f = some (store (some n) (ip_value (some ip)) f, no_answer)
  spec (sets_int name x) f = some (store name (int_value (to_int x)) f, no_answer)
  spec (sets_real name x) f = some (store name (real_value x) f, no_answer)
  spec (sets_duration name x) f = some (store name (duration_value x) f, no_answer)
  spec (sets_backend name x) f = some (store name (backend_value x) f, no_answer)
  spec (gets_string name) f = some (f, text_answer (as_string W Real zero_real (fetch name f)))
  spec (gets_ip name) f = some (f, text_answer (as_ip W Real zero_real (fetch name f)))
  spec (gets_int name) f = some (f, int_answer (as_int W Real zero_real (fetch name f)))
  spec (gets_real name) f = some (f, real_answer (as_real W Real zero_real (fetch name f)))
  spec (gets_duration name) f = some (f, real_answer (as_duration W Real zero_real (fetch name f)))
  spec (gets_backend name) f = some (f, backend_answer (as_backend W Real zero_real (fetch name f)))
  spec clears f = some ((λ j. none), no_answer)

  unfoldable pub specs : List Call → Store → Option (Store × List Answer)
  specs [] f = some (f, [])
  specs (c ∷ cs) f = do r ← spec c f; s ← specs cs r.0; some (s.0, r.1 ∷ s.1)

  abbrev VTask : Type 0
  VTask = Task W Real zero_real

  abbrev silent : Option VTask → Option (VTask × Answer)
  silent none = none
  silent (some t) = some (t, no_answer)

  unfoldable pub call : Call → VTask → Option (VTask × Answer)
  call (sets_string name value) t = silent (set_string W Real zero_real name value t)
  call (sets_ip name ip) t = silent (set_ip W Real zero_real name ip t)
  call (sets_int name x) t = silent (set_int W Real zero_real name x t)
  call (sets_real name x) t = silent (set_real W Real zero_real name x t)
  call (sets_duration name x) t = silent (set_duration W Real zero_real name x t)
  call (sets_backend name x) t = silent (set_backend W Real zero_real name x t)
  call (gets_string name) t = some (t, text_answer (get_string W Real zero_real name t))
  call (gets_ip name) t = some (t, text_answer (get_ip W Real zero_real name t))
  call (gets_int name) t = some (t, int_answer (get_int W Real zero_real name t))
  call (gets_real name) t = some (t, real_answer (get_real W Real zero_real name t))
  call (gets_duration name) t = some (t, real_answer (get_duration W Real zero_real name t))
  call (gets_backend name) t = some (t, backend_answer (get_backend W Real zero_real name t))
  call clears t = some (clear W Real zero_real t, no_answer)

  unfoldable pub calls : List Call → VTask → Option (VTask × List Answer)
  calls [] t = some (t, [])
  calls (c ∷ cs) t = do r ← call c t; q ← calls cs r.0; some (q.0, r.1 ∷ q.1)

  -- What the variables of a task hold.
  abbrev pub view : VTask → Store
  view t j = value_of W Real zero_real (some j) t

  abbrev pub seen : {A : Type 0} → Option (VTask × A) → Option (Store × A)
  seen none = none
  seen (some (t, x)) = some (view t, x)

  module _ (roomy : IsRoomy W) where
    seen-silent :
        (o : Option VTask) (t : VTask) (f : Store)
        → o ≡ some t
        → view t ≡ f
        → seen (silent o) ≡ some (f, no_answer)
    seen-silent o t f e k = rw (e, k) refl

    seen-set_x :
        (name : Option Bytes) (x : Value W Real zero_real) (t : VTask)
        → seen (silent (set_x W Real zero_real name x t)) ≡ some (store name x (view t), no_answer)
    unfolding set_x
    seen-set_x none x t = refl
    seen-set_x (some n) x t =
        let (_, _, u, _, _, e, k) = value_of-set W Real zero_real roomy n none [] x t in
        seen-silent _ u _ e (fun_ext λ j. (k j).2)

    fetch-view :
        (name : Option Bytes) (t : VTask) → value_of W Real zero_real name t ≡ fetch name (view t)
    unfolding value_of
    fetch-view none t = refl
    fetch-view (some n) t = refl

    seen-fetch :
        (name : Option Bytes) (t : VTask) (f : Option (Value W Real zero_real) → Answer)
        → seen (some (t, f (value_of W Real zero_real name t)))
          ≡ some (view t, f (fetch name (view t)))
    seen-fetch name t f = ap (λ x. some (view t, f x)) (fetch-view name t)

    view-clear : (t : VTask) → view (clear W Real zero_real t) ≡ (λ j. none)
    unfolding clear value_of get_vh vh_get_var
    view-clear t = fun_ext λ j. refl

    call-view : (c : Call) (t : VTask) → seen (call c t) ≡ spec c (view t)
    unfolding call spec set_string set_ip
    call-view (sets_string none value) t = refl
    call-view (sets_string (some n) value) t =
        let (u, _, _, e, _, _, k) =
          value_of-set W Real zero_real roomy n value [] (int_value (to_int (pos 0))) t in
        seen-silent _ u _ e (fun_ext λ j. (k j).0)
    call-view (sets_ip none ip) t = refl
    call-view (sets_ip (some n) none) t = refl
    call-view (sets_ip (some n) (some ip)) t =
        let (_, u, _, _, e, _, k) =
          value_of-set W Real zero_real roomy n none ip (int_value (to_int (pos 0))) t in
        seen-silent _ u _ e (fun_ext λ j. (k j).1)
    call-view (sets_int name x) t = seen-set_x name (int_value (to_int x)) t
    call-view (sets_real name x) t = seen-set_x name (real_value x) t
    call-view (sets_duration name x) t = seen-set_x name (duration_value x) t
    call-view (sets_backend name x) t = seen-set_x name (backend_value x) t
    call-view (gets_string name) t =
        seen-fetch name t (λ x. text_answer (as_string W Real zero_real x))
    call-view (gets_ip name) t = seen-fetch name t (λ x. text_answer (as_ip W Real zero_real x))
    call-view (gets_int name) t = seen-fetch name t (λ x. int_answer (as_int W Real zero_real x))
    call-view (gets_real name) t = seen-fetch name t (λ x. real_answer (as_real W Real zero_real x))
    call-view (gets_duration name) t =
        seen-fetch name t (λ x. real_answer (as_duration W Real zero_real x))
    call-view (gets_backend name) t =
        seen-fetch name t (λ x. backend_answer (as_backend W Real zero_real x))
    call-view clears t = ap (λ f. some (f, no_answer)) (view-clear t)

    seen-then :
        {A : Type 0} (x : A) (o : Option (VTask × List A)) (p : Option (Store × List A))
        → seen o ≡ p
        → seen (o >>= λ q. some (q.0, x ∷ q.1)) ≡ (p >>= λ q. some (q.0, x ∷ q.1))
    seen-then x none p e = rw (← e) refl
    seen-then x (some (t, xs)) p e = rw (← e) refl

    -- With room in the workspace, for every sequence of calls that set, get and clear variables in a
    -- task: the answers, the values at the end, and the failed assertion on a null address are those
    -- of a function from names to typed values.
    pub calls-Refines : (cs : List Call) (t : VTask) → seen (calls cs t) ≡ specs cs (view t)
    unfolding calls specs
    calls-Refines [] t = refl
    calls-Refines (c ∷ cs) t =
        let e = call-view c t in
        elim (Option-cases (call c t)) [
          | inl k ↦ rw (← e, k) refl
          | inr ((u, x), k) ↦ rw (← e, k) (seen-then x _ _ (calls-Refines cs u))
        ]
