-- ===== src/Saintmode/Director.antt =====
-- The functions of src/vmod_saintmode.c that VCL and the core of varnishd call, over the list of the
-- saintmode objects of one VCL.
use operations_debs_varnish.Base.{
  ◌-◌, ℕ, ◌%◌, ◌^◌, Bool, true, false, not, ◌||◌, List, [], ◌∷◌, ◌++◌, Option, none, some, ◌==◌,
  if◌then◌else◌, Bytes, codes,
}
use operations_debs_varnish.Base.Int.{ℤ, pos, negsuc}
use operations_debs_varnish.Workspace.{Workspace}
use operations_debs_varnish.Saintmode.Trouble.{
  Clock, Trouble, Saintmode, is_digest_healthy, add_trouble,
}

-- The methods of VCL that the module tells apart.
pub data Method : Type 0 where
  backend_response recv hash other_method : Method

abbrev pub is_backend_response : Method → Bool
is_backend_response backend_response = true
is_backend_response recv = false
is_backend_response hash = false
is_backend_response other_method = false

abbrev pub is_recv_or_hash : Method → Bool
is_recv_or_hash backend_response = false
is_recv_or_hash recv = true
is_recv_or_hash hash = true
is_recv_or_hash other_method = false

-- What vmod_blacklist() logs.
pub data BlacklistLog : Type 0 where
  not_configured wrong_method no_such_backend blacklisted : BlacklistLog

-- A VCL_INT stored in an unsigned int.
unfoldable pub to_unsigned : ℤ → ℕ
to_unsigned (pos n) = n % 2 ^ 32
to_unsigned (negsuc n) = (2 ^ 32 - 1) - n % 2 ^ 32

module _ (C : Clock) where
  open C use {Time, plus, lt_time}

  -- struct busyobj: what the module reads of it
  pub record Busyobj : Type 0 where
    pub digest : Bytes
    pub t_prev : Time
    pub director_resp : ℕ

  -- struct req
  pub record Req : Type 0 where
    pub digest : Bytes
    pub t_prev : Time

  pub record Ctx : Type 0 where
    pub method : Method
    pub req : Option Req
    pub bo : Busyobj

  unfoldable pub find_sm : ℕ → List (Saintmode C) → Option (Saintmode C)
  find_sm be [] = none
  find_sm be (sm ∷ sms) = if sm.be == be then some sm else find_sm be sms

  -- A write through the pointer that find_sm() returns
  unfoldable pub update_sm :
      ℕ → (Saintmode C → Saintmode C) → List (Saintmode C) → List (Saintmode C)
  update_sm be f [] = []
  update_sm be f (sm ∷ sms) = if sm.be == be then f sm ∷ sms else sm ∷ update_sm be f sms

  -- vmod_blacklist(); `none` is the null PRIV_VCL pointer of a VCL with no saintmode object.
  unfoldable pub vmod_blacklist :
      Ctx → Time → Option (List (Saintmode C)) → Option (List (Saintmode C)) × BlacklistLog
  vmod_blacklist ctx expires none = (none, not_configured)
  vmod_blacklist ctx expires (some sms) =
      if not (is_backend_response ctx.method)
      then (some sms, wrong_method)
      else elim (find_sm ctx.bo.director_resp sms) [
        | none ↦ (some sms, no_such_backend)
        | some sm ↦ (
          some (
              update_sm ctx.bo.director_resp
                (add_trouble C ctx.bo.digest (plus ctx.bo.t_prev expires)) sms),
          blacklisted,
        )
      ]

  unfoldable pub vmod_saintmode_blacklist_count : Saintmode C → ℕ
  vmod_saintmode_blacklist_count sm = sm.n_trouble

  -- healthy(): `real` is VTIM_real(), and `be_healthy` the health function of the backend, on the
  -- same busy object.
  unfoldable pub healthy :
      (Option Busyobj → Bool) → Time → Option Busyobj → Saintmode C → Saintmode C × Bool
  healthy be_healthy real bo sm =
      if sm.threshold == 0 || sm.n_trouble == 0 then (sm, be_healthy bo) else elim bo [
        | none ↦
            (let r = is_digest_healthy C none real sm in
              (r.0, if r.1 then be_healthy none else false))
        | some b ↦
            (let r = is_digest_healthy C (some b.digest) b.t_prev sm in
              (r.0, if r.1 then be_healthy (some b) else false))
      ]

  -- vmod_saintmode_is_healthy(): on the client side the busy object is a null pointer.
  unfoldable pub vmod_saintmode_is_healthy :
      (Option Busyobj → Bool)
      → Time
      → Method
      → Option Req
      → Option Busyobj
      → Saintmode C
      → Saintmode C × Bool
  vmod_saintmode_is_healthy be_healthy real method (some req) bo sm =
      let digest = if is_recv_or_hash method then none else some req.digest in
      let r = is_digest_healthy C digest req.t_prev sm in (r.0, r.1)
  vmod_saintmode_is_healthy be_healthy real method none bo sm = healthy be_healthy real bo sm

  -- resolve(): the backend, or the null pointer
  unfoldable pub resolve :
      (Option Busyobj → Bool) → Time → Option Busyobj → Saintmode C → Saintmode C × Option ℕ
  resolve be_healthy real bo sm =
      let r = healthy be_healthy real bo sm in (r.0, if r.1 then some sm.be else none)

  -- vmod_saintmode__init(): the object is made, and put at the end of the list of its VCL.
  unfoldable pub vmod_saintmode__init :
      Bytes → ℕ → ℤ → Option (List (Saintmode C)) → Saintmode C × List (Saintmode C)
  unfolding to_unsigned
  vmod_saintmode__init vcl_name be threshold priv =
      let sm : Saintmode C = record {
        vcl_name = vcl_name;
        be = be;
        threshold = to_unsigned threshold;
        n_trouble = 0;
        troublelist = [];
      } in
      (sm, elim priv [ none ↦ sm ∷ [] | some sms ↦ sms ++ (sm ∷ []) ])

  -- The loop of vmod_saintmode__fini() over the entries: each is the first of the list when it is removed.
  unfoldable pub remove_troubles : List (Trouble C) → List (Trouble C)
  remove_troubles [] = []
  remove_troubles (tr ∷ trs) = remove_troubles trs

  -- vmod_saintmode__fini(): the pointer to the object, and the object that is freed, which stays in the list
  -- of its VCL. `none` is the failed assertion that there is an object.
  unfoldable pub vmod_saintmode__fini :
      Option (Saintmode C) → Option (Option (Saintmode C) × Saintmode C)
  unfolding remove_troubles
  vmod_saintmode__fini none = none
  vmod_saintmode__fini (some sm) =
      some (none, record sm { troublelist = remove_troubles sm.troublelist })

  -- vmod_status(). `print_u` is what VSB_printf writes for "%u", and `name_of` the VCL name of a
  -- backend.
  module _ (W : Workspace) (print_u : ℕ → Bytes) (name_of : ℕ → Bytes) where
    unfoldable pub status_line : Saintmode C → Bytes
    status_line sm =
        codes "\t\t{ "
        ++ (codes "\"name\": \""
            ++ (sm.vcl_name
                ++ (codes "\", "
                    ++ (codes "\"backend\": \""
                        ++ (name_of sm.be
                            ++ (codes "\", "
                                ++ (codes "\"count\": \""
                                    ++ (print_u sm.n_trouble
                                        ++ (codes "\", "
                                            ++ (codes "\"threshold\": \""
                                                ++ (print_u sm.threshold
                                                    ++ (codes "\" " ++ codes "}"))))))))))))

    unfoldable pub status_lines : List (Saintmode C) → Bytes
    unfolding status_line
    status_lines [] = []
    status_lines (sm ∷ []) = status_line sm ++ codes "\n"
    status_lines (sm ∷ next ∷ sms) =
        status_line sm ++ (codes "," ++ (codes "\n" ++ status_lines (next ∷ sms)))

    unfoldable pub vmod_status : List (Saintmode C) → W.Ws → W.Ws × Option Bytes
    unfolding status_lines
    vmod_status sms ws =
        let text = codes "{\n\t\"saintmode\": [\n" ++ (status_lines sms ++ codes "\t]\n}\n") in
        let r = W.copy text ws in (r.0, if r.1 then some text else none)
