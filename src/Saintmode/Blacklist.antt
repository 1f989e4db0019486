-- ===== src/Saintmode/Blacklist.antt =====
-- What vmod_blacklist() of src/vmod_saintmode.c does to the health of its backend, and the count of the
-- entries over a history of calls.
use operations_debs_varnish.Base.{
  ℕ, ◌+◌, ◌^◌, ◌≤◌, ◌<◌, ◌≡◌, refl, Bool, true, false, List, [], ◌∷◌, Option, none, some, Bytes,
  eq_bytes, eq_bytes_refl, length, arith,
}
use operations_debs_varnish.Base.Int.{ℤ}
use operations_debs_varnish.Saintmode.Trouble.{
  Clock, Saintmode, visit, is_digest_healthy, add_trouble,
}
use operations_debs_varnish.Saintmode.Director.{
  Busyobj, Ctx, backend_response, find_sm, update_sm, vmod_blacklist, healthy, blacklisted,
  vmod_saintmode_blacklist_count, resolve, vmod_saintmode__init,
}
use operations_debs_varnish.Saintmode.Check.{
  IsCounted, is_digest_healthy-length, is_digest_healthy-IsCounted,
}

module _ (C : Clock) where
  open C use {Time, plus, lt_time}

  pub find_sm-update_sm :
      (be : ℕ) (f : Saintmode C → Saintmode C) (sms : List (Saintmode C)) (sm : Saintmode C)
      → ((s : Saintmode C) → (f s).be ≡ s.be)
      → find_sm C be sms ≡ some sm
      → find_sm C be (update_sm C be f sms) ≡ some (f sm)
  unfolding find_sm update_sm
  find_sm-update_sm be f [] sm same h = cc
  find_sm-update_sm be f (s ∷ sms) sm same h =
      ground (arith, same s, h, find_sm-update_sm be f sms sm same)

  -- The entry that vmod_blacklist() puts at the head keeps its digest unhealthy until it ends.
  pub add_trouble-unhealthy :
      (d e : Bytes) (timeout now : Time) (sm : Saintmode C)
      → e ≡ d
      → lt_time timeout now ≡ false
      → (is_digest_healthy C (some e) now (add_trouble C d timeout sm)).1 ≡ false
  unfolding add_trouble is_digest_healthy visit
  add_trouble-unhealthy d e timeout now sm same h =
      let hit : eq_bytes d e ≡ true = rw same (eq_bytes_refl d) in ground (arith, h, hit)

  be-add_trouble :
      (d : Bytes) (timeout : Time) (sm : Saintmode C) → (add_trouble C d timeout sm).be ≡ sm.be
  unfolding add_trouble
  be-add_trouble d timeout sm = refl

  threshold-add_trouble :
      (d : Bytes) (timeout : Time) (sm : Saintmode C)
      → (add_trouble C d timeout sm).threshold ≡ sm.threshold
  unfolding add_trouble
  threshold-add_trouble d timeout sm = refl

  n_trouble-add_trouble :
      (d : Bytes) (timeout : Time) (sm : Saintmode C)
      → sm.n_trouble + 1 < 2 ^ 32
      → (add_trouble C d timeout sm).n_trouble ≡ sm.n_trouble + 1
  unfolding add_trouble
  n_trouble-add_trouble d timeout sm n = omega (arith, n)

  add_trouble-healthy :
      (be_healthy : Option (Busyobj C) → Bool) (real : Time) (d : Bytes) (timeout : Time)
      (sm : Saintmode C) (b : Busyobj C)
      → sm.n_trouble + 1 < 2 ^ 32
      → 0 < sm.threshold
      → b.digest ≡ d
      → lt_time timeout b.t_prev ≡ false
      → (healthy C be_healthy real (some b) (add_trouble C d timeout sm)).1 ≡ false
  unfolding healthy
  add_trouble-healthy be_healthy real d timeout sm b n t e h = ground (
    arith,
    n_trouble-add_trouble d timeout sm n,
    threshold-add_trouble d timeout sm,
    t,
    add_trouble-unhealthy d b.digest timeout b.t_prev sm e h,
  )

  -- A blacklisting under the conditions of the code: the saintmode object of the backend of the response
  -- stays in the list, and until the entry ends it resolves to no backend for a busy object with the
  -- same digest, whatever the backend answers. The object has a threshold and its count is below
  -- 2 ^ 32 - 1.
  pub vmod_blacklist-resolve :
      (be_healthy : Option (Busyobj C) → Bool) (real : Time) (ctx : Ctx C) (expires : Time)
      (sms : List (Saintmode C)) (sm : Saintmode C) (b : Busyobj C)
      → ctx.method ≡ backend_response
      → find_sm C ctx.bo.director_resp sms ≡ some sm
      → sm.n_trouble + 1 < 2 ^ 32
      → 0 < sm.threshold
      → b.digest ≡ ctx.bo.digest
      → lt_time (plus ctx.bo.t_prev expires) b.t_prev ≡ false
      → (sms' : List (Saintmode C)) × (sm' : Saintmode C) × (vmod_blacklist C ctx expires (some sms)
          ≡ (some sms', blacklisted))
        × (find_sm C ctx.bo.director_resp sms' ≡ some sm')
        × (vmod_saintmode_blacklist_count C sm' ≡ vmod_saintmode_blacklist_count C sm + 1)
        × ((resolve C be_healthy real (some b) sm').1 ≡ none)
  unfolding vmod_blacklist resolve vmod_saintmode_blacklist_count
  vmod_blacklist-resolve be_healthy real ctx expires sms sm b m f n t d e =
      let timeout = plus ctx.bo.t_prev expires in
      (
        update_sm C ctx.bo.director_resp (add_trouble C ctx.bo.digest timeout) sms,
        add_trouble C ctx.bo.digest timeout sm,
        ground (arith, m, f),
        find_sm-update_sm ctx.bo.director_resp (add_trouble C ctx.bo.digest timeout) sms sm
            (be-add_trouble ctx.bo.digest timeout) f,
        n_trouble-add_trouble ctx.bo.digest timeout sm n,
        rw (add_trouble-healthy be_healthy real ctx.bo.digest timeout sm b n t d e) refl,
      )

  -- What is done to one saintmode object: an entry is put in, or a digest is checked.
  pub data Call : Type 0 where
    adding : Bytes → Time → Call
    checking : Option Bytes → Time → Call

  unfoldable pub calls : List Call → Saintmode C → Saintmode C
  calls [] sm = sm
  calls (adding d timeout ∷ cs) sm = calls cs (add_trouble C d timeout sm)
  calls (checking d now ∷ cs) sm = calls cs (is_digest_healthy C d now sm).0

  pub add_trouble-IsCounted :
      (d : Bytes) (timeout : Time) (sm : Saintmode C)
      → IsCounted C sm
      → length sm.troublelist + 1 < 2 ^ 32
      → IsCounted C (add_trouble C d timeout sm)
  unfolding add_trouble
  add_trouble-IsCounted d timeout sm (c, b) n = (omega (arith, c, n), omega (arith, n))

  pub length-add_trouble :
      (d : Bytes) (timeout : Time) (sm : Saintmode C)
      → length (add_trouble C d timeout sm).troublelist ≡ length sm.troublelist + 1
  unfolding add_trouble
  length-add_trouble d timeout sm = omega arith

  run_IsCounted :
      (cs : List Call) (sm : Saintmode C)
      → IsCounted C sm
      → length sm.troublelist + length cs < 2 ^ 32
      → IsCounted C (calls cs sm)
        × (length (calls cs sm).troublelist ≤ length sm.troublelist + length cs)
  unfolding calls
  run_IsCounted [] sm c n = (c, omega arith)
  run_IsCounted (adding d timeout ∷ cs) sm c n =
      let more = length-add_trouble d timeout sm in
      let rest =
        run_IsCounted cs (add_trouble C d timeout sm)
          (add_trouble-IsCounted d timeout sm c (omega (arith, n))) (omega (arith, more, n)) in
      (rest.0, omega (arith, rest.1, more))
  run_IsCounted (checking d now ∷ cs) sm c n =
      let fewer = is_digest_healthy-length C d now sm in
      let rest =
        run_IsCounted cs (is_digest_healthy C d now sm).0 (is_digest_healthy-IsCounted C d now sm c)
          (omega (arith, fewer, n)) in
      (rest.0, omega (arith, rest.1, fewer))

  -- Whatever fewer than 2 ^ 32 calls have done to a new saintmode object, n_trouble is the length of its
  -- list, and the list is no longer than the calls are many.
  pub calls-IsCounted :
      (vcl_name : Bytes) (be : ℕ) (threshold : ℤ) (priv : Option (List (Saintmode C)))
      (cs : List Call)
      → length cs < 2 ^ 32
      → let sm = calls cs (vmod_saintmode__init C vcl_name be threshold priv).0 in
        IsCounted C sm × (length sm.troublelist ≤ length cs)
  unfolding vmod_saintmode__init
  calls-IsCounted vcl_name be threshold priv cs h =
      let sm = (vmod_saintmode__init C vcl_name be threshold priv).0 in
      let r = run_IsCounted cs sm (refl, omega arith) (omega (arith, h)) in
      (r.0, omega (arith, r.1))
