-- ===== src/Saintmode/Trouble.antt =====
-- struct trouble and the check of a digest against the list of troubles of one saintmode object.
use operations_debs_varnish.Base.{
  ℕ, ◌+◌, ◌-◌, ◌%◌, ◌^◌, Bool, true, false, not, List, [], ◌∷◌, Option, none, some, leb,
  if◌then◌else◌, Bytes, eq_bytes,
}

-- The clock: doubles, of which the module adds two and compares two.
pub record Clock : Type 1 where
  pub Time : Type 0
  pub plus : Time → Time → Time
  pub lt_time : Time → Time → Bool

-- What an unsigned int holds after ++ and --.
abbrev pub plus_one : ℕ → ℕ
plus_one n = (n + 1) % 2 ^ 32

abbrev pub minus_one : ℕ → ℕ
minus_one n = (n + (2 ^ 32 - 1)) % 2 ^ 32

module _ (C : Clock) where
  open C use {Time, plus, lt_time}

  pub record Trouble : Type 0 where
    pub digest : Bytes
    pub timeout : Time

  -- struct vmod_saintmode_saintmode; `be` is the address of the backend's director.
  pub record Saintmode : Type 0 where
    pub vcl_name : Bytes
    pub be : ℕ
    pub threshold : ℕ
    pub n_trouble : ℕ
    pub troublelist : List Trouble

  -- The loop of is_digest_healthy(): the list and the count that it leaves, and `retval`.
  pub record Visit : Type 0 where
    pub left : List Trouble
    pub n : ℕ
    pub ok : Bool

  -- digest && !memcmp(tr->digest, digest, sizeof tr->digest)
  abbrev pub hits : Option Bytes → Trouble → Bool
  hits none tr = false
  hits (some d) tr = eq_bytes tr.digest d

  unfoldable pub visit : Option Bytes → Time → List Trouble → ℕ → Visit
  visit digest now [] n = record { left = []; n = n; ok = true }
  visit digest now (tr ∷ trs) n =
      let rest = visit digest now trs (if lt_time tr.timeout now then minus_one n else n) in
      if lt_time tr.timeout now
      then rest
      else if hits digest tr
      then record { left = tr ∷ trs; n = n; ok = false }
      else record rest { left = tr ∷ rest.left }

  pub data Verdict : Type 0 where
    object_blacklisted hit_threshold not_logged : Verdict

  -- is_digest_healthy(): the object, the result, and what is logged if there is a log.
  unfoldable pub is_digest_healthy : Option Bytes → Time → Saintmode → Saintmode × Bool × Verdict
  unfolding visit
  is_digest_healthy digest t_prev sm =
      let v = visit digest t_prev sm.troublelist sm.n_trouble in
      let retval = if leb sm.threshold v.n then false else v.ok in
      (
        record sm { troublelist = v.left; n_trouble = v.n },
        retval,
        (if not v.ok then object_blacklisted else if not retval then hit_threshold else not_logged),
      )

  -- The part of vmod_blacklist() under the lock, with the time at which the entry ends.
  unfoldable pub add_trouble : Bytes → Time → Saintmode → Saintmode
  add_trouble digest timeout sm = record sm {
    troublelist = record { digest = digest; timeout = timeout } ∷ sm.troublelist;
    n_trouble = plus_one sm.n_trouble;
  }
