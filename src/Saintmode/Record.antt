-- ===== src/Saintmode/Record.antt =====
-- The list of src/vmod_saintmode.c, which loses entries as they expire, against a record of every
-- blacklisting that loses none.
use operations_debs_varnish.Base.{
  ℕ, ◌≡◌, Bool, true, false, ◌&&◌, List, [], ◌∷◌, Option, none, some, Bytes, length, ltb, ◌==◌,
  if◌then◌else◌,
}
use operations_debs_varnish.Saintmode.Trouble.{Clock, Trouble, Saintmode, add_trouble}
use operations_debs_varnish.Saintmode.Director.{
  Method, Req, Busyobj, is_recv_or_hash, resolve, vmod_saintmode_is_healthy,
}
use operations_debs_varnish.Saintmode.Check.{current, against, IsCounted}
use operations_debs_varnish.Saintmode.Recovery.{check_time}

-- What is before one instant is before each that does not come before it.
pub record IsClock (C : Clock) : Type 0 where
  pub lt_time_trans :
      (x a b : C.Time) → C.lt_time x a ≡ true → C.lt_time b a ≡ false → C.lt_time x b ≡ true

module _ (C : Clock) where
  open C use {Time, lt_time}

  -- The health function of the backend
  abbrev pub Backend : Type 0
  Backend = Option (Busyobj C) → Bool

  -- A blacklisting, a call of resolve(), and a call of is_healthy from VCL
  pub data Event : Type 0 where
    blacklists : Bytes → Time → Event
    resolves : Backend → Time → Option (Busyobj C) → Event
    asks : Backend → Time → Method → Option (Req C) → Option (Busyobj C) → Event

  pub data Answer : Type 0 where
    no_answer : Answer
    backend : Option ℕ → Answer
    is_healthy : Bool → Answer

  unfoldable pub act : Event → Saintmode C → Saintmode C × Answer
  act (blacklists d timeout) sm = (add_trouble C d timeout sm, no_answer)
  act (resolves be_healthy real bo) sm =
      let r = resolve C be_healthy real bo sm in (r.0, backend r.1)
  act (asks be_healthy real method req bo) sm =
      let r = vmod_saintmode_is_healthy C be_healthy real method req bo sm in (r.0, is_healthy r.1)

  unfoldable pub acts : List Event → Saintmode C → List Answer
  acts [] sm = []
  acts (e ∷ es) sm = let r = act e sm in r.1 ∷ acts es r.0

  -- The judgement on a digest at an instant: no blacklisting of it is in force, and fewer than the
  -- threshold are in force at all.
  abbrev pub judged : ℕ → Option Bytes → Time → List (Trouble C) → Bool
  judged threshold digest now log =
      length (against C digest (current C now log)) == 0
      && ltb (length (current C now log)) threshold

  abbrev pub digest_of : Option (Busyobj C) → Option Bytes
  digest_of none = none
  digest_of (some b) = some b.digest

  -- The same with the backend asked, for a threshold that is not 0.
  abbrev pub judged_with : Backend → Time → Option (Busyobj C) → ℕ → List (Trouble C) → Bool
  judged_with be_healthy real bo threshold log =
      if threshold == 0
      then be_healthy bo
      else judged threshold (digest_of bo) (check_time C real bo) log && be_healthy bo

  -- What a record of all blacklistings answers.
  unfoldable pub answers : ℕ → ℕ → List Event → List (Trouble C) → List Answer
  answers be threshold [] log = []
  answers be threshold (blacklists d timeout ∷ es) log =
      no_answer ∷ answers be threshold es (record { digest = d; timeout = timeout } ∷ log)
  answers be threshold (resolves be_healthy real bo ∷ es) log =
      backend (if judged_with be_healthy real bo threshold log then some be else none)
      ∷ answers be threshold es log
  answers be threshold (asks be_healthy real method (some req) bo ∷ es) log =
      is_healthy
        (judged threshold (if is_recv_or_hash method then none else some req.digest) req.t_prev log)
      ∷ answers be threshold es log
  answers be threshold (asks be_healthy real method none bo ∷ es) log =
      is_healthy (judged_with be_healthy real bo threshold log) ∷ answers be threshold es log

  -- The instants of the checks do not go backwards, from u on.
  abbrev pub InOrder : Time → List Event → Type 0
  InOrder u [] = Unit
  InOrder u (blacklists d timeout ∷ es) = InOrder u es
  InOrder u (resolves be_healthy real bo ∷ es) =
      (lt_time (check_time C real bo) u ≡ false) × InOrder (check_time C real bo) es
  InOrder u (asks be_healthy real method (some req) bo ∷ es) =
      (lt_time req.t_prev u ≡ false) × InOrder req.t_prev es
  InOrder u (asks be_healthy real method none bo ∷ es) =
      (lt_time (check_time C real bo) u ≡ false) × InOrder (check_time C real bo) es

  -- From u on, the object has the entries in force that the record has.
  pub record Records (u : Time) (sm : Saintmode C) (log : List (Trouble C)) : Type 0 where
    pub counted : IsCounted C sm
    pub in_force : (v : Time) → lt_time v u ≡ false → current C v sm.troublelist ≡ current C v log
