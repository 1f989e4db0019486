-- ===== src/Cookie/History.antt =====
-- Every sequence of calls that a request makes of the module.
use operations_debs_varnish.Base.{
  Bool, true, false, List, [], ◌∷◌, Option, none, some, ◌≡◌, arith, inl, inr, Bool-cases,
  Option-cases, Bytes,
}
use operations_debs_varnish.Workspace.{Workspace}
use operations_debs_varnish.Cookie.{
  Task, cobj_get, is_blank, text, set, parse, delete, clean, filter, filter_except, get_string,
  filter_cookies, match_names,
}
use operations_debs_varnish.Cookie.Jar.{IsJar, remove_cookie-IsJar, drop_cookies-IsJar}
use operations_debs_varnish.Cookie.Operations.{set-IsJar}
use operations_debs_varnish.Cookie.Parse.{parse_total}

-- The functions of the module that may change the list.
pub data Call : Type 0 where
  sets : Option Bytes → Option Bytes → Call
  parses deletes filters filters_except : Option Bytes → Call
  cleans get_strings : Call

module _ (W : Workspace) where
  abbrev or_same : Task W → Option (Task W) → Task W
  or_same t none = t
  or_same t (some t') = t'

  pub step : Call → Task W → Task W
  step (sets name value) t = set W name value t
  step (parses header) t = or_same t (parse W header t)
  step (deletes name) t = delete W name t
  step (filters list) t = or_same t (filter W list t)
  step (filters_except list) t = or_same t (filter_except W list t)
  step cleans t = clean W t
  step get_strings t = (get_string W t).0

  pub run : List Call → Task W → Task W
  run [] t = t
  run (c ∷ cs) t = run cs (step c t)

  parse-Jar :
      (header : Option Bytes) (t : Task W)
      → IsJar (cobj_get W t)
      → IsJar (cobj_get W (step (parses header) t))
  unfolding step
  parse-Jar header t j = elim (Bool-cases (is_blank header)) [
    | inl e ↦ unfold parse in rw e j
    | inr e ↦ let (t', q, k, _) = parse_total W header t e in rw q k
  ]

  filter-Jar :
      (list : Option Bytes) (white : Bool) (t : Task W)
      → IsJar (cobj_get W t)
      → IsJar (cobj_get W (or_same t (filter_cookies W list white t)))
  unfolding filter_cookies
  filter-Jar list white t j = elim (Option-cases (match_names list)) [
    | inl e ↦ rw (e, filter_cookies) j
    | inr (ns, e) ↦ rw (e, filter_cookies) (drop_cookies-IsJar white ns _ j)
  ]

  get_string-same : (t : Task W) → cobj_get W (get_string W t).0 ≡ cobj_get W t
  unfolding get_string
  get_string-same t = ground arith

  step-Jar : (c : Call) (t : Task W) → IsJar (cobj_get W t) → IsJar (cobj_get W (step c t))
  unfolding step
  step-Jar (sets name value) t j = set-IsJar W name value t j
  step-Jar (parses header) t j = parse-Jar header t j
  step-Jar (deletes name) t j = elim (Bool-cases (is_blank name)) [
    | inl e ↦ unfold delete in rw e j
    | inr e ↦ unfold delete in rw e (remove_cookie-IsJar (text name) _ j)
  ]
  step-Jar (filters list) t j = unfold filter in filter-Jar list false t j
  step-Jar (filters_except list) t j = unfold filter_except in filter-Jar list true t j
  step-Jar cleans t j = unfold clean cobj_get in record { unique = tt; filled = tt }
  step-Jar get_strings t j = rw (get_string-same t) j

  -- From a list where no name stands twice and no name or value is empty, any calls lead to such
  -- a list, whatever the workspace does.
  pub run-IsJar :
      (cs : List Call) (t : Task W) → IsJar (cobj_get W t) → IsJar (cobj_get W (run cs t))
  unfolding run
  run-IsJar [] t j = j
  run-IsJar (c ∷ cs) t j = run-IsJar cs (step c t) (step-Jar c t j)
