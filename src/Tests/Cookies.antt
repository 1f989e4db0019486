-- ===== src/Tests/Cookies.antt =====
-- The theorems on src/vmod_cookie.c at concrete inputs.
use operations_debs_varnish.Base.{
  List, [], ◌∷◌, Option, none, some, ◌≡◌, ◌⊎◌, refl, arith, if◌then◌else◌, Bytes, eq_bytes, codes,
  All, ◌++◌, length, Lacks,
}
use operations_debs_varnish.Workspace.{endless, endless-IsRoomy, full}
use operations_debs_varnish.Cookie.{
  Cookie, Task, Message, find_cookie, cobj_get, get, set, parse, get_string, filter, filter_except,
  match_names, text, parsed,
}
use operations_debs_varnish.Cookie.Jar.{IsJar, value_of}
use operations_debs_varnish.Cookie.Parse.{IsPrintable, parse_total}
use operations_debs_varnish.Cookie.Grammar.{Reads}
use operations_debs_varnish.Cookie.Reading.{put_pairs, parse-Reads}
use operations_debs_varnish.Cookie.Operations.{get-set, set_atomic}
use operations_debs_varnish.Cookie.RoundTrip.{parse-get_string}
use operations_debs_varnish.Cookie.Filter.{filter_total}
use operations_debs_varnish.Cookie.Names.{IsEntry, Listed, join, entries}
use operations_debs_varnish.Cookie.History.{run-IsJar, run, Call, sets, parses, deletes}

abbrev lang : Bytes
lang = codes "lang"

abbrev sid : Bytes
sid = codes "sid"

abbrev two_cookies : List Cookie
two_cookies =
    record { name = lang; value = codes "en" } ∷ record { name = sid; value = codes "7" } ∷ []

abbrev task : Task endless
task = record { ws = tt; priv = some two_cookies; log = [] }

abbrev no_room : Task full
no_room = record { ws = tt; priv = some two_cookies; log = [] }

two_cookies-IsJar : IsJar two_cookies
unfolding value_of find_cookie eq_bytes
two_cookies-IsJar = record {
  unique = (refl, (refl, tt));
  filled = (((λ e. cc), (λ e. cc)), (((λ e. cc), (λ e. cc)), tt));
}

two_cookies-IsPrintable : All IsPrintable two_cookies
two_cookies-IsPrintable = (
  record { no_lead = refl; no_equals = ground arith; no_semicolon = ground arith },
  (record { no_lead = refl; no_equals = ground arith; no_semicolon = ground arith }, tt),
)

get-set_example :
    get endless (some sid) (set endless (some sid) (some (codes "8")) task) ≡ some (codes "8")
unfolding eq_bytes
get-set_example = get-set endless (some sid) (some (codes "8")) (some sid) task endless-IsRoomy

set_atomic_example :
    (((set full (some sid) (some (codes "8")) no_room).log ≡ [])
      × ((j : Option Bytes)
          → get full j (set full (some sid) (some (codes "8")) no_room)
            ≡ (if eq_bytes sid (text j) then some (codes "8") else get full j no_room)))
    ⊎ ((m : Message) × ((set full (some sid) (some (codes "8")) no_room).log ≡ m ∷ [])
        × ((j : Option Bytes)
            → get full j (set full (some sid) (some (codes "8")) no_room) ≡ get full j no_room))
set_atomic_example = set_atomic full (some sid) (some (codes "8")) no_room refl refl

parse_total_example :
    (t' : Task endless) × (parse endless (some (codes "a=1; b")) task ≡ some t')
    × IsJar (cobj_get endless t')
    × All IsPrintable (cobj_get endless t')
parse_total_example = parse_total endless (some (codes "a=1; b")) task refl

parse-get_string_example :
    (u' : Task endless) × (parse endless (get_string endless task).1 task ≡ some u')
    × (cobj_get endless u' ≡ two_cookies)
unfolding cobj_get
parse-get_string_example =
    parse-get_string endless task task endless-IsRoomy (λ e. cc) two_cookies-IsJar
      two_cookies-IsPrintable

filter_total_example :
    (fs : List Bytes) × (out keep : Task endless) × (join fs ≡ codes " sid,, lang")
    × All (Lacks b',') fs
    × (match_names (some (codes " sid,, lang")) ≡ some (entries fs))
    × All IsEntry (entries fs)
    × (filter endless (some (codes " sid,, lang")) task ≡ some out)
    × (filter_except endless (some (codes " sid,, lang")) task ≡ some keep)
    × ((n : Bytes)
        → (Listed n (entries fs)
            × (get endless (some n) out ≡ none)
            × (get endless (some n) keep ≡ get endless (some n) task))
          ⊎ ((¬ Listed n (entries fs))
              × (get endless (some n) out ≡ get endless (some n) task)
              × (get endless (some n) keep ≡ none)))
unfolding cobj_get
filter_total_example = filter_total endless (some (codes " sid,, lang")) task two_cookies-IsJar

abbrev a_request : List Call
a_request =
    parses (some (codes "a=1; b=2")) ∷ sets (some sid) (some (codes "8")) ∷ deletes (some lang) ∷ []

run-IsJar_example : IsJar (cobj_get endless (run endless a_request task))
unfolding cobj_get
run-IsJar_example = run-IsJar endless a_request task two_cookies-IsJar

-- A piece without '=' joins the name behind it, and a name that comes back is written in place.
abbrev a_header : Bytes
a_header = codes "lang=en; flag; sid=1;lang=de; x"

parse-Reads_example :
    (ps : List (Bytes × Bytes)) × (t' : Task endless) × Reads a_header ps
    × (parse endless (some a_header) task ≡ some t')
    × (cobj_get endless t' ≡ put_pairs ps [])
    × (t'.log ≡ task.log ++ (parsed (length ps) ∷ []))
parse-Reads_example = parse-Reads endless endless-IsRoomy a_header task (λ e. cc)
