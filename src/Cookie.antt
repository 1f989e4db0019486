-- ===== src/Cookie.antt =====
-- src/vmod_cookie.c: the cookies of one request. The list behind the PRIV_TASK pointer is an
-- association list, oldest first; `none` is the null pointer before the first call.
pub mod Jar
pub mod Operations
pub mod Parse
pub mod RoundTrip
pub mod Grammar
pub mod Reading
pub mod Names
pub mod Filter
pub mod History
use operations_debs_varnish.Base.{
  ℕ, zero, suc, ◌+◌, Bool, true, false, not, List, [], ◌∷◌, ◌++◌, Option, none, some, if◌then◌else◌,
  Bytes, eq_bytes, skip_space, missing, found, cut, length,
}
use operations_debs_varnish.Workspace.{Workspace}

-- struct cookie
pub record Cookie : Type 0 where
  pub name : Bytes
  pub value : Bytes

-- The log lines of the module.
pub data Message : Type 0 where
  nothing_to_parse : Message
  parsed : ℕ → Message
  overflow_in_set : Message
  no_storage : Message
  overflow : Message

-- sizeof(struct cookie) on LP64: two pointers and a list entry behind the magic number.
abbrev sizeof_cookie : ℕ
sizeof_cookie = 40

unfoldable pub find_cookie : Bytes → List Cookie → Option Cookie
find_cookie n [] = none
find_cookie n (c ∷ cs) = if eq_bytes c.name n then some c else find_cookie n cs

-- cookie->value = p, on the cookie that find_cookie() finds
unfoldable pub set_value : Bytes → Bytes → List Cookie → List Cookie
set_value n v [] = []
set_value n v (c ∷ cs) =
    if eq_bytes c.name n then record c { value = v } ∷ cs else c ∷ set_value n v cs

-- VTAILQ_REMOVE of the cookie that find_cookie() finds
unfoldable pub remove_cookie : Bytes → List Cookie → List Cookie
remove_cookie n [] = []
remove_cookie n (c ∷ cs) = if eq_bytes c.name n then cs else c ∷ remove_cookie n cs

-- name == NULL || *name == '\0'
abbrev pub is_blank : Option Bytes → Bool
is_blank none = true
is_blank (some []) = true
is_blank (some (c ∷ s)) = false

-- VTAILQ_EMPTY
abbrev is_empty : List Cookie → Bool
is_empty [] = true
is_empty (c ∷ cs) = false

abbrev pub text : Option Bytes → Bytes
text none = []
text (some s) = s

-- The loop of filter_cookies() that reads the list: the rest of it, and the names so far.
unfoldable pub names_loop : ℕ → Bytes → List Bytes → Option (List Bytes)
names_loop zero p names = none
names_loop (suc fuel) [] names = some names
names_loop (suc fuel) (c ∷ p) names = elim (skip_space (c ∷ p)) [
  | [] ↦ some names
  | d ∷ s ↦ elim (cut b',' (d ∷ s)) [
    | missing q ↦ some (names ++ (q ∷ []))
    | found q rest ↦ names_loop fuel rest (if eq_bytes q [] then names else names ++ (q ∷ []))
  ]
]

-- `none` only if the loop has run out of fuel, which it does not.
unfoldable pub match_names : Option Bytes → Option (List Bytes)
unfolding names_loop
match_names list = names_loop (suc (length (text list))) (text list) []

unfoldable pub matched : List Bytes → Bytes → Bool
matched [] n = false
matched (m ∷ ms) n = if eq_bytes n m then true else matched ms n

-- matched != filter_action
abbrev differs : Bool → Bool → Bool
differs true b = not b
differs false b = b

-- The loop that takes out each cookie with matched != filter_action.
unfoldable pub drop_cookies : Bool → List Bytes → List Cookie → List Cookie
unfolding matched
drop_cookies white names [] = []
drop_cookies white names (c ∷ cs) =
    if differs (matched names c.name) white
    then drop_cookies white names cs
    else c ∷ drop_cookies white names cs

abbrev lead : Bool → Bytes
lead true = []
lead false = b' ' ∷ []

-- The loop of vmod_get_string(); the flag is `curr == VTAILQ_FIRST(...)`.
unfoldable pub print_cookies : Bool → List Cookie → Bytes
print_cookies first [] = []
print_cookies first (c ∷ cs) =
    lead first ++ (c.name ++ (b'=' ∷ (c.value ++ (b';' ∷ print_cookies false cs))))

module _ (W : Workspace) where
  open W use {Ws, alloc, copy}

  -- What a call sees of its task: the workspace, the log, newest line last, and the private pointer.
  pub record Task : Type 0 where
    pub ws : Ws
    pub log : List Message
    pub priv : Option (List Cookie)

  abbrev pub log_line : Message → Task → Task
  log_line m t = record t { log = t.log ++ (m ∷ []) }

  -- cobj_get(), and what its result is.
  unfoldable pub cobj_get : Task → List Cookie
  cobj_get t = elim t.priv [ none ↦ [] | some cs ↦ cs ]

  abbrev with_jar : Task → List Cookie → Task
  with_jar t cs = record t { priv = some cs }

  -- The part of vmod_set() for a name that the list has.
  pub set_found : Bytes → Bytes → Task → Task
  unfolding cobj_get
  set_found n v t =
      let r = copy v t.ws in
      if r.1
      then record t { ws = r.0; priv = some (set_value n v (cobj_get t)) }
      else log_line overflow_in_set (record t { ws = r.0; priv = some (cobj_get t) })

  -- The part for a new name: three requests to the workspace, of which the last two are both made.
  pub set_new : Bytes → Bytes → Task → Task
  unfolding cobj_get
  set_new n v t =
      let a = alloc sizeof_cookie t.ws in
      let p = copy n a.0 in
      let q = copy v p.0 in
      let cs = cobj_get t in
      if not a.1
      then log_line no_storage (record t { ws = a.0; priv = some cs })
      else if not p.1
      then log_line no_storage (record t { ws = q.0; priv = some cs })
      else if not q.1
      then log_line no_storage (record t { ws = q.0; priv = some cs })
      else record t { ws = q.0; priv = some (cs ++ (record { name = n; value = v } ∷ [])) }

  unfoldable pub set : Option Bytes → Option Bytes → Task → Task
  unfolding cobj_get set_found set_new
  set name value t =
      if is_blank name
      then with_jar t (cobj_get t)
      else if is_blank value
      then with_jar t (cobj_get t)
      else elim (find_cookie (text name) (cobj_get t)) [
        | none ↦ set_new (text name) (text value) t
        | some c ↦ set_found (text name) (text value) t
      ]

  unfoldable pub clean : Task → Task
  clean t = with_jar t []

  -- The loop of vmod_parse(): the rest of the header and the count so far.
  unfoldable pub parse_loop : ℕ → Bytes → ℕ → Task → Option (ℕ × Task)
  parse_loop zero p i t = none
  parse_loop (suc fuel) [] i t = some (i, t)
  parse_loop (suc fuel) (c ∷ p) i t = elim (cut b'=' (skip_space (c ∷ p))) [
    | missing _ ↦ some (i, t)
    | found name rest ↦ elim (cut b';' rest) [
      | missing value ↦ some (i + 1, set (some name) (some value) t)
      | found value more ↦ parse_loop fuel more (i + 1) (set (some name) (some value) t)
    ]
  ]

  -- What an earlier parse() of the same request left is cleaned out.
  pub clean_old : Task → Task
  unfolding cobj_get clean
  clean_old t = if is_empty (cobj_get t) then with_jar t (cobj_get t) else clean t

  abbrev finish : Task → Option (ℕ × Task) → Option Task
  finish t none = none
  finish t (some (i, t')) = some (log_line (parsed i) t')

  -- `none` only if the loop has run out of fuel, which it does not.
  unfoldable pub parse : Option Bytes → Task → Option Task
  unfolding cobj_get clean_old parse_loop
  parse header t =
      if is_blank header
      then some (log_line nothing_to_parse (with_jar t (cobj_get t)))
      else finish t (parse_loop (suc (length (text header))) (text header) 0 (clean_old t))

  unfoldable pub isset : Option Bytes → Task → Bool
  unfolding cobj_get
  isset name t =
      if is_blank name
      then false
      else elim (find_cookie (text name) (cobj_get t)) [ none ↦ false | some c ↦ true ]

  unfoldable pub get : Option Bytes → Task → Option Bytes
  unfolding cobj_get
  get name t =
      if is_blank name
      then none
      else elim (find_cookie (text name) (cobj_get t)) [ none ↦ none | some c ↦ some c.value ]

  unfoldable pub delete : Option Bytes → Task → Task
  unfolding cobj_get
  delete name t =
      if is_blank name
      then with_jar t (cobj_get t)
      else with_jar t (remove_cookie (text name) (cobj_get t))

  -- filter_cookies(): `white` is FILTER_ACTION_WHITELIST.
  unfoldable pub filter_cookies : Option Bytes → Bool → Task → Option Task
  unfolding cobj_get match_names drop_cookies
  filter_cookies list white t = elim (match_names list) [
    | none ↦ none
    | some names ↦ some (with_jar t (drop_cookies white names (cobj_get t)))
  ]

  unfoldable pub filter_except : Option Bytes → Task → Option Task
  unfolding filter_cookies
  filter_except list t = filter_cookies list true t

  unfoldable pub filter : Option Bytes → Task → Option Task
  unfolding filter_cookies
  filter list t = filter_cookies list false t

  unfoldable pub get_string : Task → Task × Option Bytes
  unfolding cobj_get
  get_string t =
      let cs = cobj_get t in
      let output = print_cookies true cs in
      let r = alloc (length output + 1) t.ws in
      if r.1
      then (record t { ws = r.0; priv = some cs }, some output)
      else (log_line overflow (record t { ws = r.0; priv = some cs }), none)
