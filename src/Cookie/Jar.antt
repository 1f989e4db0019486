-- ===== src/Cookie/Jar.antt =====
-- Laws of the list of cookies: what find_cookie() sees after each change of the list, and which
-- changes keep the names apart.
use operations_debs_varnish.Base.{
  Bool, List, [], ◌∷◌, ◌++◌, Option, none, some, ◌≡◌, ◌≢◌, refl, arith, if◌then◌else◌, Bytes,
  eq_bytes, eq_bytes_iff, All,
}
use operations_debs_varnish.Cookie.{
  Cookie, find_cookie, set_value, remove_cookie, matched, drop_cookies,
}

-- The value that the list holds under a name.
unfoldable pub value_of : Bytes → List Cookie → Option Bytes
value_of n cs = elim (find_cookie n cs) [ none ↦ none | some c ↦ some c.value ]

-- No name stands twice.
abbrev pub IsUnique : List Cookie → Type 0
IsUnique [] = Unit {0}
IsUnique (c ∷ cs) = (value_of c.name cs ≡ none) × IsUnique cs

abbrev pub IsFilled : Cookie → Type 0
IsFilled c = (c.name ≢ []) × (c.value ≢ [])

-- What every operation keeps: names are unique, and neither a name nor a value is empty.
pub record IsJar (cs : List Cookie) : Type 0 where
  pub unique : IsUnique cs
  pub filled : All IsFilled cs

pub value_of-set_value :
    (n j v : Bytes) (cs : List Cookie)
    → value_of n cs ≢ none
    → value_of j (set_value n v cs) ≡ (if eq_bytes n j then some v else value_of j cs)
unfolding value_of find_cookie set_value
value_of-set_value n j v [] h = absurd (h refl)
value_of-set_value n j v (c ∷ cs) h = ground (
  arith,
  eq_bytes_iff c.name n,
  eq_bytes_iff c.name j,
  eq_bytes_iff n j,
  value_of-set_value n j v cs,
)

pub value_of-append :
    (n j v : Bytes) (cs : List Cookie)
    → value_of n cs ≡ none
    → value_of j (cs ++ (record { name = n; value = v } ∷ []))
      ≡ (if eq_bytes n j then some v else value_of j cs)
unfolding value_of find_cookie
value_of-append n j v [] h = ground arith
value_of-append n j v (c ∷ cs) h = ground (
  arith,
  eq_bytes_iff c.name n,
  eq_bytes_iff c.name j,
  eq_bytes_iff n j,
  value_of-append n j v cs,
)

pub value_of-remove_cookie :
    (n j : Bytes) (cs : List Cookie)
    → IsUnique cs
    → value_of j (remove_cookie n cs) ≡ (if eq_bytes n j then none else value_of j cs)
unfolding value_of find_cookie remove_cookie
value_of-remove_cookie n j [] u = ground arith
value_of-remove_cookie n j (c ∷ cs) u = ground (
  arith,
  eq_bytes_iff c.name n,
  eq_bytes_iff c.name j,
  eq_bytes_iff n j,
  value_of-remove_cookie n j cs u.1,
)

pub value_of-drop_cookies :
    (white : Bool) (names : List Bytes) (j : Bytes) (cs : List Cookie)
    → IsUnique cs
    → value_of j (drop_cookies white names cs) ≡ (
        if matched names j
        then (if white then value_of j cs else none)
        else (if white then none else value_of j cs))
unfolding value_of find_cookie drop_cookies
value_of-drop_cookies white names j [] u = ground arith
value_of-drop_cookies white names j (c ∷ cs) u =
    ground (arith, eq_bytes_iff c.name j, value_of-drop_cookies white names j cs u.1)

-- Each change of the list keeps the two parts of the invariant.
set_value-IsUnique :
    (n v : Bytes) (cs : List Cookie)
    → value_of n cs ≢ none
    → IsUnique cs
    → IsUnique (set_value n v cs)
unfolding value_of find_cookie set_value
set_value-IsUnique n v [] h u = tt
set_value-IsUnique n v (c ∷ cs) h u = ground (
  arith,
  eq_bytes_iff c.name n,
  eq_bytes_iff n c.name,
  set_value-IsUnique n v cs,
  value_of-set_value n c.name v cs,
)

set_value-filled :
    (n v : Bytes) (cs : List Cookie) → v ≢ [] → All IsFilled cs → All IsFilled (set_value n v cs)
unfolding set_value
set_value-filled n v [] h f = tt
set_value-filled n v (c ∷ cs) h f = ground (arith, set_value-filled n v cs h f.1)

pub set_value-IsJar :
    (n v : Bytes) (cs : List Cookie)
    → v ≢ []
    → value_of n cs ≢ none
    → IsJar cs
    → IsJar (set_value n v cs)
set_value-IsJar n v cs h k j = record {
  unique = set_value-IsUnique n v cs k j.unique;
  filled = set_value-filled n v cs h j.filled;
}

append-IsUnique :
    (n v : Bytes) (cs : List Cookie)
    → value_of n cs ≡ none
    → IsUnique cs
    → IsUnique (cs ++ (record { name = n; value = v } ∷ []))
unfolding value_of find_cookie
append-IsUnique n v [] h u = (refl, tt)
append-IsUnique n v (c ∷ cs) h u = ground (
  arith,
  eq_bytes_iff c.name n,
  eq_bytes_iff n c.name,
  append-IsUnique n v cs,
  value_of-append n c.name v cs,
)

append-filled :
    (d : Cookie) (cs : List Cookie) → IsFilled d → All IsFilled cs → All IsFilled (cs ++ (d ∷ []))
append-filled d [] g f = (g, tt)
append-filled d (c ∷ cs) g f = (f.0, append-filled d cs g f.1)

pub append-IsJar :
    (n v : Bytes) (cs : List Cookie)
    → n ≢ []
    → v ≢ []
    → value_of n cs ≡ none
    → IsJar cs
    → IsJar (cs ++ (record { name = n; value = v } ∷ []))
append-IsJar n v cs hn hv k j = record {
  unique = append-IsUnique n v cs k j.unique;
  filled = append-filled _ cs (hn, hv) j.filled;
}

remove_cookie-IsUnique :
    (n : Bytes) (cs : List Cookie) → IsUnique cs → IsUnique (remove_cookie n cs)
unfolding remove_cookie
remove_cookie-IsUnique n [] u = tt
remove_cookie-IsUnique n (c ∷ cs) u =
    ground (arith, remove_cookie-IsUnique n cs u.1, value_of-remove_cookie n c.name cs u.1)

remove_cookie-filled :
    (n : Bytes) (cs : List Cookie) → All IsFilled cs → All IsFilled (remove_cookie n cs)
unfolding remove_cookie
remove_cookie-filled n [] f = tt
remove_cookie-filled n (c ∷ cs) f = ground (arith, remove_cookie-filled n cs f.1)

pub remove_cookie-IsJar : (n : Bytes) (cs : List Cookie) → IsJar cs → IsJar (remove_cookie n cs)
remove_cookie-IsJar n cs j = record {
  unique = remove_cookie-IsUnique n cs j.unique;
  filled = remove_cookie-filled n cs j.filled;
}

drop_cookies-IsUnique :
    (white : Bool) (names : List Bytes) (cs : List Cookie)
    → IsUnique cs
    → IsUnique (drop_cookies white names cs)
unfolding drop_cookies
drop_cookies-IsUnique white names [] u = tt
drop_cookies-IsUnique white names (c ∷ cs) u = ground (
  arith,
  drop_cookies-IsUnique white names cs u.1,
  value_of-drop_cookies white names c.name cs u.1,
)

drop_cookies-filled :
    (white : Bool) (names : List Bytes) (cs : List Cookie)
    → All IsFilled cs
    → All IsFilled (drop_cookies white names cs)
unfolding drop_cookies
drop_cookies-filled white names [] f = tt
drop_cookies-filled white names (c ∷ cs) f = ground (arith, drop_cookies-filled white names cs f.1)

pub drop_cookies-IsJar :
    (white : Bool) (names : List Bytes) (cs : List Cookie)
    → IsJar cs
    → IsJar (drop_cookies white names cs)
drop_cookies-IsJar white names cs j = record {
  unique = drop_cookies-IsUnique white names cs j.unique;
  filled = drop_cookies-filled white names cs j.filled;
}
