-- ===== src/Cookie/Filter.antt =====
-- filter_cookies() of src/vmod_cookie.c: which cookies stay.
use operations_debs_varnish.Base.{
  suc, Bool, true, false, List, [], ◌∷◌, Option, none, some, ◌≡◌, ◌⊎◌, inl, inr, arith,
  if◌then◌else◌, Bytes, length, All, Lacks,
}
use operations_debs_varnish.Workspace.{Workspace}
use operations_debs_varnish.Cookie.{
  text, Task, cobj_get, match_names, matched, drop_cookies, filter, filter_except, filter_cookies,
  get,
}
use operations_debs_varnish.Cookie.Jar.{IsJar, value_of-drop_cookies}
use operations_debs_varnish.Cookie.Operations.{get-value_of}
use operations_debs_varnish.Cookie.Names.{
  IsEntry, Listed, matched_cases, join, entries, entries-IsEntry, names_loop-entries,
}

module _ (W : Workspace) where
  -- What filter_cookies() leaves for the names that it has read.
  after : Task W → Bool → List Bytes → Task W
  after t white ns = record t { priv = some (drop_cookies white ns (cobj_get W t)) }

  filter_cookies-after :
      (list : Option Bytes) (t : Task W) (white : Bool) (ns : List Bytes)
      → match_names list ≡ some ns
      → filter_cookies W list white t ≡ some (after t white ns)
  unfolding filter_cookies after
  filter_cookies-after list t white ns e = rw (e, filter_cookies)

  get-after :
      (n : Bytes) (t : Task W) (white : Bool) (ns : List Bytes)
      → IsJar (cobj_get W t)
      → get W (some n) (after t white ns) ≡ (
          if matched ns n
          then (if white then get W (some n) t else none)
          else if white
          then none
          else get W (some n) t)
  unfolding after cobj_get
  get-after n t white ns j = ground (
    arith,
    get-value_of W (some n) t,
    get-value_of W (some n) (after t white ns),
    value_of-drop_cookies white ns n (cobj_get W t) j.unique,
  )

  -- Where no name stands twice, and neither a name nor a value is empty: every list is read to its end, as
  -- pieces with commas between them. Its names are the pieces without the white space in front of them,
  -- where something is left. filter() takes out the cookies with those names, filter_except() all
  -- others, and the cookies that stay are as they were.
  pub filter_total :
      (list : Option Bytes) (t : Task W)
      → IsJar (cobj_get W t)
      → (fs : List Bytes) × (out keep : Task W) × (join fs ≡ text list)
        × All (Lacks b',') fs
        × (match_names list ≡ some (entries fs))
        × All IsEntry (entries fs)
        × (filter W list t ≡ some out)
        × (filter_except W list t ≡ some keep)
        × ((n : Bytes)
            → (Listed n (entries fs)
                × (get W (some n) out ≡ none)
                × (get W (some n) keep ≡ get W (some n) t))
              ⊎ ((¬ Listed n (entries fs))
                  × (get W (some n) out ≡ get W (some n) t)
                  × (get W (some n) keep ≡ none)))
  filter_total list t j =
      let (f, fs, k, l, e) =
        names_loop-entries (suc (length (text list))) (text list) [] (omega arith) in
      let ns : List Bytes = entries (f ∷ fs) in
      let read : match_names list ≡ some ns = unfold match_names in e in
      (
        f ∷ fs,
        after t false ns,
        after t true ns,
        k,
        l,
        read,
        entries-IsEntry (f ∷ fs) l,
        unfold filter in filter_cookies-after list t false ns read,
        unfold filter_except in filter_cookies-after list t true ns read,
        λ n. elim (matched_cases ns n) [
          | inl (l, m) ↦ inl (l, rw (get-after n t false ns j, m), rw (get-after n t true ns j, m))
          | inr (l, m) ↦ inr (l, rw (get-after n t false ns j, m), rw (get-after n t true ns j, m))
        ],
      )
