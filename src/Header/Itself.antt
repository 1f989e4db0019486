-- ===== src/Header/Itself.antt =====
-- What vmod_copy() of src/vmod_header.c does where source and destination are one header.
use mathlib.Core.List.{cons≢nil}
use operations_debs_varnish.Base.{
  ℕ, suc, ◌+◌, ◌≤◌, ◌≡◌, ◌⊎◌, inl, inr, refl, ap, sym, ◌∙◌, arith, Bool, true, List, [], ◌∷◌, ◌++◌,
  Option, none, some, ==_iff, ltb, Bytes, length, drop, length-drop, drop-append, Bool-cases,
  starts_with_nocase, to_lower,
}
use operations_debs_varnish.Header.{from, skip_blanks}
use operations_debs_varnish.Header.Append.{Varnishd, copy_header, header_copy}
use operations_debs_varnish.Header.Loop.{
  texts, Fits, IsAppending, IsRoomy, Msgs, copies, copy_header-Kept, copy_loop_rule,
}
use operations_debs_varnish.Header.Copied.{values, drop_none, match_none, copied_one}

starts_with_itself : (hdr s : Bytes) → starts_with_nocase (hdr ++ s) hdr ≡ true
unfolding starts_with_nocase
starts_with_itself [] s = refl
starts_with_itself (c ∷ hdr) s =
    ground (arith, ==_iff (to_lower c) (to_lower c), starts_with_itself hdr s)

-- There is a value.
abbrev pub HasValue : Bytes → List (Option Bytes) → Type 0
HasValue hdr ts = (v : Bytes) × (vs : List Bytes) × (values hdr ts ≡ v ∷ vs)

HasValue-append :
    (hdr b : Bytes) (ts : List (Option Bytes))
    → starts_with_nocase b hdr ≡ true
    → HasValue hdr (ts ++ (some b ∷ []))
HasValue-append hdr b [] q = (skip_blanks (from (length hdr) b), [], rw q refl)
HasValue-append hdr b (none ∷ ts) q = HasValue-append hdr b ts q
HasValue-append hdr b (some t ∷ ts) q = elim (Bool-cases (starts_with_nocase t hdr)) [
  | inl r ↦ (skip_blanks (from (length hdr) t), values hdr (ts ++ (some b ∷ [])), rw r refl)
  | inr r ↦ let (v, vs, e) = HasValue-append hdr b ts q in (v, vs, rw r e)
]

module _ (Re : Type 0) (re_match : Re → Bytes → Bool) (re_init : Bytes → Option Re) (D : Varnishd)
    (a : IsAppending D) where
  -- The array is full, or a header of the name is still in front of the loop.
  abbrev Ahead : Bytes → ℕ → ℕ → ℕ → Msgs Re re_match re_init D a → Type 0
  Ahead hdr w size u m = ((m.http w).nhd ≡ size) ⊎ HasValue hdr (drop u (texts (m.http w)))

  Ahead-step :
      (roomy : IsRoomy D) (hdr : Bytes) (w size u : ℕ) (text : Option Bytes)
      (m : Msgs Re re_match re_init D a)
      → Ahead hdr w size u m
      → length (m.http w).hd ≡ size
      → Fits (m.http w)
      → drop u (texts (m.http w)) ≡ text ∷ drop (suc u) (texts (m.http w))
      → Ahead hdr w size (suc u) (copies Re re_match re_init D a hdr w hdr text m)
  unfolding copy_header
  Ahead-step roomy hdr w size u none m (inl full) l h d = inl full
  Ahead-step roomy hdr w size u none m (inr (v, vs, e)) l h d =
      inr (v, vs, sym (ap (values hdr) d) ∙ e)
  Ahead-step roomy hdr w size u (some b) m p l h d =
      let (kept, grows, fits) = copy_header-Kept Re re_match re_init D a hdr w hdr (some b) m w in
      let new = hdr ++ (b' ' ∷ skip_blanks (from (length hdr) b)) in
      elim (Bool-cases (starts_with_nocase b hdr)) [
        | inr q ↦
            rw (match_none Re re_match re_init D a hdr b, q)
              (elim p [
                | inl full ↦ inl full
                | inr (v, vs, e) ↦
                    (let same : values hdr (drop u (texts (m.http w)))
                          ≡ values hdr (drop (suc u) (texts (m.http w))) =
                        ap (values hdr) d ∙ rw q refl in
                      inr (v, vs, sym same ∙ e))
              ])
        | inl q ↦ elim (Bool-cases (ltb (m.http w).nhd size)) [
          | inl r ↦
              (let (others, lost, text', counted, size') =
                  copied_one Re re_match re_init D a roomy hdr w hdr b m q (ground arith) in
                let inside : suc u ≤ length (texts (m.http w)) =
                  omega (arith, length-drop u (texts (m.http w)), ap length d) in
                let behind =
                  ap (drop (suc u)) text'
                  ∙ drop-append (suc u) (texts (m.http w)) (some new ∷ []) inside in
                inr (
                  rw behind (
                    HasValue-append hdr new (drop (suc u) (texts (m.http w)))
                      (starts_with_itself hdr _))))
          | inr r ↦ (let full : size ≤ (m.http w).nhd = ground arith in inl (omega (arith, fits h)))
        ]
      ]

  -- A copy of a header onto itself, where the text of every header fits in the workspace, the array holds
  -- its headers and there is such a header: vmod_copy() comes to an end only when the array is full.
  pub header_copy_itself :
      (roomy : IsRoomy D) (hdr : Bytes) (w : ℕ) (m : Msgs Re re_match re_init D a) (v : Bytes)
      (vs : List Bytes) (fits : Fits (m.http w)) (found : values hdr (texts (m.http w)) ≡ v ∷ vs)
      → (m' : Msgs Re re_match re_init D a) × (header_copy Re re_match re_init D w hdr w hdr m
          ≡ some m')
        × ((m'.http w).nhd ≡ length (m.http w).hd)
  unfolding header_copy
  header_copy_itself roomy hdr w m v vs fits found =
      let (m', u', e, behind, k, l, p) =
        copy_loop_rule Re re_match re_init D a w hdr w hdr (length (m.http w).hd)
          (Ahead hdr w (length (m.http w).hd))
          (λ u n s p l h d. Ahead-step roomy hdr w (length (m.http w).hd) u s.text n p l h d)
          (length (m.http w).hd + 1) 0 m (omega arith) (omega arith) refl fits
          (inr (v, vs, found)) in
      (
        m',
        e,
        elim p [
          | inl full ↦ full
          | inr (v', vs', f) ↦
              absurd (cons≢nil (sym f ∙ ap (values hdr) (drop_none u' (m'.http w) behind)))
        ],
      )
