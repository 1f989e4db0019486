-- ===== src/Header/Copied.antt =====
-- Where vmod_copy() of src/vmod_header.c leaves the headers of the two messages.
use mathlib.Core.List.{append-nil, append_assoc}
use operations_debs_varnish.Base.{
  ℕ, zero, suc, ◌+◌, ◌≤◌, ◌<◌, ◌≡◌, ◌≢◌, inl, inr, refl, ap, sym, ◌∙◌, arith, Bool, true, false,
  List, [], ◌∷◌, ◌++◌, map, Option, none, some, ◌==◌, ==_iff, if◌then◌else◌, Bytes, length, take,
  drop, drop_over, Bool-cases, starts_with_nocase,
}
use operations_debs_varnish.Header.{Slot, Http, from, skip_blanks, header_http_match}
use operations_debs_varnish.Header.Append.{Varnishd, copy_header, header_copy}
use operations_debs_varnish.Header.Loop.{
  texts, Fits, IsAppending, IsRoomy, Msgs, copies, stored_append, copy_loop_rule,
}

-- The values of the headers of a name
abbrev pub values : Bytes → List (Option Bytes) → List Bytes
values hdr [] = []
values hdr (none ∷ ts) = values hdr ts
values hdr (some b ∷ ts) =
    if starts_with_nocase b hdr
    then skip_blanks (from (length hdr) b) ∷ values hdr ts
    else values hdr ts

-- A header that is added
abbrev pub new_header : Bytes → Bytes → Option Bytes
new_header name v = some (name ++ (b' ' ∷ v))

length-texts_le : (n : ℕ) (hd : List Slot) → length (map (λ (s : Slot). s.text) (take n hd)) ≤ n
length-texts_le zero hd = omega arith
length-texts_le (suc n) [] = omega arith
length-texts_le (suc n) (s ∷ hd) = omega (arith, length-texts_le n hd)

pub drop_none : (u : ℕ) (hp : Http) → hp.nhd ≤ u → drop u (texts hp) ≡ []
drop_none u hp h = drop_over u (texts hp) (omega (arith, length-texts_le hp.nhd hp.hd))

differ : (v w : ℕ) → v ≢ w → (v == w) ≡ false
differ v w n = ground (arith, ==_iff v w)

module _ (Re : Type 0) (re_match : Re → Bytes → Bool) (re_init : Bytes → Option Re) (D : Varnishd)
    (a : IsAppending D) where
  pub match_none :
      (hdr b : Bytes)
      → header_http_match Re re_match re_init none hdr (some b) ≡ starts_with_nocase b hdr
  unfolding header_http_match
  match_none hdr b = elim (Bool-cases (starts_with_nocase b hdr)) [
    | inl q ↦ rw q refl
    | inr q ↦ rw q refl
  ]

  -- One copy, where there is room for it
  pub copied_one :
      (roomy : IsRoomy D) (hdr : Bytes) (w : ℕ) (name b : Bytes) (m : Msgs Re re_match re_init D a)
      (q : starts_with_nocase b hdr ≡ true) (room : (m.http w).nhd < length (m.http w).hd)
      → let m' = copies Re re_match re_init D a hdr w name (some b) m in
        ((v : ℕ) → v ≢ w → m'.http v ≡ m.http v)
        × (m'.lost ≡ m.lost)
        × (texts (m'.http w)
            ≡ texts (m.http w) ++ (new_header name (skip_blanks (from (length hdr) b)) ∷ []))
        × ((m'.http w).nhd ≡ (m.http w).nhd + 1)
        × (length (m'.http w).hd ≡ length (m.http w).hd)
  unfolding copy_header
  copied_one roomy hdr w name b m q room =
      let p = skip_blanks (from (length hdr) b) in
      let t = name ++ (b' ' ∷ p) in
      let (lost, at) = stored_append Re re_match re_init D a w name p t m (roomy w name p m.ws) in
      let here : (w == w) ≡ true = (==_iff w w).1 refl in
      let stored = at w ∙ rw here refl in
      let there = λ (v : ℕ) (n : v ≢ w). differ v w n in
      rw (match_none hdr b, q)
        (
          λ v n. at v ∙ rw (there v n) refl,
          lost,
          rw stored (a.appended t (m.http w) room),
          rw stored (a.counted t (m.http w) room),
          rw stored (a.kept t (m.http w)),
        )

  -- What the loop keeps: the message of the copies has those in front of u, and room for those behind.
  abbrev Copying :
      Bytes
      → ℕ
      → Bytes
      → Msgs Re re_match re_init D a
      → List (Option Bytes)
      → ℕ
      → Msgs Re re_match re_init D a
      → Type 0
  Copying hdr w name m0 ts u m =
      let todo = values hdr (drop u ts) in
      ((v : ℕ) → v ≢ w → m.http v ≡ m0.http v)
      × (m.lost ≡ m0.lost)
      × (texts (m.http w) ++ map (new_header name) todo
          ≡ texts (m0.http w) ++ map (new_header name) (values hdr ts))
      × ((m.http w).nhd + length todo ≤ length (m.http w).hd)

  Copying-step :
      (roomy : IsRoomy D) (hdr : Bytes) (w : ℕ) (name : Bytes) (m0 : Msgs Re re_match re_init D a)
      (ts : List (Option Bytes)) (u : ℕ) (text : Option Bytes) (m : Msgs Re re_match re_init D a)
      → Copying hdr w name m0 ts u m
      → drop u ts ≡ text ∷ drop (suc u) ts
      → Copying hdr w name m0 ts (suc u) (copies Re re_match re_init D a hdr w name text m)
  unfolding copy_header
  Copying-step roomy hdr w name m0 ts u none m p d =
      let e : values hdr (drop u ts) ≡ values hdr (drop (suc u) ts) = rw d refl in rw (sym e) p
  Copying-step roomy hdr w name m0 ts u (some b) m p d =
      elim (Bool-cases (starts_with_nocase b hdr)) [
        | inr q ↦
            (let e : values hdr (drop u ts) ≡ values hdr (drop (suc u) ts) = rw d (rw q refl) in
              rw (match_none hdr b, q) (rw (sym e) p))
        | inl q ↦
            (let v = skip_blanks (from (length hdr) b) in
              let e : values hdr (drop u ts) ≡ v ∷ values hdr (drop (suc u) ts) =
                rw d (rw q refl) in
              let size : length (values hdr (drop u ts))
                  ≡ suc (length (values hdr (drop (suc u) ts))) =
                ap length e in
              let (others, lost, text, room) = p in
              let (others', lost', text', counted, kept) =
                copied_one roomy hdr w name b m q (omega arith) in
              (
                λ x n. others' x n ∙ others x n,
                lost' ∙ lost,
                rw text' (
                    rw (append_assoc (texts (m.http w)) (new_header name v ∷ []) _)
                      (ap (λ l. texts (m.http w) ++ map (new_header name) l) (sym e) ∙ text)),
                omega arith,
              ))
      ]

  all_copied :
      (src : ℕ) (hdr : Bytes) (w : ℕ) (name : Bytes) (m m' : Msgs Re re_match re_init D a) (u : ℕ)
      → src ≢ w
      → (m'.http src).nhd ≤ u
      → Copying hdr w name m (texts (m.http src)) u m'
      → texts (m'.http w)
        ≡ texts (m.http w) ++ map (new_header name) (values hdr (texts (m.http src)))
  all_copied src hdr w name m m' u apart behind (others, lost, text, left) =
      let same = ap (λ hp. values hdr (drop u (texts hp))) (others src apart) in
      let done = ap (values hdr) (drop_none u (m'.http src) behind) in
      sym (append-nil (texts (m'.http w)))
      ∙ (ap (λ l. texts (m'.http w) ++ map (new_header name) l) (sym (sym same ∙ done)) ∙ text)

  -- From one message to another, both with arrays that hold their headers, where VRT_String() has room
  -- and so has the array of the destination: vmod_copy() comes to an end, and adds the values of the
  -- headers of its name, in order, under the new name behind the headers of the destination. It changes
  -- no other message and loses no header.
  pub header_copy_lem :
      (roomy : IsRoomy D) (src : ℕ) (hdr : Bytes) (w : ℕ) (name : Bytes)
      (m : Msgs Re re_match re_init D a) (apart : src ≢ w) (fits : Fits (m.http src))
      (room : (m.http w).nhd + length (values hdr (texts (m.http src))) ≤ length (m.http w).hd)
      → (m' : Msgs Re re_match re_init D a) × (header_copy Re re_match re_init D src hdr w name m
          ≡ some m')
        × (texts (m'.http w)
            ≡ texts (m.http w) ++ map (new_header name) (values hdr (texts (m.http src))))
        × ((v : ℕ) → v ≢ w → m'.http v ≡ m.http v)
        × (m'.lost ≡ m.lost)
  unfolding header_copy
  header_copy_lem roomy src hdr w name m apart fits room =
      let ts = texts (m.http src) in
      let (m', u', e, behind, k, l, (others, lost, text, left)) =
        copy_loop_rule Re re_match re_init D a src hdr w name (length (m.http src).hd)
          (Copying hdr w name m ts)
          (λ u n s p l k d.
            Copying-step roomy hdr w name m ts u s.text n p (rw (sym (p.0 src apart)) d))
          (length (m.http src).hd + 1) 0 m (omega arith) (omega arith) refl fits
          ((λ v n. refl), refl, refl, room) in
      (
        m',
        e,
        all_copied src hdr w name m m' u' apart behind (others, lost, text, left),
        others,
        lost,
      )

  -- Whatever the two messages and names, vmod_copy() comes to an end and stays within the array, where
  -- the array of the source holds its headers.
  pub header_copy_total :
      (src : ℕ) (hdr : Bytes) (w : ℕ) (name : Bytes) (m : Msgs Re re_match re_init D a)
      (fits : Fits (m.http src))
      → (m' : Msgs Re re_match re_init D a) × (header_copy Re re_match re_init D src hdr w name m
          ≡ some m')
        × Fits (m'.http src)
  unfolding header_copy
  header_copy_total src hdr w name m fits =
      let (m', u', e, behind, k, l, tt) =
        copy_loop_rule Re re_match re_init D a src hdr w name (length (m.http src).hd)
          (λ u n. Unit {0}) (λ u n s p l k d. tt) (length (m.http src).hd + 1) 0 m (omega arith)
          (omega arith) refl fits tt in
      (m', e, k)
