-- ===== src/Header/Compact.antt =====
-- The loops of src/vmod_header.c over the array of headers, against the list of the headers in use.
use mathlib.Core.List.{append_assoc, append-nil}
use operations_debs_varnish.Base.{
  ℕ, suc, ◌+◌, Bool, true, false, not, List, [], ◌∷◌, ◌++◌, Option, none, some, ◌≡◌, refl, sym, ap,
  ◌∙◌, inl, inr, ◌⊎◌, arith, ◌==◌, if◌then◌else◌, Bytes, length, length-append, keep, Bool-cases,
  Option-cases,
}
use operations_debs_varnish.Header.{
  Slot, Http, slot_at, copy_to, header_http_match, drops, unset_loop, header_http_Unset, find_loop,
  header_http_findhdr, header_init_re, header_get, header_remove,
}

slot_at-length :
    (xs : List Slot) (s : Slot) (ys : List Slot) → slot_at (length xs) (xs ++ (s ∷ ys)) ≡ some s
unfolding slot_at
slot_at-length [] s ys = refl
slot_at-length (x ∷ xs) s ys = slot_at-length xs s ys

copy_to-length :
    (xs : List Slot) (s g : Slot) (ys : List Slot)
    → copy_to (length xs) s (xs ++ (g ∷ ys)) ≡ xs ++ (s ∷ ys)
unfolding copy_to
copy_to-length [] s g ys = refl
copy_to-length (x ∷ xs) s g ys = ap (λ l. x ∷ l) (copy_to-length xs s g ys)

module _ (Re : Type 0) (re_match : Re → Bytes → Bool) (re_init : Bytes → Option Re) where
  -- The headers that a removal leaves.
  abbrev pub left : Option Re → Bytes → List Slot → List Slot
  left re hdr = keep (λ s. not (drops Re re_match re_init re hdr s.text))

  -- One round of the loop, on the header that it reads.
  unset_loop_step :
      (re : Option Re) (hdr : Bytes) (k u v : ℕ) (s : Slot) (hd : List Slot)
      → slot_at u hd ≡ some s
      → unset_loop Re re_match re_init re hdr (suc k) u v hd ≡ (
          if drops Re re_match re_init re hdr s.text
          then unset_loop Re re_match re_init re hdr k (u + 1) v hd
          else unset_loop Re re_match re_init re hdr k
              (u + 1)
              (v + 1)
              (if v == u then hd else copy_to v s hd))
  unfolding unset_loop
  unset_loop_step re hdr k u v s hd e =
      elim (Bool-cases (drops Re re_match re_init re hdr s.text)) [
        | inl q ↦ rw (e, unset_loop) (rw q refl)
        | inr q ↦ rw (e, unset_loop) (rw q refl)
      ]

  -- The array after a header that stays: it is put behind those kept so far.
  kept_array :
      (s : Slot) (rest front gap : List Slot)
      → (gap' : List Slot) × (length ((front ++ (s ∷ [])) ++ gap') ≡ length (front ++ gap) + 1)
        × ((if length front == length (front ++ gap)
              then (front ++ gap) ++ (s ∷ rest)
              else copy_to (length front) s ((front ++ gap) ++ (s ∷ rest)))
            ≡ ((front ++ (s ∷ [])) ++ gap') ++ rest)
  kept_array s rest front [] = (
    [],
    omega (
      arith,
      length-append front [],
      length-append (front ++ (s ∷ [])) [],
      length-append front (s ∷ []),
    ),
    ground
        (arith, append-nil front, append-nil (front ++ (s ∷ [])), append_assoc front (s ∷ []) rest),
  )
  kept_array s rest front (g ∷ gs) = (
    gs ++ (s ∷ []),
    omega (
      arith,
      length-append front (g ∷ gs),
      length-append (front ++ (s ∷ [])) (gs ++ (s ∷ [])),
      length-append front (s ∷ []),
      length-append gs (s ∷ []),
    ),
    ground (
      arith,
      length-append front (g ∷ gs),
      append_assoc front (g ∷ gs) (s ∷ rest),
      copy_to-length front s g (gs ++ (s ∷ rest)),
      append_assoc front (s ∷ []) (gs ++ (s ∷ [])),
      append_assoc front (s ∷ (gs ++ (s ∷ []))) rest,
      append_assoc gs (s ∷ []) rest,
    ),
  )

  -- In the array stand the headers kept so far, the slots that are free, and those to be read.
  unset_loop_lem :
      (re : Option Re) (hdr : Bytes) (todo front gap beyond hd : List Slot) (u v : ℕ)
      → v ≡ length front
      → u ≡ length (front ++ gap)
      → hd ≡ (front ++ gap) ++ (todo ++ beyond)
      → (back : List Slot) × (unset_loop Re re_match re_init re hdr (length todo) u v hd
          ≡ some (length (front ++ left re hdr todo), (front ++ left re hdr todo) ++ back))
  unset_loop_lem re hdr [] front gap beyond hd u v a b c = (
    gap ++ beyond,
    unfold unset_loop in rw (append-nil front, a, c, append_assoc front gap beyond),
  )
  unset_loop_lem re hdr (s ∷ todo) front gap beyond hd u v a b c =
      let e : slot_at u hd ≡ some s =
        rw (b, c) (slot_at-length (front ++ gap) s (todo ++ beyond)) in
      let step = unset_loop_step re hdr (length todo) u v s hd e in
      elim (Bool-cases (drops Re re_match re_init re hdr s.text)) [
        | inl q ↦
            (let r =
                unset_loop_lem re hdr todo front (gap ++ (s ∷ [])) beyond hd (u + 1) v a
                  (omega (
                    arith,
                    b,
                    length-append front gap,
                    length-append front (gap ++ (s ∷ [])),
                    length-append gap (s ∷ []),
                  ))
                  (c
                    ∙ ground (
                      arith,
                      append_assoc front gap (s ∷ []),
                      append_assoc (front ++ gap) (s ∷ []) (todo ++ beyond),
                    )) in
              (r.0, rw q ((rw q at step) ∙ r.1)))
        | inr q ↦
            (let (gap', n, m) = kept_array s (todo ++ beyond) front gap in
              let r =
                unset_loop_lem re hdr todo (front ++ (s ∷ [])) gap' beyond
                  (if v == u then hd else copy_to v s hd) (u + 1) (v + 1)
                  (omega (arith, a, length-append front (s ∷ []))) (omega (arith, b, n))
                  (rw (a, b, c) m) in
              let joined = append_assoc front (s ∷ []) (left re hdr todo) in
              (r.0, rw (q, ← joined) ((rw q at step) ∙ r.1)))
      ]

  -- header_http_Unset() leaves, in their order and in front of the array, the headers that have a text and
  -- do not match, and counts them; it never reads outside the array.
  pub header_http_Unset_lem :
      (re : Option Re) (hdr : Bytes) (used beyond : List Slot)
      → (back : List Slot) × (header_http_Unset Re re_match re_init re hdr
            (record { hd = used ++ beyond; nhd = length used })
          ≡ some (record { hd = left re hdr used ++ back; nhd = length (left re hdr used) }))
  unfolding header_http_Unset
  header_http_Unset_lem re hdr used beyond =
      let r = unset_loop_lem re hdr used [] [] beyond (used ++ beyond) 0 0 refl refl refl in
      (r.0, rw r.1 refl)

  -- The headers that match, and the text of the first of them.
  abbrev pub matching : Option Re → Bytes → List Slot → List Slot
  matching re hdr = keep (λ s. header_http_match Re re_match re_init re hdr s.text)

  abbrev pub first_text : List Slot → Option Bytes
  first_text [] = none
  first_text (s ∷ ss) = s.text

  find_loop_step :
      (re : Option Re) (hdr : Bytes) (k u : ℕ) (s : Slot) (hd : List Slot)
      → slot_at u hd ≡ some s
      → find_loop Re re_match re_init re hdr (suc k) u hd ≡ (
          if header_http_match Re re_match re_init re hdr s.text
          then some s.text
          else find_loop Re re_match re_init re hdr k (u + 1) hd)
  unfolding find_loop
  find_loop_step re hdr k u s hd e = rw (e, find_loop) refl

  find_loop_lem :
      (re : Option Re) (hdr : Bytes) (todo front beyond hd : List Slot) (u : ℕ)
      → u ≡ length front
      → hd ≡ front ++ (todo ++ beyond)
      → find_loop Re re_match re_init re hdr (length todo) u hd
        ≡ some (first_text (matching re hdr todo))
  find_loop_lem re hdr [] front beyond hd u a c = unfold find_loop in refl
  find_loop_lem re hdr (s ∷ todo) front beyond hd u a c =
      let e : slot_at u hd ≡ some s = rw (a, c) (slot_at-length front s (todo ++ beyond)) in
      let step = find_loop_step re hdr (length todo) u s hd e in
      let rest =
        find_loop_lem re hdr todo (front ++ (s ∷ [])) beyond hd (u + 1)
          (omega (arith, a, length-append front (s ∷ [])))
          (c ∙ sym (append_assoc front (s ∷ []) (todo ++ beyond))) in
      elim (Bool-cases (header_http_match Re re_match re_init re hdr s.text)) [
        | inl q ↦ rw q (rw q at step)
        | inr q ↦ rw q ((rw q at step) ∙ rest)
      ]

  -- header_http_findhdr() gives the first header that matches, in the order of the array.
  pub header_http_findhdr_lem :
      (re : Option Re) (hdr : Bytes) (used beyond : List Slot)
      → header_http_findhdr Re re_match re_init re hdr
          (record { hd = used ++ beyond; nhd = length used })
        ≡ some (first_text (matching re hdr used))
  unfolding header_http_findhdr
  header_http_findhdr_lem re hdr used beyond =
      find_loop_lem re hdr used [] beyond (used ++ beyond) 0 refl refl

  drops_cases :
      (re : Option Re) (hdr : Bytes) (t : Option Bytes)
      → (drops Re re_match re_init re hdr t ≡ true)
        ⊎ ((drops Re re_match re_init re hdr t ≡ false)
            × (header_http_match Re re_match re_init re hdr t ≡ false))
  drops_cases re hdr none = inl refl
  drops_cases re hdr (some b) =
      elim (Bool-cases (header_http_match Re re_match re_init re hdr (some b))) [
        | inl q ↦ inl q
        | inr q ↦ inr (q, q)
      ]

  matching-left :
      (re : Option Re) (hdr : Bytes) (l : List Slot) → matching re hdr (left re hdr l) ≡ []
  matching-left re hdr [] = refl
  matching-left re hdr (s ∷ l) =
      let rest = matching-left re hdr l in
      elim (drops_cases re hdr s.text) [ inl q ↦ rw q rest | inr (q, m) ↦ rw (q, m) rest ]

  init_twice :
      (priv : Option Re) (s : Bytes)
      → header_init_re Re re_match re_init (header_init_re Re re_match re_init priv s) s
        ≡ header_init_re Re re_match re_init priv s
  unfolding header_init_re
  init_twice (some re) s = refl
  init_twice none s = elim (Option-cases (re_init s)) [
    | inl e ↦ rw (e, header_init_re) e
    | inr (re, e) ↦ rw (e, header_init_re) refl
  ]

  -- A removal does not fail, and a lookup of the same name with the expression that the removal used
  -- does not fail either and finds no header.
  pub header_get-header_remove :
      (priv : Option Re) (hdr s : Bytes) (used beyond : List Slot)
      → (re : Option Re) × (hp : Http) × (header_remove Re re_match re_init priv hdr s
            (record { hd = used ++ beyond; nhd = length used })
          ≡ some (re, hp))
        × (header_get Re re_match re_init re hdr s hp ≡ some (re, none))
  unfolding header_get header_remove
  header_get-header_remove priv hdr s used beyond =
      let re = header_init_re Re re_match re_init priv s in
      let (back, e) = header_http_Unset_lem re hdr used beyond in
      let gone = header_http_findhdr_lem re hdr (left re hdr used) back in
      (
        re,
        record { hd = left re hdr used ++ back; nhd = length (left re hdr used) },
        rw (e, header_remove),
        rw (init_twice priv s, gone, matching-left re hdr used, header_get)
            (ap (λ (r : Option Re). some (r, none)) (init_twice priv s)),
      )
