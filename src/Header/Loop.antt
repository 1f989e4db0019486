-- ===== src/Header/Loop.antt =====
-- The loop of vmod_copy() in src/vmod_header.c, with an invariant.
use operations_debs_varnish.Base.{
  ℕ, zero, suc, ◌+◌, ◌≤◌, ◌<◌, ◌≡◌, inl, inr, refl, ap, ◌∙◌, arith, Bool, List, [], ◌∷◌, ◌++◌, map,
  Option, none, some, ◌==◌, ==_iff, ltb, if◌then◌else◌, Bytes, length, take, drop, Bool-cases,
  Option-cases,
}
use operations_debs_varnish.Header.{Slot, Http, slot_at, from, skip_blanks, header_http_match}
use operations_debs_varnish.Header.Append.{
  Varnishd, Messages, put_http, header_append, copy_header, copy_loop,
}

-- The texts of the headers in use
abbrev pub texts : Http → List (Option Bytes)
texts hp = map (λ (s : Slot). s.text) (take hp.nhd hp.hd)

-- A message whose array holds its headers.
abbrev pub Fits : Http → Type 0
Fits hp = hp.nhd ≤ length hp.hd

-- What the module relies on: http_SetHeader() adds a header behind the others while the array has room,
-- and drops it where there is none.
pub record IsAppending (D : Varnishd) : Type 0 where
  pub kept : (b : Bytes) (hp : Http) → length (D.set_header b hp).hd ≡ length hp.hd
  pub counted :
      (b : Bytes) (hp : Http) → hp.nhd < length hp.hd → (D.set_header b hp).nhd ≡ hp.nhd + 1
  pub appended :
      (b : Bytes) (hp : Http)
      → hp.nhd < length hp.hd
      → texts (D.set_header b hp) ≡ texts hp ++ (some b ∷ [])
  pub full : (b : Bytes) (hp : Http) → length hp.hd ≤ hp.nhd → D.set_header b hp ≡ hp

-- VRT_String() has room for a text, and puts it behind the name and a space.
abbrev pub IsRoomy : Varnishd → Type 0
IsRoomy D =
    (w : ℕ) (name p : Bytes) (ws : D.Ws)
    → (D.string w name (some p ∷ []) ws).1 ≡ some (name ++ (b' ' ∷ p))

-- A slot in use, and the texts from there on.
slot_at_lem :
    (u n : ℕ) (hd : List Slot)
    → u < n
    → n ≤ length hd
    → (s : Slot) × (slot_at u hd ≡ some s)
      × (drop u (map (λ (s : Slot). s.text) (take n hd))
          ≡ s.text ∷ drop (suc u) (map (λ (s : Slot). s.text) (take n hd)))
unfolding slot_at
slot_at_lem u n [] h k = absurd (omega arith)
slot_at_lem zero (suc n) (s ∷ ss) h k = (s, refl, refl)
slot_at_lem (suc u) (suc n) (s ∷ ss) h k = slot_at_lem u n ss (omega arith) (omega arith)
slot_at_lem u zero (s ∷ ss) h k = absurd (omega arith)

module _ (Re : Type 0) (re_match : Re → Bytes → Bool) (re_init : Bytes → Option Re) (D : Varnishd)
    (a : IsAppending D) where
  abbrev pub copies :
      Bytes
      → ℕ
      → Bytes
      → Option Bytes
      → Messages Re re_match re_init D
      → Messages Re re_match re_init D
  copies = copy_header Re re_match re_init D

  full_nhd : (b : Bytes) (hp : Http) → length hp.hd ≤ hp.nhd → (D.set_header b hp).nhd ≡ hp.nhd
  full_nhd b hp h = ap (λ x. x.nhd) (a.full b hp h)

  pub set_header-Fits : (b : Bytes) (hp : Http) → Fits hp → Fits (D.set_header b hp)
  set_header-Fits b hp h = ground (arith, a.kept b hp, a.counted b hp, full_nhd b hp)

  set_header_grows : (b : Bytes) (hp : Http) → hp.nhd ≤ (D.set_header b hp).nhd
  set_header_grows b hp = ground (arith, a.counted b hp, full_nhd b hp)

  abbrev pub Msgs : Type 0
  Msgs = Messages Re re_match re_init D

  -- An appended header leaves the arrays at their size, and full at most.
  abbrev pub Kept : Msgs → Msgs → Type 0
  Kept m m' =
      (v : ℕ)
      → (length (m'.http v).hd ≡ length (m.http v).hd)
        × ((m.http v).nhd ≤ (m'.http v).nhd)
        × (Fits (m.http v) → Fits (m'.http v))

  put_http-Kept :
      (w : ℕ) (b : Bytes) (m : Msgs)
      → Kept m (put_http Re re_match re_init D w (D.set_header b (m.http w)) m)
  put_http-Kept w b m v = elim (Bool-cases (v == w)) [
    | inl e ↦
        (let same : v ≡ w = (==_iff v w).0 e in
          rw (e, same)
            (a.kept b (m.http w), set_header_grows b (m.http w), set_header-Fits b (m.http w)))
    | inr e ↦ rw e (refl, omega arith, λ h. h)
  ]

  abbrev pub added : ℕ → Bytes → Bytes → Msgs → Msgs
  added = λ w name p m. header_append Re re_match re_init D w name (some p ∷ []) m

  -- The two ways of vmod_append() with one text
  lost_append :
      (w : ℕ) (name p : Bytes) (m : Msgs)
      → (D.string w name (some p ∷ []) m.ws).1 ≡ none
      → (v : ℕ) → (added w name p m).http v ≡ m.http v
  unfolding header_append
  lost_append w name p m e v = rw (e, header_append) refl

  pub stored_append :
      (w : ℕ) (name p t : Bytes) (m : Msgs)
      → (D.string w name (some p ∷ []) m.ws).1 ≡ some t
      → ((added w name p m).lost ≡ m.lost)
        × ((v : ℕ)
            → (added w name p m).http v ≡ (if v == w then D.set_header t (m.http w) else m.http v))
  unfolding header_append
  stored_append w name p t m e = (rw (e, header_append) refl, λ v. rw (e, header_append) refl)

  pub header_append-Kept : (w : ℕ) (name p : Bytes) (m : Msgs) → Kept m (added w name p m)
  header_append-Kept w name p m v = elim (Option-cases (D.string w name (some p ∷ []) m.ws).1) [
    | inl e ↦ rw (lost_append w name p m e v) (refl, omega arith, λ h. h)
    | inr (t, e) ↦ rw ((stored_append w name p t m e).1 v) (put_http-Kept w t m v)
  ]

  pub copy_header-Kept :
      (hdr : Bytes) (w : ℕ) (name : Bytes) (text : Option Bytes) (m : Msgs)
      → Kept m (copies hdr w name text m)
  unfolding copy_header
  copy_header-Kept hdr w name none m v = (refl, omega arith, λ h. h)
  copy_header-Kept hdr w name (some b) m v =
      elim (Bool-cases (header_http_match Re re_match re_init none hdr (some b))) [
        | inr q ↦ rw q (refl, omega arith, λ h. h)
        | inl q ↦ rw q (header_append-Kept w name (skip_blanks (from (length hdr) b)) m v)
      ]

  -- The loop with an invariant: with fuel for the array of the source, it ends behind the last header.
  pub copy_loop_rule :
      (src : ℕ) (hdr : Bytes) (w : ℕ) (name : Bytes) (size : ℕ) (P : ℕ → Msgs → Type 0)
      → ((u : ℕ) (m : Msgs) (s : Slot)
          → P u m
          → length (m.http src).hd ≡ size
          → Fits (m.http src)
          → drop u (texts (m.http src)) ≡ s.text ∷ drop (suc u) (texts (m.http src))
          → P (suc u) (copies hdr w name s.text m))
      → (fuel u : ℕ) → (m : Msgs) → size < fuel + u
      → u ≤ size
      → length (m.http src).hd ≡ size
      → Fits (m.http src)
      → P u m
      → (m' : Msgs) × (u' : ℕ) × (copy_loop Re re_match re_init D src hdr w name fuel u m ≡ some m')
        × ((m'.http src).nhd ≤ u')
        × Fits (m'.http src)
        × (length (m'.http src).hd ≡ size)
        × P u' m'
  unfolding copy_loop
  copy_loop_rule src hdr w name size P step zero u m f b l h p =
      (m, u, absurd (omega arith), omega arith, h, l, p)
  copy_loop_rule src hdr w name size P step (suc fuel) u m f b l h p =
      elim (Bool-cases (ltb u (m.http src).nhd)) [
        | inr e ↦ (m, u, rw e refl, ground arith, h, l, p)
        | inl e ↦
            (let (s, q, d) = slot_at_lem u (m.http src).nhd (m.http src).hd (ground arith) h in
              let below : suc u ≤ size = ground arith in
              let (l', g, h') = copy_header-Kept hdr w name s.text m src in
              let (m', u', r, k1, k2, k3, k4) =
                copy_loop_rule src hdr w name size P step fuel (suc u) (copies hdr w name s.text m)
                  (omega arith) below (l' ∙ l) (h' h) (step u m s p l h d) in
              (m', u', rw (e, q) r, k1, k2, k3, k4))
      ]
