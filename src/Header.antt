-- ===== src/Header.antt =====
-- src/vmod_header.c: the headers of one HTTP message, in the array hd[] of struct http. Indices count
-- from HTTP_HDR_FIRST, and so does nhd.
pub mod Compact
pub mod Append
pub mod Loop
pub mod Copied
pub mod Itself
use operations_debs_varnish.Base.{
  ℕ, zero, suc, ◌+◌, Bool, true, false, not, ◌||◌, List, [], ◌∷◌, Option, none, some, ◌==◌,
  if◌then◌else◌, Bytes, length, starts_with_nocase,
}

-- An element of hd[] with its flags in hdf[]; the text may be a null pointer.
pub record Slot : Type 0 where
  pub text : Option Bytes
  pub flags : ℕ

-- struct http: what the module reads and writes of it. The array is longer than nhd.
pub record Http : Type 0 where
  pub hd : List Slot
  pub nhd : ℕ

-- hd[u], and the two memcpy() to it
unfoldable pub slot_at : ℕ → List Slot → Option Slot
slot_at u [] = none
slot_at zero (s ∷ ss) = some s
slot_at (suc u) (s ∷ ss) = slot_at u ss

unfoldable pub copy_to : ℕ → Slot → List Slot → List Slot
copy_to v x [] = []
copy_to zero x (s ∷ ss) = x ∷ ss
copy_to (suc v) x (s ∷ ss) = s ∷ copy_to v x ss

-- b + n
unfoldable pub from : ℕ → Bytes → Bytes
from zero s = s
from (suc n) [] = []
from (suc n) (c ∷ s) = from n s

unfoldable pub skip_blanks : Bytes → Bytes
skip_blanks [] = []
skip_blanks (c ∷ s) = if c == b' ' || c == b'\t' then skip_blanks s else c ∷ s

unfoldable pub skip_spaces : Bytes → Bytes
skip_spaces [] = []
skip_spaces (c ∷ s) = if c == b' ' then skip_spaces s else c ∷ s

-- `Re` is the type of compiled regular expressions, `re_match` is VRT_re_match() and `re_init` is
-- VRT_re_init(). The name of a header is the text behind its length byte, with the colon.
module _ (Re : Type 0) (re_match : Re → Bytes → Bool) (re_init : Bytes → Option Re) where
  -- The text behind the name against the expression, if there is one
  abbrev pub content_match : Option Re → Bytes → Bool
  content_match none start = true
  content_match (some re) [] = false
  content_match (some re) (c ∷ start) = re_match re (c ∷ start)

  unfoldable pub header_http_match : Option Re → Bytes → Option Bytes → Bool
  unfolding from skip_spaces starts_with_nocase
  header_http_match re hdr none = false
  header_http_match re hdr (some b) =
      if starts_with_nocase b hdr
      then content_match re (skip_spaces (from (length hdr) b))
      else false

  -- The two tests of header_http_Unset() that go on with the next header
  abbrev pub drops : Option Re → Bytes → Option Bytes → Bool
  drops re hdr none = true
  drops re hdr (some b) = header_http_match re hdr (some b)

  -- The loop of header_http_Unset(), with the number of headers left: v and the array. `none` is a read
  -- outside the array.
  unfoldable pub unset_loop : Option Re → Bytes → ℕ → ℕ → ℕ → List Slot → Option (ℕ × List Slot)
  unset_loop re hdr zero u v hd = some (v, hd)
  unset_loop re hdr (suc k) u v hd = elim (slot_at u hd) [
    | none ↦ none
    | some s ↦
        (let gone = drops re hdr s.text in
          let v' = if gone then v else v + 1 in
          let hd' = if gone then hd else if v == u then hd else copy_to v s hd in
          unset_loop re hdr k (u + 1) v' hd')
  ]

  abbrev pub resized : Option (ℕ × List Slot) → Option Http
  resized none = none
  resized (some (v, hd)) = some (record { hd = hd; nhd = v })

  unfoldable pub header_http_Unset : Option Re → Bytes → Http → Option Http
  header_http_Unset re hdr hp = resized (unset_loop re hdr hp.nhd 0 0 hp.hd)

  -- The loop of header_http_findhdr(): the text of the first header that matches. `none` in front is a
  -- read outside the array.
  unfoldable pub find_loop : Option Re → Bytes → ℕ → ℕ → List Slot → Option (Option Bytes)
  find_loop re hdr zero u hd = some none
  find_loop re hdr (suc k) u hd = elim (slot_at u hd) [
    | none ↦ none
    | some s ↦
        (let rest = find_loop re hdr k (u + 1) hd in
          if header_http_match re hdr s.text then some s.text else rest)
  ]

  unfoldable pub header_http_findhdr : Option Re → Bytes → Http → Option (Option Bytes)
  header_http_findhdr re hdr hp = find_loop re hdr hp.nhd 0 hp.hd

  -- header_init_re(): the expression of the first call stays.
  unfoldable pub header_init_re : Option Re → Bytes → Option Re
  header_init_re none s = re_init s
  header_init_re (some re) s = some re

  abbrev pub behind_name : Bytes → Option (Option Bytes) → Option (Option Bytes)
  behind_name hdr none = none
  behind_name hdr (some none) = some none
  behind_name hdr (some (some b)) = some (some (skip_blanks (from (length hdr) b)))

  -- vmod_get() and vmod_remove(), with the expression of their call site
  unfoldable pub header_get : Option Re → Bytes → Bytes → Http → Option (Option Re × Option Bytes)
  header_get priv hdr s hp =
      let re = header_init_re priv s in
      elim (behind_name hdr (header_http_findhdr re hdr hp)) [ none ↦ none | some p ↦ some (re, p) ]

  unfoldable pub header_remove : Option Re → Bytes → Bytes → Http → Option (Option Re × Http)
  header_remove priv hdr s hp =
      let re = header_init_re priv s in
      elim (header_http_Unset re hdr hp) [ none ↦ none | some hp' ↦ some (re, hp') ]
