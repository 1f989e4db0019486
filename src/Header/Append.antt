-- ===== src/Header/Append.antt =====
-- vmod_append() and vmod_copy() of src/vmod_header.c, which work on several messages of a task.
use operations_debs_varnish.Base.{
  ℕ, zero, suc, ◌+◌, Bool, List, [], ◌∷◌, Option, none, some, ◌==◌, ltb, if◌then◌else◌, Bytes,
  length,
}
use operations_debs_varnish.Header.{Http, slot_at, from, skip_blanks, header_http_match}

-- What the two functions call of varnishd. `string` is VRT_String() with the workspace of a message, the
-- name of a header and the list of texts, and `set_header` is http_SetHeader().
pub record Varnishd : Type 1 where
  pub Ws : Type 0
  pub string : ℕ → Bytes → List (Option Bytes) → Ws → Ws × Option Bytes
  pub set_header : Bytes → Http → Http

module _ (Re : Type 0) (re_match : Re → Bytes → Bool) (re_init : Bytes → Option Re)
    (D : Varnishd) where
  open D use {Ws, string, set_header}

  -- The messages of a task by the `where` of a header, their workspaces, and the names in the SLT_LostHeader
  -- lines of the log, the newest first.
  pub record Messages : Type 0 where
    pub http : ℕ → Http
    pub ws : Ws
    pub lost : List Bytes

  abbrev pub put_http : ℕ → Http → Messages → Messages
  put_http w hp m = record m { http = λ v. if v == w then hp else m.http v }

  -- vmod_append(), with the `where` and the name of its header; the list is what stands in front of the end
  -- marker, and a null pointer in front is the `fmt` that it returns on.
  unfoldable pub header_append : ℕ → Bytes → List (Option Bytes) → Messages → Messages
  header_append w name (none ∷ args) m = m
  header_append w name args m =
      let r = string w name args m.ws in
      let m' = record m { ws = r.0 } in
      elim r.1 [
        | none ↦ record m' { lost = name ∷ m.lost }
        | some b ↦ put_http w (set_header b (m.http w)) m'
      ]

  -- The body of the loop of header_http_cphdr(), on the text of a header.
  unfoldable pub copy_header : Bytes → ℕ → Bytes → Option Bytes → Messages → Messages
  copy_header hdr w name none m = m
  copy_header hdr w name (some b) m =
      if header_http_match Re re_match re_init none hdr (some b)
      then header_append w name (some (skip_blanks (from (length hdr) b)) ∷ []) m
      else m

  -- The loop, which reads nhd again in each round. `none` is a read outside the array, or no fuel.
  unfoldable pub copy_loop : ℕ → Bytes → ℕ → Bytes → ℕ → ℕ → Messages → Option Messages
  copy_loop src hdr w name zero u m = none
  copy_loop src hdr w name (suc fuel) u m =
      if ltb u (m.http src).nhd
      then elim (slot_at u (m.http src).hd) [
        | none ↦ none
        | some s ↦ copy_loop src hdr w name fuel (suc u) (copy_header hdr w name s.text m)
      ]
      else some m

  -- vmod_copy(), which is header_http_cphdr()
  unfoldable pub header_copy : ℕ → Bytes → ℕ → Bytes → Messages → Option Messages
  header_copy src hdr w name m = copy_loop src hdr w name (length (m.http src).hd + 1) 0 m
