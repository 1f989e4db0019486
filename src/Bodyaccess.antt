-- ===== src/Bodyaccess.antt =====
-- src/vmod_bodyaccess.c: the cached body of a request, for the log, the hash and the match.
pub mod Log
pub mod Body
pub mod Lines
use mathlib.Core.List.{flatten}
use operations_debs_varnish.Base.{
  ℕ, zero, suc, not, ◌>>=◌, Bool, true, false, List, [], ◌∷◌, ◌++◌, map, Option, none, some,
  if◌then◌else◌, Bytes,
}
use operations_debs_varnish.Base.Int.{ℤ, pos, negsuc, ltb_ℤ}
use operations_debs_varnish.Bodyaccess.Log.{bodyaccess_log, to_size}

-- The methods of VCL that the module tells apart.
pub data Method : Type 0 where
  hash recv other_method : Method

-- What the module reads of a request. `pieces` is what VRB_Iterate() hands to its callback, in turn, and
-- `ret` what it returns where the callback never fails.
pub record Req : Type 0 where
  pub cached : Bool
  pub bodybytes : ℤ
  pub pieces : List Bytes
  pub ret : ℤ

-- The log lines of the module: SLT_VCL_Error with its texts, SLT_Debug and SLT_Hash.
pub data Line : Type 0 where
  unbuffered wrong_method iteration_failed invalid_expression : Line
  match_returned : ℤ → Line
  debug hashed : Bytes → Line

abbrev pub is_hash : Method → Bool
is_hash hash = true
is_hash recv = false
is_hash other_method = false

abbrev pub is_recv : Method → Bool
is_recv hash = false
is_recv recv = true
is_recv other_method = false

-- The line after an iteration that gave a negative number.
abbrev pub iteration_lines : ℤ → List Line
iteration_lines l = if ltb_ℤ l (pos 0) then iteration_failed ∷ [] else []

-- bodyaccess_bcat(): the text of the VSB, to which the callback adds each piece, and the log.
unfoldable pub bodyaccess_bcat : Req → Bytes × List Line
bodyaccess_bcat req = (flatten req.pieces, iteration_lines req.ret)

-- vmod_hash_req_body(): the bytes that go into the hash, if there are, and the log.
unfoldable pub hash_req_body : Method → Req → Option Bytes × List Line
hash_req_body method req =
    if not req.cached
    then (none, unbuffered ∷ [])
    else if not (is_hash method)
    then (none, wrong_method ∷ [])
    else (let b = bodyaccess_bcat req in (some b.0, b.1 ++ (hashed b.0 ∷ [])))

unfoldable pub len_req_body : Method → Req → ℤ × List Line
len_req_body method req =
    if not req.cached
    then (negsuc 0, unbuffered ∷ [])
    else if not (is_recv method)
    then (negsuc 0, wrong_method ∷ [])
    else (req.bodybytes, [])

-- `Re` is the type of compiled expressions, `compile` is VRE_compile() and `exec` VRE_exec().
module _ (Re : Type 0) (compile : Bytes → Option Re) (exec : Re → Bytes → ℤ) where
  -- VRE_ERROR_NOMATCH
  abbrev pub is_nomatch : ℤ → Bool
  is_nomatch (pos n) = false
  is_nomatch (negsuc zero) = true
  is_nomatch (negsuc (suc n)) = false

  -- What the result of VRE_exec() is turned into
  unfoldable pub match_result : ℤ → ℤ × List Line
  match_result i =
      if ltb_ℤ (pos 0) i
      then (pos 1, [])
      else if is_nomatch i
      then (pos 0, [])
      else (negsuc 0, match_returned i ∷ [])

  -- The pointer of the call site after the compilation
  unfoldable pub compiled : Option Re → Bytes → Option Re
  compiled none re = compile re
  compiled (some t) re = some t

  -- vmod_rematch_req_body(): the pointer of the call site, the result and the log. `none` is the failed
  -- assertion that there is an expression.
  unfoldable pub rematch_req_body :
      Method → Req → Option Re → Option Bytes → Option (Option Re × ℤ × List Line)
  rematch_req_body method req priv re =
      if not req.cached
      then some (priv, negsuc 0, unbuffered ∷ [])
      else if not (is_recv method)
      then some (priv, negsuc 0, wrong_method ∷ [])
      else elim re [
        | none ↦ none
        | some s ↦ some (elim (compiled priv s) [
          | none ↦ (none, negsuc 0, invalid_expression ∷ [])
          | some t ↦
              (let b = bodyaccess_bcat req in
                let m = match_result (exec t b.0) in (some t, m.0, b.1 ++ m.1))
        ])
      ]

abbrev pub prefix_text : Option Bytes → Bytes
prefix_text none = []
prefix_text (some s) = s

-- vmod_log_req_body(), with the allocator of bodyaccess_log(); `none` is a failed assertion, or a write
-- outside the buffer.
module _ (malloc : ℕ → Bool) where
  unfoldable pub log_pieces : ℕ → Bytes → List Bytes → Option (List Line)
  log_pieces len pfx [] = some []
  log_pieces len pfx (p ∷ ps) = do
    lines ← bodyaccess_log malloc len pfx p
    rest ← log_pieces len pfx ps
    some (map debug lines ++ rest)

  unfoldable pub log_req_body : Option Bytes → ℤ → Req → Option (List Line)
  log_req_body prefix length req = if not req.cached then some (unbuffered ∷ []) else do
    lines ← log_pieces (to_size length) (prefix_text prefix) req.pieces
    some (lines ++ iteration_lines req.ret)
