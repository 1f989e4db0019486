-- ===== src/Bodyaccess/Body.antt =====
-- The functions of src/vmod_bodyaccess.c over the pieces of a body.
use mathlib.Core.List.{flatten, map-append}
use operations_debs_varnish.Base.{
  ℕ, ◌+◌, ◌%◌, ◌^◌, ◌<◌, ◌≤◌, ◌≡◌, refl, ap, sym, Bool, true, false, List, [], ◌∷◌, ◌++◌, map,
  Option, none, some, Bytes, length, arith, All,
}
use operations_debs_varnish.Base.Int.{ℤ, pos, negsuc}
use operations_debs_varnish.Bodyaccess.{
  Req, Line, debug, recv, log_pieces, log_req_body, prefix_text, iteration_lines, rematch_req_body,
  compiled, bodyaccess_bcat, match_result,
}
use operations_debs_varnish.Bodyaccess.Log.{to_size}
use operations_debs_varnish.Bodyaccess.Lines.{
  IsCut, longest, bodyaccess_log_lem, bodyaccess_log_negative,
}

-- The line of one cut
abbrev pub line : Bytes → Bytes → Line
line pfx c = debug (pfx ++ c)

map-lines : (pfx : Bytes) (cs : List Bytes) → map debug (map (λ c. pfx ++ c) cs) ≡ map (line pfx) cs
map-lines pfx [] = refl
map-lines pfx (c ∷ cs) = ap (λ l. debug (pfx ++ c) ∷ l) (map-lines pfx cs)

log_pieces_lem :
    (malloc : ℕ → Bool) (lim : ℕ) (pfx : Bytes) (ps : List Bytes)
    → ((n : ℕ) → n < 2 ^ 64 → malloc n ≡ true)
    → All (λ p. longest lim (length p) + length pfx < 2 ^ 64) ps
    → (css : List (List Bytes)) × (log_pieces malloc lim pfx ps
        ≡ some (map (line pfx) (flatten css)))
      × (map flatten css ≡ ps)
      × All (IsCut lim) css
unfolding log_pieces flatten
log_pieces_lem malloc lim pfx [] m a = ([], refl, refl, tt)
log_pieces_lem malloc lim pfx (p ∷ ps) m a =
    let (cs, e, j, i) = bodyaccess_log_lem malloc lim pfx p m a.0 in
    let (css, e', j', i') = log_pieces_lem malloc lim pfx ps m a.1 in
    (
      cs ∷ css,
      rw e (rw e' (rw (map-lines pfx cs) (ap some (sym (map-append (line pfx) cs (flatten css)))))),
      rw (j, j') refl,
      (i, i'),
    )

-- Where malloc() gives every buffer and no size leaves the range of a size_t, a cached body is logged
-- piece by piece to its end, without a write outside the buffer. A line is the prefix, or nothing in place
-- of a null prefix, and a cut of a piece: the cuts of a piece are the piece, none is empty, and only the
-- last is not of the length that was asked for, or the piece is one cut where that length is 0. Behind
-- them stands a line if the iteration failed.
pub log_req_body_lem :
    (malloc : ℕ → Bool) (prefix : Option Bytes) (n : ℕ) (req : Req)
    → ((k : ℕ) → k < 2 ^ 64 → malloc k ≡ true)
    → n < 2 ^ 64
    → req.cached ≡ true
    → All (λ p. longest n (length p) + length (prefix_text prefix) < 2 ^ 64) req.pieces
    → (css : List (List Bytes)) × (log_req_body malloc prefix (pos n) req
        ≡ some (map (line (prefix_text prefix)) (flatten css) ++ iteration_lines req.ret))
      × (map flatten css ≡ req.pieces)
      × All (IsCut n) css
unfolding log_req_body to_size
log_req_body_lem malloc prefix n req m b c a =
    let lim : n % 2 ^ 64 ≡ n = omega (arith, b) in
    let (css, e, j, i) = log_pieces_lem malloc n (prefix_text prefix) req.pieces m a in
    (css, rw (c, lim, e), j, i)

-- A negative length: where malloc() refuses 2 ^ 63 bytes and more, the log of a cached body that starts with
-- a piece that is not empty always fails, by a failed assertion or a write outside the buffer.
log_req_body_negative :
    (malloc : ℕ → Bool) (prefix : Option Bytes) (k : ℕ) (req : Req) (p : Bytes) (ps : List Bytes)
    → ((n : ℕ) → 2 ^ 63 ≤ n → malloc n ≡ false)
    → k < 2 ^ 63
    → length (prefix_text prefix) < 2 ^ 63
    → req.cached ≡ true
    → req.pieces ≡ p ∷ ps
    → 0 < length p
    → length p < 2 ^ 63
    → log_req_body malloc prefix (negsuc k) req ≡ none
unfolding log_req_body log_pieces
log_req_body_negative malloc prefix k req p ps m small short c e filled few =
    rw (c, e, bodyaccess_log_negative malloc k (prefix_text prefix) p m small short filled few)

module _ (Re : Type 0) (compile : Bytes → Option Re) (exec : Re → Bytes → ℤ) where
  -- The expression that the first call at a call site has compiled decides all later ones: on any cached
  -- body, with any other expression and whether the iteration fails or not, vmod_rematch_req_body() in
  -- vcl_recv gives the result that the first expression gives on those bytes.
  pub rematch_first :
      (s s' : Bytes) (t : Re) (req : Req) (ret : ℤ)
      → compile s ≡ some t
      → req.cached ≡ true
      → (lines lines' : List Line) × (rematch_req_body Re compile exec recv req none (some s)
          ≡ some (some t, (match_result Re compile exec (exec t (flatten req.pieces))).0, lines))
        × (rematch_req_body Re compile exec recv (record req { ret = ret }) (some t) (some s')
            ≡ some (some t, (match_result Re compile exec (exec t (flatten req.pieces))).0, lines'))
  unfolding rematch_req_body compiled bodyaccess_bcat
  rematch_first s s' t req ret e c =
      let found = match_result Re compile exec (exec t (flatten req.pieces)) in
      (iteration_lines req.ret ++ found.1, iteration_lines ret ++ found.1, rw (c, e), rw c)
