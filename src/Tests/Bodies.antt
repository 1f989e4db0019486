-- ===== src/Tests/Bodies.antt =====
-- The theorems on src/vmod_bodyaccess.c at concrete inputs.
use mathlib.Core.List.{flatten}
use operations_debs_varnish.Base.{
  ℕ, ◌≡◌, refl, Bool, true, List, [], ◌∷◌, ◌++◌, map, some, Bytes, codes, arith, All,
}
use operations_debs_varnish.Base.Int.{pos}
use operations_debs_varnish.Bodyaccess.{Req, log_req_body, iteration_lines}
use operations_debs_varnish.Bodyaccess.Lines.{IsCut}
use operations_debs_varnish.Bodyaccess.Body.{line, log_req_body_lem}

-- A body that arrives in two pieces
abbrev two_pieces : Req
two_pieces = record {
  cached = true;
  bodybytes = pos 7;
  pieces = codes "hello" ∷ codes "ab" ∷ [];
  ret = pos 0;
}

abbrev any_size : ℕ → Bool
any_size n = true

log_req_body_lem_example :
    (css : List (List Bytes)) × (log_req_body any_size (some (codes "> ")) (pos 2) two_pieces
      ≡ some (map (line (codes "> ")) (flatten css) ++ iteration_lines (pos 0)))
    × (map flatten css ≡ codes "hello" ∷ codes "ab" ∷ [])
    × All (IsCut 2) css
log_req_body_lem_example =
    log_req_body_lem any_size (some (codes "> ")) 2 two_pieces (λ k h. refl) (omega arith) refl
      (omega arith, (omega arith, tt))
