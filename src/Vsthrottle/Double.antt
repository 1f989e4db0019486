-- ===== src/Vsthrottle/Double.antt =====
-- The floating-point numbers of the compiler, a parameter: the operations that the module uses, and
-- the facts about finite values that the theorems use.
use operations_debs_varnish.Base.{Bool, true, false, Option, some, ◌≡◌}
use operations_debs_varnish.Base.Int.{ℤ, pos}

pub record Double : Type 1 where
  pub F : Type 0
  pub zero_f : F
  pub plus : F → F → F
  pub minus : F → F → F
  pub times : F → F → F
  pub divided : F → F → F
  pub of_long : ℤ → F
  -- the conversion (long), towards zero; `none` where a long cannot hold the result, and C defines none
  pub to_long : F → Option ℤ
  pub lt_f : F → F → Bool
  pub le_f : F → F → Bool

-- Nothing has passed between an instant and itself: of no time, no share of a period is left after the
-- conversion, which is defined, and no time is below no time.
pub record IsDouble (D : Double) : Type 0 where
  pub no_delta : (a : D.F) → D.le_f D.zero_f (D.minus a a) ≡ true
  pub no_share :
      (a p : D.F) (c : ℤ)
      → D.lt_f D.zero_f p ≡ true
      → D.to_long (D.times (D.divided (D.minus a a) p) (D.of_long c)) ≡ some (pos 0)
  pub not_expired : (a p : D.F) → D.lt_f D.zero_f p ≡ true → D.lt_f p (D.minus a a) ≡ false
