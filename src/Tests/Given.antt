-- ===== src/Tests/Given.antt =====
-- Concrete functions in place of the parameters of the models.
use native.Mathlib.Nat.{zero-div, le-div_iff_mul-le}
use operations_debs_varnish.Base.{
  ℕ, zero, suc, ◌+◌, ◌-◌, ◌*◌, ◌/◌, ◌≤◌, ◌<◌, List, ◌∷◌, ◌≡◌, refl, arith, some, none,
  if◌then◌else◌, ◌^◌, ltb, leb, ◌==◌, ==_iff, Bytes, eq_bytes, eq_bytes_iff,
}
use operations_debs_varnish.Base.Int.{pos, pos_part}
use operations_debs_varnish.Tree.{Tree, IsMap}
use operations_debs_varnish.Tree.Assoc.{assoc, assoc-IsMap}
use operations_debs_varnish.Xkey.Purge.{Objects}
use operations_debs_varnish.Vsthrottle.Double.{Double, IsDouble}
use operations_debs_varnish.Vsthrottle.Unseen.{IsRefilling}
use operations_debs_varnish.Vsthrottle.Paid.{IsEarning}
use operations_debs_varnish.Saintmode.Trouble.{Clock}

-- Association lists for the trees
abbrev pub by_bytes : (V : Type 0) → Tree Bytes V
by_bytes V = assoc eq_bytes

abbrev pub by_number : (V : Type 0) → Tree ℕ V
by_number V = assoc ◌==◌

pub by_bytes-IsMap : (V : Type 0) → IsMap (by_bytes V)
by_bytes-IsMap V = assoc-IsMap eq_bytes eq_bytes_iff

pub by_number-IsMap : (V : Type 0) → IsMap (by_number V)
by_number-IsMap V = assoc-IsMap ◌==◌ ==_iff

-- In place of SHA256 the text itself
abbrev pub digest_of : Bytes → Bytes
digest_of s = s

-- Natural numbers for the doubles, and for the times
abbrev pub naturals : Double
naturals = record {
  F = ℕ;
  zero_f = 0;
  plus = ◌+◌;
  minus = ◌-◌;
  times = ◌*◌;
  divided = ◌/◌;
  of_long = pos_part;
  to_long = λ n. if ltb n (2 ^ 63) then some (pos n) else none;
  lt_f = ltb;
  le_f = leb;
}

no_share_of : (a p c : ℕ) → (a - a) / p * c ≡ 0
no_share_of a p c =
    let none_left : a - a ≡ 0 = omega arith in rw (none_left, zero-div p) (omega arith)

pub naturals-IsDouble : IsDouble naturals
naturals-IsDouble = record {
  no_delta = λ a. ground arith;
  no_share = λ a p c h. rw (no_share_of a p (pos_part c)) refl;
  not_expired = λ a p h. ground arith;
}

times_le : (q c : ℕ) → 1 ≤ q → c ≤ q * c
times_le zero c h = absurd (omega arith)
times_le (suc q) c h = grind arith

some_share : (a b p c : ℕ) → 0 < p → p < a - b → c ≤ (a - b) / p * c
some_share a b p c h k =
    let once : 1 ≤ (a - b) / p =
      (le-div_iff_mul-le {k = p} {x = 1} {y = a - b} h).1 (omega arith) in
    times_le ((a - b) / p) c once

pub naturals-IsRefilling : IsRefilling naturals
naturals-IsRefilling = record {
  past = λ a b p h k. ground arith;
  full_share = λ a b p c share h k q e.
      let positive : 0 < p = ground arith in
      let more : p < a - b = ground arith in ground (arith, some_share a b p c positive more);
}

pub naturals-IsEarning : IsEarning naturals
naturals-IsEarning = record { share_nonneg = λ a b p c share h q k e. ground arith }

abbrev pub clock : Clock
clock = record { Time = ℕ; plus = ◌+◌; lt_time = ltb }

-- Object 9 is busy; the store keeps which objects were rearmed, the last first.
abbrev pub objects : Objects
objects = record {
  Store = List ℕ;
  Time = ℕ;
  zero_time = 0;
  minus = ◌-◌;
  le_time = leb;
  busy = λ s p. p == 9;
  ttl = λ s p. 120;
  t_origin = λ s p. 100;
  grace = λ s p. 10;
  stale = λ s p. 0;
  rearm = λ p now ttl grace stale s. p ∷ s;
}
