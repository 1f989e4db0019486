-- ===== src/Tests/Traffic.antt =====
-- The theorems on the whole table of src/vmod_vsthrottle.c at concrete inputs.
use mathlib.Core.List.{append_assoc}
use operations_debs_varnish.Base.{
  ℕ, arith, ◌≤◌, ◌+◌, ◌-◌, ◌/◌, ◌*◌, leb, ltb, Option, true, false, map, eq_bytes, List, [], ◌∷◌,
  ◌++◌, none, some, ◌≡◌, refl, Bytes, codes, length,
}
use operations_debs_varnish.Base.Int.{ℤ, pos, negsuc, ◌+ℤ◌}
use operations_debs_varnish.Vsthrottle.Bucket.{
  Bucket, tb_alloc, throttle, calc_tokens, accrued, cap_tokens, spend,
}
use operations_debs_varnish.Vsthrottle.Table.{
  Table, vmod_is_denied, denied_in, get_bucket, count_call, part_of, run_gc, gc_loop,
}
use operations_debs_varnish.Vsthrottle.Spec.{
  Call, Answer, asks_denied, asks_remaining, asks_blocked, perform, is_denied, loads, discards,
  specs, performs,
}
use operations_debs_varnish.Vsthrottle.Refines.{view, seen, performs-Refines}
use operations_debs_varnish.Vsthrottle.Pending.{of_denied, Request, as_call, AreWithin, IsWithin}
use operations_debs_varnish.Vsthrottle.Blocked.{perform-performs}
use operations_debs_varnish.Vsthrottle.Rate.{performs-passed}
use operations_debs_varnish.Vsthrottle.Paid.{IsPart, IsLive, passed, tokens_through}
use operations_debs_varnish.Vsthrottle.Digest.{
  Sha256, IsStreaming, IsEncoding, do_digest, do_digest-injective,
}
use operations_debs_varnish.Tree.Assoc.{lookup, dedup, drop_key, add}
use operations_debs_varnish.Tests.Given.{
  by_bytes, by_bytes-IsMap, naturals, naturals-IsDouble, naturals-IsEarning,
}

abbrev NBucket : Type 0
NBucket = Bucket naturals

abbrev NTable : Type 0
NTable = Table naturals (by_bytes NBucket)

abbrev empty_table : NTable
empty_table = record { parts = λ p. record { buckets = []; gc_count = 0 }; n_init = 1 }

abbrev key_digest : Bytes → ℤ → ℕ → ℕ → Bytes
key_digest key limit period block = key

-- Two users come and go, with requests of two keys between.
abbrev some_calls : List (Call naturals)
some_calls =
    loads
    ∷ asks_denied (some (codes "k")) (pos 1) 10 30 5
    ∷ asks_denied (some (codes "k")) (pos 1) 10 30 6
    ∷ asks_blocked (some (codes "k")) (pos 1) 10 30 7
    ∷ asks_remaining (some (codes "x")) (pos 4) 10 0 7
    ∷ discards
    ∷ asks_denied none (pos 1) 10 30 8
    ∷ discards
    ∷ discards
    ∷ []

performs-Refines_example :
    seen naturals
      (by_bytes NBucket)
      (by_bytes-IsMap NBucket)
      (performs naturals key_digest 99 (by_bytes NBucket) some_calls empty_table)
    ≡ specs naturals key_digest 99 some_calls
        (view naturals (by_bytes NBucket) (by_bytes-IsMap NBucket) empty_table)
performs-Refines_example =
    performs-Refines naturals (by_bytes NBucket) (by_bytes-IsMap NBucket) key_digest 99 some_calls
      empty_table

-- Used at 20, with no token left of 4
abbrev spent_bucket : NBucket
spent_bucket = record { last_used = 20; period = 50; block = 0; tokens = pos 0; capacity = pos 4 }

-- One call before the next collection
abbrev spent_table : NTable
spent_table = record {
  parts = λ p. record { buckets = (codes "k", spent_bucket) ∷ []; gc_count = 998 };
  n_init = 1;
}

-- Another key, then the key itself, which has earned tokens by then
abbrev others : List (Request naturals)
others =
    record {
      question = of_denied;
      key = codes "K";
      limit = pos 1;
      period = 10;
      block = 7;
      now = 31;
    }
    ∷ record {
      question = of_denied;
      key = codes "k";
      limit = pos 4;
      period = 50;
      block = 50;
      now = 70;
    }
    ∷ []

abbrev answers : List (Answer naturals)
answers = is_denied true ∷ is_denied false ∷ is_denied true ∷ []

abbrev before_last : Option (NTable × List (Answer naturals))
before_last =
    performs naturals key_digest 99 (by_bytes NBucket)
      (asks_denied (some (codes "k")) (pos 4) 50 50 21 ∷ map (as_call naturals) others) spent_table

abbrev table_of : Option (NTable × List (Answer naturals)) → NTable
table_of none = spent_table
table_of (some (s, xs)) = s

before_last_answered : before_last ≡ some (table_of before_last, answers)
unfolding performs perform vmod_is_denied denied_in get_bucket throttle calc_tokens accrued
    cap_tokens spend count_call part_of run_gc gc_loop lookup eq_bytes tb_alloc dedup drop_key add
    ◌+ℤ◌
before_last_answered = refl

-- Nothing is earned before a whole period has passed.
instants-IsWithin :
    (u v : ℕ) (n : ℤ)
    → leb 0 (v - u) ≡ true
    → ltb 50 (v - u) ≡ false
    → naturals.to_long ((v - u) / 50 * 4) ≡ some n
    → IsWithin naturals 50 (pos 4) u v
instants-IsWithin u v n a p e = record { after = a; in_period = p; share = n; defined = e }

abbrev none_earned : ℤ
none_earned = pos 0

abbrev full : ℤ
full = pos 4

close_instants : AreWithin naturals 50 (pos 4) 20 (21 ∷ 31 ∷ 70 ∷ 70 ∷ [])
close_instants = (
  (
    instants-IsWithin 20 21 none_earned refl refl refl,
    (
      instants-IsWithin 20 31 none_earned refl refl refl,
      (
        instants-IsWithin 20 70 full refl refl refl,
        (instants-IsWithin 20 70 full refl refl refl, tt),
      ),
    ),
  ),
  (
    (
      instants-IsWithin 21 31 none_earned refl refl refl,
      (
        instants-IsWithin 21 70 none_earned refl refl refl,
        (instants-IsWithin 21 70 none_earned refl refl refl, tt),
      ),
    ),
    (
      (
        instants-IsWithin 31 70 none_earned refl refl refl,
        (instants-IsWithin 31 70 none_earned refl refl refl, tt),
      ),
      ((instants-IsWithin 70 70 none_earned refl refl refl, tt), tt),
    ),
  ),
)

perform-performs_example :
    (s'' : NTable) × (ys : List (Answer naturals)) × (answers ≡ is_denied true ∷ ys)
    × (perform naturals key_digest 99
          (by_bytes NBucket)
          (asks_denied (some (codes "k")) (pos 4) 50 50 70)
          (table_of before_last)
        ≡ some (s'', is_denied true))
unfolding lookup eq_bytes calc_tokens accrued cap_tokens ◌+ℤ◌
perform-performs_example =
    perform-performs naturals key_digest 99 (by_bytes NBucket) (by_bytes-IsMap NBucket)
      naturals-IsDouble (codes "k") (pos 4) 50 50 21 70 others spent_table (table_of before_last)
      answers spent_bucket spent_bucket refl refl close_instants refl refl refl refl
      (refl, (refl, tt)) refl ((λ e. refl), ((λ e. refl), tt)) before_last_answered

spent_bucket-IsLive : IsLive naturals (21 ∷ 31 ∷ 70 ∷ 70 ∷ []) spent_bucket
spent_bucket-IsLive = record {
  positive = refl;
  saved = omega arith;
  capacity = omega arith;
  close = close_instants;
}

performs-passed_example :
    (s' : NTable) × (xs : List (Answer naturals)) × (us : List ℕ) × (performs naturals key_digest 99
        (by_bytes NBucket)
        (map (λ now. asks_denied (some (codes "k")) (pos 4) 50 0 now) (21 ∷ 31 ∷ 70 ∷ 70 ∷ []))
        spent_table
      ≡ some (s', xs))
    × IsPart us (21 ∷ 31 ∷ 70 ∷ 70 ∷ [])
    × (passed naturals xs ≤ 0 + tokens_through naturals 50 (pos 4) 20 us)
unfolding lookup eq_bytes
performs-passed_example =
    performs-passed naturals (by_bytes NBucket) (by_bytes-IsMap NBucket) naturals-IsDouble
      naturals-IsEarning key_digest 99 (codes "k") (pos 4) 50 0 (21 ∷ 31 ∷ 70 ∷ 70 ∷ []) spent_table
      spent_bucket refl spent_bucket-IsLive

-- A hash that keeps the text, and values as lists of eight numbers
abbrev kept_text : Sha256
kept_text = record { Ctx = Bytes; init = []; update = λ c a. c ++ a; final = λ c. c }

abbrev times_in_eight : ℕ → Bytes
times_in_eight n = n ∷ 0 ∷ 0 ∷ 0 ∷ 0 ∷ 0 ∷ 0 ∷ 0 ∷ []

abbrev longs_in_eight : ℤ → Bytes
longs_in_eight (pos n) = 0 ∷ n ∷ 0 ∷ 0 ∷ 0 ∷ 0 ∷ 0 ∷ 0 ∷ []
longs_in_eight (negsuc n) = 1 ∷ n ∷ 0 ∷ 0 ∷ 0 ∷ 0 ∷ 0 ∷ 0 ∷ []

kept_text-IsStreaming : IsStreaming kept_text
kept_text-IsStreaming = record { update-update = λ c a b. append_assoc c a b }

times_in_eight-IsEncoding : IsEncoding times_in_eight
times_in_eight-IsEncoding = record { width = λ n. refl; injective = λ m n e. cc e }

longs_injective : (x y : ℤ) → longs_in_eight x ≡ longs_in_eight y → x ≡ y
longs_injective (pos m) (pos n) e = cc e
longs_injective (negsuc m) (negsuc n) e = cc e
longs_injective (pos m) (negsuc n) e = absurd (cc e)
longs_injective (negsuc m) (pos n) e = absurd (cc e)

longs_width : (x : ℤ) → length (longs_in_eight x) ≡ 8
longs_width (pos n) = refl
longs_width (negsuc n) = refl

longs_in_eight-IsEncoding : IsEncoding longs_in_eight
longs_in_eight-IsEncoding = record { width = longs_width; injective = longs_injective }

do_digest-injective_example :
    (codes "k" ≡ codes "k") × (pos 4 ≡ pos 4) × (◌≡◌ {A = ℕ} 10 10) × (◌≡◌ {A = ℕ} 30 30)
unfolding do_digest
do_digest-injective_example =
    do_digest-injective kept_text longs_in_eight times_in_eight kept_text-IsStreaming
      longs_in_eight-IsEncoding times_in_eight-IsEncoding (codes "k") (codes "k") (pos 4) (pos 4) 10
      10 30 30 (λ e. e) refl
