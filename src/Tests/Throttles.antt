-- ===== src/Tests/Throttles.antt =====
-- The theorems on src/vmod_vsthrottle.c at concrete inputs.
use operations_debs_varnish.Base.{
  ℕ, false, List, [], ◌∷◌, some, ◌≡◌, refl, arith, Bytes, codes, eq_bytes,
}
use operations_debs_varnish.Base.Int.{ℤ, pos, ◌+ℤ◌}
use operations_debs_varnish.Vsthrottle.Bucket.{Bucket, accrued}
use operations_debs_varnish.Vsthrottle.Table.{
  Vsthrottle, Table, run_gc, denied_in, remaining_in, to_unsigned,
}
use operations_debs_varnish.Vsthrottle.Unseen.{plain, collected_unseen}
use operations_debs_varnish.Vsthrottle.Limit.{requests, requests_limit}
use operations_debs_varnish.Vsthrottle.Refill.{remaining_twice}
use operations_debs_varnish.Tree.Assoc.{lookup}
use operations_debs_varnish.Tests.Given.{
  by_bytes, by_bytes-IsMap, naturals, naturals-IsDouble, naturals-IsRefilling,
}

abbrev NBucket : Type 0
NBucket = Bucket naturals

-- Used at 5, with a period of 10 and 3 of 4 tokens
abbrev a_bucket : NBucket
a_bucket = record { last_used = 5; period = 10; block = 0; tokens = pos 3; capacity = pos 4 }

abbrev key_k : Bytes
key_k = codes "k"

abbrev one_bucket : List (Bytes × NBucket)
one_bucket = (key_k, a_bucket) ∷ []

abbrev Part : Type 0
Part = Vsthrottle naturals (by_bytes NBucket)

-- One call before the next collection
abbrev a_part : Part
a_part = record { buckets = one_bucket; gc_count = 999 }

abbrev NTable : Type 0
NTable = Table naturals (by_bytes NBucket)

abbrev empty_table : NTable
empty_table = record { parts = λ p. record { buckets = []; gc_count = 0 }; n_init = 1 }

abbrev key_digest : Bytes → ℤ → ℕ → ℕ → Bytes
key_digest key limit period block = key

requests_limit_example :
    (s' : NTable) × (requests naturals
        (by_bytes NBucket)
        key_digest
        7
        key_k
        (pos 4)
        10
        3
        5
        empty_table
      ≡ some (s', 4))
unfolding lookup
requests_limit_example =
    requests_limit naturals (by_bytes NBucket) key_digest (by_bytes-IsMap NBucket) naturals-IsDouble
      key_k 4 10 3 5 refl refl 7 empty_table refl

remaining_twice_example :
    (v' v'' : Part) × (remaining_in naturals (by_bytes NBucket) key_k (pos 4) 10 15 a_part
      ≡ some (v', pos (to_unsigned (pos 4))))
    × (remaining_in naturals (by_bytes NBucket) key_k (pos 4) 10 15 v'
        ≡ some (v'', pos (to_unsigned (pos 4))))
unfolding accrued lookup eq_bytes
remaining_twice_example =
    remaining_twice naturals (by_bytes NBucket) (by_bytes-IsMap NBucket) key_k (pos 4) 10 15 a_part
      a_bucket 3 4 4 refl refl refl refl refl

-- Used at 5 with a period of 10, and asked for at 20
collected_unseen_example :
    (v1 v2 : Part) × (denied_in naturals (by_bytes NBucket) key_k (pos 4) 10 0 20 a_part
      ≡ some (v1, false))
    × (denied_in naturals
          (by_bytes NBucket)
          key_k
          (pos 4)
          10
          0
          20
          (record a_part { buckets = run_gc naturals (by_bytes NBucket) 20 one_bucket })
        ≡ some (v2, false))
    × (lookup eq_bytes key_k v1.buckets ≡ some (plain naturals 20 10 3 4))
    × (lookup eq_bytes key_k v2.buckets ≡ some (plain naturals 20 10 3 4))
unfolding lookup eq_bytes accrued ◌+ℤ◌
collected_unseen_example =
    collected_unseen naturals naturals-IsDouble naturals-IsRefilling 0 20 10 3 refl refl
      (omega arith) (by_bytes NBucket) (by_bytes-IsMap NBucket) key_k a_part 5 3 (pos 4) refl refl
      refl (omega arith)
