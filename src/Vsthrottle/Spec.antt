-- ===== src/Vsthrottle/Spec.antt =====
-- What src/vmod_vsthrottle.c promises, without partitions and trees: at most one bucket for each digest.
use operations_debs_varnish.Base.{
  ℕ, ◌+◌, ◌-◌, Bool, true, List, [], ◌∷◌, Option, none, some, ◌&&◌, ltb, ◌==◌, if◌then◌else◌, ◌>>=◌,
  Bytes, eq_bytes,
}
use operations_debs_varnish.Base.Int.{ℤ, pos, negsuc}
use operations_debs_varnish.Tree.{Tree}
use operations_debs_varnish.Vsthrottle.Double.{Double}
use operations_debs_varnish.Vsthrottle.Bucket.{Bucket, calc_tokens, throttle}
use operations_debs_varnish.Vsthrottle.Table.{
  Table, part_of, to_unsigned, gc_intvl, vmod_is_denied, vmod_remaining, vmod_blocked, fini,
  event_load,
}
use operations_debs_varnish.Vsthrottle.Collect.{survivor, bucket_for}

module _ (D : Double) where
  -- The state: the bucket of a digest, the calls of a partition since its last collection, the users.
  pub record Throttles : Type 0 where
    pub bucket : Bytes → Option (Bucket D)
    pub count : ℕ → ℕ
    pub users : ℕ

  -- The calls, with the instant that the clock gives.
  pub data Call : Type 0 where
    asks_denied asks_remaining asks_blocked : Option Bytes → ℤ → D.F → D.F → D.F → Call
    loads discards : Call

  pub data Answer : Type 0 where
    is_denied : Bool → Answer
    remaining : ℤ → Answer
    blocked_for : D.F → Answer
    no_answer : Answer

  abbrev pub update : Bytes → Bucket D → (Bytes → Option (Bucket D)) → Bytes → Option (Bucket D)
  update d b f j = if eq_bytes j d then some b else f j

  abbrev pub nothing : Bytes → Option (Bucket D)
  nothing j = none

  -- Is this call the one that collects?
  abbrev pub is_due : Bytes → Throttles → Bool
  is_due d a = a.count (part_of d) + 1 == gc_intvl

  -- A call that is counted: every thousandth takes out the expired buckets of the partition.
  unfoldable pub counted : D.F → Bytes → Throttles → Throttles
  counted now d a = record a {
    bucket = λ j.
        if is_due d a && part_of d == part_of j then survivor D now (a.bucket j) else a.bucket j;
    count = λ p.
        if part_of d == p then (if is_due d a then 0 else a.count (part_of d) + 1) else a.count p;
  }

  unfoldable pub spec_denied : Bytes → ℤ → D.F → D.F → D.F → Throttles → Option (Throttles × Bool)
  spec_denied d limit period block now a = do
    r ← throttle D block now (bucket_for D (a.bucket d) limit period now)
    some (counted now d (record a { bucket = update d r.0 a.bucket }), r.1)

  unfoldable pub spec_remaining : Bytes → ℤ → D.F → D.F → Throttles → Option (Throttles × ℤ)
  spec_remaining d limit period now a = do
    b ← calc_tokens D (bucket_for D (a.bucket d) limit period now) now
    some (record a { bucket = update d b a.bucket }, pos (to_unsigned b.tokens))

  -- The time that is left of a block.
  abbrev pub time_left : D.F → Bucket D → D.F
  time_left now b = if D.le_f (D.minus b.block now) D.zero_f then D.zero_f else D.minus b.block now

  unfoldable pub spec_blocked : Bytes → ℤ → D.F → D.F → Throttles → Throttles × D.F
  spec_blocked d limit period now a =
      let b = bucket_for D (a.bucket d) limit period now in
      (record a { bucket = update d b a.bucket }, time_left now b)

  -- The first user finds no bucket; the last leaves none. `none` is a failed assertion.
  unfoldable pub spec_load : Throttles → Throttles
  spec_load a =
      if a.users == 0
      then (record a { bucket = nothing; users = 1 })
      else record a { users = a.users + 1 }

  unfoldable pub spec_fini : Throttles → Option Throttles
  spec_fini a =
      if ltb 0 a.users
      then some (
          if a.users - 1 == 0
          then (record a { bucket = nothing; users = 0 })
          else record a { users = a.users - 1 })
      else none

  module _ (do_digest : Bytes → ℤ → D.F → D.F → Bytes) (minus_one : D.F) where
    unfoldable pub spec : Call → Throttles → Option (Throttles × Answer)
    spec (asks_denied none limit period block now) a = some (a, is_denied true)
    spec (asks_denied (some key) limit period block now) a = do
      r ← spec_denied (do_digest key limit period block) limit period block now a
      some (r.0, is_denied r.1)
    spec (asks_remaining none limit period block now) a = some (a, remaining (negsuc 0))
    spec (asks_remaining (some key) limit period block now) a = do
      r ← spec_remaining (do_digest key limit period block) limit period now a
      some (r.0, remaining r.1)
    spec (asks_blocked none limit period block now) a = some (a, blocked_for minus_one)
    spec (asks_blocked (some key) limit period block now) a =
        let r = spec_blocked (do_digest key limit period block) limit period now a in
        some (r.0, blocked_for r.1)
    spec loads a = some (spec_load a, no_answer)
    spec discards a = do a' ← spec_fini a; some (a', no_answer)

    unfoldable pub specs : List Call → Throttles → Option (Throttles × List Answer)
    specs [] a = some (a, [])
    specs (c ∷ cs) a = do r ← spec c a; s ← specs cs r.0; some (s.0, r.1 ∷ s.1)

    module _ (M : Tree Bytes (Bucket D)) where
      -- The function of the module that a call runs.
      unfoldable pub perform : Call → Table D M → Option (Table D M × Answer)
      perform (asks_denied key limit period block now) s = do
        r ← vmod_is_denied D M do_digest key limit period block now s
        some (r.0, is_denied r.1)
      perform (asks_remaining key limit period block now) s = do
        r ← vmod_remaining D M do_digest key limit period block now s
        some (r.0, remaining r.1)
      perform (asks_blocked key limit period block now) s =
          let r = vmod_blocked D M do_digest minus_one key limit period block now s in
          some (r.0, blocked_for r.1)
      perform loads s = some (event_load D M s, no_answer)
      perform discards s = do s' ← fini D M s; some (s', no_answer)

      unfoldable pub performs : List Call → Table D M → Option (Table D M × List Answer)
      performs [] s = some (s, [])
      performs (c ∷ cs) s = do r ← perform c s; q ← performs cs r.0; some (q.0, r.1 ∷ q.1)
