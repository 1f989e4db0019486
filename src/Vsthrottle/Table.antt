-- ===== src/Vsthrottle/Table.antt =====
-- The 16 partitions of buckets, the four functions of the module and its garbage collector.
use Prim.Native.Nat.{bit_and}
use operations_debs_varnish.Base.{
  ℕ, ◌+◌, ◌-◌, ◌%◌, ◌^◌, Bool, true, List, [], ◌∷◌, Option, none, some, ltb, ◌==◌, if◌then◌else◌,
  ◌>>=◌, Bytes,
}
use operations_debs_varnish.Base.Int.{ℤ, pos, negsuc}
use operations_debs_varnish.Tree.{Tree}
use operations_debs_varnish.Vsthrottle.Double.{Double}
use operations_debs_varnish.Vsthrottle.Bucket.{Bucket, tb_alloc, calc_tokens, throttle, is_expired}

abbrev pub n_part : ℕ
n_part = 16

abbrev pub gc_intvl : ℕ
gc_intvl = 1000

-- digest[0]
abbrev pub first_byte : Bytes → ℕ
first_byte [] = 0
first_byte (c ∷ s) = c

-- digest[0] & N_PART_MASK
unfoldable pub part_of : Bytes → ℕ
part_of digest = bit_and (first_byte digest) (n_part - 1)

-- A long stored in an unsigned int.
unfoldable pub to_unsigned : ℤ → ℕ
to_unsigned (pos n) = n % 2 ^ 32
to_unsigned (negsuc n) = 2 ^ 32 - 1 - n % 2 ^ 32

module _ (D : Double) (M : Tree Bytes (Bucket D)) where
  open D use {F, zero_f, minus, le_f}

  -- struct vsthrottle
  pub record Vsthrottle : Type 0 where
    pub buckets : M.T
    pub gc_count : ℕ

  -- vsthrottle[N_PART] and n_init
  pub record Table : Type 0 where
    pub parts : ℕ → Vsthrottle
    pub n_init : ℕ

  -- get_bucket(): the bucket, and the tree with it.
  unfoldable pub get_bucket : Bytes → ℤ → F → F → M.T → Bucket D × M.T
  get_bucket digest limit period now t = elim (M.find digest t) [
    | some b ↦ (b, t)
    | none ↦ (tb_alloc D limit period now, (M.insert digest (tb_alloc D limit period now) t).0)
  ]

  -- run_gc(), over the nodes that are left to visit
  unfoldable pub gc_loop : F → List (Bytes × Bucket D) → M.T → M.T
  gc_loop now [] t = t
  gc_loop now ((d, x) ∷ xs) t = gc_loop now xs (if is_expired D now x then M.remove d t else t)

  unfoldable pub run_gc : F → M.T → M.T
  unfolding gc_loop
  run_gc now t = gc_loop now (M.walk t) t

  -- The last lines of vmod_is_denied() before the unlock.
  unfoldable pub count_call : F → Vsthrottle → Vsthrottle
  count_call now v =
      if v.gc_count + 1 == gc_intvl
      then record v { buckets = run_gc now v.buckets; gc_count = 0 }
      else record v { gc_count = v.gc_count + 1 }

  -- vmod_is_denied() between the lock and the unlock of one partition.
  unfoldable pub denied_in : Bytes → ℤ → F → F → F → Vsthrottle → Option (Vsthrottle × Bool)
  denied_in digest limit period block now v = do
    let g = get_bucket digest limit period now v.buckets
    r ← throttle D block now g.0
    some (count_call now (record v { buckets = M.write digest r.0 g.1 }), r.1)

  -- vmod_remaining() between the lock and the unlock
  unfoldable pub remaining_in : Bytes → ℤ → F → F → Vsthrottle → Option (Vsthrottle × ℤ)
  unfolding to_unsigned
  remaining_in digest limit period now v = do
    let g = get_bucket digest limit period now v.buckets
    b ← calc_tokens D g.0 now
    some (record v { buckets = M.write digest b g.1 }, pos (to_unsigned b.tokens))

  -- vmod_blocked() between the lock and the unlock, and its last test
  unfoldable pub blocked_in : Bytes → ℤ → F → F → Vsthrottle → Vsthrottle × F
  unfolding get_bucket
  blocked_in digest limit period now v =
      let g = get_bucket digest limit period now v.buckets in
      let ret = minus g.0.block now in
      (record v { buckets = g.1 }, if le_f ret zero_f then zero_f else ret)

  abbrev pub set_part : ℕ → Vsthrottle → Table → Table
  set_part p v s = record s { parts = λ q. if p == q then v else s.parts q }

  -- `do_digest` is the SHA256 of the key, the limit, the period and the block.
  module _ (do_digest : Bytes → ℤ → F → F → Bytes) where
    unfoldable pub vmod_is_denied : Option Bytes → ℤ → F → F → F → Table → Option (Table × Bool)
    vmod_is_denied none limit period block now s = some (s, true)
    vmod_is_denied (some key) limit period block now s = do
      let digest = do_digest key limit period block
      let part = part_of digest
      r ← denied_in digest limit period block now (s.parts part)
      some (set_part part r.0 s, r.1)

    unfoldable pub vmod_remaining : Option Bytes → ℤ → F → F → F → Table → Option (Table × ℤ)
    vmod_remaining none limit period block now s = some (s, negsuc 0)
    vmod_remaining (some key) limit period block now s = do
      let digest = do_digest key limit period block
      let part = part_of digest
      r ← remaining_in digest limit period now (s.parts part)
      some (set_part part r.0 s, r.1)

    -- `minus_one` is the double -1.
    unfoldable pub vmod_blocked : F → Option Bytes → ℤ → F → F → F → Table → Table × F
    vmod_blocked minus_one none limit period block now s = (s, minus_one)
    vmod_blocked minus_one (some key) limit period block now s =
        let digest = do_digest key limit period block in
        let part = part_of digest in
        let r = blocked_in digest limit period now (s.parts part) in (set_part part r.0 s, r.1)

  -- fini(): the buckets go with the last user.
  unfoldable pub remove_all : List (Bytes × Bucket D) → M.T → M.T
  remove_all [] t = t
  remove_all ((d, x) ∷ xs) t = remove_all xs (M.remove d t)

  unfoldable pub fini : Table → Option Table
  unfolding remove_all
  fini s =
      if ltb 0 s.n_init
      then some (
          if s.n_init - 1 == 0
          then (record s {
            n_init = 0;
            parts = λ p. record (s.parts p) {
              buckets = remove_all (M.walk (s.parts p).buckets) (s.parts p).buckets;
            };
          })
          else record s { n_init = s.n_init - 1 })
      else none

  -- event_function(), on VCL_EVENT_LOAD: the first user makes the trees. gc_count keeps its value.
  unfoldable pub event_load : Table → Table
  event_load s =
      if s.n_init == 0
      then (record s { n_init = 1; parts = λ p. record (s.parts p) { buckets = M.empty } })
      else record s { n_init = s.n_init + 1 }
