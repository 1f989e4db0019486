-- ===== src/Tests/Softpurges.antt =====
-- The theorem on src/vmod_softpurge.c at a concrete input.
use operations_debs_varnish.Base.{
  ℕ, ◌+◌, ◌-◌, ◌≡◌, refl, false, [], ◌∷◌, some, ◌==◌, if◌then◌else◌, arith,
}
use operations_debs_varnish.Softpurge.{Objcores, IsObjcores, hit, collect, vmod_softpurge}
use operations_debs_varnish.Softpurge.References.{count, rearmed_times, vmod_softpurge_lem}

abbrev Times : Type 0
Times = ℕ × ℕ × ℕ × ℕ

record Cores : Type 0 where
  refs : ℕ → ℕ
  times : ℕ → Times

-- Object 9 is busy, and no object is dying.
abbrev cores : Objcores
cores = record {
  Store = Cores;
  Time = ℕ;
  Exp = Times;
  zero_time = 0;
  grace = λ x. x.2;
  stale = λ x. x.3;
  rearmed = λ now ttl grace stale x. (now, ttl, grace, stale);
  busy = λ s p. p == 9;
  dying = λ s p. false;
  refcnt = λ s. s.refs;
  exp = λ s. s.times;
  set_refcnt = λ q n s. record s { refs = λ p. if p == q then n else s.refs p };
  rearm = λ q now ttl grace stale s. record s {
    times = λ p. if p == q then (now, ttl, grace, stale) else s.times p;
  };
  deref = λ q s. record s { refs = λ p. if p == q then s.refs p - 1 else s.refs p };
}

cores-IsObjcores : IsObjcores cores
cores-IsObjcores = record {
  busy-set_refcnt = λ p q n s. refl;
  dying-set_refcnt = λ p q n s. refl;
  exp-set_refcnt = λ p q n s. refl;
  refcnt-set_refcnt = λ p q n s. refl;
  refcnt-rearm = λ p q now ttl grace stale s. refl;
  exp-rearm = λ p q now ttl grace stale s. refl;
  refcnt-deref = λ p q s. refl;
  exp-deref = λ p q s. refl;
}

-- Each object has one reference, and ten seconds to live and three of grace since the time 100.
abbrev fresh : Cores
fresh = record { refs = λ p. 1; times = λ p. (100, 10, 3, 0) }

vmod_softpurge_lem_example :
    (s' : Cores) × (vmod_softpurge cores (λ s. s) hit 16 1 (3 ∷ 9 ∷ 4 ∷ 5 ∷ []) 105 fresh
      ≡ some (s', []))
    × ((p : ℕ)
        → ((collect cores 16 (3 ∷ 9 ∷ 4 ∷ 5 ∷ []) fresh).1.refs p ≡ 1 + count p (3 ∷ 4 ∷ []))
          × (s'.refs p
              ≡ (collect cores 16 (3 ∷ 9 ∷ 4 ∷ 5 ∷ []) fresh).1.refs p - count p (3 ∷ 4 ∷ []))
          × (s'.times p
              ≡ rearmed_times cores
                  (count p (3 ∷ 4 ∷ []))
                  105
                  ((collect cores 16 (3 ∷ 9 ∷ 4 ∷ 5 ∷ []) fresh).1.times p)))
unfolding collect
vmod_softpurge_lem_example =
    vmod_softpurge_lem cores cores-IsObjcores (λ s. s) hit 16 1 (3 ∷ 9 ∷ 4 ∷ 5 ∷ []) 105 fresh refl
      (omega arith) (omega arith) (λ p. ground arith)
