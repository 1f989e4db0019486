-- ===== src/Tree/Compare.antt =====
-- The comparison functions of the trees in src/vmod_xkey.c and src/vmod_vsthrottle.c, and the order
-- that a search tree needs of them.
use operations_debs_varnish.Base.{
  ℕ, zero, suc, ◌≡◌, ◌≢◌, ◌↔◌, refl, [], ◌∷◌, ltb, if◌then◌else◌, Bytes, length, arith,
}
use operations_debs_varnish.Base.Int.{ℤ, pos, negsuc}

-- memcmp(a, b, n) on arrays of n bytes; only the sign of its result is documented.
unfoldable pub memcmp : ℕ → Bytes → Bytes → ℤ
memcmp (suc n) (x ∷ a) (y ∷ b) =
    let rest = memcmp n a b in if ltb x y then negsuc 0 else if ltb y x then pos 1 else rest
memcmp _ _ _ = pos 0

-- DIGEST_LEN and SHA256_LEN
abbrev pub digest_len : ℕ
digest_len = 32

unfoldable pub xkey_hashcmp : Bytes → Bytes → ℤ
unfolding memcmp
xkey_hashcmp k1 k2 = memcmp digest_len k1 k2

unfoldable pub keycmp : Bytes → Bytes → ℤ
unfolding memcmp
keycmp b1 b2 = memcmp digest_len b1 b2

unfoldable pub xkey_ptrcmp : ℕ → ℕ → ℤ
xkey_ptrcmp k1 k2 = if ltb k1 k2 then negsuc 0 else if ltb k2 k1 then pos 1 else pos 0

memcmp_iff : (n : ℕ) (a b : Bytes) → length a ≡ n → length b ≡ n → (memcmp n a b ≡ pos 0) ↔ (a ≡ b)
unfolding memcmp
memcmp_iff zero [] [] h k = ((λ _. refl), (λ _. refl))
memcmp_iff (suc n) (x ∷ a) (y ∷ b) h k =
    ground (arith, memcmp_iff n a b (omega (arith, h)) (omega (arith, k)))
memcmp_iff zero (x ∷ a) b h k = absurd (omega (arith, h))
memcmp_iff zero [] (y ∷ b) h k = absurd (omega (arith, k))
memcmp_iff (suc n) [] b h k = absurd (omega (arith, h))
memcmp_iff (suc n) (x ∷ a) [] h k = absurd (omega (arith, k))

memcmp_opposite : (n : ℕ) (a b : Bytes) → (memcmp n a b ≡ negsuc 0) ↔ (memcmp n b a ≡ pos 1)
unfolding memcmp
memcmp_opposite (suc n) (x ∷ a) (y ∷ b) = ground (arith, memcmp_opposite n a b)
memcmp_opposite zero a b = ground arith
memcmp_opposite (suc n) [] [] = ground arith
memcmp_opposite (suc n) [] (y ∷ b) = ground arith
memcmp_opposite (suc n) (x ∷ a) [] = ground arith

memcmp_trans :
    (n : ℕ) (a b c : Bytes)
    → length b ≡ n
    → memcmp n a b ≢ pos 1
    → memcmp n b c ≢ pos 1
    → memcmp n a c ≢ pos 1
unfolding memcmp
memcmp_trans (suc n) (x ∷ a) (y ∷ b) (z ∷ c) h p q =
    ground (arith, memcmp_trans n a b c (omega (arith, h)))
memcmp_trans zero a b c h p q = ground arith
memcmp_trans (suc n) [] b c h p q = ground arith
memcmp_trans (suc n) (x ∷ a) (y ∷ b) [] h p q = ground arith
memcmp_trans (suc n) (x ∷ a) [] c h p q = absurd (omega (arith, h))

-- On digests of 32 bytes the comparison is 0 for the same digest only, changes its sign with the
-- places, and is transitive. keycmp() is the same function.
pub xkey_hashcmp_lem :
    (a b c : Bytes)
    → length a ≡ digest_len
    → length b ≡ digest_len
    → xkey_hashcmp a b ≢ pos 1
    → xkey_hashcmp b c ≢ pos 1
    → (xkey_hashcmp a c ≢ pos 1)
      × ((xkey_hashcmp a b ≡ pos 0) ↔ (a ≡ b))
      × ((xkey_hashcmp a b ≡ negsuc 0) ↔ (xkey_hashcmp b a ≡ pos 1))
      × (keycmp a b ≡ xkey_hashcmp a b)
unfolding xkey_hashcmp keycmp
xkey_hashcmp_lem a b c h k p q = (
  memcmp_trans digest_len a b c k p q,
  memcmp_iff digest_len a b h k,
  memcmp_opposite digest_len a b,
  refl,
)

-- The same for addresses.
pub xkey_ptrcmp_lem :
    (a b c : ℕ)
    → xkey_ptrcmp a b ≢ pos 1
    → xkey_ptrcmp b c ≢ pos 1
    → (xkey_ptrcmp a c ≢ pos 1)
      × ((xkey_ptrcmp a b ≡ pos 0) ↔ (a ≡ b))
      × ((xkey_ptrcmp a b ≡ negsuc 0) ↔ (xkey_ptrcmp b a ≡ pos 1))
unfolding xkey_ptrcmp
xkey_ptrcmp_lem a b c p q = (ground arith, ground arith, ground arith)
