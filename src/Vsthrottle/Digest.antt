-- ===== src/Vsthrottle/Digest.antt =====
-- do_digest() of src/vmod_vsthrottle.c: the text that is hashed for the arguments of a call.
use mathlib.Core.List.{append_assoc}
use operations_debs_varnish.Base.{
  ◌≡◌, refl, ap, sym, ◌∙◌, [], ◌∷◌, ◌++◌, length, length-append, arith, Bytes,
}
use operations_debs_varnish.Base.Int.{ℤ}

-- libvarnish's SHA256, a parameter
pub record Sha256 : Type 1 where
  pub Ctx : Type 0
  pub init : Ctx
  pub update : Ctx → Bytes → Ctx
  pub final : Ctx → Bytes

-- A text may be hashed in pieces.
pub record IsStreaming (H : Sha256) : Type 0 where
  pub update-update : (c : H.Ctx) (a b : Bytes) → H.update (H.update c a) b ≡ H.update c (a ++ b)

-- The bytes of a value in memory: eight, and a different value has different ones.
pub record IsEncoding {A : Type 0} (bytes_of : A → Bytes) : Type 0 where
  pub width : (x : A) → length (bytes_of x) ≡ 8
  pub injective : (x y : A) → bytes_of x ≡ bytes_of y → x ≡ y

append-injective : (a b s t : Bytes) → length s ≡ length t → a ++ s ≡ b ++ t → (a ≡ b) × (s ≡ t)
append-injective [] [] s t h e = (refl, e)
append-injective [] (d ∷ b) s t h e = absurd (omega (arith, ap length e, length-append b t))
append-injective (c ∷ a) [] s t h e = absurd (omega (arith, ap length e, length-append a s))
append-injective (c ∷ a) (d ∷ b) s t h e =
    let (q, r) = append-injective a b s t h (cc e) in (cc (q, e), r)

module _ (H : Sha256) {F : Type 0} (long_bytes : ℤ → Bytes) (double_bytes : F → Bytes) where
  unfoldable pub do_digest : Bytes → ℤ → F → F → Bytes
  do_digest s l p b = H.final (
      H.update (H.update (H.update (H.update H.init s) (long_bytes l)) (double_bytes p))
        (double_bytes b))

  -- The bytes that are hashed for a call, one after the other.
  abbrev pub digest_text : Bytes → ℤ → F → F → Bytes
  digest_text s l p b = s ++ (long_bytes l ++ (double_bytes p ++ double_bytes b))

  abbrev pub hash : Bytes → Bytes
  hash s = H.final (H.update H.init s)

  do_digest-hash :
      (h : IsStreaming H) (s : Bytes) (l : ℤ) (p b : F)
      → do_digest s l p b ≡ hash (digest_text s l p b)
  unfolding do_digest
  do_digest-hash h s l p b =
      rw
        (
          do_digest,
          h.update-update H.init s (long_bytes l),
          h.update-update H.init (s ++ long_bytes l) (double_bytes p),
          h.update-update H.init ((s ++ long_bytes l) ++ double_bytes p) (double_bytes b),
          append_assoc (s ++ long_bytes l) (double_bytes p) (double_bytes b),
          append_assoc s (long_bytes l) (double_bytes p ++ double_bytes b),
        )
        refl

  digest_text-injective :
      (i : IsEncoding long_bytes) (j : IsEncoding double_bytes) (s s' : Bytes) (l l' : ℤ)
      (p p' b b' : F)
      → digest_text s l p b ≡ digest_text s' l' p' b'
      → (s ≡ s') × (l ≡ l') × (p ≡ p') × (b ≡ b')
  digest_text-injective i j s s' l l' p p' b b' e =
      let ends : length (double_bytes b) ≡ length (double_bytes b') =
        j.width b ∙ sym (j.width b') in
      let times : length (double_bytes p ++ double_bytes b)
          ≡ length (double_bytes p' ++ double_bytes b') =
        omega (
          arith,
          j.width p,
          j.width p',
          ends,
          length-append (double_bytes p) (double_bytes b),
          length-append (double_bytes p') (double_bytes b'),
        ) in
      let tails : length (long_bytes l ++ (double_bytes p ++ double_bytes b))
          ≡ length (long_bytes l' ++ (double_bytes p' ++ double_bytes b')) =
        omega (
          arith,
          i.width l,
          i.width l',
          times,
          length-append (long_bytes l) (double_bytes p ++ double_bytes b),
          length-append (long_bytes l') (double_bytes p' ++ double_bytes b'),
        ) in
      let (es, e1) = append-injective s s' _ _ tails e in
      let (el, e2) = append-injective (long_bytes l) (long_bytes l') _ _ times e1 in
      let (ep, eb) = append-injective (double_bytes p) (double_bytes p') _ _ ends e2 in
      (es, i.injective l l' el, j.injective p p' ep, j.injective b b' eb)

  -- With a hash that takes a text in pieces, and encodings of the limit and of the times in eight
  -- bytes each: two calls with the same digest have the same key, limit, period and block, where the
  -- hash does not collide on the two texts that are hashed for them.
  pub do_digest-injective :
      (h : IsStreaming H) (i : IsEncoding long_bytes) (j : IsEncoding double_bytes) (s s' : Bytes)
      (l l' : ℤ) (p p' b b' : F)
      → (hash (digest_text s l p b) ≡ hash (digest_text s' l' p' b')
          → digest_text s l p b ≡ digest_text s' l' p' b')
      → do_digest s l p b ≡ do_digest s' l' p' b'
      → (s ≡ s') × (l ≡ l') × (p ≡ p') × (b ≡ b')
  do_digest-injective h i j s s' l l' p p' b b' apart e =
      digest_text-injective i j s s' l l' p p' b b'
        (apart (sym (do_digest-hash h s l p b) ∙ (e ∙ do_digest-hash h s' l' p' b')))
