-- ===== src/Tests/Promises.antt =====
-- The promise of src/vmod_xkey.c at a concrete history of the cache.
use mathlib.Core.List.{Memᴰ}
use operations_debs_varnish.Base.{
  ℕ, List, [], ◌∷◌, some, ◌≡◌, refl, Bytes, codes, starts_with_nocase, cut,
}
use operations_debs_varnish.Xkey.Index.{Oc}
use operations_debs_varnish.Xkey.Tokens.{tokens, tokens_loop, xkey_tok, skip_blank, take_word}
use operations_debs_varnish.Xkey.Events.{after_colon}
use operations_debs_varnish.Xkey.Purge.{vmod_purge}
use operations_debs_varnish.Xkey.Headers.{Keys, end, skipped, read}
use operations_debs_varnish.Xkey.History.{Change, enters, leaves, changes}
use operations_debs_varnish.Xkey.Promise.{IsPurged, entered-purged}
use operations_debs_varnish.Tests.Given.{
  by_bytes, by_number, by_bytes-IsMap, by_number-IsMap, digest_of, objects,
}
use operations_debs_varnish.Tests.Keys.{Index, key_a, oc_a, one_index, one_index-Refines}

-- Object 5 is among those that were rearmed.
abbrev Rearmed : List ℕ → Type 0
Rearmed = Memᴰ 5

Rearmed-IsPurged : IsPurged objects 5 Rearmed
Rearmed-IsPurged = record {
  sets = λ s e. Memᴰ.head refl;
  keeps = λ q now ttl grace stale s m. Memᴰ.tail m;
  idle = λ q now ttl grace stale s e. e;
}

abbrev two_headers : List Bytes
two_headers = codes "Date: b" ∷ codes "xkey: c a" ∷ []

two_headers-Keys : Keys two_headers (codes "c" ∷ key_a ∷ [])
unfolding starts_with_nocase after_colon cut tokens tokens_loop xkey_tok skip_blank take_word
two_headers-Keys = skipped refl (read refl refl refl end refl)

-- Object 6 enters under the same key, and object 4 leaves.
abbrev others_change : List Change
others_change = enters (codes "xkey: a" ∷ []) 6 ∷ leaves 4 ∷ []

entered-purged_example :
    (x' : Index) × (r : List ℕ × ℕ) × (changes
        (by_bytes (List Oc))
        (by_number (List Oc))
        digest_of
        (enters two_headers 5 ∷ others_change)
        one_index
      ≡ some x')
    × (vmod_purge objects
          (by_bytes (List Oc))
          (by_number (List Oc))
          digest_of
          101
          x'
          (some (codes "b a"))
          []
        ≡ some r)
    × Rearmed r.0
unfolding tokens tokens_loop xkey_tok skip_blank take_word
entered-purged_example =
    entered-purged objects digest_of 5 Rearmed Rearmed-IsPurged (by_bytes (List Oc))
      (by_number (List Oc)) (by_bytes-IsMap (List Oc)) (by_number-IsMap (List Oc)) 101 two_headers
      (codes "c" ∷ key_a ∷ []) (codes "b" ∷ key_a ∷ []) others_change key_a (codes "b a") one_index
      (oc_a ∷ []) [] one_index-Refines two_headers-Keys (Memᴰ.tail (Memᴰ.head refl)) ((λ e. cc), tt)
      (λ e. cc) refl (Memᴰ.tail (Memᴰ.head refl)) refl
