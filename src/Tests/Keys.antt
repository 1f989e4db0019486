-- ===== src/Tests/Keys.antt =====
-- The theorems on src/vmod_xkey.c at concrete inputs.
use operations_debs_varnish.Base.{
  ℕ, true, false, List, [], ◌∷◌, none, some, ◌≡◌, ◌≢◌, refl, arith, Bytes, codes, All,
}
use operations_debs_varnish.Tree.Assoc.{lookup}
use operations_debs_varnish.Xkey.Index.{
  Oc, Xkey, no_pool, xkey_insert, xkey_cb_remove, xkey_cleanup,
}
use operations_debs_varnish.Xkey.Tokens.{tokens, tokens-spaced, Piece, IsPiece}
use operations_debs_varnish.Xkey.Events.{Vmod, load, discard, vmod_event}
use operations_debs_varnish.Xkey.Refines.{IsSound, Refines}
use operations_debs_varnish.Xkey.Headers.{pairs}
use operations_debs_varnish.Xkey.Purge.{purge, vmod_purge}
use operations_debs_varnish.Xkey.Purged.{idle_pairs, purge-cb_remove, vmod_purge_count}
use operations_debs_varnish.Xkey.Cleanup.{xkey_insert-cleanup, vmod_event_lem}
use operations_debs_varnish.Xkey.History.{Change, enters, leaves, changes, Evolves, changes-Evolves}
use operations_debs_varnish.Tests.Given.{
  by_bytes, by_number, by_bytes-IsMap, by_number-IsMap, digest_of, objects,
}

abbrev pub Index : Type 0
Index = Xkey (by_bytes (List Oc)) (by_number (List Oc))

abbrev pub StandsFor : Index → List Oc → Type 0
StandsFor =
    Refines (by_bytes (List Oc)) (by_number (List Oc)) (by_bytes-IsMap (List Oc))
      (by_number-IsMap (List Oc))

abbrev pub no_index : Index
no_index = record {
  hashtree = [];
  octree = [];
  hashheads = no_pool;
  ocheads = no_pool;
  ocs = no_pool;
  next_address = 1000;
}

no_pool-IsSound : IsSound no_pool
no_pool-IsSound = record { counted = refl; bounded = omega arith }

no_index-Refines : StandsFor no_index []
unfolding lookup
no_index-Refines = record {
  by_digest = λ d. refl;
  by_objcore = λ p. refl;
  hashheads = no_pool-IsSound;
  ocheads = no_pool-IsSound;
  ocs = no_pool-IsSound;
}

-- Object 4 under the key "a"
abbrev pub key_a : Bytes
key_a = codes "a"

abbrev pub oc_a : Oc
oc_a = record { address = 1000; digest = key_a; objcore = 4 }

abbrev pub one_index : Index
one_index = record no_index {
  hashtree = (key_a, oc_a ∷ []) ∷ [];
  octree = (4, oc_a ∷ []) ∷ [];
  next_address = 1001;
}

pub one_index-Refines : StandsFor one_index (oc_a ∷ [])
unfolding lookup
one_index-Refines = record {
  by_digest = λ d. ground arith;
  by_objcore = λ p. ground arith;
  hashheads = no_pool-IsSound;
  ocheads = no_pool-IsSound;
  ocs = no_pool-IsSound;
}

-- A counter that a clean-up does not reset
abbrev pooled : Index
pooled = record no_index { ocheads = record { length = 1; n = 1 } }

abbrev cleaned : Index
cleaned = record no_index { ocheads = record { length = 0; n = 1 } }

abbrev pieces : List Piece
pieces = record { word = key_a; blank = b' '; blanks = [] } ∷ []

pieces-IsPiece : All IsPiece pieces
pieces-IsPiece = (
  record {
    is_word = record { filled = λ e. cc; no_blank = (refl, tt) };
    first = refl;
    others = tt;
  },
  tt,
)

tokens-spaced_example : tokens (codes " a bc") ≡ some (key_a ∷ codes "bc" ∷ [])
tokens-spaced_example =
    tokens-spaced (b' ' ∷ []) pieces (codes "bc") (refl, tt) pieces-IsPiece (refl, (refl, tt))

abbrev headers : List Bytes
headers = codes "Content-Type: text/html" ∷ codes "xkey: a b" ∷ []

abbrev some_changes : List Change
some_changes = enters headers 5 ∷ leaves 4 ∷ enters headers 6 ∷ []

changes-Evolves_example :
    (x' : Index) × (l' : List Oc) × (changes
        (by_bytes (List Oc))
        (by_number (List Oc))
        digest_of
        some_changes
        one_index
      ≡ some x')
    × StandsFor x' l'
    × Evolves digest_of (pairs (oc_a ∷ [])) some_changes (pairs l')
changes-Evolves_example =
    changes-Evolves (by_bytes (List Oc)) (by_number (List Oc)) digest_of (by_bytes-IsMap (List Oc))
      (by_number-IsMap (List Oc)) some_changes one_index (oc_a ∷ []) one_index-Refines

-- Object 4 is not in a store of rearmed objects.
abbrev Untouched : List ℕ → Type 0
Untouched = All (λ q. q ≢ 4)

purge-cb_remove_example :
    (r : List ℕ × ℕ) × (purge objects
        (by_bytes (List Oc))
        (by_number (List Oc))
        digest_of
        false
        101
        (xkey_cb_remove (by_bytes (List Oc)) (by_number (List Oc)) 4 one_index)
        (some key_a)
        []
      ≡ some r)
    × Untouched r.0
purge-cb_remove_example =
    purge-cb_remove objects (by_bytes (List Oc)) (by_number (List Oc)) (by_bytes-IsMap (List Oc))
      (by_number-IsMap (List Oc)) digest_of Untouched 4 (λ q now ttl grace stale s ne u. (ne, u))
      false 101 one_index (oc_a ∷ []) key_a [] one_index-Refines (λ e. cc) tt

vmod_purge_count_example :
    (ws : List Bytes) × (r : List ℕ × ℕ) × (tokens key_a ≡ some ws)
    × (vmod_purge objects
          (by_bytes (List Oc))
          (by_number (List Oc))
          digest_of
          101
          one_index
          (some key_a)
          []
        ≡ some r)
    × (r.1
        ≡ idle_pairs objects
            (by_bytes (List Oc))
            (by_number (List Oc))
            (by_bytes-IsMap (List Oc))
            (by_number-IsMap (List Oc))
            digest_of
            []
            (oc_a ∷ [])
            ws)
vmod_purge_count_example =
    vmod_purge_count objects (by_bytes (List Oc)) (by_number (List Oc)) (by_bytes-IsMap (List Oc))
      (by_number-IsMap (List Oc)) digest_of (λ q p now ttl grace stale s. refl) 101 one_index
      (oc_a ∷ []) key_a [] one_index-Refines (λ e. cc)

xkey_insert-cleanup_example :
    xkey_insert (by_bytes (List Oc)) (by_number (List Oc)) 5 key_a cleaned ≡ none
unfolding xkey_cleanup
xkey_insert-cleanup_example =
    xkey_insert-cleanup (by_bytes (List Oc)) (by_number (List Oc)) (by_bytes-IsMap (List Oc))
      (by_number-IsMap (List Oc)) pooled cleaned 5 key_a (omega arith) refl

abbrev Module : Type 0
Module = Vmod (by_bytes (List Oc)) (by_number (List Oc)) digest_of

abbrev loaded : Module
loaded = record { index = one_index; n_init = 1; registered = true }

vmod_event_lem_example :
    (vmod_event (by_bytes (List Oc)) (by_number (List Oc)) digest_of true load loaded
      ≡ some (record loaded { registered = true; n_init = 2 }))
    × ((y : Index) × StandsFor y []
        × (vmod_event (by_bytes (List Oc)) (by_number (List Oc)) digest_of true discard loaded
            ≡ some (record { index = y; n_init = 0; registered = false })))
vmod_event_lem_example =
    vmod_event_lem (by_bytes (List Oc)) (by_number (List Oc)) (by_bytes-IsMap (List Oc))
      (by_number-IsMap (List Oc)) digest_of loaded refl refl refl refl
