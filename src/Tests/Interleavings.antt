-- ===== src/Tests/Interleavings.antt =====
-- The theorems on the threads in src/vmod_xkey.c at a concrete sequence of steps.
use operations_debs_varnish.Base.{
  ℕ, false, List, [], ◌∷◌, ◌++◌, Option, none, some, ◌≡◌, refl, arith, Bytes, codes, eq_bytes, ◌==◌,
  if◌then◌else◌,
}
use operations_debs_varnish.Tree.Assoc.{lookup, add}
use operations_debs_varnish.Xkey.Index.{
  Oc, xkey_insert, xkey_cb_remove, pool_new, remove_ocs, remove_oc, same_oc,
}
use operations_debs_varnish.Xkey.Purge.{purge_oc}
use operations_debs_varnish.Xkey.Tokens.{tokens, tokens_loop, xkey_tok, skip_blank, take_word}
use operations_debs_varnish.Xkey.Threads.{
  World, set_thread, Action, Step, insert, remove, purge_by, Steps, stays, next, inserts, removes,
}
use operations_debs_varnish.Xkey.Apart.{pairs_of, IsOnly, Steps-apart}
use operations_debs_varnish.Xkey.Simulates.{
  Known, DoesAll, Shows, known, pairs_next, forgets, visits_each, rests, then_does,
}
use operations_debs_varnish.Xkey.Bisimilar.{Steps-DoesAll, DoesAll-Steps}
use operations_debs_varnish.Tests.Given.{
  by_bytes, by_number, by_bytes-IsMap, by_number-IsMap, digest_of, objects,
}
use operations_debs_varnish.Tests.Keys.{StandsFor, Index, key_a, oc_a, one_index, one_index-Refines}

abbrev AWorld : Type 0
AWorld = World objects (by_bytes (List Oc)) (by_number (List Oc)) digest_of

abbrev AnAction : Type 0
AnAction = Action objects (by_bytes (List Oc)) (by_number (List Oc)) digest_of

abbrev AStep : AnAction → AWorld → AWorld → Type 0
AStep = Step objects (by_bytes (List Oc)) (by_number (List Oc)) digest_of

abbrev AllSteps : List AnAction → AWorld → AWorld → Type 0
AllSteps = Steps objects (by_bytes (List Oc)) (by_number (List Oc)) digest_of

-- Thread 0 is to insert object 5 under "a" and "b", and every other object 6 under "a".
abbrev start : AWorld
start = record {
  threads = λ t.
      if t == 0
      then record { objcore = 5; words = key_a ∷ codes "b" ∷ [] }
      else record { objcore = 6; words = key_a ∷ [] };
  index = one_index;
  store = [];
}

abbrev or_else : Option Index → Index → Index
or_else none x = x
or_else (some y) x = y

-- A world after the thread t has inserted the word d, with the words ws left
abbrev inserted_by : ℕ → Bytes → List Bytes → AWorld → AWorld
inserted_by t d ws w =
    set_thread objects (by_bytes (List Oc)) (by_number (List Oc)) digest_of t
      (record (w.threads t) { words = ws })
      (record w {
        index =
            or_else
              (xkey_insert (by_bytes (List Oc)) (by_number (List Oc)) (w.threads t).objcore d
                w.index)
              w.index;
      })

abbrev world1 : AWorld
world1 = inserted_by 0 key_a (codes "b" ∷ []) start

abbrev world2 : AWorld
world2 = inserted_by 1 key_a [] world1

abbrev world3 : AWorld
world3 = record world2 {
  index = xkey_cb_remove (by_bytes (List Oc)) (by_number (List Oc)) 4 world2.index;
}

abbrev world4 : AWorld
world4 = inserted_by 0 (codes "b") [] world3

abbrev acts : List AnAction
acts = insert 0 ∷ insert 1 ∷ remove 4 ∷ insert 0 ∷ []

inserts_word :
    (t : ℕ) (d : Bytes) (w w' : AWorld)
    → xkey_insert (by_bytes (List Oc)) (by_number (List Oc)) (w.threads t).objcore d w.index
      ≡ some w'.index
    → (ws : List Bytes) → (w.threads t).words ≡ d ∷ ws
    → w'
      ≡ set_thread objects
          (by_bytes (List Oc))
          (by_number (List Oc))
          digest_of
          t
          (record (w.threads t) { words = ws })
          (record w { index = w'.index })
    → AStep (insert t) w w'
inserts_word t d w w' e ws k q = inserts {t = t} {d = d} {ws = ws} {x = w'.index} k e q

all_steps : AllSteps acts start world4
unfolding xkey_insert xkey_cb_remove lookup pool_new add eq_bytes remove_ocs remove_oc same_oc
all_steps = next (inserts_word 0 key_a start world1 refl (codes "b" ∷ []) refl refl) (
    next (inserts_word 1 key_a world1 world2 refl [] refl refl) (
      next (removes {p = 4} {w = world2} {w' = world3} refl)
        (next (inserts_word 0 (codes "b") world3 world4 refl [] refl refl) stays)))

start-IsOnly :
    IsOnly objects
      (by_bytes (List Oc))
      (by_number (List Oc))
      (by_bytes-IsMap (List Oc))
      (by_number-IsMap (List Oc))
      digest_of
      0
      5
      start
start-IsOnly = (refl, λ u n. ground arith)

Steps-apart_example :
    (l' : List Oc) × StandsFor world4.index l'
    × (pairs_of 5 l' ++ [] ≡ (key_a, 5) ∷ (codes "b", 5) ∷ [])
Steps-apart_example =
    Steps-apart objects (by_bytes (List Oc)) (by_number (List Oc)) (by_bytes-IsMap (List Oc))
      (by_number-IsMap (List Oc)) digest_of 0 5 (tt, (tt, ((λ e. cc), (tt, tt)))) start-IsOnly
      all_steps one_index-Refines

abbrev ShowsIndex : Index → List (Bytes × ℕ) → Type 0
ShowsIndex =
    Shows objects digest_of (by_bytes (List Oc)) (by_number (List Oc)) (by_bytes-IsMap (List Oc))
      (by_number-IsMap (List Oc))

abbrev Expected : Type 0
Expected = Known objects digest_of (by_bytes (List Oc)) (by_number (List Oc))

abbrev known_of : AWorld → List (Bytes × ℕ) → Expected
known_of = known objects digest_of (by_bytes (List Oc)) (by_number (List Oc))

abbrev DoesAllOf : List AnAction → Expected → Expected → Type 0
DoesAllOf = DoesAll objects digest_of (by_bytes (List Oc)) (by_number (List Oc))

abbrev one_pair : List (Bytes × ℕ)
one_pair = (key_a, 4) ∷ []

one_index-Shows : ShowsIndex one_index one_pair
one_index-Shows = (oc_a ∷ [], one_index-Refines, refl)

Steps-DoesAll_example :
    (ps' : List (Bytes × ℕ)) × DoesAllOf acts (known_of start one_pair) (known_of world4 ps')
    × ShowsIndex world4.index ps'
Steps-DoesAll_example =
    Steps-DoesAll objects digest_of (by_bytes (List Oc)) (by_number (List Oc))
      (by_bytes-IsMap (List Oc)) (by_number-IsMap (List Oc)) all_steps one_index-Shows

-- Thread 0 inserts object 5, the key is purged, and object 4 leaves.
abbrev known1 : Expected
known1 = record (known_of start one_pair) {
  threads = λ u.
      if u == 0
      then record { objcore = 5; words = codes "b" ∷ [] }
      else (known_of start one_pair).threads u;
  known_pairs = (key_a, 4) ∷ (key_a, 5) ∷ [];
}

abbrev known2 : Expected
known2 = record known1 { store = 5 ∷ 4 ∷ [] }

abbrev known3 : Expected
known3 = record known2 { known_pairs = (key_a, 5) ∷ [] }

abbrev promised : List AnAction
promised = insert 0 ∷ purge_by false 101 (some key_a) ∷ remove 4 ∷ []

promised_all : DoesAllOf promised (known_of start one_pair) known3
unfolding eq_bytes purge_oc tokens tokens_loop xkey_tok skip_blank take_word
promised_all = then_does {s1 = known1} (pairs_next refl refl) (
    then_does {s1 = known2} (visits_each {ws = key_a ∷ []} (λ e. cc) refl refl)
      (then_does {s1 = known3} (forgets refl) rests))

DoesAll-Steps_example :
    (w' : AWorld) × (ps' : List (Bytes × ℕ)) × AllSteps promised start w'
    × (known3 ≡ known_of w' ps')
    × ShowsIndex w'.index ps'
DoesAll-Steps_example =
    DoesAll-Steps objects digest_of (by_bytes (List Oc)) (by_number (List Oc))
      (by_bytes-IsMap (List Oc)) (by_number-IsMap (List Oc)) promised_all one_index-Shows
