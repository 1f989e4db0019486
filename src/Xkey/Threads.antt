-- ===== src/Xkey/Threads.antt =====
-- The threads of varnishd in src/vmod_xkey.c: xkey_cb_insert() takes the mutex once for each word, and
-- xkey_cb_remove() and purge() once, so these are the steps that other threads may stand between.
use mathlib.Core.List.{cons≢nil}
use operations_debs_varnish.Base.{
  ℕ, List, [], ◌∷◌, ◌++◌, Option, none, some, ◌≡◌, refl, Bool, Bytes, ◌==◌, if◌then◌else◌,
}
use operations_debs_varnish.Tree.{Tree, IsMap}
use operations_debs_varnish.Xkey.Index.{Oc, Xkey, xkey_insert, xkey_cb_remove}
use operations_debs_varnish.Xkey.Purge.{Objects, purge}
use operations_debs_varnish.Xkey.Purged.{purge_pairs, purge-Refines}
use operations_debs_varnish.Xkey.Refines.{Refines, xkey_insert-Refines}
use operations_debs_varnish.Xkey.Remove.{others, xkey_cb_remove-Refines}
use operations_debs_varnish.Xkey.Headers.{Keys}

-- A thread in xkey_cb_insert(): its object, and the words of the headers that are still to be inserted.
pub record Thread : Type 0 where
  pub objcore : ℕ
  pub words : List Bytes

module _ (B : Objects) (H : Tree Bytes (List Oc)) (O : Tree ℕ (List Oc))
    (sha256 : Bytes → Bytes) where
  pub record World : Type 0 where
    pub threads : ℕ → Thread
    pub index : Xkey H O
    pub store : B.Store

  abbrev pub set_thread : ℕ → Thread → World → World
  set_thread t i w = record w { threads = λ u. if u == t then i else w.threads u }

  -- A thread, by its number, enters xkey_cb_insert() or inserts its next word; any thread removes an object,
  -- or purges.
  pub data Action : Type 0 where
    enter : (t : ℕ) (headers : List Bytes) (p : ℕ) → Action
    insert : (t : ℕ) → Action
    remove : (p : ℕ) → Action
    purge_by : (do_soft : Bool) (now : B.Time) (key : Option Bytes) → Action

  pub data Step : Action → World → World → Type 0 where
    enters :
        {t p : ℕ} {headers ws : List Bytes} {w w' : World}
        → (w.threads t).words ≡ []
        → Keys headers ws
        → w' ≡ set_thread t (record { objcore = p; words = ws }) w
        → Step (enter t headers p) w w'
    inserts :
        {t : ℕ} {d : Bytes} {ws : List Bytes} {x : Xkey H O} {w w' : World}
        → (w.threads t).words ≡ d ∷ ws
        → xkey_insert H O (w.threads t).objcore (sha256 d) w.index ≡ some x
        → w' ≡ set_thread t (record (w.threads t) { words = ws }) (record w { index = x })
        → Step (insert t) w w'
    removes :
        {p : ℕ} {w w' : World}
        → w' ≡ record w { index = xkey_cb_remove H O p w.index }
        → Step (remove p) w w'
    purges :
        {do_soft : Bool} {now : B.Time} {key : Option Bytes} {r : B.Store × ℕ} {w w' : World}
        → purge B H O sha256 do_soft now w.index key w.store ≡ some r
        → w' ≡ record w { store = r.0 }
        → Step (purge_by do_soft now key) w w'

  pub data Steps : List Action → World → World → Type 0 where
    stays : {w : World} → Steps [] w w
    next :
        {a : Action} {acts : List Action} {w w1 w2 : World}
        → Step a w w1
        → Steps acts w1 w2
        → Steps (a ∷ acts) w w2

  module _ (h : IsMap H) (o : IsMap O) where
    pub Step-Refines :
        {a : Action} {w w' : World} {l : List Oc}
        → Step a w w'
        → Refines H O h o w.index l
        → (l' : List Oc) × Refines H O h o w'.index l'
    Step-Refines {l = l} (enters idle k e) r = (l, rw e r)
    Step-Refines {w = w} {l = l} (inserts {t} {d} {ws} {x} i q e) r =
        let (x', e', r') =
          xkey_insert-Refines H O h o w.index l (w.threads t).objcore (sha256 d) r in
        let same : x ≡ x' = cc in
        let oc : Oc = record {
          address = w.index.next_address;
          digest = sha256 d;
          objcore = (w.threads t).objcore;
        } in
        (l ++ (oc ∷ []), rw e (rw same r'))
    Step-Refines {w = w} {l = l} (removes {p} e) r =
        (others p l, rw e (xkey_cb_remove-Refines H O h o p w.index l r))
    Step-Refines {l = l} (purges q e) r = (l, rw e r)

    -- purge() always reads its key to the end.
    purge_total :
        (do_soft : Bool) (now : B.Time) (key : Option Bytes) (x : Xkey H O) (l : List Oc)
        (s : B.Store)
        → Refines H O h o x l
        → (r : B.Store × ℕ) × (purge B H O sha256 do_soft now x key s ≡ some r)
    unfolding purge
    purge_total do_soft now none x l s r = ((s, 0), refl)
    purge_total do_soft now (some []) x l s r = ((s, 0), refl)
    purge_total do_soft now (some (c ∷ key)) x l s r =
        let (ws, e, q) = purge-Refines B H O h o sha256 do_soft now x l (c ∷ key) s r cons≢nil in
        (purge_pairs B H O h o sha256 do_soft now l ws (s, 0), q)

    -- Over trees that are finite maps and from an index that stands for a list of associations, however the
    -- insertions of single words, the removals and the purges of any number of threads follow each other:
    -- the index stands for a list of associations, and no call fails on it, neither the insertion of
    -- another word nor a purge.
    pub Steps-Refines :
        {acts : List Action} {w w' : World} {l : List Oc}
        → Steps acts w w'
        → Refines H O h o w.index l
        → (l' : List Oc) × Refines H O h o w'.index l'
          × ((p : ℕ) (d : Bytes) → (x : Xkey H O) × (xkey_insert H O p d w'.index ≡ some x))
          × ((do_soft : Bool) (now : B.Time) (key : Option Bytes)
              → (r : B.Store × ℕ) × (purge B H O sha256 do_soft now w'.index key w'.store ≡ some r))
    Steps-Refines {w = w} {l = l} stays r = (
      l,
      r,
      λ p d. let (x, e, k) = xkey_insert-Refines H O h o w.index l p d r in (x, e),
      λ do_soft now key. purge_total do_soft now key w.index l w.store r,
    )
    Steps-Refines (next s ss) r = Steps-Refines ss (Step-Refines s r).1
