-- ===== src/Tests/Copies.antt =====
-- The theorems on vmod_copy() of src/vmod_header.c at concrete inputs.
use mathlib.Core.List.{append-nil}
use operations_debs_varnish.Base.{
  ℕ, zero, suc, ◌≤◌, ◌<◌, ◌≡◌, ◌≢◌, refl, ap, arith, true, false, List, [], ◌∷◌, ◌++◌, map, take,
  length, Option, none, some, Bytes, codes, starts_with_nocase, ltb, ◌==◌, if◌then◌else◌,
}
use operations_debs_varnish.Header.{Slot, Http, copy_to, from, skip_blanks}
use operations_debs_varnish.Header.Append.{Varnishd, Messages, header_copy}
use operations_debs_varnish.Header.Loop.{texts, Fits, IsAppending, IsRoomy}
use operations_debs_varnish.Header.Copied.{header_copy_lem, header_copy_total}
use operations_debs_varnish.Header.Itself.{header_copy_itself}

abbrev joined : List (Option Bytes) → Bytes
joined [] = []
joined (none ∷ ts) = joined ts
joined (some t ∷ ts) = t ++ joined ts

abbrev slot : Bytes → Slot
slot b = record { text = some b; flags = 0 }

abbrev added_to : Bytes → Http → Http
added_to b hp =
    if ltb hp.nhd (length hp.hd)
    then record { hd = copy_to hp.nhd (slot b) hp.hd; nhd = suc hp.nhd }
    else hp

-- A workspace that never ends
abbrev varnishd : Varnishd
varnishd = record {
  Ws = Unit {0};
  string = λ w name args ws. (tt, some (name ++ (b' ' ∷ joined args)));
  set_header = added_to;
}

length-copy_to : (v : ℕ) (x : Slot) (hd : List Slot) → length (copy_to v x hd) ≡ length hd
unfolding copy_to
length-copy_to v x [] = refl
length-copy_to zero x (s ∷ ss) = refl
length-copy_to (suc v) x (s ∷ ss) = ap suc (length-copy_to v x ss)

abbrev all_texts : ℕ → List Slot → List (Option Bytes)
all_texts n hd = map (λ (s : Slot). s.text) (take n hd)

texts-copy_to :
    (v : ℕ) (x : Slot) (hd : List Slot)
    → v < length hd
    → all_texts (suc v) (copy_to v x hd) ≡ all_texts v hd ++ (x.text ∷ [])
unfolding copy_to
texts-copy_to v x [] h = absurd (omega arith)
texts-copy_to zero x (s ∷ ss) h = refl
texts-copy_to (suc v) x (s ∷ ss) h = ap (λ l. s.text ∷ l) (texts-copy_to v x ss (omega arith))

room-ltb : (n k : ℕ) → n < k → ltb n k ≡ true
room-ltb n k h = ground arith

full-ltb : (n k : ℕ) → k ≤ n → ltb n k ≡ false
full-ltb n k h = ground arith

added_to-length : (b : Bytes) (hp : Http) → length (added_to b hp).hd ≡ length hp.hd
added_to-length b hp = ground (arith, length-copy_to hp.nhd (slot b) hp.hd)

varnishd-IsAppending : IsAppending varnishd
varnishd-IsAppending = record {
  kept = added_to-length;
  counted = λ b hp h. rw (room-ltb hp.nhd (length hp.hd) h) (omega arith);
  appended =
      λ b hp h. rw (room-ltb hp.nhd (length hp.hd) h) (texts-copy_to hp.nhd (slot b) hp.hd h);
  full = λ b hp h. rw (full-ltb hp.nhd (length hp.hd) h) refl;
}

varnishd-IsRoomy : IsRoomy varnishd
varnishd-IsRoomy w name p ws = ap (λ l. some (name ++ (b' ' ∷ l))) (append-nil p)

-- The request has two headers Via and one of another name; every other message has one header.
abbrev via : Bytes
via = codes "Via:"

abbrev empty_slots : List Slot
empty_slots = slot [] ∷ slot [] ∷ slot [] ∷ []

abbrev a_task : Messages Bytes (λ re s. false) some varnishd
a_task = record {
  http = λ w.
      if w == 0
      then record {
        hd = slot (codes "Via: a") ∷ slot (codes "Age: 1") ∷ slot (codes "via:b") ∷ empty_slots;
        nhd = 3;
      }
      else record { hd = slot (codes "Age: 2") ∷ empty_slots; nhd = 1 };
  ws = tt;
  lost = [];
}

header_copy_lem_example :
    (m' : Messages Bytes (λ re s. false) some varnishd) × (header_copy Bytes
        (λ re s. false)
        some
        varnishd
        0
        via
        1
        (codes "X:")
        a_task
      ≡ some m')
    × (texts (m'.http 1) ≡ some (codes "Age: 2") ∷ some (codes "X: a") ∷ some (codes "X: b") ∷ [])
    × ((v : ℕ) → v ≢ 1 → m'.http v ≡ a_task.http v)
    × (m'.lost ≡ [])
unfolding starts_with_nocase skip_blanks from
header_copy_lem_example =
    header_copy_lem Bytes (λ re s. false) some varnishd varnishd-IsAppending varnishd-IsRoomy 0 via
      1 (codes "X:") a_task (ground arith) (omega arith) (omega arith)

header_copy_total_example :
    (m' : Messages Bytes (λ re s. false) some varnishd) × (header_copy Bytes
        (λ re s. false)
        some
        varnishd
        0
        via
        0
        (codes "X:")
        a_task
      ≡ some m')
    × Fits (m'.http 0)
header_copy_total_example =
    header_copy_total Bytes (λ re s. false) some varnishd varnishd-IsAppending 0 via 0 (codes "X:")
      a_task (omega arith)

header_copy_itself_example :
    (m' : Messages Bytes (λ re s. false) some varnishd) × (header_copy Bytes
        (λ re s. false)
        some
        varnishd
        0
        via
        0
        via
        a_task
      ≡ some m')
    × ((m'.http 0).nhd ≡ 6)
unfolding starts_with_nocase skip_blanks from
header_copy_itself_example =
    header_copy_itself Bytes (λ re s. false) some varnishd varnishd-IsAppending varnishd-IsRoomy via
      0 a_task (codes "a") (codes "b" ∷ []) (omega arith) refl
