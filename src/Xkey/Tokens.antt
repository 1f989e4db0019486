-- ===== src/Xkey/Tokens.antt =====
-- xkey_tok(): the words of a key or of a header.
use operations_debs_varnish.Base.{
  ℕ, zero, suc, ◌+◌, ◌<◌, ◌≤◌, Bool, true, false, List, [], ◌∷◌, ◌++◌, Option, none, some, ◌≡◌, ◌≢◌,
  refl, ap, ◌⊎◌, inl, inr, arith, ◌||◌, ◌==◌, if◌then◌else◌, Bool-cases, Bytes, length,
  length-append, All,
}

-- isblank() in the C locale
abbrev pub is_blank : ℕ → Bool
is_blank c = c == b' ' || c == b'\t'

unfoldable pub skip_blank : Bytes → Bytes
skip_blank [] = []
skip_blank (c ∷ s) = if is_blank c then skip_blank s else c ∷ s

-- while (*t != '\0' && !isblank(*t)) t++: the word, and what *e then points at
unfoldable pub take_word : Bytes → Bytes × Bytes
take_word [] = ([], [])
take_word (c ∷ s) = if is_blank c then ([], c ∷ s) else (c ∷ (take_word s).0, (take_word s).1)

-- *b and *e after the call; the result is whether the word is not empty.
unfoldable pub xkey_tok : Bytes → Bytes × Bytes
unfolding skip_blank take_word
xkey_tok s = take_word (skip_blank s)

-- while (xkey_tok(&sp, &ep)) { …; sp = ep; }: the words that the body sees, in order. `none` only if
-- the loop has run out of fuel.
unfoldable pub tokens_loop : ℕ → Bytes → Option (List Bytes)
tokens_loop zero s = none
tokens_loop (suc fuel) s = elim (xkey_tok s).0 [
  | [] ↦ some []
  | c ∷ w ↦ elim (tokens_loop fuel (xkey_tok s).1) [ none ↦ none | some ws ↦ some ((c ∷ w) ∷ ws) ]
]

unfoldable pub tokens : Bytes → Option (List Bytes)
unfolding tokens_loop xkey_tok
tokens s = tokens_loop (suc (length s)) s

abbrev pub HasNoBlank : Bytes → Type 0
HasNoBlank = All (λ c. is_blank c ≡ false)

-- A word: not empty, and with no blank in it.
pub record IsWord (w : Bytes) : Type 0 where
  pub filled : w ≢ []
  pub no_blank : HasNoBlank w

take_word-HasNoBlank : (s : Bytes) → HasNoBlank (take_word s).0
unfolding take_word
take_word-HasNoBlank [] = tt
take_word-HasNoBlank (c ∷ s) = elim (Bool-cases (is_blank c)) [
  | inl e ↦ rw e tt
  | inr e ↦ rw e (e, take_word-HasNoBlank s)
]

length-take_word : (s : Bytes) → length (take_word s).0 + length (take_word s).1 ≡ length s
unfolding take_word
length-take_word [] = omega arith
length-take_word (c ∷ s) = ground (arith, length-take_word s)

length-skip_blank-le : (s : Bytes) → length (skip_blank s) ≤ length s
unfolding skip_blank
length-skip_blank-le [] = omega arith
length-skip_blank-le (c ∷ s) = ground (arith, length-skip_blank-le s)

length-xkey_tok-le : (s : Bytes) → length (xkey_tok s).0 + length (xkey_tok s).1 ≤ length s
unfolding xkey_tok
length-xkey_tok-le s = omega (arith, length-take_word (skip_blank s), length-skip_blank-le s)

List-cases : (l : Bytes) → (l ≡ []) ⊎ ((d : ℕ) × (s : Bytes) × (l ≡ d ∷ s))
List-cases [] = inl refl
List-cases (d ∷ s) = inr (d, s, refl)

xkey_tok-HasNoBlank : (s : Bytes) → HasNoBlank (xkey_tok s).0
unfolding xkey_tok
xkey_tok-HasNoBlank s = take_word-HasNoBlank (skip_blank s)

tokens_loop_total :
    (fuel : ℕ) (s : Bytes)
    → length s < fuel
    → (ws : List Bytes) × (tokens_loop fuel s ≡ some ws) × All IsWord ws
unfolding tokens_loop
tokens_loop_total zero s h = absurd (omega arith)
tokens_loop_total (suc fuel) s h = elim (List-cases (xkey_tok s).0) [
  | inl e ↦ ([], rw (e, tokens_loop), tt)
  | inr (c, w, e) ↦
      let (ws, q, a) =
        tokens_loop_total fuel (xkey_tok s).1 (omega (arith, length-xkey_tok-le s, ap length e)) in
      (
        (c ∷ w) ∷ ws,
        rw (e, tokens_loop) (rw q),
        (record { filled = λ n. cc; no_blank = rw e at (xkey_tok-HasNoBlank s) }, a),
      )
]

-- Every text is read to its end, as words.
pub tokens_total : (s : Bytes) → (ws : List Bytes) × (tokens s ≡ some ws) × All IsWord ws
unfolding tokens
tokens_total s = tokens_loop_total (suc (length s)) s (omega arith)

abbrev pub AreBlank : Bytes → Type 0
AreBlank = All (λ c. is_blank c ≡ true)

-- A word and the blanks behind it, of which there is at least one.
pub record Piece : Type 0 where
  pub word : Bytes
  pub blank : ℕ
  pub blanks : Bytes

pub record IsPiece (p : Piece) : Type 0 where
  pub is_word : IsWord p.word
  pub first : is_blank p.blank ≡ true
  pub others : AreBlank p.blanks

-- Such pieces, and a text behind them
abbrev pub spaced : List Piece → Bytes → Bytes
spaced [] w = w
spaced (p ∷ ps) w = p.word ++ (p.blank ∷ (p.blanks ++ spaced ps w))

abbrev pub words : List Piece → List Bytes
words [] = []
words (p ∷ ps) = p.word ∷ words ps

skip_blank-AreBlank : (b s : Bytes) → AreBlank b → skip_blank (b ++ s) ≡ skip_blank s
unfolding skip_blank
skip_blank-AreBlank [] s a = refl
skip_blank-AreBlank (c ∷ b) s a = rw a.0 (skip_blank-AreBlank b s a.1)

skip_blank-word : (w s : Bytes) → IsWord w → skip_blank (w ++ s) ≡ w ++ s
unfolding skip_blank
skip_blank-word [] s h = absurd (h.filled refl)
skip_blank-word (c ∷ w) s h = rw h.no_blank.0

take_word-word :
    (w : Bytes) (c : ℕ) (s : Bytes)
    → HasNoBlank w
    → is_blank c ≡ true
    → take_word (w ++ (c ∷ s)) ≡ (w, c ∷ s)
unfolding take_word
take_word-word [] c s h e = rw e
take_word-word (d ∷ w) c s h e = rw (h.0, take_word-word w c s h.1 e)

xkey_tok-piece :
    (b : Bytes) (p : Piece) (s : Bytes)
    → AreBlank b
    → IsPiece p
    → xkey_tok (b ++ (p.word ++ (p.blank ∷ s))) ≡ (p.word, p.blank ∷ s)
unfolding xkey_tok
xkey_tok-piece b p s a h =
    rw
      (
        skip_blank-AreBlank b (p.word ++ (p.blank ∷ s)) a,
        skip_blank-word p.word (p.blank ∷ s) h.is_word,
      )
      (take_word-word p.word p.blank s h.is_word.no_blank h.first)

tokens_loop-word :
    (fuel : ℕ) (s w r : Bytes) (ws : List Bytes)
    → xkey_tok s ≡ (w, r)
    → w ≢ []
    → tokens_loop fuel r ≡ some ws
    → tokens_loop (suc fuel) s ≡ some (w ∷ ws)
unfolding tokens_loop
tokens_loop-word fuel s [] r ws e h q = absurd (h refl)
tokens_loop-word fuel s (c ∷ w) r ws e h q =
    let first : (xkey_tok s).0 ≡ c ∷ w = rw e in
    let others : tokens_loop fuel (xkey_tok s).1 ≡ some ws = rw e q in
    rw (first, tokens_loop) (rw others)

length-word : (w : Bytes) → IsWord w → 0 < length w
length-word [] h = absurd (h.filled refl)
length-word (c ∷ w) h = omega arith

-- A word that ends the text, if there is one
abbrev pub ending : Bytes → List Bytes
ending [] = []
ending (c ∷ w) = (c ∷ w) ∷ []

take_word_whole : (w : Bytes) → HasNoBlank w → take_word w ≡ (w, [])
unfolding take_word
take_word_whole [] h = refl
take_word_whole (c ∷ w) h = rw (h.0, take_word_whole w h.1)

skip_blank_whole : (w : Bytes) → HasNoBlank w → skip_blank w ≡ w
unfolding skip_blank
skip_blank_whole [] h = refl
skip_blank_whole (c ∷ w) h = rw h.0

xkey_tok_whole : (b w : Bytes) → AreBlank b → HasNoBlank w → xkey_tok (b ++ w) ≡ (w, [])
unfolding xkey_tok
xkey_tok_whole b w a h = rw (skip_blank-AreBlank b w a, skip_blank_whole w h) (take_word_whole w h)

tokens_loop_ended : (fuel : ℕ) → 0 < fuel → tokens_loop fuel [] ≡ some []
unfolding tokens_loop xkey_tok skip_blank take_word
tokens_loop_ended zero h = absurd (omega arith)
tokens_loop_ended (suc fuel) h = refl

tokens_loop-ending :
    (w b : Bytes) (fuel : ℕ)
    → AreBlank b
    → HasNoBlank w
    → length (b ++ w) < fuel
    → tokens_loop fuel (b ++ w) ≡ some (ending w)
tokens_loop-ending w b zero a h l = absurd (omega arith)
tokens_loop-ending [] b (suc fuel) a h l =
    let e = xkey_tok_whole b [] a tt in unfold tokens_loop in rw (e, tokens_loop)
tokens_loop-ending (c ∷ w) b (suc fuel) a h l =
    tokens_loop-word fuel _ (c ∷ w) [] [] (xkey_tok_whole b (c ∷ w) a h) (λ e. cc e)
      (tokens_loop_ended fuel (omega (arith, length-append b (c ∷ w))))

tokens_loop-spaced :
    (ps : List Piece) (w b : Bytes) (fuel : ℕ)
    → AreBlank b
    → All IsPiece ps
    → HasNoBlank w
    → length (b ++ (spaced ps w)) < fuel
    → tokens_loop fuel (b ++ spaced ps w) ≡ some (words ps ++ ending w)
tokens_loop-spaced ps w b zero a h n l = absurd (omega arith)
tokens_loop-spaced [] w b (suc fuel) a h n l = tokens_loop-ending w b (suc fuel) a n l
tokens_loop-spaced (p ∷ ps) w b (suc fuel) a h n l =
    tokens_loop-word fuel _ p.word _ (words ps ++ ending w)
      (xkey_tok-piece b p (p.blanks ++ spaced ps w) a h.0) h.0.is_word.filled
      (tokens_loop-spaced ps w (p.blank ∷ p.blanks) fuel (h.0.first, h.0.others) h.1 n
        (omega (
          arith,
          length-append b (spaced (p ∷ ps) w),
          length-append p.word (p.blank ∷ (p.blanks ++ spaced ps w)),
          length-word p.word h.0.is_word,
        )))

-- A text of words with blanks between them, with any blanks in front, and with blanks or nothing behind
-- the last word, is read as those words, in order: `ps` are the words with a blank behind them, and
-- `w` is the word that ends the text, or empty where there is none.
pub tokens-spaced :
    (b : Bytes) (ps : List Piece) (w : Bytes)
    → AreBlank b
    → All IsPiece ps
    → HasNoBlank w
    → tokens (b ++ spaced ps w) ≡ some (words ps ++ ending w)
unfolding tokens
tokens-spaced b ps w a h n =
    tokens_loop-spaced ps w b (suc (length (b ++ spaced ps w))) a h n (omega arith)
