-- ===== src/Bodyaccess/Lines.antt =====
-- The lines that src/vmod_bodyaccess.c writes: a body cut at the length that was asked for.
use mathlib.Core.List.{flatten, append-nil}
use operations_debs_varnish.Base.{
  ℕ, zero, suc, ◌+◌, ◌-◌, ◌%◌, ◌^◌, ◌<◌, ◌≤◌, ◌≡◌, refl, ◌∙◌, ◌⊎◌, inl, inr, Bool, true, false,
  List, [], ◌∷◌, ◌++◌, map, none, some, ltb, if◌then◌else◌, Bytes, length, take, drop,
  take-append-drop, length-take, length-drop, take_all, drop_all, ◌&&◌, arith, Bool-cases,
}
use operations_debs_varnish.Base.Int.{negsuc}
use operations_debs_varnish.Bodyaccess.Log.{
  to_size, line_size, log_loop, buffer_size, bodyaccess_log,
}

-- No piece is empty, none is longer than the limit, if there is one, and only the last may be shorter.
abbrev pub IsCut : ℕ → List Bytes → Type 0
IsCut lim [] = Unit {0}
IsCut lim (c ∷ []) = (0 < length c) × ((lim ≡ 0) ⊎ (length c ≤ lim))
IsCut lim (c ∷ d ∷ cs) = (0 < lim) × (length c ≡ lim) × IsCut lim (d ∷ cs)

line_size_bounds : (lim len : ℕ) → 0 < len → (0 < line_size lim len) × (line_size lim len ≤ len)
unfolding line_size
line_size_bounds lim len h = ground arith

abbrev cuts : ℕ → ℕ → Bool
cuts lim len = ltb lim len && ltb 0 lim

log_loop-cons :
    (capacity lim : ℕ) (pfx : Bytes) (fuel size c : ℕ) (str : Bytes) (lines : List Bytes)
    → line_size lim (length (c ∷ str)) ≡ size
    → length pfx + size ≤ capacity
    → log_loop capacity lim pfx fuel (drop size (c ∷ str)) ≡ some lines
    → log_loop capacity lim pfx (suc fuel) (c ∷ str) ≡ some ((pfx ++ take size (c ∷ str)) ∷ lines)
unfolding log_loop
log_loop-cons capacity lim pfx fuel size c str lines e h r =
    let fits : ltb capacity (length pfx + size) ≡ false = ground arith in rw (e, fits, r)

log_loop-nil :
    (capacity lim : ℕ) (pfx : Bytes) (fuel : ℕ) → log_loop capacity lim pfx fuel [] ≡ some []
unfolding log_loop
log_loop-nil capacity lim pfx fuel = refl

IsCut-cons :
    (lim : ℕ) (c : Bytes) (cs : List Bytes)
    → 0 < lim
    → length c ≡ lim
    → IsCut lim cs
    → IsCut lim (c ∷ cs)
IsCut-cons lim c [] p e i = (omega arith, inr (omega arith))
IsCut-cons lim c (d ∷ cs) p e i = (p, e, i)

-- With room for the longest line, and as much fuel as there are bytes, the loop cuts the text.
log_loop_lem :
    (capacity lim : ℕ) (pfx : Bytes) (fuel : ℕ) (str : Bytes)
    → length str ≤ fuel
    → (length pfx + length str ≤ capacity) ⊎ ((0 < lim) × (length pfx + lim ≤ capacity))
    → (cs : List Bytes) × (log_loop capacity lim pfx fuel str ≡ some (map (λ c. pfx ++ c) cs))
      × (flatten cs ≡ str)
      × IsCut lim cs
unfolding flatten
log_loop_lem capacity lim pfx fuel [] f h = ([], log_loop-nil capacity lim pfx fuel, refl, tt)
log_loop_lem capacity lim pfx zero (c ∷ str) f h = absurd (omega arith)
log_loop_lem capacity lim pfx (suc fuel) (c ∷ str) f h =
    elim (Bool-cases (cuts lim (length (c ∷ str)))) [
      | inl q ↦
          let size : line_size lim (length (c ∷ str)) ≡ lim = unfold line_size in rw q refl in
          let room : length pfx + lim ≤ capacity = ground arith in
          let shorter = length-drop lim (c ∷ str) in
          let (cs, e, j, i) =
            log_loop_lem capacity lim pfx fuel (drop lim (c ∷ str)) (ground (arith, shorter))
              (inr (ground arith, room)) in
          (
            take lim (c ∷ str) ∷ cs,
            log_loop-cons capacity lim pfx fuel lim c str _ size room e,
            rw j (take-append-drop lim (c ∷ str)),
            IsCut-cons lim _ cs (ground arith) (length-take lim (c ∷ str) (ground arith)) i,
          )
      | inr q ↦
          let size : line_size lim (length (c ∷ str)) ≡ length (c ∷ str) =
            unfold line_size in rw q refl in
          let done : log_loop capacity lim pfx fuel (drop (length (c ∷ str)) (c ∷ str)) ≡ some [] =
            rw (drop_all (c ∷ str)) (log_loop-nil capacity lim pfx fuel) in
          (
            (c ∷ str) ∷ [],
            log_loop-cons capacity lim pfx fuel (length (c ∷ str)) c str [] size (ground arith) done
                ∙ rw (take_all (c ∷ str)) refl,
            append-nil (c ∷ str),
            (omega arith, ground arith),
          )
    ]

-- The length of the longest line, without the prefix.
abbrev pub longest : ℕ → ℕ → ℕ
longest lim len = if ltb 0 lim then lim else len

-- Where the sum of the sizes fits a size_t and malloc() gives the buffer, a piece is logged to its end
-- without a write outside the buffer.
pub bodyaccess_log_lem :
    (malloc : ℕ → Bool) (lim : ℕ) (pfx str : Bytes)
    → ((n : ℕ) → n < 2 ^ 64 → malloc n ≡ true)
    → longest lim (length str) + length pfx < 2 ^ 64
    → (cs : List Bytes) × (bodyaccess_log malloc lim pfx str ≡ some (map (λ c. pfx ++ c) cs))
      × (flatten cs ≡ str)
      × IsCut lim cs
unfolding bodyaccess_log
bodyaccess_log_lem malloc lim pfx str m fits =
    let size : buffer_size lim pfx str ≡ longest lim (length str) + length pfx =
      unfold buffer_size in omega (arith, fits) in
    let (cs, e, j, i) =
      log_loop_lem (longest lim (length str) + length pfx) lim pfx (length str) str (omega arith)
        (ground arith) in
    (cs, rw (size, m _ fits) e, j, i)

log_loop_overflow :
    (capacity lim : ℕ) (pfx : Bytes) (fuel c : ℕ) (str : Bytes)
    → capacity < length pfx + line_size lim (length (c ∷ str))
    → log_loop capacity lim pfx (suc fuel) (c ∷ str) ≡ none
unfolding log_loop
log_loop_overflow capacity lim pfx fuel c str h =
    let over : ltb capacity (length pfx + line_size lim (length (c ∷ str))) ≡ true = ground arith in
    rw over

-- What malloc() is asked for where the limit was negative.
buffer_size_negative :
    (k : ℕ) (pfx str : Bytes)
    → k < 2 ^ 63
    → length pfx < 2 ^ 63
    → buffer_size (to_size (negsuc k)) pfx str ≡ (2 ^ 64 - 1 - k + length pfx) % 2 ^ 64
unfolding buffer_size to_size
buffer_size_negative k pfx str small short = ground arith

line_size_negative :
    (k len : ℕ) → k < 2 ^ 63 → len < 2 ^ 63 → line_size (to_size (negsuc k)) len ≡ len
unfolding line_size to_size
line_size_negative k len small few = ground arith

-- A limit that was negative wraps around: the buffer is then too small, or too large for malloc().
pub bodyaccess_log_negative :
    (malloc : ℕ → Bool) (k : ℕ) (pfx str : Bytes)
    → ((n : ℕ) → 2 ^ 63 ≤ n → malloc n ≡ false)
    → k < 2 ^ 63
    → length pfx < 2 ^ 63
    → 0 < length str
    → length str < 2 ^ 63
    → bodyaccess_log malloc (to_size (negsuc k)) pfx str ≡ none
unfolding bodyaccess_log
bodyaccess_log_negative malloc k pfx [] m small short filled few = absurd (omega arith)
bodyaccess_log_negative malloc k pfx (c ∷ str) m small short filled few =
    let asked = buffer_size_negative k pfx (c ∷ str) small short in
    let line = line_size_negative k (length (c ∷ str)) small few in
    elim (Bool-cases (ltb (length pfx) (suc k))) [
      | inl q ↦
          let large : 2 ^ 63 ≤ buffer_size (to_size (negsuc k)) pfx (c ∷ str) =
            ground (arith, asked) in
          rw (m _ large)
      | inr q ↦
          let over =
            log_loop_overflow (buffer_size (to_size (negsuc k)) pfx (c ∷ str)) (to_size (negsuc k))
              pfx (length str) c str (ground (arith, asked, line)) in
          ground (arith, over)
    ]
