-- ===== src/Base/Strings.antt =====
-- C strings: the list of the bytes in front of the terminating NUL. `none` stands for a null pointer
-- where a string is optional.
use Prim.Native.Nat.{ℕ, ◌+◌, ◌≤◌}
use Prim.Native.Char.{code}
use Prim.Native.String.{String}
use mathlib.Core.Path.{◌≡◌, refl}
use mathlib.Core.Logic.{◌↔◌, ◌≢◌}
use mathlib.Core.Bool.{Bool, true, false, ◌&&◌, ◌||◌}
use mathlib.Core.List.{List, [], ◌∷◌, ◌++◌}
use native.Mathlib.Omega.{arith}
use operations_debs_varnish.Base.Tests.{leb, ◌==◌, if◌then◌else◌}
use operations_debs_varnish.Base.Lists.{length, All}

abbrev pub Bytes : Type 0
Bytes = List ℕ

abbrev pub codes : String → Bytes
codes String.[] = []
codes (String.◌∷◌ c s) = code c ∷ codes s

-- strcmp(a, b) == 0
unfoldable pub eq_bytes : Bytes → Bytes → Bool
eq_bytes [] [] = true
eq_bytes (x ∷ xs) (y ∷ ys) = x == y && eq_bytes xs ys
eq_bytes _ _ = false

pub eq_bytes_iff : (a b : Bytes) → (eq_bytes a b ≡ true) ↔ (a ≡ b)
unfolding eq_bytes
eq_bytes_iff (x ∷ a) (y ∷ b) = ground (arith, eq_bytes_iff a b)
eq_bytes_iff _ _ = ground arith

pub eq_bytes_refl : (a : Bytes) → eq_bytes a a ≡ true
eq_bytes_refl a = (eq_bytes_iff a a).1 refl

-- tolower() in the C locale
abbrev pub to_lower : ℕ → ℕ
to_lower c = if leb b'A' c && leb c b'Z' then c + 32 else c

-- strncasecmp(s, p, strlen(p)) == 0
unfoldable pub starts_with_nocase : Bytes → Bytes → Bool
starts_with_nocase s [] = true
starts_with_nocase [] (d ∷ p) = false
starts_with_nocase (c ∷ s) (d ∷ p) = to_lower c == to_lower d && starts_with_nocase s p

-- isspace() in the C locale.
abbrev pub is_space : ℕ → Bool
is_space c = c == b' ' || leb 9 c && leb c 13

-- while (isspace(*p)) p++;
unfoldable pub skip_space : Bytes → Bytes
skip_space [] = []
skip_space (c ∷ s) = if is_space c then skip_space s else c ∷ s

-- Where the first `c` of a string stands: not at all, or between the two parts.
pub data Cut : Type 0 where
  missing : Bytes → Cut
  found : Bytes → Bytes → Cut

abbrev pub before : ℕ → Cut → Cut
before x (missing s) = missing (x ∷ s)
before x (found s r) = found (x ∷ s) r

unfoldable pub cut : ℕ → Bytes → Cut
cut c [] = missing []
cut c (x ∷ s) = if x == c then found [] s else before x (cut c s)

abbrev pub Lacks : ℕ → Bytes → Type 0
Lacks c = All (λ x. x ≢ c)

pub length-skip_space-le : (s : Bytes) → length (skip_space s) ≤ length s
unfolding skip_space
length-skip_space-le [] = omega arith
length-skip_space-le (c ∷ s) = ground (arith, length-skip_space-le s)

-- The parts of a cut are the string, and the first does not hold the separator.
abbrev pub Cuts : ℕ → Bytes → Cut → Type 0
Cuts c s (missing a) = (s ≡ a) × Lacks c a
Cuts c s (found a r) = (s ≡ a ++ (c ∷ r)) × Lacks c a

before-Cuts : (c x : ℕ) (s : Bytes) (k : Cut) → x ≢ c → Cuts c s k → Cuts c (x ∷ s) (before x k)
before-Cuts c x s (missing a) ne (e, l) = (cc, (ne, l))
before-Cuts c x s (found a r) ne (e, l) = (cc, (ne, l))

pub cut-Cuts : (c : ℕ) (s : Bytes) → Cuts c s (cut c s)
unfolding cut
cut-Cuts c [] = (refl, tt)
cut-Cuts c (x ∷ s) = ground (arith, before-Cuts c x s (cut c s), cut-Cuts c s)

pub cut_found : (c : ℕ) (a r : Bytes) → Lacks c a → cut c (a ++ (c ∷ r)) ≡ found a r
unfolding cut
cut_found c [] r l = ground arith
cut_found c (x ∷ a) r l = ground (arith, cut_found c a r l.1)

pub cut_missing : (c : ℕ) (a : Bytes) → Lacks c a → cut c a ≡ missing a
unfolding cut
cut_missing c [] l = refl
cut_missing c (x ∷ a) l = ground (arith, cut_missing c a l.1)
