-- ===== src/Base/Texts.antt =====
-- Texts as lists of code points.
use Prim.Native.Nat.{ℕ}
use Prim.Native.Char.{code}
use Prim.Native.String.{String}
use mathlib.Core.Bool.{Bool, true, false, ◌&&◌, ◌||◌}
use mathlib.Core.List.{List, [], ◌∷◌}
use mathlib.Core.Path.{◌≡◌, refl}
use native.Mathlib.Omega.{arith}
use truck.Base.Tests.{◌==◌, leb, if◌then◌else◌}

abbrev pub Text : Type 0
Text = List ℕ

abbrev pub codes : String → Text
codes String.[] = []
codes (String.◌∷◌ c s) = code c ∷ codes s

-- `a == b` on texts.
abbrev pub text_eq : Text → Text → Bool
text_eq [] [] = true
text_eq [] (d ∷ t) = false
text_eq (c ∷ s) [] = false
text_eq (c ∷ s) (d ∷ t) = c == d && text_eq s t

pub text_eq-eq : (s t : Text) → text_eq s t ≡ true → s ≡ t
text_eq-eq [] [] h = refl
text_eq-eq [] (d ∷ t) h = ground arith
text_eq-eq (c ∷ s) [] h = ground arith
text_eq-eq (c ∷ s) (d ∷ t) h = ground (arith, text_eq-eq s t)

pub text_eq_refl : (s : Text) → text_eq s s ≡ true
text_eq_refl [] = refl
text_eq_refl (c ∷ s) = ground (arith, text_eq_refl s)

-- The code points that `str.isspace` accepts.
abbrev pub is_space : ℕ → Bool
is_space c =
    (leb 9 c && leb c 13)
    || (leb 28 c && leb c 32)
    || c == 0x85
    || c == 0xa0
    || c == 0x1680
    || (leb 0x2000 c && leb c 0x200a)
    || (leb 0x2028 c && leb c 0x2029)
    || c == 0x202f
    || c == 0x205f
    || c == 0x3000

-- `s.lstrip()`, `s.rstrip()` and `s.strip()`.
abbrev pub lstrip : Text → Text
lstrip [] = []
lstrip (c ∷ s) = elim (is_space c) [ true ↦ lstrip s | false ↦ c ∷ s ]

abbrev pub rstrip : Text → Text
rstrip [] = []
rstrip (c ∷ s) = elim (rstrip s) [ [] ↦ if is_space c then [] else c ∷ [] | d ∷ t ↦ c ∷ d ∷ t ]

abbrev pub strip : Text → Text
strip s = rstrip (lstrip s)

-- `s.split(',')[0]`, for a separator of one character.
abbrev pub before : ℕ → Text → Text
before sep [] = []
before sep (c ∷ s) = elim (c == sep) [ true ↦ [] | false ↦ c ∷ before sep s ]

-- Truth of a text: it is not empty.
abbrev pub truthy : Text → Bool
truthy [] = false
truthy (c ∷ s) = true
