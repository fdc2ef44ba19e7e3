-- ===== src/Kiosk/Base64.antt =====
-- `base64.b64encode` and `base64.b64decode` of the standard library, with which the site
-- (biometric/api_views.py) and the kiosk (kiosk_agent.py) send each other templates. A byte is a number
-- below 256, and a text is its code points.
use truck.Base.{
  ℕ, suc, zero, ◌+◌, ◌-◌, ◌*◌, ◌/◌, ◌%◌, Bool, true, false, not, ◌&&◌, Option, none, some, List, [],
  ◌∷◌, ltb, leb, ◌==◌, if◌then◌else◌, Text,
}

-- The character of six bits.
abbrev pub symbol : ℕ → ℕ
symbol v =
    if ltb v 26
    then v + 65
    else if ltb v 52
    then v + 71
    else if ltb v 62
    then v - 4
    else if v == 62
    then 43
    else 47

abbrev pub pad : ℕ
pad = 61

unfoldable pub b64encode : List ℕ → Text
b64encode [] = []
b64encode (a ∷ []) = symbol (a / 4) ∷ symbol (a % 4 * 16) ∷ pad ∷ pad ∷ []
b64encode (a ∷ b ∷ []) =
    symbol (a / 4) ∷ symbol (a % 4 * 16 + b / 16) ∷ symbol (b % 16 * 4) ∷ pad ∷ []
b64encode (a ∷ b ∷ c ∷ bytes) =
    symbol (a / 4)
    ∷ symbol (a % 4 * 16 + b / 16)
    ∷ symbol (b % 16 * 4 + c / 64)
    ∷ symbol (c % 64)
    ∷ b64encode bytes

-- The six bits of a character.
abbrev pub value : ℕ → Option ℕ
value c =
    if leb 65 c && leb c 90
    then some (c - 65)
    else if leb 97 c && leb c 122
    then some (c - 71)
    else if leb 48 c && leb c 57
    then some (c + 4)
    else if c == 43
    then some 62
    else if c == 47
    then some 63
    else none

-- Where the decoder stands in a group of four, with the bits that are left; behind two characters also
-- the padding so far.
pub data Quad : Type 0 where
  start : Quad
  one three : ℕ → Quad
  two : ℕ → ℕ → Quad

-- What one character does: the decoder goes on, with a byte or without one, refuses, or ends.
pub data Move : Type 0 where
  refuse finish : Move
  skip : Bool → Quad → Move
  emit : ℕ → Quad → Move

abbrev pub digit : Quad → ℕ → Move
digit start v = skip false (one v)
digit (one l) v = emit (l * 4 + v / 16) (two (v % 16) 0)
digit (two l pads) v = emit (l * 16 + v / 4) (three (v % 4))
digit (three l) v = emit (l * 64 + v) start

abbrev pub is_empty : Text → Bool
is_empty [] = true
is_empty (c ∷ s) = false

-- A `=`. In the strict mode nothing may follow the padding, and no group starts with it.
abbrev pub padding : Bool → Quad → Bool → Move
padding strict start last = if strict then refuse else skip true start
padding strict (one l) last = skip true (one l)
padding strict (two l zero) last = skip true (two l 1)
padding strict (two l (suc n)) last = if strict && not last then refuse else finish
padding strict (three l) last = if strict && not last then refuse else finish

-- A character that is not in the alphabet is skipped, unless the mode is strict.
abbrev pub other : Bool → Bool → Quad → Move
other strict padded q = if strict then refuse else skip padded q

-- In the lax mode the flag is not looked at.
abbrev pub symbol_move : Bool → Bool → Quad → Option ℕ → Move
symbol_move strict padded q none = other strict padded q
symbol_move strict padded q (some v) = if strict && padded then refuse else digit q v

abbrev pub move : Bool → Bool → Quad → ℕ → Bool → Move
move strict padded q c last =
    if c == pad then padding strict q last else symbol_move strict padded q (value c)

abbrev pub cons_byte : ℕ → Option (List ℕ) → Option (List ℕ)
cons_byte b none = none
cons_byte b (some bytes) = some (b ∷ bytes)

-- At the end of the text a group must be complete.
abbrev pub at_end : Quad → Option (List ℕ)
at_end start = some []
at_end (one l) = none
at_end (two l pads) = none
at_end (three l) = none

unfoldable pub a2b_base64 : Bool → Bool → Quad → Text → Option (List ℕ)
a2b_base64 strict padded q [] = at_end q
a2b_base64 strict padded q (c ∷ s) = elim (move strict padded q c (is_empty s)) [
  | refuse ↦ none
  | finish ↦ some []
  | skip padded' q' ↦ a2b_base64 strict padded' q' s
  | emit b q' ↦ cons_byte b (a2b_base64 strict false q' s)
]

-- `b64decode(s, validate=strict)`
unfoldable pub b64decode : Bool → Text → Option (List ℕ)
unfolding a2b_base64
b64decode strict s = a2b_base64 strict false start s
