-- ===== src/Kiosk/Codec.antt =====
-- What is encoded for the way between the site and a kiosk is decoded as it was.
use truck.Base.{
  ℕ, ◌+◌, ◌*◌, ◌/◌, ◌%◌, ◌<◌, ◌≡◌, refl, ap, ◌∙◌, Bool, true, false, some, List, [], ◌∷◌, arith,
  ◌==◌, All, Text,
}
use truck.Kiosk.Base64.{
  symbol, pad, b64encode, value, start, one, two, three, cons_byte, a2b_base64, b64decode,
}

abbrev pub IsByte : ℕ → Type 0
IsByte b = b < 256

value-symbol : (v : ℕ) → v < 64 → value (symbol v) ≡ some v
value-symbol v h = ground arith

symbol-pad : (v : ℕ) → v < 64 → (symbol v == pad) ≡ false
symbol-pad v h = ground arith

-- What the decoder does with each of the four characters of a group.
module _ (v : ℕ) (h : v < 64) (s : Text) where
  step-start :
      (strict : Bool)
      → a2b_base64 strict false start (symbol v ∷ s) ≡ a2b_base64 strict false (one v) s
  unfolding a2b_base64
  step-start true = rw (symbol-pad v h, value-symbol v h, a2b_base64) refl
  step-start false = rw (symbol-pad v h, value-symbol v h, a2b_base64) refl

  step-one :
      (strict : Bool) (l : ℕ)
      → a2b_base64 strict false (one l) (symbol v ∷ s)
        ≡ cons_byte (l * 4 + v / 16) (a2b_base64 strict false (two (v % 16) 0) s)
  unfolding a2b_base64
  step-one true l = rw (symbol-pad v h, value-symbol v h, a2b_base64) refl
  step-one false l = rw (symbol-pad v h, value-symbol v h, a2b_base64) refl

  step-two :
      (strict : Bool) (l : ℕ)
      → a2b_base64 strict false (two l 0) (symbol v ∷ s)
        ≡ cons_byte (l * 16 + v / 4) (a2b_base64 strict false (three (v % 4)) s)
  unfolding a2b_base64
  step-two true l = rw (symbol-pad v h, value-symbol v h, a2b_base64) refl
  step-two false l = rw (symbol-pad v h, value-symbol v h, a2b_base64) refl

  step-three :
      (strict : Bool) (l : ℕ)
      → a2b_base64 strict false (three l) (symbol v ∷ s)
        ≡ cons_byte (l * 64 + v) (a2b_base64 strict false start s)
  unfolding a2b_base64
  step-three true l = rw (symbol-pad v h, value-symbol v h, a2b_base64) refl
  step-three false l = rw (symbol-pad v h, value-symbol v h, a2b_base64) refl

-- The characters that give the bytes of a group, the bits that are left being `x` and `y`.
module _ (strict : Bool) (s : Text) where
  first_byte :
      (a x : ℕ)
      → a < 256
      → x < 16
      → a2b_base64 strict false start (symbol (a / 4) ∷ symbol (a % 4 * 16 + x) ∷ s)
        ≡ cons_byte a (a2b_base64 strict false (two x 0) s)
  first_byte a x h k =
      let byte : a / 4 * 4 + (a % 4 * 16 + x) / 16 ≡ a = omega (arith, h, k) in
      let left : (a % 4 * 16 + x) % 16 ≡ x = omega (arith, h, k) in
      step-start (a / 4) (omega (arith, h)) (symbol (a % 4 * 16 + x) ∷ s) strict
      ∙ step-one (a % 4 * 16 + x) (omega (arith, k)) s strict (a / 4)
      ∙ rw (byte, left) refl

  second_byte :
      (b y : ℕ)
      → b < 256
      → y < 4
      → a2b_base64 strict false (two (b / 16) 0) (symbol (b % 16 * 4 + y) ∷ s)
        ≡ cons_byte b (a2b_base64 strict false (three y) s)
  second_byte b y h k =
      let byte : b / 16 * 16 + (b % 16 * 4 + y) / 4 ≡ b = omega (arith, h, k) in
      let left : (b % 16 * 4 + y) % 4 ≡ y = omega (arith, h, k) in
      step-two (b % 16 * 4 + y) (omega (arith, k)) s strict (b / 16) ∙ rw (byte, left) refl

  third_byte :
      (c : ℕ)
      → c < 256
      → a2b_base64 strict false (three (c / 64)) (symbol (c % 64) ∷ s)
        ≡ cons_byte c (a2b_base64 strict false start s)
  third_byte c h =
      let byte : c / 64 * 64 + c % 64 ≡ c = omega (arith, h) in
      step-three (c % 64) (omega arith) s strict (c / 64) ∙ rw byte refl

a2b_none : (strict : Bool) → a2b_base64 strict false start [] ≡ some []
unfolding a2b_base64
a2b_none strict = refl

finish_one : (strict : Bool) → a2b_base64 strict false (two 0 0) (pad ∷ pad ∷ []) ≡ some []
unfolding a2b_base64
finish_one true = refl
finish_one false = refl

finish_two : (strict : Bool) → a2b_base64 strict false (three 0) (pad ∷ []) ≡ some []
unfolding a2b_base64
finish_two true = refl
finish_two false = refl

-- Both modes of the decoder give back the bytes that were encoded.
pub decode-b64encode :
    (strict : Bool) (bytes : List ℕ)
    → All IsByte bytes
    → b64decode strict (b64encode bytes) ≡ some bytes
unfolding b64decode b64encode
decode-b64encode strict [] h = a2b_none strict
decode-b64encode strict (a ∷ []) (h, u) =
    let e : a % 4 * 16 ≡ a % 4 * 16 + 0 = omega arith in
    rw e (
      first_byte strict (pad ∷ pad ∷ []) a 0 h (omega arith) ∙ ap (cons_byte a) (finish_one strict))
decode-b64encode strict (a ∷ b ∷ []) (h, (k, u)) =
    let e : b % 16 * 4 ≡ b % 16 * 4 + 0 = omega arith in
    rw e (
      first_byte strict (symbol (b % 16 * 4 + 0) ∷ pad ∷ []) a (b / 16) h (omega (arith, k))
      ∙ ap (cons_byte a) (second_byte strict (pad ∷ []) b 0 k (omega arith))
      ∙ ap (λ o. cons_byte a (cons_byte b o)) (finish_two strict))
decode-b64encode strict (a ∷ b ∷ c ∷ bytes) (h, (k, (l, u))) =
    let rest = b64encode bytes in
    first_byte strict (symbol (b % 16 * 4 + c / 64) ∷ symbol (c % 64) ∷ rest) a (b / 16) h
      (omega (arith, k))
    ∙ ap (cons_byte a) (second_byte strict (symbol (c % 64) ∷ rest) b (c / 64) k (omega (arith, l)))
    ∙ ap (λ o. cons_byte a (cons_byte b o)) (third_byte strict rest c l)
    ∙ ap (λ o. cons_byte a (cons_byte b (cons_byte c o))) (decode-b64encode strict bytes u)
