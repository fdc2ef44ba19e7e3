-- ===== src/Validators/Cpf.antt =====
-- The check digits of a CPF (employee_truck_control/validators.py).
use truck.Base.{
  ℕ, zero, suc, ◌+◌, ◌*◌, ◌%◌, ◌≡◌, refl, sym, ap, ◌∙◌, true, not, ◌&&◌, Option, none, some, inl,
  inr, List, [], ◌∷◌, ◌++◌, arith, Text, truthy, length, take, get_elem?, ◌==◌, ==_iff,
  Option-cases, and_true,
}
use mathlib.Core.Bool.{false≢true}
use truck.Validators.{
  total, check_digit, position_ok, all_same, digits, characters, numbers, cpf_digits_ok,
  validate_cpf,
}

total-take : (n : ℕ) (ds : List ℕ) → total n (take n ds) ≡ total n ds
total-take zero ds = refl
total-take (suc n) [] = refl
total-take (suc n) (d ∷ ds) = ap (λ k. d * suc (suc n) + k) (total-take n ds)

-- The check digit depends on the digits before it.
check_digit-take :
    (n : ℕ) (ds es : List ℕ) → take n ds ≡ take n es → check_digit n ds ≡ check_digit n es
unfolding check_digit
check_digit-take n ds es h =
    ap (λ k. (k * 10 % 11) % 10) (sym (total-take n ds) ∙ ap (total n) h ∙ total-take n es)

position_digit :
    (n : ℕ) (ds : List ℕ) → position_ok n ds ≡ true → get_elem? ds n ≡ some (check_digit n ds)
position_digit n ds h = elim (Option-cases (get_elem? ds n)) [
  | inl e ↦ absurd (false≢true (rw e at h))
  | inr (d, e) ↦
      let q : (check_digit n ds == d) ≡ true = rw e at h in
      e ∙ ap some (sym ((==_iff (check_digit n ds) d).0 q))
]

abbrev snoc : List ℕ → Option ℕ → List ℕ
snoc l none = l
snoc l (some x) = l ++ (x ∷ [])

snoc_cons : (x : ℕ) (l : List ℕ) (o : Option ℕ) → snoc (x ∷ l) o ≡ x ∷ snoc l o
snoc_cons x l none = refl
snoc_cons x l (some y) = refl

take-suc : (n : ℕ) (xs : List ℕ) → take (suc n) xs ≡ snoc (take n xs) (get_elem? xs n)
take-suc zero [] = refl
take-suc zero (x ∷ xs) = refl
take-suc (suc n) [] = refl
take-suc (suc n) (x ∷ xs) =
    ap (λ l. x ∷ l) (take-suc n xs) ∙ sym (snoc_cons x (take n xs) (get_elem? xs n))

-- A right check digit is determined by the digits before it.
next_digit :
    (n : ℕ) (xs ys : List ℕ)
    → position_ok n xs ≡ true
    → position_ok n ys ≡ true
    → take n xs ≡ take n ys
    → take (suc n) xs ≡ take (suc n) ys
next_digit n xs ys p q h =
    let g : get_elem? xs n ≡ get_elem? ys n =
      position_digit n xs p ∙ ap some (check_digit-take n xs ys h) ∙ sym (position_digit n ys q) in
    take-suc n xs ∙ rw (h, g) (sym (take-suc n ys))

take-length : (n : ℕ) (xs : List ℕ) → length xs ≡ n → take n xs ≡ xs
take-length zero [] h = refl
take-length zero (x ∷ xs) h = absurd (omega (arith, h))
take-length (suc n) [] h = refl
take-length (suc n) (x ∷ xs) h = ap (λ l. x ∷ l) (take-length n xs (omega (arith, h)))

module _ (decimal : ℕ → Option ℕ) where
  -- The conditions on the digits of a CPF.
  accepted :
      (value : Text)
      → truthy value ≡ true
      → validate_cpf decimal value ≡ true
      → (length (numbers decimal (digits decimal value)) ≡ 11)
        × (position_ok 9 (numbers decimal (digits decimal value)) ≡ true)
        × (position_ok 10 (numbers decimal (digits decimal value)) ≡ true)
  unfolding validate_cpf
  accepted value t v =
      let ds = digits decimal value in
      let h : cpf_digits_ok decimal ds ≡ true = rw t at v in
      let (rest, ten) =
        and_true
          (length (numbers decimal ds) == 11
            && not (all_same (characters decimal ds))
            && position_ok 9 (numbers decimal ds))
          (position_ok 10 (numbers decimal ds)) h in
      let (front, nine) =
        and_true (length (numbers decimal ds) == 11 && not (all_same (characters decimal ds)))
          (position_ok 9 (numbers decimal ds)) rest in
      let (eleven, differ) =
        and_true (length (numbers decimal ds) == 11) (not (all_same (characters decimal ds)))
          front in
      ((==_iff (length (numbers decimal ds)) 11).0 eleven, nine, ten)

  -- Two texts that are accepted as a CPF, neither of them empty, have the same eleven digits if they
  -- have the same first nine, whatever punctuation they have.
  pub validate_cpf-eq :
      (v w : Text)
      → truthy v ≡ true
      → truthy w ≡ true
      → validate_cpf decimal v ≡ true
      → validate_cpf decimal w ≡ true
      → take 9 (numbers decimal (digits decimal v)) ≡ take 9 (numbers decimal (digits decimal w))
      → numbers decimal (digits decimal v) ≡ numbers decimal (digits decimal w)
  validate_cpf-eq v w tv tw av aw h =
      let xs = numbers decimal (digits decimal v) in
      let ys = numbers decimal (digits decimal w) in
      let (lx, x9, x10) = accepted v tv av in
      let (ly, y9, y10) = accepted w tw aw in
      let ten : take 10 xs ≡ take 10 ys = next_digit 9 xs ys x9 y9 h in
      let all : take 11 xs ≡ take 11 ys = next_digit 10 xs ys x10 y10 ten in
      sym (take-length 11 xs lx) ∙ all ∙ take-length 11 ys ly
