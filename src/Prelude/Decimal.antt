-- ===== src/Prelude/Decimal.antt =====
-- A number in decimal, as `str(n)` writes it.
use Prim.Native.String
use xarness.Prelude.{
  any, nonempty, Bool, true, ◌||◌, ◌*◌, ◌-◌, ◌<◌, ap, ◌∙◌, false, inl, inr, Bool-cases, arith,
  contains_code, String, eqb, ℕ, zero, suc, ◌+◌, ◌/◌, ◌%◌, ◌≡◌, refl, [], ◌∷◌, Text, codes, ltb,
  if◌then◌else◌,
}

-- The digits of `n` before `tail`; the fuel bounds their number.
decimal_from : ℕ → ℕ → Text → Text
decimal_from zero n tail = tail
decimal_from (suc fuel) n tail =
    let rest = decimal_from fuel (n / 10) ((48 + n % 10) ∷ tail) in
    if ltb n 10 then (48 + n % 10) ∷ tail else rest

unfoldable pub decimal : ℕ → Text
unfolding decimal_from
decimal n = decimal_from (suc n) n []

-- `int(digits)`, behind digits that say `n`.
unfoldable pub digits_value : ℕ → Text → ℕ
digits_value n [] = n
digits_value n (c ∷ cs) = digits_value (n * 10 + (c - 48)) cs

decimal_from-value :
    (fuel n : ℕ) (tail : Text)
    → n < fuel
    → digits_value 0 (decimal_from fuel n tail) ≡ digits_value n tail
unfolding decimal_from digits_value
decimal_from-value zero n tail h = absurd (omega arith)
decimal_from-value (suc fuel) n tail h = elim (Bool-cases (ltb n 10)) [
  | inl e ↦
      let k : 0 + (48 + n % 10 - 48) ≡ n = ground arith in rw e (ap (λ m. digits_value m tail) k)
  | inr e ↦
      let k : n / 10 * 10 + (48 + n % 10 - 48) ≡ n = omega arith in
      rw (decimal_from, e)
        (decimal_from-value fuel (n / 10) ((48 + n % 10) ∷ tail) (ground arith)
          ∙ ap (λ m. digits_value m tail) k)
]

-- A number is read back from its decimal form.
pub digits_value-decimal : (n : ℕ) → digits_value 0 (decimal n) ≡ n
unfolding decimal digits_value
digits_value-decimal n = decimal_from-value (suc n) n [] (omega arith)

decimal_from-codes :
    (c fuel n : ℕ) (tail : Text)
    → c < 48
    → contains_code c tail ≡ false
    → contains_code c (decimal_from fuel n tail) ≡ false
unfolding decimal_from
decimal_from-codes c zero n tail h k = k
decimal_from-codes c (suc fuel) n tail h k =
    let e : eqb (48 + n % 10) c ≡ false = ground arith in
    let rest = decimal_from-codes c fuel (n / 10) ((48 + n % 10) ∷ tail) h (ground (arith, e, k)) in
    elim (Bool-cases (ltb n 10)) [ inl f ↦ rw f (ground (arith, e, k)) | inr f ↦ rw f rest ]

-- A decimal form has no character that comes before the digits.
pub decimal-codes : (c n : ℕ) → c < 48 → contains_code c (decimal n) ≡ false
unfolding decimal
decimal-codes c n h = decimal_from-codes c (suc n) n [] h refl

-- A character that is no digit.
abbrev pub no_digit : ℕ → Bool
no_digit c = ltb c 48 || ltb 57 c

decimal_from-digits :
    (fuel n : ℕ) (tail : Text)
    → any no_digit tail ≡ false
    → any no_digit (decimal_from fuel n tail) ≡ false
unfolding decimal_from
decimal_from-digits zero n tail h = h
decimal_from-digits (suc fuel) n tail h =
    let e : no_digit (48 + n % 10) ≡ false = ground arith in
    let k : any no_digit ((48 + n % 10) ∷ tail) ≡ false = ground arith in
    let rest = decimal_from-digits fuel (n / 10) ((48 + n % 10) ∷ tail) k in
    elim (Bool-cases (ltb n 10)) [ inl f ↦ rw f k | inr f ↦ rw f rest ]

pub decimal-digits : (n : ℕ) → any no_digit (decimal n) ≡ false
unfolding decimal
decimal-digits n = decimal_from-digits (suc n) n [] refl

decimal_from-nonempty :
    (fuel n c : ℕ) (tail : Text) → nonempty (decimal_from fuel n (c ∷ tail)) ≡ true
unfolding decimal_from
decimal_from-nonempty zero n c tail = refl
decimal_from-nonempty (suc fuel) n c tail = elim (Bool-cases (ltb n 10)) [
  | inl f ↦ rw f refl
  | inr f ↦ rw f (decimal_from-nonempty fuel (n / 10) (48 + n % 10) (c ∷ tail))
]

pub decimal-nonempty : (n : ℕ) → nonempty (decimal n) ≡ true
unfolding decimal decimal_from
decimal-nonempty n = elim (Bool-cases (ltb n 10)) [
  | inl f ↦ rw f refl
  | inr f ↦ rw f (decimal_from-nonempty n (n / 10) (48 + n % 10) [])
]

decimal_1920 : decimal 1920 ≡ codes "1920"
unfolding decimal
decimal_1920 = refl

abbrev digit : ℕ → String
digit n =
    if eqb n 0
    then "0"
    else if eqb n 1
    then "1"
    else if eqb n 2
    then "2"
    else if eqb n 3
    then "3"
    else if eqb n 4
    then "4"
    else if eqb n 5
    then "5"
    else if eqb n 6
    then "6"
    else if eqb n 7
    then "7"
    else if eqb n 8
    then "8"
    else "9"

-- The same as a `String`.
decimal_string_from : ℕ → ℕ → String → String
decimal_string_from zero n tail = tail
decimal_string_from (suc fuel) n tail =
    let rest = decimal_string_from fuel (n / 10) (String.◌++◌ (digit (n % 10)) tail) in
    if ltb n 10 then String.◌++◌ (digit n) tail else rest

unfoldable pub decimal_string : ℕ → String
unfolding decimal_string_from
decimal_string n = decimal_string_from (suc n) n ""
