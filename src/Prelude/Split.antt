-- ===== src/Prelude/Split.antt =====
-- `t.split(sep)` at one character.
use xarness.Prelude.{
  ℕ, ◌≡◌, refl, ap, sym, ◌∙◌, true, false, List, [], ◌∷◌, ◌++◌, append_assoc, append-nil, Text, any,
  eqb, if◌then◌else◌, arith, contains_code, Bool-cases, ◌||◌, inl, inr,
}

-- The parts of a text; `seen` is the part so far.
abbrev pub split_from : ℕ → Text → Text → List Text
split_from sep seen [] = seen ∷ []
split_from sep seen (c ∷ cs) =
    let later = split_from sep [] cs in
    let longer = split_from sep (seen ++ c ∷ []) cs in if eqb c sep then seen ∷ later else longer

abbrev pub split_on : ℕ → Text → List Text
split_on sep t = split_from sep [] t

pub contains_code-append :
    (c : ℕ) (s t : Text) → contains_code c (s ++ t) ≡ (contains_code c s || contains_code c t)
contains_code-append c [] t = refl
contains_code-append c (d ∷ s) t = ground (arith, contains_code-append c s t)

split_from-free :
    (sep : ℕ) (seen t : Text)
    → contains_code sep seen ≡ false
    → any (contains_code sep) (split_from sep seen t) ≡ false
split_from-free sep seen [] h = ground arith
split_from-free sep seen (c ∷ cs) h = elim (Bool-cases (eqb c sep)) [
  | inl e ↦ rw e (ground (arith, split_from-free sep [] cs refl))
  | inr e ↦ rw e (
      split_from-free sep (seen ++ c ∷ []) cs
        (ground (arith, contains_code-append sep seen (c ∷ []))))
]

pub split_on-free : (sep : ℕ) (t : Text) → any (contains_code sep) (split_on sep t) ≡ false
split_on-free sep t = split_from-free sep [] t refl

split_from-part :
    (sep : ℕ) (seen a : Text)
    → contains_code sep a ≡ false
    → split_from sep seen a ≡ (seen ++ a) ∷ []
split_from-part sep seen [] h = ap (λ t. t ∷ []) (sym (append-nil seen))
split_from-part sep seen (c ∷ cs) h =
    let e : eqb c sep ≡ false = ground arith in
    rw e (
      split_from-part sep (seen ++ c ∷ []) cs (ground arith)
      ∙ ap (λ t. t ∷ []) (append_assoc seen (c ∷ []) cs))

pub split_on-part : (sep : ℕ) (a : Text) → contains_code sep a ≡ false → split_on sep a ≡ a ∷ []
split_on-part sep a h = split_from-part sep [] a h

split_from-sep :
    (sep : ℕ) (seen a b : Text)
    → contains_code sep a ≡ false
    → split_from sep seen (a ++ sep ∷ b) ≡ (seen ++ a) ∷ split_on sep b
split_from-sep sep seen [] b h =
    let e : eqb sep sep ≡ true = ground arith in
    rw e (ap (λ t. t ∷ split_on sep b) (sym (append-nil seen)))
split_from-sep sep seen (c ∷ cs) b h =
    let e : eqb c sep ≡ false = ground arith in
    rw e (
      split_from-sep sep (seen ++ c ∷ []) cs b (ground arith)
      ∙ ap (λ t. t ∷ split_on sep b) (append_assoc seen (c ∷ []) cs))

pub split_on-sep :
    (sep : ℕ) (a b : Text)
    → contains_code sep a ≡ false
    → split_on sep (a ++ sep ∷ b) ≡ a ∷ split_on sep b
split_on-sep sep a b h = split_from-sep sep [] a b h

-- `sep.join(xs)`
abbrev pub join_on : ℕ → List Text → Text
join_on sep [] = []
join_on sep (p ∷ []) = p
join_on sep (p ∷ q ∷ ps) = p ++ sep ∷ join_on sep (q ∷ ps)

-- One more part in front.
join_on-part :
    (sep : ℕ) (p : Text) (seen t : Text)
    → join_on sep (p ∷ split_from sep seen t) ≡ p ++ sep ∷ join_on sep (split_from sep seen t)
join_on-part sep p seen [] = refl
join_on-part sep p seen (c ∷ cs) = elim (Bool-cases (eqb c sep)) [
  | inl e ↦ rw e refl
  | inr e ↦ rw e (join_on-part sep p (seen ++ c ∷ []) cs)
]

join_on-split_from : (sep : ℕ) (seen t : Text) → join_on sep (split_from sep seen t) ≡ seen ++ t
join_on-split_from sep seen [] = sym (append-nil seen)
join_on-split_from sep seen (c ∷ cs) = elim (Bool-cases (eqb c sep)) [
  | inl e ↦
      let same : c ≡ sep = ground arith in
      rw e (
        join_on-part sep seen [] cs
        ∙ ap (λ r. seen ++ sep ∷ r) (join_on-split_from sep [] cs)
        ∙ ap (λ d. seen ++ d ∷ cs) (sym same))
  | inr e ↦ rw e (join_on-split_from sep (seen ++ c ∷ []) cs ∙ append_assoc seen (c ∷ []) cs)
]

pub join_on-split_on : (sep : ℕ) (t : Text) → join_on sep (split_on sep t) ≡ t
join_on-split_on sep t = join_on-split_from sep [] t
