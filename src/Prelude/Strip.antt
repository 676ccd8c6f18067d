-- ===== src/Prelude/Strip.antt =====
-- Texts: Python's `str.strip`, and the tests on a prefix and on equality.
use mathlib.Core.List.{reverse, reverse-append, reverse-reverse}
use xarness.Prelude.{
  ◌≡◌, refl, ap, ◌∙◌, sym, any, any-append, arith, ◌++◌, nonempty, append-nil, ℕ, Bool, true, false,
  ◌&&◌, ◌||◌, Option, none, some, [], ◌∷◌, Text, eqb, leb, if◌then◌else◌,
}

-- `str.isspace` of one character.
abbrev pub is_space : ℕ → Bool
is_space c =
    (leb 9 c && leb c 13)
    || (leb 28 c && leb c 32)
    || eqb c 133
    || eqb c 160
    || eqb c 5760
    || (leb 8192 c && leb c 8202)
    || eqb c 8232
    || eqb c 8233
    || eqb c 8239
    || eqb c 8287
    || eqb c 12288

unfoldable pub lstrip : Text → Text
lstrip [] = []
lstrip (c ∷ cs) = if is_space c then lstrip cs else c ∷ cs

-- `str.strip`
unfoldable pub strip : Text → Text
unfolding lstrip
strip t = reverse (lstrip (reverse (lstrip t)))

-- `t[len(prefix):]` where the text starts with the prefix.
abbrev pub drop_prefix : Text → Text → Option Text
drop_prefix [] t = some t
drop_prefix (p ∷ ps) [] = none
drop_prefix (p ∷ ps) (c ∷ cs) = let rest = drop_prefix ps cs in if eqb p c then rest else none

abbrev pub text_eq : Text → Text → Bool
text_eq [] [] = true
text_eq [] (c ∷ cs) = false
text_eq (b ∷ bs) [] = false
text_eq (b ∷ bs) (c ∷ cs) = eqb b c && text_eq bs cs

lstrip-kept : (w t : Text) → nonempty w ≡ true → any is_space w ≡ false → lstrip (w ++ t) ≡ w ++ t
unfolding lstrip
lstrip-kept [] t h k = absurd (ground arith)
lstrip-kept (c ∷ cs) t h k = let e : is_space c ≡ false = ground arith in rw e refl

any-reverse : (p : ℕ → Bool) (w : Text) → any p (reverse w) ≡ any p w
any-reverse p [] = refl
any-reverse p (c ∷ cs) =
    ap (any p) (reverse-append (c ∷ []) cs)
    ∙ ground (arith, any-append p (reverse cs) (c ∷ []), any-reverse p cs)

nonempty-snoc : (w : Text) (c : ℕ) → nonempty (w ++ c ∷ []) ≡ true
nonempty-snoc [] c = refl
nonempty-snoc (d ∷ w) c = refl

nonempty-reverse : (w : Text) → nonempty (reverse w) ≡ nonempty w
nonempty-reverse [] = refl
nonempty-reverse (c ∷ cs) = ap nonempty (reverse-append (c ∷ []) cs) ∙ nonempty-snoc (reverse cs) c

-- A word between a space and a line's end.
pub strip-word :
    (w : Text) → nonempty w ≡ true → any is_space w ≡ false → strip (32 ∷ w ++ 10 ∷ []) ≡ w
unfolding strip lstrip
strip-word w h k =
    let a : lstrip (w ++ 10 ∷ []) ≡ w ++ 10 ∷ [] = lstrip-kept w (10 ∷ []) h k in
    let b : lstrip (reverse w) ≡ reverse w =
      ap lstrip (sym (append-nil (reverse w)))
      ∙ lstrip-kept (reverse w) [] (nonempty-reverse w ∙ h) (any-reverse is_space w ∙ k)
      ∙ append-nil (reverse w) in
    rw (a, reverse-append w (10 ∷ []), b) (reverse-reverse w)

pub text_eq_refl : (t : Text) → text_eq t t ≡ true
text_eq_refl [] = refl
text_eq_refl (c ∷ t) = ground (arith, text_eq_refl t)

pub text_eq→≡ : (s t : Text) → text_eq s t ≡ true → s ≡ t
text_eq→≡ [] [] h = refl
text_eq→≡ [] (c ∷ t) h = absurd (ground arith)
text_eq→≡ (b ∷ s) [] h = absurd (ground arith)
text_eq→≡ (b ∷ s) (c ∷ t) h = ground (arith, text_eq→≡ s t)

pub drop_prefix-append : (p t : Text) → drop_prefix p (p ++ t) ≡ some t
drop_prefix-append [] t = refl
drop_prefix-append (c ∷ p) t = ground (arith, drop_prefix-append p t)

pub drop_prefix-rest : (p t rest : Text) → drop_prefix p t ≡ some rest → t ≡ p ++ rest
drop_prefix-rest [] t rest h = ground arith
drop_prefix-rest (c ∷ p) [] rest h = absurd (ground arith)
drop_prefix-rest (c ∷ p) (d ∷ t) rest h = ground (arith, drop_prefix-rest p t rest)

pub text_eq-longer : (s : Text) (c : ℕ) (t : Text) → text_eq s (s ++ c ∷ t) ≡ false
text_eq-longer [] c t = refl
text_eq-longer (b ∷ s) c t = ground (arith, text_eq-longer s c t)
