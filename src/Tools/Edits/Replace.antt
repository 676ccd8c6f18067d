-- ===== src/Tools/Edits/Replace.antt =====
-- What `str.count` and `str.replace` do in `_apply_edits` of src/xarness/tools.py, against the
-- split of a text at a separator.
use xarness.Prelude.{
  ℕ, zero, suc, ◌-◌, ◌≡◌, refl, sym, ap, ◌∙◌, true, false, some, List, [], ◌∷◌, ◌++◌, Text, arith,
  append-nil, append_assoc, length, drop, Bool-cases, inl, inr, Option-cases, ltb,
}
use xarness.Prelude.Strip.{drop_prefix}
use xarness.Tools.Edits.{starts_with, count_from, replace_from}

-- The parts of a text with a separator between them.
abbrev pub join : Text → List Text → Text
join sep [] = []
join sep (p ∷ []) = p
join sep (p ∷ q ∷ ps) = p ++ (sep ++ join sep (q ∷ ps))

drop_prefix-append : (old t rest : Text) → drop_prefix old t ≡ some rest → t ≡ old ++ rest
drop_prefix-append [] t rest h = ground arith
drop_prefix-append (p ∷ ps) [] rest h = absurd (ground arith)
drop_prefix-append (p ∷ ps) (c ∷ cs) rest h = ground (arith, drop_prefix-append ps cs rest)

-- The parts of a text between the occurrences that the scan takes.
unfoldable pub split_from : Text → ℕ → Text → Text → List Text
split_from old skip seen [] = seen ∷ []
split_from old (suc k) seen (c ∷ cs) = split_from old k seen cs
split_from old zero seen (c ∷ cs) = elim (starts_with (c ∷ cs) old) [
  | true ↦ seen ∷ split_from old (length old - 1) [] cs
  | false ↦ split_from old zero (seen ++ c ∷ []) cs
]

join-split_from :
    (sep p old : Text) (k : ℕ) (seen t : Text)
    → join sep (p ∷ split_from old k seen t) ≡ p ++ (sep ++ join sep (split_from old k seen t))
unfolding split_from
join-split_from sep p old zero seen [] = refl
join-split_from sep p old (suc k) seen [] = refl
join-split_from sep p old (suc k) seen (c ∷ cs) = join-split_from sep p old k seen cs
join-split_from sep p old zero seen (c ∷ cs) = elim (Bool-cases (starts_with (c ∷ cs) old)) [
  | inl e ↦ rw (split_from, e) refl
  | inr e ↦ rw (split_from, e) (join-split_from sep p old zero (seen ++ c ∷ []) cs)
]

drop-length_append : (xs ys : Text) → drop (length xs) (xs ++ ys) ≡ ys
drop-length_append [] ys = refl
drop-length_append (x ∷ xs) ys = drop-length_append xs ys

-- Where a text starts with a separator, it is the separator and what the scan goes on with.
starts_with-append :
    (p c : ℕ) (ps cs : Text)
    → starts_with (c ∷ cs) (p ∷ ps) ≡ true
    → c ∷ cs ≡ (p ∷ ps) ++ drop (length (p ∷ ps) - 1) cs
starts_with-append p c ps cs h = elim (Option-cases (drop_prefix (p ∷ ps) (c ∷ cs))) [
  | inl n ↦ absurd (ground arith)
  | inr (rest, e) ↦
      let whole = drop_prefix-append (p ∷ ps) (c ∷ cs) rest e in
      let tail : cs ≡ ps ++ rest = ground arith in
      let n : length (p ∷ ps) - 1 ≡ length ps = omega arith in
      rw (n, tail, drop-length_append ps rest) (ground arith)
]

module _ (p : ℕ) (ps : Text) where
  -- Joined by the separator, the parts are the text.
  pub join-split :
      (k : ℕ) (seen t : Text) → join (p ∷ ps) (split_from (p ∷ ps) k seen t) ≡ seen ++ drop k t
  unfolding split_from
  join-split zero seen [] = sym (append-nil seen)
  join-split (suc k) seen [] = sym (append-nil seen)
  join-split (suc k) seen (c ∷ cs) = join-split k seen cs
  join-split zero seen (c ∷ cs) = elim (Bool-cases (starts_with (c ∷ cs) (p ∷ ps))) [
    | inl e ↦
        let n = length (p ∷ ps) - 1 in
        rw (split_from, e)
          (join-split_from (p ∷ ps) seen (p ∷ ps) n [] cs
            ∙ ap (λ r. seen ++ ((p ∷ ps) ++ r)) (join-split n [] cs)
            ∙ ap (λ r. seen ++ r) (sym (starts_with-append p c ps cs e)))
    | inr e ↦
        rw (split_from, e) (join-split zero (seen ++ c ∷ []) cs ∙ append_assoc seen (c ∷ []) cs)
  ]

  count_from_hit :
      (c : ℕ) (cs : Text)
      → starts_with (c ∷ cs) (p ∷ ps) ≡ true
      → count_from (p ∷ ps) 0 (c ∷ cs) ≡ suc (count_from (p ∷ ps) (length (p ∷ ps) - 1) cs)
  unfolding count_from
  count_from_hit c cs e = rw (count_from, e) refl

  count_from_miss :
      (c : ℕ) (cs : Text)
      → starts_with (c ∷ cs) (p ∷ ps) ≡ false
      → count_from (p ∷ ps) 0 (c ∷ cs) ≡ count_from (p ∷ ps) 0 cs
  unfolding count_from
  count_from_miss c cs e = rw (count_from, e) refl

  replace_from-count_from_skip :
      (new : Text) (k c : ℕ) (cs : Text)
      → replace_from (p ∷ ps) new (count_from (p ∷ ps) (suc k) (c ∷ cs)) (suc k) (c ∷ cs)
        ≡ replace_from (p ∷ ps) new (count_from (p ∷ ps) k cs) k cs
  unfolding count_from replace_from
  replace_from-count_from_skip new k c cs = refl

  replace_from_hit :
      (new : Text) (m c : ℕ) (cs : Text)
      → starts_with (c ∷ cs) (p ∷ ps) ≡ true
      → replace_from (p ∷ ps) new (suc m) 0 (c ∷ cs)
        ≡ new ++ replace_from (p ∷ ps) new m (length (p ∷ ps) - 1) cs
  unfolding replace_from
  replace_from_hit new m c cs e =
      let pred : suc m - 1 ≡ m = omega arith in
      let positive : ltb 0 (suc m) ≡ true = ground arith in
      rw (replace_from, e, positive)
        (ap (λ i. new ++ replace_from (p ∷ ps) new i (length (p ∷ ps) - 1) cs) pred)

  replace_from_miss :
      (new : Text) (n c : ℕ) (cs : Text)
      → starts_with (c ∷ cs) (p ∷ ps) ≡ false
      → replace_from (p ∷ ps) new n 0 (c ∷ cs) ≡ c ∷ replace_from (p ∷ ps) new n 0 cs
  unfolding replace_from
  replace_from_miss new n c cs e = elim (Bool-cases (ltb 0 n)) [
    | inl l ↦ rw (replace_from, e, l) refl
    | inr l ↦ rw (replace_from, e, l) refl
  ]

  -- Joined by the new text, they are the text with every occurrence replaced.
  pub join-replace :
      (new : Text) (k : ℕ) (seen t : Text)
      → join new (split_from (p ∷ ps) k seen t)
        ≡ seen ++ replace_from (p ∷ ps) new (count_from (p ∷ ps) k t) k t
  unfolding split_from
  join-replace new zero seen [] = unfold replace_from in sym (append-nil seen)
  join-replace new (suc k) seen [] = unfold replace_from in sym (append-nil seen)
  join-replace new (suc k) seen (c ∷ cs) =
      join-replace new k seen cs
      ∙ ap (λ r. seen ++ r) (sym (replace_from-count_from_skip new k c cs))
  join-replace new zero seen (c ∷ cs) = elim (Bool-cases (starts_with (c ∷ cs) (p ∷ ps))) [
    | inl e ↦
        let n = length (p ∷ ps) - 1 in
        rw (count_from_hit c cs e, replace_from_hit new (count_from (p ∷ ps) n cs) c cs e)
          (rw (split_from, e)
            (join-split_from new seen (p ∷ ps) n [] cs
              ∙ ap (λ r. seen ++ (new ++ r)) (join-replace new n [] cs)))
    | inr e ↦
        rw (count_from_miss c cs e, replace_from_miss new (count_from (p ∷ ps) 0 cs) c cs e)
          (rw (split_from, e)
            (join-replace new zero (seen ++ c ∷ []) cs
              ∙ append_assoc seen (c ∷ [])
                  (replace_from (p ∷ ps) new (count_from (p ∷ ps) 0 cs) 0 cs)))
  ]

  pub length-split :
      (k : ℕ) (seen t : Text)
      → length (split_from (p ∷ ps) k seen t) ≡ suc (count_from (p ∷ ps) k t)
  unfolding split_from count_from
  length-split zero seen [] = refl
  length-split (suc k) seen [] = refl
  length-split (suc k) seen (c ∷ cs) = length-split k seen cs
  length-split zero seen (c ∷ cs) = elim (Bool-cases (starts_with (c ∷ cs) (p ∷ ps))) [
    | inl e ↦
        rw (split_from, count_from, e) (ap (λ n. suc n) (length-split (length (p ∷ ps) - 1) [] cs))
    | inr e ↦ rw (split_from, count_from, e) (length-split zero (seen ++ c ∷ []) cs)
  ]
